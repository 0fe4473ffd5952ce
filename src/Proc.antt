-- ===== src/Proc.antt =====
-- nfs.c: what all procedures of the protocol start with. `cluster_lookup` and `cluster_create` are empty in
-- the build without WANT_CLUSTER.
pub mod Verifier
pub mod Info
pub mod Io
pub mod Change
pub mod Create
pub mod Make
pub mod Limits
pub mod Stale
pub mod Dispatch
pub mod Within
pub mod Reading
use unfs3_raft.Base.{
  ℕ, ◌+◌, Bool, true, false, not, ◌&&◌, ◌||◌, List, [], ◌∷◌, ◌++◌, Option, none, some, length, ltb,
  ◌==◌, if◌then◌else◌,
}
use unfs3_raft.Fs.{FilePath, slash, root_path, dot, dot_dot, nfs_maxpathlen, str_eq}
use unfs3_raft.Fh.{NfsFh}
use unfs3_raft.Nfs.{Nfsstat3, nfs3_ok, nfs3err_stale, nfs3err_acces, nfs3err_nametoolong}
use unfs3_raft.Server.{Config, Run, ◌>>=◌, ◌>>◌, pure, decode, run_switch_to_root, run_switch_user}
use unfs3_raft.Server.Handles.{fh_decomp}

-- NFS_MAXDATA_TCP and NFS_MAXDATA_UDP
unfoldable pub maxdata : Bool → ℕ
maxdata is_stream = if is_stream then 524288 else 32768

-- diropargs3
pub record DirOpArgs : Type 0 where
  pub dir : NfsFh
  pub name : FilePath

-- `strchr(name, '/') != NULL`
unfoldable pub has_slash : FilePath → Bool
has_slash [] = false
has_slash (c ∷ cs) = (c == slash) || has_slash cs

-- What stands before the last slash, as `strrchr` finds it.
unfoldable pub before_last : FilePath → Option FilePath
before_last [] = none
before_last (c ∷ cs) = elim (before_last cs) [
  | none ↦ if c == slash then some [] else none
  | some front ↦ some (c ∷ front)
]

unfoldable pub parent : FilePath → FilePath
parent path = elim (before_last path) [
  | none ↦ root_path
  | some front ↦ elim front [ [] ↦ root_path | c ∷ cs ↦ c ∷ cs ]
]

-- The status, and the array `result`, which is empty where it is not written. A name of the protocol
-- is never NULL.
unfoldable pub cat_name : Option FilePath → FilePath → Nfsstat3 × FilePath
cat_name none name = (nfs3err_stale, [])
cat_name (some path) name =
    if (length name == 0) || has_slash name
    then (nfs3err_acces, [])
    else if ltb nfs_maxpathlen (length path + length name + 2)
    then (nfs3err_nametoolong, [])
    else if str_eq name dot
    then (nfs3_ok, path)
    else if str_eq name dot_dot
    then (nfs3_ok, parent path)
    else (nfs3_ok, path ++ (slash ∷ name))

-- PREP: the export that holds the object is not looked at.
unfoldable pub prep : (c : Config) → NfsFh → Run c.backend.Os (Option FilePath)
prep c f = do decode c f; run_switch_to_root c; p ← fh_decomp c f; run_switch_user c; pure p
