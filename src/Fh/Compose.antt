-- ===== src/Fh/Compose.antt =====
-- fh.c: `fh_comp_raw`, from a path to a handle.
pub mod Child
pub mod Lookup
use unfs3_raft.Base.{
  ◌%◌, ◌^◌, ℕ, zero, suc, ◌+◌, Bool, true, false, not, ◌&&◌, List, [], ◌∷◌, ◌++◌, Option, none,
  some, length, drop, ◌==◌, if◌then◌else◌,
}
use unfs3_raft.Fs.{FilePath, slash, root_path, str_eq, Stat, s_isdir, FileSystem}
use unfs3_raft.Fh.{Fh, fh_maxlen, fh_hash, invalid_fh}

-- The characters before the next '/', and those behind it, as `strchr` finds it.
unfoldable pub next_slash : FilePath → FilePath × Option FilePath
next_slash [] = ([], none)
next_slash (c ∷ cs) =
    let (front, back) = next_slash cs in if c == slash then ([], some cs) else (c ∷ front, back)

unfoldable pub prepend : ℕ → Option (List ℕ) → Option (List ℕ)
prepend h none = none
prepend h (some hs) = some (h ∷ hs)

-- What is read of `/etc/exports`: `export_point`, and `exports_options` with the fsid and whether the
-- options hold OPT_REMOVABLE; `none` is its result -1.
pub record Exports : Type 0 where
  pub export_point : FilePath → Bool
  pub exports_options : FilePath → Option (ℕ × Bool)

-- One round: the object must exist, and the loop ends behind the last '/'.
unfoldable pub component :
    (FilePath → Option (List ℕ)) → Option Stat → Option FilePath → Option (List ℕ)
component deeper none more = none
component deeper (some buf) none = some (fh_hash buf.st_ino ∷ [])
component deeper (some buf) (some rest) = prepend (fh_hash buf.st_ino) (deeper rest)

-- The array starts as the stack holds it.
unfoldable pub with_components : Fh → Option (List ℕ) → Fh
with_components fh none = invalid_fh
with_components fh (some hs) = record fh { len = length hs; inos = hs ++ drop (length hs) fh.inos }

unfoldable pub tail : FilePath → FilePath
tail [] = []
tail (c ∷ cs) = cs

module _ (fs : FileSystem) where
  -- The loop of `fh_comp_raw` with `room` rounds left, which is `FH_MAXLEN - pos`: `done` is the part
  -- of `work` before `last`, and `rest` the part behind it; `none` is a return of `invalid_fh`.
  unfoldable pub components : ℕ → FilePath → FilePath → Option (List ℕ)
  components zero done rest = none
  components (suc room) done rest =
      let (name, more) = next_slash rest in
      let work : FilePath = done ++ (slash ∷ name) in
      component (components room work) (fs.lstat work) more

  -- The part behind the special case. `fh` is the uninitialised local variable, with `len` 0; its
  -- password hash is never set here. `strcpy` relies on a path below NFS_MAXPATHLEN.
  unfoldable pub comp_found : Fh → FilePath → Bool → Option Stat → Fh
  comp_found fh path need_dir none = invalid_fh
  comp_found fh path need_dir (some buf) =
      let found : Fh = record fh {
        dev = buf.st_dev % 2 ^ 32;
        ino = buf.st_ino;
        gen = fs.get_gen buf path;
      } in
      if need_dir && not (s_isdir buf.st_mode)
      then invalid_fh
      else if str_eq path root_path
      then found
      else with_components found (components fh_maxlen [] (tail path))

  unfoldable pub comp_path : Fh → FilePath → Bool → Fh
  comp_path fh path need_dir = comp_found fh path need_dir (fs.lstat path)

  -- `client` says whether `rqstp` was given.
  unfoldable pub fh_comp_raw : Exports → Fh → FilePath → Bool → Bool → Fh
  fh_comp_raw exports junk path client need_dir =
      let fh : Fh = record junk { len = 0 } in
      if client && exports.export_point path
      then elim (exports.exports_options path) [
        | none ↦ invalid_fh
        | some (fsid, removable) ↦
            if removable
            then record fh { dev = fsid; ino = 1; gen = 0 }
            else comp_path fh path need_dir
      ]
      else comp_path fh path need_dir
