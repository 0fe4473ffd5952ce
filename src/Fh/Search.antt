-- ===== src/Fh/Search.antt =====
-- fh.c: `fh_rec` and `fh_decomp_raw`, from a handle to a path. This is the build without WIN32,
-- where the search of a directory stops at the first match.
pub mod Sound
pub mod Complete
use mathlib.Core.Option
use unfs3_raft.Base.{
  ℕ, zero, suc, ◌+◌, Bool, true, false, not, ◌&&◌, List, [], ◌∷◌, ◌++◌, Option, none, some, length,
  drop, take, ltb, ◌==◌, if◌then◌else◌,
}
use unfs3_raft.Fs.{
  FilePath, slash, root_path, dot, dot_dot, nfs_maxpathlen, str_eq, Stat, FileSystem,
}
use unfs3_raft.Fh.{Fh, fh_hash}

-- What the search finds: the path, and the buffer that goes through `fix_dir_times` into the stat
-- cache.
abbrev pub Found : Type 0
Found = Option (FilePath × Stat)

-- `buf` after `backend_lstat`: a failed call leaves its other fields as they were.
unfoldable pub stat_or_zero : Option Stat → Stat → Stat
stat_or_zero none buf = record buf { st_dev = 0; st_ino = 0 }
stat_or_zero (some new) buf = new

abbrev pub is_object : Fh → Stat → Bool
is_object fh buf = (buf.st_dev == fh.dev) && (buf.st_ino == fh.ino)

-- A directory that may lie on the way, by the hash of its inode.
abbrev pub may_descend : ℕ → FilePath → Stat → Bool
may_descend hash name buf =
    not (str_eq name dot_dot) && (not (str_eq name dot) && (fh_hash buf.st_ino == hash))

abbrev pub fits_path : FilePath → FilePath → Bool
fits_path lead name = ltb (length lead + length name + 1) nfs_maxpathlen

-- A result of the recursive call ends the loop; without one it goes on.
abbrev pub or_else : Found → Found → Found
or_else none other = other
or_else (some found) other = some found

module _ (fs : FileSystem) (fh : Fh) where
  -- The loop over the entries of the directory `lead`: `hash` is `fh->inos[pos]`, `descend` the
  -- recursive call at `pos + 1`, and `buf` the buffer as the last round left it.
  unfoldable pub scan : (FilePath → Found) → ℕ → FilePath → Stat → List FilePath → Found
  scan descend hash lead buf [] = none
  scan descend hash lead buf (name ∷ names) =
      let obj : FilePath = lead ++ (slash ∷ name) in
      let buf' : Stat = stat_or_zero (fs.lstat obj) buf in
      let skipped : Found = scan descend hash lead buf names in
      let rest : Found = scan descend hash lead buf' names in
      if fits_path lead name
      then if is_object fh buf'
        then some (drop 1 lead ++ (slash ∷ name), buf')
        else if may_descend hash name buf'
        then or_else (descend obj) rest
        else rest
      else skipped

  unfoldable pub scan_dir :
      (FilePath → Found) → ℕ → FilePath → Stat → Option (List FilePath) → Found
  scan_dir descend hash lead junk none = none
  scan_dir descend hash lead junk (some names) = scan descend hash lead junk names

  -- The list holds the rest of the array, `fh->inos[pos]` to `fh->inos[fh->len - 1]`; `junk` is the
  -- uninitialised buffer of each call.
  unfoldable pub fh_rec : Stat → List ℕ → FilePath → Found
  fh_rec junk [] lead = none
  fh_rec junk (hash ∷ hashes) lead = scan_dir (fh_rec junk hashes) hash lead junk (fs.readdir lead)

  -- The root has no buffer to offer.
  unfoldable pub fh_decomp_raw : Stat → Option (FilePath × Option Stat)
  fh_decomp_raw junk =
      if fh.len == 0
      then some (root_path, none)
      else Option.map (λ found. (found.0, some found.1))
          (fh_rec junk (take fh.len fh.inos) root_path)
