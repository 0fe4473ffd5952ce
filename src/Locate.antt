-- ===== src/Locate.antt =====
-- locate.c: the search for an object in the whole file system of a device, in the build with mntent.h.
use unfs3_raft.Base.{
  ℕ, zero, suc, ◌+◌, Bool, not, ◌&&◌, List, [], ◌∷◌, ◌++◌, Option, none, some, length, ltb, ◌==◌,
  if◌then◌else◌,
}
use unfs3_raft.Fs.{FilePath, slash, dot, dot_dot, nfs_maxpathlen, str_eq, s_isdir, FileSystem}
use unfs3_raft.Fh.Search.{Found, or_else}

module _ (fs : FileSystem) (dev ino : ℕ) where
  -- The loop over the entries of the directory `pfx`; `descend` is the recursive call.
  unfoldable pub locate_scan : (FilePath → Found) → FilePath → List FilePath → Found
  locate_scan descend pfx [] = none
  locate_scan descend pfx (name ∷ names) =
      let path : FilePath = pfx ++ (slash ∷ name) in
      let rest : Found = locate_scan descend pfx names in
      if not (ltb (length pfx + length name + 2) nfs_maxpathlen)
      then rest
      else elim (fs.lstat path) [
        | none ↦ rest
        | some buf ↦
            if (buf.st_dev == dev) && (buf.st_ino == ino)
            then some (path, buf)
            else if (buf.st_dev == dev)
                && (s_isdir buf.st_mode && (not (str_eq name dot) && not (str_eq name dot_dot)))
            then or_else (descend path) rest
            else rest
      ]

  -- A path grows by two characters at least in each call and stays below NFS_MAXPATHLEN, so
  -- NFS_MAXPATHLEN levels are enough.
  unfoldable pub locate_pfx : ℕ → FilePath → Found
  locate_pfx zero pfx = none
  locate_pfx (suc levels) pfx = elim (fs.readdir pfx) [
    | none ↦ none
    | some names ↦ locate_scan (locate_pfx levels) pfx names
  ]

  -- The first mounted directory that has the device.
  unfoldable pub mount_of : List FilePath → Option FilePath
  mount_of [] = none
  mount_of (dir ∷ dirs) = elim (fs.lstat dir) [
    | none ↦ mount_of dirs
    | some buf ↦ if buf.st_dev == dev then some dir else mount_of dirs
  ]

  -- `mtab` is what getmntent gives. The buffer that is found goes through `fix_dir_times` into the
  -- stat cache.
  unfoldable pub locate_file : Bool → Option (List FilePath) → Found
  locate_file opt_brute_force none = none
  locate_file opt_brute_force (some mtab) =
      if not opt_brute_force
      then none
      else elim (mount_of mtab) [ none ↦ none | some dir ↦ locate_pfx nfs_maxpathlen dir ]
