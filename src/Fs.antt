-- ===== src/Fs.antt =====
-- What the server uses of the operating system: paths, `stat` buffers and their mode bits.
use unfs3_raft.Base.{ℕ, ◌/◌, ◌%◌, ◌^◌, Bool, true, false, ◌&&◌, List, [], ◌∷◌, Option, ◌==◌}

-- A string without its terminating NUL.
abbrev pub FilePath : Type 0
FilePath = List ℕ

-- `strcmp(a, b) == 0`
unfoldable pub str_eq : List ℕ → List ℕ → Bool
str_eq [] [] = true
str_eq [] (y ∷ ys) = false
str_eq (x ∷ xs) [] = false
str_eq (x ∷ xs) (y ∷ ys) = (x == y) && str_eq xs ys

abbrev pub slash : ℕ
slash = 0x2f

abbrev pub root_path : FilePath
root_path = slash ∷ []

abbrev pub dot : FilePath
dot = 0x2e ∷ []

abbrev pub dot_dot : FilePath
dot_dot = 0x2e ∷ 0x2e ∷ []

-- NFS_MAXPATHLEN
abbrev pub nfs_maxpathlen : ℕ
nfs_maxpathlen = 1024

-- backend_statstruct
pub record Stat : Type 0 where
  pub st_dev : ℕ
  pub st_ino : ℕ
  pub st_mode : ℕ
  pub st_nlink : ℕ
  pub st_uid : ℕ
  pub st_gid : ℕ
  pub st_rdev : ℕ
  pub st_size : ℕ
  pub st_blksize : ℕ
  pub st_blocks : ℕ
  pub st_atime : ℕ
  pub st_mtime : ℕ
  pub st_ctime : ℕ

-- `st_mode & S_IFMT`, the file type in the bits 12 to 15.
abbrev pub file_type : ℕ → ℕ
file_type mode = mode / 2 ^ 12 % 2 ^ 4

abbrev pub s_isdir : ℕ → Bool
s_isdir mode = file_type mode == 4

abbrev pub s_isreg : ℕ → Bool
s_isreg mode = file_type mode == 8

-- The file system at one moment, as far as the search for a file handle looks at it. `readdir` gives
-- the names that a directory stream hands out, in its order.
pub record FileSystem : Type 0 where
  pub lstat : FilePath → Option Stat
  pub readdir : FilePath → Option (List FilePath)
  pub get_gen : Stat → FilePath → ℕ
