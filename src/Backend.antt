-- ===== src/Backend.antt =====
-- backend_unix.h: the system calls the server makes, as operations on the state of the system. -1 and
-- NULL are `none` and `false`, and `errno` is part of the state. A path is `none` where the server may
-- pass NULL on.
use unfs3_raft.Base.{ℕ, Bool, List, Option}
use unfs3_raft.Fs.{FilePath, Stat, FileSystem}
use unfs3_raft.User.{System}

-- What backend_statvfsstruct gives.
pub record StatVfs : Type 0 where
  pub f_blocks : ℕ
  pub f_bfree : ℕ
  pub f_bavail : ℕ
  pub f_frsize : ℕ
  pub f_files : ℕ
  pub f_ffree : ℕ

-- O_RDONLY and O_WRONLY
pub data Access : Type 0 where
  o_rdonly : Access
  o_wronly : Access

-- R_OK, W_OK and X_OK
pub data Permission : Type 0 where
  r_ok : Permission
  w_ok : Permission
  x_ok : Permission

pub record Backend : Type 1 where
  pub Os : Type 0
  pub errno : Os → ℕ
  pub set_errno : ℕ → Os → Os
  pub time : Os → ℕ
  pub rand : Os → Os × ℕ
  pub getpid : Os → ℕ
  pub getuid : Os → ℕ
  pub getgid : Os → ℕ
  pub geteuid : Os → ℕ
  pub getegid : Os → ℕ
  pub setegid : ℕ → Os → Os × Bool
  pub seteuid : ℕ → Os → Os × Bool
  pub setgroups : List ℕ → Os → Os × Bool
  pub umask : ℕ → Os → Os
  pub lstat : FilePath → Os → Os × Option Stat
  pub stat : FilePath → Os → Os × Option Stat
  pub fstat : ℕ → Os → Os × Option Stat
  -- `none` is FD_NONE.
  pub get_gen : Stat → Option ℕ → FilePath → Os → ℕ
  -- backend_opendir with all that backend_readdir then gives
  pub opendir : Option FilePath → Os → Os × Option (List FilePath)
  pub statvfs : Option FilePath → Os → Os × Option StatVfs
  pub access : Option FilePath → Permission → Os → Os × Bool
  pub readlink : Option FilePath → ℕ → Os → Os × Option (List ℕ)
  -- with O_NONBLOCK or not
  pub open_file : FilePath → Access → Bool → Os → Os × Option ℕ
  -- O_RDWR | O_CREAT | O_TRUNC | O_NONBLOCK, with O_EXCL or not
  pub open_create : FilePath → Bool → ℕ → Os → Os × Option ℕ
  pub close : ℕ → Os → Os × Bool
  pub fsync : ℕ → Os → Os × Bool
  pub pread : ℕ → ℕ → ℕ → Os → Os × Option (List ℕ)
  pub pwrite : ℕ → List ℕ → ℕ → Os → Os × Option ℕ
  pub truncate : FilePath → ℕ → Os → Os × Bool
  pub ftruncate : ℕ → ℕ → Os → Os × Bool
  pub lchown : FilePath → ℕ → ℕ → Os → Os × Bool
  pub fchown : ℕ → ℕ → ℕ → Os → Os × Bool
  pub chmod : FilePath → ℕ → Os → Os × Bool
  pub fchmod : ℕ → ℕ → Os → Os × Bool
  -- the seconds of access and of modification
  pub utimes : FilePath → ℕ → ℕ → Os → Os × Bool
  pub lutimes : FilePath → ℕ → ℕ → Os → Os × Bool
  pub mkdir : FilePath → ℕ → Os → Os × Bool
  pub mknod : FilePath → ℕ → ℕ → Os → Os × Bool
  pub mkfifo : FilePath → ℕ → Os → Os × Bool
  pub socket : Os → Os × Option ℕ
  pub bind : ℕ → FilePath → Os → Os × Bool
  pub symlink : List ℕ → FilePath → Os → Os × Bool
  pub link : FilePath → FilePath → Os → Os × Bool
  pub rename : FilePath → FilePath → Os → Os × Bool
  pub remove : FilePath → Os → Os × Bool
  pub rmdir : FilePath → Os → Os × Bool

module _ (b : Backend) where
  open b use {Os, setegid, seteuid, setgroups, getuid, getgid, lstat, opendir, get_gen}

  -- What a search that only reads sees of a state.
  abbrev pub files : Os → FileSystem
  files os = record {
    lstat = λ path. (lstat path os).1;
    readdir = λ path. (opendir (Option.some path) os).1;
    get_gen = λ buf path. get_gen buf Option.none path os;
  }

  -- What the change of user needs.
  abbrev pub rights : System
  rights = record {
    State = Os;
    setegid = setegid;
    seteuid = seteuid;
    setgroups = setgroups;
    getuid = getuid;
    getgid = getgid;
  }
