-- ===== src/Examples/System.antt =====
-- A server whose files are all alike, and directories with two names.
use unfs3_raft.Base.{ℕ, ◌+◌, Bool, true, false, none, some, List, [], ◌∷◌, replicate, length}
use unfs3_raft.Bytes.{little}
use unfs3_raft.Backend.{Backend}
use unfs3_raft.Error.{Errnos}
use unfs3_raft.Fs.{FilePath, Stat}
use unfs3_raft.Fh.{NfsFh, no_inos, invalid_fh}
use unfs3_raft.FhCache.{initial, fh_cache_add}
use unfs3_raft.FdCache.{fd_read}
use unfs3_raft.Exports.{no_export}
use unfs3_raft.User.{anon_notspecial}
use unfs3_raft.Attr.Times.{BadDirs}
use unfs3_raft.Server.{Server, Config}

abbrev pub some_dir : Stat
some_dir = record {
  st_dev = 1;
  st_ino = 4;
  st_mode = 0x41ed;
  st_nlink = 2;
  st_uid = 0;
  st_gid = 0;
  st_rdev = 0;
  st_size = 4096;
  st_blksize = 512;
  st_blocks = 8;
  st_atime = 0;
  st_mtime = 0;
  st_ctime = 0;
}

abbrev pub two_names : List FilePath
two_names = (0x61 ∷ []) ∷ ((0x62 ∷ 0x63 ∷ []) ∷ [])

-- The state is the number of calls that change something.
abbrev pub test_backend : Backend
test_backend = record {
  Os = ℕ;
  errno = λ n. 5;
  set_errno = λ e n. n;
  time = λ n. 1000;
  rand = λ n. (n, 3);
  getpid = λ n. 77;
  getuid = λ n. 100;
  getgid = λ n. 100;
  geteuid = λ n. 100;
  getegid = λ n. 100;
  setegid = λ id n. (n, true);
  seteuid = λ id n. (n, true);
  setgroups = λ ids n. (n, true);
  umask = λ mask n. n;
  lstat = λ path n. (n, some some_dir);
  stat = λ path n. (n, some some_dir);
  fstat = λ fd n. (n, some some_dir);
  get_gen = λ buf fd path n. 0;
  opendir = λ path n. (n, some two_names);
  statvfs = λ path n. (n, none);
  access = λ path p n. (n, true);
  readlink = λ path size n. (n, none);
  open_file = λ path mode nonblock n. (n + 1, some 7);
  open_create = λ path excl mode n. (n + 1, some 8);
  close = λ fd n. (n + 1, true);
  fsync = λ fd n. (n + 1, true);
  pread = λ fd count offset n. (n, some (0x78 ∷ []));
  pwrite = λ fd bytes offset n. (n + 1, some (length bytes));
  truncate = λ path size n. (n + 1, true);
  ftruncate = λ fd size n. (n + 1, true);
  lchown = λ path uid gid n. (n + 1, true);
  fchown = λ fd uid gid n. (n + 1, true);
  chmod = λ path mode n. (n + 1, true);
  fchmod = λ fd mode n. (n + 1, true);
  utimes = λ path atime mtime n. (n + 1, true);
  lutimes = λ path atime mtime n. (n + 1, true);
  mkdir = λ path mode n. (n + 1, true);
  mknod = λ path mode dev n. (n + 1, true);
  mkfifo = λ path mode n. (n + 1, true);
  socket = λ n. (n + 1, some 9);
  bind = λ fd path n. (n + 1, true);
  symlink = λ target path n. (n + 1, true);
  link = λ old new n. (n + 1, true);
  rename = λ old new n. (n + 1, true);
  remove = λ path n. (n + 1, true);
  rmdir = λ path n. (n + 1, true);
}

abbrev pub test_errnos : Errnos
test_errnos = record {
  eacces = 13;
  eperm = 1;
  erofs = 30;
  eexist = 17;
  enospc = 28;
  edquot = 122;
  enosys = 38;
  einval = 22;
  exdev = 18;
  emlink = 31;
  enoent = 2;
  enomedium = 123;
  enotdir = 20;
  eloop = 40;
  enametoolong = 36;
  enxio = 6;
  enodev = 19;
  efbig = 27;
  eisdir = 21;
  enotempty = 39;
}

abbrev pub no_dirs : BadDirs
no_dirs = λ i. record { path = none; hash = 0; time = 0; last_used = 0 }

abbrev pub test_config : Config
test_config = record {
  backend = test_backend;
  errnos = test_errnos;
  eio = 5;
  host = little;
  opts = record {
    opt_singleuser = false;
    opt_readable_executables = false;
    opt_32_bit_truncate = false;
  };
  opt_brute_force = false;
  mtab = none;
  export_list = [];
  remote = none;
  is_stream = true;
  junk = no_inos;
  junk_stat = some_dir;
  junk_fh = invalid_fh;
}

abbrev pub test_state : Bool → Server ℕ
test_state valid = record {
  os = 0;
  wverf = replicate 8 0;
  rcookie = 0;
  cache = initial;
  st = record { st_cache_valid = valid; st_cache = some_dir };
  dirs = no_dirs;
  fds = record {
    fd_cache = λ i. record { fd = none; kind = fd_read; last_use = 0; dev = 0; ino = 0; gen = 0 };
    fd_cache_readers = 0;
    fd_cache_writers = 0;
  };
  exports = record {
    exports_opts = no_export;
    export_path = none;
    export_fsid = 0;
    export_password_hash = 0;
    last_anonuid = anon_notspecial;
    last_anongid = anon_notspecial;
  };
  ids = record { squash_uid = 65534; squash_gid = 65534; can_switch = false };
  req = record {
    is_unix = true;
    auth = record { aup_uid = 100; aup_gid = 100; aup_len = 0; aup_gids = [] };
  };
}

abbrev pub some_file : Stat
some_file = record some_dir { st_mode = 0x81a4 }

abbrev pub file_config : Config
file_config = record test_config {
  backend = record test_backend { lstat = λ path n. (n, some some_file) };
}

abbrev pub file_handle : NfsFh
file_handle =
    1 ∷ 0 ∷ 0 ∷ 0 ∷ 4 ∷ 0 ∷ 0 ∷ 0 ∷ 0 ∷ 0 ∷ 0 ∷ 0 ∷ 0 ∷ 0 ∷ 0 ∷ 0 ∷ 0 ∷ 0 ∷ 0 ∷ 0 ∷ 1 ∷ 4 ∷ []

abbrev pub file_path : FilePath
file_path = 0x2f ∷ 0x61 ∷ []

abbrev pub found_state : Server ℕ
found_state = record (test_state true) {
  cache = (fh_cache_add 1 4 file_path initial).0;
  st = record { st_cache_valid = true; st_cache = some_file };
}
