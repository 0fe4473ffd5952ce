-- ===== src/Mount.antt =====
-- mount.c: the mount protocol; Mount/Program has mountprog_3 of daemon.c. The environment of a call
-- is the parameter `Caller`: what is known of the client, the options of the server, and functions of
-- the C library. `realpath` and `gen_nonce` are those of the backend.
pub mod Login
pub mod Allowed
pub mod Count
pub mod Unmounted
pub mod Logical
pub mod Program
pub mod Replay
use unfs3_raft.Base.{
  ℕ, zero, suc, ◌+◌, ◌-◌, ◌%◌, ◌^◌, Bool, true, false, not, ◌&&◌, ◌||◌, List, [], ◌∷◌, ◌++◌, Option,
  none, some, length, drop, take, ltb, ◌==◌, if◌then◌else◌,
}
use unfs3_raft.Fs.{FilePath, str_eq, nfs_maxpathlen}
use unfs3_raft.User.{has_bit}
use unfs3_raft.Raft.Net.{is_positive}
use unfs3_raft.Fh.{Fh, NfsFh, fh_valid, fh_encode}
use unfs3_raft.FdCache.{fd_cache_purge}
use unfs3_raft.Exports.{Outs, ExportState, no_export, is_prefix, exports_options, export_point}
use unfs3_raft.Exports.Build.{ExportNode}
use unfs3_raft.Exports.Build.Options.{password_maxlen}
use unfs3_raft.Password.{mnt_cmd_argument, otp_digest}
use unfs3_raft.Server.{
  Config, Run, ◌>>=◌, ◌>>◌, pure, lift, gets, call, when, modify, State, with_fds, fd_calls,
}
use unfs3_raft.Server.Handles.{fh_comp}

-- mountstat3
abbrev pub mnt3err_noent : ℕ
mnt3err_noent = 2

abbrev pub mnt3err_io : ℕ
mnt3err_io = 5

abbrev pub mnt3err_acces : ℕ
mnt3err_acces = 13

abbrev pub mnt3err_notdir : ℕ
mnt3err_notdir = 20

abbrev pub mnt3err_inval : ℕ
mnt3err_inval = 22

abbrev pub mnt3err_nametoolong : ℕ
mnt3err_nametoolong = 63

-- PATH_MAX
abbrev pub path_max : ℕ
path_max = 4096

-- sizeof(struct mountbody)
abbrev pub mountbody_size : ℕ
mountbody_size = 24

-- struct mountbody, less the link to the next one.
pub record MountBody : Type 0 where
  pub ml_hostname : List ℕ
  pub ml_directory : FilePath

-- The static variables. `mount_cnt` is the bit pattern of an `int`.
pub record Mounts : Type 0 where
  pub mount_cnt : ℕ
  pub mount_list : List MountBody
  pub nonce : List ℕ

-- mountres3: the bytes that are sent as a handle, or a status.
pub data MountRes : Type 0 where
  mnt3_ok : List ℕ → MountRes
  mnt3_err : ℕ → MountRes

-- "@getnonce", "@password:" and "@otp:"
abbrev pub getnonce_cmd : List ℕ
getnonce_cmd = b'@' ∷ b'g' ∷ b'e' ∷ b't' ∷ b'n' ∷ b'o' ∷ b'n' ∷ b'c' ∷ b'e' ∷ []

abbrev pub password_cmd : List ℕ
password_cmd = b'@' ∷ b'p' ∷ b'a' ∷ b's' ∷ b's' ∷ b'w' ∷ b'o' ∷ b'r' ∷ b'd' ∷ b':' ∷ []

abbrev pub otp_cmd : List ℕ
otp_cmd = b'@' ∷ b'o' ∷ b't' ∷ b'p' ∷ b':' ∷ []

-- What the calls of one client meet. `port` is ntohs(get_port(rqstp)); `text_of` is what `snprintf`
-- makes of a format without arguments; `alloc` says of a size whether malloc succeeds.
pub record Caller (Os : Type 0) : Type 0 where
  pub rq_vers : ℕ
  pub port : ℕ
  pub my_mount_root : Option FilePath
  pub logical_mount_root : Option FilePath
  pub inet_ntop : List ℕ → List ℕ
  pub text_of : List ℕ → List ℕ
  pub md5 : List ℕ → List ℕ
  pub alloc : ℕ → Bool
  pub realpath : FilePath → Os → Option FilePath
  -- the new nonce and whether there was no error
  pub gen_nonce : List ℕ → Os → Os × (List ℕ × Bool)

-- The branch of `strcmp(dpath, logical_mount_root)`; `none` is the use of NULL as a string.
unfoldable pub map_logical :
    (List ℕ → List ℕ) → Option FilePath → Option FilePath → FilePath → Option FilePath
map_logical text_of none mine dpath = none
map_logical text_of (some logical) none dpath = if str_eq dpath logical then none else some dpath
map_logical text_of (some logical) (some mine) dpath =
    if str_eq dpath logical then some (take (path_max - 1) (text_of mine)) else some dpath

-- IS_SECURE
abbrev pub is_secure : ℕ → Bool
is_secure port = ltb port 1024

-- `password[0]`, which is written whenever there are options.
unfoldable pub has_password : Option (List ℕ) → Bool
has_password none = false
has_password (some []) = false
has_password (some (c ∷ cs)) = true

-- strcmp(password, pw) == 0
unfoldable pub is_password : Option (List ℕ) → List ℕ → Bool
is_password none pw = false
is_password (some password) pw = str_eq password pw

-- strncmp(hexdigest, otp, 32) == 0
unfoldable pub is_otp : (List ℕ → List ℕ) → List ℕ → Option (List ℕ) → List ℕ → Bool
is_otp md5 nonce none otp = false
is_otp md5 nonce (some password) otp =
    str_eq (take 32 (otp_digest md5 nonce password)) (take 32 otp)

-- The entries that are left, and the count. `path` is `none` for NULL.
unfoldable pub remove_from : List ℕ → Option FilePath → List MountBody → ℕ → List MountBody × ℕ
remove_from host path [] cnt = ([], cnt)
remove_from host path (body ∷ bodies) cnt =
    let gone =
      str_eq body.ml_hostname host
      && elim path [ none ↦ true | some dir ↦ str_eq body.ml_directory dir ] in
    let (left, cnt') =
      remove_from host path bodies (if gone && is_positive cnt then cnt - 1 else cnt) in
    (if gone then left else body ∷ left, cnt')

-- Whether the client and its options let it mount: the test in front of `fh_comp`.
unfoldable pub is_refused : ℕ → Bool → Outs → ExportState → Bool
is_refused port authenticated outs exports =
    (exports.exports_opts == no_export)
    || ((not authenticated && has_password outs.password)
        || (not (has_bit exports.exports_opts 4) && not (is_secure port)))

-- Where a request goes on: its path, and whether a password was accepted.
abbrev pub Login : Type 0
Login = FilePath × Bool

module _ (c : Config) (k : Caller c.backend.Os) where
  abbrev pub Os : Type 0
  Os = c.backend.Os

  unfoldable pub add_mount : FilePath → Mounts → Mounts
  add_mount path m = elim c.remote [
    | none ↦ m
    | some addr ↦
        let host = k.inet_ntop addr in
        if k.alloc mountbody_size && (k.alloc (length host + 1) && k.alloc (length path + 1))
        then record m {
          mount_cnt = (m.mount_cnt + 1) % 2 ^ 32;
          mount_list = m.mount_list ++ record { ml_hostname = host; ml_directory = path } ∷ [];
        }
        else m
  ]

  unfoldable pub remove_mount : Option FilePath → Mounts → Mounts
  remove_mount path m = elim c.remote [
    | none ↦ m
    | some addr ↦
        let (left, cnt) = remove_from (k.inet_ntop addr) path m.mount_list m.mount_cnt in
        record m { mount_cnt = cnt; mount_list = left }
  ]

  -- exports_options with the globals that it changes, and what it writes through `password`.
  unfoldable pub run_exports_options : FilePath → Run Os Outs
  run_exports_options path s =
      let (outs, exports') = exports_options c.export_list (some path) c.remote s.exports in
      some (outs, record s { exports = exports' })

  unfoldable pub has_options : Run Os Bool
  has_options = gets λ s. not (s.exports.exports_opts == no_export)

  unfoldable pub login_password : FilePath → Mounts → Run Os (Login × Mounts)
  login_password dpath m = do
    let cut = mnt_cmd_argument dpath password_cmd password_maxlen
    outs ← run_exports_options cut.1
    known ← has_options
    pure ((cut.1, known && is_password outs.password cut.0), m)

  -- The nonce is changed after each attempt for a path that is exported.
  unfoldable pub login_otp : FilePath → Mounts → Run Os (Login × Mounts)
  login_otp dpath m = do
    let cut = mnt_cmd_argument dpath otp_cmd password_maxlen
    outs ← run_exports_options cut.1
    known ← has_options
    when known
        (do
          (nonce', ok) ← call (k.gen_nonce m.nonce)
          pure ((cut.1, is_otp k.md5 m.nonce outs.password cut.0), record m { nonce = nonce' }))
        (pure ((cut.1, false), m))

  unfoldable pub login : FilePath → Mounts → Run Os (Login × Mounts)
  login dpath m =
      when (is_prefix password_cmd dpath) (login_password dpath m)
        (when (is_prefix otp_cmd dpath) (login_otp dpath m) (pure ((dpath, false), m)))

  -- The options are those that the last request left; bit 3 is OPT_REMOVABLE.
  unfoldable pub real_path : FilePath → Run Os (Option FilePath)
  real_path dpath = gets λ s.
      if has_bit s.exports.exports_opts 3 && export_point c.export_list dpath
      then some (take path_max dpath)
      else k.realpath dpath s.os

  unfoldable pub mount_handle : FilePath → Mounts → Fh → MountRes × Mounts
  mount_handle dpath m fh =
      if fh_valid fh
      then (mnt3_ok (fh_encode c.host fh), add_mount dpath m)
      else (mnt3_err mnt3err_notdir, m)

  unfoldable pub mount_checked : Login → FilePath → Mounts → Run Os (MountRes × Mounts)
  mount_checked (dpath, authenticated) buf m = do
    outs ← run_exports_options buf
    refused ← gets λ s. is_refused k.port authenticated outs s.exports
    when refused (pure (mnt3_err mnt3err_acces, m))
        (do fh ← fh_comp c buf true; pure (mount_handle dpath m fh))

  unfoldable pub mount_at : Login → Option FilePath → Mounts → Run Os (MountRes × Mounts)
  mount_at login none m = pure (mnt3_err mnt3err_noent, m)
  mount_at login (some buf) m =
      when (ltb nfs_maxpathlen (length buf + 1)) (pure (mnt3_err mnt3err_nametoolong, m))
        (mount_checked login buf m)

  unfoldable pub mount_path : FilePath → Mounts → Run Os (MountRes × Mounts)
  mount_path dpath m = do (who, m') ← login dpath m; buf ← real_path who.0; mount_at who buf m'

  unfoldable pub getnonce : Mounts → Run Os (MountRes × Mounts)
  getnonce m = do
    (nonce', ok) ← call (k.gen_nonce m.nonce)
    pure (if ok then mnt3_ok nonce' else mnt3_err mnt3err_io, record m { nonce = nonce' })

  -- mountproc_mnt_3_svc
  unfoldable pub mnt : FilePath → Mounts → Run Os (MountRes × Mounts)
  mnt dirpath m = do
    dpath ← lift (map_logical k.text_of k.logical_mount_root k.my_mount_root dirpath)
    when (not (k.rq_vers == 3)) (pure (mnt3_err mnt3err_inval, m))
        (when (is_prefix getnonce_cmd dpath) (getnonce m) (mount_path dpath m))

  -- If no more mounts are active, all open descriptors are flushed.
  unfoldable pub purge_unused : Mounts → Run Os Mounts
  purge_unused m =
      when (m.mount_cnt == 0) (with_fds c (λ st. (fd_cache_purge (fd_calls c) st, true)) >> pure m)
        (pure m)

  -- mountproc_umnt_3_svc and mountproc_umntall_3_svc
  unfoldable pub umnt : FilePath → Mounts → Run Os Mounts
  umnt path m = purge_unused (remove_mount (some path) m)

  unfoldable pub umntall : Mounts → Run Os Mounts
  umntall m = purge_unused (remove_mount none m)
