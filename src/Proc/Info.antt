-- ===== src/Proc/Info.antt =====
-- nfs.c: the procedures that change no object. An answer holds the status and what the protocol sends
-- with it.
use Prim.Native.Nat.{bit_and}
use unfs3_raft.Base.{
  ℕ, ◌+◌, ◌-◌, Bool, true, false, not, ◌&&◌, ◌||◌, List, [], Option, none, some, ◌==◌,
  if◌then◌else◌,
}
use unfs3_raft.Backend.{r_ok, w_ok, x_ok}
use unfs3_raft.Error.{lookup_err, readlink_err}
use unfs3_raft.Exports.{export_options}
use unfs3_raft.Fs.{FilePath, Stat, dot, dot_dot, nfs_maxpathlen, str_eq}
use unfs3_raft.Fh.{Fh, NfsFh, fh_encode}
use unfs3_raft.Nfs.{Nfsstat3, nfs3_ok, nfs3err_notsupp, nfs3err_nametoolong, Fattr3, nf3dir}
use unfs3_raft.Readdir.{Listing, read_dir}
use unfs3_raft.User.{get_uid}
use unfs3_raft.Server.{
  Config, Run, ◌>>=◌, ◌>>◌, pure, lift, gets, call, when, fixed_times, run_fh_cache_add,
}
use unfs3_raft.Server.Handles.{
  fh_comp_ptr, run_fh_extend, run_get_post_cached, run_get_post_buf, get_post_stat,
}
use unfs3_raft.Proc.{DirOpArgs, cat_name, prep}

-- What `error_attr` holds beside `attributes_follow`.
abbrev pub zero_attributes : Fattr3
zero_attributes = record {
  type = 0;
  mode = 0;
  nlink = 0;
  uid = 0;
  gid = 0;
  size = 0;
  used = 0;
  specdata1 = 0;
  specdata2 = 0;
  fsid = 0;
  fileid = 0;
  atime = 0;
  mtime = 0;
  ctime = 0;
}

-- `post_op_attr_u.attributes`, whether it follows or not.
unfoldable pub attributes_of : Option Fattr3 → Fattr3
attributes_of none = zero_attributes
attributes_of (some attributes) = attributes

pub record LookupRes : Type 0 where
  pub status : Nfsstat3
  pub object : Option NfsFh
  pub obj_attributes : Option Fattr3
  pub dir_attributes : Option Fattr3

-- The bits ACCESS3_READ 1, LOOKUP 2, MODIFY 4, EXTEND 8, DELETE 16 and EXECUTE 32, each where it is set.
unfoldable pub access_bits : Bool → Bool → Bool → Bool → Bool → Bool → ℕ → ℕ
access_bits r w x opt_readable_executables is_root is_dir wanted =
    let read = r || ((x && opt_readable_executables) || is_root) in
    let modify = w || is_root in
    let bit : Bool → ℕ → ℕ = λ b n. if b then n else 0 in
    bit_and
      (bit read 1
        + bit (is_dir && (read || x)) 2
        + bit modify 4
        + bit modify 8
        + bit (is_dir && modify) 16
        + bit (x && not is_dir) 32)
      wanted

module _ (c : Config) where
  abbrev Os : Type 0
  Os = c.backend.Os

  unfoldable pub getattr : NfsFh → Run Os (Nfsstat3 × Fattr3)
  getattr object = do
    prep c object
    post ← run_get_post_cached c
    pure (nfs3_ok, attributes_of post)

  -- The handle and the attributes; without a handle the path was too long.
  unfoldable pub lookup_handle :
      FilePath → Stat → Option Fh → Run Os (Nfsstat3 × Option NfsFh × Option Fattr3)
  lookup_handle obj buf none = pure (nfs3err_nametoolong, none, none)
  lookup_handle obj buf (some fh) = do
    buf' ← fixed_times c obj buf
    attributes ← run_get_post_buf c buf'
    pure (nfs3_ok, some (fh_encode c.host fh), some attributes)

  unfoldable pub extend_and_add : NfsFh → FilePath → Stat → Run Os (Option Fh)
  extend_and_add dir obj buf = do
    gen ← gets λ s. c.backend.get_gen buf none obj s.os
    fh ← run_fh_extend c dir buf.st_dev buf.st_ino gen
    run_fh_cache_add c buf.st_dev buf.st_ino obj
    pure fh

  unfoldable pub lookup_found :
      DirOpArgs → FilePath → Option Stat → Run Os (Nfsstat3 × Option NfsFh × Option Fattr3)
  lookup_found what obj none = gets λ s. (lookup_err c.errnos (c.backend.errno s.os), none, none)
  lookup_found what obj (some buf) = do
    fh ←
        when (str_eq what.name dot || str_eq what.name dot_dot) (fh_comp_ptr c obj false)
          (extend_and_add what.dir obj buf)
    lookup_handle obj buf fh

  unfoldable pub lookup : DirOpArgs → Run Os LookupRes
  lookup what = do
    path ← prep c what.dir
    let (status, obj) = cat_name path what.name
    (status', object, obj_attributes) ←
        when (status == nfs3_ok) (call (c.backend.lstat obj) >>= lookup_found what obj)
          (pure (status, none, none))
    dir_attributes ← get_post_stat c path
    pure (record {
      status = status';
      object = object;
      obj_attributes = obj_attributes;
      dir_attributes = dir_attributes;
    })

  unfoldable pub access : NfsFh → ℕ → Run Os (Nfsstat3 × ℕ × Option Fattr3)
  access object wanted = do
    path ← prep c object
    post ← run_get_post_cached c
    r ← call (c.backend.access path r_ok)
    w ← call (c.backend.access path w_ok)
    x ← call (c.backend.access path x_ok)
    is_root ← gets λ s. get_uid (export_options s.exports) s.ids s.req == 0
    let is_dir = (attributes_of post).type == nf3dir
    pure (nfs3_ok, access_bits r w x c.opts.opt_readable_executables is_root is_dir wanted, post)

  unfoldable pub read_target : Option (List ℕ) → Run Os (Nfsstat3 × List ℕ)
  read_target none = gets λ s. (readlink_err c.errnos (c.backend.errno s.os), [])
  read_target (some target) = pure (nfs3_ok, target)

  unfoldable pub readlink : NfsFh → Run Os (Nfsstat3 × List ℕ × Option Fattr3)
  readlink symlink = do
    path ← prep c symlink
    found ← call (c.backend.readlink path (nfs_maxpathlen - 1))
    (status, target) ← read_target found
    attributes ← get_post_stat c path
    pure (status, target, attributes)

  unfoldable pub readdir : NfsFh → ℕ → ℕ → Run Os (Listing × Option Fattr3)
  readdir dir cookie count = do
    path ← prep c dir
    opened ← gets λ s.
        read_dir c.backend c.errnos c.opts.opt_32_bit_truncate s.rcookie c.export_list
          s.exports.exports_opts path cookie count s.os
    (os', listing) ← lift opened
    call (λ os. (os', true))
    attributes ← get_post_stat c path
    pure (listing, attributes)

  unfoldable pub readdirplus : Run Os Nfsstat3
  readdirplus = pure nfs3err_notsupp
