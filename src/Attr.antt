-- ===== src/Attr.antt =====
-- attr.c: attributes of objects, from `stat` buffers to the protocol and back.
pub mod Times
pub mod Stable
pub mod Set
use Prim.Native.Nat.{bit_xor, bit_or}
use unfs3_raft.Base.{
  ℕ, ◌*◌, ◌/◌, ◌%◌, ◌^◌, Bool, true, false, not, ◌&&◌, ◌||◌, Option, none, some, ◌==◌,
  if◌then◌else◌,
}
use unfs3_raft.Fs.{FilePath, Stat, file_type, s_isdir, s_isreg}
use unfs3_raft.Nfs.{
  Nfsstat3, nfs3_ok, nfs3err_stale, nfs3err_inval, Ftype3, nf3reg, nf3dir, nf3blk, nf3chr, nf3lnk,
  nf3sock, nf3fifo, SetTime, dont_change, set_to_server_time, set_to_client_time, Sattr3, WccAttr,
  Fattr3,
}
use unfs3_raft.Backend.{Backend}
use unfs3_raft.Exports.{ExportState, export_options}
use unfs3_raft.FhCache.{StCache}
use unfs3_raft.User.{Ids, Request, has_bit, mangle_uid, mangle_gid}

-- The options of the command line that the procedures look at.
pub record Options : Type 0 where
  pub opt_singleuser : Bool
  pub opt_readable_executables : Bool
  pub opt_32_bit_truncate : Bool

unfoldable pub is_reg : StCache → Nfsstat3
is_reg st =
    if not st.st_cache_valid
    then nfs3err_stale
    else if s_isreg st.st_cache.st_mode
    then nfs3_ok
    else nfs3err_inval

unfoldable pub type_to_mode : Ftype3 → ℕ
type_to_mode ftype =
    if ftype == nf3reg
    then 0x8000
    else if ftype == nf3dir
    then 0x4000
    else if ftype == nf3lnk
    then 0xa000
    else if ftype == nf3chr
    then 0x2000
    else if ftype == nf3blk
    then 0x6000
    else if ftype == nf3fifo
    then 0x1000
    else if ftype == nf3sock
    then 0xc000
    else 0

-- The seconds of a time of the protocol have 32 bits.
unfoldable pub get_pre_cached : StCache → Option WccAttr
get_pre_cached st =
    if not st.st_cache_valid
    then none
    else some (record {
      size = st.st_cache.st_size;
      mtime = st.st_cache.st_mtime % 2 ^ 32;
      ctime = st.st_cache.st_ctime % 2 ^ 32;
    })

unfoldable pub mode_to_type : ℕ → Ftype3
mode_to_type mode =
    if s_isdir mode
    then nf3dir
    else if file_type mode == 6
    then nf3blk
    else if file_type mode == 2
    then nf3chr
    else if file_type mode == 10
    then nf3lnk
    else if file_type mode == 12
    then nf3sock
    else if file_type mode == 1
    then nf3fifo
    else nf3reg

-- S_IXUSR and S_IRUSR are the bits 6 and 8, and 3 lower for the group, and 6 for others.
unfoldable pub read_bits : Bool → ℕ → ℕ
read_bits opt_readable_executables mode =
    let user = if has_bit mode 6 then bit_or mode 0x100 else mode in
    let group = if has_bit user 3 then bit_or user 0x20 else user in
    let others = if has_bit group 0 then bit_or group 0x4 else group in
    if opt_readable_executables && s_isreg mode then others else mode

-- An identity under -s: that of the request for the one the server runs as.
unfoldable pub translated : Bool → ℕ → ℕ
translated own id = if own then id else 0

unfoldable pub fileid : Bool → ℕ → ℕ
fileid opt_32_bit_truncate ino =
    if opt_32_bit_truncate then bit_xor (ino / 2 ^ 32) (ino % 2 ^ 32) else ino

unfoldable pub create_mode : Sattr3 → ℕ
create_mode new = elim new.mode [ some mode ↦ mode | none ↦ 0x1fd ]

-- `uid_t` is 32 bits wide.
abbrev pub is_set_to : Option ℕ → (ℕ → Bool) → Bool
is_set_to none test = false
is_set_to (some x) test = test x

abbrev pub is_client_time : SetTime → Bool
is_client_time dont_change = false
is_client_time set_to_server_time = false
is_client_time (set_to_client_time t) = true

module _ (b : Backend) (opts : Options) where
  open b use {Os, getuid, getgid, geteuid, getegid, lstat}

  -- The test of a removable export point: its fsid for what lies in the same file system.
  unfoldable pub fsid_of : ExportState → Os → Stat → ℕ
  fsid_of exports os buf =
      if has_bit exports.exports_opts 3
      then elim exports.export_path [
        | none ↦ buf.st_dev
        | some path ↦ elim (lstat path os).1 [
          | none ↦ buf.st_dev
          | some epbuf ↦ if buf.st_dev == epbuf.st_dev then exports.export_fsid else buf.st_dev
        ]
      ]
      else buf.st_dev

  unfoldable pub get_post_buf : ExportState → Request → Os → Stat → Fattr3
  get_post_buf exports req os buf =
      let req_uid = if req.is_unix then req.auth.aup_uid else 0 in
      let req_gid = if req.is_unix then req.auth.aup_gid else 0 in
      let ruid = getuid os in
      record {
        type = mode_to_type buf.st_mode;
        mode = read_bits opts.opt_readable_executables buf.st_mode % 2 ^ 16;
        nlink = buf.st_nlink % 2 ^ 32;
        uid =
            if opts.opt_singleuser
            then translated ((buf.st_uid == ruid) || (ruid == 0)) req_uid
            else buf.st_uid;
        gid =
            if opts.opt_singleuser
            then translated ((buf.st_gid == getgid os) || (ruid == 0)) req_gid
            else buf.st_gid;
        size = buf.st_size;
        used = buf.st_blocks * 512 % 2 ^ 64;
        specdata1 = buf.st_rdev / 2 ^ 8 % 2 ^ 8;
        specdata2 = buf.st_rdev % 2 ^ 8;
        fsid = fsid_of exports os buf % 2 ^ 32;
        fileid = fileid opts.opt_32_bit_truncate buf.st_ino;
        atime = buf.st_atime % 2 ^ 32;
        mtime = buf.st_mtime % 2 ^ 32;
        ctime = buf.st_ctime % 2 ^ 32;
      }

  unfoldable pub get_post_cached : ExportState → Request → Os → StCache → Option Fattr3
  get_post_cached exports req os st =
      if not st.st_cache_valid then none else some (get_post_buf exports req os st.st_cache)

  unfoldable pub atomic_attr : ExportState → Ids → Os → Sattr3 → Nfsstat3
  atomic_attr exports ids os attr =
      let other_uid : ℕ → Bool =
        λ uid. not (mangle_uid (export_options exports) ids uid == geteuid os) in
      let other_gid : ℕ → Bool =
        λ gid. not (mangle_gid (export_options exports) ids gid == getegid os) in
      if is_set_to attr.uid other_uid
        || (is_set_to attr.gid other_gid
            || (is_set_to attr.size (λ size. not (size == 0))
                || (is_client_time attr.atime || is_client_time attr.mtime)))
      then nfs3err_inval
      else nfs3_ok
