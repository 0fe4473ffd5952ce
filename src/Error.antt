-- ===== src/Error.antt =====
-- error.c: NFS status codes for the system's error numbers. `errno` is an argument; the values of
-- the constants of errno.h, EDQUOT and ENOMEDIUM among them, are the parameter `Errnos`.
pub mod Translations
use unfs3_raft.Base.{ℕ, Bool, true, false, not, ◌||◌, ◌==◌, if◌then◌else◌}
use unfs3_raft.Nfs.{
  Nfsstat3, nfs3_ok, nfs3err_acces, nfs3err_stale, nfs3err_rofs, nfs3err_exist, nfs3err_nospc,
  nfs3err_dquot, nfs3err_notsupp, nfs3err_inval, nfs3err_io, nfs3err_xdev, nfs3err_mlink,
  nfs3err_noent, nfs3err_nxio, nfs3err_fbig, nfs3err_isdir, nfs3err_notempty, nfs3err_notdir,
  nfs3err_perm,
}

pub record Errnos : Type 0 where
  pub eacces : ℕ
  pub eperm : ℕ
  pub erofs : ℕ
  pub eexist : ℕ
  pub enospc : ℕ
  pub edquot : ℕ
  pub enosys : ℕ
  pub einval : ℕ
  pub exdev : ℕ
  pub emlink : ℕ
  pub enoent : ℕ
  pub enomedium : ℕ
  pub enotdir : ℕ
  pub eloop : ℕ
  pub enametoolong : ℕ
  pub enxio : ℕ
  pub enodev : ℕ
  pub efbig : ℕ
  pub eisdir : ℕ
  pub enotempty : ℕ

module _ (e : Errnos) where
  unfoldable pub is_stale : ℕ → Bool
  is_stale errno =
      (errno == e.enotdir) || (errno == e.eloop) || (errno == e.enoent) || (errno == e.enametoolong)

  unfoldable pub symlink_err : ℕ → Nfsstat3
  symlink_err errno =
      if (errno == e.eacces) || (errno == e.eperm)
      then nfs3err_acces
      else if is_stale errno
      then nfs3err_stale
      else if (errno == e.erofs)
      then nfs3err_rofs
      else if (errno == e.eexist)
      then nfs3err_exist
      else if (errno == e.enospc)
      then nfs3err_nospc
      else if (errno == e.edquot)
      then nfs3err_dquot
      else if (errno == e.enosys)
      then nfs3err_notsupp
      else if (errno == e.einval)
      then nfs3err_inval
      else nfs3err_io

  unfoldable pub mkdir_err : ℕ → Nfsstat3
  mkdir_err errno = symlink_err errno

  unfoldable pub mknod_err : ℕ → Nfsstat3
  mknod_err errno = symlink_err errno

  unfoldable pub link_err : ℕ → Nfsstat3
  link_err errno =
      if (errno == e.exdev)
      then nfs3err_xdev
      else if (errno == e.emlink)
      then nfs3err_mlink
      else if (errno == e.edquot)
      then nfs3err_dquot
      else symlink_err errno

  unfoldable pub lookup_err : ℕ → Nfsstat3
  lookup_err errno =
      if (errno == e.enoent)
      then nfs3err_noent
      else if (errno == e.enomedium)
      then nfs3err_noent
      else if (errno == e.eacces)
      then nfs3err_acces
      else if (errno == e.enotdir) || (errno == e.eloop) || (errno == e.enametoolong)
      then nfs3err_stale
      else if (errno == e.einval)
      then nfs3err_inval
      else nfs3err_io

  unfoldable pub readlink_err : ℕ → Nfsstat3
  readlink_err errno =
      if (errno == e.einval)
      then nfs3err_inval
      else if (errno == e.eacces)
      then nfs3err_acces
      else if (errno == e.enosys)
      then nfs3err_notsupp
      else if is_stale errno
      then nfs3err_stale
      else nfs3err_io

  unfoldable pub read_err : ℕ → Nfsstat3
  read_err errno =
      if (errno == e.einval)
      then nfs3err_inval
      else if is_stale errno
      then nfs3err_stale
      else if (errno == e.eacces)
      then nfs3err_acces
      else if (errno == e.enxio) || (errno == e.enodev)
      then nfs3err_nxio
      else nfs3err_io

  unfoldable pub write_open_err : ℕ → Nfsstat3
  write_open_err errno =
      if (errno == e.eacces)
      then nfs3err_acces
      else if is_stale errno
      then nfs3err_stale
      else if (errno == e.einval)
      then nfs3err_inval
      else if (errno == e.erofs)
      then nfs3err_rofs
      else nfs3err_io

  unfoldable pub write_write_err : ℕ → Nfsstat3
  write_write_err errno =
      if (errno == e.einval)
      then nfs3err_inval
      else if (errno == e.efbig)
      then nfs3err_fbig
      else if (errno == e.enospc)
      then nfs3err_nospc
      else if (errno == e.edquot)
      then nfs3err_dquot
      else nfs3err_io

  unfoldable pub create_err : ℕ → Nfsstat3
  create_err errno =
      if (errno == e.eacces)
      then nfs3err_acces
      else if is_stale errno
      then nfs3err_stale
      else if (errno == e.erofs)
      then nfs3err_rofs
      else if (errno == e.enospc)
      then nfs3err_nospc
      else if (errno == e.eexist)
      then nfs3err_exist
      else if (errno == e.edquot)
      then nfs3err_dquot
      else nfs3err_io

  unfoldable pub rename_err : ℕ → Nfsstat3
  rename_err errno =
      if (errno == e.eisdir)
      then nfs3err_isdir
      else if (errno == e.exdev)
      then nfs3err_xdev
      else if (errno == e.eexist)
      then nfs3err_exist
      else if (errno == e.enotempty)
      then nfs3err_notempty
      else if (errno == e.einval)
      then nfs3err_inval
      else if (errno == e.enotdir)
      then nfs3err_notdir
      else if (errno == e.eacces) || (errno == e.eperm)
      then nfs3err_acces
      else if (errno == e.enoent)
      then nfs3err_noent
      else if (errno == e.eloop) || (errno == e.enametoolong)
      then nfs3err_stale
      else if (errno == e.erofs)
      then nfs3err_rofs
      else if (errno == e.enospc)
      then nfs3err_nospc
      else if (errno == e.edquot)
      then nfs3err_dquot
      else nfs3err_io

  unfoldable pub remove_err : ℕ → Nfsstat3
  remove_err errno =
      if (errno == e.eacces) || (errno == e.eperm)
      then nfs3err_acces
      else if (errno == e.enoent)
      then e.enoent
      else if (errno == e.enotdir) || (errno == e.eloop) || (errno == e.enametoolong)
      then nfs3err_stale
      else if (errno == e.einval)
      then nfs3err_inval
      else if (errno == e.erofs)
      then nfs3err_rofs
      else nfs3err_io

  unfoldable pub rmdir_err : ℕ → Nfsstat3
  rmdir_err errno = if (errno == e.enotempty) then nfs3err_notempty else remove_err errno

  unfoldable pub setattr_err : ℕ → Nfsstat3
  setattr_err errno =
      if (errno == e.eperm)
      then nfs3err_perm
      else if (errno == e.erofs)
      then nfs3err_rofs
      else if is_stale errno
      then nfs3err_stale
      else if (errno == e.eacces)
      then nfs3err_acces
      else if (errno == e.edquot)
      then nfs3err_dquot
      else if (errno == e.einval)
      then nfs3err_inval
      else nfs3err_io

  unfoldable pub readdir_err : ℕ → Nfsstat3
  readdir_err errno =
      if (errno == e.eperm)
      then nfs3err_perm
      else if (errno == e.eacces)
      then nfs3err_acces
      else if (errno == e.enotdir)
      then nfs3err_notdir
      else if is_stale errno
      then nfs3err_stale
      else if (errno == e.einval)
      then nfs3err_inval
      else nfs3err_io

unfoldable pub join : Nfsstat3 → Nfsstat3 → Nfsstat3
join x y = if not (x == nfs3_ok) then x else y

unfoldable pub join3 : Nfsstat3 → Nfsstat3 → Nfsstat3 → Nfsstat3
join3 x y z = if not (x == nfs3_ok) then x else join y z
