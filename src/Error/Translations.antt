-- ===== src/Error/Translations.antt =====
-- What the translations of error numbers have in common.
use unfs3_raft.Base.{ℕ, ◌≡◌, ◌≢◌, arith}
use unfs3_raft.Nfs.{Nfsstat3, nfs3_ok, nfs3err_acces}
use unfs3_raft.Error.{
  Errnos, is_stale, join, join3, symlink_err, mkdir_err, mknod_err, link_err, lookup_err,
  readlink_err, read_err, write_open_err, write_write_err, create_err, rename_err, remove_err,
  rmdir_err, setattr_err, readdir_err,
}

module _ (e : Errnos) where
  -- A call that failed is never answered with NFS3_OK, whatever the error number is, as long as
  -- ENOENT is not 0, which the translations of REMOVE and RMDIR pass on.
  translations_fail :
      (errno : ℕ)
      → e.enoent ≢ nfs3_ok
      → (symlink_err e errno ≢ nfs3_ok)
        × (mkdir_err e errno ≢ nfs3_ok)
        × (mknod_err e errno ≢ nfs3_ok)
        × (link_err e errno ≢ nfs3_ok)
        × (lookup_err e errno ≢ nfs3_ok)
        × (readlink_err e errno ≢ nfs3_ok)
        × (read_err e errno ≢ nfs3_ok)
        × (write_open_err e errno ≢ nfs3_ok)
        × (write_write_err e errno ≢ nfs3_ok)
        × (create_err e errno ≢ nfs3_ok)
        × (rename_err e errno ≢ nfs3_ok)
        × (remove_err e errno ≢ nfs3_ok)
        × (rmdir_err e errno ≢ nfs3_ok)
        × (setattr_err e errno ≢ nfs3_ok)
        × (readdir_err e errno ≢ nfs3_ok)
  unfolding symlink_err mkdir_err mknod_err link_err lookup_err readlink_err read_err write_open_err
      write_write_err create_err rename_err remove_err rmdir_err setattr_err readdir_err
  translations_fail errno h = (
    ground arith,
    ground arith,
    ground arith,
    ground arith,
    ground arith,
    ground arith,
    ground arith,
    ground arith,
    ground arith,
    ground arith,
    ground arith,
    ground arith,
    ground arith,
    ground arith,
    ground arith,
  )

  -- Errors that are apart from EACCES where the source looks at them first.
  record AccesApart : Type 0 where
    enotdir : e.eacces ≢ e.enotdir
    eloop : e.eacces ≢ e.eloop
    enoent : e.eacces ≢ e.enoent
    enametoolong : e.eacces ≢ e.enametoolong
    einval : e.eacces ≢ e.einval
    eperm : e.eacces ≢ e.eperm
    exdev : e.eacces ≢ e.exdev
    emlink : e.eacces ≢ e.emlink
    edquot : e.eacces ≢ e.edquot
    enomedium : e.eacces ≢ e.enomedium
    eisdir : e.eacces ≢ e.eisdir
    eexist : e.eacces ≢ e.eexist
    enotempty : e.eacces ≢ e.enotempty
    enosys : e.eacces ≢ e.enosys
    erofs : e.eacces ≢ e.erofs

  -- On a system whose error numbers differ, every operation that can be refused for want of
  -- permission answers NFS3ERR_ACCES when the system says EACCES.
  translations_acces :
      AccesApart
      → (symlink_err e e.eacces ≡ nfs3err_acces)
        × (mkdir_err e e.eacces ≡ nfs3err_acces)
        × (mknod_err e e.eacces ≡ nfs3err_acces)
        × (link_err e e.eacces ≡ nfs3err_acces)
        × (lookup_err e e.eacces ≡ nfs3err_acces)
        × (readlink_err e e.eacces ≡ nfs3err_acces)
        × (read_err e e.eacces ≡ nfs3err_acces)
        × (write_open_err e e.eacces ≡ nfs3err_acces)
        × (create_err e e.eacces ≡ nfs3err_acces)
        × (rename_err e e.eacces ≡ nfs3err_acces)
        × (remove_err e e.eacces ≡ nfs3err_acces)
        × (rmdir_err e e.eacces ≡ nfs3err_acces)
        × (setattr_err e e.eacces ≡ nfs3err_acces)
        × (readdir_err e e.eacces ≡ nfs3err_acces)
  unfolding is_stale symlink_err mkdir_err mknod_err link_err lookup_err readlink_err read_err
      write_open_err create_err rename_err remove_err rmdir_err setattr_err readdir_err
  translations_acces h = (
    ground arith,
    ground arith,
    ground arith,
    ground arith,
    ground arith,
    ground arith,
    ground arith,
    ground arith,
    ground arith,
    ground arith,
    ground arith,
    ground arith,
    ground arith,
    ground arith,
  )

-- Three results combine to NFS3_OK exactly if each of them is; otherwise to the first that is not.
join3_lem :
    (x y z : Nfsstat3)
    → (x ≢ nfs3_ok → join3 x y z ≡ x)
      × (x ≡ nfs3_ok → y ≢ nfs3_ok → join3 x y z ≡ y)
      × (x ≡ nfs3_ok → y ≡ nfs3_ok → join3 x y z ≡ z)
unfolding join3 join
join3_lem x y z = (λ h. ground arith, λ h k. ground arith, λ h k. ground arith)
