-- ===== src/Proc/Change.antt =====
-- nfs.c: SETATTR, REMOVE, RMDIR, RENAME and LINK.
pub mod Guarded
use unfs3_raft.Base.{ℕ, Bool, true, false, not, Option, none, some, ◌==◌, if◌then◌else◌}
use unfs3_raft.Attr.Set.{set_attr}
use unfs3_raft.Error.{join, remove_err, rmdir_err, rename_err, link_err}
use unfs3_raft.Exports.{exports_rw}
use unfs3_raft.Fs.{FilePath}
use unfs3_raft.Fh.{NfsFh}
use unfs3_raft.Nfs.{
  Nfsstat3, nfs3_ok, nfs3err_stale, nfs3err_not_sync, Sattr3, WccAttr, Fattr3, WccData,
}
use unfs3_raft.Readdir.{change_readdir_cookie}
use unfs3_raft.Server.{
  Config, Run, ◌>>=◌, ◌>>◌, pure, lift, gets, call, when, modify, decode, run_exports_compat,
}
use unfs3_raft.Server.Handles.{
  fh_decomp, fh_cache_update, run_get_pre_cached, get_post_attr, get_post_stat,
}
use unfs3_raft.Proc.{DirOpArgs, cat_name, prep}
use unfs3_raft.Proc.Io.{wcc_data}

-- sattrguard3: `none` is a `check` of FALSE.
abbrev pub Guard : Type 0
Guard = Option ℕ

unfoldable pub in_sync : Guard → Option WccAttr → Nfsstat3
in_sync guard none = nfs3err_stale
in_sync none (some pre) = nfs3_ok
in_sync (some ctime) (some pre) = if not (ctime == pre.ctime) then nfs3err_not_sync else nfs3_ok

-- Both directories of RENAME.
pub record RenameRes : Type 0 where
  pub status : Nfsstat3
  pub fromdir_wcc : WccData
  pub todir_wcc : WccData

pub record LinkRes : Type 0 where
  pub status : Nfsstat3
  pub file_attributes : Option Fattr3
  pub linkdir_wcc : WccData

module _ (c : Config) where
  abbrev Os : Type 0
  Os = c.backend.Os

  unfoldable pub run_change_readdir_cookie : Run Os Bool
  run_change_readdir_cookie =
      modify λ s. record s { rcookie = change_readdir_cookie c.opts.opt_32_bit_truncate s.rcookie }

  -- The status of a call: that of `errno` if it failed.
  abbrev pub status_of : (ℕ → Nfsstat3) → Bool → Run Os Nfsstat3
  status_of translate true = pure nfs3_ok
  status_of translate false = gets λ s. translate (c.backend.errno s.os)

  unfoldable pub run_set_attr : Option FilePath → NfsFh → Sattr3 → Run Os Nfsstat3
  run_set_attr path object new = do
    p ← lift path
    fh ← decode c object
    call (set_attr c.backend c.errnos p fh new)

  unfoldable pub setattr : NfsFh → Sattr3 → Guard → Run Os (Nfsstat3 × WccData)
  setattr object new guard = do
    path ← prep c object
    pre ← run_get_pre_cached c
    let checked = join (in_sync guard pre) exports_rw
    status ← when (checked == nfs3_ok) (run_set_attr path object new) (pure checked)
    after ← get_post_stat c path
    pure (status, record { before = pre; after = after })

  unfoldable pub remove_object : FilePath → Run Os Nfsstat3
  remove_object obj = do
    run_change_readdir_cookie
    removed ← call (c.backend.remove obj)
    status_of (remove_err c.errnos) removed

  unfoldable pub remove : DirOpArgs → Run Os (Nfsstat3 × WccData)
  remove object = do
    path ← prep c object.dir
    let (status, obj) = cat_name path object.name
    let checked = join status exports_rw
    result ← when (checked == nfs3_ok) (remove_object obj) (pure checked)
    dir_wcc ← wcc_data c path
    pure (result, dir_wcc)

  unfoldable pub rmdir_object : FilePath → Run Os Nfsstat3
  rmdir_object obj = do
    run_change_readdir_cookie
    removed ← call (c.backend.rmdir obj)
    status_of (rmdir_err c.errnos) removed

  unfoldable pub rmdir : DirOpArgs → Run Os (Nfsstat3 × WccData)
  rmdir object = do
    path ← prep c object.dir
    let (status, obj) = cat_name path object.name
    let checked = join status exports_rw
    result ← when (checked == nfs3_ok) (rmdir_object obj) (pure checked)
    dir_wcc ← wcc_data c path
    pure (result, dir_wcc)

  -- The cache of paths is updated whether the call succeeds or not.
  unfoldable pub rename_object : FilePath → NfsFh → FilePath → Run Os Nfsstat3
  rename_object from_obj to_dir to_obj = do
    run_change_readdir_cookie
    renamed ← call (c.backend.rename from_obj to_obj)
    status ← status_of (rename_err c.errnos) renamed
    fh_cache_update c to_dir to_obj
    pure status

  unfoldable pub rename_to : FilePath → Option FilePath → DirOpArgs → Run Os Nfsstat3
  rename_to from_obj path to = do
    let (status, to_obj) = cat_name path to.name
    compatible ← run_exports_compat c path
    let checked = join status compatible
    when (checked == nfs3_ok) (rename_object from_obj to.dir to_obj) (pure checked)

  unfoldable pub rename : DirOpArgs → DirOpArgs → Run Os RenameRes
  rename from to = do
    path ← prep c from.dir
    pre ← run_get_pre_cached c
    let (status, from_obj) = cat_name path from.name
    let checked = join status exports_rw
    to_path ← fh_decomp c to.dir
    result ← when (checked == nfs3_ok) (rename_to from_obj to_path to) (pure checked)
    post ← get_post_attr c path from.dir
    todir_wcc ← wcc_data c to_path
    pure (record {
      status = result;
      fromdir_wcc = record { before = pre; after = post };
      todir_wcc = todir_wcc;
    })

  unfoldable pub link_object : FilePath → FilePath → Run Os Nfsstat3
  link_object old obj = do
    compatible ← run_exports_compat c (some old)
    when (compatible == nfs3_ok) (call (c.backend.link old obj) >>= status_of (link_err c.errnos))
        (pure compatible)

  unfoldable pub link_found : Nfsstat3 → FilePath → Option FilePath → Run Os Nfsstat3
  link_found status obj none = pure nfs3err_stale
  link_found status obj (some old) = when (status == nfs3_ok) (link_object old obj) (pure status)

  unfoldable pub link : NfsFh → DirOpArgs → Run Os LinkRes
  link file target = do
    path ← prep c target.dir
    pre ← run_get_pre_cached c
    let (status, obj) = cat_name path target.name
    old ← fh_decomp c file
    result ← link_found (join status exports_rw) obj old
    post ← get_post_attr c path target.dir
    file_attributes ← get_post_stat c old
    pure (record {
      status = result;
      file_attributes = file_attributes;
      linkdir_wcc = record { before = pre; after = post };
    })
