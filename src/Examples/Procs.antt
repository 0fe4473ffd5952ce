-- ===== src/Examples/Procs.antt =====
-- The procedures on the test system.
use unfs3_raft.Base.{
  ℕ, ◌+◌, ◌≡◌, refl, Bool, true, false, none, some, List, [], ◌∷◌, drop, arith, if◌then◌else◌, ◌==◌,
}
use unfs3_raft.Bytes.{little, read, split, load, value}
use unfs3_raft.Backend.{files}
use unfs3_raft.Fs.{str_eq, Stat, FileSystem, dot_dot, root_path}
use unfs3_raft.Fh.{Fh, NfsFh, no_inos, fh_decode, decode_fields, nfh_valid, fh_length, fh_hash}
use unfs3_raft.Fh.Search.{fh_decomp_raw, fh_rec, scan_dir, scan, stat_or_zero}
use unfs3_raft.Locate.{locate_file}
use unfs3_raft.Server.Handles.{
  fh_decomp, decomp_valid, decomp_object, run_fh_cache_lookup, cached_path, decomp_uncached,
  store_raw, decomp_located, store_located, store_found,
}
use unfs3_raft.FhCache.{fh_cache_lookup, lookup_at, fh_cache_index, index_loop}
use unfs3_raft.FdCache.{fd_sync}
use unfs3_raft.Exports.{no_export, export_point_from_fsid}
use unfs3_raft.User.{switch_to_root, switch_user, switch_groups}
use unfs3_raft.Attr.Times.{directory_hash, fix_dir_times}
use unfs3_raft.Attr.Stable.{IsTimeless, fix_dir_times-fix_dir_times}
use unfs3_raft.Readdir.{
  Entry3, listed, read_dir, skipped, entry_cookie, resok_size, change_readdir_cookie, lower_part,
}
use unfs3_raft.Readdir.Cookie.{change_readdir_cookie-IsCookieValue, skipped-entry_cookie}
use unfs3_raft.Readdir.Pages.{IsReadable, IsPage, at_most_4096, read_dir-IsPage}
use unfs3_raft.Nfs.{WccData, nfs3_ok, nfs3err_stale}
use unfs3_raft.Attr.{is_reg}
use unfs3_raft.Server.{
  Server, decode, run_switch_to_root, run_switch_user, switched, fixed_times, run_fh_cache_add,
  fd_calls,
}
use unfs3_raft.Proc.{cat_name, prep}
use unfs3_raft.Proc.Within.{IsSettled, cat_name-IsWithin}
use unfs3_raft.Proc.Verifier.{verifier_hash, write_stamp, access_stamp, check_create_verifier}
use unfs3_raft.Proc.Verifier.Noise.{check_create_verifier-write_stamp}
use unfs3_raft.Proc.Info.{zero_attributes, getattr}
use unfs3_raft.Proc.Io
use unfs3_raft.Proc.Io.{commit}
use unfs3_raft.Proc.Io.Verified.{committed, commit-fd_sync}
use unfs3_raft.Raft.Handles.{LocalHandle}
use unfs3_raft.Proc.Dispatch.{Call, rename_call, adjust_handles_for_proc}
use unfs3_raft.Proc.Dispatch.Local.{IsLocal, adjust_handles_for_proc-IsLocal}
use unfs3_raft.Proc.Stale.{no_wcc, prep_stale}
use unfs3_raft.Proc.Change.{setattr}
use unfs3_raft.Nfs.{Sattr3, dont_change}
use unfs3_raft.Proc.Io.{unstable, write, switch_for_read, switch_for_write}
use unfs3_raft.Examples.System.{
  some_dir, two_names, test_backend, test_errnos, no_dirs, test_config, test_state, file_handle,
  file_path, found_state, file_config,
}

readable : IsReadable test_backend test_errnos false 0 (0x2f ∷ 0x64 ∷ []) two_names 6
unfolding IsReadable
readable = (omega arith, (some_dir, refl), (omega arith, (some_dir, refl), tt {0}))

-- A reply that starts behind the first of the two names.
read_dir-IsPage_example :
    (os' : ℕ) × (entries : List Entry3) × (eof : Bool) × (read_dir test_backend test_errnos false 0
        [] no_export
        (some (0x2f ∷ 0x64 ∷ []))
        0
        1000
        6
      ≡ some (os', listed entries eof))
    × IsPage 0
        (skipped false 0 0)
        (at_most_4096 1000)
        0
        resok_size
        (drop (skipped false 0 0) two_names)
        entries
        eof
unfolding skipped lower_part
read_dir-IsPage_example =
    read_dir-IsPage test_backend test_errnos false 0 [] no_export (0x2f ∷ 0x64 ∷ []) 0 1000 6
      two_names refl readable

skipped-entry_cookie_example :
    let rcookie = change_readdir_cookie true 0 in
    skipped true rcookie (entry_cookie rcookie 41) ≡ 41 + 1
skipped-entry_cookie_example =
    skipped-entry_cookie true (change_readdir_cookie true 0) 41
      (change_readdir_cookie-IsCookieValue true 0) (omega arith)

some_dir-IsTimeless : IsTimeless some_dir
some_dir-IsTimeless = record { directory = refl; timeless = refl }

-- A file is added to the directory between the calls.
abbrev later_files : FileSystem
later_files = record {
  lstat = λ path. some some_dir;
  readdir = λ path. some ((0x61 ∷ []) ∷ []);
  get_gen = λ buf path. 0;
}

fix_dir_times-fix_dir_times_example :
    let fs = files test_backend 0 in
    let (dirs', first) = fix_dir_times fs 50 root_path some_dir no_dirs in
    (fix_dir_times later_files 60 root_path some_dir dirs').1.st_mtime ≡ (
      if directory_hash later_files root_path == directory_hash fs root_path
      then first.st_mtime
      else 60)
fix_dir_times-fix_dir_times_example =
    fix_dir_times-fix_dir_times (files test_backend 0) later_files 50 60 root_path some_dir some_dir
      no_dirs some_dir-IsTimeless some_dir-IsTimeless

cat_name-IsWithin_example :
    IsSettled (0x2f ∷ 0x64 ∷ []) dot_dot (cat_name (some (0x2f ∷ 0x64 ∷ [])) dot_dot)
cat_name-IsWithin_example = cat_name-IsWithin (0x2f ∷ 0x64 ∷ []) dot_dot (omega arith)

abbrev test_verf : List ℕ
test_verf = 1 ∷ 2 ∷ 3 ∷ 4 ∷ 5 ∷ 6 ∷ 7 ∷ 8 ∷ []

-- The time of access lost the hours of its day.
abbrev stored : Stat
stored = record some_dir {
  st_mtime = write_stamp (verifier_hash test_verf);
  st_atime = access_stamp (verifier_hash test_verf) + 3600;
}

check_create_verifier-write_stamp_example : check_create_verifier stored test_verf ≡ true
check_create_verifier-write_stamp_example =
    check_create_verifier-write_stamp test_verf stored (omega arith) (omega arith) (omega arith)
      (omega arith)

-- Whatever lies in its directories, no object has device 9.
abbrev unknown_handle : NfsFh
unknown_handle =
    9 ∷ 0 ∷ 0 ∷ 0 ∷ 4 ∷ 0 ∷ 0 ∷ 0 ∷ 0 ∷ 0 ∷ 0 ∷ 0 ∷ 0 ∷ 0 ∷ 0 ∷ 0 ∷ 0 ∷ 0 ∷ 0 ∷ 0 ∷ 1 ∷ 77 ∷ []

unknown_prep : prep test_config unknown_handle (test_state true) ≡ some (none, test_state false)
unfolding prep decode fh_decode decode_fields read split load value run_switch_to_root
    switch_to_root fh_decomp nfh_valid fh_length decomp_valid export_point_from_fsid decomp_object
    run_fh_cache_lookup cached_path fh_cache_lookup lookup_at fh_cache_index index_loop
    decomp_uncached fh_decomp_raw fh_rec scan_dir scan stat_or_zero fh_hash str_eq store_raw
    decomp_located locate_file store_located run_switch_user switched switch_user switch_groups
unknown_prep = refl

abbrev no_change : Sattr3
no_change = record {
  mode = none;
  uid = none;
  gid = none;
  size = none;
  atime = dont_change;
  mtime = dont_change;
}

prep_stale_example :
    ((s2 : Server ℕ) × (switch_for_read test_config (test_state false) ≡ some (true, s2))
      × (unfs3_raft.Proc.Io.read test_config unknown_handle 0 10 (test_state true)
          ≡ some (((nfs3err_stale, none), none), s2)))
    × ((s2 : Server ℕ) × (switch_for_write test_config (test_state false) ≡ some (true, s2))
        × (write test_config unknown_handle (1 ∷ []) 0 unstable (test_state true)
            ≡ some (((nfs3err_stale, none), no_wcc), s2)))
    × (commit test_config unknown_handle (test_state true)
        ≡ some (((nfs3err_stale, none), no_wcc), test_state false))
    × (setattr test_config unknown_handle no_change none (test_state true)
        ≡ some ((nfs3err_stale, no_wcc), test_state false))
    × (getattr test_config unknown_handle (test_state true)
        ≡ some ((nfs3_ok, zero_attributes), test_state false))
prep_stale_example =
    prep_stale test_config unknown_handle 0 10 (1 ∷ []) unstable no_change none (test_state true)
      (test_state false) unknown_prep

abbrev file_fh : Fh
file_fh = record { dev = 1; ino = 4; gen = 0; pwhash = 0; len = 1; inos = 4 ∷ drop 1 no_inos }

file_prep : prep file_config file_handle (test_state false) ≡ some (some file_path, found_state)
unfolding prep decode fh_decode decode_fields read split load value run_switch_to_root
    switch_to_root fh_decomp nfh_valid fh_length decomp_valid export_point_from_fsid decomp_object
    run_fh_cache_lookup cached_path fh_cache_lookup lookup_at fh_cache_index index_loop
    decomp_uncached fh_decomp_raw fh_rec scan_dir scan stat_or_zero fh_hash str_eq store_raw
    run_switch_user switched switch_user switch_groups fixed_times fix_dir_times store_found
    run_fh_cache_add
file_prep = refl

file_regular : is_reg found_state.st ≡ nfs3_ok
unfolding is_reg
file_regular = refl

file_decoded : fh_decode little no_inos file_handle ≡ some file_fh
unfolding fh_decode decode_fields read split load value
file_decoded = refl

commit-fd_sync_example :
    let s1 = found_state in
    let (synced, ok) = fd_sync (fd_calls file_config) file_fh (s1.fds, (s1.os, s1.wverf)) in
    (file_wcc : WccData) × (s' : Server ℕ) × (commit file_config file_handle (test_state false)
      ≡ some ((committed file_config ok synced.1.1, file_wcc), s'))
    × (s'.fds ≡ synced.0)
    × (s'.wverf ≡ synced.1.1)
commit-fd_sync_example =
    commit-fd_sync file_config file_handle (test_state false) found_state (some file_path) file_fh
      file_prep file_regular file_decoded

-- A rename that came from another server.
abbrev here : LocalHandle
here = some (unknown_handle, 9)

abbrev foreign_rename : Call
foreign_rename =
    rename_call (record { dir = file_handle; name = 0x61 ∷ [] })
      (record { dir = unknown_handle; name = 0x62 ∷ [] })

adjust_handles_for_proc-IsLocal_example :
    IsLocal little no_inos here foreign_rename
      (adjust_handles_for_proc little no_inos here foreign_rename)
adjust_handles_for_proc-IsLocal_example =
    adjust_handles_for_proc-IsLocal little no_inos here foreign_rename
