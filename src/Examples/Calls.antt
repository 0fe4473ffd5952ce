-- ===== src/Examples/Calls.antt =====
-- Calls on a server where reading changes nothing, and other calls count.
use unfs3_raft.Base.{ℕ, arith, ◌≡◌, refl, true, false, none, some, [], ◌∷◌}
use unfs3_raft.Backend.{Backend}
use unfs3_raft.Nfs.{Fattr3, nfs3_ok, nfs3err_not_sync, Sattr3, dont_change, WccData}
use unfs3_raft.Attr.{get_pre_cached}
use unfs3_raft.Error.{join}
use unfs3_raft.Server.Handles.{run_get_pre_cached}
use unfs3_raft.Proc.Change.{in_sync, setattr}
use unfs3_raft.Proc.Change.Guarded.{changed, setattr-IsRefused}
use unfs3_raft.FdCache.{Slot, fd_read, update}
use unfs3_raft.Server.{Server, Config}
use unfs3_raft.Server.Quiet.{IsViewed}
use unfs3_raft.Bytes
use unfs3_raft.Proc.Io
use unfs3_raft.Proc.{prep}
use unfs3_raft.Proc.Io.{switch_for_read, clamp, read_open, read_from, read_result}
use unfs3_raft.Attr.{is_reg, get_post_buf}
use unfs3_raft.Attr.Times.{fix_dir_times}
use unfs3_raft.User.{switch_to_root, switch_user, switch_groups, read_executable, read_by_owner}
use unfs3_raft.Bytes.{split, load, value}
use unfs3_raft.Raft.Handles.{adjust_handle}
use unfs3_raft.Fh.{fh_decode, decode_fields, nfh_valid, fh_length, fh_hash}
use unfs3_raft.Fh.Search.{fh_decomp_raw, fh_rec, scan_dir, scan, stat_or_zero}
use unfs3_raft.Fs.{str_eq}
use unfs3_raft.Exports.{export_point_from_fsid}
use unfs3_raft.Server.{
  decode, run_switch_to_root, run_switch_user, switched, fixed_times, run_fh_cache_add, run_fd_open,
  run_fd_close,
}
use unfs3_raft.Server.Handles.{
  fh_decomp, decomp_valid, decomp_object, run_fh_cache_lookup, cached_path, decomp_uncached,
  store_raw, store_found, get_post_stat, get_post_ll, post_found, run_get_post_buf,
}
use unfs3_raft.FhCache.{fh_cache_lookup, lookup_at, fh_cache_index, index_loop}
use unfs3_raft.FdCache.{fd_open, fd_close}
use unfs3_raft.FdCache.{
  open_at, idx_by_fh, find, opened, is_same, close_at, idx_by_fd, fd_cache_add, add_at,
  fd_cache_unused, added_slot, fd_cache_del, close_slot, released, count_closed, close_kind,
  count_open,
}
use unfs3_raft.Attr.{mode_to_type, read_bits, fsid_of, fileid, translated}
use unfs3_raft.User.{
  get_uid, mangle, uid_squash, get_gid, is_owner, has_group, have_exec, any_group,
}
use unfs3_raft.Proc.{maxdata}
use unfs3_raft.FhCache.{fh_cache_add}
use unfs3_raft.Exports.{export_options}
use unfs3_raft.Proc.Dispatch.{
  adjust_handles_for_proc, adjusted, perform, Call, Reply, read_call, read_reply, is_replicated,
  run_local,
}
use unfs3_raft.Proc.Dispatch.Unreplicated.{run_local-Reads}
use unfs3_raft.Examples.System.{
  test_backend, test_config, test_state, some_file, file_handle, found_state,
}

abbrev reading_backend : Backend
reading_backend = record test_backend {
  lstat = λ path n. (n, some some_file);
  fstat = λ fd n. (n, some some_file);
  open_file = λ path mode nonblock n. (n, some 7);
  close = λ fd n. (n, true);
  fsync = λ fd n. (n, true);
}

abbrev reading_config : Config
reading_config = record test_config { backend = reading_backend }

reading-IsViewed : IsViewed reading_backend (λ n. n)
reading-IsViewed = record {
  by_set_errno = λ e n. refl;
  by_rand = λ n. refl;
  by_setegid = λ id n. refl;
  by_seteuid = λ id n. refl;
  by_setgroups = λ ids n. refl;
  by_lstat = λ path n. refl;
  by_opendir = λ path n. refl;
  by_statvfs = λ path n. refl;
  by_access = λ path p n. refl;
  by_readlink = λ path size n. refl;
  by_open_file = λ path mode nonblock n. refl;
  by_close = λ fd n. refl;
  by_fsync = λ fd n. refl;
  by_pread = λ fd count offset n. refl;
}

abbrev free_slot : Slot
free_slot = record { fd = none; kind = fd_read; last_use = 0; dev = 0; ino = 0; gen = 0 }

abbrev open_slot : Slot
open_slot = record { fd = some 7; kind = fd_read; last_use = 1000; dev = 1; ino = 4; gen = 0 }

-- The descriptor is closed at the end of the file.
abbrev read_state : Server ℕ
read_state = record found_state {
  fds = record {
    fd_cache = update (update (update (λ i. free_slot) 0 open_slot) 0 open_slot) 0 free_slot;
    fd_cache_readers = 0;
    fd_cache_writers = 0;
  };
}

abbrev some_attributes : Fattr3
some_attributes = record {
  type = 1;
  mode = 0x81a4;
  nlink = 2;
  uid = 0;
  gid = 0;
  size = 4096;
  used = 4096;
  specdata1 = 0;
  specdata2 = 0;
  fsid = 1;
  fileid = 4;
  atime = 0;
  mtime = 0;
  ctime = 0;
}

abbrev read_call_reply : Reply
read_call_reply =
    read_reply (
      (nfs3_ok, some (record { count = 1; eof = true; contents = 0x78 ∷ [] })),
      some some_attributes,
    )

abbrev made : Call
made = read_call file_handle 0 10

read_made :
    run_local reading_config none made (test_state false) ≡ some (read_call_reply, read_state)
unfolding run_local adjust_handles_for_proc adjusted adjust_handle perform unfs3_raft.Proc.Io.read
    prep decode fh_decode decode_fields unfs3_raft.Bytes.read split load value run_switch_to_root
    switch_to_root fh_decomp nfh_valid fh_length decomp_valid export_point_from_fsid decomp_object
    run_fh_cache_lookup cached_path fh_cache_lookup lookup_at fh_cache_index index_loop
    decomp_uncached fh_decomp_raw fh_rec scan_dir scan stat_or_zero fh_hash str_eq store_raw
    run_switch_user switched switch_user switch_groups fixed_times fix_dir_times store_found
    run_fh_cache_add is_reg switch_for_read read_executable read_by_owner clamp read_open
    run_fd_open fd_open read_from read_result run_fd_close fd_close get_post_stat get_post_ll
    post_found run_get_post_buf get_post_buf open_at idx_by_fh find opened is_same close_at
    idx_by_fd fd_cache_add add_at fd_cache_unused added_slot fd_cache_del close_slot released
    count_closed close_kind count_open mode_to_type read_bits fsid_of fileid translated get_uid
    mangle uid_squash get_gid is_owner has_group maxdata fh_cache_add export_options have_exec
    any_group
read_made = refl

not_replicated : is_replicated made ≡ false
unfolding is_replicated
not_replicated = refl

run_local-Reads_example : read_state.os ≡ (test_state false).os
run_local-Reads_example =
    run_local-Reads reading_config (λ n. n) reading-IsViewed none made (test_state false) read_state
      read_call_reply not_replicated read_made

abbrev some_change : Sattr3
some_change = record {
  mode = some 0x81ed;
  uid = none;
  gid = none;
  size = some 0;
  atime = dont_change;
  mtime = dont_change;
}

-- The file was last changed at 0.
abbrev refused_wcc : WccData
refused_wcc = record {
  before = some (record { size = 4096; mtime = 0; ctime = 0 });
  after = some some_attributes;
}

setattr_made :
    setattr reading_config file_handle some_change (some 5) (test_state false)
    ≡ some ((nfs3err_not_sync, refused_wcc), found_state)
unfolding setattr prep decode fh_decode decode_fields unfs3_raft.Bytes.read split load value
    run_switch_to_root switch_to_root fh_decomp nfh_valid fh_length decomp_valid
    export_point_from_fsid decomp_object run_fh_cache_lookup cached_path fh_cache_lookup lookup_at
    fh_cache_index index_loop decomp_uncached fh_decomp_raw fh_rec scan_dir scan stat_or_zero
    fh_hash str_eq store_raw run_switch_user switched switch_user switch_groups fixed_times
    fix_dir_times store_found run_fh_cache_add get_post_stat get_post_ll post_found run_get_post_buf
    get_post_buf mode_to_type read_bits fsid_of fileid translated get_uid mangle uid_squash get_gid
    fh_cache_add export_options run_get_pre_cached get_pre_cached in_sync join
setattr_made = refl

setattr-IsRefused_example :
    (nfs3err_not_sync ≡ nfs3err_not_sync) × (found_state.os ≡ (test_state false).os)
setattr-IsRefused_example =
    setattr-IsRefused reading_config (λ n. n) reading-IsViewed file_handle some_change (some 5)
      (test_state false) found_state nfs3err_not_sync nfs3err_not_sync refused_wcc setattr_made
      (changed 5 (record { size = 4096; mtime = 0; ctime = 0 }) (omega arith))
