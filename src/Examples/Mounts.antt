-- ===== src/Examples/Mounts.antt =====
-- A client that mounts an exported directory and unmounts it.
use unfs3_raft.Base.{
  ℕ, ◌%◌, replicate, ◌≡◌, ◌≢◌, refl, ap, get_or, false, true, none, some, List, [], ◌∷◌, ◌++◌,
  arith, take,
}
use unfs3_raft.Fs.{FilePath}
use unfs3_raft.FdCache.Errors.{IsTidy}
use unfs3_raft.Fh.{fh_encode}
use unfs3_raft.Exports.{is_prefix}
use unfs3_raft.Server.{Server, Config}
use unfs3_raft.Mount.{
  MountBody, password_cmd, Mounts, mnt3_ok, getnonce_cmd, Caller, map_logical, mnt, umnt, umntall,
  add_mount,
}
use unfs3_raft.Fs.{str_eq}
use unfs3_raft.Fh.{fh_valid}
use unfs3_raft.Fh.Compose.{
  next_slash, prepend, component, with_components, tail, components, comp_found, comp_path,
  fh_comp_raw,
}
use unfs3_raft.Exports.{
  is_equal_addr, find_host, contains, cleared, granted, grant, search_step, search_items, found,
  exports_options, export_point,
}
use unfs3_raft.Server.{run_fh_cache_add}
use unfs3_raft.Server.Handles.{comp_exports, fh_comp}
use unfs3_raft.Mount.{
  has_password, is_refused, run_exports_options, login, real_path, mount_handle, mount_checked,
  mount_at, mount_path,
}
use unfs3_raft.Mount.Allowed.Checked.{Allowed}
use unfs3_raft.Mount.Count.{IsCounted, without}
use unfs3_raft.Mount.Unmounted.{Unmounts, umnt-Unmounts}
use unfs3_raft.Mount.{otp_cmd, login_otp}
use unfs3_raft.Mount.Logical.{umnt-mnt}
use unfs3_raft.Examples.System.{test_config, test_state}
use unfs3_raft.Examples.Exports.{exports_list, client, data_path}

abbrev mount_config : Config
mount_config = record test_config { export_list = exports_list; remote = some client }

abbrev root_name : FilePath
root_name = 0x2f ∷ 0x72 ∷ []

abbrev mount_caller : Caller ℕ
mount_caller = record {
  rq_vers = 3;
  port = 600;
  my_mount_root = some data_path;
  logical_mount_root = some root_name;
  inet_ntop = λ addr. 0x31 ∷ [];
  text_of = λ format. format;
  md5 = λ bytes. bytes;
  alloc = λ size. true;
  realpath = λ path os. some path;
  gen_nonce = λ nonce os. (os, (nonce, true));
}

abbrev no_mounts : Mounts
no_mounts = record { mount_cnt = 0; mount_list = []; nonce = [] }

abbrev reply : List ℕ × Mounts × Server ℕ
reply = elim (mnt mount_config mount_caller root_name no_mounts (test_state false)) [
  | some ((mnt3_ok bytes, m'), s') ↦ (bytes, m', s')
  | _ ↦ ([], no_mounts, test_state false)
]

mounted :
    mnt mount_config mount_caller root_name no_mounts (test_state false)
    ≡ some ((mnt3_ok reply.0, reply.1), reply.2)
unfolding mnt map_logical mount_path login real_path mount_at mount_checked run_exports_options
    is_refused has_password mount_handle add_mount fh_comp comp_exports fh_comp_raw comp_path
    comp_found str_eq with_components components next_slash component tail prepend fh_valid
    fh_encode run_fh_cache_add is_prefix exports_options contains cleared granted grant search_step
    search_items found find_host is_equal_addr export_point
mounted = refl

no_mounts-IsCounted : IsCounted no_mounts
no_mounts-IsCounted = record { count = refl; small = omega arith }

abbrev one_mount : Mounts
one_mount = record {
  mount_cnt = 1;
  mount_list = record { ml_hostname = 0x31 ∷ []; ml_directory = data_path } ∷ [];
  nonce = [];
}

one_mount-IsCounted : IsCounted one_mount
one_mount-IsCounted = record { count = refl; small = omega arith }

test_state-IsTidy : IsTidy (test_state false).fds
test_state-IsTidy j unused = refl

umnt-Unmounts_example :
    Unmounts mount_config mount_caller client one_mount
      (test_state false)
      (some data_path)
      (umnt mount_config mount_caller data_path one_mount (test_state false))
    × Unmounts mount_config mount_caller client one_mount
        (test_state false)
        none
        (umntall mount_config mount_caller one_mount (test_state false))
umnt-Unmounts_example =
    umnt-Unmounts mount_config mount_caller client one_mount (test_state false) refl
      one_mount-IsCounted test_state-IsTidy data_path

not_root : take 4095 data_path ≢ root_name
not_root e = omega (arith, ap (λ (p : FilePath). get_or p 1 0) e)

reply-IsCounted : IsCounted reply.1
unfolding mnt map_logical mount_path login real_path mount_at mount_checked run_exports_options
    is_refused has_password mount_handle add_mount fh_comp comp_exports fh_comp_raw comp_path
    comp_found str_eq with_components components next_slash component tail prepend fh_valid
    fh_encode run_fh_cache_add is_prefix exports_options contains cleared granted grant search_step
    search_items found find_host is_equal_addr export_point
reply-IsCounted = record { count = refl; small = omega arith }

no_command :
    (is_prefix getnonce_cmd data_path ≡ false)
    × (is_prefix password_cmd data_path ≡ false)
    × (is_prefix otp_cmd data_path ≡ false)
unfolding is_prefix
no_command = (refl, refl, refl)

umnt-mnt_example :
    let entry : MountBody = record { ml_hostname = 0x31 ∷ []; ml_directory = data_path } in
    (reply.1.mount_list ≡ [] ++ entry ∷ [])
    × ((m2 : Mounts) × (t' : Server ℕ) × (umnt mount_config mount_caller root_name reply.1
            (test_state false)
          ≡ some (m2, t'))
        × (m2.mount_list ≡ without (0x31 ∷ []) (some root_name) [] ++ entry ∷ []))
umnt-mnt_example =
    umnt-mnt mount_config mount_caller client no_mounts reply.1 root_name data_path refl refl refl
      no_command.0 no_command.1 no_command.2 refl reply.0 (test_state false) reply.2
      (test_state false) not_root reply-IsCounted test_state-IsTidy mounted

-- A digest that shows the first byte.
abbrev first_byte : List ℕ → List ℕ
first_byte bytes = get_or bytes 0 0 % 256 ∷ replicate 15 0

abbrev otp_caller : Caller ℕ
otp_caller = record mount_caller { md5 = first_byte; gen_nonce = λ nonce os. (os, (2 ∷ [], true)) }

abbrev one_nonce : Mounts
one_nonce = record no_mounts { nonce = 1 ∷ [] }

-- "@otp:01000000000000000000000000000000/a"
abbrev otp_request : FilePath
otp_request = otp_cmd ++ (b'0' ∷ b'1' ∷ (replicate 30 b'0' ++ data_path))

abbrev logged_in : Mounts × Server ℕ
logged_in = elim (login_otp mount_config otp_caller otp_request one_nonce (test_state false)) [
  | some ((who, m'), s') ↦ (m', s')
  | none ↦ (one_nonce, test_state false)
]
