-- ===== src/Examples/Rights.antt =====
-- A request of root, and one of a user, on a server that squashes root.
use unfs3_raft.Base.{ℕ, List, some, ◌≡◌, ◌≢◌, refl, true, false, [], ◌∷◌, arith}
use unfs3_raft.User.{
  System, switch_user, switch_groups, mangle, group_max, mangle_all, ExportOptions, Ids, Request,
  uid_squash, gid_squash, get_uid, get_gid, has_group, switched_request,
}
use unfs3_raft.User.Squash.{has_group-switched_request, NoRoot, IsRights, switch_user-NoRoot}

-- An export with the option "rw" alone.
abbrev options : ExportOptions
options = record { exports_opts = 4; exports_anonuid = 0xffffffff; exports_anongid = 0xffffffff }

abbrev nobody : Ids
nobody = record { squash_uid = 65534; squash_gid = 65534; can_switch = true }

abbrev root_request : Request
root_request = record {
  is_unix = true;
  auth = record { aup_uid = 0; aup_gid = 0; aup_len = 2; aup_gids = 0 ∷ 27 ∷ [] };
}

uid_squash_lem : uid_squash options nobody ≢ 0
unfolding uid_squash
uid_squash_lem = omega arith

gid_squash_lem : gid_squash options nobody ≢ 0
unfolding gid_squash
gid_squash_lem = omega arith

has_group-switched_request_example :
    (has_group options nobody 27 (switched_request options nobody root_request)
      ≡ has_group options nobody 27 root_request)
    × (get_uid options nobody (switched_request options nobody root_request)
        ≡ get_uid options nobody root_request)
    × (get_gid options nobody (switched_request options nobody root_request)
        ≡ get_gid options nobody root_request)
has_group-switched_request_example = has_group-switched_request options nobody root_request 27

-- The effective user, the effective group and the other groups of a process that root started.
abbrev process : System
process = record {
  State = ℕ × ℕ × List ℕ;
  setegid = λ id st. ((st.0, id, st.2), true);
  seteuid = λ id st. ((id, st.1, st.2), true);
  setgroups = λ gids st. ((st.0, st.1, gids), true);
  getuid = λ st. 0;
  getgid = λ st. 0;
}

process-IsRights : IsRights process (λ st. st.0) (λ st. st.1) (λ st. st.2)
process-IsRights = record {
  by_seteuid = λ id st ok. refl;
  seteuid_egid = λ id st. refl;
  seteuid_groups = λ id st. refl;
  by_setgroups = λ gids st ok. refl;
  setgroups_egid = λ gids st. refl;
  by_setegid = λ id st ok. refl;
}

abbrev started : ℕ × ℕ × List ℕ
started = (0, 0, 0 ∷ [])

abbrev left : ℕ × ℕ × List ℕ
left = (65534, 65534, 65534 ∷ 27 ∷ [])

abbrev mangled : Request
mangled = switched_request options nobody root_request

root_switched :
    switch_user process options false nobody root_request started ≡ some (nobody, mangled, left)
unfolding switch_user switch_groups get_uid get_gid mangle uid_squash gid_squash group_max
    switched_request mangle_all
root_switched = refl

switch_user-NoRoot_example :
    (left.0 ≢ 0) × (left.1 ≢ 0) × NoRoot left.2 × (has_group options nobody 0 mangled ≡ false)
switch_user-NoRoot_example =
    switch_user-NoRoot process (λ st. st.0) (λ st. st.1) (λ st. st.2) process-IsRights options
      nobody false root_request mangled nobody started left refl uid_squash_lem gid_squash_lem
      (omega arith) root_switched refl
