-- ===== src/User.antt =====
-- user.c: whose rights an operation runs with.
pub mod Squash
pub mod Switch
use unfs3_raft.Base.{
  ℕ, zero, suc, ◌+◌, ◌*◌, ◌/◌, ◌%◌, ◌^◌, Bool, true, false, not, ◌&&◌, ◌||◌, List, [], ◌∷◌, ◌++◌,
  Option, none, some, take, drop, leb, ◌==◌, if◌then◌else◌,
}
use unfs3_raft.Fs.{Stat}
use unfs3_raft.Raft.Apply.{AuthUnix}

-- `flags & (1 << i)`
abbrev pub has_bit : ℕ → ℕ → Bool
has_bit flags i = flags / 2 ^ i % 2 == 1

-- ANON_NOTSPECIAL
abbrev pub anon_notspecial : ℕ
anon_notspecial = 0xffffffff

-- What the export that is in use says: `exports_opts`, `exports_anonuid()`, `exports_anongid()`.
pub record ExportOptions : Type 0 where
  pub exports_opts : ℕ
  pub exports_anonuid : ℕ
  pub exports_anongid : ℕ

-- The static variables.
pub record Ids : Type 0 where
  pub squash_uid : ℕ
  pub squash_gid : ℕ
  pub can_switch : Bool

-- struct svc_req: whether the flavour is AUTH_UNIX, and `rq_clntcred`.
pub record Request : Type 0 where
  pub is_unix : Bool
  pub auth : AuthUnix

-- `passwd` is the entry of "nobody": its user and its group.
unfoldable pub get_squash_ids : Option (ℕ × ℕ) → Ids → Ids
get_squash_ids none ids =
    if ids.can_switch then record ids { squash_uid = 65534; squash_gid = 65534 } else ids
get_squash_ids (some (uid, gid)) ids =
    if ids.can_switch then record ids { squash_uid = uid; squash_gid = gid } else ids

module _ (opts : ExportOptions) (ids : Ids) where
  -- OPT_ALL_SQUASH is bit 1 and OPT_NO_ROOT_SQUASH bit 0.
  unfoldable pub mangle : ℕ → ℕ → ℕ
  mangle id squash =
      if not ids.can_switch || has_bit opts.exports_opts 1
      then squash
      else if has_bit opts.exports_opts 0
      then id
      else if id == 0
      then squash
      else id

  -- The first lines of `mangle_uid` and `get_uid`.
  unfoldable pub uid_squash : ℕ
  uid_squash =
      if not (opts.exports_anonuid == anon_notspecial) then opts.exports_anonuid else ids.squash_uid

  unfoldable pub gid_squash : ℕ
  gid_squash =
      if not (opts.exports_anongid == anon_notspecial) then opts.exports_anongid else ids.squash_gid

  unfoldable pub mangle_uid : ℕ → ℕ
  mangle_uid id = mangle id uid_squash

  unfoldable pub mangle_gid : ℕ → ℕ
  mangle_gid id = mangle id gid_squash

  unfoldable pub get_uid : Request → ℕ
  get_uid req = if req.is_unix then mangle req.auth.aup_uid uid_squash else uid_squash

  unfoldable pub get_gid : Request → ℕ
  get_gid req = if req.is_unix then mangle req.auth.aup_gid gid_squash else gid_squash

  unfoldable pub is_owner : ℕ → Request → Bool
  is_owner owner req = owner == get_uid req

  -- The search of the groups that the array is given.
  unfoldable pub any_group : ℕ → List ℕ → Bool
  any_group group [] = false
  any_group group (gid ∷ gids) = (mangle gid ids.squash_gid == group) || any_group group gids

  -- The array holds `aup_len` groups.
  unfoldable pub has_group : ℕ → Request → Bool
  has_group group req =
      if req.is_unix
      then (mangle req.auth.aup_gid ids.squash_gid == group)
        || any_group group (take req.auth.aup_len req.auth.aup_gids)
      else false

  unfoldable pub mangle_all : List ℕ → List ℕ
  mangle_all [] = []
  mangle_all (gid ∷ gids) = mangle gid ids.squash_gid ∷ mangle_all gids

  unfoldable pub group_max : Request → ℕ
  group_max req = if leb req.auth.aup_len 32 then req.auth.aup_len else 32

  -- `switch_groups` writes the mangled groups into the request's own array.
  unfoldable pub switched_request : Request → Request
  switched_request req =
      let max = group_max req in
      record req {
        auth = record req.auth {
          aup_gids = mangle_all (take max req.auth.aup_gids) ++ drop max req.auth.aup_gids;
        };
      }

-- The system calls on the process's rights: the new state and whether the call succeeded.
pub record System : Type 1 where
  pub State : Type 0
  pub setegid : ℕ → State → State × Bool
  pub seteuid : ℕ → State → State × Bool
  pub setgroups : List ℕ → State → State × Bool
  pub getuid : State → ℕ
  pub getgid : State → ℕ

module _ (sys : System) where
  open sys use {State, setegid, seteuid, setgroups, getuid, getgid}

  abbrev pub as_root : State → State
  as_root st = (seteuid 0 (setegid 0 st).0).0

  unfoldable pub switch_to_root : Ids → State → State
  switch_to_root ids st = if ids.can_switch then as_root st else st

  module _ (opts : ExportOptions) where
    unfoldable pub switch_groups : Ids → Request → State → Request × (State × Bool)
    switch_groups ids req st =
        let req' = switched_request opts ids req in
        (req', setgroups (take (group_max opts ids req) req'.auth.aup_gids) st)

    -- `none` is `daemon_exit`. The user is taken from the request after `switch_groups` changed it.
    unfoldable pub switch_user : Bool → Ids → Request → State → Option (Ids × Request × State)
    switch_user opt_singleuser ids req st =
        let (st1, gid_ok) = setegid (get_gid opts ids req) (as_root st) in
        let (req', called) = switch_groups ids req st1 in
        let (st2, aid_ok) = called in
        let (st3, uid_ok) = seteuid (get_uid opts ids req') st2 in
        let fixed : Ids = record {
          squash_uid = getuid st;
          squash_gid = getgid st;
          can_switch = false;
        } in
        if not ids.can_switch
        then some (ids, req, st)
        else if opt_singleuser || not (getuid st == 0)
        then some (fixed, req, st)
        else if not uid_ok || not gid_ok || not aid_ok
        then none
        else some (ids, req', st3)

    module _ (ids : Ids) (req : Request) (buf : Stat) where
      -- S_IRUSR, S_IWUSR and S_IXUSR are the bits 8, 7 and 6; 3 lower for the group, and 6 for others.
      unfoldable pub have_exec : Bool
      have_exec =
          if is_owner opts ids buf.st_uid req
          then not (has_bit buf.st_mode 8) && has_bit buf.st_mode 6
          else if has_group opts ids buf.st_gid req
          then not (has_bit buf.st_mode 5) && has_bit buf.st_mode 3
          else not (has_bit buf.st_mode 2) && has_bit buf.st_mode 0

      unfoldable pub read_executable : State → State
      read_executable st = if have_exec then as_root st else st

      -- The test of the permission whose bit for others is `bit`.
      unfoldable pub have_permission : ℕ → Bool
      have_permission bit =
          (is_owner opts ids buf.st_uid req && has_bit buf.st_mode (bit + 6))
          || ((has_group opts ids buf.st_gid req && has_bit buf.st_mode (bit + 3))
              || has_bit buf.st_mode bit)

      unfoldable pub read_by_owner : State → State
      read_by_owner st =
          if is_owner opts ids buf.st_uid req && not (have_permission 2) then as_root st else st

      unfoldable pub write_by_owner : State → State
      write_by_owner st =
          if is_owner opts ids buf.st_uid req && not (have_permission 1) then as_root st else st
