-- ===== src/User/Squash.antt =====
-- What the mangling of user and group ids guarantees.
use unfs3_raft.Base.{
  Option, none, if◌then◌else◌, sym, ap, ◌∙◌, Bool, true, not, ◌||◌, some, ◌==◌, ℕ, zero, suc, ◌≡◌,
  ◌≢◌, refl, false, List, [], ◌∷◌, ◌++◌, take, drop, arith, ne→==, if_intro,
}
use mathlib.Core.Option.{some-injective}
use unfs3_raft.User.{
  System, as_root, switch_groups, switch_user, has_bit, ExportOptions, Ids, Request, mangle,
  uid_squash, gid_squash, get_uid, get_gid, any_group, has_group, mangle_all, group_max,
  switched_request,
}

abbrev pub NoRoot : List ℕ → Type 0
NoRoot [] = Unit {0}
NoRoot (gid ∷ gids) = (gid ≢ 0) × NoRoot gids

module _ (opts : ExportOptions) (ids : Ids) where
  mangle_idempotent :
      (id squash : ℕ)
      → mangle opts ids (mangle opts ids id squash) squash ≡ mangle opts ids id squash
  unfolding mangle
  mangle_idempotent id squash = ground arith

  any_group-mangled :
      (group len n : ℕ) (gids : List ℕ)
      → any_group opts ids group (take len (mangle_all opts ids (take n gids) ++ drop n gids))
        ≡ any_group opts ids group (take len gids)
  unfolding any_group mangle_all
  any_group-mangled group zero n gids = refl
  any_group-mangled group (suc len) zero gids = refl
  any_group-mangled group (suc len) (suc n) [] = refl
  any_group-mangled group (suc len) (suc n) (gid ∷ gids) =
      rw (mangle_idempotent gid ids.squash_gid, any_group-mangled group len n gids) refl

  -- The groups that `switch_groups` writes back into the request give the same answer to every later
  -- `has_group`, which mangles them again; the user and the group of the request stay as they were.
  pub has_group-switched_request :
      (req : Request) (group : ℕ)
      → (has_group opts ids group (switched_request opts ids req) ≡ has_group opts ids group req)
        × (get_uid opts ids (switched_request opts ids req) ≡ get_uid opts ids req)
        × (get_gid opts ids (switched_request opts ids req) ≡ get_gid opts ids req)
  unfolding has_group switched_request get_uid get_gid
  has_group-switched_request req group = (
    rw (any_group-mangled group req.auth.aup_len (group_max opts ids req) req.auth.aup_gids) refl,
    refl,
    refl,
  )

  never_root :
      (id squash : ℕ)
      → has_bit opts.exports_opts 0 ≡ false
      → squash ≢ 0
      → mangle opts ids id squash ≢ 0
  unfolding mangle
  never_root id squash h k = ground arith

  no_root_group :
      (gids : List ℕ)
      → has_bit opts.exports_opts 0 ≡ false
      → ids.squash_gid ≢ 0
      → any_group opts ids 0 gids ≡ false
  unfolding any_group
  no_root_group [] h k = refl
  no_root_group (gid ∷ gids) h k =
      rw (ne→== _ 0 (never_root gid ids.squash_gid h k), no_root_group gids h k) refl

  -- No id that is computed for a request is root's.
  root_squash_lem :
      (req : Request)
      → has_bit opts.exports_opts 0 ≡ false
      → uid_squash opts ids ≢ 0
      → gid_squash opts ids ≢ 0
      → ids.squash_gid ≢ 0
      → (get_uid opts ids req ≢ 0) × (get_gid opts ids req ≢ 0) × (has_group opts ids 0 req ≡ false)
  unfolding get_uid get_gid has_group
  root_squash_lem req h u g s = (
    if_intro (λ n. n ≢ 0) req.is_unix _ _ (λ _. never_root _ _ h u) (λ _. u),
    if_intro (λ n. n ≢ 0) req.is_unix _ _ (λ _. never_root _ _ h g) (λ _. g),
    if_intro (λ b. b ≡ false) req.is_unix _ _
        (λ _.
          rw
            (
              ne→== _ 0 (never_root req.auth.aup_gid ids.squash_gid h s),
              no_root_group (take req.auth.aup_len req.auth.aup_gids) h s,
            )
            refl)
        (λ _. refl),
  )

  mangled-NoRoot :
      (n : ℕ) (gids : List ℕ)
      → has_bit opts.exports_opts 0 ≡ false
      → ids.squash_gid ≢ 0
      → NoRoot (take n (mangle_all opts ids (take n gids) ++ drop n gids))
  unfolding mangle_all
  mangled-NoRoot zero gids h k = tt
  mangled-NoRoot (suc n) [] h k = tt
  mangled-NoRoot (suc n) (gid ∷ gids) h k =
      (never_root gid ids.squash_gid h k, mangled-NoRoot n gids h k)

-- What the calls on the rights of a process do to its effective user, its effective group and its
-- other groups, if they succeed.
pub record IsRights (sys : System) (euid egid : sys.State → ℕ) (groups : sys.State → List ℕ)
    : Type 0 where
  pub by_seteuid :
      (id : ℕ) (st : sys.State) → (sys.seteuid id st).1 ≡ true → euid (sys.seteuid id st).0 ≡ id
  pub seteuid_egid : (id : ℕ) (st : sys.State) → egid (sys.seteuid id st).0 ≡ egid st
  pub seteuid_groups : (id : ℕ) (st : sys.State) → groups (sys.seteuid id st).0 ≡ groups st
  pub by_setgroups :
      (gids : List ℕ) (st : sys.State)
      → (sys.setgroups gids st).1 ≡ true
      → groups (sys.setgroups gids st).0 ≡ gids
  pub setgroups_egid : (gids : List ℕ) (st : sys.State) → egid (sys.setgroups gids st).0 ≡ egid st
  pub by_setegid :
      (id : ℕ) (st : sys.State) → (sys.setegid id st).1 ≡ true → egid (sys.setegid id st).0 ≡ id

module _ (sys : System) (euid egid : sys.State → ℕ) (groups : sys.State → List ℕ)
    (v : IsRights sys euid egid groups) (opts : ExportOptions) (ids : Ids) where
  -- What `switch_user` leaves if it changes the rights of the process.
  switched_lem :
      (single : Bool) (req req' : Request) (ids' : Ids) (st st' : sys.State)
      → switch_user sys opts single ids req st ≡ some (ids', req', st')
      → ids'.can_switch ≡ true
      → (req' ≡ switched_request opts ids req)
        × (euid st' ≡ get_uid opts ids (switched_request opts ids req))
        × (egid st' ≡ get_gid opts ids req)
        × (groups st' ≡ take (group_max opts ids req) (switched_request opts ids req).auth.aup_gids)
  unfolding switch_user switch_groups
  switched_lem single req req' ids' st st' h able =
      go ids.can_switch (single || not (sys.getuid st == 0))
        (not uid_ok || not gid_ok || not aid_ok) refl refl h
    where
      new : Request
      new = switched_request opts ids req

      st1 : sys.State
      st1 = (sys.setegid (get_gid opts ids req) (as_root sys st)).0

      gid_ok : Bool
      gid_ok = (sys.setegid (get_gid opts ids req) (as_root sys st)).1

      st2 : sys.State
      st2 = (sys.setgroups (take (group_max opts ids req) new.auth.aup_gids) st1).0

      aid_ok : Bool
      aid_ok = (sys.setgroups (take (group_max opts ids req) new.auth.aup_gids) st1).1

      st3 : sys.State
      st3 = (sys.seteuid (get_uid opts ids new) st2).0

      uid_ok : Bool
      uid_ok = (sys.seteuid (get_uid opts ids new) st2).1

      fixed : Ids
      fixed = record { squash_uid = sys.getuid st; squash_gid = sys.getgid st; can_switch = false }

      still_able :
          (r : Ids × Request × sys.State) → some r ≡ some (ids', req', st') → r.0.can_switch ≡ true
      still_able r e =
          ap (λ (x : Ids × Request × sys.State). x.0.can_switch)
            (some-injective r (ids', req', st') e)
          ∙ able

      go :
          (can one bad : Bool)
          → ids.can_switch ≡ can
          → (not uid_ok || not gid_ok || not aid_ok) ≡ bad
          → ◌≡◌ {A = Option (Ids × Request × sys.State)}
              (if not can
                then some (ids, req, st)
                else if one
                then some (fixed, req, st)
                else if bad
                then none
                else some (ids, new, st3))
              (some (ids', req', st'))
          → (req' ≡ switched_request opts ids req)
            × (euid st' ≡ get_uid opts ids (switched_request opts ids req))
            × (egid st' ≡ get_gid opts ids req)
            × (groups st'
                ≡ take (group_max opts ids req) (switched_request opts ids req).auth.aup_gids)
      go false one bad c b h = absurd (cc (c, still_able (ids, req, st) h))
      go true true bad c b h = absurd (cc (still_able (fixed, req, st) h))
      go true false true c b h = absurd (cc h)
      go true false false c b h =
          let same = some-injective (ids, new, st3) (ids', req', st') h in
          let state : st' ≡ st3 = sym (ap (λ (r : Ids × Request × sys.State). r.2) same) in
          (
            sym (ap (λ (r : Ids × Request × sys.State). r.1) same),
            ap euid state ∙ v.by_seteuid _ st2 (ground (arith, b)),
            ap egid state
                ∙ v.seteuid_egid _ st2
                ∙ v.setgroups_egid _ st1
                ∙ v.by_setegid _ _ (ground (arith, b)),
            ap groups state ∙ v.seteuid_groups _ st2 ∙ v.by_setgroups _ st1 (ground (arith, b)),
          )

  -- Without OPT_NO_ROOT_SQUASH, and with ids to squash to that are not root's: when `switch_user` ends
  -- and changes the rights of the process, the process runs with neither the user nor a group of root,
  -- whatever credentials the request carries, and the request does not count as a member of root's
  -- group.
  pub switch_user-NoRoot :
      (single : Bool) (req req' : Request) (ids' : Ids) (st st' : sys.State)
      → has_bit opts.exports_opts 0 ≡ false
      → uid_squash opts ids ≢ 0
      → gid_squash opts ids ≢ 0
      → ids.squash_gid ≢ 0
      → switch_user sys opts single ids req st ≡ some (ids', req', st')
      → ids'.can_switch ≡ true
      → (euid st' ≢ 0) × (egid st' ≢ 0) × NoRoot (groups st') × (has_group opts ids 0 req' ≡ false)
  unfolding switched_request
  switch_user-NoRoot single req req' ids' st st' h u g s ended able =
      let (new, uid, gid, gids) = switched_lem single req req' ids' st st' ended able in
      let after = root_squash_lem opts ids (switched_request opts ids req) h u g s in
      (
        rw uid after.0,
        rw gid (root_squash_lem opts ids req h u g s).1,
        rw gids (mangled-NoRoot opts ids (group_max opts ids req) req.auth.aup_gids h s),
        ap (has_group opts ids 0) new ∙ after.2,
      )
