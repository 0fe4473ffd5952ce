-- ===== src/User/Switch.antt =====
-- When the rights of the process change.
use unfs3_raft.Base.{ℕ, ◌≡◌, refl, Bool, true, false, not, ◌||◌, some, ◌==◌, if◌then◌else◌}
use unfs3_raft.User.{
  ExportOptions, Ids, Request, System, uid_squash, gid_squash, mangle, get_uid, get_gid,
  switch_to_root, switch_user,
}

module _ (sys : System) (opts : ExportOptions) where
  open sys use {State, getuid, getgid}

  -- The squashed ids that a server without root's rights works with.
  abbrev pub fixed_ids : State → Ids
  fixed_ids st = record { squash_uid = getuid st; squash_gid = getgid st; can_switch = false }

  -- A server in single user mode, or without root's rights, never changes its own rights: the first
  -- `switch_user` and every later one leave them alone, `switch_to_root` does nothing, and all user
  -- and group ids are squashed to one, that of the export or of the process.
  pub switch_user-single_user :
      (opt_singleuser : Bool) (ids : Ids) (req : Request) (st : State)
      → ids.can_switch ≡ true
      → (opt_singleuser || not (getuid st == 0)) ≡ true
      → (switch_user sys opts opt_singleuser ids req st ≡ some (fixed_ids st, req, st))
        × ((req' : Request) (st' : State)
            → (switch_user sys opts opt_singleuser (fixed_ids st) req' st'
                ≡ some (fixed_ids st, req', st'))
              × (switch_to_root sys (fixed_ids st) st' ≡ st')
              × (get_uid opts (fixed_ids st) req' ≡ uid_squash opts (fixed_ids st))
              × (get_gid opts (fixed_ids st) req' ≡ gid_squash opts (fixed_ids st)))
  unfolding switch_user switch_to_root get_uid get_gid mangle
  switch_user-single_user opt_singleuser ids req st can single = (
    rw (can, single) refl,
    λ req' st'. (
      refl,
      refl,
      same req'.is_unix (uid_squash opts (fixed_ids st)),
      same req'.is_unix (gid_squash opts (fixed_ids st)),
    ),
  )
    where
      same : (b : Bool) (n : ℕ) → (if b then n else n) ≡ n
      same true n = refl
      same false n = refl
