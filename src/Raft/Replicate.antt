-- ===== src/Raft/Replicate.antt =====
-- daemon_raft.c: raft_serialize_and_replicate_nfs_op, the wait for a commit and for a leader, and
-- raft_make_progress. What these call of the raft library, and what its callbacks change, is the
-- parameter `RaftServer`; `D` is the type of a result pointer, and `none` that of NULL.
pub mod Commit
use unfs3_raft.Base.{
  ℕ, zero, suc, ◌+◌, ◌*◌, ◌-◌, ◌/◌, Bool, true, false, not, ◌&&◌, ◌||◌, List, Option, none, some,
  ◌>>=◌, length, ltb, leb, ◌==◌, if◌then◌else◌,
}
use unfs3_raft.Raft.Wire.{Entry}
use unfs3_raft.Raft.Ring.{Ring, collect, capacity}
use unfs3_raft.Raft.Apply.{AuthUnix, info_size, payload}

-- timeout_ms of daemon.h
abbrev pub timeout_ms : ℕ
timeout_ms = 10

-- struct timespec
pub record Timespec : Type 0 where
  pub tv_sec : ℕ
  pub tv_nsec : ℕ

-- The milliseconds from `last` to a later `now`; `/` of C rounds a negative difference up.
unfoldable pub elapsed_ms : Timespec → Timespec → ℕ
elapsed_ms now last =
    let seconds = (now.tv_sec - last.tv_sec) * 1000 in
    if leb last.tv_nsec now.tv_nsec
    then seconds + (now.tv_nsec - last.tv_nsec) / 1000000
    else seconds - (last.tv_nsec - now.tv_nsec) / 1000000

-- `apply_all` runs raft_applylog_cb for the entries that are committed and were not applied; the
-- signal that disables raft may come while the process sleeps.
pub record RaftServer (D : Type 0) : Type 1 where
  pub State : Type 0
  pub is_leader : State → Bool
  pub current_leader : State → Option ℕ
  pub current_idx : State → ℕ
  pub commit_idx : State → ℕ
  pub apply_all : State → State
  pub recv_entry : State → Entry → State × Option ℕ
  pub periodic : ℕ → State → State
  pub net_receive : State → State
  pub usleep : ℕ → State → State
  pub clock : State → Timespec
  pub last_progress_time : State → Timespec
  pub set_last_progress_time : Timespec → State → State
  pub raft_disabled : State → Bool
  pub ring : State → Ring D
  pub set_ring : Ring D → State → State

module _ {D : Type 0} (srv : RaftServer D) where
  open srv use {
    State, is_leader, current_leader, current_idx, commit_idx, apply_all, recv_entry, periodic,
    net_receive, usleep, clock, last_progress_time, set_last_progress_time, raft_disabled, ring,
    set_ring,
  }

  -- A clock that was never read makes the process sleep once more.
  unfoldable pub raft_make_progress : State → State
  raft_make_progress st =
      let now = clock st in
      let last = last_progress_time st in
      let never = (last.tv_sec == 0) && (last.tv_nsec == 0) in
      let st' = if never then usleep (timeout_ms * 1000) st else st in
      let elapsed = if never then timeout_ms else elapsed_ms now last in
      set_last_progress_time now (net_receive (periodic elapsed st'))

  -- One round of both loops that wait.
  unfoldable pub wait_round : State → State
  wait_round st = raft_make_progress (usleep (timeout_ms * 1000) st)

  abbrev pub rounds : ℕ → State → State
  rounds zero st = st
  rounds (suc n) st = rounds n (wait_round st)

  -- Whether this node is the leader that was elected; `none` means that the fuel ran out.
  unfoldable pub wait_for_leader : ℕ → State → Option (Bool × State)
  wait_for_leader zero st = none
  wait_for_leader (suc fuel) st =
      let rest = wait_for_leader fuel (wait_round st) in
      elim (current_leader st) [ none ↦ rest | some leader ↦ some (is_leader st, st) ]

  -- Whether the entry is committed, or raft was disabled before; `none` means that the fuel ran out.
  unfoldable pub wait_commit : ℕ → ℕ → State → Option (Bool × State)
  wait_commit zero idx st = none
  wait_commit (suc fuel) idx st =
      let rest = wait_commit fuel idx (wait_round st) in
      if ltb (commit_idx st) idx
      then if raft_disabled st then some (false, st) else rest
      else some (true, st)

  unfoldable pub with_ring : State → Option D × Ring D → Option (Option D × State)
  with_ring st (result, ring') = some (result, set_ring ring' st)

  -- The loop that waits for the result.
  unfoldable pub take_result : ℕ → State → Option (Option D × State)
  take_result idx st = collect capacity idx (ring st) >>= with_ring st

  unfoldable pub committed : ℕ → Bool × State → Option (Option D × State)
  committed idx (false, st) = some (none, st)
  committed idx (true, st) = take_result idx (apply_all st)

  unfoldable pub received : ℕ → State × Option ℕ → Option (Option D × State)
  received fuel (st, none) = some (none, st)
  received fuel (st, some idx) = wait_commit fuel idx st >>= committed idx

  module _ (ngrps normal : ℕ) (alloc : ℕ → Bool) where
    unfoldable pub new_entry : List ℕ → State → Entry
    new_entry buf st = record {
      term = 0;
      id = current_idx st + 1;
      type = normal;
      len = length buf;
      buf = some buf;
    }

    -- `arg_len` is what `xdr_sizeof` gives, and `encoded` the arguments if they can be encoded. The
    -- inner `none` is NULL.
    unfoldable pub raft_serialize_and_replicate_nfs_op :
        ℕ → ℕ → List ℕ → Option AuthUnix → ℕ → Option (List ℕ) → State → Option (Option D × State)
    raft_serialize_and_replicate_nfs_op fuel proc addr auth arg_len encoded st =
        let flushed = apply_all st in
        let logged : Option (Option D × State) = elim encoded [
          | none ↦ some (none, flushed)
          | some args ↦
              received fuel
                (recv_entry flushed (new_entry (payload ngrps proc addr auth args) flushed))
        ] in
        if not (is_leader st)
        then some (none, st)
        else if (arg_len == 0) || not (alloc (4 + info_size ngrps + arg_len))
        then some (none, flushed)
        else logged
