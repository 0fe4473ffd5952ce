-- ===== src/Raft/Replicate/Commit.antt =====
-- The wait for a commit ends, and then the result of the entry is returned.
use unfs3_raft.Base.{
  ℕ, zero, suc, ◌+◌, ◌<◌, ◌≤◌, ◌≡◌, Bool, true, false, List, [], Option, none, some, ◌>>=◌, ltb,
  ◌==◌, arith, Bool-cases, ◌⊎◌, inl, inr,
}
use unfs3_raft.Raft.Ring.{Item, Ring, put_result}
use unfs3_raft.Raft.Ring.Fifo.{IsValid, contents}
use unfs3_raft.Raft.Ring.Collect.{Absent, Collects, put_all, collect-put_all}
use unfs3_raft.Raft.Apply.{AuthUnix, info_size, payload}
use unfs3_raft.Raft.Replicate.{
  RaftServer, rounds, wait_round, wait_commit, take_result, with_ring, committed, received,
  new_entry, raft_serialize_and_replicate_nfs_op,
}

module _ {D : Type 0} (srv : RaftServer D) where
  open srv use {State, is_leader, commit_idx, apply_all, recv_entry, raft_disabled, ring, set_ring}

  -- Within `n` rounds the entry is committed, and raft is not disabled before that.
  abbrev pub CommitsWithin : ℕ → ℕ → State → Type 0
  CommitsWithin zero idx st = idx ≤ commit_idx st
  CommitsWithin (suc n) idx st =
      (idx ≤ commit_idx st) ⊎ ((raft_disabled st ≡ false) × CommitsWithin n idx (wait_round srv st))

  -- The wait ends with the entry committed, after at most `n` rounds.
  abbrev Waited : ℕ → ℕ → State → Option (Bool × State) → Type 0
  Waited n idx st o =
      (m : ℕ) × (m ≤ n) × (idx ≤ commit_idx (rounds srv m st)) × (o ≡ some (true, rounds srv m st))

  wait_commit-Waited :
      (n fuel idx : ℕ) (st : State)
      → n < fuel
      → CommitsWithin n idx st
      → Waited n idx st (wait_commit srv fuel idx st)
  unfolding wait_commit
  wait_commit-Waited n zero idx st enough c = absurd (omega arith)
  wait_commit-Waited zero (suc fuel) idx st enough c = (0, omega arith, c, ground arith)
  wait_commit-Waited (suc n) (suc fuel) idx st enough (inl now) =
      (0, omega arith, now, ground arith)
  wait_commit-Waited (suc n) (suc fuel) idx st enough (inr later) =
      elim (Bool-cases (ltb (commit_idx st) idx)) [
        | inr now ↦ (0, omega arith, ground arith, rw now)
        | inl waiting ↦
            let (m, few, done, same) =
              wait_commit-Waited n fuel idx (wait_round srv st) (omega arith) later.1 in
            (suc m, omega arith, done, rw (waiting, later.0) same)
      ]

  -- Once everything that is committed is applied, the entry's result `d` is the last one in the ring,
  -- behind those of other entries, and no result of the entry stood there before.
  pub record Answers (idx : ℕ) (d : D) (st : State) : Type 0 where
    pub before : Ring D
    pub others : List (Item D)
    pub valid : IsValid before
    pub absent : Absent idx (contents before)
    pub other : Absent idx others
    pub put : ring (apply_all st) ≡ put_result idx d (put_all others before)

  take_result-Answers :
      (idx : ℕ) (d : D) (st : State)
      → Answers idx d st
      → (st' : State) × (take_result srv idx (apply_all st) ≡ some (some d, st'))
  unfolding take_result with_ring
  take_result-Answers idx d st a =
      rw a.put (go _ (collect-put_all idx a.others d a.before a.valid a.other a.absent))
    where
      go :
          (o : Option (Option D × Ring D))
          → Collects idx (some d, []) o
          → (st' : State) × ((o >>= with_ring srv (apply_all st)) ≡ some (some d, st'))
      go none c = absurd c
      go (some (got, r)) c = (set_ring r (apply_all st), rw c.0)

  module _ (ngrps normal : ℕ) (alloc : ℕ → Bool) (proc : ℕ) (addr : List ℕ) (auth : Option AuthUnix)
      (arg_len : ℕ) (args : List ℕ) (st st1 : State) (idx n : ℕ) (leads : is_leader st ≡ true)
      (sized : (arg_len == 0) ≡ false) (room : alloc (4 + info_size ngrps + arg_len) ≡ true)
      (accepted : recv_entry
          (apply_all st)
          (new_entry srv ngrps normal alloc (payload ngrps proc addr auth args) (apply_all st))
        ≡ (st1, some idx))
      (commits : CommitsWithin n idx st1)
      (applies : (m : ℕ)
        → m ≤ n
        → idx ≤ commit_idx (rounds srv m st1)
        → (d : D) × Answers idx d (rounds srv m st1)) where
    -- An operation that the leader can encode and that the library accepts is answered, if its entry
    -- is committed within some rounds and raft is not disabled meanwhile: the result is the one that
    -- applying the entry puts into the ring.
    pub replicated :
        (fuel : ℕ)
        → n < fuel
        → (m : ℕ) × (d : D) × (st' : State) × (m ≤ n)
          × Answers idx d (rounds srv m st1)
          × (raft_serialize_and_replicate_nfs_op srv ngrps normal alloc fuel proc addr auth arg_len
                (some args)
                st
              ≡ some (some d, st'))
    unfolding raft_serialize_and_replicate_nfs_op received committed
    replicated fuel enough =
        let (m, few, done, waited) = wait_commit-Waited n fuel idx st1 enough commits in
        let (d, answers) = applies m few done in
        let (st', taken) = take_result-Answers idx d (rounds srv m st1) answers in
        (m, d, st', few, answers, rw (leads, sized, room, accepted, waited) taken)
