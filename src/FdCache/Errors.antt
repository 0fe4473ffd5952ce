-- ===== src/FdCache/Errors.antt =====
-- What becomes of descriptors, and of errors when they are closed.
use unfs3_raft.Base.{
  ℕ, zero, suc, ◌+◌, ◌<◌, ◌≡◌, refl, sym, ap, subst, ◌∙◌, ◌⊎◌, inl, inr, Bool, true, false, not,
  ◌||◌, Option, none, some, ◌==◌, arith, if_intro, Bool-cases, ==_refl, ne→==, ==_iff, below-snoc,
}
use unfs3_raft.Fh.{Fh}
use unfs3_raft.FdCache.{
  Kind, fd_read, fd_write, Slot, Table, update, fd_entries, find, holds_fh, idx_by_fh, count_closed,
  released, Calls, close_slot, fd_cache_del, fd_sync, sync_at, purge_loop, fd_cache_purge,
}
use unfs3_raft.FdCache.Find.{IsFirst, find-IsFirst, find_first}

-- An entry that is not in use has no descriptor.
abbrev pub IsTidy : Table → Type 0
IsTidy t = (j : ℕ) → (t.fd_cache j).last_use ≡ 0 → (t.fd_cache j).fd ≡ none

count_closed_table : (s : Slot) (t : Table) → (count_closed s t).fd_cache ≡ t.fd_cache
count_closed_table s t = go s.fd s.kind refl refl
  where
    go :
        (fd : Option ℕ) (kind : Kind)
        → s.fd ≡ fd
        → s.kind ≡ kind
        → (count_closed s t).fd_cache ≡ t.fd_cache
    go none kind e k = unfold count_closed in rw e refl
    go (some fd) fd_read e k = unfold count_closed in rw (e, k) refl
    go (some fd) fd_write e k = unfold count_closed in rw (e, k) refl

module _ (calls : Calls) where
  open calls use {Os, set_eio, regenerate_write_verifier}

  abbrev pub closing : ℕ → Table → Os → Os × Bool
  closing k t os = close_slot calls (t.fd_cache k).fd (t.fd_cache k).kind os

  del_table :
      (k : ℕ) (keep : Bool) (t : Table) (os : Os)
      → (fd_cache_del calls k keep (t, os)).0.0.fd_cache
        ≡ update t.fd_cache k (released calls (closing k t os).1 keep (t.fd_cache k))
  unfolding fd_cache_del
  del_table k keep t os =
      ap (λ f. update f k (released calls (closing k t os).1 keep (t.fd_cache k)))
        (count_closed_table (t.fd_cache k) t)

  released_fd : (ok keep : Bool) (s : Slot) → (released calls ok keep s).fd ≡ none
  unfolding released
  released_fd ok keep s =
      if_intro {A = Slot} (λ x. x.fd ≡ none) (ok || not keep) _ _ (λ _. refl) (λ _. refl)

  -- After an entry is deleted it has no descriptor; the others are as they were.
  del_fd :
      (k : ℕ) (keep : Bool) (st : Table × Os) (j : ℕ)
      → (j ≡ k) ⊎ ((st.0.fd_cache j).fd ≡ none)
      → ((fd_cache_del calls k keep st).0.0.fd_cache j).fd ≡ none
  del_fd k keep (t, os) j (inl e) =
      rw (del_table k keep t os, (==_iff k j).1 (sym e)) (released_fd _ keep (t.fd_cache k))
  del_fd k keep (t, os) j (inr h) = rw (del_table k keep t os) (
      if_intro (λ s. s.fd ≡ none) (k == j) _ (t.fd_cache j) (λ _. released_fd _ keep (t.fd_cache k))
        (λ _. h))

  del-IsTidy :
      (k : ℕ) (keep : Bool) (st : Table × Os)
      → IsTidy st.0
      → IsTidy (fd_cache_del calls k keep st).0.0
  del-IsTidy k keep (t, os) tidy j = rw (del_table k keep t os) (
      if_intro (λ s. s.last_use ≡ 0 → s.fd ≡ none) (k == j) _ (t.fd_cache j)
        (λ _ _. released_fd _ keep (t.fd_cache k)) (λ _. tidy j))

  purge_loop_lem :
      (left i : ℕ) (st : Table × Os)
      → IsTidy st.0
      → ((j : ℕ) → j < i → (st.0.fd_cache j).fd ≡ none)
      → IsTidy (purge_loop calls left i st).0
        × ((j : ℕ) → j < i + left → ((purge_loop calls left i st).0.fd_cache j).fd ≡ none)
  unfolding purge_loop
  purge_loop_lem zero i st tidy before = (tidy, λ j h. before j (omega arith))
  purge_loop_lem (suc left) i st tidy before = elim (Bool-cases ((st.0.fd_cache i).last_use == 0)) [
    | inl unused ↦ rw unused (
        let rest = purge_loop_lem left (i + 1) st tidy (
          below-snoc (λ j. (st.0.fd_cache j).fd ≡ none) i before
            (tidy i ((==_iff _ 0).0 unused))) in
        (rest.0, λ j h. rest.1 j (omega arith)))
    | inr used ↦ rw used (
        let rest =
          purge_loop_lem left (i + 1) (fd_cache_del calls i true st).0 (del-IsTidy i true st tidy) (
            below-snoc (λ j. ((fd_cache_del calls i true st).0.0.fd_cache j).fd ≡ none) i
              (λ j h. del_fd i true st j (inr (before j h))) (del_fd i true st i (inl refl))) in
        (rest.0, λ j h. rest.1 j (omega arith)))
  ]

  -- If no unused entry has a descriptor, `fd_cache_purge` leaves none in the whole table: each has
  -- been closed, or closing it has failed and the entry holds the error.
  pub fd_cache_purge_lem :
      (st : Table × Os)
      → IsTidy st.0
      → IsTidy (fd_cache_purge calls st).0
        × ((j : ℕ) → j < fd_entries → ((fd_cache_purge calls st).0.fd_cache j).fd ≡ none)
  unfolding fd_cache_purge
  fd_cache_purge_lem st tidy =
      let all = purge_loop_lem fd_entries 0 st tidy (λ j h. absurd (omega arith)) in
      (all.0, λ j h. all.1 j (omega arith))

  module _ (fh : Fh) (t : Table) (os : Os) (k : ℕ) (failed : (closing k t os).1 ≡ false) where
    pending : Slot
    pending = record (t.fd_cache k) { fd = none }

    kept_table : (fd_cache_del calls k true (t, os)).0.0.fd_cache ≡ update t.fd_cache k pending
    unfolding released pending
    kept_table =
        del_table k true t os
        ∙ ap (λ ok. update t.fd_cache k (released calls ok true (t.fd_cache k))) failed

    -- The entry is still found by the handle.
    still_found :
        idx_by_fh fh fd_write t ≡ some k
        → idx_by_fh fh fd_write (fd_cache_del calls k true (t, os)).0.0 ≡ some k
    unfolding idx_by_fh pending
    still_found e =
        subst (λ f. find (λ i. holds_fh fh fd_write (f i)) fd_entries 0 ≡ some k) (sym kept_table)
          (find_first _ fd_entries 0 k (omega arith) (omega (arith, first.0))
            (rw (==_refl k) first.1)
            (λ j a b. rw (ne→== k j (λ x. absurd (omega arith))) (first.2 j a b)))
      where
        first : IsFirst (λ i. holds_fh fh fd_write (t.fd_cache i)) 0 fd_entries (some k)
        first =
            subst (IsFirst (λ i. holds_fh fh fd_write (t.fd_cache i)) 0 fd_entries) e
              (find-IsFirst (λ i. holds_fh fh fd_write (t.fd_cache i)) fd_entries 0)

    os_kept : (fd_cache_del calls k true (t, os)).0.1 ≡ (closing k t os).0
    unfolding fd_cache_del
    os_kept = rw failed refl

    reported :
        (st : Table × Os)
        → st.0.fd_cache ≡ update t.fd_cache k pending
        → ((fd_cache_del calls k false st).1 ≡ false)
          × ((fd_cache_del calls k false st).0.1 ≡ regenerate_write_verifier (set_eio st.1))
          × (((fd_cache_del calls k false st).0.0.fd_cache k).last_use ≡ 0)
    unfolding pending
    reported (t1, os1) e = (
      unfold fd_cache_del close_slot in rw at refl,
      unfold fd_cache_del close_slot in rw at refl,
      rw (del_table k false t1 os1, ==_refl k) (unfold released close_slot in rw at refl),
    )
      where
        at : t1.fd_cache k ≡ pending
        at = ap (λ f. f k) e ∙ rw (==_refl k) refl

    -- The descriptor that is kept for writing a file is closed while no client can be told, and the
    -- sync or the close fails, or has failed before: the entry stays in use, and the next COMMIT of
    -- the file fails, changes the write verifier and frees the entry.
    pub fd_sync-fd_cache_del :
        idx_by_fh fh fd_write t ≡ some k
        → let (st, ok) = fd_cache_del calls k true (t, os) in
          let (st', ok') = fd_sync calls fh st in
          (ok ≡ false)
          × (st.1 ≡ (closing k t os).0)
          × ((st.0.fd_cache k).last_use ≡ (t.fd_cache k).last_use)
          × (ok' ≡ false)
          × (st'.1 ≡ regenerate_write_verifier (set_eio st.1))
          × ((st'.0.fd_cache k).last_use ≡ 0)
    unfolding fd_sync sync_at
    fd_sync-fd_cache_del e =
        let after = reported (fd_cache_del calls k true (t, os)).0 kept_table in
        rw (still_found e) (
          unfold fd_cache_del in failed,
          os_kept,
          rw (kept_table, ==_refl k) (unfold pending in refl),
          after.0,
          after.1,
          after.2,
        )
