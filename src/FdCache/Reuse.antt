-- ===== src/FdCache/Reuse.antt =====
-- A descriptor that was opened is used again.
use unfs3_raft.Base.{
  ℕ, ◌<◌, ◌≡◌, refl, sym, ap, subst, inl, inr, Bool, true, false, Option, none, some, ◌==◌, arith,
  if_intro, Option-cases, ==_refl, ne→==,
}
use unfs3_raft.Fs.{FilePath}
use unfs3_raft.Fh.{Fh}
use unfs3_raft.FdCache.{
  Kind, fd_read, fd_write, same_kind, Slot, Table, update, fd_entries, find, fd_cache_unused,
  holds_fh, idx_by_fh, count_open, added_slot, add_at, fd_cache_add, Calls, is_same, opened, cached,
  open_at, fd_open,
}
use unfs3_raft.FdCache.Find.{IsFirst, find-IsFirst, find_first}

same_kind_refl : (kind : Kind) → same_kind kind kind ≡ true
same_kind_refl fd_read = refl
same_kind_refl fd_write = refl

-- The table has a slot for the handle, and the slot has the descriptor.
record Has (fh : Fh) (kind : Kind) (t : Table) (fd : ℕ) : Type 0 where
  slot : ℕ
  indexed : idx_by_fh fh kind t ≡ some slot
  holds : (t.fd_cache slot).fd ≡ some fd

module _ (fh : Fh) (kind : Kind) (now : ℕ) (t : Table) (k : ℕ) where
  found_table :
      (fd : ℕ) (table : ℕ → Slot)
      → k < fd_entries
      → ((j : ℕ) → j < k → holds_fh fh kind (table j) ≡ false)
      → find (λ i. holds_fh fh kind (update table k (added_slot fd fh kind now) i)) fd_entries 0
        ≡ some k
  unfolding added_slot
  found_table fd table h before =
      find_first _ fd_entries 0 k (omega arith) (omega arith)
        (rw (==_refl k, same_kind_refl kind, ==_refl fh.dev, ==_refl fh.ino, ==_refl fh.gen) refl)
        (λ j a b. rw (ne→== k j (λ e. absurd (omega arith))) (before j b))

  count_open_table : (count_open kind t).fd_cache ≡ t.fd_cache
  count_open_table = go kind
    where
      go : (kind' : Kind) → (count_open kind' t).fd_cache ≡ t.fd_cache
      go fd_read = unfold count_open in refl
      go fd_write = unfold count_open in refl

  added-Has :
      (fd : ℕ)
      → fd_cache_unused t ≡ some k
      → k < fd_entries
      → ((j : ℕ) → j < k → holds_fh fh kind (t.fd_cache j) ≡ false)
      → Has fh kind (fd_cache_add fd fh kind now t) fd
  unfolding fd_cache_add add_at idx_by_fh
  added-Has fd e h before = rw e (record {
    slot = k;
    indexed =
        subst
          (λ table.
            find (λ i. holds_fh fh kind (update table k (added_slot fd fh kind now) i)) fd_entries 0
            ≡ some k)
          (sym count_open_table) (found_table fd t.fd_cache h before);
    holds = rw (==_refl k) (unfold added_slot in refl);
  })

module _ (calls : Calls) (fh : Fh) (kind : Kind) where
  open calls use {Os}

  abbrev HasResult : (Table × Os) × Option ℕ → Type 0
  HasResult (st, none) = Unit {0}
  HasResult (st, some fd) = Has fh kind st.0 fd

  cached-HasResult :
      (k : ℕ) (fd : Option ℕ) (t : Table) (os : Os)
      → idx_by_fh fh kind t ≡ some k
      → (t.fd_cache k).fd ≡ fd
      → HasResult (cached calls k fd (t, os))
  unfolding cached
  cached-HasResult k none t os e h = tt
  cached-HasResult k (some fd) t os e h = record { slot = k; indexed = e; holds = h }

  opened-HasResult :
      (path : FilePath) (now : ℕ) (t : Table) (k : ℕ) (o : Os × Option ℕ)
      → fd_cache_unused t ≡ some k
      → k < fd_entries
      → ((j : ℕ) → j < k → holds_fh fh kind (t.fd_cache j) ≡ false)
      → HasResult (opened calls fh path kind true now t o)
  unfolding opened
  opened-HasResult path now t k (os, none) e h before = tt
  opened-HasResult path now t k (os, some fd) e h before =
      if_intro HasResult (is_same calls fh path fd os (calls.fstat fd os)) _ _
        (λ _. added-Has fh kind now t k fd e h before) (λ _. tt)

  unused_range : (t : Table) (k : ℕ) → fd_cache_unused t ≡ some k → k < fd_entries
  unfolding fd_cache_unused
  unused_range t k e =
      (subst (IsFirst (λ i. (t.fd_cache i).last_use == 0) 0 fd_entries) e
        (find-IsFirst (λ i. (t.fd_cache i).last_use == 0) fd_entries 0)).0

  none_before :
      (t : Table)
      → idx_by_fh fh kind t ≡ none
      → (j : ℕ) → j < fd_entries
      → holds_fh fh kind (t.fd_cache j) ≡ false
  unfolding idx_by_fh
  none_before t e j h =
      subst (IsFirst (λ i. holds_fh fh kind (t.fd_cache i)) 0 fd_entries) e
        (find-IsFirst (λ i. holds_fh fh kind (t.fd_cache i)) fd_entries 0) j (omega arith) h

  fd_open-HasResult :
      (path : FilePath) (now : ℕ) (t : Table) (os : Os) (k : ℕ)
      → fd_cache_unused t ≡ some k
      → HasResult (fd_open calls fh path kind true now (t, os))
  unfolding fd_open open_at
  fd_open-HasResult path now t os k e = elim (Option-cases (idx_by_fh fh kind t)) [
    | inl new ↦ rw new (
        opened-HasResult path now t k (calls.open_file path kind os) e (unused_range t k e)
          (λ j h. none_before t new j (omega (arith, unused_range t k e))))
    | inr (i, known) ↦ rw known (cached-HasResult i (t.fd_cache i).fd t os known refl)
  ]

  again :
      (r : (Table × Os) × Option ℕ) (fd : ℕ)
      → HasResult r
      → r.1 ≡ some fd
      → (path : FilePath) (allow_caching : Bool) (now : ℕ)
      → fd_open calls fh path kind allow_caching now r.0 ≡ (r.0, some fd)
  unfolding fd_open open_at cached
  again ((t, os), none) fd h e path allow_caching now = absurd (cc e)
  again ((t, os), some fd') fd h e path allow_caching now =
      rw (h.indexed, h.holds) (ap (λ x. ((t, os), x)) e)

  -- When the table has an unused slot, a descriptor that `fd_open` returns with caching is the one
  -- that every later `fd_open` of the same object and kind returns, whatever path it is given and
  -- with no call of the system, until the table changes.
  pub fd_open-fd_open :
      (path path' : FilePath) (allow_caching : Bool) (now now' : ℕ) (t : Table) (os : Os) (k fd : ℕ)
      → fd_cache_unused t ≡ some k
      → (fd_open calls fh path kind true now (t, os)).1 ≡ some fd
      → let (st, result) = fd_open calls fh path kind true now (t, os) in
        fd_open calls fh path' kind allow_caching now' st ≡ (st, some fd)
  fd_open-fd_open path path' allow_caching now now' t os k fd e r =
      again (fd_open calls fh path kind true now (t, os)) fd (fd_open-HasResult path now t os k e) r
        path' allow_caching now'
