-- ===== src/FhCache/Slots.antt =====
-- fh_cache_lru: the slot that is handed out for a new entry.
use unfs3_raft.Base.{
  ℕ, zero, suc, ◌+◌, ◌-◌, ◌^◌, ◌≤◌, ◌<◌, ◌≡◌, refl, ◌⊎◌, inl, inr, Bool, true, false, ◌&&◌, Option,
  none, some, ltb, ◌==◌, arith, Bool-cases, if_intro, below-snoc, not_lt, ltb→lt,
}
use native.Mathlib.Nat.{le_refl, le_trans}
use unfs3_raft.FhCache.{Entry, Cache, cache_entries, is_last, lru_loop, fh_cache_lru}

one_free : (last : Option ℕ) (b : Bool) → (b && is_last last 0) ≡ true → is_last last 1 ≡ false
one_free none b h = refl
one_free (some l) b h = ground arith

last_stomped :
    (last : Option ℕ) (k : ℕ) → ((k == 0) && is_last last 0) ≡ true → is_last last k ≡ true
last_stomped last zero h = h
last_stomped last (suc k) h = absurd (ground arith)

last_kept :
    (last : Option ℕ) (k : ℕ)
    → k ≡ 0
    → ((k == 0) && is_last last 0) ≡ false
    → is_last last k ≡ false
last_kept last zero e h = h
last_kept last (suc k) e h = absurd (omega arith)

module _ (table : ℕ → Entry) (last : Option ℕ) where
  abbrev pub used : ℕ → ℕ
  used j = (table j).use_time

  -- What the search for the oldest slot knows after the slots below `i`.
  pub record Best (i best best_idx : ℕ) : Type 0 where
    pub in_range : best_idx < cache_entries
    pub oldest : (j : ℕ) → j < i → is_last last j ≡ false → best ≤ used j
    pub chosen :
        ((is_last last best_idx ≡ false) × (used best_idx ≤ best))
        ⊎ ((best_idx ≡ 0) × (best ≡ 2 ^ 32 - 1))

  -- The slot may be written: it is not the one that was handed out last, and no other one is older.
  pub record IsOldest (r : ℕ) : Type 0 where
    pub in_range : r < cache_entries
    pub not_last : is_last last r ≡ false
    pub oldest : (j : ℕ) → j < cache_entries → is_last last j ≡ false → used r ≤ used j

  module _ (bound : (j : ℕ) → used j ≤ 2 ^ 32 - 1) where
    pub lru_loop-IsOldest :
        (left i best best_idx : ℕ)
        → i + left ≡ cache_entries
        → Best i best best_idx
        → IsOldest (lru_loop table last left i best best_idx)
    unfolding lru_loop
    lru_loop-IsOldest zero i best best_idx e b =
        if_intro IsOldest ((best_idx == 0) && is_last last 0) 1 best_idx (λ h. stomp h b.chosen)
          (λ h. keep h b.chosen)
      where
        oldest_lem :
            (r : ℕ)
            → used r ≤ best
            → (j : ℕ) → j < cache_entries
            → is_last last j ≡ false
            → used r ≤ used j
        oldest_lem r h j k n = le_trans h (b.oldest j (omega arith) n)

        stomp :
            ((best_idx == 0) && is_last last 0) ≡ true
            → ((is_last last best_idx ≡ false) × (used best_idx ≤ best))
              ⊎ ((best_idx ≡ 0) × (best ≡ 2 ^ 32 - 1))
            → IsOldest 1
        stomp h (inl c) = absurd (cc (last_stomped last best_idx h, c.0))
        stomp h (inr c) = record {
          in_range = omega arith;
          not_last = one_free last (best_idx == 0) h;
          oldest = oldest_lem 1 (omega (arith, bound 1, c.1));
        }

        keep :
            ((best_idx == 0) && is_last last 0) ≡ false
            → ((is_last last best_idx ≡ false) × (used best_idx ≤ best))
              ⊎ ((best_idx ≡ 0) × (best ≡ 2 ^ 32 - 1))
            → IsOldest best_idx
        keep h (inl c) = record {
          in_range = b.in_range;
          not_last = c.0;
          oldest = oldest_lem best_idx c.1;
        }
        keep h (inr c) = record {
          in_range = b.in_range;
          not_last = last_kept last best_idx c.0 h;
          oldest = oldest_lem best_idx (omega (arith, bound best_idx, c.1));
        }
    lru_loop-IsOldest (suc left) i best best_idx e b = elim (Bool-cases (is_last last i)) [
      | inl skip ↦
          rw (skip, lru_loop)
            (lru_loop-IsOldest left (i + 1) best best_idx (omega arith) (record {
              in_range = b.in_range;
              oldest =
                  below-snoc (λ j. is_last last j ≡ false → best ≤ used j) i b.oldest
                    (λ n. absurd (cc (n, skip)));
              chosen = b.chosen;
            }))
      | inr free ↦
          rw (free, lru_loop)
            (elim (Bool-cases (used i == 0)) [
              | inl unused ↦ rw unused (record {
                in_range = omega arith;
                not_last = free;
                oldest = λ j h n. ground arith;
              })
              | inr in_use ↦ rw (in_use) (elim (Bool-cases (ltb (used i) best)) [
                | inl older ↦ rw older (
                    lru_loop-IsOldest left (i + 1) (used i) i (omega arith) (record {
                      in_range = omega arith;
                      oldest =
                          below-snoc (λ j. is_last last j ≡ false → used i ≤ used j) i
                            (λ j h n. omega (arith, ltb→lt _ _ older, b.oldest j h n))
                            (λ n. le_refl _);
                      chosen = inl (free, le_refl _);
                    }))
                | inr younger ↦ rw younger (
                    lru_loop-IsOldest left (i + 1) best best_idx (omega arith) (record {
                      in_range = b.in_range;
                      oldest =
                          below-snoc (λ j. is_last last j ≡ false → best ≤ used j) i b.oldest
                            (λ n. not_lt _ _ younger);
                      chosen = b.chosen;
                    }))
              ])
            ])
    ]

-- The cache with its counter below the table's size, as `fh_cache_lru` keeps it.
abbrev pub IsBounded : Cache → Type 0
IsBounded c =
    (c.fh_cache_max ≤ cache_entries - 1) × ((j : ℕ) → (c.fh_cache j).use_time ≤ 2 ^ 32 - 1)

-- For a cache whose counter and times are in range: while the counter is below the last slot, the
-- next one is handed out, and the counter includes it; after that it is a slot that is not the one
-- returned last, and none of the others is older. The counter stays below the size of the table.
pub fh_cache_lru-IsOldest :
    (c : Cache)
    → IsBounded c
    → let (c', slot) = fh_cache_lru c in
      (slot < cache_entries)
      × IsBounded c'
      × ((c.fh_cache_max < cache_entries - 1)
          → (slot ≡ c.fh_cache_max) × (c'.fh_cache_max ≡ c.fh_cache_max + 1))
      × ((c.fh_cache_max ≡ cache_entries - 1) → IsOldest c.fh_cache c.fh_last_entry slot × (c' ≡ c))
unfolding fh_cache_lru
fh_cache_lru-IsOldest c (h, times) = elim (Bool-cases (ltb c.fh_cache_max (cache_entries - 1))) [
  | inl room ↦ rw room (
      let lt : c.fh_cache_max < cache_entries - 1 = ltb→lt _ _ room in
      (omega arith, (omega arith, times), (λ k. (refl, refl)), (λ e. absurd (omega arith))))
  | inr full ↦ rw full (
      let oldest =
        lru_loop-IsOldest c.fh_cache c.fh_last_entry times cache_entries 0 (2 ^ 32 - 1) 0 refl
          (record {
            in_range = omega arith;
            oldest = λ j k. absurd (omega arith);
            chosen = inr (refl, refl);
          }) in
      (
        oldest.in_range,
        (h, times),
        (λ k. absurd (omega (arith, not_lt _ _ full))),
        λ e. (oldest, refl),
      ))
]
