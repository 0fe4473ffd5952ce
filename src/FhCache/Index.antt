-- ===== src/FhCache/Index.antt =====
-- fh_cache_index and fh_cache_add: the entry that is added is the one that is found.
use unfs3_raft.Base.{
  ℕ, zero, suc, ◌+◌, ◌-◌, ◌%◌, ◌^◌, ◌≤◌, ◌<◌, ◌≡◌, refl, sym, ap, inl, inr, true, false, Option,
  none, some, ltb, ◌==◌, arith, Bool-cases, ==_refl, ne→==, ==_iff, subst, if_intro, not_lt, ltb→lt,
}
use unfs3_raft.Fs.{FilePath}
use unfs3_raft.FhCache.{
  Entry, Cache, cache_entries, update, fh_cache_lru, is_entry, index_loop, fh_cache_index, slot_for,
  fh_cache_add, fh_cache_next,
}
use unfs3_raft.FhCache.Slots.{IsBounded, lru_loop-IsOldest}

module _ (dev ino : ℕ) where
  -- What the loop of `fh_cache_index` says: the first match, or that there is none.
  abbrev pub IsFirst : (ℕ → Entry) → ℕ → ℕ → Option ℕ → Type 0
  IsFirst table i n none = (j : ℕ) → i ≤ j → j < n → is_entry dev ino (table j) ≡ false
  IsFirst table i n (some k) =
      (i ≤ k)
      × (k < n)
      × (is_entry dev ino (table k) ≡ true)
      × ((j : ℕ) → i ≤ j → j < k → is_entry dev ino (table j) ≡ false)

  index_loop-IsFirst :
      (table : ℕ → Entry) (left i : ℕ)
      → IsFirst table i (i + left) (index_loop table dev ino left i)
  unfolding index_loop
  index_loop-IsFirst table zero i = λ j h k. absurd (omega arith)
  index_loop-IsFirst table (suc left) i =
      if_intro (IsFirst table i (i + suc left)) (is_entry dev ino (table i)) (some i) _
        (λ hit. (omega arith, omega arith, hit, λ j h k. absurd (omega arith)))
        (λ miss.
          weaken miss (index_loop table dev ino left (i + 1))
            (index_loop-IsFirst table left (i + 1)))
    where
      later :
          is_entry dev ino (table i) ≡ false
          → (n : ℕ) → ((j : ℕ) → i + 1 ≤ j → j < n → is_entry dev ino (table j) ≡ false)
          → (j : ℕ) → i ≤ j
          → j < n
          → is_entry dev ino (table j) ≡ false
      later miss n rest j h k = elim (Bool-cases (j == i)) [
        | inl same ↦ rw ((==_iff j i).0 same) miss
        | inr other ↦ rest j (ground arith) k
      ]

      weaken :
          is_entry dev ino (table i) ≡ false
          → (o : Option ℕ) → IsFirst table (i + 1) (i + 1 + left) o
          → IsFirst table i (i + suc left) o
      weaken miss none f = λ j h k. later miss (i + 1 + left) f j h (omega arith)
      weaken miss (some m) f = (omega arith, omega arith, f.2, later miss m f.3)

  -- The first match is the only result that the loop can have.
  index_loop_first :
      (table : ℕ → Entry) (left i k : ℕ)
      → i ≤ k
      → k < i + left
      → is_entry dev ino (table k) ≡ true
      → ((j : ℕ) → i ≤ j → j < k → is_entry dev ino (table j) ≡ false)
      → index_loop table dev ino left i ≡ some k
  unfolding index_loop
  index_loop_first table zero i k h h' hit before = absurd (omega arith)
  index_loop_first table (suc left) i k h h' hit before = elim (Bool-cases (k == i)) [
    | inl same ↦
        let e : k ≡ i = (==_iff k i).0 same in
        rw (subst (λ m. is_entry dev ino (table m) ≡ true) e hit) (ap some (sym e))
    | inr other ↦ rw (before i (omega arith) (ground arith)) (
        index_loop_first table left (i + 1) k (ground arith) (omega arith) hit
          (λ j a b. before j (omega arith) b))
  ]

added :
    (dev ino : ℕ) (path : FilePath) (table : ℕ → Entry) (n idx time : ℕ)
    → idx < n + 1
    → ((j : ℕ) → 0 ≤ j → j < idx → is_entry dev ino (table j) ≡ false)
    → index_loop
        (update table idx (record { dev = dev; ino = ino; path = path; use_time = time }))
        dev
        ino
        (n + 1)
        0
      ≡ some idx
added dev ino path table n idx time h before =
    index_loop_first dev ino _ (n + 1) 0 idx (omega arith) (omega arith) hit earlier
  where
    hit :
        is_entry dev ino
          (update table idx (record { dev = dev; ino = ino; path = path; use_time = time }) idx)
        ≡ true
    hit = rw (==_refl idx, ==_refl dev, ==_refl ino) refl

    earlier :
        (j : ℕ)
        → 0 ≤ j
        → j < idx
        → is_entry dev ino
            (update table idx (record { dev = dev; ino = ino; path = path; use_time = time }) j)
          ≡ false
    earlier j k l = rw (ne→== idx j (λ e. absurd (omega arith))) (before j k l)

index_of :
    (dev ino : ℕ) (c : Cache)
    → IsFirst dev ino c.fh_cache 0 (c.fh_cache_max + 1) (fh_cache_index dev ino c)
unfolding fh_cache_index
index_of dev ino c =
    let e : 0 + (c.fh_cache_max + 1) ≡ c.fh_cache_max + 1 = omega arith in
    subst
      (λ n. IsFirst dev ino c.fh_cache 0 n (index_loop c.fh_cache dev ino (c.fh_cache_max + 1) 0)) e
      (index_loop-IsFirst dev ino c.fh_cache (c.fh_cache_max + 1) 0)

-- What `fh_cache_add` needs of the slot it writes to.
record Slot (dev ino : ℕ) (c : Cache) (r : Cache × ℕ) : Type 0 where
  table : r.0.fh_cache ≡ c.fh_cache
  counter : r.0.fh_cache_max ≤ cache_entries - 1
  indexed : r.1 < r.0.fh_cache_max + 1
  first : (j : ℕ) → 0 ≤ j → j < r.1 → is_entry dev ino (c.fh_cache j) ≡ false

slot_for-Slot :
    (dev ino : ℕ) (c : Cache) (o : Option ℕ)
    → IsBounded c
    → IsFirst dev ino c.fh_cache 0 (c.fh_cache_max + 1) o
    → Slot dev ino c (slot_for o c)
unfolding slot_for fh_cache_lru
slot_for-Slot dev ino c (some i) h f = record {
  table = refl;
  counter = h.0;
  indexed = f.1;
  first = f.3;
}
slot_for-Slot dev ino c none h f = elim (Bool-cases (ltb c.fh_cache_max (cache_entries - 1))) [
  | inl room ↦ unused room
  | inr full ↦ oldest full
]
  where
    unused : ltb c.fh_cache_max (cache_entries - 1) ≡ true → Slot dev ino c (fh_cache_lru c)
    unused room =
        let lt : c.fh_cache_max < cache_entries - 1 = ltb→lt _ _ room in
        rw room (record {
          table = refl;
          counter = omega arith;
          indexed = omega arith;
          first = λ j a b. f j a (omega arith);
        })

    oldest : ltb c.fh_cache_max (cache_entries - 1) ≡ false → Slot dev ino c (fh_cache_lru c)
    oldest full =
        let found =
          lru_loop-IsOldest c.fh_cache c.fh_last_entry h.1 cache_entries 0 (2 ^ 32 - 1) 0 refl
            (record {
              in_range = omega arith;
              oldest = λ j k. absurd (omega arith);
              chosen = inr (refl, refl);
            }) in
        rw full (record {
          table = refl;
          counter = h.0;
          indexed = omega (arith, found.in_range, not_lt _ _ full);
          first = λ j a b. f j a (omega (arith, found.in_range, not_lt _ _ full));
        })

-- After `fh_cache_add` in a cache whose counter and times are in range, the search by device and
-- inode finds the slot that was written, the slot is one of the table, the path that is returned is
-- the one added, and the counter and the times stay in range.
pub fh_cache_index-fh_cache_add :
    (dev ino : ℕ) (path : FilePath) (c : Cache)
    → IsBounded c
    → let (c', idx) = fh_cache_add dev ino path c in
      (fh_cache_index dev ino c' ≡ some idx)
      × ((c'.fh_cache idx).path ≡ path)
      × (idx < cache_entries)
      × IsBounded c'
unfolding fh_cache_add fh_cache_index fh_cache_next
fh_cache_index-fh_cache_add dev ino path c h =
    at (slot_for (fh_cache_index dev ino c) c)
      (slot_for-Slot dev ino c (fh_cache_index dev ino c) h (index_of dev ino c))
  where
    times :
        (c1 : Cache) (idx : ℕ)
        → Slot dev ino c (c1, idx)
        → (j : ℕ)
        → (update c1.fh_cache idx
            (record {
              dev = dev;
              ino = ino;
              path = path;
              use_time = (c1.fh_cache_time + 1) % 2 ^ 32;
            })
            j).use_time
          ≤ 2 ^ 32 - 1
    times c1 idx s j =
        if_intro (λ e. e.use_time ≤ 2 ^ 32 - 1) (idx == j)
          (record { dev = dev; ino = ino; path = path; use_time = (c1.fh_cache_time + 1) % 2 ^ 32 })
          (c1.fh_cache j) (λ _. omega arith)
          (λ _. subst (λ table. (table j).use_time ≤ 2 ^ 32 - 1) (sym s.table) (h.1 j))

    at :
        (r : Cache × ℕ)
        → Slot dev ino c r
        → let (c2, time) = fh_cache_next r.0 in
          let entry : Entry = record { dev = dev; ino = ino; path = path; use_time = time } in
          let c' : Cache = record c2 { fh_cache = update c2.fh_cache r.1 entry } in
          (fh_cache_index dev ino c' ≡ some r.1)
          × ((c'.fh_cache r.1).path ≡ path)
          × (r.1 < cache_entries)
          × IsBounded c'
    at (c1, idx) s = (
      added dev ino path c1.fh_cache c1.fh_cache_max idx ((c1.fh_cache_time + 1) % 2 ^ 32) s.indexed
          (subst (λ t. (j : ℕ) → 0 ≤ j → j < idx → is_entry dev ino (t j) ≡ false) (sym s.table)
            s.first),
      rw (==_refl idx) refl,
      omega (arith, s.indexed, s.counter),
      (s.counter, times c1 idx s),
    )
