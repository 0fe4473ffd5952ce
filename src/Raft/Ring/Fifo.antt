-- ===== src/Raft/Ring/Fifo.antt =====
-- The ring is a queue of at most 999 results that forgets its oldest one when it is full.
use unfs3_raft.Base.{
  ℕ, zero, suc, ◌+◌, ◌-◌, ◌%◌, ◌≤◌, ◌<◌, ◌≡◌, ◌≢◌, refl, sym, ap, ap₂, ◌∙◌, inl, inr, Bool-cases,
  true, false, List, [], ◌∷◌, ◌++◌, Option, none, some, length, drop, arith, ◌==◌,
}
use unfs3_raft.Raft.Ring.{Item, Ring, capacity, update, put_result, get_result}

pub record IsValid {D : Type 0} (r : Ring D) : Type 0 where
  pub write_in : r.write_pos < capacity
  pub read_in : r.read_pos < capacity

-- The number of slots from `h` round to `w`.
abbrev pub distance : ℕ → ℕ → ℕ
distance h w = (w + capacity - h) % capacity

module _ {D : Type 0} where
  -- The `n` items from slot `h` on, going round at the end of the array.
  abbrev pub window : (ℕ → Item D) → ℕ → ℕ → List (Item D)
  window b h zero = []
  window b h (suc n) = b h ∷ window b ((h + 1) % capacity) n

  abbrev pub contents : Ring D → List (Item D)
  contents r = window r.result_buffer r.read_pos (distance r.read_pos r.write_pos)

  -- The last `k` items of a list.
  abbrev pub newest : ℕ → List (Item D) → List (Item D)
  newest k xs = drop (length xs - k) xs

  pub length-window : (b : ℕ → Item D) (h n : ℕ) → length (window b h n) ≡ n
  length-window b h zero = refl
  length-window b h (suc n) = ap suc (length-window b ((h + 1) % capacity) n)

  -- A write to a slot outside the window does not change it.
  window-update :
      (b : ℕ → Item D) (v : Item D) (h w n : ℕ)
      → h < capacity
      → w < capacity
      → n ≤ distance h w
      → window (update b w v) h n ≡ window b h n
  window-update b v h w zero hh hw hn = refl
  window-update b v h w (suc n) hh hw hn =
      ground (arith, window-update b v ((h + 1) % capacity) w n (omega arith) hw (omega arith))

  window-snoc :
      (b : ℕ → Item D) (h n : ℕ)
      → h < capacity
      → window b h (suc n) ≡ window b h n ++ (b ((h + n) % capacity) ∷ [])
  window-snoc b h zero hh = ap (λ i. b i ∷ []) (omega arith)
  window-snoc b h (suc n) hh =
      ap (◌∷◌ (b h)) (window-snoc b ((h + 1) % capacity) n (omega arith) ∙ ap last_at same_slot)
    where
      last_at : ℕ → List (Item D)
      last_at i = window b ((h + 1) % capacity) n ++ (b i ∷ [])

      same_slot : ((h + 1) % capacity + n) % capacity ≡ (h + suc n) % capacity
      same_slot = omega arith

  -- Both positions stay inside the array.
  pub put_result-IsValid : (i : ℕ) (d : D) {r : Ring D} → IsValid r → IsValid (put_result i d r)
  unfolding put_result
  put_result-IsValid i d v = ground arith

  -- What the ring holds just after the write, before the oldest result is given up.
  written :
      (b : ℕ → Item D) (v : Item D) (h w n : ℕ)
      → h < capacity
      → w < capacity
      → n ≡ distance h w
      → window (update b w v) h (suc n) ≡ window b h n ++ (v ∷ [])
  written b v h w n hh hw e =
      window-snoc (update b w v) h n hh
      ∙ ap₂ (λ xs x. xs ++ (x ∷ [])) (window-update b v h w n hh hw (omega arith)) at_end
    where
      at_end : update b w v ((h + n) % capacity) ≡ v
      at_end = ground arith

  newest_of_short : (xs : List (Item D)) → length xs ≤ 999 → newest 999 xs ≡ xs
  newest_of_short xs h = ap (λ k. drop k xs) {y = 0} (omega arith)

  newest_of_full : (x : Item D) (xs : List (Item D)) → length xs ≡ 999 → newest 999 (x ∷ xs) ≡ xs
  newest_of_full x xs h = ap (λ k. drop k (x ∷ xs)) {y = 1} (omega arith)

  module _ (v : Item D) (r : Ring D) (ok : IsValid r) where
    after : ℕ → Item D
    after = update r.result_buffer r.write_pos v

    count : ℕ
    count = distance r.read_pos r.write_pos

    -- The array after the write, as a window from the old reading position.
    extended : window after r.read_pos (suc count) ≡ contents r ++ (v ∷ [])
    unfolding after count
    extended = written r.result_buffer v r.read_pos r.write_pos count ok.read_in ok.write_in refl

    next_write : ℕ
    next_write = (r.write_pos + 1) % capacity

    room_left :
        next_write ≢ r.read_pos
        → window after r.read_pos (distance r.read_pos next_write)
          ≡ newest 999 (contents r ++ (v ∷ []))
    unfolding count next_write
    room_left h =
        ap (window after r.read_pos) {y = suc count} (omega arith)
        ∙ extended
        ∙ sym (newest_of_short _ (omega (arith, ap length extended, short)))
      where
        short : length (window after r.read_pos (suc count)) ≡ suc count
        short = length-window after r.read_pos (suc count)

    oldest_lost :
        next_write ≡ r.read_pos
        → window after
            ((r.read_pos + 1) % capacity)
            (distance ((r.read_pos + 1) % capacity) next_write)
          ≡ newest 999 (contents r ++ (v ∷ []))
    unfolding count next_write
    oldest_lost h =
        ap (window after next_read) (omega arith)
        ∙ sym (newest_of_full (after r.read_pos) (window after next_read count) full)
        ∙ ap (newest 999) extended
      where
        next_read : ℕ
        next_read = (r.read_pos + 1) % capacity

        full : length (window after next_read count) ≡ 999
        full = omega (arith, length-window after next_read count)

  -- When the positions are in range, a result goes to the end of the queue, and the last 999 results
  -- are kept.
  pub put_result-contents :
      (i : ℕ) (d : D) (r : Ring D)
      → IsValid r
      → contents (put_result i d r)
        ≡ newest 999 (contents r ++ (record { index = i; data_ptr = d } ∷ []))
  unfolding put_result after next_write
  put_result-contents i d r v = elim (Bool-cases ((r.write_pos + 1) % capacity == r.read_pos)) [
    | inl full ↦ rw full (oldest_lost (record { index = i; data_ptr = d }) r v (ground arith))
    | inr room ↦ rw room (room_left (record { index = i; data_ptr = d }) r v (ground arith))
  ]

  -- A result is taken from the front of a list, if there is one.
  abbrev pub Takes : List (Item D) → Option (Item D) × Ring D → Type 0
  Takes [] (item, r) = (item ≡ none) × (contents r ≡ [])
  Takes (x ∷ xs) (item, r) = (item ≡ some x) × (contents r ≡ xs)

  get_result-IsValid : (r : Ring D) → IsValid r → IsValid (get_result r).1
  unfolding get_result
  get_result-IsValid r v = ground arith

  -- From a ring whose positions are in range, the oldest result is taken, if there is one, and the
  -- others stay in their order; the positions stay in range.
  pub get_result-Takes :
      (r : Ring D) → IsValid r → IsValid (get_result r).1 × Takes (contents r) (get_result r)
  unfolding get_result
  get_result-Takes r v = (get_result-IsValid r v, takes (distance r.read_pos r.write_pos) refl)
    where
      takes :
          (n : ℕ)
          → distance r.read_pos r.write_pos ≡ n
          → Takes (window r.result_buffer r.read_pos n) (get_result r)
      takes zero e =
          let same : (r.read_pos == r.write_pos) ≡ true = ground arith in
          rw same (refl, ap (window r.result_buffer r.read_pos) e)
      takes (suc n) e =
          let differ : (r.read_pos == r.write_pos) ≡ false = ground arith in
          rw differ (refl, ap (window r.result_buffer ((r.read_pos + 1) % capacity)) (omega arith))
