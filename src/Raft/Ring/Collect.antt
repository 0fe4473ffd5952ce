-- ===== src/Raft/Ring/Collect.antt =====
-- The loop that waits for the result of one log entry.
use unfs3_raft.Base.{
  ℕ, zero, suc, ◌≤◌, ◌<◌, ◌≡◌, ◌≢◌, refl, sym, subst, inl, inr, Bool-cases, List, [], ◌∷◌, ◌++◌,
  Option, none, some, true, false, length, arith, ◌==◌, if◌then◌else◌, drop, length-append, ==_refl,
  ne→==,
}
use unfs3_raft.Raft.Ring.{Item, Ring, capacity, get_result, collect, put_result}
use unfs3_raft.Raft.Ring.Fifo.{
  IsValid, contents, Takes, get_result-Takes, length-window, distance, put_result-contents,
  put_result-IsValid,
}

-- `raft_apply_all` hands over the results of a list of log entries, one after the other.
unfoldable pub put_all : {D : Type 0} → List (Item D) → Ring D → Ring D
put_all [] r = r
put_all (x ∷ xs) r = put_all xs (put_result x.index x.data_ptr r)

module _ {D : Type 0} (entry_idx : ℕ) where
  -- The data of the first result of the entry, and the results behind it.
  unfoldable pub first_of : List (Item D) → Option D × List (Item D)
  first_of [] = (none, [])
  first_of (x ∷ xs) = if x.index == entry_idx then (some x.data_ptr, xs) else first_of xs

  -- A finished run of the loop that returned the pair's first part and left its second.
  abbrev pub Collects : Option D × List (Item D) → Option (Option D × Ring D) → Type 0
  Collects want none = ⊥
  Collects (want, left) (some (got, r)) = (got ≡ want) × (contents r ≡ left)

  first_of-nil : first_of [] ≡ (none, [])
  unfolding first_of
  first_of-nil = refl

  first_of_hit :
      (x : Item D) (xs : List (Item D))
      → (x.index == entry_idx) ≡ true
      → first_of (x ∷ xs) ≡ (some x.data_ptr, xs)
  unfolding first_of
  first_of_hit x xs e = rw e

  first_of_miss :
      (x : Item D) (xs : List (Item D))
      → (x.index == entry_idx) ≡ false
      → first_of (x ∷ xs) ≡ first_of xs
  unfolding first_of
  first_of_miss x xs e = rw e

  abbrev Outcome : ℕ → Ring D → Option D × List (Item D) → Type 0
  Outcome fuel r want = Collects want (collect (suc fuel) entry_idx r)

  collects :
      (fuel : ℕ) (r : Ring D) (xs : List (Item D))
      → IsValid r
      → contents r ≡ xs
      → length xs < fuel
      → Collects (first_of xs) (collect fuel entry_idx r)
  unfolding collect
  collects zero r xs v e h = absurd (omega arith)
  collects (suc fuel) r [] v e h =
      let taken : Takes [] (get_result r) =
        subst (λ ys. Takes ys (get_result r)) e (get_result-Takes r v).1 in
      subst (Outcome fuel r) (sym first_of-nil) (rw (taken.0, Collects) (refl, taken.1))
  collects (suc fuel) r (x ∷ xs) v e h =
      let taken : Takes (x ∷ xs) (get_result r) =
        subst (λ ys. Takes ys (get_result r)) e (get_result-Takes r v).1 in
      let rest = collects fuel (get_result r).1 xs (get_result-Takes r v).0 taken.1 (omega arith) in
      elim (Bool-cases (x.index == entry_idx)) [
        | inl found ↦
            subst (Outcome fuel r) (sym (first_of_hit x xs found))
              (rw (taken.0, Collects, found) (refl, taken.1))
        | inr other ↦
            subst (Outcome fuel r) (sym (first_of_miss x xs other))
              (rw (taken.0, Collects, other) rest)
      ]

  -- On a ring with its positions in range the loop ends within 1000 rounds, returns the first result of the entry or NULL, and leaves the
  -- results behind it.
  pub collect-Collects :
      (r : Ring D) → IsValid r → Collects (first_of (contents r)) (collect capacity entry_idx r)
  collect-Collects r v =
      collects capacity r (contents r) v refl
        (omega (arith, length-window r.result_buffer r.read_pos (distance r.read_pos r.write_pos)))

  -- No result of the entry is in the list.
  abbrev pub Absent : List (Item D) → Type 0
  Absent [] = Unit {0}
  Absent (x ∷ xs) = (x.index ≢ entry_idx) × Absent xs

  Absent-snoc :
      (xs : List (Item D)) (x : Item D) → Absent xs → x.index ≢ entry_idx → Absent (xs ++ (x ∷ []))
  Absent-snoc [] x a h = (h, tt)
  Absent-snoc (y ∷ ys) x a h = (a.0, Absent-snoc ys x a.1 h)

  Absent-drop : (k : ℕ) (xs : List (Item D)) → Absent xs → Absent (drop k xs)
  Absent-drop zero xs a = a
  Absent-drop (suc k) [] a = tt
  Absent-drop (suc k) (x ∷ xs) a = Absent-drop k xs a.1

  pub put_result-Absent :
      (i : ℕ) (d : D) (r : Ring D)
      → IsValid r
      → i ≢ entry_idx
      → Absent (contents r)
      → Absent (contents (put_result i d r))
  put_result-Absent i d r v h a =
      rw (put_result-contents i d r v) (Absent-drop _ _ (Absent-snoc (contents r) _ a h))

  first_of-snoc :
      (xs : List (Item D)) (d : D)
      → Absent xs
      → first_of (xs ++ (record { index = entry_idx; data_ptr = d } ∷ [])) ≡ (some d, [])
  unfolding first_of
  first_of-snoc [] d a = rw (==_refl entry_idx)
  first_of-snoc (x ∷ xs) d a = rw (ne→== x.index entry_idx a.0) (first_of-snoc xs d a.1)

  first_of-drop :
      (k : ℕ) (xs : List (Item D)) (d : D)
      → Absent xs
      → k ≤ length xs
      → first_of (drop k (xs ++ (record { index = entry_idx; data_ptr = d } ∷ []))) ≡ (some d, [])
  first_of-drop zero xs d a h = first_of-snoc xs d a
  first_of-drop (suc k) [] d a h = absurd (omega arith)
  first_of-drop (suc k) (x ∷ xs) d a h = first_of-drop k xs d a.1 (omega arith)

  put_all-keeps :
      (xs : List (Item D)) (r : Ring D)
      → IsValid r
      → Absent xs
      → Absent (contents r)
      → IsValid (put_all xs r) × Absent (contents (put_all xs r))
  unfolding put_all
  put_all-keeps [] r v a b = (v, b)
  put_all-keeps (x ∷ xs) r v a b =
      put_all-keeps xs (put_result x.index x.data_ptr r) (put_result-IsValid x.index x.data_ptr v)
        a.1 (put_result-Absent x.index x.data_ptr r v a.0 b)

  -- However many results of other entries stand in a ring with its positions in range, or were put
  -- there before it, the result
  -- that was put last is the one that the loop returns, and the ring is empty then.
  pub collect-put_all :
      (xs : List (Item D)) (d : D) (r : Ring D)
      → IsValid r
      → Absent xs
      → Absent (contents r)
      → Collects (some d, []) (collect capacity entry_idx (put_result entry_idx d (put_all xs r)))
  collect-put_all xs d r v a b =
      subst (λ want. Collects want (collect capacity entry_idx last)) found
        (collect-Collects last (put_result-IsValid entry_idx d kept.0))
    where
      before : Ring D
      before = put_all xs r

      last : Ring D
      last = put_result entry_idx d before

      kept : IsValid before × Absent (contents before)
      kept = put_all-keeps xs r v a b

      found : first_of (contents last) ≡ (some d, [])
      found = rw (put_result-contents entry_idx d before kept.0) (
          first_of-drop _ (contents before) d kept.1 (
            omega (
              arith,
              length-append (contents before) (record { index = entry_idx; data_ptr = d } ∷ []),
            )))
