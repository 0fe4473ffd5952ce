-- ===== src/FdCache/Find.antt =====
-- The loops that look for an entry.
use unfs3_raft.Base.{
  ℕ, zero, suc, ◌+◌, ◌≤◌, ◌<◌, ◌≡◌, sym, ap, subst, inl, inr, Bool, true, false, Option, none, some,
  ◌==◌, arith, Bool-cases, ==_iff, if_intro,
}
use unfs3_raft.FdCache.{find}

module _ (test : ℕ → Bool) where
  abbrev pub IsFirst : ℕ → ℕ → Option ℕ → Type 0
  IsFirst i n none = (j : ℕ) → i ≤ j → j < n → test j ≡ false
  IsFirst i n (some k) = (k < n) × (test k ≡ true) × ((j : ℕ) → i ≤ j → j < k → test j ≡ false)

  pub find-IsFirst : (left i : ℕ) → IsFirst i (i + left) (find test left i)
  unfolding find
  find-IsFirst zero i = λ j h k. absurd (omega arith)
  find-IsFirst (suc left) i =
      if_intro (IsFirst i (i + suc left)) (test i) (some i) _
        (λ hit. (omega arith, hit, λ j h k. absurd (omega arith)))
        (λ miss. weaken miss (find test left (i + 1)) (find-IsFirst left (i + 1)))
    where
      later :
          test i ≡ false
          → (n : ℕ) → ((j : ℕ) → i + 1 ≤ j → j < n → test j ≡ false)
          → (j : ℕ) → i ≤ j
          → j < n
          → test j ≡ false
      later miss n rest j h k = elim (Bool-cases (j == i)) [
        | inl same ↦ rw ((==_iff j i).0 same) miss
        | inr other ↦ rest j (ground arith) k
      ]

      weaken :
          test i ≡ false
          → (o : Option ℕ) → IsFirst (i + 1) (i + 1 + left) o
          → IsFirst i (i + suc left) o
      weaken miss none f = λ j h k. later miss (i + 1 + left) f j h (omega arith)
      weaken miss (some m) f = (omega arith, f.1, later miss m f.2)

  pub find_first :
      (left i k : ℕ)
      → i ≤ k
      → k < i + left
      → test k ≡ true
      → ((j : ℕ) → i ≤ j → j < k → test j ≡ false)
      → find test left i ≡ some k
  unfolding find
  find_first zero i k h h' hit before = absurd (omega arith)
  find_first (suc left) i k h h' hit before = elim (Bool-cases (k == i)) [
    | inl same ↦
        let e : k ≡ i = (==_iff k i).0 same in
        rw (subst (λ m. test m ≡ true) e hit) (ap some (sym e))
    | inr other ↦ rw (before i (omega arith) (ground arith)) (
        find_first left (i + 1) k (ground arith) (omega arith) hit
          (λ j a b. before j (omega arith) b))
  ]
