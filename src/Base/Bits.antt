-- ===== src/Base/Bits.antt =====
-- `|` on numbers that have no digit in common is their sum.
use Prim.Native.Nat.{
  ℕ, zero, suc, ◌+◌, ◌*◌, ◌/◌, ◌%◌, ◌≤◌, ◌<◌, max, bit_or, digits, bit_or-bitwise,
}
use mathlib.Core.Path.{◌≡◌, ◌∙◌}
use native.Mathlib.Omega.{arith}

-- `m` with `k` zeros behind its digits.
abbrev pub shifted : ℕ → ℕ → ℕ
shifted zero m = m
shifted (suc k) m = 2 * shifted k m

-- By the recursion that `bit_or` stands for, as long as there are digits of the low number.
sum_of_digits :
    (k rounds low m : ℕ)
    → low < shifted k 1
    → low ≤ rounds
    → digits (λ high. high) max rounds low (shifted k m) ≡ low + shifted k m
sum_of_digits k zero low m fits enough = omega arith
sum_of_digits k (suc rounds) zero m fits enough = omega arith
sum_of_digits zero (suc rounds) (suc low) m fits enough = absurd (omega arith)
sum_of_digits (suc k) (suc rounds) (suc low) m fits enough =
    let quotient : 2 * shifted k m / 2 ≡ shifted k m = omega arith in
    let even : 2 * shifted k m % 2 ≡ 0 = omega arith in
    let rest : digits (λ high. high) max rounds (suc low / 2) (shifted k m)
        ≡ suc low / 2 + shifted k m =
      sum_of_digits k rounds (suc low / 2) m (omega arith) (omega arith) in
    rw (quotient, even, rest) (ground arith)

pub bit_or-shifted : (k n m : ℕ) → n < shifted k 1 → bit_or n (shifted k m) ≡ n + shifted k m
bit_or-shifted k n m fits =
    (λ i. bit_or-bitwise n (shifted k m) i) ∙ sum_of_digits k n n m fits (omega arith)
