-- ===== src/Password/Hex.antt =====
-- Digests as text.
use unfs3_raft.Base.{ℕ, ◌≡◌, ◌<◌, ◌/◌, ◌%◌, ◌^◌, refl, ap₂, List, [], ◌∷◌, arith}
use unfs3_raft.Password.{nibble_as_hexchar, hexify}

abbrev pub AreBytes : List ℕ → Type 0
AreBytes [] = Unit {0}
AreBytes (b ∷ bs) = (b < 256) × AreBytes bs

nibble_injective : (a b : ℕ) → a < 16 → b < 16 → nibble_as_hexchar a ≡ nibble_as_hexchar b → a ≡ b
unfolding nibble_as_hexchar
nibble_injective a b ha hb e = ground arith

-- Digests with the same text are the same.
pub hexify_injective :
    (xs ys : List ℕ) → AreBytes xs → AreBytes ys → hexify xs ≡ hexify ys → xs ≡ ys
unfolding hexify
hexify_injective [] [] hx hy e = refl
hexify_injective [] (y ∷ ys) hx hy e = cc
hexify_injective (x ∷ xs) [] hx hy e = cc
hexify_injective (x ∷ xs) (y ∷ ys) hx hy e =
    let high : x / 2 ^ 4 % 16 ≡ y / 2 ^ 4 % 16 =
      nibble_injective (x / 2 ^ 4 % 16) (y / 2 ^ 4 % 16) (omega arith) (omega arith) (cc) in
    let low : x % 16 ≡ y % 16 =
      nibble_injective (x % 16) (y % 16) (omega arith) (omega arith) (cc) in
    ap₂ ◌∷◌ (omega arith) (hexify_injective xs ys hx.1 hy.1 (cc))
