-- ===== src/Exports/Text.antt =====
-- Comparisons of strings and equations.
use unfs3_raft.Base.{ℕ, ◌≡◌, refl, ap₂, List, [], ◌∷◌, ◌++◌, true, ==_refl, length, drop, arith}
use unfs3_raft.Fs.{str_eq}
use unfs3_raft.Exports.{is_prefix}

pub str_eq→≡ : (a b : List ℕ) → str_eq a b ≡ true → a ≡ b
unfolding str_eq
str_eq→≡ [] [] h = refl
str_eq→≡ [] (y ∷ ys) h = cc
str_eq→≡ (x ∷ xs) [] h = cc
str_eq→≡ (x ∷ xs) (y ∷ ys) h = ap₂ ◌∷◌ (ground (arith, h)) (str_eq→≡ xs ys (ground (arith, h)))

pub str_eq_refl : (a : List ℕ) → str_eq a a ≡ true
unfolding str_eq
str_eq_refl [] = refl
str_eq_refl (x ∷ xs) = rw (==_refl x, str_eq_refl xs)

pub is_prefix-append : (p s : List ℕ) → is_prefix p s ≡ true → p ++ drop (length p) s ≡ s
unfolding is_prefix
is_prefix-append [] s h = refl
is_prefix-append (c ∷ p) [] h = cc
is_prefix-append (c ∷ p) (d ∷ s) h =
    ap₂ ◌∷◌ (ground (arith, h)) (is_prefix-append p s (ground (arith, h)))
