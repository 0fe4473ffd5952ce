-- ===== src/Bytes.antt =====
-- Machine integers as bytes in memory: `memcpy` of an integer, and the byte-order macros.
use unfs3_raft.Base.{
  ℕ, zero, suc, ◌+◌, ◌*◌, ◌/◌, ◌%◌, ◌^◌, ◌<◌, ◌≡◌, refl, ap, subst, ◌∙◌, List, [], ◌∷◌, ◌++◌, arith,
  length, Option, none, some, ◌>>=◌, length-reverse, reverse, reverse-reverse,
}
use native.Mathlib.Nat.{pow-suc}

-- The order in which the host keeps the bytes of an integer.
pub data ByteOrder : Type 0 where
  little big : ByteOrder

-- `w` bytes of `n`, the least significant first.
pub digits : ℕ → ℕ → List ℕ
digits zero n = []
digits (suc w) n = (n % 256) ∷ digits w (n / 256)

unfoldable pub value : List ℕ → ℕ
value [] = 0
value (b ∷ bs) = b + 256 * value bs

-- `memcpy(buf, &n, w)` on a host of the given order.
unfoldable pub store : ByteOrder → ℕ → ℕ → List ℕ
store little w n = digits w n
store big w n = reverse (digits w n)

-- `memcpy(&n, buf, w)`
unfoldable pub load : ByteOrder → List ℕ → ℕ
load little bs = value bs
load big bs = value (reverse bs)

length-digits : (w n : ℕ) → length (digits w n) ≡ w
unfolding digits
length-digits zero n = refl
length-digits (suc w) n = ap suc (length-digits w (n / 256))

pub length-store : (o : ByteOrder) (w n : ℕ) → length (store o w n) ≡ w
unfolding store
length-store little w n = length-digits w n
length-store big w n = length-reverse (digits w n) ∙ length-digits w n

value-digits : (w n : ℕ) → n < 256 ^ w → value (digits w n) ≡ n
unfolding value digits
value-digits zero n h = omega arith
value-digits (suc w) n h =
    let small : n < 256 ^ w * 256 = rw (← pow-suc 256 w) h in
    omega (arith, value-digits w (n / 256) (omega arith))

load-store : (o : ByteOrder) (w n : ℕ) → n < 256 ^ w → load o (store o w n) ≡ n
unfolding store load
load-store little w n h = value-digits w n h
load-store big w n h = ap value (reverse-reverse (digits w n)) ∙ value-digits w n h

-- The next `w` bytes of a buffer and what follows them; `none` for a read past its end.
unfoldable pub split {ℓ} : {A : Type ℓ} → ℕ → List A → Option (List A × List A)
split zero bs = some ([], bs)
split (suc w) [] = none
split (suc w) (b ∷ bs) = do (front, back) ← split w bs; some (b ∷ front, back)

pub split-append {ℓ} : {A : Type ℓ} (xs ys : List A) → split (length xs) (xs ++ ys) ≡ some (xs, ys)
unfolding split
split-append [] ys = refl
split-append (x ∷ xs) ys = rw (split-append xs ys)

split-store :
    (o : ByteOrder) (w n : ℕ) (rest : List ℕ)
    → split w (store o w n ++ rest) ≡ some (store o w n, rest)
split-store o w n rest =
    subst (λ k. split k (store o w n ++ rest) ≡ some (store o w n, rest)) (length-store o w n)
      (split-append (store o w n) rest)

-- `memcpy(&n, buf, w); buf += w;`
unfoldable pub read : ByteOrder → ℕ → List ℕ → Option (ℕ × List ℕ)
read o w bs = do (front, back) ← split w bs; some (load o front, back)

then_load : ByteOrder → Option (List ℕ × List ℕ) → Option (ℕ × List ℕ)
then_load o r = do (front, back) ← r; some (load o front, back)

read-split : (o : ByteOrder) (w : ℕ) (bs : List ℕ) → read o w bs ≡ then_load o (split w bs)
unfolding read then_load
read-split o w bs = refl

-- An integer that was stored is read back, and the reader stands behind it.
pub read-store :
    (o : ByteOrder) (w n : ℕ) (rest : List ℕ)
    → n < 256 ^ w
    → read o w (store o w n ++ rest) ≡ some (n, rest)
unfolding then_load
read-store o w n rest h =
    rw (read-split o w (store o w n ++ rest), split-store o w n rest) (rw (load-store o w n h))
