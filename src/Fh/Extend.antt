-- ===== src/Fh/Extend.antt =====
-- A handle for an object in a directory, from the directory's handle.
use unfs3_raft.Base.{
  ℕ, zero, suc, ◌+◌, ◌≤◌, ◌<◌, ◌^◌, ◌≡◌, ◌≢◌, refl, ap, List, [], ◌∷◌, ◌++◌, Option, none, some,
  length, take, set, length-set, arith, ◌==◌, ne→==, Bool-cases, inl, inr, ◌⊎◌,
}
use unfs3_raft.Bytes.{ByteOrder}
use unfs3_raft.Fh.{Fh, NfsFh, fh_maxlen, fh_hash, fh_decode, fh_extend, extend_by}
use unfs3_raft.Fh.Codec.{Fits}

fh_hash_lt : (n : ℕ) → fh_hash n < 256
unfolding fh_hash
fh_hash_lt n = omega arith

-- What an object adds to a handle that has room: one hash at the end of the used part of the array.
pub record Extends (base new : Fh) (dev ino gen pwhash : ℕ) : Type 0 where
  pub dev_new : new.dev ≡ dev
  pub ino_new : new.ino ≡ ino
  pub gen_new : new.gen ≡ gen
  pub pwhash_new : new.pwhash ≡ pwhash
  pub len_new : new.len ≡ base.len + 1
  pub inos_new : take new.len new.inos ≡ take base.len base.inos ++ (fh_hash ino ∷ [])
  pub array_new : length new.inos ≡ length base.inos

take-set {ℓ} :
    {A : Type ℓ} (n : ℕ) (xs : List A) (v : A)
    → n < length xs
    → take (n + 1) (set xs n v) ≡ take n xs ++ (v ∷ [])
take-set zero [] v h = absurd (omega arith)
take-set zero (x ∷ xs) v h = refl
take-set (suc n) [] v h = absurd (omega arith)
take-set (suc n) (x ∷ xs) v h = rw suc-add-one (ap (◌∷◌ x) (take-set n xs v (omega arith)))
  where
    suc-add-one : suc n + 1 ≡ suc (n + 1)
    suc-add-one = omega arith

extend_by-Extends :
    (pwhash dev ino gen : ℕ) (base : Fh)
    → base.len < length base.inos
    → Extends base (extend_by pwhash dev ino gen base) dev ino gen pwhash
unfolding extend_by
extend_by-Extends pwhash dev ino gen base h = record {
  dev_new = refl;
  ino_new = refl;
  gen_new = refl;
  pwhash_new = refl;
  len_new = refl;
  inos_new = take-set base.len base.inos (fh_hash ino) h;
  array_new = length-set base.inos base.len (fh_hash ino);
}

module _ (host : ByteOrder) (removable : ℕ → Option Fh) (pwhash : ℕ) (junk : List ℕ) where
  -- For a handle that decodes to one with at least one component and an array of 43 bytes, NULL
  -- comes back exactly if the handle is full, and otherwise a handle that has one component more.
  pub fh_extend-Extends :
      (nfh : NfsFh) (base : Fh) (dev ino gen : ℕ)
      → fh_decode host junk nfh ≡ some base
      → base.len ≢ 0
      → base.len ≤ fh_maxlen
      → length base.inos ≡ fh_maxlen
      → ((base.len ≡ fh_maxlen)
          × (fh_extend host removable pwhash junk nfh dev ino gen ≡ some none))
        ⊎ ((new : Fh) × (base.len < fh_maxlen)
            × (fh_extend host removable pwhash junk nfh dev ino gen ≡ some (some new))
            × Extends base new dev ino gen pwhash)
  unfolding fh_extend
  fh_extend-Extends nfh base dev ino gen e nonempty small array =
      elim (Bool-cases (base.len == fh_maxlen)) [
        | inl full ↦ inl (ground arith, rw (e, ne→== base.len 0 nonempty, full))
        | inr room ↦ inr (
          extend_by pwhash dev ino gen base,
          ground arith,
          rw (e, ne→== base.len 0 nonempty, room),
          extend_by-Extends pwhash dev ino gen base (ground arith),
        )
      ]

  -- A handle that can be sent and has room, extended by an object whose numbers are in range, can be
  -- sent: its fields and its length are in range.
  extend_by-Fits :
      (base : Fh) (dev ino gen : ℕ)
      → Fits base
      → base.len < fh_maxlen
      → pwhash < 256 ^ 4
      → dev < 256 ^ 4
      → ino < 256 ^ 8
      → gen < 256 ^ 4
      → Fits (extend_by pwhash dev ino gen base)
  unfolding extend_by
  extend_by-Fits base dev ino gen h room p d i g = record {
    dev = d;
    ino = i;
    gen = g;
    pwhash = p;
    len = omega arith;
    array = omega (arith, h.array, length-set base.inos base.len (fh_hash ino));
  }
