-- ===== src/Exports/Build/Mask.antt =====
-- Network masks.
use unfs3_raft.Base.{
  ℕ, zero, suc, ◌+◌, ◌-◌, ◌*◌, ◌/◌, ◌^◌, ◌≤◌, ◌<◌, ◌≡◌, refl, Bool, true, ◌&&◌, arith, ◌==◌, ==_iff,
  Bool-cases, inl, inr, sym, ap,
}
use native.Mathlib.Nat.{pow-suc, div-div-eq-div-mul, lt_of_mul-lt-mul_left}
use native.Mathlib.Numerals.{add-one}
use unfs3_raft.User.{has_bit}
use unfs3_raft.Exports.Build.Hosts.{first_bit, all_bits, prefix_of}

pow_next : (i : ℕ) → 2 ^ (i + 1) ≡ 2 ^ i * 2
pow_next i = rw add-one (pow-suc 2 i)

div_pow : (h i : ℕ) → h / 2 ^ (i + 1) ≡ h / 2 ^ i / 2
div_pow h i = rw (pow_next i) (sym (div-div-eq-div-mul h (2 ^ i) 2))

-- Ones up to the end are the largest number of that many digits.
all_bits_lem :
    (h left i : ℕ) → all_bits h left i ≡ true → h / 2 ^ i < 2 ^ left → h / 2 ^ i + 1 ≡ 2 ^ left
unfolding all_bits
all_bits_lem h zero i all small = omega arith
all_bits_lem h (suc left) i all small =
    let half : h / 2 ^ (i + 1) ≡ h / 2 ^ i / 2 = div_pow h i in
    let two : 2 ^ suc left ≡ 2 ^ left * 2 = pow-suc 2 left in
    let rest : h / 2 ^ (i + 1) + 1 ≡ 2 ^ left =
      all_bits_lem h left (i + 1) (ground arith) (omega arith) in
    ground arith

-- The first digit of a number whose lower digits are zeros.
abbrev Lowest : ℕ → ℕ × ℕ → Type 0
Lowest h (j, p) =
    (j ≤ 32) × (h ≡ 2 ^ j * (h / 2 ^ j)) × (p ≡ 32 - j) × (2 ^ j * 2 ^ (32 - j) ≡ 2 ^ 32)

first_bit_lem :
    (h left i : ℕ)
    → i + left ≡ 32
    → 2 ^ i * 2 ^ left ≡ 2 ^ 32
    → h ≡ 2 ^ i * (h / 2 ^ i)
    → Lowest h (first_bit h left i)
unfolding first_bit
first_bit_lem h zero i sum powers low =
    let last : 32 - i ≡ 0 = omega arith in (omega arith, low, omega arith, rw last powers)
first_bit_lem h (suc left) i sum powers low = elim (Bool-cases (has_bit h i)) [
  | inl one ↦
      let rest : 32 - i ≡ suc left = omega arith in rw one (omega arith, low, refl, rw rest powers)
  | inr even ↦
      let half : h / 2 ^ i ≡ 2 * (h / 2 ^ i / 2) = ground arith in
      let twice : 2 ^ i * (h / 2 ^ i) ≡ 2 ^ i * (2 * (h / 2 ^ i / 2)) =
        ap (λ (t : ℕ). 2 ^ i * t) half in
      rw even (
        first_bit_lem h left (i + 1) (omega arith)
          (rw (pow_next i) (omega (arith, ap (λ (t : ℕ). 2 ^ i * t) (pow-suc 2 left), powers)))
          (rw (div_pow h i, pow_next i) (omega (arith, low, twice))))
]

-- A prefix and its mask.
abbrev pub mask : ℕ → ℕ
mask prefix = 2 ^ 32 - 2 ^ (32 - prefix)

prefix_sound :
    (h : ℕ)
    → h < 2 ^ 32
    → (prefix_of h).1 ≡ true
    → ((prefix_of h).0 ≤ 32) × (h ≡ mask (prefix_of h).0)
unfolding prefix_of
prefix_sound h small ok = go (first_bit h 32 0) (first_bit_lem h 32 0 refl refl (omega arith)) ok
  where
    go : (r : ℕ × ℕ) → Lowest h r → all_bits h (32 - r.0) r.0 ≡ true → (r.1 ≤ 32) × (h ≡ mask r.1)
    go (j, p) (below, low, same, powers) all =
        let back : 32 - p ≡ j = omega arith in
        let few : h / 2 ^ j < 2 ^ (32 - j) =
          lt_of_mul-lt-mul_left (2 ^ j) (rw (← low, powers) small) in
        let ones : 2 ^ j * (h / 2 ^ j + 1) ≡ 2 ^ j * 2 ^ (32 - j) =
          ap (λ (t : ℕ). 2 ^ j * t) (all_bits_lem h (32 - j) j all few) in
        (omega arith, rw back (omega (arith, low, ones, powers)))

check_mask : ℕ → Bool
check_mask p = let (n, ok) = prefix_of (mask p) in (n == p) && ok

check_masks : ℕ → Bool
check_masks zero = true
check_masks (suc n) = check_mask n && check_masks n

masks_table : check_masks 33 ≡ true
unfolding check_masks check_mask prefix_of first_bit all_bits
masks_table = refl

masks_lem : (n p : ℕ) → check_masks n ≡ true → p < n → check_mask p ≡ true
unfolding check_masks
masks_lem zero p all h = absurd (omega arith)
masks_lem (suc n) p all h = elim (Bool-cases (p == n)) [
  | inl same ↦ rw ((==_iff p n).0 same) (ground arith)
  | inr other ↦ masks_lem n p (ground arith) (ground arith)
]

-- A mask is accepted exactly if it is that of a prefix, and this is the prefix that it gets.
pub prefix_of-mask :
    (haddr : ℕ)
    → haddr < 2 ^ 32
    → ((prefix_of haddr).1 ≡ true → haddr ≡ mask (prefix_of haddr).0)
      × ((prefix : ℕ) → prefix ≤ 32 → haddr ≡ mask prefix → prefix_of haddr ≡ (prefix, true))
unfolding check_mask
prefix_of-mask haddr small = (
  λ ok. (prefix_sound haddr small ok).1,
  λ prefix range same. rw same (ground (arith, masks_lem 33 prefix masks_table (omega arith))),
)
