-- ===== src/Readdir/Cookie.antt =====
-- The cookie of an entry leads back to the place behind it.
use unfs3_raft.Base.{
  ℕ, ◌+◌, ◌*◌, ◌/◌, ◌%◌, ◌^◌, ◌<◌, ◌≡◌, refl, Bool, true, false, arith, bit_or-shifted, shifted,
  ne→==, ==_refl,
}
use unfs3_raft.Readdir.{skipped, upper_part, lower_part, entry_cookie, change_readdir_cookie}

-- The digits of a cookie that hold a position, and those above it that hold the value of `rcookie`.
abbrev pub position_bits : Bool → ℕ
position_bits true = 20
position_bits false = 32

abbrev pub value_bits : Bool → ℕ
value_bits true = 12
value_bits false = 32

-- A value of `rcookie`.
pub record IsCookieValue (opt_32_bit_truncate : Bool) (rcookie : ℕ) : Type 0 where
  pub value : ℕ
  pub small : value < 2 ^ value_bits opt_32_bit_truncate
  pub shift : rcookie ≡ value * 2 ^ position_bits opt_32_bit_truncate

pub change_readdir_cookie-IsCookieValue :
    (o : Bool) (rcookie : ℕ) → IsCookieValue o (change_readdir_cookie o rcookie)
unfolding change_readdir_cookie
change_readdir_cookie-IsCookieValue true rcookie = record {
  value = (rcookie / 2 ^ 20 + 1) % 2 ^ 12;
  small = omega arith;
  shift = refl;
}
change_readdir_cookie-IsCookieValue false rcookie = record {
  value = (rcookie / 2 ^ 32 + 1) % 2 ^ 32;
  small = omega arith;
  shift = omega arith;
}

entry_cookie_sum :
    (o : Bool) (rcookie position : ℕ)
    → IsCookieValue o rcookie
    → position + 1 < 2 ^ position_bits o
    → entry_cookie rcookie position ≡ position + 1 + rcookie
unfolding entry_cookie
entry_cookie_sum true rcookie position h small =
    let e : shifted 20 h.value ≡ rcookie = omega (arith, h.shift) in
    rw e at (bit_or-shifted 20 (position + 1) h.value small)
entry_cookie_sum false rcookie position h small =
    let e : shifted 32 h.value ≡ rcookie = omega (arith, h.shift) in
    rw e at (bit_or-shifted 32 (position + 1) h.value small)

upper_part_sum :
    (o : Bool) (rcookie n : ℕ)
    → IsCookieValue o rcookie
    → n < 2 ^ position_bits o
    → upper_part o (n + rcookie) ≡ rcookie
unfolding upper_part
upper_part_sum true rcookie n h small = omega (arith, h.shift, h.small)
upper_part_sum false rcookie n h small = omega (arith, h.shift, h.small)

lower_part_sum :
    (o : Bool) (rcookie n : ℕ)
    → IsCookieValue o rcookie
    → n < 2 ^ position_bits o
    → lower_part o (n + rcookie) ≡ n
unfolding lower_part
lower_part_sum true rcookie n h small = omega (arith, h.shift, h.small)
lower_part_sum false rcookie n h small = omega (arith, h.shift, h.small)

-- A request that goes on behind an entry starts at the next position of the directory, for a value of
-- `rcookie` and a position whose successor fits its digits.
pub skipped-entry_cookie :
    (o : Bool) (rcookie position : ℕ)
    → IsCookieValue o rcookie
    → position + 1 < 2 ^ position_bits o
    → skipped o rcookie (entry_cookie rcookie position) ≡ position + 1
unfolding skipped
skipped-entry_cookie o rcookie position h small =
    rw
      (
        entry_cookie_sum o rcookie position h small,
        ne→== (position + 1 + rcookie) 0 (λ e. absurd (omega arith)),
        upper_part_sum o rcookie (position + 1) h small,
        ==_refl rcookie,
      )
      (lower_part_sum o rcookie (position + 1) h small)
