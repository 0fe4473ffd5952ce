-- ===== src/Proc/Verifier/Noise.antt =====
-- What a file system may do to the times of a file without making its verifier unknown.
use Prim.Native.Nat.{bit_or}
use unfs3_raft.Base.{
  ℕ, zero, suc, ◌+◌, ◌-◌, ◌*◌, ◌/◌, ◌%◌, ◌^◌, ◌≤◌, ◌<◌, ◌≡◌, refl, true, false, List, [], ◌∷◌, ltb,
  ==_refl, arith, bit_or-shifted, shifted,
}
use unfs3_raft.Fs.{Stat}
use unfs3_raft.Exports.{fnv1a_32, fnv1a_32_update}
use unfs3_raft.Proc.Verifier.{
  ft80sec, verifier_hash, write_stamp, access_stamp, write_bits, access_bits, check_create_verifier,
}

fnv1a_32_update_lt : (cs : List ℕ) (hval : ℕ) → hval < 2 ^ 32 → fnv1a_32_update cs hval < 2 ^ 32
unfolding fnv1a_32_update
fnv1a_32_update_lt [] hval h = h
fnv1a_32_update_lt (c ∷ cs) hval h = fnv1a_32_update_lt cs _ (omega arith)

verifier_hash_lt : (verf : List ℕ) → verifier_hash verf < 2 ^ 32
unfolding verifier_hash fnv1a_32
verifier_hash_lt verf = fnv1a_32_update_lt _ 0x811c9dc5 (omega arith)

-- The eight values that the upper three bits of a hash can have.
noise_bits : (q : ℕ) → q < 8 → bit_or (q * 24 * 2 ^ 6) 0x20 ≡ q * 1536 + 32
noise_bits zero h = refl
noise_bits (suc zero) h = refl
noise_bits (suc (suc zero)) h = refl
noise_bits (suc (suc (suc zero))) h = refl
noise_bits (suc (suc (suc (suc zero)))) h = refl
noise_bits (suc (suc (suc (suc (suc zero))))) h = refl
noise_bits (suc (suc (suc (suc (suc (suc zero)))))) h = refl
noise_bits (suc (suc (suc (suc (suc (suc (suc zero))))))) h = refl
noise_bits (suc (suc (suc (suc (suc (suc (suc (suc q)))))))) h = absurd (omega arith)

-- The high bits of a time of access have no digit in common with 0x20.
access_stamp_lem :
    (hash : ℕ) → hash < 2 ^ 32 → access_stamp hash ≡ (hash / 2 ^ 29 * 1536 + 32) * 3600 + ft80sec
unfolding access_stamp
access_stamp_lem hash small =
    let e : bit_or (hash / 2 ^ 29 * 24 * 2 ^ 6) 0x20 ≡ hash / 2 ^ 29 * 1536 + 32 =
      noise_bits (hash / 2 ^ 29) (omega arith) in
    rw e refl

write_bits_lem :
    (hash mtime : ℕ)
    → write_stamp hash ≤ mtime
    → mtime ≤ write_stamp hash + 1
    → write_bits mtime ≡ hash % 2 ^ 29
unfolding write_stamp write_bits
write_bits_lem hash mtime low high = ground arith

access_bits_lem :
    (hash atime : ℕ)
    → hash < 2 ^ 32
    → access_stamp hash ≤ atime + 32 * 3600
    → atime < access_stamp hash + 1504 * 3600
    → access_bits atime ≡ hash / 2 ^ 29 * 2 ^ 29
unfolding access_bits
access_bits_lem hash atime small low high =
    let q = hash / 2 ^ 29 in
    let l : (q * 1536 + 32) * 3600 + ft80sec ≤ atime + 32 * 3600 =
      rw (access_stamp_lem hash small) at low in
    let h : atime < (q * 1536 + 32) * 3600 + ft80sec + 1504 * 3600 =
      rw (access_stamp_lem hash small) at high in
    let late : ltb atime ft80sec ≡ false = ground arith in
    let small_q : q < 8 = omega arith in
    let t_low : q * 1536 ≤ (atime - ft80sec) / 3600 = omega arith in
    let t_high : (atime - ft80sec) / 3600 < q * 1536 + 1536 = omega arith in
    let e : (atime - ft80sec) / 3600 / 2 ^ 6 / 24 ≡ q = omega arith in rw (late, e) (omega arith)

-- A verifier that was stored is recognized if the file system keeps the time of writing to 2 seconds and
-- moves that of access back by at most 32 hours or on by less than 1504.
pub check_create_verifier-write_stamp :
    (verf : List ℕ) (buf : Stat)
    → let hash = verifier_hash verf in
      write_stamp hash ≤ buf.st_mtime
      → buf.st_mtime ≤ write_stamp hash + 1
      → access_stamp hash ≤ buf.st_atime + 32 * 3600
      → buf.st_atime < access_stamp hash + 1504 * 3600
      → check_create_verifier buf verf ≡ true
unfolding check_create_verifier
check_create_verifier-write_stamp verf buf a b c d =
    let hash = verifier_hash verf in
    let small : hash < 2 ^ 32 = verifier_hash_lt verf in
    let high : hash / 2 ^ 29 * 2 ^ 29 ≡ shifted 29 (hash / 2 ^ 29) = omega arith in
    let sum : bit_or (hash % 2 ^ 29) (shifted 29 (hash / 2 ^ 29)) ≡ hash =
      omega (arith, bit_or-shifted 29 (hash % 2 ^ 29) (hash / 2 ^ 29) (omega arith)) in
    rw
      (write_bits_lem hash buf.st_mtime a b, access_bits_lem hash buf.st_atime small c d, high, sum)
      (==_refl hash)
