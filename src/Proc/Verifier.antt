-- ===== src/Proc/Verifier.antt =====
-- nfs.c: the verifier of an exclusive create, kept in the times of the file.
pub mod Noise
use Prim.Native.Nat.{bit_or}
use unfs3_raft.Base.{
  ℕ, ◌+◌, ◌-◌, ◌*◌, ◌/◌, ◌%◌, ◌^◌, Bool, true, false, List, [], ◌∷◌, ltb, ◌==◌, if◌then◌else◌,
}
use unfs3_raft.Backend.{Backend}
use unfs3_raft.Fs.{FilePath, Stat}
use unfs3_raft.Exports.{fnv1a_32}

-- FT80SEC
abbrev pub ft80sec : ℕ
ft80sec = 315532800

-- The string in `hashbuf`: the eight characters of the verifier up to the first one that is zero.
unfoldable pub as_string : List ℕ → List ℕ
as_string [] = []
as_string (c ∷ cs) = let rest = as_string cs in if c == 0 then [] else c ∷ rest

unfoldable pub verifier_hash : List ℕ → ℕ
verifier_hash verf = fnv1a_32 (as_string verf)

-- `stamps[1]` and `stamps[0]`: 29 bits of the hash and the other 3.
unfoldable pub write_stamp : ℕ → ℕ
write_stamp hash = hash % 2 ^ 29 * 2 + ft80sec

unfoldable pub access_stamp : ℕ → ℕ
access_stamp hash = bit_or (hash / 2 ^ 29 * 24 * 2 ^ 6) 0x20 * 3600 + ft80sec

unfoldable pub store_create_verifier : (b : Backend) → FilePath → List ℕ → b.Os → b.Os × Bool
store_create_verifier b obj verf os =
    let hash = verifier_hash verf in b.utimes obj (access_stamp hash) (write_stamp hash) os

-- `(st_mtime - FT80SEC) / 2` as an `unsigned int`; a quotient is rounded towards zero.
unfoldable pub write_bits : ℕ → ℕ
write_bits mtime =
    if ltb mtime ft80sec
    then (2 ^ 32 - (ft80sec - mtime) / 2) % 2 ^ 32
    else (mtime - ft80sec) / 2 % 2 ^ 32

-- `((((st_atime - FT80SEC) / 3600) >> 6) / 24) << 29` as an `unsigned int`; `>>` rounds down.
unfoldable pub access_bits : ℕ → ℕ
access_bits atime =
    if ltb atime ft80sec
    then (2 ^ 32 - ((ft80sec - atime) / 3600 + 63) / 2 ^ 6 / 24 * 2 ^ 29 % 2 ^ 32) % 2 ^ 32
    else (atime - ft80sec) / 3600 / 2 ^ 6 / 24 * 2 ^ 29 % 2 ^ 32

unfoldable pub check_create_verifier : Stat → List ℕ → Bool
check_create_verifier buf verf =
    bit_or (write_bits buf.st_mtime) (access_bits buf.st_atime) == verifier_hash verf
