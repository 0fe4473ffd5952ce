-- ===== src/Password.antt =====
-- password.c: passwords in mount requests and one-time passwords. MD5 is the parameter `md5`, from the
-- bytes that are appended to the 16 bytes of the digest.
pub mod Argument
pub mod Hex
use unfs3_raft.Base.{
  ℕ, ◌+◌, ◌-◌, ◌/◌, ◌%◌, ◌^◌, List, [], ◌∷◌, ◌++◌, ◌==◌, Bool, true, false, Option, none, some,
  length, take, drop, leb, if◌then◌else◌,
}
use unfs3_raft.Fs.{slash}
use unfs3_raft.Exports.Build.Hosts.{before_slash}

unfoldable pub nibble_as_hexchar : ℕ → ℕ
nibble_as_hexchar c = if leb c 9 then c + b'0' else c - 10 + b'a'

-- The loop over the digest: two digits for each byte.
unfoldable pub hexify : List ℕ → List ℕ
hexify [] = []
hexify (b ∷ digest) =
    nibble_as_hexchar (b / 2 ^ 4 % 16) ∷ nibble_as_hexchar (b % 16) ∷ hexify digest

unfoldable pub otp_digest : (List ℕ → List ℕ) → List ℕ → List ℕ → List ℕ
otp_digest md5 nonce password = hexify (md5 (nonce ++ password))

-- `arg` and what `*dpath` points to afterwards.
unfoldable pub mnt_cmd_argument : List ℕ → List ℕ → ℕ → List ℕ × List ℕ
mnt_cmd_argument dpath cmd maxlen =
    let rest = drop (length cmd) dpath in
    let arg = before_slash (take maxlen rest) in (arg, drop (length arg) rest)

-- `read_bytes` is what /dev/urandom, or else /dev/random, gives if one of them can be opened. Without
-- 32 bytes from there, a struct timeval is written past the end of the nonce: `none`.
unfoldable pub gen_nonce : Option (List ℕ) → Option (List ℕ)
gen_nonce none = none
gen_nonce (some read_bytes) = if length read_bytes == 32 then some read_bytes else none
