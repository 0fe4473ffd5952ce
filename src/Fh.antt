-- ===== src/Fh.antt =====
-- fh.c and fh.h: file handles, which hold an object's device, inode and generation and an 8 bit hash
-- of the inode of each directory on the way to it.
pub mod Codec
pub mod Extend
pub mod Compose
pub mod Search
use Prim.Native.Nat.{bit_xor}
use unfs3_raft.Base.{
  ℕ, zero, suc, ◌+◌, ◌/◌, ◌%◌, ◌^◌, Bool, true, false, not, ◌&&◌, ◌||◌, List, [], ◌∷◌, ◌++◌, Option,
  none, some, ◌>>=◌, length, take, drop, set, replicate, ltb, leb, ◌==◌, if◌then◌else◌,
}
use unfs3_raft.Bytes.{ByteOrder, store, read, split}

-- FH_MINLEN
abbrev pub fh_minlen : ℕ
fh_minlen = 21

-- FH_MAXLEN
abbrev pub fh_maxlen : ℕ
fh_maxlen = 43

-- unfs3_fh_t; `inos` is the whole array of FH_MAXLEN bytes.
pub record Fh : Type 0 where
  pub dev : ℕ
  pub ino : ℕ
  pub gen : ℕ
  pub pwhash : ℕ
  pub len : ℕ
  pub inos : List ℕ

-- nfs_fh3: `data_len` bytes at `data_val`.
abbrev pub NfsFh : Type 0
NfsFh = List ℕ

-- FH_HASH
unfoldable pub fh_hash : ℕ → ℕ
fh_hash n = folded % 2 ^ 8
  where
    folded : ℕ
    folded =
        bit_xor
          (bit_xor
            (bit_xor
              (bit_xor (bit_xor (bit_xor (bit_xor n (n / 2 ^ 8)) (n / 2 ^ 16)) (n / 2 ^ 24))
                (n / 2 ^ 32))
              (n / 2 ^ 40))
            (n / 2 ^ 48))
          (n / 2 ^ 56)

abbrev pub no_inos : List ℕ
no_inos = replicate fh_maxlen 0

-- `invalid_fh` leaves `pwhash` out, so it is 0.
abbrev pub invalid_fh : Fh
invalid_fh = record { dev = 0; ino = 0; gen = 0; pwhash = 0; len = 0; inos = no_inos }

unfoldable pub fh_valid : Fh → Bool
fh_valid fh = not (fh.dev == 0) || not (fh.ino == 0)

unfoldable pub fh_length : Fh → ℕ
fh_length fh = fh.len + 1 + 4 + 8 + 4 + 4

-- A handle of a removable export point has no `inos`: the real one is composed in its place.
unfoldable pub real_handle : Fh → Option Fh → Option Fh
real_handle decoded none = some decoded
real_handle decoded (some composed) = if fh_valid composed then some composed else none

unfoldable pub extend_by : ℕ → ℕ → ℕ → ℕ → Fh → Fh
extend_by password_hash dev ino gen new = record {
  dev = dev;
  ino = ino;
  gen = gen;
  pwhash = password_hash;
  len = new.len + 1;
  inos = set new.inos new.len (fh_hash ino);
}

-- The integers are copied as they stand in memory, so the bytes depend on the host.
module _ (host : ByteOrder) where
  unfoldable pub fh_encode : Fh → NfsFh
  fh_encode fh =
      store host 4 fh.dev
      ++ (store host 8 fh.ino
          ++ (store host 4 fh.gen
              ++ (store host 4 fh.pwhash ++ (store host 1 fh.len ++ take fh.len fh.inos))))

  -- The reads of `fh_decode`, with its last assertion.
  unfoldable pub decode_fields : List ℕ → NfsFh → Option Fh
  decode_fields junk fh = do
    (dev, buf) ← read host 4 fh
    (ino, buf) ← read host 8 buf
    (gen, buf) ← read host 4 buf
    (pwhash, buf) ← read host 4 buf
    (len, buf) ← read host 1 buf
    let obj : Fh = record {
      dev = dev;
      ino = ino;
      gen = gen;
      pwhash = pwhash;
      len = len;
      inos = take len buf ++ drop len junk;
    }
    if length fh == fh_minlen + len then some obj else none

  -- `junk` is what the uninitialised array `obj.inos` holds. `none` is a failed assertion.
  unfoldable pub fh_decode : List ℕ → NfsFh → Option Fh
  fh_decode junk fh =
      if leb fh_minlen (length fh) && leb (length fh) (fh_minlen + fh_maxlen)
      then decode_fields junk fh
      else none

  -- The handle is decoded before its length is looked at.
  unfoldable pub nfh_valid : List ℕ → NfsFh → Option Bool
  nfh_valid junk fh = do
    obj ← fh_decode junk fh
    some (
        if ltb (length fh) fh_minlen
        then false
        else if not (length fh == fh_length obj)
        then false
        else true)

  -- What `fh_extend` asks of other modules: `export_point_from_fsid`, composed with
  -- `fh_comp_raw(path, NULL, FH_ANY)`, and the global `export_password_hash`. The outer `none` is a
  -- failed assertion, the inner one the NULL that is returned.
  unfoldable pub fh_extend : (ℕ → Option Fh) → ℕ → List ℕ → NfsFh → ℕ → ℕ → ℕ → Option (Option Fh)
  fh_extend removable password_hash junk nfh dev ino gen = do
    decoded ← fh_decode junk nfh
    let base : Option Fh =
        if decoded.len == 0 then real_handle decoded (removable decoded.dev) else some decoded
    some (do
      new ← base
      if new.len == fh_maxlen then none else some (extend_by password_hash dev ino gen new))
