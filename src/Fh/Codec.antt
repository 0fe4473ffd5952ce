-- ===== src/Fh/Codec.antt =====
-- A file handle that goes out to a client comes back unchanged.
use unfs3_raft.Base.{
  ℕ, ◌+◌, ◌≤◌, ◌<◌, ◌^◌, ◌≡◌, ◌⊎◌, true, List, ◌++◌, none, some, length, length-append, take, drop,
  take-take, length-take, arith, leb, ==_refl, le→leb, Option-cases, inl, inr,
}
use unfs3_raft.Bytes.{ByteOrder, read-store, length-store}
use unfs3_raft.Fh.{
  Fh, NfsFh, fh_minlen, fh_maxlen, fh_length, fh_encode, decode_fields, fh_decode, nfh_valid,
}

-- Each field is a value of its C type, and the length is one that fits a handle.
pub record Fits (fh : Fh) : Type 0 where
  pub dev : fh.dev < 256 ^ 4
  pub ino : fh.ino < 256 ^ 8
  pub gen : fh.gen < 256 ^ 4
  pub pwhash : fh.pwhash < 256 ^ 4
  pub len : fh.len ≤ fh_maxlen
  pub array : length fh.inos ≡ fh_maxlen

module _ (host : ByteOrder) where
  -- A handle whose fields are in range is encoded in as many bytes as `fh_length` announces.
  length-fh_encode : (fh : Fh) → Fits fh → length (fh_encode host fh) ≡ fh_length fh
  unfolding fh_encode fh_length
  length-fh_encode fh h =
      simp (length-append, length-store, length-take) (omega (arith, h.len, h.array))

  length_lem : (fh : Fh) → Fits fh → length (fh_encode host fh) ≡ fh_minlen + fh.len
  unfolding fh_length
  length_lem fh h = omega (arith, length-fh_encode fh h)

  fields_lem :
      (junk : List ℕ) (fh : Fh)
      → Fits fh
      → decode_fields host junk (fh_encode host fh)
        ≡ some (record fh { inos = take fh.len fh.inos ++ drop fh.len junk })
  unfolding decode_fields
  fields_lem junk fh h = rw (length_lem fh h) (
      unfold fh_encode in
      simp (read-store, h.dev, h.ino, h.gen, h.pwhash, short, take-take, ==_refl))
    where
      short : fh.len < 256 ^ 1
      short = omega (arith, h.len)

  -- A handle whose fields are in range is decoded as it was encoded, but for the part of the array
  -- behind `len`, which is left as it was.
  pub fh_decode-fh_encode :
      (junk : List ℕ) (fh : Fh)
      → Fits fh
      → fh_decode host junk (fh_encode host fh)
        ≡ some (record fh { inos = take fh.len fh.inos ++ drop fh.len junk })
  unfolding fh_decode
  fh_decode-fh_encode junk fh h = rw (length_lem fh h, at_least, at_most) (fields_lem junk fh h)
    where
      at_least : leb fh_minlen (fh_minlen + fh.len) ≡ true
      at_least = ground arith

      at_most : leb (fh_minlen + fh.len) (fh_minlen + fh_maxlen) ≡ true
      at_most = le→leb _ _ (omega (arith, h.len))

  decoded_length :
      (junk : List ℕ) (nfh : NfsFh) (obj : Fh)
      → fh_decode host junk nfh ≡ some obj
      → (fh_minlen ≤ length nfh) × (length nfh ≡ fh_minlen + obj.len)
  unfolding fh_decode decode_fields
  decoded_length junk nfh obj e = ground arith

  -- The check of a handle never says no: a handle that would be refused stops the server at an
  -- assertion of `fh_decode`, which runs first.
  pub nfh_valid-true :
      (junk : List ℕ) (nfh : NfsFh)
      → (nfh_valid host junk nfh ≡ none) ⊎ (nfh_valid host junk nfh ≡ some true)
  unfolding nfh_valid fh_length
  nfh_valid-true junk nfh = elim (Option-cases (fh_decode host junk nfh)) [
    | inl e ↦ inl (rw e)
    | inr (obj, e) ↦ inr (rw e (ground (arith, decoded_length junk nfh obj e)))
  ]
