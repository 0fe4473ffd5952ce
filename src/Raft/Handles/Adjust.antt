-- ===== src/Raft/Handles/Adjust.antt =====
-- What becomes of a handle of another server.
use unfs3_raft.Base.{
  ℕ, ◌≡◌, ◌≢◌, refl, ap, subst, not, List, ◌++◌, some, take, drop, length-take, take-append_self,
  ◌==◌, if_intro, arith, ne→==, ==_iff,
}
use unfs3_raft.Bytes.{ByteOrder}
use unfs3_raft.Fh.{Fh, NfsFh, fh_encode}
use unfs3_raft.Fh.Codec.{Fits, fh_decode-fh_encode}
use unfs3_raft.Raft.Handles.{adjust_handle}

module _ (host : ByteOrder) (junk : List ℕ) (obj : Fh) (fits : Fits obj) where
  -- The unused part of the array is not encoded.
  encode_used :
      (dev : ℕ)
      → fh_encode host (record obj { dev = dev; inos = take obj.len obj.inos ++ drop obj.len junk })
        ≡ fh_encode host (record obj { dev = dev })
  unfolding fh_encode
  encode_used dev = rw used refl
    where
      used : take obj.len (take obj.len obj.inos ++ drop obj.len junk) ≡ take obj.len obj.inos
      used =
          subst (λ n. take n (take obj.len obj.inos ++ drop obj.len junk) ≡ take obj.len obj.inos)
            (omega (arith, length-take obj.len obj.inos, fits.len, fits.array))
            (take-append_self (take obj.len obj.inos) (drop obj.len junk))

  -- A handle with no component, whose fields are in range, becomes the local root handle; any other
  -- becomes the same handle with the local device: the inode, the generation, the password hash and
  -- the hashes of the path stay as they are on the server that logged the call.
  pub adjust_handle-fh_encode :
      (local_root_fh : NfsFh) (local_fsid : ℕ)
      → (obj.len ≡ 0
          → adjust_handle host junk (some (local_root_fh, local_fsid)) (fh_encode host obj)
            ≡ some local_root_fh)
        × (obj.len ≢ 0
            → adjust_handle host junk (some (local_root_fh, local_fsid)) (fh_encode host obj)
              ≡ some (fh_encode host (record obj { dev = local_fsid })))
  unfolding adjust_handle
  adjust_handle-fh_encode local_root_fh local_fsid = (
    λ root. rw (fh_decode-fh_encode host junk obj fits, (==_iff obj.len 0).1 root) refl,
    λ below.
        rw (fh_decode-fh_encode host junk obj fits, ne→== obj.len 0 below)
          (if_intro (λ fh. some fh ≡ some (fh_encode host (record obj { dev = local_fsid })))
            (not (obj.dev == local_fsid)) _ (fh_encode host obj)
            (λ _. ap some (encode_used local_fsid))
            (λ same.
              ap (λ dev. some (fh_encode host (record obj { dev = dev }))) {x = obj.dev}
                (ground arith))),
  )
