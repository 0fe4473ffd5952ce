-- ===== src/Raft/Apply/Payload.antt =====
-- An operation is applied as it was called.
use unfs3_raft.Base.{
  subst, length-take, length-replicate, ℕ, zero, suc, ◌+◌, ◌*◌, ◌-◌, ◌≤◌, ◌<◌, ◌^◌, ◌≡◌, refl, ap,
  ◌∙◌, List, [], ◌∷◌, ◌++◌, append_assoc, some, length, length-append, take, take_all,
  take-append_self, replicate, arith,
}
use unfs3_raft.Bytes.{big, store, read-store, split, split-append, length-store}
use unfs3_raft.Raft.Apply.{
  ClientInfo, AuthUnix, store_all, read_all, copy_gids, raft_client_info_serialize,
  raft_client_info_deserialize, client_info, payload, rebuilt_auth, parse_payload,
}

abbrev pub AllFit32 : List ℕ → Type 0
AllFit32 [] = Unit {0}
AllFit32 (x ∷ xs) = (x < 256 ^ 4) × AllFit32 xs

gids_round_trip :
    (gids rest : List ℕ)
    → AllFit32 gids
    → read_all (length gids) (store_all gids ++ rest) ≡ some (gids, rest)
unfolding read_all store_all
gids_round_trip [] rest h = refl
gids_round_trip (x ∷ xs) rest h =
    rw append_assoc
      (rw (read-store big 4 x (store_all xs ++ rest) h.0) (rw (gids_round_trip xs rest h.1)))

length-store_all : (gids : List ℕ) → length (store_all gids) ≡ 4 * length gids
unfolding store_all
length-store_all [] = refl
length-store_all (x ∷ xs) =
    omega (
      arith,
      length-append (store big 4 x) (store_all xs),
      length-store big 4 x,
      length-store_all xs,
    )

module _ (ngrps : ℕ) where
  pub record InfoFits (info : ClientInfo) : Type 0 where
    pub addr : length info.addr ≡ 16
    pub uid : info.uid < 256 ^ 4
    pub gid : info.gid < 256 ^ 4
    pub gid_len : info.gid_len < 256 ^ 4
    pub gids : AllFit32 info.gids
    pub array : length info.gids ≡ ngrps

  split_addr : (addr rest : List ℕ) → length addr ≡ 16 → split 16 (addr ++ rest) ≡ some (addr, rest)
  split_addr addr rest e =
      subst (λ n. split n (addr ++ rest) ≡ some (addr, rest)) e (split-append addr rest)

  gids_lem :
      (gids rest : List ℕ)
      → AllFit32 gids
      → length gids ≡ ngrps
      → read_all ngrps (store_all gids ++ rest) ≡ some (gids, rest)
  gids_lem gids rest h e =
      subst (λ n. read_all n (store_all gids ++ rest) ≡ some (gids, rest)) e
        (gids_round_trip gids rest h)

  -- The client's information is read back as it was written.
  pub client_info_round_trip :
      (info : ClientInfo) (rest : List ℕ)
      → InfoFits info
      → raft_client_info_deserialize ngrps (raft_client_info_serialize ngrps info ++ rest)
        ≡ some (info, rest)
  unfolding raft_client_info_serialize raft_client_info_deserialize
  client_info_round_trip info rest h = simp (
    append_assoc, split_addr, read-store, gids_lem, h.addr, h.uid, h.gid, h.gid_len, h.gids,
    h.array,
  )

AllFit32-take : (n : ℕ) (xs : List ℕ) → AllFit32 xs → AllFit32 (take n xs)
AllFit32-take zero xs h = tt
AllFit32-take (suc n) [] h = tt
AllFit32-take (suc n) (x ∷ xs) h = (h.0, AllFit32-take n xs h.1)

AllFit32-zeros : (n : ℕ) → AllFit32 (replicate n 0)
AllFit32-zeros zero = tt
AllFit32-zeros (suc n) = (omega arith, AllFit32-zeros n)

AllFit32-append : (xs ys : List ℕ) → AllFit32 xs → AllFit32 ys → AllFit32 (xs ++ ys)
AllFit32-append [] ys h k = k
AllFit32-append (x ∷ xs) ys h k = (h.0, AllFit32-append xs ys h.1 k)

module _ (ngrps len : ℕ) (gids : List ℕ) where
  length-copy_gids : length (copy_gids ngrps len gids) ≡ ngrps
  unfolding copy_gids
  length-copy_gids = omega (
    arith,
    length-append (take len (take ngrps gids))
        (replicate (ngrps - length (take len (take ngrps gids))) 0),
    length-replicate {A = ℕ} (ngrps - length (take len (take ngrps gids))) 0,
    length-take len (take ngrps gids),
    length-take ngrps gids,
  )

  AllFit32-copy_gids : AllFit32 gids → AllFit32 (copy_gids ngrps len gids)
  unfolding copy_gids
  AllFit32-copy_gids h =
      AllFit32-append _ _ (AllFit32-take len _ (AllFit32-take ngrps gids h)) (AllFit32-zeros _)

-- Credentials as the RPC library delivers them: at most NGRPS groups, all in the array.
pub record AuthFits (ngrps : ℕ) (auth : AuthUnix) : Type 0 where
  pub uid : auth.aup_uid < 256 ^ 4
  pub gid : auth.aup_gid < 256 ^ 4
  pub gids : AllFit32 auth.aup_gids
  pub len : auth.aup_len ≡ length auth.aup_gids
  pub few : auth.aup_len ≤ ngrps
  pub small : ngrps < 256 ^ 4

-- The array of groups, filled up with zeros.
abbrev pub padded : ℕ → AuthUnix → List ℕ
padded ngrps auth = auth.aup_gids ++ replicate (ngrps - length auth.aup_gids) 0

module _ (ngrps : ℕ) (addr : List ℕ) (auth : AuthUnix) (fits : AuthFits ngrps auth) where
  copied_once : copy_gids ngrps auth.aup_len auth.aup_gids ≡ (padded ngrps auth)
  unfolding copy_gids
  copied_once = rw (
    take_all ngrps auth.aup_gids (omega (arith, fits.len, fits.few)),
    take_all auth.aup_len auth.aup_gids (omega (arith, fits.len)),
  )

  copied_twice : copy_gids ngrps auth.aup_len (padded ngrps auth) ≡ (padded ngrps auth)
  unfolding copy_gids
  copied_twice =
      rw
        (take_all ngrps (padded ngrps auth) (
          omega (
            arith,
            fits.len,
            fits.few,
            length-append auth.aup_gids (replicate (ngrps - length auth.aup_gids) 0),
            length-replicate {A = ℕ} (ngrps - length auth.aup_gids) 0,
          )))
        (rw (fits.len, take-append_self auth.aup_gids (replicate (ngrps - length auth.aup_gids) 0)))

  info_fits : length addr ≡ 16 → InfoFits ngrps (client_info ngrps addr (some auth))
  unfolding client_info
  info_fits h = record {
    addr = h;
    uid = fits.uid;
    gid = fits.gid;
    gid_len = omega (arith, fits.few, fits.small);
    gids = AllFit32-copy_gids ngrps auth.aup_len auth.aup_gids fits.gids;
    array = length-copy_gids ngrps auth.aup_len auth.aup_gids;
  }

  pub length-payload :
      (proc : ℕ) (args : List ℕ)
      → length addr ≡ 16
      → length (payload ngrps proc addr (some auth) args) ≡ 32 + 4 * ngrps + length args
  unfolding payload raft_client_info_serialize client_info
  length-payload proc args h =
      simp (length-append, length-store, length-store_all)
        (omega (arith, h, length-copy_gids ngrps auth.aup_len auth.aup_gids))

  -- The procedure, the client's information and the arguments come out of the log entry as they went
  -- in, for credentials with at most NGRPS groups, an address of 16 bytes and a 32 bit procedure
  -- number.
  pub parse_payload-payload :
      (proc : ℕ) (args : List ℕ)
      → length addr ≡ 16
      → proc < 256 ^ 4
      → parse_payload ngrps (payload ngrps proc addr (some auth) args)
        ≡ some (proc, client_info ngrps addr (some auth), args)
  unfolding parse_payload payload
  parse_payload-payload proc args h p =
      rw (read-store big 4 proc _ p) (rw (client_info_round_trip ngrps _ args (info_fits h)))

  -- The credentials that are rebuilt from the client's information are the client's own, if it has
  -- at most NGRPS groups; the array of groups is filled up with zeros behind the groups that count.
  pub rebuilt_auth-client_info :
      rebuilt_auth ngrps (client_info ngrps addr (some auth))
      ≡ record auth { aup_gids = (padded ngrps auth) }
  unfolding rebuilt_auth client_info
  rebuilt_auth-client_info =
      ap (λ l. record auth { aup_gids = l })
        (ap (copy_gids ngrps auth.aup_len) copied_once ∙ copied_twice)

  pub addr-client_info : (client_info ngrps addr (some auth)).addr ≡ addr
  unfolding client_info
  addr-client_info = refl
