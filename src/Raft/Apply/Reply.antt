-- ===== src/Raft/Apply/Reply.antt =====
-- The client gets the result of its own operation, run with its own credentials.
use unfs3_raft.Base.{
  ℕ, ◌+◌, ◌<◌, ◌^◌, ◌≡◌, ◌≢◌, subst, false, not, ◌||◌, List, [], ◌∷◌, Option, none, if_intro, some,
  ◌>>=◌, length, take, take-length, ltb, ◌==◌, ==_refl, arith,
}
use unfs3_raft.Raft.Wire.{Entry}
use unfs3_raft.Raft.Ring.{Ring, put_result, collect, capacity}
use unfs3_raft.Raft.Ring.Fifo.{IsValid, contents, put_result-IsValid}
use unfs3_raft.Raft.Ring.Collect.{Absent, Collects, put_result-Absent, collect-put_all, put_all}
use unfs3_raft.Raft.Apply.{
  ClientInfo, AuthUnix, info_size, payload, parse_payload, apply_parsed, raft_applylog_cb,
  apply_entries,
}
use unfs3_raft.Raft.Apply.Payload.{
  AuthFits, padded, parse_payload-payload, rebuilt_auth-client_info, length-payload,
  addr-client_info,
}

module _ {W D : Type 0} (ngrps normal : ℕ) (perform : ℕ → List ℕ → AuthUnix → List ℕ → W → W × D)
    (entry_idx : ℕ) where
  -- A ring whose positions are in range and that holds no result of the entry.
  abbrev pub Ready : W × Ring D → Type 0
  Ready (w, ring) = IsValid ring × Absent entry_idx (contents ring)

  apply_parsed-Ready :
      (idx : ℕ) (parts : ℕ × ClientInfo × List ℕ) (st : W × Ring D)
      → idx ≢ entry_idx
      → Ready st
      → Ready (apply_parsed ngrps normal perform idx parts st)
  unfolding apply_parsed
  apply_parsed-Ready idx (proc, info, args) (w, ring) other r =
      (put_result-IsValid idx _ r.0, put_result-Absent entry_idx idx _ ring r.0 other r.1)

  abbrev ReadyAfter : Option (W × Ring D) → Type 0
  ReadyAfter none = Unit {0}
  ReadyAfter (some st) = Ready st

  applylog-Ready :
      (entry : Entry) (idx : ℕ) (st : W × Ring D)
      → idx ≢ entry_idx
      → Ready st
      → ReadyAfter (raft_applylog_cb ngrps normal perform entry idx st)
  unfolding raft_applylog_cb
  applylog-Ready entry idx st other r =
      if_intro ReadyAfter (not (entry.type == normal) || ltb entry.len (4 + info_size ngrps))
        (some st) _ (λ _. r) (λ _. run entry.buf)
    where
      parsed :
          (parts : Option (ℕ × ClientInfo × List ℕ))
          → ReadyAfter (parts >>= λ p. some (apply_parsed ngrps normal perform idx p st))
      parsed none = tt
      parsed (some p) = apply_parsed-Ready idx p st other r

      run :
          (buf : Option (List ℕ))
          → ReadyAfter (
              buf >>= λ bytes. parse_payload ngrps (take entry.len bytes) >>= λ p.
              some (apply_parsed ngrps normal perform idx p st))
      run none = tt
      run (some bytes) = parsed (parse_payload ngrps (take entry.len bytes))

  abbrev pub Others : List (ℕ × Entry) → Type 0
  Others [] = Unit {0}
  Others ((idx, entry) ∷ entries) = (idx ≢ entry_idx) × Others entries

  ReadyAfter-bind :
      (m : Option (W × Ring D)) (f : W × Ring D → Option (W × Ring D))
      → ReadyAfter m
      → ((st : W × Ring D) → Ready st → ReadyAfter (f st))
      → ReadyAfter (m >>= f)
  ReadyAfter-bind none f r h = tt
  ReadyAfter-bind (some st) f r h = h st r

  apply_entries-Ready :
      (entries : List (ℕ × Entry)) (st : W × Ring D)
      → Others entries
      → Ready st
      → ReadyAfter (apply_entries ngrps normal perform entries st)
  unfolding apply_entries
  apply_entries-Ready [] st o r = r
  apply_entries-Ready ((idx, entry) ∷ entries) st o r =
      ReadyAfter-bind (raft_applylog_cb ngrps normal perform entry idx st) _
        (applylog-Ready entry idx st o.0 r) (λ st' r'. apply_entries-Ready entries st' o.1 r')

  module _ (proc : ℕ) (addr : List ℕ) (auth : AuthUnix) (args : List ℕ) where
    abbrev bytes : List ℕ
    bytes = payload ngrps proc addr (some auth) args

    -- The entry that the leader logs for the operation.
    abbrev pub logged : Entry
    logged = record {
      term = 0;
      id = entry_idx;
      type = normal;
      len = length bytes;
      buf = some bytes;
    }

    -- The operation, run in the state `w` with the client's credentials, and the bytes of its address
    -- over the `netbuf` of the transport.
    abbrev pub outcome : W → W × D
    outcome w = perform proc addr (record auth { aup_gids = padded ngrps auth }) args w

  module _ (proc : ℕ) (addr : List ℕ) (auth : AuthUnix) (args : List ℕ) (fits : AuthFits ngrps auth)
      (addr_size : length addr ≡ 16) (proc_fits : proc < 256 ^ 4) where
    guard_lem : ltb (length (bytes proc addr auth args)) (4 + info_size ngrps) ≡ false
    guard_lem = ground (arith, length-payload ngrps addr auth fits proc args addr_size)

    applied :
        (w : W) (ring : Ring D)
        → raft_applylog_cb ngrps normal perform (logged proc addr auth args) entry_idx (w, ring)
          ≡ some (
            (outcome proc addr auth args w).0,
            put_result entry_idx (outcome proc addr auth args w).1 ring,
          )
    unfolding raft_applylog_cb apply_parsed
    applied w ring =
        rw (==_refl normal, guard_lem, take-length (bytes proc addr auth args))
          (rw (parse_payload-payload ngrps addr auth fits proc args addr_size proc_fits) (
            rw (
              rebuilt_auth-client_info ngrps addr auth fits,
              addr-client_info ngrps addr auth fits,
            )))

    -- Entries with other indexes are applied, without a read past the end of one, from a state whose
    -- ring has its positions in range and no result of this entry. Then the leader's entry, for a client
    -- of AUTH_UNIX with at most NGRPS groups in range, an address of 16 bytes and a 32 bit procedure
    -- number, is applied by running the operation with the client's own user and groups in the state
    -- that they leave, with the bytes of the client's address written over the transport's `netbuf`, and
    -- its result is the one that the loop for this entry returns.
    pub reply_lem :
        (entries : List (ℕ × Entry)) (st : W × Ring D) (w : W) (ring : Ring D)
        → Others entries
        → Ready st
        → apply_entries ngrps normal perform entries st ≡ some (w, ring)
        → (ring' : Ring D) × (raft_applylog_cb ngrps normal perform
              (logged proc addr auth args)
              entry_idx
              (w, ring)
            ≡ some ((outcome proc addr auth args w).0, ring'))
          × Collects entry_idx
              (some (outcome proc addr auth args w).1, [])
              (collect capacity entry_idx ring')
    reply_lem entries st w ring o r e =
        (put_result entry_idx (outcome proc addr auth args w).1 ring, applied w ring, collected)
      where
        ready : Ready (w, ring)
        ready = subst ReadyAfter e (apply_entries-Ready entries st o r)

        collected :
            Collects entry_idx
              (some (outcome proc addr auth args w).1, [])
              (collect capacity entry_idx
                (put_result entry_idx (outcome proc addr auth args w).1 ring))
        collected =
            unfold put_all in
            collect-put_all entry_idx [] (outcome proc addr auth args w).1 ring ready.0 tt ready.1
