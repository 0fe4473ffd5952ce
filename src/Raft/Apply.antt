-- ===== src/Raft/Apply.antt =====
-- daemon_raft.c: an operation as a log entry, from the call that replicates it to the callback that
-- applies it. `ngrps` is NGRPS of the RPC library, and `normal` is RAFT_LOGTYPE_NORMAL of the raft
-- library.
pub mod Payload
pub mod Reply
use unfs3_raft.Base.{
  ℕ, zero, suc, ◌+◌, ◌*◌, ◌-◌, ◌<◌, Bool, true, false, not, ◌&&◌, ◌||◌, List, [], ◌∷◌, ◌++◌, Option,
  none, some, ◌>>=◌, length, drop, take, replicate, ltb, leb, ◌==◌, if◌then◌else◌,
}
use unfs3_raft.Bytes.{big, store, read, split}
use unfs3_raft.Raft.Wire.{Entry}
use unfs3_raft.Raft.Ring.{Ring, put_result, collect, capacity}

-- raft_client_info_t: `addr` is 16 bytes, `gids` the whole array of NGRPS.
pub record ClientInfo : Type 0 where
  pub addr : List ℕ
  pub uid : ℕ
  pub gid : ℕ
  pub gid_len : ℕ
  pub gids : List ℕ

-- struct authunix_parms, less the machine name and the time.
pub record AuthUnix : Type 0 where
  pub aup_uid : ℕ
  pub aup_gid : ℕ
  pub aup_len : ℕ
  pub aup_gids : List ℕ

unfoldable pub store_all : List ℕ → List ℕ
store_all [] = []
store_all (gid ∷ gids) = store big 4 gid ++ store_all gids

unfoldable pub read_all : ℕ → List ℕ → Option (List ℕ × List ℕ)
read_all zero buf = some ([], buf)
read_all (suc n) buf = do
  (gid, buf) ← read big 4 buf
  (gids, buf) ← read_all n buf
  some (gid ∷ gids, buf)

-- The groups that are copied into an array of NGRPS zeros: `for (i = 0; i < len && i < NGRPS; i++)`.
unfoldable pub copy_gids : ℕ → ℕ → List ℕ → List ℕ
copy_gids ngrps len gids =
    let copied = take len (take ngrps gids) in copied ++ replicate (ngrps - length copied) 0

module _ (ngrps : ℕ) where
  -- sizeof(raft_client_info_t)
  abbrev pub info_size : ℕ
  info_size = 28 + 4 * ngrps

  unfoldable pub raft_client_info_serialize : ClientInfo → List ℕ
  raft_client_info_serialize info =
      info.addr
      ++ (store big 4 info.uid
          ++ (store big 4 info.gid ++ (store big 4 info.gid_len ++ store_all info.gids)))

  unfoldable pub raft_client_info_deserialize : List ℕ → Option (ClientInfo × List ℕ)
  raft_client_info_deserialize buf = do
    (addr, buf) ← split 16 buf
    (uid, buf) ← read big 4 buf
    (gid, buf) ← read big 4 buf
    (gid_len, buf) ← read big 4 buf
    (gids, buf) ← read_all ngrps buf
    let info : ClientInfo = record {
      addr = addr;
      uid = uid;
      gid = gid;
      gid_len = gid_len;
      gids = gids;
    }
    some (info, buf)

  -- The client information that is replicated; `auth` is given for AUTH_UNIX.
  unfoldable pub client_info : List ℕ → Option AuthUnix → ClientInfo
  client_info addr none = record {
    addr = addr;
    uid = 0;
    gid = 0;
    gid_len = 0;
    gids = replicate ngrps 0;
  }
  client_info addr (some auth) = record {
    addr = addr;
    uid = auth.aup_uid;
    gid = auth.aup_gid;
    gid_len = auth.aup_len;
    gids = copy_gids ngrps auth.aup_len auth.aup_gids;
  }

  -- The buffer that `raft_serialize_and_replicate_nfs_op` fills: procedure, client, arguments.
  unfoldable pub payload : ℕ → List ℕ → Option AuthUnix → List ℕ → List ℕ
  payload proc addr auth args =
      store big 4 proc ++ (raft_client_info_serialize (client_info addr auth) ++ args)

  -- The credentials that `apply_nfs_operation` rebuilds.
  unfoldable pub rebuilt_auth : ClientInfo → AuthUnix
  rebuilt_auth info = record {
    aup_uid = info.uid;
    aup_gid = info.gid;
    aup_len = info.gid_len;
    aup_gids = copy_gids ngrps info.gid_len info.gids;
  }

  -- The parts of a log entry's buffer.
  unfoldable pub parse_payload : List ℕ → Option (ℕ × ClientInfo × List ℕ)
  parse_payload buf = do
    (proc, buf) ← read big 4 buf
    (info, args) ← raft_client_info_deserialize buf
    some (proc, info, args)

  -- `W` is the state of the file service and `D` the type of a result. `perform` is the call of the
  -- procedure: the procedure number, the 16 bytes that are copied over the `struct netbuf` xp_rtaddr of
  -- the request's transport, the credentials, and the arguments. The bytes are those of the client's
  -- address, where the struct has a length and a pointer to an address.
  module _ {W D : Type 0} (normal : ℕ) (perform : ℕ → List ℕ → AuthUnix → List ℕ → W → W × D) where
    unfoldable pub apply_parsed : ℕ → ℕ × ClientInfo × List ℕ → W × Ring D → W × Ring D
    apply_parsed entry_idx (proc, info, args) (w, ring) =
        let (w', result) = perform proc info.addr (rebuilt_auth info) args w in
        (w', put_result entry_idx result ring)

    -- An entry of another type, or one too short for a header, changes nothing. `none` is a read
    -- past the end of the entry's buffer.
    unfoldable pub raft_applylog_cb : Entry → ℕ → W × Ring D → Option (W × Ring D)
    raft_applylog_cb entry entry_idx st =
        let run : Option (W × Ring D) = (do
          bytes ← entry.buf
          parts ← parse_payload (take entry.len bytes)
          some (apply_parsed entry_idx parts st)) in
        if not (entry.type == normal) || ltb entry.len (4 + info_size) then some st else run

    -- Committed entries with their indexes, in the order of the log.
    unfoldable pub apply_entries : List (ℕ × Entry) → W × Ring D → Option (W × Ring D)
    apply_entries [] st = some st
    apply_entries ((idx, entry) ∷ entries) st = do
      st' ← raft_applylog_cb entry idx st
      apply_entries entries st'
