-- ===== src/Raft/Peers.antt =====
-- daemon_raft.c: the table of peers that raft_init fills.
pub mod Known
use unfs3_raft.Base.{
  ℕ, zero, suc, ◌+◌, ◌%◌, ◌^◌, Bool, true, false, not, ◌&&◌, ◌||◌, List, [], ◌∷◌, ◌++◌, Option,
  none, some, ◌>>=◌, length, ltb, leb, ◌==◌, if◌then◌else◌,
}
use unfs3_raft.Raft.Net.{Address, Peer}

-- RAFT_PORT_BASE
abbrev pub raft_port_base : ℕ
raft_port_base = 7000

-- The array holds 16 peers.
abbrev pub max_peers : ℕ
max_peers = 16

-- INADDR_LOOPBACK; the port is a 16 bit number. Both in host order.
unfoldable pub peer_address : ℕ → Address
peer_address id = record { sin_addr = 0x7f000001; sin_port = (raft_port_base + id) % 2 ^ 16 }

abbrev pub comma : ℕ
comma = b','

unfoldable pub put_token : List ℕ → List (List ℕ) → List (List ℕ)
put_token [] next = next
put_token (t ∷ token) next = (t ∷ token) ∷ next

-- `strtok(list, ",")`: the tokens, of which none is empty. `token` is what stands before.
unfoldable pub tokens : List ℕ → List ℕ → List (List ℕ)
tokens token [] = put_token token []
tokens token (c ∷ cs) =
    let next = tokens [] cs in
    let longer = tokens (token ++ c ∷ []) cs in if c == comma then put_token token next else longer

unfoldable pub parse_ids : (List ℕ → ℕ) → List (List ℕ) → List ℕ
parse_ids atoi [] = []
parse_ids atoi (t ∷ ts) = atoi t ∷ parse_ids atoi ts

-- `node` is what `raft_add_node` gives for an id, after the peers of the table were added: a handle, or
-- NULL. `none` is a write past the end of the table, or the NULL that `raft_node_set_udata` is given.
module _ (node : List Peer → ℕ → Option ℕ) where
  unfoldable pub add_peer : ℕ → List Peer → Option (List Peer)
  add_peer id peers = do
    n ← node peers id
    if ltb (length peers) max_peers
        then some (peers ++ record { id = id; addr = peer_address id; node = n } ∷ [])
        else none

  -- The loop over the ids; this server's own one is left out.
  unfoldable pub add_peers : ℕ → List ℕ → List Peer → Option (List Peer)
  add_peers own [] peers = some peers
  add_peers own (id ∷ ids) peers =
      let rest : List Peer → Option (List Peer) = add_peers own ids in
      if id == own then rest peers else (add_peer id peers >>= rest)

  -- `opt_raft_peers` is `none` for NULL.
  unfoldable pub init_peers : (List ℕ → ℕ) → ℕ → Option (List ℕ) → Option (List Peer)
  init_peers atoi own none = add_peer own []
  init_peers atoi own (some list) =
      add_peer own [] >>= add_peers own (parse_ids atoi (tokens [] list))
