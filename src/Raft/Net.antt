-- ===== src/Raft/Net.antt =====
-- daemon_raft.c: the datagrams between peers. The raft library is a git submodule; its calls are the
-- parameter `Library`, over a state that holds all that the calls and their callbacks change.
pub mod Delivery
pub mod Size
use unfs3_raft.Base.{
  ℕ, zero, suc, ◌+◌, ◌*◌, ◌^◌, Bool, true, false, not, ◌&&◌, ◌||◌, List, [], ◌∷◌, ◌++◌, Option,
  none, some, ◌>>=◌, length, drop, take, ltb, leb, ◌==◌, if◌then◌else◌,
}
use unfs3_raft.Raft.Wire.{
  RequestVote, RequestVoteResponse, Entry, AppendEntries, AppendEntriesResponse,
  serialize_requestvote, deserialize_requestvote, serialize_requestvote_response,
  deserialize_requestvote_response, serialize_appendentries, deserialize_appendentries,
  serialize_appendentries_response, deserialize_appendentries_response, serialize_msg_entry_array,
  deserialize_msg_entry_array,
}

-- RAFT_MAX_PKT
abbrev pub raft_max_pkt : ℕ
raft_max_pkt = 20480

-- struct sockaddr_in: `sin_addr.s_addr` and `sin_port`.
pub record Address : Type 0 where
  pub sin_addr : ℕ
  pub sin_port : ℕ

-- struct raft_peer; `node` is the library's handle.
pub record Peer : Type 0 where
  pub id : ℕ
  pub addr : Address
  pub node : ℕ

-- A datagram with its sender or its receiver.
abbrev pub Datagram : Type 0
Datagram = Address × List ℕ

unfoldable pub raft_peer_from_addr : Address → List Peer → Option Peer
raft_peer_from_addr addr [] = none
raft_peer_from_addr addr (peer ∷ peers) =
    if (addr.sin_port == peer.addr.sin_port) && (addr.sin_addr == peer.addr.sin_addr)
    then some peer
    else raft_peer_from_addr addr peers

pub record Library : Type 1 where
  pub State : Type 0
  pub recv_requestvote : State → ℕ → RequestVote → State × RequestVoteResponse
  pub recv_requestvote_response : State → ℕ → RequestVoteResponse → State
  pub recv_appendentries : State → ℕ → AppendEntries → State × AppendEntriesResponse
  pub recv_appendentries_response : State → ℕ → AppendEntriesResponse → State

-- A positive `int`, as a bit pattern.
abbrev pub is_positive : ℕ → Bool
is_positive n = ltb 0 n && ltb n (2 ^ 31)

-- What `recvfrom` leaves in the buffer: the rest is as it was before.
unfoldable pub overwrite : List ℕ → List ℕ → List ℕ
overwrite buf bytes = bytes ++ drop (length bytes) buf

-- `malloc` and `calloc` succeed or fail by the size that is asked for; an array is asked for by its
-- number of entries.
module _ (lib : Library) (alloc calloc : ℕ → Bool) where
  open lib use {
    State, recv_requestvote, recv_requestvote_response, recv_appendentries,
    recv_appendentries_response,
  }

  -- A handler gives the new state and the datagrams that it sends; `none` is a read past the end of
  -- the buffer.
  unfoldable pub handle_requestvote :
      Peer → List ℕ → Address → State → Option (State × List Datagram)
  handle_requestvote peer ptr src st = do
    (req, rest) ← deserialize_requestvote ptr
    let (st', resp) = recv_requestvote st peer.node req
    some (st', (src, 2 ∷ serialize_requestvote_response resp) ∷ [])

  unfoldable pub handle_requestvote_response :
      Peer → List ℕ → State → Option (State × List Datagram)
  handle_requestvote_response peer ptr st = do
    (r, rest) ← deserialize_requestvote_response ptr
    some (recv_requestvote_response st peer.node r, [])

  -- The entries behind the header: the outer `none` is a read past the end of the buffer, the inner
  -- one a failed allocation.
  unfoldable pub read_entries : AppendEntries → List ℕ → Option (Option AppendEntries)
  read_entries ae buf =
      if is_positive ae.n_entries
      then if calloc ae.n_entries
        then (do
          (entries, rest) ← deserialize_msg_entry_array alloc ae.n_entries buf
          some (some (record ae { entries = some entries })))
        else some none
      else some (some (record ae { entries = none }))

  unfoldable pub answer_appendentries :
      Peer → Address → State → Option AppendEntries → State × List Datagram
  answer_appendentries peer src st none = (st, [])
  answer_appendentries peer src st (some ae) =
      let (st', resp) = recv_appendentries st peer.node ae in
      (st', (src, 4 ∷ serialize_appendentries_response resp) ∷ [])

  unfoldable pub handle_appendentries :
      Peer → List ℕ → Address → State → Option (State × List Datagram)
  handle_appendentries peer ptr src st = do
    (header, rest) ← deserialize_appendentries ptr
    ae ← read_entries header rest
    some (answer_appendentries peer src st ae)

  unfoldable pub handle_appendentries_response :
      Peer → List ℕ → State → Option (State × List Datagram)
  handle_appendentries_response peer ptr st = do
    (r, rest) ← deserialize_appendentries_response ptr
    some (recv_appendentries_response st peer.node r, [])

  -- The switch on the first byte; other types are logged and dropped.
  unfoldable pub dispatch : Peer → List ℕ → Address → State → Option (State × List Datagram)
  dispatch peer [] src st = none
  dispatch peer (type ∷ ptr) src st =
      if type == 1
      then handle_requestvote peer ptr src st
      else if type == 2
      then handle_requestvote_response peer ptr st
      else if type == 3
      then handle_appendentries peer ptr src st
      else if type == 4
      then handle_appendentries_response peer ptr st
      else some (st, [])

  unfoldable pub from_peer : Option Peer → List ℕ → Address → State → Option (State × List Datagram)
  from_peer none buf src st = some (st, [])
  from_peer (some peer) buf src st = dispatch peer buf src st

  -- The loop of `raft_net_receive` over the datagrams that wait at the socket. An empty one ends it,
  -- since `recvfrom` gives 0. `buf` is the buffer on the stack.
  unfoldable pub receive_all :
      List Peer → List ℕ → List Datagram → State → Option (State × List Datagram)
  receive_all peers buf [] st = some (st, [])
  receive_all peers buf ((src, []) ∷ waiting) st = some (st, [])
  receive_all peers buf ((src, b ∷ bytes) ∷ waiting) st =
      let buf' = overwrite buf (take raft_max_pkt (b ∷ bytes)) in
      let rest : State → Option (State × List Datagram) = receive_all peers buf' waiting in
      (do
        (st', sent) ← from_peer (raft_peer_from_addr src peers) buf' src st
        (st'', more) ← rest st'
        some (st'', sent ++ more))

  unfoldable pub raft_net_receive :
      Bool → List Peer → List ℕ → List Datagram → State → Option (State × List Datagram)
  raft_net_receive raft_disabled peers junk waiting st =
      if raft_disabled then some (st, []) else receive_all peers junk waiting st

-- A callback's result and what it hands to `sendto`. `sent` is what `sendto` returns, `none` for -1.
-- The outer `none` is a write past the end of the packet buffer.
abbrev pub Sending : Type 0
Sending = Option (Bool × List Datagram)

unfoldable pub requestvote_packet : RequestVote → List ℕ
requestvote_packet msg = 1 ∷ serialize_requestvote msg

unfoldable pub raft_send_requestvote_cb : Bool → Option Peer → RequestVote → Option ℕ → Sending
raft_send_requestvote_cb true peer msg sent = some (true, [])
raft_send_requestvote_cb false none msg sent = some (false, [])
raft_send_requestvote_cb false (some peer) msg none =
    some (false, (peer.addr, requestvote_packet msg) ∷ [])
raft_send_requestvote_cb false (some peer) msg (some sent) =
    some (true, (peer.addr, requestvote_packet msg) ∷ [])

-- The entries that follow the header: `n_entries` of them, if the array is given.
unfoldable pub sent_entries : AppendEntries → List Entry
sent_entries msg = elim msg.entries [
  | none ↦ []
  | some entries ↦ if is_positive msg.n_entries then take msg.n_entries entries else []
]

unfoldable pub appendentries_packet : AppendEntries → List ℕ
appendentries_packet msg =
    3 ∷ (serialize_appendentries msg ++ serialize_msg_entry_array (sent_entries msg))

abbrev pub is_sent : Option ℕ → ℕ → Bool
is_sent none len = false
is_sent (some sent) len = sent == len

unfoldable pub raft_send_appendentries_cb : Bool → Option Peer → AppendEntries → Option ℕ → Sending
raft_send_appendentries_cb true peer msg sent = some (true, [])
raft_send_appendentries_cb false none msg sent = some (false, [])
raft_send_appendentries_cb false (some peer) msg sent =
    let packet = appendentries_packet msg in
    if leb (length packet) raft_max_pkt
    then some (is_sent sent (length packet), (peer.addr, packet) ∷ [])
    else none
