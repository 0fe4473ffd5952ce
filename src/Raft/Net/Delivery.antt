-- ===== src/Raft/Net/Delivery.antt =====
-- What one server hands to its raft library as sent, the library of the other one is called with.
use unfs3_raft.Base.{
  ℕ, suc, ◌≤◌, ◌<◌, ◌≡◌, refl, ap, ◌∙◌, Bool, true, false, List, [], ◌∷◌, ◌++◌, append_assoc,
  append-nil, Option, none, some, ◌>>=◌, length, length-append, drop, take, take_all, take-length,
  arith,
}
use unfs3_raft.Bytes.{length-store}
use unfs3_raft.Raft.Wire.{
  RequestVote, RequestVoteResponse, Entry, AppendEntries, AppendEntriesResponse,
  serialize_requestvote, serialize_requestvote_response, serialize_appendentries,
  serialize_appendentries_response, serialize_msg_entry_array,
}
use unfs3_raft.Raft.Wire.RoundTrip.{
  RequestVoteFits, RequestVoteResponseFits, AppendEntriesFits, AppendEntriesResponseFits,
  requestvote_round_trip, requestvote_response_round_trip, appendentries_round_trip,
  appendentries_response_round_trip, AllFit, AllAlloc, entries_round_trip,
}
use unfs3_raft.Raft.Net.{
  Address, Peer, Datagram, Library, raft_max_pkt, raft_peer_from_addr, overwrite, is_positive,
  read_entries, handle_requestvote, handle_requestvote_response, handle_appendentries,
  answer_appendentries, handle_appendentries_response, dispatch, from_peer, receive_all,
  raft_net_receive, requestvote_packet, sent_entries, appendentries_packet,
}

length-requestvote : (msg : RequestVote) → length (serialize_requestvote msg) ≡ 28
unfolding serialize_requestvote
length-requestvote msg = simp (length-append, length-store)

length-requestvote_response :
    (msg : RequestVoteResponse) → length (serialize_requestvote_response msg) ≡ 12
unfolding serialize_requestvote_response
length-requestvote_response msg = simp (length-append, length-store)

length-appendentries_response :
    (msg : AppendEntriesResponse) → length (serialize_appendentries_response msg) ≡ 28
unfolding serialize_appendentries_response
length-appendentries_response msg = simp (length-append, length-store)

module _ (alloc calloc : ℕ → Bool) where
  -- A message whose count is that of its entries, at least one.
  pub record Carries (msg : AppendEntries) (es : List Entry) : Type 0 where
    pub header : AppendEntriesFits msg
    pub array : msg.entries ≡ some es
    pub count : msg.n_entries ≡ length es
    pub some_entry : is_positive (length es) ≡ true
    pub fit : AllFit es
    pub memory : AllAlloc alloc es
    pub array_memory : calloc (length es) ≡ true
    pub short : length (appendentries_packet msg) ≤ raft_max_pkt

module _ (lib : Library) (alloc calloc : ℕ → Bool) where
  open lib use {
    State, recv_requestvote, recv_requestvote_response, recv_appendentries,
    recv_appendentries_response,
  }

  abbrev receive : List Peer → List ℕ → List Datagram → State → Option (State × List Datagram)
  receive = raft_net_receive lib alloc calloc false

  -- Nothing is left to receive.
  settle : (r : Option (State × List Datagram)) → (r >>= λ x. some (x.0, x.1 ++ [])) ≡ r
  settle none = refl
  settle (some (st, sent)) = ap (λ l. some (st, l)) (append-nil sent)

  buffer_eq :
      (junk : List ℕ) (type : ℕ) (body : List ℕ)
      → length body < raft_max_pkt
      → overwrite junk (take raft_max_pkt (type ∷ body))
        ≡ type ∷ (body ++ drop (suc (length body)) junk)
  buffer_eq junk type body short =
      ap (overwrite junk) (take_all raft_max_pkt (type ∷ body) (omega arith))
      ∙ unfold overwrite in refl

  -- One datagram from a known peer, short enough for the buffer, is dispatched as it was sent.
  receive_one :
      (peers : List Peer) (junk : List ℕ) (src : Address) (peer : Peer) (type : ℕ) (body : List ℕ)
      (st : State)
      → raft_peer_from_addr src peers ≡ some peer
      → length body < raft_max_pkt
      → receive peers junk ((src, type ∷ body) ∷ []) st
        ≡ dispatch lib alloc calloc peer (type ∷ (body ++ drop (suc (length body)) junk)) src st
  unfolding raft_net_receive receive_all from_peer
  receive_one peers junk src peer type body st known short =
      rw (known, buffer_eq junk type body short, from_peer) (settle _)

  module _ (peers : List Peer) (junk : List ℕ) (src : Address) (peer : Peer)
      (known : raft_peer_from_addr src peers ≡ some peer) (st : State) where
    -- A RequestVote message reaches the library of a server that knows the sender unchanged, and the
    -- answer of the library goes back to the sender, as a packet that is received in turn.
    pub requestvote_delivered :
        (msg : RequestVote)
        → RequestVoteFits msg
        → let (st', resp) = recv_requestvote st peer.node msg in
          receive peers junk ((src, requestvote_packet msg) ∷ []) st
          ≡ some (st', (src, 2 ∷ serialize_requestvote_response resp) ∷ [])
    unfolding requestvote_packet dispatch handle_requestvote
    requestvote_delivered msg fits =
        receive_one peers junk src peer 1 (serialize_requestvote msg) st known
          (omega (arith, length-requestvote msg))
        ∙ rw (requestvote_round_trip msg _ fits)

    -- An answer to a RequestVote message reaches the library unchanged, and nothing is sent.
    requestvote_response_delivered :
        (resp : RequestVoteResponse)
        → RequestVoteResponseFits resp
        → receive peers junk ((src, 2 ∷ serialize_requestvote_response resp) ∷ []) st
          ≡ some (recv_requestvote_response st peer.node resp, [])
    unfolding dispatch handle_requestvote_response
    requestvote_response_delivered resp fits =
        receive_one peers junk src peer 2 (serialize_requestvote_response resp) st known
          (omega (arith, length-requestvote_response resp))
        ∙ rw (requestvote_response_round_trip resp _ fits)

    -- An answer to an AppendEntries message reaches the library unchanged, and nothing is sent.
    appendentries_response_delivered :
        (resp : AppendEntriesResponse)
        → AppendEntriesResponseFits resp
        → receive peers junk ((src, 4 ∷ serialize_appendentries_response resp) ∷ []) st
          ≡ some (recv_appendentries_response st peer.node resp, [])
    unfolding dispatch handle_appendentries_response
    appendentries_response_delivered resp fits =
        receive_one peers junk src peer 4 (serialize_appendentries_response resp) st known
          (omega (arith, length-appendentries_response resp))
        ∙ rw (appendentries_response_round_trip resp _ fits)

    entries_eq :
        (msg : AppendEntries) (es : List Entry)
        → Carries alloc calloc msg es
        → sent_entries msg ≡ es
    unfolding sent_entries
    entries_eq msg es c = rw (c.array, c.count, c.some_entry) (take-length es)

    read_entries_lem :
        (msg : AppendEntries) (es : List Entry) (rest : List ℕ)
        → Carries alloc calloc msg es
        → read_entries lib alloc calloc
            (record msg { entries = none })
            (serialize_msg_entry_array es ++ rest)
          ≡ some (some msg)
    unfolding read_entries
    read_entries_lem msg es rest c =
        simp (c.count, c.some_entry, c.array_memory, entries_round_trip, c.fit, c.memory)
          (cc c.array)

    handled :
        (msg : AppendEntries) (es : List Entry) (rest : List ℕ)
        → Carries alloc calloc msg es
        → let (st', resp) = recv_appendentries st peer.node msg in
          handle_appendentries lib alloc calloc peer
            ((serialize_appendentries msg ++ serialize_msg_entry_array es) ++ rest)
            src
            st
          ≡ some (st', (src, 4 ∷ serialize_appendentries_response resp) ∷ [])
    unfolding handle_appendentries answer_appendentries
    handled msg es rest c = rw append_assoc (
        rw (appendentries_round_trip msg (serialize_msg_entry_array es ++ rest) c.header)
          (rw (read_entries_lem msg es rest c)))

    -- An AppendEntries message with its entries reaches the library unchanged if it fits the packet
    -- buffer and memory can be had, and the answer goes back to the sender.
    pub appendentries_delivered :
        (msg : AppendEntries) (es : List Entry)
        → Carries alloc calloc msg es
        → let (st', resp) = recv_appendentries st peer.node msg in
          receive peers junk ((src, appendentries_packet msg) ∷ []) st
          ≡ some (st', (src, 4 ∷ serialize_appendentries_response resp) ∷ [])
    unfolding appendentries_packet dispatch
    appendentries_delivered msg es c =
        receive_one peers junk src peer 3 _ st known (omega (arith, c.short))
        ∙ rw (entries_eq msg es c) (handled msg es _ c)
