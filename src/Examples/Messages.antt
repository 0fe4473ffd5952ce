-- ===== src/Examples/Messages.antt =====
-- Messages between two servers, and an operation on its way through the log.
use unfs3_raft.Base.{
  ℕ, ◌+◌, ◌≤◌, ◌<◌, ◌≡◌, refl, Bool, true, false, List, [], ◌∷◌, none, some, length, arith,
  replicate, length-append,
}
use unfs3_raft.Bytes.{length-store}
use unfs3_raft.Raft.Wire.{
  RequestVote, RequestVoteResponse, Entry, AppendEntries, AppendEntriesResponse,
  serialize_appendentries_response, serialize_appendentries, serialize_msg_entry_array,
  serialize_msg_entry, entry_data,
}
use unfs3_raft.Raft.Wire.RoundTrip.{
  RequestVoteFits, RequestVoteResponseFits, AppendEntriesFits, AppendEntriesResponseFits, AllFit,
}
use unfs3_raft.Raft.Net.{
  Address, Peer, Library, raft_peer_from_addr, raft_net_receive, appendentries_packet, sent_entries,
  raft_send_appendentries_cb,
}
use unfs3_raft.Raft.Net.Delivery.{Carries, appendentries_delivered}
use unfs3_raft.Raft.Net.Size.{raft_send_appendentries_cb-none}
use unfs3_raft.Raft.Ring.{Ring, capacity, collect}
use unfs3_raft.Raft.Ring.Collect.{Collects}
use unfs3_raft.Raft.Apply.{AuthUnix, raft_applylog_cb, apply_entries}
use unfs3_raft.Raft.Apply.Payload.{AuthFits}
use unfs3_raft.Raft.Apply.Reply.{Ready, logged, reply_lem}

-- A raft library that counts the calls.
abbrev vote : RequestVoteResponse
vote = record { term = 3; vote_granted = 1 }

abbrev accepted : AppendEntriesResponse
accepted = record { term = 3; success = 1; current_idx = 8; first_idx = 8 }

abbrev lib : Library
lib = record {
  State = ℕ;
  recv_requestvote = λ st node msg. (st + 1, vote);
  recv_requestvote_response = λ st node resp. st + 1;
  recv_appendentries = λ st node msg. (st + 1, accepted);
  recv_appendentries_response = λ st node resp. st + 1;
}

abbrev memory : ℕ → Bool
memory n = true

abbrev src : Address
src = record { sin_addr = 16777343; sin_port = 7001 }

abbrev peer : Peer
peer = record { id = 1; addr = src; node = 1 }

abbrev peers : List Peer
peers = peer ∷ []

known : raft_peer_from_addr src peers ≡ some peer
unfolding raft_peer_from_addr
known = refl

abbrev request : RequestVote
request = record { term = 3; candidate_id = 1; last_log_idx = 7; last_log_term = 2 }

request_fits : RequestVoteFits request
request_fits = record {
  term = omega arith;
  candidate_id = omega arith;
  last_log_idx = omega arith;
  last_log_term = omega arith;
}

vote_fits : RequestVoteResponseFits vote
vote_fits = record { term = omega arith; vote_granted = omega arith }

accepted_fits : AppendEntriesResponseFits accepted
accepted_fits = record {
  term = omega arith;
  success = omega arith;
  current_idx = omega arith;
  first_idx = omega arith;
}

abbrev two_entries : List Entry
two_entries =
    record { term = 3; id = 8; type = 0; len = 2; buf = some (0x68 ∷ 0x69 ∷ []) }
    ∷ record { term = 3; id = 9; type = 0; len = 0; buf = none }
    ∷ []

two_entries_fit : AllFit two_entries
two_entries_fit = (
  record {
    term = omega arith;
    id = omega arith;
    type = omega arith;
    len = omega arith;
    data_len = (refl, omega arith);
  },
  (
    record {
      term = omega arith;
      id = omega arith;
      type = omega arith;
      len = omega arith;
      data_len = refl;
    },
    tt,
  ),
)

abbrev append : AppendEntries
append = record {
  term = 3;
  prev_log_idx = 7;
  prev_log_term = 2;
  leader_commit = 7;
  n_entries = 2;
  entries = some two_entries;
}

append_fits : AppendEntriesFits append
append_fits = record {
  term = omega arith;
  prev_log_idx = omega arith;
  prev_log_term = omega arith;
  leader_commit = omega arith;
  n_entries = omega arith;
}

packet_length : length (appendentries_packet append) ≡ 87
unfolding appendentries_packet serialize_appendentries sent_entries serialize_msg_entry_array
    serialize_msg_entry entry_data
packet_length = simp (length-append, length-store)

carries : Carries memory memory append two_entries
carries = record {
  header = append_fits;
  array = refl;
  count = refl;
  some_entry = refl;
  fit = two_entries_fit;
  memory = (refl, (refl, tt));
  array_memory = refl;
  short = omega (arith, packet_length);
}

appendentries_delivered_example :
    raft_net_receive lib memory memory false peers [] ((src, appendentries_packet append) ∷ []) 5
    ≡ some (6, (src, 4 ∷ serialize_appendentries_response accepted) ∷ [])
appendentries_delivered_example =
    appendentries_delivered lib memory memory peers [] src peer known 5 append two_entries carries

-- A client with two groups, of at most four; the operation has the number 8.
abbrev auth : AuthUnix
auth = record { aup_uid = 1000; aup_gid = 100; aup_len = 2; aup_gids = 100 ∷ 27 ∷ [] }

auth_fits : AuthFits 4 auth
auth_fits = record {
  uid = omega arith;
  gid = omega arith;
  gids = (omega arith, (omega arith, tt));
  len = refl;
  few = omega arith;
  small = omega arith;
}

abbrev addr : List ℕ
addr = replicate 16 1

abbrev args : List ℕ
args = 0x61 ∷ 0x62 ∷ []

-- A file service that counts operations and answers with their number.
abbrev perform : ℕ → List ℕ → AuthUnix → List ℕ → ℕ → ℕ × ℕ
perform proc from cred body w = (w + 1, proc)

abbrev ring : Ring ℕ
ring = record {
  result_buffer = λ i. record { index = 0; data_ptr = 0 };
  write_pos = 2;
  read_pos = 2;
}

ring-Ready : Ready 4 0 perform 7 (0, ring)
ring-Ready = (record { write_in = omega arith; read_in = omega arith }, tt)

-- The raft library's own entries have other types.
abbrev earlier : List (ℕ × Entry)
earlier = (6, record { term = 0; id = 6; type = 2; len = 0; buf = none }) ∷ []

reply_lem_example :
    (ring' : Ring ℕ) × (raft_applylog_cb 4 0 perform
        (logged 4 0 perform 7 8 addr auth args)
        7
        (0, ring)
      ≡ some (1, ring'))
    × Collects 7 (some 8, []) (collect capacity 7 ring')
unfolding apply_entries raft_applylog_cb
reply_lem_example =
    reply_lem 4 0 perform 7 8 addr auth args auth_fits refl (omega arith) earlier (0, ring) 0 ring
      (omega arith, tt) ring-Ready refl

raft_send_appendentries_cb-none_example :
    (20443 < 50 → raft_send_appendentries_cb false (some peer) append (some 87) ≡ none)
    × (50 ≤ 20443
        → raft_send_appendentries_cb false (some peer) append (some 87)
          ≡ some (true, (src, appendentries_packet append) ∷ []))
raft_send_appendentries_cb-none_example =
    raft_send_appendentries_cb-none peer append two_entries (some 87) refl refl refl two_entries_fit
