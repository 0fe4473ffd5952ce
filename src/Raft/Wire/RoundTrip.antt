-- ===== src/Raft/Wire/RoundTrip.antt =====
-- What a peer sends is what the other one reads.
use unfs3_raft.Base.{
  ℕ, ◌<◌, ◌^◌, ◌≡◌, refl, Bool, true, List, [], ◌∷◌, ◌++◌, append_assoc, Option, none, some, length,
  take, take-length, lt→ltb,
}
use unfs3_raft.Bytes.{read-store, split, split-append}
use unfs3_raft.Raft.Wire.{
  RequestVote, RequestVoteResponse, AppendEntries, AppendEntriesResponse, Entry,
  serialize_requestvote, deserialize_requestvote, serialize_requestvote_response,
  deserialize_requestvote_response, serialize_appendentries, deserialize_appendentries,
  serialize_appendentries_response, deserialize_appendentries_response, serialize_msg_entry,
  deserialize_msg_entry, entry_data, deserialize_data, serialize_msg_entry_array,
  deserialize_msg_entry_array,
}

-- Each field is a bit pattern of its C type.
pub record RequestVoteFits (msg : RequestVote) : Type 0 where
  pub term : msg.term < 256 ^ 8
  pub candidate_id : msg.candidate_id < 256 ^ 4
  pub last_log_idx : msg.last_log_idx < 256 ^ 8
  pub last_log_term : msg.last_log_term < 256 ^ 8

pub requestvote_round_trip :
    (msg : RequestVote) (rest : List ℕ)
    → RequestVoteFits msg
    → deserialize_requestvote (serialize_requestvote msg ++ rest) ≡ some (msg, rest)
unfolding serialize_requestvote deserialize_requestvote
requestvote_round_trip msg rest h =
    simp (append_assoc, read-store, h.term, h.candidate_id, h.last_log_idx, h.last_log_term)

pub record RequestVoteResponseFits (msg : RequestVoteResponse) : Type 0 where
  pub term : msg.term < 256 ^ 8
  pub vote_granted : msg.vote_granted < 256 ^ 4

pub requestvote_response_round_trip :
    (msg : RequestVoteResponse) (rest : List ℕ)
    → RequestVoteResponseFits msg
    → deserialize_requestvote_response (serialize_requestvote_response msg ++ rest)
      ≡ some (msg, rest)
unfolding serialize_requestvote_response deserialize_requestvote_response
requestvote_response_round_trip msg rest h = simp (append_assoc, read-store, h.term, h.vote_granted)

pub record AppendEntriesFits (msg : AppendEntries) : Type 0 where
  pub term : msg.term < 256 ^ 8
  pub prev_log_idx : msg.prev_log_idx < 256 ^ 8
  pub prev_log_term : msg.prev_log_term < 256 ^ 8
  pub leader_commit : msg.leader_commit < 256 ^ 8
  pub n_entries : msg.n_entries < 256 ^ 4

-- The header alone: the array comes back as NULL.
pub appendentries_round_trip :
    (msg : AppendEntries) (rest : List ℕ)
    → AppendEntriesFits msg
    → deserialize_appendentries (serialize_appendentries msg ++ rest)
      ≡ some (record msg { entries = none }, rest)
unfolding serialize_appendentries deserialize_appendentries
appendentries_round_trip msg rest h = simp (
  append_assoc, read-store, h.term, h.prev_log_idx, h.prev_log_term, h.leader_commit, h.n_entries,
)

pub record AppendEntriesResponseFits (msg : AppendEntriesResponse) : Type 0 where
  pub term : msg.term < 256 ^ 8
  pub success : msg.success < 256 ^ 4
  pub current_idx : msg.current_idx < 256 ^ 8
  pub first_idx : msg.first_idx < 256 ^ 8

pub appendentries_response_round_trip :
    (msg : AppendEntriesResponse) (rest : List ℕ)
    → AppendEntriesResponseFits msg
    → deserialize_appendentries_response (serialize_appendentries_response msg ++ rest)
      ≡ some (msg, rest)
unfolding serialize_appendentries_response deserialize_appendentries_response
appendentries_response_round_trip msg rest h =
    simp (append_assoc, read-store, h.term, h.success, h.current_idx, h.first_idx)

-- The length field tells the length of the data, and there is none exactly if it is 0.
abbrev pub Holds : ℕ → Option (List ℕ) → Type 0
Holds len none = len ≡ 0
Holds len (some bytes) = (len ≡ length bytes) × (0 < len)

pub record EntryFits (e : Entry) : Type 0 where
  pub term : e.term < 256 ^ 8
  pub id : e.id < 256 ^ 8
  pub type : e.type < 256 ^ 4
  pub len : e.len < 256 ^ 4
  pub data_len : Holds e.len e.buf

abbrev pub AllFit : List Entry → Type 0
AllFit [] = Unit {0}
AllFit (e ∷ es) = EntryFits e × AllFit es

split-take :
    (len : ℕ) (bytes rest : List ℕ)
    → len ≡ length bytes
    → split len (take len bytes ++ rest) ≡ some (bytes, rest)
split-take len bytes rest e = rw (e, take-length bytes) (split-append bytes rest)

module _ (alloc : ℕ → Bool) where
  data_round_trip :
      (len : ℕ) (buf : Option (List ℕ)) (rest : List ℕ)
      → Holds len buf
      → alloc len ≡ true
      → deserialize_data alloc len (entry_data len buf ++ rest) ≡ some ((len, buf), rest)
  unfolding deserialize_data entry_data
  data_round_trip len none rest h a = rw h refl
  data_round_trip len (some bytes) rest h a =
      rw (lt→ltb 0 len h.1, a, split-take len bytes rest h.0) refl

  entry_round_trip :
      (e : Entry) (rest : List ℕ)
      → EntryFits e
      → alloc e.len ≡ true
      → deserialize_msg_entry alloc (serialize_msg_entry e ++ rest) ≡ some (e, rest)
  unfolding serialize_msg_entry deserialize_msg_entry
  entry_round_trip e rest h a =
      simp (append_assoc, read-store, h.term, h.id, h.type, h.len, data_round_trip, h.data_len, a)

  abbrev pub AllAlloc : List Entry → Type 0
  AllAlloc [] = Unit {0}
  AllAlloc (e ∷ es) = (alloc e.len ≡ true) × AllAlloc es

  -- Entries whose fields are in range, whose lengths are those of their data, and for whose data
  -- memory can be had, are read back as they were written, with whatever follows them.
  pub entries_round_trip :
      (es : List Entry) (rest : List ℕ)
      → AllFit es
      → AllAlloc es
      → deserialize_msg_entry_array alloc (length es) (serialize_msg_entry_array es ++ rest)
        ≡ some (es, rest)
  unfolding serialize_msg_entry_array deserialize_msg_entry_array
  entries_round_trip [] rest h a = refl
  entries_round_trip (e ∷ es) rest h a = rw append_assoc (
      rw (entry_round_trip e (serialize_msg_entry_array es ++ rest) h.0 a.0)
        (rw (entries_round_trip es rest h.1 a.1)))
