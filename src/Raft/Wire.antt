-- ===== src/Raft/Wire.antt =====
-- daemon_raft.c: the messages between peers as bytes. `htonl` and `htobe64` followed by `memcpy`
-- store the most significant byte first on every host. A signed field is its bit pattern.
-- What a serializer returns is the bytes that it wrote; what a deserializer returns beside the
-- message is the buffer behind the bytes that it read, and `none` stands for a read past the end
-- of the buffer.
pub mod RoundTrip
use unfs3_raft.Base.{
  ℕ, zero, suc, List, [], ◌∷◌, ◌++◌, Option, none, some, ◌>>=◌, take, ltb, Bool, if◌then◌else◌,
}
use unfs3_raft.Bytes.{big, store, read, split}

-- msg_requestvote_t
pub record RequestVote : Type 0 where
  pub term : ℕ
  pub candidate_id : ℕ
  pub last_log_idx : ℕ
  pub last_log_term : ℕ

-- msg_requestvote_response_t
pub record RequestVoteResponse : Type 0 where
  pub term : ℕ
  pub vote_granted : ℕ

-- msg_entry_t: `len` and `buf` are the two fields of its `data`, with NULL as `none`.
pub record Entry : Type 0 where
  pub term : ℕ
  pub id : ℕ
  pub type : ℕ
  pub len : ℕ
  pub buf : Option (List ℕ)

-- msg_appendentries_t, with a NULL array as `none`.
pub record AppendEntries : Type 0 where
  pub term : ℕ
  pub prev_log_idx : ℕ
  pub prev_log_term : ℕ
  pub leader_commit : ℕ
  pub n_entries : ℕ
  pub entries : Option (List Entry)

-- msg_appendentries_response_t
pub record AppendEntriesResponse : Type 0 where
  pub term : ℕ
  pub success : ℕ
  pub current_idx : ℕ
  pub first_idx : ℕ

unfoldable pub serialize_requestvote : RequestVote → List ℕ
serialize_requestvote msg =
    store big 8 msg.term
    ++ (store big 4 msg.candidate_id
        ++ (store big 8 msg.last_log_idx ++ store big 8 msg.last_log_term))

unfoldable pub deserialize_requestvote : List ℕ → Option (RequestVote × List ℕ)
deserialize_requestvote buf = do
  (term, buf) ← read big 8 buf
  (candidate_id, buf) ← read big 4 buf
  (last_log_idx, buf) ← read big 8 buf
  (last_log_term, buf) ← read big 8 buf
  let msg : RequestVote = record {
    term = term;
    candidate_id = candidate_id;
    last_log_idx = last_log_idx;
    last_log_term = last_log_term;
  }
  some (msg, buf)

unfoldable pub serialize_requestvote_response : RequestVoteResponse → List ℕ
serialize_requestvote_response msg = store big 8 msg.term ++ store big 4 msg.vote_granted

unfoldable pub deserialize_requestvote_response : List ℕ → Option (RequestVoteResponse × List ℕ)
deserialize_requestvote_response buf = do
  (term, buf) ← read big 8 buf
  (vote_granted, buf) ← read big 4 buf
  let msg : RequestVoteResponse = record { term = term; vote_granted = vote_granted }
  some (msg, buf)

-- The header; the entries follow it by `serialize_msg_entry_array`.
unfoldable pub serialize_appendentries : AppendEntries → List ℕ
serialize_appendentries msg =
    store big 8 msg.term
    ++ (store big 8 msg.prev_log_idx
        ++ (store big 8 msg.prev_log_term
            ++ (store big 8 msg.leader_commit ++ store big 4 msg.n_entries)))

unfoldable pub deserialize_appendentries : List ℕ → Option (AppendEntries × List ℕ)
deserialize_appendentries buf = do
  (term, buf) ← read big 8 buf
  (prev_log_idx, buf) ← read big 8 buf
  (prev_log_term, buf) ← read big 8 buf
  (leader_commit, buf) ← read big 8 buf
  (n_entries, buf) ← read big 4 buf
  let msg : AppendEntries = record {
    term = term;
    prev_log_idx = prev_log_idx;
    prev_log_term = prev_log_term;
    leader_commit = leader_commit;
    n_entries = n_entries;
    entries = none;
  }
  some (msg, buf)

unfoldable pub serialize_appendentries_response : AppendEntriesResponse → List ℕ
serialize_appendentries_response msg =
    store big 8 msg.term
    ++ (store big 4 msg.success ++ (store big 8 msg.current_idx ++ store big 8 msg.first_idx))

unfoldable pub deserialize_appendentries_response : List ℕ → Option (AppendEntriesResponse × List ℕ)
deserialize_appendentries_response buf = do
  (term, buf) ← read big 8 buf
  (success, buf) ← read big 4 buf
  (current_idx, buf) ← read big 8 buf
  (first_idx, buf) ← read big 8 buf
  let msg : AppendEntriesResponse = record {
    term = term;
    success = success;
    current_idx = current_idx;
    first_idx = first_idx;
  }
  some (msg, buf)

-- `memcpy` of `len` bytes, if there is data.
unfoldable pub entry_data : ℕ → Option (List ℕ) → List ℕ
entry_data len none = []
entry_data len (some data_buf) = take len data_buf

unfoldable pub serialize_msg_entry : Entry → List ℕ
serialize_msg_entry entry =
    store big 8 entry.term
    ++ (store big 8 entry.id
        ++ (store big 4 entry.type ++ (store big 4 entry.len ++ entry_data entry.len entry.buf)))

unfoldable pub serialize_msg_entry_array : List Entry → List ℕ
serialize_msg_entry_array [] = []
serialize_msg_entry_array (entry ∷ entries) =
    serialize_msg_entry entry ++ serialize_msg_entry_array entries

-- `alloc n` says whether `malloc(n)` succeeds.
module _ (alloc : ℕ → Bool) where
  -- The data of an entry whose header announced `len` bytes. Where `malloc` fails the length is
  -- cleared and the reader stays where it is.
  unfoldable pub deserialize_data : ℕ → List ℕ → Option ((ℕ × Option (List ℕ)) × List ℕ)
  deserialize_data len buf =
      if ltb 0 len
      then if alloc len
        then (do (bytes, buf) ← split len buf; some ((len, some bytes), buf))
        else some ((0, none), buf)
      else some ((len, none), buf)

  unfoldable pub deserialize_msg_entry : List ℕ → Option (Entry × List ℕ)
  deserialize_msg_entry buf = do
    (term, buf) ← read big 8 buf
    (id, buf) ← read big 8 buf
    (type, buf) ← read big 4 buf
    (announced, buf) ← read big 4 buf
    ((len, bytes), buf) ← deserialize_data announced buf
    let entry : Entry = record { term = term; id = id; type = type; len = len; buf = bytes }
    some (entry, buf)

  unfoldable pub deserialize_msg_entry_array : ℕ → List ℕ → Option (List Entry × List ℕ)
  deserialize_msg_entry_array zero buf = some ([], buf)
  deserialize_msg_entry_array (suc n) buf = do
    (entry, buf) ← deserialize_msg_entry buf
    (entries, buf) ← deserialize_msg_entry_array n buf
    some (entry ∷ entries, buf)
