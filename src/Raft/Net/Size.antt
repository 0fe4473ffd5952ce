-- ===== src/Raft/Net/Size.antt =====
-- The packet buffer of raft_send_appendentries_cb: which messages it holds.
use unfs3_raft.Base.{
  ℕ, ◌+◌, ◌≤◌, ◌<◌, ◌≡◌, refl, true, false, List, [], ◌∷◌, Option, none, some, length,
  length-append, take-length, leb, arith, le→leb,
}
use unfs3_raft.Bytes.{length-store}
use unfs3_raft.Raft.Wire.{
  Entry, AppendEntries, serialize_appendentries, serialize_msg_entry, serialize_msg_entry_array,
  entry_data,
}
use unfs3_raft.Raft.Wire.RoundTrip.{AllFit, EntryFits, Holds}
use unfs3_raft.Raft.Net.{
  Peer, raft_max_pkt, is_positive, sent_entries, appendentries_packet, is_sent,
  raft_send_appendentries_cb,
}

-- The bytes of the entries: 24 for the fields of each, and its data.
abbrev pub entries_size : List Entry → ℕ
entries_size [] = 0
entries_size (e ∷ es) = 24 + e.len + entries_size es

data_length : (len : ℕ) (buf : Option (List ℕ)) → Holds len buf → length (entry_data len buf) ≡ len
unfolding entry_data
data_length len none h = ground arith
data_length len (some bytes) h = rw (h.0, take-length bytes) refl

entry_length : (e : Entry) → EntryFits e → length (serialize_msg_entry e) ≡ 24 + e.len
unfolding serialize_msg_entry
entry_length e h =
    simp (length-append, length-store) (omega (arith, data_length e.len e.buf h.data_len))

entries_length :
    (es : List Entry) → AllFit es → length (serialize_msg_entry_array es) ≡ entries_size es
unfolding serialize_msg_entry_array
entries_length [] h = refl
entries_length (e ∷ es) h = omega (
  arith,
  length-append (serialize_msg_entry e) (serialize_msg_entry_array es),
  entry_length e h.0,
  entries_length es h.1,
)

header_length : (msg : AppendEntries) → length (serialize_appendentries msg) ≡ 36
unfolding serialize_appendentries
header_length msg = simp (length-append, length-store)

sent_eq :
    (msg : AppendEntries) (es : List Entry)
    → msg.entries ≡ some es
    → msg.n_entries ≡ length es
    → is_positive (length es) ≡ true
    → sent_entries msg ≡ es
unfolding sent_entries
sent_eq msg es array count positive = rw (array, count, positive) (take-length es)

packet_length :
    (msg : AppendEntries) (es : List Entry)
    → msg.entries ≡ some es
    → msg.n_entries ≡ length es
    → is_positive (length es) ≡ true
    → AllFit es
    → length (appendentries_packet msg) ≡ 37 + entries_size es
unfolding appendentries_packet
packet_length msg es array count positive fit = rw (sent_eq msg es array count positive) (
    omega (
      arith,
      length-append (serialize_appendentries msg) (serialize_msg_entry_array es),
      header_length msg,
      entries_length es fit,
    ))

-- A message with entries is written past the end of the packet buffer exactly if the entries take
-- more than 20443 bytes; otherwise it is handed to `sendto` as one packet.
pub raft_send_appendentries_cb-none :
    (peer : Peer) (msg : AppendEntries) (es : List Entry) (sent : Option ℕ)
    → msg.entries ≡ some es
    → msg.n_entries ≡ length es
    → is_positive (length es) ≡ true
    → AllFit es
    → (20443 < entries_size es → raft_send_appendentries_cb false (some peer) msg sent ≡ none)
      × (entries_size es ≤ 20443
          → raft_send_appendentries_cb false (some peer) msg sent
            ≡ some
                (is_sent sent (37 + entries_size es), (peer.addr, appendentries_packet msg) ∷ []))
unfolding raft_send_appendentries_cb
raft_send_appendentries_cb-none peer msg es sent array count positive fit =
    (λ large. rw (eq, too_large large) refl, λ small. rw (eq, fits small) refl)
  where
    eq : length (appendentries_packet msg) ≡ 37 + entries_size es
    eq = packet_length msg es array count positive fit

    too_large : 20443 < entries_size es → leb (37 + entries_size es) raft_max_pkt ≡ false
    too_large large = ground arith

    fits : entries_size es ≤ 20443 → leb (37 + entries_size es) raft_max_pkt ≡ true
    fits small = le→leb _ _ (omega arith)
