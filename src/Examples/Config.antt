-- ===== src/Examples/Config.antt =====
-- An exports file with two lines, and the peers of a server.
use unfs3_raft.Base.{
  refl, Bool, ◌||◌, ◌==◌, inl, inr, ne→==, if◌then◌else◌, Option, false, ℕ, ◌≤◌, ◌≡◌, true, none,
  some, List, [], ◌∷◌, length, arith,
}
use unfs3_raft.Exports.Build.{Line, Lists, exports_parse}
use unfs3_raft.Exports.Build.Options.{flag, valued, opt_rw, opt_password}
use unfs3_raft.Exports.Build.Hosts.{Resolver, ipv4_net, prefix_of}
use unfs3_raft.Exports.Build.Spec.{meaning}
use unfs3_raft.Exports.Build.Parsed.{exports_parse-meaning}
use unfs3_raft.Exports.Build.Mask.{mask, prefix_of-mask}
use unfs3_raft.Raft.Net.{Peer}
use unfs3_raft.Raft.Peers.{put_token, tokens, parse_ids, init_peers}
use unfs3_raft.Raft.Peers.Known.{HasPeer, GivesNodes, AreDistinct, InRange, Knows, init_peers-Knows}

abbrev resolver : Resolver
resolver = record {
  inet_pton4 = λ name. (true, 0xc0a80000);
  inet_pton6 = λ name buf. (false, buf);
  gethostbyname = λ name. none;
  realpath = λ path. some path;
  atoi = λ text. 24;
}

abbrev home_line : Line
home_line = record {
  path = b'/' ∷ b'h' ∷ [];
  hosts =
      record {
        name = some (ipv4_net (b'1' ∷ b'/' ∷ b'2' ∷ b'4' ∷ []));
        opts = flag opt_rw ∷ (valued opt_password (b'x' ∷ []) ∷ []);
      }
      ∷ [];
}

abbrev media_line : Line
media_line = record { path = b'/' ∷ b'm' ∷ []; hosts = [] }

abbrev no_lists : Lists
no_lists = ([], [])

exports_parse-meaning_example :
    (exports_parse resolver false (some (home_line ∷ (media_line ∷ []), false)) no_lists
      ≡ meaning resolver (home_line ∷ (media_line ∷ [])) false)
    × (exports_parse resolver false none no_lists ≡ (false, ([], [])))
    × (exports_parse resolver true none no_lists ≡ (false, no_lists))
exports_parse-meaning_example =
    exports_parse-meaning resolver (home_line ∷ (media_line ∷ [])) false none no_lists

prefix_of-mask_example :
    ((prefix_of 0xffffff00).1 ≡ true → 0xffffff00 ≡ mask (prefix_of 0xffffff00).0)
    × ((prefix : ℕ)
        → prefix ≤ 32
        → 0xffffff00 ≡ mask prefix
        → prefix_of 0xffffff00 ≡ (prefix, true))
prefix_of-mask_example = prefix_of-mask 0xffffff00 (omega arith)

-- "1,2,3", of which the ids are the characters.
abbrev peer_list : List ℕ
peer_list = b'1' ∷ b',' ∷ b'2' ∷ b',' ∷ b'3' ∷ []

abbrev first_char : List ℕ → ℕ
first_char [] = 0
first_char (c ∷ cs) = c

abbrev has_id : ℕ → List Peer → Bool
has_id id [] = false
has_id id (p ∷ ps) = (p.id == id) || has_id id ps

-- An id that has a node gets none.
abbrev peer_node : List Peer → ℕ → Option ℕ
peer_node peers id = if has_id id peers then none else some (length peers)

has_no_id : (id : ℕ) (peers : List Peer) → ¬ (HasPeer id peers) → has_id id peers ≡ false
has_no_id id [] h = refl
has_no_id id (p ∷ ps) h =
    rw (ne→== p.id id (λ e. h (inl e)), has_no_id id ps (λ later. h (inr later))) refl

gives : GivesNodes peer_node
gives peers id h = (length peers, rw (has_no_id id peers h) refl)

peers-InRange : InRange (parse_ids first_char (tokens [] peer_list))
unfolding parse_ids tokens put_token
peers-InRange = (omega arith, (omega arith, (omega arith, tt)))

peers-AreDistinct : AreDistinct (parse_ids first_char (tokens [] peer_list))
unfolding parse_ids tokens put_token
peers-AreDistinct = (
  λ h. elim h [ inl e ↦ omega (arith, e) | inr (inl e) ↦ omega (arith, e) | inr (inr e) ↦ e ],
  (λ h. elim h [ inl e ↦ omega (arith, e) | inr e ↦ e ], (λ h. h, tt)),
)

init_peers-Knows_example :
    let ids = parse_ids first_char (tokens [] peer_list) in
    Knows peer_node b'2' ids (init_peers peer_node first_char b'2' (some peer_list))
    × (length ids ≤ 15
        → (t : List Peer) × (init_peers peer_node first_char b'2' (some peer_list) ≡ some t))
init_peers-Knows_example =
    init_peers-Knows peer_node first_char b'2' peer_list (omega arith) peers-InRange gives
      peers-AreDistinct
