-- ===== src/Raft/Peers/Known.antt =====
-- Every server that is listed is known by its address.
use unfs3_raft.Base.{
  Option-cases, subst, ℕ, ◌+◌, ◌-◌, ◌^◌, ◌<◌, ◌≤◌, ◌≡◌, ◌≢◌, refl, sym, ap, ◌∙◌, true, false, ◌&&◌,
  List, [], ◌∷◌, ◌++◌, Option, none, some, length, ltb, ltb→lt, ◌==◌, ==_iff, ◌⊎◌, inl, inr,
  Bool-cases, length-append, arith,
}
use unfs3_raft.Raft.Net.{Address, Peer, raft_peer_from_addr}
use unfs3_raft.Raft.Peers.{
  raft_port_base, max_peers, peer_address, tokens, parse_ids, add_peer, add_peers, init_peers,
}

-- Ids whose port is a 16 bit number.
abbrev pub id_limit : ℕ
id_limit = 2 ^ 16 - raft_port_base

abbrev pub InRange : List ℕ → Type 0
InRange [] = Unit {0}
InRange (id ∷ ids) = (id < id_limit) × InRange ids

abbrev pub Listed : ℕ → List ℕ → Type 0
Listed id [] = ⊥
Listed id (x ∷ xs) = (id ≡ x) ⊎ Listed id xs

abbrev pub HasPeer : ℕ → List Peer → Type 0
HasPeer id [] = ⊥
HasPeer id (p ∷ ps) = (p.id ≡ id) ⊎ HasPeer id ps

abbrev IsTable : List Peer → Type 0
IsTable [] = Unit {0}
IsTable (p ∷ ps) = ((p.addr ≡ peer_address p.id) × (p.id < id_limit)) × IsTable ps

-- The peer that is found has the id.
abbrev pub Finds : ℕ → Option Peer → Type 0
Finds id none = ⊥
Finds id (some p) = (p.id ≡ id) × (p.addr ≡ peer_address id)

same_port :
    (a b : ℕ)
    → a < id_limit
    → b < id_limit
    → (peer_address a).sin_port ≡ (peer_address b).sin_port
    → a ≡ b
unfolding peer_address
same_port a b ha hb h = omega arith

differs :
    (a b : Address) → ((a.sin_port == b.sin_port) && (a.sin_addr == b.sin_addr)) ≡ false → a ≡ b → ⊥
differs a b h same =
    ground (arith, ap (λ (x : Address). x.sin_port) same, ap (λ (x : Address). x.sin_addr) same, h)

found :
    (id : ℕ) (peers : List Peer)
    → id < id_limit
    → IsTable peers
    → HasPeer id peers
    → Finds id (raft_peer_from_addr (peer_address id) peers)
unfolding raft_peer_from_addr
found id [] small table has = absurd has
found id (p ∷ ps) small table has =
    elim (Bool-cases (
      ((peer_address id).sin_port == p.addr.sin_port)
      && ((peer_address id).sin_addr == p.addr.sin_addr))) [
        | inl here ↦ rw here (
            let same : id ≡ p.id =
              same_port id p.id small table.0.1
                (ground (arith, here) ∙ ap (λ (a : Address). a.sin_port) table.0.0) in
            (sym same, table.0.0 ∙ ap peer_address (sym same)))
        | inr other ↦ rw other (
            found id ps small table.1 (elim has [
              | inr later ↦ later
              | inl mine ↦ absurd (
                  differs (peer_address id) p.addr other
                    (ap peer_address (sym mine) ∙ sym table.0.0))
            ]))
      ]

HasPeer-append :
    (id : ℕ) (ps qs : List Peer) → (HasPeer id ps ⊎ HasPeer id qs) → HasPeer id (ps ++ qs)
HasPeer-append id [] qs (inl h) = absurd h
HasPeer-append id [] qs (inr h) = h
HasPeer-append id (p ∷ ps) qs (inl (inl h)) = inl h
HasPeer-append id (p ∷ ps) qs (inl (inr h)) = inr (HasPeer-append id ps qs (inl h))
HasPeer-append id (p ∷ ps) qs (inr h) = inr (HasPeer-append id ps qs (inr h))

IsTable-append : (ps qs : List Peer) → IsTable ps → IsTable qs → IsTable (ps ++ qs)
IsTable-append [] qs a b = b
IsTable-append (p ∷ ps) qs a b = (a.0, IsTable-append ps qs a.1 b)

abbrev pub AreDistinct : List ℕ → Type 0
AreDistinct [] = Unit {0}
AreDistinct (id ∷ ids) = ¬ (Listed id ids) × AreDistinct ids

module _ (node : List Peer → ℕ → Option ℕ) where
  -- What filling the table with some more ids does.
  record Fills (own : ℕ) (ids : List ℕ) (peers t : List Peer) : Type 0 where
    table : IsTable peers → IsTable t
    room : length peers ≤ max_peers → length t ≤ max_peers
    keeps : (id : ℕ) → HasPeer id peers → HasPeer id t
    adds : (id : ℕ) → id ≢ own → Listed id ids → HasPeer id t

  abbrev FillsAll : ℕ → List ℕ → List Peer → Option (List Peer) → Type 0
  FillsAll own ids peers none = Unit {0}
  FillsAll own ids peers (some t) = Fills own ids peers t

  -- One more peer, or no table.
  add_peer-cases :
      (id : ℕ) (peers : List Peer)
      → (add_peer node id peers ≡ none)
        ⊎ ((n : ℕ) × (add_peer node id peers
              ≡ some (peers ++ record { id = id; addr = peer_address id; node = n } ∷ []))
            × (length peers < max_peers))
  unfolding add_peer
  add_peer-cases id peers = elim (Option-cases (node peers id)) [
    | inl e ↦ inl (rw e refl)
    | inr (n, e) ↦ elim (Bool-cases (ltb (length peers) max_peers)) [
      | inl room ↦ inr (n, rw (e, room) refl, ltb→lt (length peers) max_peers room)
      | inr full ↦ inl (rw (e, full) refl)
    ]
  ]

  add_peers-Fills :
      (own : ℕ) (ids : List ℕ) (peers : List Peer)
      → InRange ids
      → FillsAll own ids peers (add_peers node own ids peers)
  unfolding add_peers
  add_peers-Fills own [] peers range = record {
    table = λ a. a;
    room = λ a. a;
    keeps = λ id h. h;
    adds = λ id other h. absurd h;
  }
  add_peers-Fills own (x ∷ ids) peers range = elim (Bool-cases (x == own)) [
    | inl self ↦ rw self (skip ((==_iff x own).0 self) _ (add_peers-Fills own ids peers range.1))
    | inr other ↦ rw other (elim (add_peer-cases x peers) [
      | inl e ↦ rw e tt
      | inr (n, e, room) ↦
          rw e (go n room _ (add_peers-Fills own ids (peers ++ new n ∷ []) range.1))
    ])
  ]
    where
      new : ℕ → Peer
      new n = record { id = x; addr = peer_address x; node = n }

      skip :
          x ≡ own
          → (o : Option (List Peer)) → FillsAll own ids peers o
          → FillsAll own (x ∷ ids) peers o
      skip e none f = tt
      skip e (some t) f = record {
        table = f.table;
        room = f.room;
        keeps = f.keeps;
        adds = λ id other h. elim h [
          | inl same ↦ absurd (other (same ∙ e))
          | inr later ↦ f.adds id other later
        ];
      }

      go :
          (n : ℕ)
          → length peers < max_peers
          → (o : Option (List Peer)) → FillsAll own ids (peers ++ new n ∷ []) o
          → FillsAll own (x ∷ ids) peers o
      go n room none f = tt
      go n room (some t) f = record {
        table = λ a. f.table (IsTable-append peers (new n ∷ []) a ((refl, range.0), tt));
        room = λ a. f.room (omega (arith, length-append peers (new n ∷ []), room));
        keeps = λ id h. f.keeps id (HasPeer-append id peers (new n ∷ []) (inl h));
        adds = λ id other h. elim h [
          | inl same ↦ f.keeps id (HasPeer-append id peers (new n ∷ []) (inr (inl (sym same))))
          | inr later ↦ f.adds id other later
        ];
      }

  -- What is known of the table that `raft_init` fills: it has at most 16 peers, and a datagram from
  -- the address of this server or of one that is listed is taken for that server's.
  abbrev pub Knows : ℕ → List ℕ → Option (List Peer) → Type 0
  Knows own ids none = Unit {0}
  Knows own ids (some t) =
      (length t ≤ max_peers)
      × ((id : ℕ)
          → (id ≡ own) ⊎ Listed id ids
          → id < id_limit
          → Finds id (raft_peer_from_addr (peer_address id) t))

  -- The library gives a node for each id that no peer has.
  abbrev pub GivesNodes : Type 0
  GivesNodes =
      (peers : List Peer) (id : ℕ) → ¬ (HasPeer id peers) → (n : ℕ) × (node peers id ≡ some n)

  HasPeer-appended :
      (id : ℕ) (ps : List Peer) (p : Peer) → HasPeer id (ps ++ p ∷ []) → HasPeer id ps ⊎ (p.id ≡ id)
  HasPeer-appended id [] p (inl e) = inr e
  HasPeer-appended id [] p (inr h) = absurd h
  HasPeer-appended id (q ∷ qs) p (inl e) = inl (inl e)
  HasPeer-appended id (q ∷ qs) p (inr h) = elim (HasPeer-appended id qs p h) [
    | inl later ↦ inl (inr later)
    | inr e ↦ inr e
  ]

  -- No id that is left has a peer.
  abbrev AreNew : ℕ → List ℕ → List Peer → Type 0
  AreNew own ids peers = (id : ℕ) → id ≢ own → Listed id ids → ¬ (HasPeer id peers)

  add_peers_room :
      (own : ℕ) (ids : List ℕ) (peers : List Peer)
      → GivesNodes
      → AreDistinct ids
      → AreNew own ids peers
      → length peers + length ids ≤ max_peers
      → (t : List Peer) × (add_peers node own ids peers ≡ some t)
  unfolding add_peers add_peer
  add_peers_room own [] peers gives distinct fresh room = (peers, refl)
  add_peers_room own (x ∷ ids) peers gives distinct fresh room = elim (Bool-cases (x == own)) [
    | inl self ↦
        rw self (
          add_peers_room own ids peers gives distinct.1 (λ id o l. fresh id o (inr l))
            (omega arith))
    | inr other ↦
        let fits : ltb (length peers) max_peers ≡ true = ground arith in
        let not_own : x ≢ own = λ e. absurd (ground (arith, e, other)) in
        let (n, given) = gives peers x (fresh x not_own (inl refl)) in
        let p : Peer = record { id = x; addr = peer_address x; node = n } in
        rw (other, given, fits)
          (add_peers_room own ids (peers ++ p ∷ []) gives distinct.1 (still_new p refl)
            (omega (arith, length-append peers (p ∷ []))))
  ]
    where
      still_new : (p : Peer) → p.id ≡ x → AreNew own ids (peers ++ p ∷ [])
      still_new p e id o l h = elim (HasPeer-appended id peers p h) [
        | inl before ↦ fresh id o (inr l) before
        | inr same ↦ distinct.0 (subst (λ i. Listed i ids) (sym same ∙ e) l)
      ]

  -- For ids whose ports are below 2 ^ 16, a table that is filled has at most 16 peers, and a datagram
  -- from the address of this server or of one that is listed is taken for that server's. The table is
  -- filled whenever at most 15 servers are listed, none of them twice, and the library gives a node for
  -- each id that it does not have yet.
  pub init_peers-Knows :
      (atoi : List ℕ → ℕ) (own : ℕ) (list : List ℕ)
      → let ids = parse_ids atoi (tokens [] list) in
        own < id_limit
        → InRange ids
        → GivesNodes
        → AreDistinct ids
        → Knows own ids (init_peers node atoi own (some list))
          × (length ids ≤ 15 → (t : List Peer) × (init_peers node atoi own (some list) ≡ some t))
  unfolding init_peers add_peer
  init_peers-Knows atoi own list small range gives distinct =
      let (n, given) = gives [] own (λ h. h) in
      rw given (
        go n (add_peers node own ids (self n ∷ [])) (add_peers-Fills own ids (self n ∷ []) range),
        λ few.
            add_peers_room own ids (self n ∷ []) gives distinct
              (λ id other l h. elim h [ inl e ↦ other (sym e) | inr none_left ↦ none_left ])
              (omega arith),
      )
    where
      ids : List ℕ
      ids = parse_ids atoi (tokens [] list)

      self : ℕ → Peer
      self n = record { id = own; addr = peer_address own; node = n }

      go : (n : ℕ) (o : Option (List Peer)) → FillsAll own ids (self n ∷ []) o → Knows own ids o
      go n none f = tt
      go n (some t) f = (
        f.room (omega arith),
        λ id known range. found id t range (f.table ((refl, small), tt)) (has id known),
      )
        where
          has : (id : ℕ) → (id ≡ own) ⊎ Listed id ids → HasPeer id t
          has id (inl own_id) = f.keeps id (inl (sym own_id))
          has id (inr listed) = elim (Bool-cases (id == own)) [
            | inl same ↦ f.keeps id (inl (sym ((==_iff id own).0 same)))
            | inr other ↦ f.adds id (λ e. absurd (ground (arith, e, other))) listed
          ]
