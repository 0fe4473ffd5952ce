-- ===== src/Exports/Longest.antt =====
-- Which export a request gets.
use unfs3_raft.Base.{
  ℕ, ◌≤◌, ◌<◌, ◌≡◌, refl, ◌∙◌, ◌⊎◌, inl, inr, true, false, ◌&&◌, List, [], ◌∷◌, Option, none, some,
  length, ltb, ◌==◌, ap, arith, Bool-cases,
}
use unfs3_raft.Fs.{FilePath}
use unfs3_raft.Exports.{
  Host, Item, ExportState, find_host, is_prefix, contains, up_path, no_export, cleared, granted,
  Search, Outs, no_outs, grant, search_step, search_items, found, exports_options,
}

module _ (path : FilePath) (remote : List ℕ) where
  -- An export that covers the path and lists the client.
  pub record Allows (item : Item) (host : Host) : Type 0 where
    pub covers : is_prefix item.path path ≡ true
    pub lists : find_host remote item.hosts ≡ some host

  -- Every export of the list that allows the client has a path of at most this length.
  abbrev pub NoLonger : ℕ → List Item → Type 0
  NoLonger n [] = Unit {0}
  NoLonger n (item ∷ items) =
      ((host : Host) → Allows item host → length item.path ≤ n) × NoLonger n items

  abbrev pub In : Item → List Item → Type 0
  In item [] = ⊥
  In item (x ∷ xs) = (item ≡ x) ⊎ In item xs

  -- The options and the password are those of an export of the list that allows the client.
  pub record Chosen (list : List Item) (last_len : ℕ) (outs : Outs) (st : ExportState)
      : Type 0 where
    pub item : Item
    pub host : Host
    pub listed : In item list
    pub allows : Allows item host
    pub size : last_len ≡ length item.path
    pub state : st ≡ granted item host
    pub password : outs.password ≡ some host.password

  Chosen-later :
      (x : Item) (xs : List Item) (n : ℕ) (outs : Outs) (st : ExportState)
      → Chosen xs n outs st
      → Chosen (x ∷ xs) n outs st
  Chosen-later x xs n outs st c = record {
    item = c.item;
    host = c.host;
    listed = inr c.listed;
    allows = c.allows;
    size = c.size;
    state = c.state;
    password = c.password;
  }

  -- What one round or several of them make of a length and a state.
  record Runs (list : List Item) (n : ℕ) (outs : Outs) (st : ExportState) (after : Search)
      : Type 0 where
    grows : n ≤ after.0
    covered : NoLonger after.0 list
    outcome :
        ((after.0 ≡ n) × (after.2 ≡ st) × (after.1.password ≡ outs.password))
        ⊎ Chosen list after.0 after.1 after.2

  step_at :
      (item : Item) (o : Option Host) (n : ℕ) (f : Outs) (st : ExportState)
      → is_prefix item.path path ≡ true
      → n < length item.path
      → find_host remote item.hosts ≡ o
      → Runs (item ∷ []) n f st (grant item o (n, f, st))
  unfolding grant
  step_at item none n f st p h e = record {
    grows = omega arith;
    covered = (λ host a. absurd (cc (a.lists, e)), tt);
    outcome = inl (refl, refl, refl);
  }
  step_at item (some host) n f st p h e = record {
    grows = omega arith;
    covered = (λ host' a. omega arith, tt);
    outcome = inr (record {
      item = item;
      host = host;
      listed = inl refl;
      allows = record { covers = p; lists = e };
      size = refl;
      state = refl;
      password = refl;
    });
  }

  step_lem :
      (item : Item) (n : ℕ) (f : Outs) (st : ExportState)
      → Runs (item ∷ []) n f st (search_step path remote item (n, f, st))
  unfolding search_step
  step_lem item n f st = elim (Bool-cases (ltb n (length item.path) && is_prefix item.path path)) [
    | inl taken ↦
        rw taken
          (step_at item (find_host remote item.hosts) n f st (ground arith) (ground arith) refl)
    | inr skipped ↦ rw skipped (record {
      grows = omega arith;
      covered = (λ host a. short skipped a.covers, tt);
      outcome = inl (refl, refl, refl);
    })
  ]
    where
      short :
          (ltb n (length item.path) && is_prefix item.path path) ≡ false
          → is_prefix item.path path ≡ true
          → length item.path ≤ n
      short e p = ground arith

  after_step :
      (item : Item) (items : List Item) (n : ℕ) (outs : Outs) (st : ExportState)
      (mid after : Search)
      → Runs (item ∷ []) n outs st mid
      → Runs items mid.0 mid.1 mid.2 after
      → Runs (item ∷ items) n outs st after
  after_step item items n outs st mid after a b = record {
    grows = omega (arith, a.grows, b.grows);
    covered = (λ host h. omega (arith, a.covered.0 host h, b.grows), b.covered);
    outcome = elim b.outcome [
      | inr c ↦ inr (Chosen-later item items after.0 after.1 after.2 c)
      | inl same ↦ elim a.outcome [
        | inl first ↦ inl (same.0 ∙ first.0, same.1 ∙ first.1, same.2 ∙ first.2)
        | inr c ↦ inr (record {
          item = c.item;
          host = c.host;
          listed = elim c.listed [ inl e ↦ inl e | inr h ↦ absurd h ];
          allows = c.allows;
          size = same.0 ∙ c.size;
          state = same.1 ∙ c.state;
          password = same.2 ∙ c.password;
        })
      ]
    ];
  }

  search_items-Runs :
      (items : List Item) (s : Search) → Runs items s.0 s.1 s.2 (search_items path remote items s)
  unfolding search_items
  search_items-Runs [] s = record {
    grows = omega arith;
    covered = tt;
    outcome = inl (refl, refl, refl);
  }
  search_items-Runs (item ∷ items) (n, f, st) =
      after_step item items n f st (search_step path remote item (n, f, st)) _
        (step_lem item n f st) (search_items-Runs items (search_step path remote item (n, f, st)))

  -- For a path without "/../", the options and the password that a client gets are those of an export
  -- that covers the path and lists the client, and no export that does both has a longer path;
  -- without such an export of a path that is not empty the options are -1 and the rest is cleared.
  pub exports_options-Chosen :
      (list : List Item) (st : ExportState)
      → contains up_path path ≡ false
      → let (outs, st') = exports_options list (some path) (some remote) st in
        (n : ℕ) × NoLonger n list × (((n ≡ 0) × (st' ≡ cleared st)) ⊎ Chosen list n outs st')
  unfolding exports_options found
  exports_options-Chosen list st clean =
      let all = search_items-Runs list (0, no_outs, cleared st) in
      rw clean (
        (search_items path remote list (0, no_outs, cleared st)).0,
        all.covered,
        elim all.outcome [ inl same ↦ inl (same.0, same.1) | inr c ↦ inr c ],
      )

exports_options_up :
    (list : List Item) (path : FilePath) (addr : List ℕ) (st : ExportState)
    → contains up_path path ≡ true
    → exports_options list (some path) (some addr) st ≡ (no_outs, cleared st)
unfolding exports_options
exports_options_up list path addr st up = rw up

cleared_unknown :
    (st' st : ExportState) → st' ≡ cleared st → (st'.exports_opts == no_export) ≡ false → ⊥
unfolding cleared
cleared_unknown st' st same known =
    cc (ap (λ (x : ExportState). x.exports_opts == no_export) same, known)

-- Options other than -1 are those of an export, for a client whose address is known.
pub exports_options_known :
    (list : List Item) (path : FilePath) (remote : Option (List ℕ)) (st : ExportState)
    → let (outs, st') = exports_options list (some path) remote st in
      (st'.exports_opts == no_export) ≡ false
      → (addr : List ℕ) × (remote ≡ some addr)
        × (n : ℕ) × NoLonger path addr n list
        × Chosen path addr list n outs st'
exports_options_known list path none st known = unfold exports_options cleared in cc known
exports_options_known list path (some addr) st known = elim (Bool-cases (contains up_path path)) [
  | inl up ↦ absurd (
      cleared_unknown _ st
        (ap (λ (r : Outs × ExportState). r.1) (exports_options_up list path addr st up)) known)
  | inr clean ↦
      let (n, longest, outcome) = exports_options-Chosen path addr list st clean in
      (
        addr,
        refl,
        n,
        longest,
        elim outcome [
          | inl none_found ↦ absurd (cleared_unknown _ st none_found.1 known)
          | inr chosen ↦ chosen
        ],
      )
]
