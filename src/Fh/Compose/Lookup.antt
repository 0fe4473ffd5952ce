-- ===== src/Fh/Compose/Lookup.antt =====
-- `fh_comp_raw` and `fh_extend` agree: LOOKUP may extend the handle of the directory.
use unfs3_raft.Base.{
  ◌%◌, ◌^◌, ℕ, ◌≤◌, ◌<◌, ◌≡◌, refl, sym, ap, ◌∙◌, true, false, List, [], ◌∷◌, ◌++◌, Option, none,
  some, length, length-append, drop, take, take-append_self, length-drop, arith, ltb, ltb→lt,
  not_lt, inl, inr, ◌⊎◌, Bool-cases,
}
use unfs3_raft.Fs.{FilePath, slash, root_path, str_eq, Stat, FileSystem}
use unfs3_raft.Fh.{Fh, fh_maxlen, fh_hash, fh_valid, invalid_fh}
use unfs3_raft.Fh.Extend.{Extends}
use unfs3_raft.Fh.Compose.{
  Exports, components, with_components, tail, comp_found, comp_path, fh_comp_raw,
}
use unfs3_raft.Fh.Compose.Child.{IsName, extended, components-Snoc, components-bound}

below_root : (c : ℕ) (cs name : FilePath) → str_eq ((c ∷ cs) ++ (slash ∷ name)) root_path ≡ false
unfolding str_eq
below_root c [] name = ground arith
below_root c (x ∷ xs) name = ground arith

no_components : (fh : Fh) → with_components fh none ≡ invalid_fh
unfolding with_components
no_components fh = refl

abbrev with_stat : FileSystem → Fh → Stat → FilePath → Fh
with_stat fs fh b path = record fh {
  dev = b.st_dev % 2 ^ 32;
  ino = b.st_ino;
  gen = fs.get_gen b path;
}

invalid : fh_valid invalid_fh ≡ false
unfolding fh_valid
invalid = refl

module _ (fs : FileSystem) (fh : Fh) where
  missing : (path : FilePath) → fs.lstat path ≡ none → comp_path fs fh path false ≡ invalid_fh
  unfolding comp_path comp_found
  missing path e = ap (comp_found fs fh path false) e

  present :
      (path : FilePath) (d : Stat) (hashes : Option (List ℕ))
      → str_eq path root_path ≡ false
      → fs.lstat path ≡ some d
      → components fs fh_maxlen [] (tail path) ≡ hashes
      → comp_path fs fh path false ≡ with_components (with_stat fs fh d path) hashes
  unfolding comp_path
  present path d hashes not_root e c =
      ap (comp_found fs fh path false) e
      ∙ unfold comp_found in rw not_root (ap (with_components (with_stat fs fh d path)) c)

  -- What a valid result of `fh_comp_raw` says of the path.
  abbrev Found : FilePath → Type 0
  Found path =
      (d : Stat) × (hs : List ℕ) × (fs.lstat path ≡ some d)
      × (components fs fh_maxlen [] (tail path) ≡ some hs)
      × (comp_path fs fh path false ≡ with_components (with_stat fs fh d path) (some hs))

  comp_path-Found :
      (path : FilePath)
      → str_eq path root_path ≡ false
      → fh_valid (comp_path fs fh path false) ≡ true
      → Found path
  comp_path-Found path not_root valid =
      go (fs.lstat path) refl (components fs fh_maxlen [] (tail path)) refl
    where
      refuted : comp_path fs fh path false ≡ invalid_fh → ⊥
      refuted e = cc (ap fh_valid e, invalid)

      go :
          (found : Option Stat)
          → fs.lstat path ≡ found
          → (hashes : Option (List ℕ)) → components fs fh_maxlen [] (tail path) ≡ hashes
          → Found path
      go none e hashes c = absurd (refuted (missing path e))
      go (some d) e none c =
          absurd (refuted (present path d none not_root e c ∙ unfold with_components in refl))
      go (some d) e (some hs) c = (d, hs, e, c, present path d (some hs) not_root e c)

  -- The array of a handle that has the hashes `hs`.
  hashes_eq :
      (path : FilePath) (d : Stat) (hs : List ℕ)
      → let new = with_components (with_stat fs fh d path) (some hs) in
        (new.len ≡ length hs) × (take new.len new.inos ≡ hs)
  unfolding with_components
  hashes_eq path d hs = (refl, take-append_self hs _)

  hashes_length :
      (path : FilePath) (d : Stat) (hs : List ℕ)
      → length fh.inos ≡ fh_maxlen
      → length hs ≤ fh_maxlen
      → length (with_components (with_stat fs fh d path) (some hs)).inos ≡ fh_maxlen
  unfolding with_components
  hashes_length path d hs array small =
      omega (arith, length-append hs (drop (length hs) fh.inos), length-drop (length hs) fh.inos)

  -- One hash more in the array is one component more in the handle.
  with_components-Extends :
      (dir child : FilePath) (d b : Stat) (hs : List ℕ)
      → length fh.inos ≡ fh_maxlen
      → length hs < fh_maxlen
      → Extends
          (with_components (with_stat fs fh d dir) (some hs))
          (with_components (with_stat fs fh b child) (some (hs ++ (fh_hash b.st_ino ∷ []))))
          (b.st_dev % 2 ^ 32)
          b.st_ino
          (fs.get_gen b child)
          fh.pwhash
  with_components-Extends dir child d b hs array small = record {
    dev_new = unfold with_components in refl;
    ino_new = unfold with_components in refl;
    gen_new = unfold with_components in refl;
    pwhash_new = unfold with_components in refl;
    len_new = unfold with_components in length-append hs (fh_hash b.st_ino ∷ []);
    inos_new =
        (hashes_eq child b longer).1
        ∙ ap (λ l. l ++ (fh_hash b.st_ino ∷ [])) (sym (hashes_eq dir d hs).1);
    array_new =
        hashes_length child b longer array (omega (arith, length-append hs (fh_hash b.st_ino ∷ [])))
        ∙ sym (hashes_length dir d hs array (omega arith));
  }
    where
      longer : List ℕ
      longer = hs ++ (fh_hash b.st_ino ∷ [])

module _ (fs : FileSystem) (exports : Exports) (junk : Fh) (cs name : FilePath) where
  abbrev dir : FilePath
  dir = slash ∷ cs

  abbrev child : FilePath
  child = dir ++ (slash ∷ name)

  abbrev composed : FilePath → Fh
  composed path = fh_comp_raw fs exports junk path false false

  -- `fh_comp_raw` without a request and without the test for a directory: if a directory other than
  -- the root has a handle, and an object exists under a name in it that holds no '/', then composing
  -- the object's own handle gives the directory's handle extended by the object, with the low 32 bits
  -- of its device, or the invalid handle if the directory's is full. The array has its 43 bytes.
  pub comp-child-Extends :
      (b : Stat)
      → str_eq dir root_path ≡ false
      → fh_valid (composed dir) ≡ true
      → IsName name
      → fs.lstat child ≡ some b
      → length junk.inos ≡ fh_maxlen
      → (((composed dir).len < fh_maxlen)
          × Extends
              (composed dir)
              (composed child)
              (b.st_dev % 2 ^ 32)
              b.st_ino
              (fs.get_gen b child)
              junk.pwhash)
        ⊎ (((composed dir).len ≡ fh_maxlen) × (composed child ≡ invalid_fh))
  unfolding fh_comp_raw tail
  comp-child-Extends b not_root valid is_name at_child array =
      go (comp_path-Found fs fh dir not_root valid)
    where
      fh : Fh
      fh = record junk { len = 0 }

      child_eq :
          (hs : List ℕ)
          → components fs fh_maxlen [] cs ≡ some hs
          → composed child
            ≡ with_components
                (with_stat fs fh b child)
                (extended fs fh_maxlen hs (fh_hash b.st_ino))
      child_eq hs e =
          present fs fh child b _ (below_root slash cs name) at_child
            (components-Snoc fs name is_name b fh_maxlen [] cs hs e at_child)

      go :
          Found fs fh dir
          → (((composed dir).len < fh_maxlen)
              × Extends
                  (composed dir)
                  (composed child)
                  (b.st_dev % 2 ^ 32)
                  b.st_ino
                  (fs.get_gen b child)
                  junk.pwhash)
            ⊎ (((composed dir).len ≡ fh_maxlen) × (composed child ≡ invalid_fh))
      go (d, hs, e, comps, eq) = elim (Bool-cases (ltb (length hs) fh_maxlen)) [
        | inl room ↦
            let small : length hs < fh_maxlen = ltb→lt _ _ room in
            let new : composed child
                ≡ with_components (with_stat fs fh b child) (some (hs ++ (fh_hash b.st_ino ∷ []))) =
              child_eq hs comps ∙ ap (with_components (with_stat fs fh b child)) (rw room) in
            inl (
              rw eq (omega (arith, (hashes_eq fs fh dir d hs).0)),
              rw (eq, new) (with_components-Extends fs fh dir child d b hs array small),
            )
        | inr full ↦ inr (
          rw eq (
              omega (
                arith,
                (hashes_eq fs fh dir d hs).0,
                components-bound fs fh_maxlen [] cs hs comps,
                not_lt _ _ full,
              )),
          child_eq hs comps
              ∙ ap (with_components (with_stat fs fh b child)) {y = none} (rw full)
              ∙ no_components (with_stat fs fh b child),
        )
      ]
