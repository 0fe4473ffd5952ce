-- ===== src/Fh/Search/Complete.antt =====
-- An object that lies where its handle says is found, whatever else the directories hold.
use mathlib.Core.Option
use unfs3_raft.Base.{
  ℕ, ◌≡◌, ◌≢◌, refl, subst, ◌⊎◌, inl, inr, true, List, [], ◌∷◌, ◌++◌, Option, none, some, take,
  ne→==, if◌then◌else◌, if_intro,
}
use unfs3_raft.Fs.{FilePath, slash, root_path, Stat, FileSystem}
use unfs3_raft.Fh.{Fh}
use unfs3_raft.Fh.Search.{
  Found, stat_or_zero, is_object, may_descend, fits_path, or_else, scan, scan_dir, fh_rec,
  fh_decomp_raw,
}

abbrev pub IsFound : Found → Type 0
IsFound none = ⊥
IsFound (some found) = Unit {0}

-- A name stands in a directory listing.
abbrev pub Lists : FilePath → List FilePath → Type 0
Lists name [] = ⊥
Lists name (x ∷ xs) = (name ≡ x) ⊎ Lists name xs

or_else-left : (a b : Found) → IsFound a → IsFound (or_else a b)
or_else-left none b h = absurd h
or_else-left (some x) b h = tt

or_else-right : (a b : Found) → IsFound b → IsFound (or_else a b)
or_else-right none b h = h
or_else-right (some x) b h = tt

module _ (fs : FileSystem) (fh : Fh) where
  -- Directories from `lead` on, one for each hash or fewer, that lead to the object: each lists the
  -- next name, and the inode of each directory on the way has its hash.
  pub data Route : List ℕ → FilePath → Type 0 where
    arrive :
        (hash : ℕ) (hashes : List ℕ) (lead name : FilePath) (names : List FilePath) (b : Stat)
        → fs.readdir lead ≡ some names
        → Lists name names
        → fits_path lead name ≡ true
        → fs.lstat (lead ++ (slash ∷ name)) ≡ some b
        → is_object fh b ≡ true
        → Route (hash ∷ hashes) lead
    walk :
        (hash : ℕ) (hashes : List ℕ) (lead name : FilePath) (names : List FilePath) (b : Stat)
        → fs.readdir lead ≡ some names
        → Lists name names
        → fits_path lead name ≡ true
        → fs.lstat (lead ++ (slash ∷ name)) ≡ some b
        → may_descend hash name b ≡ true
        → Route hashes (lead ++ (slash ∷ name))
        → Route (hash ∷ hashes) lead

  module _ (descend : FilePath → Found) (hash : ℕ) (lead name : FilePath) (b : Stat) where
    -- What makes the search stop at an entry, if it gets that far.
    abbrev Leads : Type 0
    Leads =
        (is_object fh b ≡ true)
        ⊎ ((may_descend hash name b ≡ true) × IsFound (descend (lead ++ (slash ∷ name))))

    module _ (fits : fits_path lead name ≡ true)
        (there : fs.lstat (lead ++ (slash ∷ name)) ≡ some b) (leads : Leads) where
      stops :
          (hit : FilePath × Stat) (rest : Found)
          → IsFound (
              if is_object fh b
              then some hit
              else if may_descend hash name b
              then or_else (descend (lead ++ (slash ∷ name))) rest
              else rest)
      stops hit rest = elim leads [
        | inl object ↦
            if_intro IsFound (is_object fh b) _ _ (λ _. tt) (λ miss. absurd (cc (miss, object)))
        | inr (ok, found) ↦
            if_intro IsFound (is_object fh b) _ _ (λ _. tt)
              (λ _.
                if_intro IsFound (may_descend hash name b) _ _ (λ _. or_else-left _ rest found)
                  (λ bad. absurd (cc (bad, ok))))
      ]

      at_entry :
          (buf : Stat) (rest : List FilePath)
          → IsFound (scan fs fh descend hash lead buf (name ∷ rest))
      unfolding scan stat_or_zero
      at_entry buf rest = rw (fits, there) (stops _ _)

      scan-IsFound :
          (buf : Stat) (names : List FilePath)
          → Lists name names
          → IsFound (scan fs fh descend hash lead buf names)
      unfolding scan
      scan-IsFound buf [] h = absurd h
      scan-IsFound buf (x ∷ xs) (inl same) =
          subst (λ y. IsFound (scan fs fh descend hash lead buf (y ∷ xs))) same (at_entry buf xs)
      scan-IsFound buf (x ∷ xs) (inr later) =
          let buf' : Stat = stat_or_zero (fs.lstat (lead ++ (slash ∷ x))) buf in
          let rest : IsFound (scan fs fh descend hash lead buf' xs) = scan-IsFound buf' xs later in
          if_intro IsFound (fits_path lead x) _ _
            (λ _.
              if_intro IsFound (is_object fh buf') _ _ (λ _. tt)
                (λ _.
                  if_intro IsFound (may_descend hash x buf') _ _ (λ _. or_else-right _ _ rest)
                    (λ _. rest)))
            (λ _. scan-IsFound buf xs later)

  listed :
      (descend : FilePath → Found) (hash : ℕ) (lead name : FilePath) (names : List FilePath)
      (b junk : Stat)
      → fs.readdir lead ≡ some names
      → Lists name names
      → fits_path lead name ≡ true
      → fs.lstat (lead ++ (slash ∷ name)) ≡ some b
      → Leads descend hash lead name b
      → IsFound (scan_dir fs fh descend hash lead junk (fs.readdir lead))
  unfolding scan_dir
  listed descend hash lead name names b junk dir l fits there leads =
      rw dir (scan-IsFound descend hash lead name b fits there leads junk names l)

  -- The search finds an object that a route leads to.
  fh_rec-IsFound :
      (junk : Stat) {hashes : List ℕ} {lead : FilePath}
      → Route hashes lead
      → IsFound (fh_rec fs fh junk hashes lead)
  unfolding fh_rec
  fh_rec-IsFound junk (arrive hash hashes lead name names b dir l fits there hit) =
      listed (fh_rec fs fh junk hashes) hash lead name names b junk dir l fits there (inl hit)
  fh_rec-IsFound junk (walk hash hashes lead name names b dir l fits there ok route) =
      listed (fh_rec fs fh junk hashes) hash lead name names b junk dir l fits there
        (inr (ok, fh_rec-IsFound junk route))

  -- A handle with components is resolved if a route from the root, along its hashes, leads to its
  -- object.
  pub fh_decomp_raw-found :
      (junk : Stat)
      → fh.len ≢ 0
      → Route (take fh.len fh.inos) root_path
      → (path : FilePath) × (buf : Stat) × (fh_decomp_raw fs fh junk ≡ some (path, some buf))
  unfolding fh_decomp_raw
  fh_decomp_raw-found junk nonempty route =
      rw (ne→== fh.len 0 nonempty)
        (result (fh_rec fs fh junk (take fh.len fh.inos) root_path) (fh_rec-IsFound junk route))
    where
      result :
          (found : Found)
          → IsFound found
          → (path : FilePath) × (buf : Stat) × (Option.map {B = FilePath × Option Stat}
                (λ pair. (pair.0, some pair.1))
                found
              ≡ some (path, some buf))
      result none h = absurd h
      result (some (path, buf)) h = (path, buf, refl)
