-- ===== src/Fh/Search/Sound.antt =====
-- A path that the search returns names the object of the handle.
use mathlib.Core.Option
use unfs3_raft.Base.{
  ℕ, ◌≡◌, refl, sym, ◌∙◌, true, List, [], ◌∷◌, ◌++◌, Option, none, some, take, ◌==◌, if_intro,
  arith,
}
use unfs3_raft.Fs.{FilePath, slash, root_path, Stat, FileSystem}
use unfs3_raft.Fh.{Fh, fh_valid}
use unfs3_raft.Fh.Search.{
  Found, stat_or_zero, is_object, may_descend, fits_path, or_else, scan, scan_dir, fh_rec,
  fh_decomp_raw,
}

abbrev pub IsAbsolute : FilePath → Type 0
IsAbsolute [] = ⊥
IsAbsolute (c ∷ cs) = c ≡ slash

-- The directory that is searched, without the first '/': nothing for the root.
abbrev IsLead : FilePath → Type 0
IsLead [] = Unit {0}
IsLead (c ∷ cs) = c ≡ slash

absolute_lem : (lead name : FilePath) → IsLead lead → IsAbsolute (lead ++ (slash ∷ name))
absolute_lem [] name h = refl
absolute_lem (c ∷ cs) name h = h

lead_lem : (lead name : FilePath) → IsLead lead → IsLead (lead ++ (slash ∷ name))
lead_lem [] name h = refl
lead_lem (c ∷ cs) name h = h

module _ (fs : FileSystem) (fh : Fh) where
  -- The path begins with a '/'. With a second one in front, as the search writes it, it is that of
  -- the handle's object.
  abbrev pub Names : FilePath → Stat → Type 0
  Names path buf =
      IsAbsolute path
      × (fs.lstat (slash ∷ path) ≡ some buf)
      × (buf.st_dev ≡ fh.dev)
      × (buf.st_ino ≡ fh.ino)

  abbrev pub IsSound : Found → Type 0
  IsSound none = Unit {0}
  IsSound (some (path, buf)) = Names path buf

  -- The root comes back with no buffer; any other path is that of an object with the device and the
  -- inode of the handle, and the buffer is the object's.
  abbrev pub Resolves : Option (FilePath × Option Stat) → Type 0
  Resolves none = Unit {0}
  Resolves (some (path, none)) = (fh.len ≡ 0) × (path ≡ root_path)
  Resolves (some (path, some buf)) =
      (fs.lstat path ≡ some buf) × (buf.st_dev ≡ fh.dev) × (buf.st_ino ≡ fh.ino)

module _ (fs : FileSystem) (fh : Fh) (valid : fh_valid fh ≡ true) where
  -- A failed `lstat` looks like no object of a valid handle.
  object_lem :
      (found : Option Stat) (buf : Stat)
      → is_object fh (stat_or_zero found buf) ≡ true
      → (found ≡ some (stat_or_zero found buf))
        × ((stat_or_zero found buf).st_dev ≡ fh.dev)
        × ((stat_or_zero found buf).st_ino ≡ fh.ino)
  unfolding stat_or_zero fh_valid
  object_lem none buf e = ground (arith, valid)
  object_lem (some new) buf e = ground arith

  or_else-IsSound : (a b : Found) → IsSound fs fh a → IsSound fs fh b → IsSound fs fh (or_else a b)
  or_else-IsSound none b s t = t
  or_else-IsSound (some x) b s t = s

  scan-IsSound :
      (descend : FilePath → Found) (hash : ℕ) (lead : FilePath) (buf : Stat) (names : List FilePath)
      → IsLead lead
      → ((name : FilePath) → IsSound fs fh (descend ((slash ∷ lead) ++ (slash ∷ name))))
      → IsSound fs fh (scan fs fh descend hash (slash ∷ lead) buf names)
  unfolding scan
  scan-IsSound descend hash lead buf [] l h = tt
  scan-IsSound descend hash lead buf (name ∷ names) l h =
      let obj : FilePath = (slash ∷ lead) ++ (slash ∷ name) in
      let buf' : Stat = stat_or_zero (fs.lstat obj) buf in
      let rest : IsSound fs fh (scan fs fh descend hash (slash ∷ lead) buf' names) =
        scan-IsSound descend hash lead buf' names l h in
      if_intro (IsSound fs fh) (fits_path (slash ∷ lead) name) _ _
        (λ _.
          if_intro (IsSound fs fh) (is_object fh buf') _ _
            (λ hit.
              let same = object_lem (fs.lstat obj) buf hit in
              (absolute_lem lead name l, same.0, same.1, same.2))
            (λ _.
              if_intro (IsSound fs fh) (may_descend hash name buf') _ _
                (λ _. or_else-IsSound (descend obj) _ (h name) rest) (λ _. rest)))
        (λ _. scan-IsSound descend hash lead buf names l h)

  scan_dir-IsSound :
      (descend : FilePath → Found) (hash : ℕ) (lead : FilePath) (buf : Stat)
      (names : Option (List FilePath))
      → IsLead lead
      → ((name : FilePath) → IsSound fs fh (descend ((slash ∷ lead) ++ (slash ∷ name))))
      → IsSound fs fh (scan_dir fs fh descend hash (slash ∷ lead) buf names)
  unfolding scan_dir
  scan_dir-IsSound descend hash lead buf none l h = tt
  scan_dir-IsSound descend hash lead buf (some names) l h =
      scan-IsSound descend hash lead buf names l h

  fh_rec-IsSound :
      (junk : Stat) (hashes : List ℕ) (lead : FilePath)
      → IsLead lead
      → IsSound fs fh (fh_rec fs fh junk hashes (slash ∷ lead))
  unfolding fh_rec
  fh_rec-IsSound junk [] lead l = tt
  fh_rec-IsSound junk (hash ∷ hashes) lead l =
      scan_dir-IsSound (fh_rec fs fh junk hashes) hash lead junk (fs.readdir (slash ∷ lead)) l
        (λ name. fh_rec-IsSound junk hashes (lead ++ (slash ∷ name)) (lead_lem lead name l))

  -- Wherever a second '/' at the front of a path changes nothing, a path that `fh_decomp_raw` returns
  -- for a valid handle is the root, for a handle with no component, or resolves to the object with
  -- the handle's device and inode, whose attributes go to the stat cache.
  pub fh_decomp_raw-Resolves :
      (junk : Stat)
      → ((path : FilePath) → fs.lstat (slash ∷ slash ∷ path) ≡ fs.lstat (slash ∷ path))
      → Resolves fs fh (fh_decomp_raw fs fh junk)
  unfolding fh_decomp_raw
  fh_decomp_raw-Resolves junk double_slash =
      if_intro (Resolves fs fh) (fh.len == 0) _ _ (λ root. (ground arith, refl))
        (λ _.
          resolved (fh_rec fs fh junk (take fh.len fh.inos) root_path)
            (fh_rec-IsSound junk (take fh.len fh.inos) [] tt))
    where
      one_slash : (path : FilePath) → IsAbsolute path → fs.lstat (slash ∷ path) ≡ fs.lstat path
      one_slash [] h = absurd h
      one_slash (c ∷ cs) h = rw h (double_slash cs)

      resolved :
          (found : Found)
          → IsSound fs fh found
          → Resolves fs fh (Option.map (λ pair. (pair.0, some pair.1)) found)
      resolved none s = tt
      resolved (some (path, buf)) s = (sym (one_slash path s.0) ∙ s.1, s.2, s.3)
