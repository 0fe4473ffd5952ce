-- ===== src/Proc/Within.antt =====
-- Where a name of the protocol can lead.
use unfs3_raft.Base.{
  ◌+◌, ◌<◌, ◌≤◌, ◌≢◌, ◌≡◌, refl, ap, true, false, ◌||◌, [], ◌∷◌, ◌++◌, none, some, ◌⊎◌, inl, inr,
  length, ltb, ltb→lt, not_lt, ◌==◌, arith, ==_iff, Bool-cases, if_intro,
}
use unfs3_raft.Fs.{FilePath, slash, root_path, dot, dot_dot, nfs_maxpathlen, str_eq}
use unfs3_raft.Exports.Text.{str_eq→≡}
use unfs3_raft.Nfs.{Nfsstat3, nfs3_ok, nfs3err_acces, nfs3err_nametoolong}
use unfs3_raft.Proc.{has_slash, before_last, parent, cat_name}

-- A name of an entry of a directory.
pub record IsEntryName (name : FilePath) : Type 0 where
  pub non_empty : (length name == 0) ≡ false
  pub one_part : has_slash name ≡ false
  pub not_dot : str_eq name dot ≡ false
  pub not_dot_dot : str_eq name dot_dot ≡ false

-- The directory that holds `path`: what stands before its last slash, or the root if nothing does.
unfoldable pub IsParent : FilePath → FilePath → Type 0
IsParent path dir =
    ((dir ≡ root_path) × (has_slash path ≡ false))
    ⊎ ((dir ≡ root_path) × (last : FilePath) × (path ≡ slash ∷ last) × (has_slash last ≡ false))
    ⊎ ((dir ≢ []) × (last : FilePath) × (path ≡ dir ++ (slash ∷ last)) × (has_slash last ≡ false))

unfoldable pub IsWithin : FilePath → FilePath → FilePath → Type 0
IsWithin path name obj =
    ((name ≡ dot) × (obj ≡ path))
    ⊎ ((name ≡ dot_dot) × IsParent path obj)
    ⊎ (IsEntryName name × (obj ≡ path ++ (slash ∷ name)))

length_append : (xs ys : FilePath) → length (xs ++ ys) ≡ length xs + length ys
length_append [] ys = omega arith
length_append (x ∷ xs) ys = omega (arith, length_append xs ys)

before_last_lem :
    (path : FilePath)
    → ((before_last path ≡ none) × (has_slash path ≡ false))
      ⊎ ((front : FilePath) × (last : FilePath) × (before_last path ≡ some front)
          × (path ≡ front ++ (slash ∷ last))
          × (has_slash last ≡ false))
unfolding before_last has_slash
before_last_lem [] = inl (refl, refl)
before_last_lem (c ∷ cs) = elim (before_last_lem cs) [
  | inl (e, h) ↦ elim (Bool-cases (c == slash)) [
    | inl t ↦ inr ([], cs, rw (e, t) refl, ap (λ x. x ∷ cs) ((==_iff c slash).0 t), h)
    | inr f ↦ inl (rw (e, f) refl, rw (f, h) refl)
  ]
  | inr (front, last, e, split, h) ↦ inr (c ∷ front, last, rw e refl, ap (◌∷◌ c) split, h)
]

parent-IsParent : (path : FilePath) → IsParent path (parent path)
unfolding IsParent parent has_slash
parent-IsParent path = elim (before_last_lem path) [
  | inl (e, h) ↦ rw (e, parent) (inl (refl, h))
  | inr ([], last, e, split, h) ↦ rw (e, parent) (inr (inl (refl, last, split, h)))
  | inr (c ∷ cs, last, e, split, h) ↦
      rw (e, parent) (inr (inr (λ k. absurd (cc k), last, split, h)))
]

above_lt :
    (path dir : FilePath)
    → IsParent path dir
    → length path < nfs_maxpathlen
    → length dir < nfs_maxpathlen
unfolding IsParent
above_lt path dir (inl (e, _)) h = rw e (omega arith)
above_lt path dir (inr (inl (e, last, split, no_slash))) h = rw e (omega arith)
above_lt path dir (inr (inr (_, last, split, no_slash))) h =
    omega (arith, ap length split, length_append dir (slash ∷ last))

-- The three outcomes, of which no two are possible for one name.
abbrev pub IsSettled : FilePath → FilePath → Nfsstat3 × FilePath → Type 0
IsSettled path name result =
    ((result.0 ≡ nfs3_ok)
      × (length path + length name + 2 ≤ nfs_maxpathlen)
      × IsWithin path name result.1
      × (length result.1 < nfs_maxpathlen))
    ⊎ ((result.0 ≡ nfs3err_acces) × (((length name == 0) || has_slash name) ≡ true))
    ⊎ ((result.0 ≡ nfs3err_nametoolong)
        × (((length name == 0) || has_slash name) ≡ false)
        × (nfs_maxpathlen < length path + length name + 2))

-- In a directory whose path fits its array, a name that is empty or has a slash is refused with
-- NFS3ERR_ACCES, and another one that is too long with NFS3ERR_NAMETOOLONG. All else is accepted: "."
-- leads to the directory itself, ".." to the directory before the last slash of its path, or to the
-- root, and any other name to the entry of the directory with this name; the path fits its array.
pub cat_name-IsWithin :
    (path name : FilePath)
    → length path < nfs_maxpathlen
    → IsSettled path name (cat_name (some path) name)
unfolding cat_name IsWithin
cat_name-IsWithin path name small =
    if_intro {A = Nfsstat3 × FilePath} (IsSettled path name) ((length name == 0) || has_slash name)
      _ _ (λ bad. inr (inl (refl, bad)))
      (λ good.
        if_intro {A = Nfsstat3 × FilePath} (IsSettled path name)
          (ltb nfs_maxpathlen (length path + length name + 2)) _ _
          (λ long. inr (inr (refl, good, ltb→lt nfs_maxpathlen _ long)))
          (λ short.
            if_intro {A = Nfsstat3 × FilePath} (IsSettled path name) (str_eq name dot) _ _
              (λ d.
                inl (refl, not_lt nfs_maxpathlen _ short, inl (str_eq→≡ name dot d, refl), small))
              (λ d.
                if_intro {A = Nfsstat3 × FilePath} (IsSettled path name) (str_eq name dot_dot) _ _
                  (λ dd. inl (
                    refl,
                    not_lt nfs_maxpathlen _ short,
                    inr (inl (str_eq→≡ name dot_dot dd, parent-IsParent path)),
                    above_lt path (parent path) (parent-IsParent path) small,
                  ))
                  (λ dd. inl (
                    refl,
                    not_lt nfs_maxpathlen _ short,
                    inr (inr (entry_name good d dd, refl)),
                    omega (arith, length_append path (slash ∷ name), not_lt nfs_maxpathlen _ short),
                  )))))
  where
    entry_name :
        ((length name == 0) || has_slash name) ≡ false
        → str_eq name dot ≡ false
        → str_eq name dot_dot ≡ false
        → IsEntryName name
    entry_name good d dd = record {
      non_empty = ground arith;
      one_part = ground arith;
      not_dot = d;
      not_dot_dot = dd;
    }
