-- ===== src/Exports/Normpath.antt =====
-- Normalized export paths.
use unfs3_raft.Base.{
  ℕ, ◌≡◌, refl, ap, false, ◌&&◌, [], ◌∷◌, ◌==◌, if◌then◌else◌, arith, Bool-cases, inl, inr,
}
use unfs3_raft.Fs.{FilePath, slash}
use unfs3_raft.Exports.{squeeze, drop_last_slash, remove_trailing, normpath}

-- No two slashes stand together.
abbrev pub IsSqueezed : FilePath → Type 0
IsSqueezed [] = Unit {0}
IsSqueezed (c ∷ []) = Unit {0}
IsSqueezed (c ∷ d ∷ cs) = (((c == slash) && (d == slash)) ≡ false) × IsSqueezed (d ∷ cs)

-- The last character is no slash.
abbrev pub NoTrailing : FilePath → Type 0
NoTrailing [] = Unit {0}
NoTrailing (c ∷ []) = (c == slash) ≡ false
NoTrailing (c ∷ d ∷ cs) = NoTrailing (d ∷ cs)

abbrev pub IsNormal : FilePath → Type 0
IsNormal [] = Unit {0}
IsNormal (c ∷ []) = Unit {0}
IsNormal (c ∷ d ∷ cs) = IsSqueezed (c ∷ d ∷ cs) × NoTrailing (d ∷ cs)

-- The first character stays.
abbrev StartsWith : ℕ → FilePath → Type 0
StartsWith c [] = ⊥
StartsWith c (x ∷ xs) = c ≡ x

squeeze_step :
    (c d : ℕ) (p : FilePath)
    → StartsWith d p
    → IsSqueezed p
    → IsSqueezed (if (c == slash) && (d == slash) then p else c ∷ p)
      × StartsWith c (if (c == slash) && (d == slash) then p else c ∷ p)
squeeze_step c d [] h s = absurd h
squeeze_step c d (x ∷ xs) h s = ground arith

squeeze-IsSqueezed :
    (c : ℕ) (cs : FilePath) → IsSqueezed (squeeze (c ∷ cs)) × StartsWith c (squeeze (c ∷ cs))
unfolding squeeze
squeeze-IsSqueezed c [] = (tt, refl)
squeeze-IsSqueezed c (d ∷ cs) =
    let rest = squeeze-IsSqueezed d cs in squeeze_step c d (squeeze (d ∷ cs)) rest.1 rest.0

squeeze_fixed : (p : FilePath) → IsSqueezed p → squeeze p ≡ p
unfolding squeeze
squeeze_fixed [] s = refl
squeeze_fixed (c ∷ []) s = refl
squeeze_fixed (c ∷ d ∷ cs) s = rw s.0 (ap (◌∷◌ c) (squeeze_fixed (d ∷ cs) s.1))

drop_last_slash_lem :
    (c d : ℕ) (cs : FilePath)
    → IsSqueezed (c ∷ d ∷ cs)
    → IsSqueezed (c ∷ drop_last_slash (d ∷ cs)) × NoTrailing (c ∷ drop_last_slash (d ∷ cs))
unfolding drop_last_slash
drop_last_slash_lem c d [] s = elim (Bool-cases (d == slash)) [
  | inl last ↦ rw last (tt, ground (arith, s.0))
  | inr other ↦ rw other (s, other)
]
drop_last_slash_lem c d (x ∷ xs) s =
    let rest = drop_last_slash_lem d x xs s.1 in ((s.0, rest.0), rest.1)

squeezed-IsNormal : (p : FilePath) → IsSqueezed p → NoTrailing p → IsNormal p
squeezed-IsNormal [] s t = tt
squeezed-IsNormal (c ∷ []) s t = tt
squeezed-IsNormal (c ∷ d ∷ cs) s t = (s, t)

remove_trailing-IsNormal : (p : FilePath) → IsSqueezed p → IsNormal (remove_trailing p)
unfolding remove_trailing
remove_trailing-IsNormal [] s = tt
remove_trailing-IsNormal (c ∷ []) s = tt
remove_trailing-IsNormal (c ∷ d ∷ cs) s =
    let both = drop_last_slash_lem c d cs s in
    squeezed-IsNormal (c ∷ drop_last_slash (d ∷ cs)) both.0 both.1

squeezed : (p : FilePath) → IsSqueezed (squeeze p)
squeezed [] = unfold squeeze in tt
squeezed (c ∷ cs) = (squeeze-IsSqueezed c cs).0

drop_fixed : (p : FilePath) → NoTrailing p → drop_last_slash p ≡ p
unfolding drop_last_slash
drop_fixed [] t = refl
drop_fixed (c ∷ []) t = rw t refl
drop_fixed (c ∷ d ∷ cs) t = ap (◌∷◌ c) (drop_fixed (d ∷ cs) t)

normal_fixed : (p : FilePath) → IsNormal p → normpath p ≡ p
unfolding normpath remove_trailing
normal_fixed [] n = unfold squeeze in refl
normal_fixed (c ∷ []) n = unfold squeeze in refl
normal_fixed (c ∷ d ∷ cs) n =
    rw (squeeze_fixed (c ∷ d ∷ cs) n.0) (ap (◌∷◌ c) (drop_fixed (d ∷ cs) n.1))

-- A normalized path has no two slashes in a row and, unless it is one character long, none at its
-- end; a path of this form is left alone, so normalizing twice is normalizing once.
pub normpath-IsNormal :
    (path : FilePath)
    → IsNormal (normpath path)
      × (IsNormal path → normpath path ≡ path)
      × (normpath (normpath path) ≡ normpath path)
normpath-IsNormal path =
    let normal : IsNormal (normpath path) =
      unfold normpath in remove_trailing-IsNormal (squeeze path) (squeezed path) in
    (normal, normal_fixed path, normal_fixed (normpath path) normal)
