-- ===== src/Fh/Compose/Child.antt =====
-- The handle of an object is its directory's handle with one component more.
use unfs3_raft.Base.{
  ℕ, zero, suc, ◌≤◌, ◌≡◌, ◌≢◌, refl, sym, ap, ◌∙◌, List, [], ◌∷◌, ◌++◌, append_assoc, Option, none,
  some, length, arith, if◌then◌else◌, ltb, subst, ne→==,
}
use mathlib.Core.Option.{some-injective}
use unfs3_raft.Fs.{FilePath, slash, Stat, FileSystem}
use unfs3_raft.Fh.{fh_hash}
use unfs3_raft.Fh.Compose.{next_slash, prepend, component, components}

-- A file name has no '/'.
abbrev pub IsName : FilePath → Type 0
IsName [] = Unit {0}
IsName (c ∷ cs) = (c ≢ slash) × IsName cs

next_slash-name : (name : FilePath) → IsName name → next_slash name ≡ (name, none)
unfolding next_slash
next_slash-name [] h = refl
next_slash-name (c ∷ cs) h = rw (ne→== c slash h.0, next_slash-name cs h.1)

-- How a search for '/' goes when something is appended behind a further '/'.
abbrev Longer : FilePath → FilePath × Option FilePath → FilePath × Option FilePath
Longer s (front, none) = (front, some s)
Longer s (front, some back) = (front, some (back ++ (slash ∷ s)))

next_slash-append : (p s : FilePath) → next_slash (p ++ (slash ∷ s)) ≡ Longer s (next_slash p)
unfolding next_slash
next_slash-append [] s = refl
next_slash-append (c ∷ cs) s = ground (arith, next_slash-append cs s)

-- A path is cut in two at the '/', or has none.
abbrev Cut : FilePath → FilePath × Option FilePath → Type 0
Cut p (front, none) = p ≡ front
Cut p (front, some back) = p ≡ front ++ (slash ∷ back)

next_slash-Cut : (p : FilePath) → Cut p (next_slash p)
unfolding next_slash
next_slash-Cut [] = refl
next_slash-Cut (c ∷ cs) = ground (arith, next_slash-Cut cs)

module _ (fs : FileSystem) where
  -- One round of the loop, from the cut at the next '/'.
  abbrev round : ℕ → FilePath → FilePath × Option FilePath → Option (List ℕ)
  round room done (front, more) =
      component (components fs room (done ++ (slash ∷ front))) (fs.lstat (done ++ (slash ∷ front)))
        more

  step :
      (room : ℕ) (done rest front : FilePath) (more : Option FilePath) (found : Option Stat)
      → next_slash rest ≡ (front, more)
      → fs.lstat (done ++ (slash ∷ front)) ≡ found
      → components fs (suc room) done rest
        ≡ component (components fs room (done ++ (slash ∷ front))) found more
  step room done rest front more found cut e =
      first
      ∙ ap (round room done) cut
      ∙ ap (λ o. component (components fs room (done ++ (slash ∷ front))) o more) e
    where
      first : components fs (suc room) done rest ≡ round room done (next_slash rest)
      first = unfold components in refl

  step_last :
      (room : ℕ) (done rest front : FilePath) (b : Stat)
      → next_slash rest ≡ (front, none)
      → fs.lstat (done ++ (slash ∷ front)) ≡ some b
      → components fs (suc room) done rest ≡ some (fh_hash b.st_ino ∷ [])
  unfolding component
  step_last room done rest front b cut e = step room done rest front none (some b) cut e

  step_more :
      (room : ℕ) (done rest front back : FilePath) (b : Stat)
      → next_slash rest ≡ (front, some back)
      → fs.lstat (done ++ (slash ∷ front)) ≡ some b
      → components fs (suc room) done rest
        ≡ prepend (fh_hash b.st_ino) (components fs room (done ++ (slash ∷ front)) back)
  unfolding component
  step_more room done rest front back b cut e = step room done rest front (some back) (some b) cut e

  step_gone :
      (room : ℕ) (done rest front : FilePath) (more : Option FilePath)
      → next_slash rest ≡ (front, more)
      → fs.lstat (done ++ (slash ∷ front)) ≡ none
      → components fs (suc room) done rest ≡ none
  unfolding component
  step_gone room done rest front more cut e = step room done rest front more none cut e

  -- One more hash, if there is room for it.
  abbrev pub extended : ℕ → List ℕ → ℕ → Option (List ℕ)
  extended room hs h = if ltb (length hs) room then some (hs ++ (h ∷ [])) else none

  prepend-extended :
      (room h h' : ℕ) (hs : List ℕ)
      → prepend h (extended room hs h') ≡ extended (suc room) (h ∷ hs) h'
  unfolding prepend
  prepend-extended room h h' hs = ground arith

  prepend-eq-some :
      (h : ℕ) (o : Option (List ℕ)) (hs : List ℕ)
      → prepend h o ≡ some hs
      → (hs' : List ℕ) × (o ≡ some hs') × (hs ≡ h ∷ hs')
  unfolding prepend
  prepend-eq-some h none hs e = cc
  prepend-eq-some h (some hs') hs e = (hs', refl, sym (some-injective _ _ e))

  component-bound :
      (room : ℕ) (deeper : FilePath → Option (List ℕ)) (found : Option Stat)
      (more : Option FilePath) (hs : List ℕ)
      → ((rest : FilePath) (hs' : List ℕ) → deeper rest ≡ some hs' → length hs' ≤ room)
      → component deeper found more ≡ some hs
      → length hs ≤ suc room
  unfolding component
  component-bound room deeper none more hs h e = cc
  component-bound room deeper (some b) none hs h e = omega (arith, ap length (some-injective _ _ e))
  component-bound room deeper (some b) (some rest) hs h e =
      let inner = prepend-eq-some (fh_hash b.st_ino) (deeper rest) hs e in
      omega (arith, ap length inner.2, h rest inner.0 inner.1)

  -- There are at most as many components as rounds.
  pub components-bound :
      (room : ℕ) (done rest : FilePath) (hs : List ℕ)
      → components fs room done rest ≡ some hs
      → length hs ≤ room
  unfolding components
  components-bound zero done rest hs e = cc
  components-bound (suc room) done rest hs e =
      component-bound room _ _ _ hs (components-bound room _) e

  module _ (name : FilePath) (is_name : IsName name) (b : Stat) where
    -- The statement for one number of rounds, at every position in the path.
    abbrev Snoc : ℕ → Type 0
    Snoc room =
        (done rest : FilePath) (hs : List ℕ)
        → components fs room done rest ≡ some hs
        → fs.lstat (done ++ (slash ∷ (rest ++ (slash ∷ name)))) ≡ some b
        → components fs room done (rest ++ (slash ∷ name)) ≡ extended room hs (fh_hash b.st_ino)

    -- The name itself, behind a last component that has been read.
    name_lem :
        (room : ℕ) (work : FilePath) (h : ℕ)
        → fs.lstat (work ++ (slash ∷ name)) ≡ some b
        → prepend h (components fs room work name) ≡ extended (suc room) (h ∷ []) (fh_hash b.st_ino)
    unfolding components prepend
    name_lem zero work h e = refl
    name_lem (suc room) work h e =
        rw (step_last room work name name b (next_slash-name name is_name) e) (ground arith)

    regroup :
        (done front s : FilePath)
        → (done ++ (slash ∷ front)) ++ (slash ∷ s) ≡ done ++ (slash ∷ (front ++ (slash ∷ s)))
    regroup done front s = append_assoc done (slash ∷ front) (slash ∷ s)

    -- Longer paths are cut at the same places, and at one more.
    longer :
        (rest front : FilePath) {more : Option FilePath}
        → next_slash rest ≡ (front, more)
        → next_slash (rest ++ (slash ∷ name)) ≡ Longer name (front, more)
    longer rest front c = next_slash-append rest name ∙ ap (Longer name) c

    rest_eq :
        (rest front : FilePath) {more : Option FilePath}
        → next_slash rest ≡ (front, more)
        → Cut rest (front, more)
    rest_eq rest front c = subst (Cut rest) c (next_slash-Cut rest)

    Snoc-step : (room : ℕ) → Snoc room → Snoc (suc room)
    Snoc-step room ih done rest hs e at_name =
        go (next_slash rest).0 (next_slash rest).1 refl
          (fs.lstat (done ++ (slash ∷ (next_slash rest).0))) refl
      where
        go :
            (front : FilePath) (more : Option FilePath)
            → next_slash rest ≡ (front, more)
            → (found : Option Stat) → fs.lstat (done ++ (slash ∷ front)) ≡ found
            → components fs (suc room) done (rest ++ (slash ∷ name))
              ≡ extended (suc room) hs (fh_hash b.st_ino)
        go front more c none g = cc (step_gone room done rest front more c g)
        go front none c (some b0) g =
            step_more room done (rest ++ (slash ∷ name)) front name b0 (longer rest front c) g
            ∙ name_lem room (done ++ (slash ∷ front)) (fh_hash b0.st_ino)
                (ap fs.lstat same_path ∙ at_name)
            ∙ ap (λ l. extended (suc room) l (fh_hash b.st_ino)) hs_eq
          where
            same_path :
                (done ++ (slash ∷ front)) ++ (slash ∷ name)
                ≡ done ++ (slash ∷ (rest ++ (slash ∷ name)))
            same_path =
                regroup done front name
                ∙ ap (λ r. done ++ (slash ∷ (r ++ (slash ∷ name)))) (sym (rest_eq rest front c))

            hs_eq : fh_hash b0.st_ino ∷ [] ≡ hs
            hs_eq = some-injective _ _ (sym (step_last room done rest front b0 c g) ∙ e)
        go front (some back) c (some b0) g =
            step_more room done (rest ++ (slash ∷ name)) front (back ++ (slash ∷ name)) b0
              (longer rest front c) g
            ∙ ap (prepend (fh_hash b0.st_ino)) (
                ih (done ++ (slash ∷ front)) back inner.0 inner.1 (ap fs.lstat same_path ∙ at_name))
            ∙ prepend-extended room (fh_hash b0.st_ino) (fh_hash b.st_ino) inner.0
            ∙ ap (λ l. extended (suc room) l (fh_hash b.st_ino)) (sym inner.2)
          where
            inner :
                (hs' : List ℕ) × (components fs room (done ++ (slash ∷ front)) back ≡ some hs')
                × (hs ≡ fh_hash b0.st_ino ∷ hs')
            inner = prepend-eq-some _ _ hs (sym (step_more room done rest front back b0 c g) ∙ e)

            path_eq : rest ++ (slash ∷ name) ≡ front ++ (slash ∷ (back ++ (slash ∷ name)))
            path_eq =
                ap (λ r. r ++ (slash ∷ name)) (rest_eq rest front c)
                ∙ append_assoc front (slash ∷ back) (slash ∷ name)

            same_path :
                (done ++ (slash ∷ front)) ++ (slash ∷ (back ++ (slash ∷ name)))
                ≡ done ++ (slash ∷ (rest ++ (slash ∷ name)))
            same_path =
                regroup done front (back ++ (slash ∷ name))
                ∙ ap (λ r. done ++ (slash ∷ r)) (sym path_eq)

    pub components-Snoc : (room : ℕ) → Snoc room
    components-Snoc zero done rest hs e at_name = absurd (none_room done rest hs e)
      where
        none_room :
            (done rest : FilePath) (hs : List ℕ) → components fs zero done rest ≡ some hs → ⊥
        none_room done rest hs e = unfold components in cc e
    components-Snoc (suc room) done rest hs e at_name =
        Snoc-step room (components-Snoc room) done rest hs e at_name
