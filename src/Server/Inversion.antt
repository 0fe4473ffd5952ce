-- ===== src/Server/Inversion.antt =====
-- What is known of the parts of a run that ends.
use mathlib.Core.Option.{some-injective}
use unfs3_raft.Base.{◌≡◌, refl, ap, Option, none, some}
use unfs3_raft.Server.{Server, Run, ◌>>=◌, lift}

-- What a test on an optional value says.
pub >>=-eq-some {ℓ κ} :
    {Os : Type 0} {A : Type ℓ} {B : Type κ} (m : Run Os A) (f : A → Run Os B) (s : Server Os)
    {r : B × Server Os}
    → (m >>= f) s ≡ some r
    → (a : A) × (s1 : Server Os) × (m s ≡ some (a, s1)) × (f a s1 ≡ some r)
>>=-eq-some {Os = Os} {A = A} {B = B} m f s {r} h = go (m s) refl h
  where
    go :
        (o : Option (A × Server Os))
        → m s ≡ o
        → ◌≡◌ {A = Option (B × Server Os)} (elim o [ none ↦ none | some (a, s') ↦ f a s' ]) (some r)
        → (a : A) × (s1 : Server Os) × (m s ≡ some (a, s1)) × (f a s1 ≡ some r)
    go none e h = absurd (cc h)
    go (some (a, s1)) e h = (a, s1, e, h)

pub lift-eq-some {ℓ} :
    {Os : Type 0} {A : Type ℓ} (o : Option A) (s : Server Os) {a : A} {s1 : Server Os}
    → lift o s ≡ some (a, s1)
    → (o ≡ some a) × (s ≡ s1)
lift-eq-some none s h = absurd (cc h)
lift-eq-some {A = A} (some x) s {a} {s1} h =
    let same = some-injective (x, s) (a, s1) h in
    (ap some (ap (λ (p : A × Server _). p.0) same), ap (λ (p : A × Server _). p.1) same)
