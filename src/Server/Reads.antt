-- ===== src/Server/Reads.antt =====
-- Functions that leave the file system as it is, one rule for each way to build one.
use unfs3_raft.Base.{◌≡◌, refl, ap, ◌∙◌, Bool, true, false, Option, none, some}
use mathlib.Core.Option.{some-injective}
use unfs3_raft.Server.{Server, Run, ◌>>=◌, pure, lift, gets, call, when, modify}
use unfs3_raft.Server.Inversion.{>>=-eq-some}

module _ {Os V : Type 0} (view : Os → V) where
  -- If it ends, `view` sees in the system what it saw before.
  pub record Reads {A : Type 0} (m : Run Os A) : Type 0 where
    pub same : (s s' : Server Os) (a : A) → m s ≡ some (a, s') → view s'.os ≡ view s.os

  -- A run whose state is known.
  pub Reads-state :
      {A : Type 0} (m : Run Os A) (value : Server Os → A) (state : Server Os → Server Os)
      → ((s : Server Os) → m s ≡ some (value s, state s))
      → ((s : Server Os) → view (state s).os ≡ view s.os)
      → Reads m
  Reads-state {A} m value state ends kept = record {
    same = λ s s' a h.
        let e : state s ≡ s' =
          ap (λ (r : A × Server Os). r.1)
            (some-injective (value s, state s) (a, s') (cc (ends s, h))) in
        rw (← e) (kept s);
  }

  module _ {A : Type 0} where
    pub Reads-pure : (a : A) → Reads (pure a)
    Reads-pure a = Reads-state (pure a) (λ s. a) (λ s. s) (λ s. refl) (λ s. refl)

    pub Reads-lift : (o : Option A) → Reads (lift o)
    Reads-lift none = record { same = λ s s' a h. absurd (cc h) }
    Reads-lift (some a) = Reads-pure a

    pub Reads-gets : (f : Server Os → A) → Reads (gets f)
    Reads-gets f = Reads-state (gets f) f (λ s. s) (λ s. refl) (λ s. refl)

    pub Reads-call : (f : Os → Os × A) → ((os : Os) → view (f os).0 ≡ view os) → Reads (call f)
    Reads-call f kept =
        Reads-state (call f) (λ s. (f s.os).1) (λ s. record s { os = (f s.os).0 }) (λ s. refl)
          (λ s. kept s.os)

    pub Reads-when : (b : Bool) (m n : Run Os A) → Reads m → Reads n → Reads (when b m n)
    Reads-when true m n reads others = reads
    Reads-when false m n reads others = others

  pub Reads-modify :
      (f : Server Os → Server Os) → ((s : Server Os) → view (f s).os ≡ view s.os) → Reads (modify f)
  Reads-modify f kept = Reads-state (modify f) (λ s. true) f (λ s. refl) kept

  pub Reads-bind :
      {A B : Type 0} (m : Run Os A) (f : A → Run Os B)
      → Reads m
      → ((a : A) → Reads (f a))
      → Reads (m >>= f)
  Reads-bind m f first then_reads = record {
    same = λ s s2 b h.
        let (a, s1, e, rest) = >>=-eq-some m f s h in
        (then_reads a).same s1 s2 b rest ∙ first.same s s1 a e;
  }

  -- A run that looks at the state first.
  pub Reads-look :
      {A X : Type 0} (look : Server Os → X) (f : X → Run Os A)
      → ((x : X) → Reads (f x))
      → Reads (λ s. f (look s) s)
  Reads-look look f reads = record { same = λ s s' a h. (reads (look s)).same s s' a h }

pub ruleset reads_rules = (Reads-pure, Reads-lift, Reads-gets, Reads-when, Reads-bind)
