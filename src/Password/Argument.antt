-- ===== src/Password/Argument.antt =====
-- The argument of a mount command.
use unfs3_raft.Base.{
  ℕ, zero, suc, ◌≡◌, ◌≤◌, refl, ap, List, [], ◌∷◌, ◌++◌, true, false, ◌==◌, length, take, drop,
  arith, Bool-cases, ◌⊎◌, inl, inr, drop-append_self,
}
use unfs3_raft.Fs.{slash}
use unfs3_raft.Exports.Build.Hosts.{before_slash}
use unfs3_raft.Password.{mnt_cmd_argument}

abbrev pub NoSlash : List ℕ → Type 0
NoSlash [] = Unit {0}
NoSlash (c ∷ cs) = ((c == slash) ≡ false) × NoSlash cs

-- What is left is nothing or begins with a slash.
abbrev pub IsRest : List ℕ → Type 0
IsRest [] = Unit {0}
IsRest (c ∷ cs) = (c == slash) ≡ true

-- A text cut into an argument of at most `maxlen` characters and what is behind it.
pub record Cuts (maxlen : ℕ) (text arg rest : List ℕ) : Type 0 where
  pub whole : arg ++ rest ≡ text
  pub fits : length arg ≤ maxlen
  pub no_slash : NoSlash arg
  pub ends : (length arg ≡ maxlen) ⊎ IsRest rest

cut :
    (maxlen : ℕ) (text : List ℕ)
    → let arg = before_slash (take maxlen text) in Cuts maxlen text arg (drop (length arg) text)
unfolding before_slash
cut zero text = record { whole = refl; fits = omega arith; no_slash = tt; ends = inl refl }
cut (suc n) [] = record { whole = refl; fits = omega arith; no_slash = tt; ends = inr tt }
cut (suc n) (c ∷ cs) = elim (Bool-cases (c == slash)) [
  | inl here ↦ rw here (record { whole = refl; fits = omega arith; no_slash = tt; ends = inr here })
  | inr other ↦
      let rest = cut n cs in
      rw other (record {
        whole = ap (◌∷◌ c) rest.whole;
        fits = omega (arith, rest.fits);
        no_slash = (other, rest.no_slash);
        ends = elim rest.ends [ inl full ↦ inl (ap suc full) | inr done ↦ inr done ];
      })
]

-- Behind the command, the text is cut at its first slash, or after `maxlen` characters if that is
-- earlier; an argument and a path that were put together are taken apart again.
pub mnt_cmd_argument-Cuts :
    (cmd text : List ℕ) (maxlen : ℕ)
    → let (arg, rest) = mnt_cmd_argument (cmd ++ text) cmd maxlen in Cuts maxlen text arg rest
unfolding mnt_cmd_argument
mnt_cmd_argument-Cuts cmd text maxlen = rw drop-append_self (cut maxlen text)
