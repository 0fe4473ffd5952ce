-- ===== src/Exports/Build/Options.antt =====
-- Config/exports.y: add_option and add_option_with_value.
use unfs3_raft.Base.{ℕ, ◌+◌, ◌-◌, ◌^◌, List, [], ◌∷◌, take, if◌then◌else◌}
use unfs3_raft.Fs.{str_eq}
use unfs3_raft.User.{has_bit}
use unfs3_raft.Exports.{Host, fnv1a_32}

-- The rules for `opt`.
pub data Opt : Type 0 where
  flag : List ℕ → Opt
  valued : List ℕ → List ℕ → Opt

-- PASSWORD_MAXLEN
abbrev pub password_maxlen : ℕ
password_maxlen = 64

-- `options |= 1 << i` and `options &= ~(1 << i)`
unfoldable pub set_bit : ℕ → ℕ → ℕ
set_bit options i = if has_bit options i then options else options + 2 ^ i

unfoldable pub clear_bit : ℕ → ℕ → ℕ
clear_bit options i = if has_bit options i then options - 2 ^ i else options

abbrev pub opt_no_root_squash : List ℕ
opt_no_root_squash =
    b'n' ∷ b'o' ∷ b'_' ∷ b'r' ∷ b'o' ∷ b'o' ∷ b't' ∷ b'_' ∷ b's' ∷ b'q' ∷ b'u' ∷ b'a' ∷ b's' ∷ b'h'
    ∷ []

abbrev pub opt_root_squash : List ℕ
opt_root_squash = b'r' ∷ b'o' ∷ b'o' ∷ b't' ∷ b'_' ∷ b's' ∷ b'q' ∷ b'u' ∷ b'a' ∷ b's' ∷ b'h' ∷ []

abbrev pub opt_all_squash : List ℕ
opt_all_squash = b'a' ∷ b'l' ∷ b'l' ∷ b'_' ∷ b's' ∷ b'q' ∷ b'u' ∷ b'a' ∷ b's' ∷ b'h' ∷ []

abbrev pub opt_no_all_squash : List ℕ
opt_no_all_squash =
    b'n' ∷ b'o' ∷ b'_' ∷ b'a' ∷ b'l' ∷ b'l' ∷ b'_' ∷ b's' ∷ b'q' ∷ b'u' ∷ b'a' ∷ b's' ∷ b'h' ∷ []

abbrev pub opt_rw : List ℕ
opt_rw = b'r' ∷ b'w' ∷ []

abbrev pub opt_ro : List ℕ
opt_ro = b'r' ∷ b'o' ∷ []

abbrev pub opt_removable : List ℕ
opt_removable = b'r' ∷ b'e' ∷ b'm' ∷ b'o' ∷ b'v' ∷ b'a' ∷ b'b' ∷ b'l' ∷ b'e' ∷ []

abbrev pub opt_fixed : List ℕ
opt_fixed = b'f' ∷ b'i' ∷ b'x' ∷ b'e' ∷ b'd' ∷ []

abbrev pub opt_insecure : List ℕ
opt_insecure = b'i' ∷ b'n' ∷ b's' ∷ b'e' ∷ b'c' ∷ b'u' ∷ b'r' ∷ b'e' ∷ []

abbrev pub opt_secure : List ℕ
opt_secure = b's' ∷ b'e' ∷ b'c' ∷ b'u' ∷ b'r' ∷ b'e' ∷ []

abbrev pub opt_password : List ℕ
opt_password = b'p' ∷ b'a' ∷ b's' ∷ b's' ∷ b'w' ∷ b'o' ∷ b'r' ∷ b'd' ∷ []

abbrev pub opt_anonuid : List ℕ
opt_anonuid = b'a' ∷ b'n' ∷ b'o' ∷ b'n' ∷ b'u' ∷ b'i' ∷ b'd' ∷ []

abbrev pub opt_anongid : List ℕ
opt_anongid = b'a' ∷ b'n' ∷ b'o' ∷ b'n' ∷ b'g' ∷ b'i' ∷ b'd' ∷ []

-- The bits are OPT_NO_ROOT_SQUASH, OPT_ALL_SQUASH, OPT_RW, OPT_REMOVABLE and OPT_INSECURE. An option
-- that is not known is logged.
unfoldable pub add_option : List ℕ → Host → Host
add_option opt host =
    if str_eq opt opt_no_root_squash
    then record host { options = set_bit host.options 0 }
    else if str_eq opt opt_root_squash
    then record host { options = clear_bit host.options 0 }
    else if str_eq opt opt_all_squash
    then record host { options = set_bit host.options 1 }
    else if str_eq opt opt_no_all_squash
    then record host { options = clear_bit host.options 1 }
    else if str_eq opt opt_rw
    then record host { options = set_bit host.options 2 }
    else if str_eq opt opt_ro
    then record host { options = clear_bit host.options 2 }
    else if str_eq opt opt_removable
    then record host { options = set_bit host.options 3 }
    else if str_eq opt opt_fixed
    then record host { options = clear_bit host.options 3 }
    else if str_eq opt opt_insecure
    then record host { options = set_bit host.options 4 }
    else if str_eq opt opt_secure
    then record host { options = clear_bit host.options 4 }
    else host

-- What `strncpy` and the terminator behind it leave of a password.
unfoldable pub set_password : List ℕ → Host → Host
set_password val host =
    let kept = take password_maxlen val in
    record host { password = kept; password_hash = fnv1a_32 kept }

-- `atoi` gives the bit pattern of its `int`.
module _ (atoi : List ℕ → ℕ) where
  unfoldable pub add_option_with_value : List ℕ → List ℕ → Host → Host
  add_option_with_value opt val host =
      if str_eq opt opt_password
      then set_password val host
      else if str_eq opt opt_anonuid
      then record host { anonuid = atoi val }
      else if str_eq opt opt_anongid
      then record host { anongid = atoi val }
      else host

  unfoldable pub add_opt : Opt → Host → Host
  add_opt (flag opt) host = add_option opt host
  add_opt (valued opt val) host = add_option_with_value opt val host
