-- ===== src/Exports/Build/Hosts.antt =====
-- Config/exports.y: the functions that fill in the address of the current host.
use unfs3_raft.Base.{
  ℕ, zero, suc, ◌+◌, ◌-◌, ◌%◌, ◌^◌, Bool, true, false, not, ◌&&◌, ◌||◌, List, [], ◌∷◌, Option, none,
  some, length, get_or, ltb, ◌==◌, if◌then◌else◌,
}
use unfs3_raft.Fs.{FilePath, slash, nfs_maxpathlen}
use unfs3_raft.User.{has_bit, anon_notspecial}
use unfs3_raft.Exports.{Host}

-- Functions of the C library. `inet_pton` gives whether it succeeded and what is in its buffer then;
-- for an IPv6 address the buffer was in use before. Addresses are words in host order.
pub record Resolver : Type 0 where
  pub inet_pton4 : List ℕ → Bool × ℕ
  pub inet_pton6 : List ℕ → List ℕ → Bool × List ℕ
  -- the first address
  pub gethostbyname : List ℕ → Option ℕ
  pub realpath : FilePath → Option FilePath
  pub atoi : List ℕ → ℕ

-- The tokens that stand for `name`.
pub data Name : Type 0 where
  id ipv4 ipv6 ipv6_net ipv4_net old_net : List ℕ → Name

-- `cur_host` and `e_error`.
abbrev pub Current : Type 0
Current = Host × Bool

abbrev pub anon_orig : List ℕ
anon_orig = b'<' ∷ b'a' ∷ b'n' ∷ b'o' ∷ b'n' ∷ b' ' ∷ b'c' ∷ b'l' ∷ b'n' ∷ b't' ∷ b'>' ∷ []

-- What `clear_host` leaves.
abbrev pub anon_host : Host
anon_host = record {
  orig = anon_orig;
  options = 0;
  password = [];
  password_hash = 0;
  addr = 0 ∷ 0 ∷ 0 ∷ 0 ∷ [];
  prefix = 0;
  anonuid = anon_notspecial;
  anongid = anon_notspecial;
}

-- An IPv4 address in an IPv6 one.
abbrev pub mapped : ℕ → List ℕ
mapped s_addr = 0 ∷ 0 ∷ 0xffff ∷ s_addr ∷ []

-- IN6_IS_ADDR_V4COMPAT
unfoldable pub is_v4compat : List ℕ → Bool
is_v4compat a =
    ((get_or a 0 0 == 0) && (get_or a 1 0 == 0)) && ((get_or a 2 0 == 0) && ltb 1 (get_or a 3 0))

unfoldable pub to_mapped : List ℕ → List ℕ
to_mapped a = if is_v4compat a then mapped (get_or a 3 0) else a

-- `strchr(addr, '/')`: what stands before the first slash and behind it.
unfoldable pub before_slash : List ℕ → List ℕ
before_slash [] = []
before_slash (c ∷ cs) = if c == slash then [] else c ∷ before_slash cs

unfoldable pub after_slash : List ℕ → List ℕ
after_slash [] = []
after_slash (c ∷ cs) = if c == slash then cs else after_slash cs

-- The first loop of `make_prefix`, over `left` bits from `i` on: `i` and `prefix` after it.
unfoldable pub first_bit : ℕ → ℕ → ℕ → ℕ × ℕ
first_bit haddr zero i = (i, 0)
first_bit haddr (suc left) i =
    let rest = first_bit haddr left (i + 1) in if has_bit haddr i then (i, 32 - i) else rest

-- The second loop: whether no bit from `i` on is missing.
unfoldable pub all_bits : ℕ → ℕ → ℕ → Bool
all_bits haddr zero i = true
all_bits haddr (suc left) i = has_bit haddr i && all_bits haddr left (i + 1)

-- The prefix of a mask, and whether there was no error.
unfoldable pub prefix_of : ℕ → ℕ × Bool
prefix_of haddr = let (i, prefix) = first_bit haddr 32 0 in (prefix, all_bits haddr (32 - i) i)

-- Sums with 96 are of `unsigned` numbers.
abbrev pub v4_prefix : ℕ → ℕ
v4_prefix n = (n + 96) % 2 ^ 32

module _ (r : Resolver) where
  unfoldable pub set_hostname : List ℕ → Current → Current
  set_hostname name (host, e) =
      if ltb nfs_maxpathlen (length name + 1) then (host, true) else elim (r.gethostbyname name) [
        | none ↦ (record host { orig = name }, true)
        | some s_addr ↦ (record host { orig = name; addr = mapped s_addr; prefix = 128 }, e)
      ]

  unfoldable pub set_ipv4addr : List ℕ → Current → Current
  set_ipv4addr addr (host, e) =
      let (ok, s_addr) = r.inet_pton4 addr in
      (record host { orig = addr; addr = mapped s_addr; prefix = 128 }, e || not ok)

  unfoldable pub set_ipv6addr : List ℕ → Current → Current
  set_ipv6addr addr (host, e) =
      let (ok, words) = r.inet_pton6 addr host.addr in
      (record host { orig = addr; addr = to_mapped words; prefix = 128 }, e || not ok)

  unfoldable pub make_prefix : List ℕ → ℕ × Bool
  make_prefix mask =
      let (ok, haddr) = r.inet_pton4 mask in if ok then prefix_of haddr else (0, false)

  unfoldable pub set_ipv4net : List ℕ → Current → Current
  set_ipv4net addr cur =
      let (host, e) = set_ipv4addr (before_slash addr) cur in
      (record host { orig = addr; prefix = v4_prefix (r.atoi (after_slash addr)) }, e)

  unfoldable pub set_ipv6net : List ℕ → Current → Current
  set_ipv6net addr cur =
      let (host, e) = set_ipv6addr (before_slash addr) cur in
      (record host { orig = addr; prefix = r.atoi (after_slash addr) }, e)

  unfoldable pub set_oldnet : List ℕ → Current → Current
  set_oldnet addr cur =
      let (host, e) = set_ipv4addr (before_slash addr) cur in
      let (prefix, ok) = make_prefix (after_slash addr) in
      (record host { orig = addr; prefix = v4_prefix prefix }, e || not ok)

  unfoldable pub set_name : Name → Current → Current
  set_name (id name) cur = set_hostname name cur
  set_name (ipv4 addr) cur = set_ipv4addr addr cur
  set_name (ipv6 addr) cur = set_ipv6addr addr cur
  set_name (ipv6_net addr) cur = set_ipv6net addr cur
  set_name (ipv4_net addr) cur = set_ipv4net addr cur
  set_name (old_net addr) cur = set_oldnet addr cur
