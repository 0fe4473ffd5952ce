-- ===== src/Daemon/Options/Ports.antt =====
-- The ports that the options leave.
use unfs3_raft.Base.{ℕ, ◌≡◌, ◌≢◌, List, [], ◌∷◌, Option, none, some, arith}
use unfs3_raft.Exports.Build.Hosts.{Resolver}
use unfs3_raft.Daemon.Options.{CommandLine, set_exports, set_bind_addr, parse_option, parse_options}

-- Neither -m nor -n is among the options.
abbrev pub NoPort : List (ℕ × List ℕ) → Type 0
NoPort [] = Unit {0}
NoPort ((opt, optarg) ∷ opts) = ((opt ≢ b'm') × (opt ≢ b'n')) × NoPort opts

abbrev SamePort : Option CommandLine → Type 0
SamePort none = Unit {0}
SamePort (some line) = line.opt_mount_port ≡ line.opt_nfs_port

module _ (r : Resolver) (strtol : List ℕ → ℕ) where
  parse_option-SamePort :
      (opt : ℕ) (optarg : List ℕ) (line : CommandLine)
      → opt ≢ b'm'
      → opt ≢ b'n'
      → line.opt_mount_port ≡ line.opt_nfs_port
      → SamePort (parse_option r strtol opt optarg line)
  unfolding parse_option set_exports set_bind_addr
  parse_option-SamePort opt optarg line no_m no_n same = ground arith

  -- Without -m and -n the ports of the two services are the same if they were, as their default is,
  -- so that a node does not end its process when it becomes the leader.
  pub parse_options-SamePort :
      (opts : List (ℕ × List ℕ)) (line : CommandLine)
      → NoPort opts
      → line.opt_mount_port ≡ line.opt_nfs_port
      → SamePort (parse_options r strtol opts line)
  unfolding parse_options
  parse_options-SamePort [] line no_port same = same
  parse_options-SamePort ((opt, optarg) ∷ opts) line no_port same =
      go (parse_option r strtol opt optarg line)
        (parse_option-SamePort opt optarg line no_port.0.0 no_port.0.1 same)
        λ line' same'. parse_options-SamePort opts line' no_port.1 same'
    where
      go :
          (o : Option CommandLine)
          → SamePort o
          → ((line' : CommandLine)
              → line'.opt_mount_port ≡ line'.opt_nfs_port
              → SamePort (parse_options r strtol opts line'))
          → SamePort (elim o [ none ↦ none | some line' ↦ parse_options r strtol opts line' ])
      go none h rest = tt
      go (some line') h rest = rest line' h
