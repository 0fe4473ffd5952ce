-- ===== src/Daemon/Options.antt =====
-- daemon.c: parse_options, over the characters that getopt gives with their arguments. `none` is the
-- end of the process.
pub mod Ports
use unfs3_raft.Base.{
  ℕ, Bool, true, false, List, [], ◌∷◌, Option, none, some, get_or, ◌==◌, if◌then◌else◌,
}
use unfs3_raft.Fs.{FilePath, slash}
use unfs3_raft.Exports.Build.Hosts.{Resolver, mapped}

-- The variables that the options set.
pub record CommandLine : Type 0 where
  pub opt_32_bit_truncate : Bool
  pub opt_brute_force : Bool
  pub opt_detach : Bool
  pub opt_exports : FilePath
  pub opt_bind_addr : List ℕ
  pub opt_mount_port : ℕ
  pub opt_nfs_port : ℕ
  pub opt_portmapper : Bool
  pub opt_readable_executables : Bool
  pub opt_singleuser : Bool
  pub opt_tcponly : Bool
  pub opt_testconfig : Bool
  pub opt_pid_file : Option FilePath
  pub opt_raft_log : FilePath
  pub opt_raft_id : ℕ
  pub opt_raft_peers : Option (List ℕ)
  pub my_mount_root : Option FilePath
  pub logical_mount_root : Option FilePath

-- Not for a port of 0.
unfoldable pub set_mount_port : ℕ → CommandLine → Option CommandLine
set_mount_port port line = if port == 0 then none else some (record line { opt_mount_port = port })

unfoldable pub set_nfs_port : ℕ → CommandLine → Option CommandLine
set_nfs_port port line = if port == 0 then none else some (record line { opt_nfs_port = port })

unfoldable pub set_exports : FilePath → CommandLine → Option CommandLine
set_exports path line =
    if get_or path 0 0 == slash then some (record line { opt_exports = path }) else none

-- `strtol` gives the bit pattern of the `unsigned int` that is stored.
module _ (r : Resolver) (strtol : List ℕ → ℕ) where
  unfoldable pub set_bind_addr : List ℕ → CommandLine → Option CommandLine
  set_bind_addr optarg line =
      let (is_v6, addr) = r.inet_pton6 optarg line.opt_bind_addr in
      let (is_v4, s_addr) = r.inet_pton4 optarg in
      if is_v6
      then some (record line { opt_bind_addr = addr })
      else if is_v4
      then some (record line { opt_bind_addr = mapped s_addr })
      else none

  -- The switch of `parse_options`; without an argument, `optarg` is any text.
  unfoldable pub parse_option : ℕ → List ℕ → CommandLine → Option CommandLine
  parse_option opt optarg line =
      if opt == b'3'
      then some (record line { opt_32_bit_truncate = true })
      else if opt == b'b'
      then some (record line { opt_brute_force = true })
      else if opt == b'd'
      then some (record line { opt_detach = false })
      else if opt == b'e'
      then set_exports optarg line
      else if opt == b'h'
      then none
      else if opt == b'l'
      then set_bind_addr optarg line
      else if opt == b'm'
      then set_mount_port (strtol optarg) line
      else if opt == b'n'
      then set_nfs_port (strtol optarg) line
      else if opt == b'p'
      then some (record line { opt_portmapper = false })
      else if opt == b'r'
      then some (record line { opt_readable_executables = true })
      else if opt == b's'
      then some (record line { opt_singleuser = true })
      else if opt == b't'
      then some (record line { opt_tcponly = true })
      else if opt == b'T'
      then some (record line { opt_testconfig = true })
      else if opt == b'u'
      then some (record line { opt_nfs_port = 0; opt_mount_port = 0 })
      else if opt == b'i'
      then some (record line { opt_pid_file = some optarg })
      else if opt == b'R'
      then some (record line { opt_raft_log = optarg })
      else if opt == b'I'
      then some (record line { opt_raft_id = r.atoi optarg })
      else if opt == b'P'
      then some (record line { opt_raft_peers = some optarg })
      else if opt == b'g'
      then some (record line { my_mount_root = some optarg })
      else if opt == b'G'
      then some (record line { logical_mount_root = some optarg })
      else if opt == b'?'
      then none
      else some line

  unfoldable pub parse_options : List (ℕ × List ℕ) → CommandLine → Option CommandLine
  parse_options [] line = some line
  parse_options ((opt, optarg) ∷ opts) line =
      let rest : CommandLine → Option CommandLine = parse_options opts in
      elim (parse_option opt optarg line) [ none ↦ none | some line' ↦ rest line' ]
