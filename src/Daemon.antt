-- ===== src/Daemon.antt =====
-- daemon.c: how the node takes the services over when it becomes the leader, and gives them up. The
-- sockets and the RPC library are the parameter `Net`, on a state of their own; a transport is a
-- number. `none` is the end of the process.
pub mod Transport
pub mod Register
pub mod Round
pub mod Options
pub mod Keeps
pub mod Changes
pub mod Serves
pub mod Registered
pub mod Returns
pub mod Handover
use unfs3_raft.Base.{ℕ, Bool, true, false, List, Option, none, some}

-- PF_INET6 and PF_INET
pub data Domain : Type 0 where
  pf_inet6 pf_inet : Domain

-- SOCK_STREAM and SOCK_DGRAM
pub data SockType : Type 0 where
  sock_stream sock_dgram : SockType

-- The address to bind to: four words, or one.
pub data SockAddr : Type 0 where
  sockaddr_in6 : List ℕ → ℕ → SockAddr
  sockaddr_in : ℕ → ℕ → SockAddr

-- "udp", "tcp", "udp6" and "tcp6"
pub data NetId : Type 0 where
  udp tcp udp6 tcp6 : NetId

-- NFS3_PROGRAM and MOUNTPROG, with the dispatcher that belongs to each.
pub data Program : Type 0 where
  nfs3_program mountprog : Program

-- What poll returns: -1, with EINTR or not, or a number.
pub data PollResult : Type 0 where
  poll_failed : Bool → PollResult
  poll_ready : ℕ → PollResult

pub record Net : Type 1 where
  pub State : Type 0
  -- what errno is after a failure, compared with EAFNOSUPPORT
  pub no_family : State → Bool
  pub socket : Domain → SockType → State → State × Option ℕ
  pub socket_domain : ℕ → State → Option Domain
  pub socket_type : ℕ → State → Option SockType
  pub clear_v6only : ℕ → State → State
  pub set_reuseaddr : ℕ → State → State
  pub bind : ℕ → SockAddr → State → State × Bool
  pub listen : ℕ → State → State × Bool
  pub usleep : ℕ → State → State
  -- svc_dg_create and svc_vc_create
  pub svc_create : SockType → ℕ → State → State × Option ℕ
  pub xp_fd : ℕ → State → ℕ
  pub getnetconfigent : NetId → State → Bool
  -- with a netconfig entry, or NULL
  pub svc_reg : ℕ → Program → ℕ → Option NetId → State → State × Bool
  pub svc_unreg : Program → ℕ → State → State
  pub xprt_unregister : ℕ → State → State
  pub shutdown : ℕ → State → State
  pub svc_destroy : ℕ → State → State
  -- fd_cache_close_inactive
  pub close_inactive : State → State
  pub svc_max_pollfd : State → ℕ
  pub realloc_pollfds : ℕ → State → State × Bool
  pub poll : ℕ → State → State × PollResult
  pub svc_getreq_poll : ℕ → State → State
  pub raft_make_progress : State → State
  pub raft_disabled : State → Bool
  pub raft_is_leader : State → Bool
  pub raft_become_follower : State → State

-- The options, of which the addresses are in host order.
pub record Settings : Type 0 where
  pub opt_tcponly : Bool
  pub opt_portmapper : Bool
  pub opt_nfs_port : ℕ
  pub opt_mount_port : ℕ
  pub opt_bind_addr : List ℕ

-- The static variables of daemon.c, with the state of the net.
pub record Daemon (N : Type 0) : Type 0 where
  pub net : N
  pub nfs_udptransp : Option ℕ
  pub nfs_tcptransp : Option ℕ
  pub mount_udptransp : Option ℕ
  pub mount_tcptransp : Option ℕ
  pub was_leader : Bool
  pub is_leader_now : Bool
  -- a local variable of unfs3_svc_run
  pub pollfds_len : ℕ

abbrev pub Run : Type 0 → Type 0 → Type 0
Run N A = N → Option (A × N)

module _ {N : Type 0} where
  infixl 5 ◌>>=◌ ◌>>◌
  abbrev pub ◌>>=◌ : {A B : Type 0} → Run N A → (A → Run N B) → Run N B
  ◌>>=◌ m f s = elim (m s) [ none ↦ none | some (a, s') ↦ f a s' ]

  abbrev pub ◌>>◌ : {A B : Type 0} → Run N A → Run N B → Run N B
  m >> n = m >>= λ _. n

  module _ {A : Type 0} where
    abbrev pub pure : A → Run N A
    pure a s = some (a, s)

    abbrev pub gets : (N → A) → Run N A
    gets f s = some (f s, s)

    abbrev pub call : (N → N × A) → Run N A
    call f s = let (s', a) = f s in some (a, s')

    -- The process ends without a value.
    abbrev pub must : Option A → Run N A
    must none s = none
    must (some a) s = some (a, s)

    abbrev pub when : Bool → Run N A → Run N A → Run N A
    when true m n = m
    when false m n = n

  abbrev pub modify : (N → N) → Run N Bool
  modify f s = some (true, f s)

  -- The process ends if this does not hold.
  abbrev pub check : Bool → Run N Bool
  check true s = some (true, s)
  check false s = none
