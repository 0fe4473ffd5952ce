-- ===== src/Daemon/Transport.antt =====
-- daemon.c: create_udp_transport and create_tcp_transport.
use unfs3_raft.Base.{
  ℕ, zero, suc, ◌*◌, Bool, true, ◌&&◌, ◌||◌, List, Option, none, some, get_or, ◌==◌, if◌then◌else◌,
}
use unfs3_raft.Exports.Build.Hosts.{is_v4compat}
use unfs3_raft.Raft.Replicate.{timeout_ms}
use unfs3_raft.Daemon.{
  Domain, pf_inet6, pf_inet, SockType, sock_stream, sock_dgram, SockAddr, sockaddr_in6, sockaddr_in,
  Net, Run, ◌>>=◌, ◌>>◌, pure, gets, call, must, when, modify, check,
}

-- IN6_IS_ADDR_UNSPECIFIED and IN6_IS_ADDR_V4MAPPED
unfoldable pub is_unspecified : List ℕ → Bool
is_unspecified a =
    ((get_or a 0 0 == 0) && (get_or a 1 0 == 0)) && ((get_or a 2 0 == 0) && (get_or a 3 0 == 0))

unfoldable pub is_v4mapped : List ℕ → Bool
is_v4mapped a = ((get_or a 0 0 == 0) && (get_or a 1 0 == 0)) && (get_or a 2 0 == 0xffff)

-- The address of a socket of a domain; INADDR_ANY is 0.
unfoldable pub bind_address : Domain → List ℕ → ℕ → Option SockAddr
bind_address pf_inet6 addr port = some (sockaddr_in6 addr port)
bind_address pf_inet addr port =
    if is_unspecified addr
    then some (sockaddr_in 0 port)
    else if is_v4mapped addr || is_v4compat addr
    then some (sockaddr_in (get_or addr 3 0) port)
    else none

module _ (net : Net) where
  -- An IPv6 socket, or an IPv4 one if there is no such family.
  unfoldable pub open_socket : SockType → Run net.State ℕ
  open_socket type = do
    first ← call (net.socket pf_inet6 type)
    missing ← gets net.no_family
    elim first [
      | some sock ↦ pure sock
      | none ↦ when missing (call (net.socket pf_inet type) >>= must) (must none)
    ]

  -- `left` more attempts at bind.
  unfoldable pub bind_loop : ℕ → ℕ → SockAddr → Run net.State Bool
  bind_loop zero sock addr s = none
  bind_loop (suc left) sock addr s =
      let (s', ok) = net.bind sock addr s in
      let again = bind_loop left sock addr (net.usleep (timeout_ms * 1000) s') in
      if ok then some (true, s') else if left == 0 then none else again

  -- With `suc left` for the first of 100 attempts.
  abbrev pub bind_attempts : ℕ
  bind_attempts = 100

  unfoldable pub prepare_socket : Domain → ℕ → Run net.State Bool
  prepare_socket pf_inet6 sock = modify (net.clear_v6only sock)
  prepare_socket pf_inet sock = pure true

  unfoldable pub bound_socket : SockType → List ℕ → ℕ → Run net.State ℕ
  bound_socket type bind_addr port = do
    sock ← open_socket type
    known ← gets (net.socket_domain sock)
    domain ← must known
    prepare_socket domain sock
    addr ← must (bind_address domain bind_addr port)
    modify (net.set_reuseaddr sock)
    bind_loop bind_attempts sock addr
    pure sock

  unfoldable pub create_udp_transport : List ℕ → ℕ → Run net.State ℕ
  create_udp_transport bind_addr port = do
    sock ← bound_socket sock_dgram bind_addr port
    call (net.svc_create sock_dgram sock) >>= must

  unfoldable pub create_tcp_transport : List ℕ → ℕ → Run net.State ℕ
  create_tcp_transport bind_addr port = do
    sock ← bound_socket sock_stream bind_addr port
    listening ← call (net.listen sock)
    check listening
    call (net.svc_create sock_stream sock) >>= must

  -- unregister_transport for a transport that is not NULL; a descriptor is not negative.
  unfoldable pub unregister_transport : ℕ → Run net.State Bool
  unregister_transport transp = do
    modify (net.xprt_unregister transp)
    fd ← gets (net.xp_fd transp)
    modify (net.shutdown fd)
    modify (net.svc_destroy transp)
