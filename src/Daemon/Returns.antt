-- ===== src/Daemon/Returns.antt =====
-- Taking the services over where no call fails.
use unfs3_raft.Base.{List, ℕ, ◌≡◌, Bool, true, false, Option, none, some, ◌==◌}
use unfs3_raft.Daemon.{
  pf_inet6, SockType, sock_dgram, sock_stream, SockAddr, sockaddr_in6, NetId, Program, nfs3_program,
  mountprog, Net, Settings, Run, ◌>>=◌, ◌>>◌, pure, call, must, when, modify, check,
}
use unfs3_raft.Daemon.Transport.{
  open_socket, prepare_socket, bind_address, bind_loop, bind_attempts, bound_socket,
  create_udp_transport, create_tcp_transport,
}
use unfs3_raft.Daemon.Register.{
  nfs_v3, mountvers1, mountvers3, netid, netid6, register_with, register_second, register_service,
  unregister, if_open, register_nfs_service, register_versions, register_mount_service,
}
use unfs3_raft.Daemon.Round.{State, on_net, new_udp, become_leader}
use unfs3_raft.Daemon.Keeps.{Ends, bind_Ends}

-- Every call succeeds, for sockets of IPv6.
pub record Works (net : Net) : Type 0 where
  pub by_socket :
      (type : SockType) (s : net.State) → (fd : ℕ) × ((net.socket pf_inet6 type s).1 ≡ some fd)
  pub by_domain : (fd : ℕ) (s : net.State) → net.socket_domain fd s ≡ some pf_inet6
  pub by_type : (fd : ℕ) (s : net.State) → (type : SockType) × (net.socket_type fd s ≡ some type)
  pub by_bind : (fd : ℕ) (addr : SockAddr) (s : net.State) → (net.bind fd addr s).1 ≡ true
  pub by_listen : (fd : ℕ) (s : net.State) → (net.listen fd s).1 ≡ true
  pub by_create :
      (type : SockType) (fd : ℕ) (s : net.State) → (t : ℕ) × ((net.svc_create type fd s).1 ≡ some t)
  pub by_getnetconfigent : (id : NetId) (s : net.State) → net.getnetconfigent id s ≡ true
  pub by_svc_reg :
      (t : ℕ) (p : Program) (v : ℕ) (id : Option NetId) (s : net.State)
      → (net.svc_reg t p v id s).1 ≡ true

-- A run that returns.
abbrev pub Returns : {N A : Type 0} → Option (A × N) → Type 0
Returns o = Ends ⊥ (λ r. Unit {0}) o

then-Returns :
    {N A B : Type 0} (m : Run N A) (f : A → Run N B) (s : N)
    → Returns (m s)
    → ((a : A) (s' : N) → Returns (f a s'))
    → Returns ((m >>= f) s)
then-Returns m f s h next =
    bind_Ends ⊥ (λ r. Unit {0}) (λ r. Unit {0}) m f s h (λ a s' _. next a s')

module _ (net : Net) (w : Works net) where
  when-Returns :
      {A : Type 0} (b : Bool) (m n : Run net.State A) (s : net.State)
      → Returns (m s)
      → Returns (n s)
      → Returns (when b m n s)
  when-Returns true m n s h k = h
  when-Returns false m n s h k = k

  must-Returns :
      {A : Type 0} (o : Option A) (a : A) (s : net.State) → o ≡ some a → Returns (must o s)
  must-Returns o a s e = rw e tt

  check-Returns : (b : Bool) (s : net.State) → b ≡ true → Returns (check b s)
  check-Returns b s e = rw e tt

  created :
      (type : SockType) (fd : ℕ) (s : net.State)
      → Returns ((call (net.svc_create type fd) >>= must) s)
  created type fd s = must-Returns _ (w.by_create type fd s).0 _ (w.by_create type fd s).1

  opened : (type : SockType) (s : net.State) → Returns (open_socket net type s)
  unfolding open_socket
  opened type s = rw (w.by_socket type s).1 tt

  bound :
      (sock : ℕ) (addr : SockAddr) (s : net.State)
      → Returns (bind_loop net (bind_attempts net) sock addr s)
  unfolding bind_loop
  bound sock addr s = rw (w.by_bind sock addr s) tt

  bound_socket-Returns :
      (type : SockType) (addr : List ℕ) (port : ℕ) (s : net.State)
      → Returns (bound_socket net type addr port s)
  unfolding bound_socket prepare_socket bind_address
  bound_socket-Returns type addr port s =
      then-Returns (open_socket net type) _ s (opened type s) λ sock s1. rw (w.by_domain sock s1) (
        then-Returns (bind_loop net (bind_attempts net) sock (sockaddr_in6 addr port))
          (λ _. pure sock) _ (bound sock (sockaddr_in6 addr port) _) λ ok s2. tt)

  udp-Returns :
      (addr : List ℕ) (port : ℕ) (s : net.State) → Returns (create_udp_transport net addr port s)
  unfolding create_udp_transport
  udp-Returns addr port s =
      then-Returns (bound_socket net sock_dgram addr port) _ s
        (bound_socket-Returns sock_dgram addr port s) λ sock s1. created sock_dgram sock s1

  tcp-Returns :
      (addr : List ℕ) (port : ℕ) (s : net.State) → Returns (create_tcp_transport net addr port s)
  unfolding create_tcp_transport
  tcp-Returns addr port s =
      then-Returns (bound_socket net sock_stream addr port) _ s
        (bound_socket-Returns sock_stream addr port s)
        λ sock s1. rw (w.by_listen sock s1) (created sock_stream sock _)

  module _ (opt_portmapper : Bool) where
    with-Returns :
        (t : ℕ) (p : Program) (v : ℕ) (id : NetId) (s : net.State)
        → Returns (register_with net opt_portmapper t p v id s)
    unfolding register_with
    with-Returns t p v id s = rw (w.by_getnetconfigent id s, w.by_svc_reg t p v (some id) s) tt

    service-Returns :
        (t : ℕ) (p : Program) (v : ℕ) (s : net.State)
        → Returns (register_service net opt_portmapper t p v s)
    unfolding register_service register_second
    service-Returns t p v s =
        let (type, e) = w.by_type (net.xp_fd t s) s in
        rw e (
          when-Returns opt_portmapper _ _ s
            (then-Returns (register_with net opt_portmapper t p v (netid type)) _ s
              (with-Returns t p v (netid type) s)
              λ a s1. rw (w.by_domain (net.xp_fd t s) s1) (with-Returns t p v (netid6 type) s1))
            (rw (w.by_svc_reg t p v none s) tt))

    if_open-Returns :
        (o : Option ℕ) (m : ℕ → Run net.State Bool) (s : net.State)
        → ((t : ℕ) (s : net.State) → Returns (m t s))
        → Returns (if_open net opt_portmapper o m s)
    unfolding if_open
    if_open-Returns none m s h = tt
    if_open-Returns (some t) m s h = h t s

    unregister-Returns :
        (p : Program) (v : ℕ) (s : net.State) → Returns (unregister net opt_portmapper p v s)
    unfolding unregister
    unregister-Returns p v s = when-Returns opt_portmapper _ _ s tt tt

    nfs-Returns :
        (udp tcp : Option ℕ) (s : net.State)
        → Returns (register_nfs_service net opt_portmapper udp tcp s)
    unfolding register_nfs_service
    nfs-Returns udp tcp s =
        then-Returns (unregister net opt_portmapper nfs3_program nfs_v3) (λ _. on udp >> on tcp) s
          (unregister-Returns nfs3_program nfs_v3 s)
          λ a s1. then-Returns (on udp) (λ _. on tcp) s1 (opens udp s1) λ b s2. opens tcp s2
      where
        on : Option ℕ → Run net.State Bool
        on o =
            if_open net opt_portmapper o
              (λ t. register_service net opt_portmapper t nfs3_program nfs_v3)

        opens : (o : Option ℕ) (s : net.State) → Returns (on o s)
        opens o s = if_open-Returns o _ s λ t s. service-Returns t nfs3_program nfs_v3 s

    versions-Returns : (t : ℕ) (s : net.State) → Returns (register_versions net opt_portmapper t s)
    unfolding register_versions
    versions-Returns t s =
        then-Returns (register_service net opt_portmapper t mountprog mountvers1)
          (λ _. register_service net opt_portmapper t mountprog mountvers3) s
          (service-Returns t mountprog mountvers1 s)
          λ a s1. service-Returns t mountprog mountvers3 s1

    mount-Returns :
        (udp tcp : Option ℕ) (s : net.State)
        → Returns (register_mount_service net opt_portmapper udp tcp s)
    unfolding register_mount_service
    mount-Returns udp tcp s =
        then-Returns (unregister net opt_portmapper mountprog mountvers1)
          (λ _. unregister net opt_portmapper mountprog mountvers3 >> (on udp >> on tcp)) s
          (unregister-Returns mountprog mountvers1 s)
          λ a s1.
            then-Returns (unregister net opt_portmapper mountprog mountvers3)
              (λ _. on udp >> on tcp) s1 (unregister-Returns mountprog mountvers3 s1)
              λ b s2. then-Returns (on udp) (λ _. on tcp) s2 (opens udp s2) λ x s3. opens tcp s3
      where
        on : Option ℕ → Run net.State Bool
        on o = if_open net opt_portmapper o (register_versions net opt_portmapper)

        opens : (o : Option ℕ) (s : net.State) → Returns (on o s)
        opens o s = if_open-Returns o _ s versions-Returns

  on_net-Returns :
      {A : Type 0} (m : Run net.State A) (d : State net)
      → Returns (m d.net)
      → Returns (on_net net m d)
  on_net-Returns {A} m d h = go (m d.net) h
    where
      go :
          (o : Option (A × net.State))
          → Returns o
          → Returns {A = A} (elim o [ none ↦ none | some (a, s) ↦ some (a, record d { net = s }) ])
      go none h = h
      go (some (a, s)) h = tt

  module _ (settings : Settings) where
    new_udp-Returns : (d : State net) → Returns (new_udp net settings d)
    unfolding new_udp
    new_udp-Returns d = go settings.opt_tcponly
      where
        create : Run net.State ℕ
        create = create_udp_transport net settings.opt_bind_addr settings.opt_nfs_port

        go :
            (tcponly : Bool)
            → Returns (
                when tcponly
                  (pure none)
                  (on_net net
                      (create_udp_transport net settings.opt_bind_addr settings.opt_nfs_port)
                    >>= λ transp. pure (some transp))
                  d)
        go true = tt
        go false =
            then-Returns (on_net net create) (λ transp. pure (some transp)) d
              (on_net-Returns create d
                (udp-Returns settings.opt_bind_addr settings.opt_nfs_port d.net))
              λ t s. tt

    pub become_leader-Returns :
        (d : State net)
        → (settings.opt_mount_port == settings.opt_nfs_port) ≡ true
        → Returns (become_leader net settings d)
    unfolding become_leader
    become_leader-Returns d ports =
        then-Returns (new_udp net settings) with_udp d (new_udp-Returns d) λ udp s0.
          then-Returns (on_net net create) (with_tcp udp) s0
            (on_net-Returns create s0
              (tcp-Returns settings.opt_bind_addr settings.opt_nfs_port s0.net))
            λ tcp s1.
              then-Returns (on_net net (nfs udp tcp))
                (λ _. check (settings.opt_mount_port == settings.opt_nfs_port) >> mounts udp tcp) s1
                (on_net-Returns (nfs udp tcp) s1
                  (nfs-Returns settings.opt_portmapper udp (some tcp) s1.net))
                λ a s2. rw ports (
                  then-Returns (on_net net (mount udp tcp)) (λ _. store udp tcp) s2
                    (on_net-Returns (mount udp tcp) s2
                      (mount-Returns settings.opt_portmapper udp (some tcp) s2.net))
                    λ b s3. tt)
      where
        create : Run net.State ℕ
        create = create_tcp_transport net settings.opt_bind_addr settings.opt_nfs_port

        nfs : Option ℕ → ℕ → Run net.State Bool
        nfs udp tcp = register_nfs_service net settings.opt_portmapper udp (some tcp)

        mount : Option ℕ → ℕ → Run net.State Bool
        mount udp tcp = register_mount_service net settings.opt_portmapper udp (some tcp)

        store : Option ℕ → ℕ → Run (State net) Bool
        store udp tcp = modify (λ x. record x {
          nfs_udptransp = udp;
          nfs_tcptransp = some tcp;
          mount_udptransp = udp;
          mount_tcptransp = some tcp;
        })

        mounts : Option ℕ → ℕ → Run (State net) Bool
        mounts udp tcp = on_net net (mount udp tcp) >> store udp tcp

        with_tcp : Option ℕ → ℕ → Run (State net) Bool
        with_tcp udp tcp =
            on_net net (nfs udp tcp)
            >> (check (settings.opt_mount_port == settings.opt_nfs_port) >> mounts udp tcp)

        with_udp : Option ℕ → Run (State net) Bool
        with_udp udp = on_net net create >>= with_tcp udp
