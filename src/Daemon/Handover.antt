-- ===== src/Daemon/Handover.antt =====
-- Taking the services over and giving them up, for observers of registrations and of transports.
use unfs3_raft.Base.{ℕ, ◌≡◌, Bool, true, false, Option, none, some, ◌==◌}
use unfs3_raft.Daemon.{Program, Net, Settings, Run, ◌>>=◌, ◌>>◌, modify, check}
use unfs3_raft.Daemon.Transport.{create_tcp_transport, unregister_transport}
use unfs3_raft.Daemon.Register.{register_nfs_service, register_mount_service, if_open}
use unfs3_raft.Daemon.Registered.{
  IsRegistry, NfsOn, AllOn, register_nfs_service_lem, register_mount_service_lem,
}
use unfs3_raft.Daemon.Round.{State, on_net, leadership_lost, new_udp, become_leader}
use unfs3_raft.Daemon.Keeps.{Ends, bind_Ends, check-Ends}
use unfs3_raft.Daemon.Returns.{Works, Returns, become_leader-Returns}
use unfs3_raft.Daemon.Changes.{Closed, Opened, leadership_lost_lem, become_leader_lem}

module _ (net : Net) (alive : ℕ → net.State → Bool) where
  -- svc_destroy ends a transport, and nothing that happens to another one brings it back.
  pub record IsLiving : Type 0 where
    pub destroyed : (t : ℕ) (s : net.State) → alive t (net.svc_destroy t s) ≡ false
    pub by_xprt_unregister :
        (t x : ℕ) (s : net.State) → alive x s ≡ false → alive x (net.xprt_unregister t s) ≡ false
    pub by_shutdown :
        (fd x : ℕ) (s : net.State) → alive x s ≡ false → alive x (net.shutdown fd s) ≡ false
    pub by_svc_destroy :
        (t x : ℕ) (s : net.State) → alive x s ≡ false → alive x (net.svc_destroy t s) ≡ false

  abbrev pub IsDead : Option ℕ → net.State → Type 0
  IsDead none s = Unit {0}
  IsDead (some t) s = alive t s ≡ false

  module _ (law : IsLiving) where
    abbrev Ended : Option ℕ → net.State → Bool × net.State → Type 0
    Ended o s r = IsDead o r.1 × ((x : ℕ) → alive x s ≡ false → alive x r.1 ≡ false)

    ended_lem :
        (o : Option ℕ) (s : net.State)
        → Ends ⊥ (Ended o s) (if_open net true o (unregister_transport net) s)
    unfolding if_open unregister_transport
    ended_lem none s = (tt, λ x h. h)
    ended_lem (some t) s =
        let s1 = net.xprt_unregister t s in
        let s2 = net.shutdown (net.xp_fd t s1) s1 in
        (
          law.destroyed t s2,
          λ x h.
              law.by_svc_destroy t x s2
                (law.by_shutdown (net.xp_fd t s1) x s1 (law.by_xprt_unregister t x s h)),
        )

    still-IsDead :
        (o : Option ℕ) (s s' : net.State)
        → ((x : ℕ) → alive x s ≡ false → alive x s' ≡ false)
        → IsDead o s
        → IsDead o s'
    still-IsDead none s s' k h = tt
    still-IsDead (some t) s s' k h = k t h

    pub lost_lem :
        (d : State net)
        → Ends ⊥
            (λ r. IsDead d.nfs_udptransp r.1.net × IsDead d.nfs_tcptransp r.1.net)
            (leadership_lost net d)
    unfolding leadership_lost
    lost_lem d = first (drop_udp d.net) (ended_lem d.nfs_udptransp d.net)
      where
        drop_udp : Run net.State Bool
        drop_udp = if_open net true d.nfs_udptransp (unregister_transport net)

        drop_tcp : Run net.State Bool
        drop_tcp = if_open net true d.nfs_tcptransp (unregister_transport net)

        close : Run (State net) Bool
        close = modify (λ x. record x { nfs_udptransp = none; nfs_tcptransp = none })

        with_net : Option (Bool × net.State) → State net → Option (Bool × State net)
        with_net o x = elim o [ none ↦ none | some (a, s) ↦ some (a, record x { net = s }) ]

        second :
            (s1 : net.State) (o : Option (Bool × net.State))
            → IsDead d.nfs_udptransp s1
            → Ends ⊥ (Ended d.nfs_tcptransp s1) o
            → Ends ⊥
                (λ r. IsDead d.nfs_udptransp r.1.net × IsDead d.nfs_tcptransp r.1.net)
                (((λ x. with_net o x) >> close) (record d { net = s1 }))
        second s1 none u h = h
        second s1 (some (a, s2)) u h = (still-IsDead d.nfs_udptransp s1 s2 h.1 u, h.0)

        first :
            (o : Option (Bool × net.State))
            → Ends ⊥ (Ended d.nfs_udptransp d.net) o
            → Ends ⊥
                (λ r. IsDead d.nfs_udptransp r.1.net × IsDead d.nfs_tcptransp r.1.net)
                (((λ x. with_net o x) >> (on_net net drop_tcp >> close)) d)
        first none h = h
        first (some (a, s1)) h = second s1 (drop_tcp s1) h.0 (ended_lem d.nfs_tcptransp s1)

module _ (net : Net) (registered : ℕ → Program → ℕ → net.State → Bool)
    (law : IsRegistry net registered) (settings : Settings) where
  open settings use {opt_portmapper, opt_nfs_port, opt_mount_port, opt_bind_addr}

  abbrev pub On : Option ℕ → Option ℕ → net.State → Type 0
  On udp tcp s = AllOn net registered opt_portmapper law udp tcp s

  any-Ends : {N A : Type 0} (o : Option (A × N)) → Ends Unit (λ r. Unit {0}) o
  any-Ends none = tt
  any-Ends (some r) = tt

  on_net-Ends :
      {A : Type 0} (P : A × net.State → Type 0) (m : Run net.State A) (d : State net)
      → Ends Unit P (m d.net)
      → Ends Unit (λ r. P (r.0, r.1.net)) (on_net net m d)
  on_net-Ends {A} P m d h = go (m d.net) h
    where
      go :
          (o : Option (A × net.State))
          → Ends Unit P o
          → Ends {A = A} Unit
              (λ r. P (r.0, r.1.net))
              (elim o [ none ↦ none | some (a, s) ↦ some (a, record d { net = s }) ])
      go none h = tt
      go (some (a, s)) h = h

  pub registered_lem :
      (d : State net)
      → Ends Unit
          (λ r. On r.1.nfs_udptransp r.1.nfs_tcptransp r.1.net)
          (become_leader net settings d)
  unfolding become_leader
  registered_lem d =
      bind_Ends Unit (λ r. Unit {0}) _ (new_udp net settings) with_udp d
        (any-Ends (new_udp net settings d))
        λ udp s0 _.
          bind_Ends Unit (λ r. Unit {0}) _ (on_net net create) (with_tcp udp) s0
            (any-Ends (on_net net create s0))
            λ tcp s1 _.
              bind_Ends Unit (λ r. NfsOn net registered opt_portmapper law udp (some tcp) r.1.net) _
                (on_net net (nfs udp tcp))
                (λ _. check (opt_mount_port == opt_nfs_port) >> mounts udp tcp) s1
                (on_net-Ends (λ r. NfsOn net registered opt_portmapper law udp (some tcp) r.1)
                  (nfs udp tcp) s1
                  (register_nfs_service_lem net registered opt_portmapper law udp (some tcp)
                    s1.net))
                λ a s2 h. check-Ends _ (opt_mount_port == opt_nfs_port) (mounts udp tcp) s2 (
                  bind_Ends Unit (λ r. On udp (some tcp) r.1.net) _ (on_net net (mount udp tcp))
                    (λ _. store udp tcp) s2
                    (on_net-Ends (λ r. On udp (some tcp) r.1) (mount udp tcp) s2
                      (register_mount_service_lem net registered opt_portmapper law udp (some tcp)
                        s2.net h))
                    λ b s3 all_on. all_on)
    where
      create : Run net.State ℕ
      create = create_tcp_transport net opt_bind_addr opt_nfs_port

      nfs : Option ℕ → ℕ → Run net.State Bool
      nfs udp tcp = register_nfs_service net opt_portmapper udp (some tcp)

      mount : Option ℕ → ℕ → Run net.State Bool
      mount udp tcp = register_mount_service net opt_portmapper udp (some tcp)

      store : Option ℕ → ℕ → Run (State net) Bool
      store udp tcp = modify (λ x. record x {
        nfs_udptransp = udp;
        nfs_tcptransp = some tcp;
        mount_udptransp = udp;
        mount_tcptransp = some tcp;
      })

      mounts : Option ℕ → ℕ → Run (State net) Bool
      mounts udp tcp = on_net net (mount udp tcp) >> store udp tcp

      with_tcp : Option ℕ → ℕ → Run (State net) Bool
      with_tcp udp tcp =
          on_net net (nfs udp tcp) >> (check (opt_mount_port == opt_nfs_port) >> mounts udp tcp)

      with_udp : Option ℕ → Run (State net) Bool
      with_udp udp = on_net net create >>= with_tcp udp

both-Ends :
    {N A : Type 0} (E F : Type 0) (P Q : A × N → Type 0) (o : Option (A × N))
    → Ends E P o
    → Ends F Q o
    → Ends F (λ r. P r × Q r) o
both-Ends E F P Q none p q = q
both-Ends E F P Q (some r) p q = (p, q)

module _ (net : Net) (settings : Settings) (registered : ℕ → Program → ℕ → net.State → Bool)
    (alive : ℕ → net.State → Bool) (registry : IsRegistry net registered)
    (living : IsLiving net alive) where
  -- What is known of a node that has taken the services over.
  abbrev pub Serving : State net → State net → Type 0
  Serving d d' =
      On net registered registry settings d'.nfs_udptransp d'.nfs_tcptransp d'.net
      × Opened net settings d d'

  -- What is known of a node that has given them up.
  abbrev pub Retired : State net → State net → Type 0
  Retired d d' =
      (IsDead net alive d.nfs_udptransp d'.net × IsDead net alive d.nfs_tcptransp d'.net)
      × Closed net settings d d'

  -- The ports differ, or some call can fail.
  abbrev pub CanFail : Type 0
  CanFail = ¬ (Works net × ((settings.opt_mount_port == settings.opt_nfs_port) ≡ true))

  -- The process ends in `become_leader` only if the ports of the services differ or some call on the
  -- sockets, which are those of IPv6, the transports or the registrations can fail. Otherwise there is a
  -- transport for TCP, and one for UDP exactly without -t, the mount protocol uses the same ones, and NFS
  -- version 3 and versions 1 and 3 of the mount protocol are registered for each of them.
  -- `leadership_lost` always returns: each transport that the node had for NFS has ended, none is left
  -- in the variables for NFS, and the node's flags are as they were.
  pub handover_lem :
      (d : State net)
      → Ends CanFail (λ r. Serving d r.1) (become_leader net settings d)
        × Ends ⊥ (λ r. Retired d r.1) (leadership_lost net d)
  handover_lem d = (
    returned (become_leader net settings d)
        (both-Ends Unit Unit _ _ (become_leader net settings d)
          (registered_lem net registered registry settings d) (become_leader_lem net settings d))
        (λ works. become_leader-Returns net works.0 settings d works.1),
    both-Ends ⊥ ⊥ _ _ (leadership_lost net d) (lost_lem net alive living d)
        (leadership_lost_lem net settings ⊥ d),
  )
    where
      returned :
          (o : Option (Bool × State net))
          → Ends Unit (λ r. Serving d r.1) o
          → (Works net × ((settings.opt_mount_port == settings.opt_nfs_port) ≡ true) → Returns o)
          → Ends CanFail (λ r. Serving d r.1) o
      returned none h r = r
      returned (some x) h r = h
