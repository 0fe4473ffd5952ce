-- ===== src/Daemon/Changes.antt =====
-- What opening the services and closing them leaves in the variables.
use unfs3_raft.Base.{ℕ, ◌≡◌, ◌≢◌, refl, Bool, true, false, not, Option, none, some, ◌==◌}
use unfs3_raft.Daemon.{Net, Settings, Run, ◌>>=◌, ◌>>◌, pure, when, modify, check}
use unfs3_raft.Daemon.Transport.{create_udp_transport, create_tcp_transport, unregister_transport}
use unfs3_raft.Daemon.Register.{register_nfs_service, register_mount_service, if_open}
use unfs3_raft.Daemon.Round.{State, on_net, leadership_lost, new_udp, become_leader}
use unfs3_raft.Daemon.Keeps.{Ends, bind_Ends, check-Ends, Same, Same-refl, on_net-Keeps, then_Keeps}

-- Whether a variable holds a transport.
abbrev pub is_open : Option ℕ → Bool
is_open none = false
is_open (some transp) = true

module _ (net : Net) (settings : Settings) where
  abbrev pub Closed : State net → State net → Type 0
  Closed d d' =
      (d'.is_leader_now ≡ d.is_leader_now)
      × (d'.was_leader ≡ d.was_leader)
      × (d'.nfs_tcptransp ≡ none)
      × (d'.nfs_udptransp ≡ none)

  if_open-unregister_transport :
      (transp : Option ℕ) (s : net.State)
      → if_open net true transp (unregister_transport net) s ≢ none
  unfolding if_open unregister_transport
  if_open-unregister_transport none s x = absurd (cc x)
  if_open-unregister_transport (some transp) s x = absurd (cc x)

  pub leadership_lost_lem :
      (E : Type 0) (d : State net) → Ends E (λ r. Closed d r.1) (leadership_lost net d)
  unfolding leadership_lost
  leadership_lost_lem E d =
      then_Keeps net E (λ r. Closed d r.1) d (on_net net drop_udp)
        (λ _. on_net net drop_tcp >> close) d
        (on_net-Keeps net {E = E} drop_udp d d (never d.nfs_udptransp d.net) (Same-refl net d))
        λ a s1 e1.
          then_Keeps net E (λ r. Closed d r.1) d (on_net net drop_tcp) (λ _. close) s1
            (on_net-Keeps net {E = E} drop_tcp d s1 (never d.nfs_tcptransp s1.net) e1)
            λ b s2 e2. (e2.leader_now, e2.was, refl, refl)
    where
      never :
          (transp : Option ℕ) (s : net.State)
          → if_open net true transp (unregister_transport net) s ≡ none
          → E
      never transp s x = absurd (if_open-unregister_transport transp s x)

      drop_udp : Run net.State Bool
      drop_udp = if_open net true d.nfs_udptransp (unregister_transport net)

      drop_tcp : Run net.State Bool
      drop_tcp = if_open net true d.nfs_tcptransp (unregister_transport net)

      close : Run (State net) Bool
      close = modify (λ x. record x { nfs_udptransp = none; nfs_tcptransp = none })

  -- The variables of `d'` hold transports, and its flags are those of `d`.
  abbrev pub Opened : State net → State net → Type 0
  Opened d d' =
      (d'.is_leader_now ≡ d.is_leader_now)
      × (d'.was_leader ≡ d.was_leader)
      × (is_open d'.nfs_tcptransp ≡ true)
      × (is_open d'.nfs_udptransp ≡ not settings.opt_tcponly)
      × (d'.mount_tcptransp ≡ d'.nfs_tcptransp)
      × (d'.mount_udptransp ≡ d'.nfs_udptransp)

  -- What opening the transport for UDP leaves.
  abbrev Udp : Bool → State net → Option ℕ × State net → Type 0
  Udp tcponly d r = Same net d r.1 × (is_open r.0 ≡ not tcponly)

  new_udp_lem : (d : State net) → Ends Unit (Udp settings.opt_tcponly d) (new_udp net settings d)
  unfolding new_udp
  new_udp_lem d = go settings.opt_tcponly
    where
      create : Run net.State ℕ
      create = create_udp_transport net settings.opt_bind_addr settings.opt_nfs_port

      go :
          (tcponly : Bool)
          → Ends Unit
              (Udp tcponly d)
              (when tcponly (pure none) (on_net net create >>= λ transp. pure (some transp)) d)
      go true = (Same-refl net d, refl)
      go false =
          then_Keeps net Unit (Udp false d) d (on_net net create) (λ transp. pure (some transp)) d
            (on_net-Keeps net {E = Unit} create d d (λ _. tt) (Same-refl net d))
            λ a s1 e1. (e1, refl)

  pub become_leader_lem :
      (d : State net) → Ends Unit (λ r. Opened d r.1) (become_leader net settings d)
  unfolding become_leader
  become_leader_lem d =
      bind_Ends Unit (Udp settings.opt_tcponly d) (λ r. Opened d r.1) (new_udp net settings)
        (λ udp. on_net net create >>= λ tcp.
          on_net net (nfs udp tcp)
          >> (check (settings.opt_mount_port == settings.opt_nfs_port) >> mounts udp tcp))
        d (new_udp_lem d)
        λ udp s0 u.
          then_Keeps net Unit (λ r. Opened d r.1) d (on_net net create)
            (λ tcp.
              on_net net (nfs udp tcp)
              >> (check (settings.opt_mount_port == settings.opt_nfs_port) >> mounts udp tcp))
            s0 (on_net-Keeps net {E = Unit} create d s0 (λ _. tt) u.0)
            λ tcp s1 e1.
              then_Keeps net Unit (λ r. Opened d r.1) d (on_net net (nfs udp tcp))
                (λ _. check (settings.opt_mount_port == settings.opt_nfs_port) >> mounts udp tcp) s1
                (on_net-Keeps net {E = Unit} (nfs udp tcp) d s1 (λ _. tt) e1)
                λ a s2 e2.
                  check-Ends (λ r. Opened d r.1) (settings.opt_mount_port == settings.opt_nfs_port)
                    (mounts udp tcp) s2
                    (then_Keeps net Unit (λ r. Opened d r.1) d (on_net net (mount udp tcp))
                      (λ _. store udp tcp) s2
                      (on_net-Keeps net {E = Unit} (mount udp tcp) d s2 (λ _. tt) e2)
                      λ b s3 e3. (e3.leader_now, e3.was, refl, u.1, refl, refl))
    where
      create : Run net.State ℕ
      create = create_tcp_transport net settings.opt_bind_addr settings.opt_nfs_port

      nfs : Option ℕ → ℕ → Run net.State Bool
      nfs udp tcp = register_nfs_service net settings.opt_portmapper udp (some tcp)

      mount : Option ℕ → ℕ → Run net.State Bool
      mount udp tcp = register_mount_service net settings.opt_portmapper udp (some tcp)

      store : Option ℕ → ℕ → Run (State net) Bool
      store udp tcp = modify (λ x. record x {
        nfs_udptransp = udp;
        nfs_tcptransp = some tcp;
        mount_udptransp = udp;
        mount_tcptransp = some tcp;
      })

      mounts : Option ℕ → ℕ → Run (State net) Bool
      mounts udp tcp = on_net net (mount udp tcp) >> store udp tcp
