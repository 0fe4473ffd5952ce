-- ===== src/Daemon/Registered.antt =====
-- What the registration of the services leaves, for an observer of the programs that are registered.
use unfs3_raft.Base.{ℕ, ◌≡◌, refl, Bool, true, false, Option, none, some}
use unfs3_raft.Daemon.{
  Domain, pf_inet6, pf_inet, SockType, NetId, Program, nfs3_program, mountprog, Net, Run, ◌>>=◌,
  ◌>>◌, pure, gets, call, must, when, modify, check,
}
use unfs3_raft.Daemon.Register.{
  nfs_v3, mountvers1, mountvers3, netid, netid6, register_with, register_second, register_service,
  unregister, if_open, register_nfs_service, register_versions, register_mount_service,
}
use unfs3_raft.Daemon.Keeps.{Ends, bind_Ends, then_Ends}

module _ (net : Net) (registered : ℕ → Program → ℕ → net.State → Bool) where
  -- A call of svc_reg that succeeds registers its program and version for its transport, and takes no
  -- other registration away; svc_unreg takes away none of another program.
  pub record IsRegistry : Type 0 where
    pub registers :
        (t : ℕ) (p : Program) (v : ℕ) (id : Option NetId) (s : net.State)
        → (net.svc_reg t p v id s).1 ≡ true
        → registered t p v (net.svc_reg t p v id s).0 ≡ true
    pub reg_keeps :
        (t : ℕ) (p : Program) (v : ℕ) (id : Option NetId) (s : net.State) (t' : ℕ) (p' : Program)
        (v' : ℕ)
        → registered t' p' v' s ≡ true
        → registered t' p' v' (net.svc_reg t p v id s).0 ≡ true
    pub unreg_keeps :
        (v : ℕ) (s : net.State) (t v' : ℕ)
        → registered t nfs3_program v' s ≡ true
        → registered t nfs3_program v' (net.svc_unreg mountprog v s) ≡ true

  pub record KeepsAll (s s' : net.State) : Type 0 where
    pub kept :
        (t : ℕ) (p : Program) (v : ℕ) → registered t p v s ≡ true → registered t p v s' ≡ true

  same : (s : net.State) → KeepsAll s s
  same s = record { kept = λ t p v h. h }

  then_same : (s s1 s2 : net.State) → KeepsAll s s1 → KeepsAll s1 s2 → KeepsAll s s2
  then_same s s1 s2 a b = record { kept = λ t p v h. b.kept t p v (a.kept t p v h) }

  module _ (opt_portmapper : Bool) (law : IsRegistry) where
    -- The program is registered and nothing is lost.
    abbrev Added : ℕ → Program → ℕ → net.State → Bool × net.State → Type 0
    Added t p v s r = KeepsAll s r.1 × (registered t p v r.1 ≡ true)

    checked_lem :
        (t : ℕ) (p : Program) (v : ℕ) (id : Option NetId) (s : net.State)
        → Ends Unit (Added t p v s) ((call (net.svc_reg t p v id) >>= check) s)
    checked_lem t p v id s =
        go (net.svc_reg t p v id s) (record { kept = law.reg_keeps t p v id s })
          (law.registers t p v id s)
      where
        go :
            (r : net.State × Bool)
            → KeepsAll s r.0
            → (r.1 ≡ true → registered t p v r.0 ≡ true)
            → Ends Unit (Added t p v s) (check r.1 r.0)
        go (s', false) k on = tt
        go (s', true) k on = (k, on refl)

    register_with_lem :
        (t : ℕ) (p : Program) (v : ℕ) (id : NetId) (s : net.State)
        → Ends Unit (Added t p v s) (register_with net opt_portmapper t p v id s)
    unfolding register_with
    register_with_lem t p v id s = go (net.getnetconfigent id s)
      where
        go :
            (known : Bool)
            → Ends Unit
                (Added t p v s)
                ((check known >> (call (net.svc_reg t p v (some id)) >>= check)) s)
        go false = tt
        go true = checked_lem t p v (some id) s

    register_second_lem :
        (t : ℕ) (p : Program) (v : ℕ) (type : SockType) (domain : Domain) (s : net.State)
        → registered t p v s ≡ true
        → Ends Unit (Added t p v s) (register_second net opt_portmapper t p v type domain s)
    unfolding register_second
    register_second_lem t p v type pf_inet6 s h = register_with_lem t p v (netid6 type) s
    register_second_lem t p v type pf_inet s h = (same s, h)

    register_service_lem :
        (t : ℕ) (p : Program) (v : ℕ) (s : net.State)
        → Ends Unit (Added t p v s) (register_service net opt_portmapper t p v s)
    unfolding register_service
    register_service_lem t p v s = go (net.socket_type (net.xp_fd t s) s)
      where
        fd : ℕ
        fd = net.xp_fd t s

        second :
            (type : SockType) (s1 : net.State)
            → KeepsAll s s1
            → registered t p v s1 ≡ true
            → (domain : Option Domain)
            → Ends Unit
                (Added t p v s)
                ((must domain >>= register_second net opt_portmapper t p v type) s1)
        second type s1 k on none = tt
        second type s1 k on (some domain) =
            then_Ends Unit (Added t p v s1) (Added t p v s)
              (register_second net opt_portmapper t p v type domain s1)
              (register_second_lem t p v type domain s1 on) λ r a. (then_same s s1 r.1 k a.0, a.1)

        with_type :
            (portmapper : Bool) (type : SockType)
            → Ends Unit (Added t p v s) (
                when portmapper
                  (register_with net opt_portmapper t p v (netid type)
                    >> (gets (net.socket_domain fd) >>= λ known.
                        must known >>= register_second net opt_portmapper t p v type))
                  (call (net.svc_reg t p v none) >>= check)
                  s)
        with_type false type = checked_lem t p v none s
        with_type true type =
            bind_Ends Unit (Added t p v s) (Added t p v s)
              (register_with net opt_portmapper t p v (netid type))
              (λ _. gets (net.socket_domain fd) >>= λ known.
                must known >>= register_second net opt_portmapper t p v type)
              s (register_with_lem t p v (netid type) s)
              λ a s1 h. second type s1 h.0 h.1 (net.socket_domain fd s1)

        go :
            (type : Option SockType)
            → Ends Unit (Added t p v s) (
                (must type >>= λ type.
                when opt_portmapper
                  (register_with net opt_portmapper t p v (netid type)
                    >> (gets (net.socket_domain fd) >>= λ known.
                        must known >>= register_second net opt_portmapper t p v type))
                  (call (net.svc_reg t p v none) >>= check))
                  s)
        go none = tt
        go (some type) = with_type opt_portmapper type

    abbrev On : Option ℕ → Program → ℕ → net.State → Type 0
    On none p v s = Unit {0}
    On (some t) p v s = registered t p v s ≡ true

    On-kept :
        (o : Option ℕ) (p : Program) (v : ℕ) (s s' : net.State)
        → KeepsAll s s'
        → On o p v s
        → On o p v s'
    On-kept none p v s s' k h = tt
    On-kept (some t) p v s s' k h = k.kept t p v h

    nfs_lem :
        (o : Option ℕ) (s : net.State)
        → Ends Unit
            (λ r. KeepsAll s r.1 × On o nfs3_program nfs_v3 r.1)
            (if_open net opt_portmapper o
              (λ t. register_service net opt_portmapper t nfs3_program nfs_v3)
              s)
    unfolding if_open
    nfs_lem none s = (same s, tt)
    nfs_lem (some t) s = register_service_lem t nfs3_program nfs_v3 s

    abbrev OnMount : Option ℕ → net.State → Type 0
    OnMount o s = On o mountprog mountvers1 s × On o mountprog mountvers3 s

    mount_lem :
        (o : Option ℕ) (s : net.State)
        → Ends Unit
            (λ r. KeepsAll s r.1 × OnMount o r.1)
            (if_open net opt_portmapper o (register_versions net opt_portmapper) s)
    unfolding if_open register_versions
    mount_lem none s = (same s, (tt, tt))
    mount_lem (some t) s =
        bind_Ends Unit (Added t mountprog mountvers1 s) _
          (register_service net opt_portmapper t mountprog mountvers1)
          (λ _. register_service net opt_portmapper t mountprog mountvers3) s
          (register_service_lem t mountprog mountvers1 s)
          λ a s1 h1.
            then_Ends Unit (Added t mountprog mountvers3 s1) _
              (register_service net opt_portmapper t mountprog mountvers3 s1)
              (register_service_lem t mountprog mountvers3 s1)
              λ r h2. (then_same s s1 r.1 h1.0 h2.0, (h2.0.kept t mountprog mountvers1 h1.1, h2.1))

    -- NFS version 3 is registered for both transports.
    abbrev pub NfsOn : Option ℕ → Option ℕ → net.State → Type 0
    NfsOn udp tcp s = On udp nfs3_program nfs_v3 s × On tcp nfs3_program nfs_v3 s

    -- So are versions 1 and 3 of the mount protocol.
    abbrev pub AllOn : Option ℕ → Option ℕ → net.State → Type 0
    AllOn udp tcp s = NfsOn udp tcp s × OnMount udp s × OnMount tcp s

    pub register_nfs_service_lem :
        (udp tcp : Option ℕ) (s : net.State)
        → Ends Unit (λ r. NfsOn udp tcp r.1) (register_nfs_service net opt_portmapper udp tcp s)
    unfolding register_nfs_service unregister
    register_nfs_service_lem udp tcp s = go opt_portmapper
      where
        both :
            (s1 : net.State)
            → Ends Unit
                (λ r. NfsOn udp tcp r.1)
                ((if_open net opt_portmapper udp
                      (λ t. register_service net opt_portmapper t nfs3_program nfs_v3)
                    >> if_open net opt_portmapper tcp
                        (λ t. register_service net opt_portmapper t nfs3_program nfs_v3))
                  s1)
        both s1 =
            bind_Ends Unit (λ r. KeepsAll s1 r.1 × On udp nfs3_program nfs_v3 r.1) _
              (if_open net opt_portmapper udp
                (λ t. register_service net opt_portmapper t nfs3_program nfs_v3))
              (λ _.
                if_open net opt_portmapper tcp
                  (λ t. register_service net opt_portmapper t nfs3_program nfs_v3))
              s1 (nfs_lem udp s1)
              λ a s2 h2.
                then_Ends Unit (λ r. KeepsAll s2 r.1 × On tcp nfs3_program nfs_v3 r.1) _ _
                  (nfs_lem tcp s2) λ r h3. (On-kept udp nfs3_program nfs_v3 s2 r.1 h3.0 h2.1, h3.1)

        go :
            (portmapper : Bool)
            → Ends Unit
                (λ r. NfsOn udp tcp r.1)
                ((when portmapper (modify (net.svc_unreg nfs3_program nfs_v3)) (pure true)
                    >> (if_open net opt_portmapper udp
                          (λ t. register_service net opt_portmapper t nfs3_program nfs_v3)
                        >> if_open net opt_portmapper tcp
                            (λ t. register_service net opt_portmapper t nfs3_program nfs_v3)))
                  s)
        go true = both (net.svc_unreg nfs3_program nfs_v3 s)
        go false = both s

    unregister_lem :
        (udp tcp : Option ℕ) (v : ℕ) (s : net.State)
        → NfsOn udp tcp s
        → Ends Unit (λ r. NfsOn udp tcp r.1) (unregister net opt_portmapper mountprog v s)
    unfolding unregister
    unregister_lem udp tcp v s h = go opt_portmapper
      where
        still :
            (o : Option ℕ)
            → On o nfs3_program nfs_v3 s
            → On o nfs3_program nfs_v3 (net.svc_unreg mountprog v s)
        still none h = tt
        still (some t) h = law.unreg_keeps v s t nfs_v3 h

        go :
            (portmapper : Bool)
            → Ends Unit
                (λ r. NfsOn udp tcp r.1)
                (when portmapper (modify (net.svc_unreg mountprog v)) (pure true) s)
        go true = (still udp h.0, still tcp h.1)
        go false = h

    pub register_mount_service_lem :
        (udp tcp : Option ℕ) (s : net.State)
        → NfsOn udp tcp s
        → Ends Unit (λ r. AllOn udp tcp r.1) (register_mount_service net opt_portmapper udp tcp s)
    unfolding register_mount_service
    register_mount_service_lem udp tcp s h =
        bind_Ends Unit (λ r. NfsOn udp tcp r.1) _
          (unregister net opt_portmapper mountprog mountvers1)
          (λ _. unregister net opt_portmapper mountprog mountvers3 >> (first >> second)) s
          (unregister_lem udp tcp mountvers1 s h)
          λ a s1 h1.
            bind_Ends Unit (λ r. NfsOn udp tcp r.1) _
              (unregister net opt_portmapper mountprog mountvers3) (λ _. first >> second) s1
              (unregister_lem udp tcp mountvers3 s1 h1)
              λ b s2 h2.
                bind_Ends Unit (λ r. KeepsAll s2 r.1 × OnMount udp r.1) _ first (λ _. second) s2
                  (mount_lem udp s2)
                  λ x s3 h3.
                    then_Ends Unit (λ r. KeepsAll s3 r.1 × OnMount tcp r.1) _ (second s3)
                      (mount_lem tcp s3)
                      λ r h4. (
                        (
                          On-kept udp nfs3_program nfs_v3 s2 r.1 (then_same s2 s3 r.1 h3.0 h4.0)
                              h2.0,
                          On-kept tcp nfs3_program nfs_v3 s2 r.1 (then_same s2 s3 r.1 h3.0 h4.0)
                              h2.1,
                        ),
                        (
                          On-kept udp mountprog mountvers1 s3 r.1 h4.0 h3.1.0,
                          On-kept udp mountprog mountvers3 s3 r.1 h4.0 h3.1.1,
                        ),
                        h4.1,
                      )
      where
        first : Run net.State Bool
        first = if_open net opt_portmapper udp (register_versions net opt_portmapper)

        second : Run net.State Bool
        second = if_open net opt_portmapper tcp (register_versions net opt_portmapper)
