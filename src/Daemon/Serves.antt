-- ===== src/Daemon/Serves.antt =====
-- The variables of the node hold transports exactly while it leads.
use unfs3_raft.Base.{
  ℕ, zero, suc, ◌≡◌, refl, sym, ap, ◌∙◌, Bool, true, false, not, ◌&&◌, Option, none, some,
}
use unfs3_raft.Daemon.{Net, Settings, ◌>>◌, pure, when, modify}
use unfs3_raft.Daemon.Round.{
  Polled, goes_on, starts_again, returns, State, leadership_lost, become_leader, poll_requests,
  step_down, follow_raft, lead, finish_round, svc_round, svc_run, start,
}
use unfs3_raft.Daemon.Keeps.{
  Ends, bind_Ends, then_Ends, when-Ends, Same, Same-net, Same-refl, then_Keeps, poll_requests-Keeps,
}
use unfs3_raft.Daemon.Changes.{is_open, Closed, Opened, leadership_lost_lem, become_leader_lem}

module _ (net : Net) (settings : Settings) where
  -- The variables hold a transport for TCP exactly while the node leads, and one for UDP without -t;
  -- those of the mount protocol hold the same ones.
  record Serves (d : State net) : Type 0 where
    flags : d.is_leader_now ≡ d.was_leader
    nfs_tcp : is_open d.nfs_tcptransp ≡ d.was_leader
    nfs_udp : is_open d.nfs_udptransp ≡ (d.was_leader && not settings.opt_tcponly)
    mount_tcp : d.was_leader ≡ true → d.mount_tcptransp ≡ d.nfs_tcptransp
    mount_udp : d.was_leader ≡ true → d.mount_udptransp ≡ d.nfs_udptransp

  -- A state in which the process ends when it opens the services.
  abbrev Failed : Type 0
  Failed = (s : State net) × (become_leader net settings s ≡ none)

  become_leader-Ends :
      (d : State net) → Ends Failed (λ r. Opened net settings d r.1) (become_leader net settings d)
  become_leader-Ends d = go (become_leader net settings d) refl (become_leader_lem net settings d)
    where
      go :
          (o : Option (Bool × State net))
          → become_leader net settings d ≡ o
          → Ends Unit (λ r. Opened net settings d r.1) o
          → Ends Failed (λ r. Opened net settings d r.1) o
      go none failed h = (d, failed)
      go (some r) failed h = h

  Same-Serves : (d d' : State net) → Same net d d' → Serves d → Serves d'
  Same-Serves d d' s v = record {
    flags = cc (s.leader_now, s.was, v.flags);
    nfs_tcp = ap is_open s.nfs_tcp ∙ v.nfs_tcp ∙ sym s.was;
    nfs_udp =
        ap is_open s.nfs_udp
        ∙ v.nfs_udp
        ∙ ap (λ (b : Bool). b && not settings.opt_tcponly) (sym s.was);
    mount_tcp = λ leads. s.mount_tcp ∙ v.mount_tcp (sym s.was ∙ leads) ∙ sym s.nfs_tcp;
    mount_udp = λ leads. s.mount_udp ∙ v.mount_udp (sym s.was ∙ leads) ∙ sym s.nfs_udp;
  }

  Closed-Serves :
      (d s : State net)
      → Closed net settings d s
      → Serves (record s { is_leader_now = false; was_leader = false })
  Closed-Serves d s c = record {
    flags = refl;
    nfs_tcp = ap is_open c.2;
    nfs_udp = ap is_open c.3;
    mount_tcp = λ leads. absurd (cc leads);
    mount_udp = λ leads. absurd (cc leads);
  }

  step_down_lem : (d : State net) → Ends Failed (λ r. Serves r.1) (step_down net settings d)
  unfolding step_down
  step_down_lem d =
      bind_Ends Failed (λ r. Closed net settings d1 r.1) (λ r. Serves r.1) (leadership_lost net)
        (λ _. modify (λ x. record x { is_leader_now = false; was_leader = false })) d1
        (leadership_lost_lem net settings Failed d1) λ a s c. Closed-Serves d1 s c
    where
      d1 : State net
      d1 = record d { net = net.raft_become_follower d.net }

  -- Following the cluster, with what it says and what the node was.
  follow_raft_lem :
      (d : State net) → Serves d → Ends Failed (λ r. Serves r.1) (follow_raft net settings d)
  unfolding follow_raft
  follow_raft_lem d v = go (net.raft_is_leader d.net) d.was_leader refl
    where
      go :
          (leads was : Bool)
          → d.was_leader ≡ was
          → Ends Failed
              (λ r. Serves r.1)
              ((when
                    (leads && not was)
                    (become_leader net settings)
                    (when (not leads && was) (leadership_lost net) (pure true))
                  >> modify (λ x. record x { is_leader_now = leads; was_leader = leads }))
                d)
      go true false known =
          bind_Ends Failed (λ r. Opened net settings d r.1) (λ r. Serves r.1)
            (become_leader net settings)
            (λ _. modify (λ x. record x { is_leader_now = true; was_leader = true })) d
            (become_leader-Ends d)
            λ a s o. record {
              flags = refl;
              nfs_tcp = o.2;
              nfs_udp = o.3;
              mount_tcp = λ _. o.4;
              mount_udp = λ _. o.5;
            }
      go false true known =
          bind_Ends Failed (λ r. Closed net settings d r.1) (λ r. Serves r.1) (leadership_lost net)
            (λ _. modify (λ x. record x { is_leader_now = false; was_leader = false })) d
            (leadership_lost_lem net settings Failed d) λ a s c. Closed-Serves d s c
      go true true known = record {
        flags = refl;
        nfs_tcp = v.nfs_tcp ∙ known;
        nfs_udp = v.nfs_udp ∙ ap (λ (b : Bool). b && not settings.opt_tcponly) known;
        mount_tcp = λ _. v.mount_tcp known;
        mount_udp = λ _. v.mount_udp known;
      }
      go false false known = record {
        flags = refl;
        nfs_tcp = v.nfs_tcp ∙ known;
        nfs_udp = v.nfs_udp ∙ ap (λ (b : Bool). b && not settings.opt_tcponly) known;
        mount_tcp = λ leads. absurd (cc leads);
        mount_udp = λ leads. absurd (cc leads);
      }

  lead_lem : (d : State net) → Serves d → Ends Failed (λ r. Serves r.1) (lead net settings d)
  unfolding lead
  lead_lem d v =
      when-Ends Failed (λ r. Serves r.1) (d1.was_leader && net.raft_disabled d1.net)
        (step_down net settings) (follow_raft net settings) d1 (λ _. step_down_lem d1)
        (λ _. follow_raft_lem d1 (Same-Serves d d1 (Same-net net d d _ (Same-refl net d)) v))
    where
      d1 : State net
      d1 = record d { net = net.raft_make_progress d.net }

  finish_round_lem :
      (polled : Polled) (d : State net)
      → Serves d
      → Ends Failed (λ r. Serves r.1) (finish_round net settings polled d)
  unfolding finish_round
  finish_round_lem goes_on d v =
      bind_Ends Failed (λ r. Serves r.1) (λ r. Serves r.1) (lead net settings) (λ _. pure true) d
        (lead_lem d v) λ a s w. w
  finish_round_lem starts_again d v = v
  finish_round_lem returns d v = v

  svc_round_lem :
      (d : State net) → Serves d → Ends Failed (λ r. Serves r.1) (svc_round net settings d)
  unfolding svc_round
  svc_round_lem d v =
      then_Keeps net Failed (λ r. Serves r.1) d (poll_requests net settings)
        (finish_round net settings) d1
        (poll_requests-Keeps net settings Failed d d1 (Same-net net d d _ (Same-refl net d)))
        λ polled s e. finish_round_lem polled s (Same-Serves d s e v)
    where
      d1 : State net
      d1 = record d { net = net.close_inactive d.net }

  svc_run_lem :
      (n : ℕ) (d : State net) → Serves d → Ends Failed (λ r. Serves r.1) (svc_run net settings n d)
  unfolding svc_run
  svc_run_lem zero d v = v
  svc_run_lem (suc n) d v = go (svc_round net settings d) (svc_round_lem d v) (svc_run_lem n)
    where
      go :
          (o : Option (Bool × State net))
          → Ends Failed (λ r. Serves r.1) o
          → ((d' : State net)
              → Serves d'
              → Ends Failed (λ r. Serves r.1) (svc_run net settings n d'))
          → Ends {A = Bool} Failed
              (λ r. Serves r.1)
              (elim o [
                | none ↦ none
                | some (true, d') ↦ svc_run net settings n d'
                | some (false, d') ↦ some (false, d')
              ])
      go none w rest = w
      go (some (true, d')) w rest = rest d' w
      go (some (false, d')) w rest = w

  start_lem :
      (elected : Bool) (d : State net)
      → d.nfs_tcptransp ≡ none
      → d.nfs_udptransp ≡ none
      → Ends Failed (λ r. Serves r.1) (start net settings elected d)
  unfolding start
  start_lem false d no_tcp no_udp = Closed-Serves d d (refl, refl, no_tcp, no_udp)
  start_lem true d no_tcp no_udp =
      then_Ends Failed (λ r. Opened net settings d1 r.1) (λ r. Serves r.1)
        (become_leader net settings d1) (become_leader-Ends d1)
        λ r o. record {
          flags = o.0 ∙ sym o.1;
          nfs_tcp = o.2 ∙ sym o.1;
          nfs_udp = o.3 ∙ ap (λ (b : Bool). b && not settings.opt_tcponly) (sym o.1);
          mount_tcp = λ _. o.4;
          mount_udp = λ _. o.5;
        }
    where
      d1 : State net
      d1 = record d { was_leader = true; is_leader_now = true }

  -- From a state whose variables hold no transport, whether the node is elected at the start or not,
  -- and whatever the net and the cluster do: after any number of rounds the variables hold transports
  -- exactly if the node counts as the leader, and the process has ended only if `become_leader` ends
  -- it in some state.
  svc_run-Serves :
      (elected : Bool) (n : ℕ) (d : State net)
      → d.nfs_tcptransp ≡ none
      → d.nfs_udptransp ≡ none
      → Ends Failed (λ r. Serves r.1) ((start net settings elected >> svc_run net settings n) d)
  svc_run-Serves elected n d no_tcp no_udp =
      bind_Ends Failed (λ r. Serves r.1) (λ r. Serves r.1) (start net settings elected)
        (λ _. svc_run net settings n) d (start_lem elected d no_tcp no_udp)
        λ a s v. svc_run_lem n s v
