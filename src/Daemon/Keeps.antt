-- ===== src/Daemon/Keeps.antt =====
-- What a look at the requests leaves alone: everything but the net and the array of descriptors.
use unfs3_raft.Base.{ℕ, zero, suc, ◌≡◌, refl, ◌*◌, Bool, true, false, not, Option, none, some, ◌==◌}
use unfs3_raft.Raft.Replicate.{timeout_ms}
use unfs3_raft.Daemon.{
  Net, PollResult, poll_failed, poll_ready, Settings, Run, ◌>>=◌, ◌>>◌, pure, call, when, check,
}
use unfs3_raft.Daemon.Round.{returns, State, on_net, after_poll, poll_fds, poll_requests}

-- What a run may leave, `P`, or what is known where the process has ended, `E`.
abbrev pub Ends : {N A : Type 0} → Type 0 → (A × N → Type 0) → Option (A × N) → Type 0
Ends E P none = E
Ends E P (some r) = P r

pub bind_Ends :
    {N A B : Type 0} (E : Type 0) (P : A × N → Type 0) (Q : B × N → Type 0) (m : Run N A)
    (f : A → Run N B) (s : N)
    → Ends E P (m s)
    → ((a : A) (s' : N) → P (a, s') → Ends E Q (f a s'))
    → Ends E Q ((m >>= f) s)
bind_Ends {N} {A} {B} E P Q m f s p next = go (m s) p
  where
    go :
        (o : Option (A × N))
        → Ends E P o
        → Ends {A = B} E Q (elim o [ none ↦ none | some (a, s') ↦ f a s' ])
    go none p = p
    go (some (a, s')) p = next a s' p

pub then_Ends :
    {N A : Type 0} (E : Type 0) (P Q : A × N → Type 0) (o : Option (A × N))
    → Ends E P o
    → ((r : A × N) → P r → Q r)
    → Ends E Q o
then_Ends E P Q none h next = h
then_Ends E P Q (some r) h next = next r h

pub check-Ends :
    {N B : Type 0} (Q : B × N → Type 0) (b : Bool) (m : Run N B) (s : N)
    → Ends Unit Q (m s)
    → Ends Unit Q ((check b >> m) s)
check-Ends Q true m s h = h
check-Ends Q false m s h = tt

pub when-Ends :
    {N A : Type 0} (E : Type 0) (Q : A × N → Type 0) (b : Bool) (m n : Run N A) (s : N)
    → (b ≡ true → Ends E Q (m s))
    → (b ≡ false → Ends E Q (n s))
    → Ends E Q (when b m n s)
when-Ends E Q true m n s on off = on refl
when-Ends E Q false m n s on off = off refl

module _ (net : Net) where
  -- Everything but the net and the length of the array of descriptors is as it was.
  pub record Same (d d' : State net) : Type 0 where
    pub leader_now : d'.is_leader_now ≡ d.is_leader_now
    pub was : d'.was_leader ≡ d.was_leader
    pub nfs_tcp : d'.nfs_tcptransp ≡ d.nfs_tcptransp
    pub nfs_udp : d'.nfs_udptransp ≡ d.nfs_udptransp
    pub mount_tcp : d'.mount_tcptransp ≡ d.mount_tcptransp
    pub mount_udp : d'.mount_udptransp ≡ d.mount_udptransp

  pub Same-net : (d d' : State net) (s : net.State) → Same d d' → Same d (record d' { net = s })
  Same-net d d' s e = record {
    leader_now = e.leader_now;
    was = e.was;
    nfs_tcp = e.nfs_tcp;
    nfs_udp = e.nfs_udp;
    mount_tcp = e.mount_tcp;
    mount_udp = e.mount_udp;
  }

  Same-len : (d d' : State net) (n : ℕ) → Same d d' → Same d (record d' { pollfds_len = n })
  Same-len d d' n e = record {
    leader_now = e.leader_now;
    was = e.was;
    nfs_tcp = e.nfs_tcp;
    nfs_udp = e.nfs_udp;
    mount_tcp = e.mount_tcp;
    mount_udp = e.mount_udp;
  }

  pub Same-refl : (d : State net) → Same d d
  Same-refl d = record {
    leader_now = refl;
    was = refl;
    nfs_tcp = refl;
    nfs_udp = refl;
    mount_tcp = refl;
    mount_udp = refl;
  }

  -- A run that leaves everything but the net and the descriptors alone.
  abbrev pub Keeps : {A : Type 0} → Type 0 → State net → Option (A × State net) → Type 0
  Keeps E d o = Ends E (λ r. Same d r.1) o

  pub on_net-Keeps :
      {A E : Type 0} (m : Run net.State A) (d d' : State net)
      → (m d'.net ≡ none → E)
      → Same d d'
      → Keeps E d (on_net net m d')
  on_net-Keeps {A} {E} m d d' ended e = go (m d'.net) ended
    where
      go :
          (o : Option (A × net.State))
          → (o ≡ none → E)
          → Keeps {A = A} E d
              (elim o [ none ↦ none | some (a, s) ↦ some (a, record d' { net = s }) ])
      go none ended = ended refl
      go (some (a, s)) ended = Same-net d d' s e

  -- A step that keeps, and then another.
  pub then_Keeps :
      {A B : Type 0} (E : Type 0) (Q : B × State net → Type 0) (d : State net)
      (m : Run (State net) A) (f : A → Run (State net) B) (d' : State net)
      → Keeps E d (m d')
      → ((a : A) (s : State net) → Same d s → Ends E Q (f a s))
      → Ends E Q ((m >>= f) d')
  then_Keeps E Q d m f d' k next = bind_Ends E (λ r. Same d r.1) Q m f d' k next

  module _ (settings : Settings) (E : Type 0) where
    after_poll-Keeps :
        (result : PollResult) (d d' : State net)
        → Same d d'
        → Keeps E d (after_poll net settings result d')
    unfolding after_poll
    after_poll-Keeps (poll_failed eintr) d d' e = e
    after_poll-Keeps (poll_ready zero) d d' e = e
    after_poll-Keeps (poll_ready (suc r)) d d' e =
        Same-net d d' (net.svc_getreq_poll (suc r) d'.net) e

    poll_fds-Keeps : (n : ℕ) (d d' : State net) → Same d d' → Keeps E d (poll_fds net settings n d')
    unfolding poll_fds
    poll_fds-Keeps n d d' e =
        then_Keeps E (λ r. Same d r.1) d
          (when (d'.pollfds_len == n) (pure true) (on_net net (call (net.realloc_pollfds n)))) _ d'
          (when-Ends E (λ r. Same d r.1) (d'.pollfds_len == n) (pure true)
            (on_net net (call (net.realloc_pollfds n))) d' (λ _. e)
            (λ _. on_net-Keeps {E = E} (call (net.realloc_pollfds n)) d d' (λ x. absurd (cc x)) e))
          λ room s1 e1.
            when-Ends E (λ r. Same d r.1) (not room) (pure returns) _ s1 (λ _. e1)
              (λ _.
                then_Keeps E (λ r. Same d r.1) d (on_net net (call (net.poll n)))
                  (after_poll net settings) (record s1 { pollfds_len = n })
                  (on_net-Keeps {E = E} (call (net.poll n)) d (record s1 { pollfds_len = n })
                    (λ x. absurd (cc x)) (Same-len d s1 n e1))
                  λ result s2 e2. after_poll-Keeps result d s2 e2)

    pub poll_requests-Keeps :
        (d d' : State net) → Same d d' → Keeps E d (poll_requests net settings d')
    unfolding poll_requests
    poll_requests-Keeps d d' e =
        when-Ends E (λ r. Same d r.1) (net.svc_max_pollfd d'.net == 0) _
          (poll_fds net settings (net.svc_max_pollfd d'.net)) d'
          (λ _. Same-net d d' (net.usleep (timeout_ms * 1000) d'.net) e)
          (λ _. poll_fds-Keeps (net.svc_max_pollfd d'.net) d d' e)
