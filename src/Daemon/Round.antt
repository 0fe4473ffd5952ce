-- ===== src/Daemon/Round.antt =====
-- daemon.c: become_leader, leadership_lost, and the loop of unfs3_svc_run in the build with poll.
use unfs3_raft.Base.{
  ℕ, zero, suc, ◌*◌, Bool, true, false, not, ◌&&◌, Option, none, some, ◌==◌, if◌then◌else◌,
}
use unfs3_raft.Raft.Replicate.{timeout_ms}
use unfs3_raft.Daemon.{
  Net, PollResult, poll_failed, poll_ready, Settings, Daemon, Run, ◌>>=◌, ◌>>◌, pure, gets, call,
  when, modify, check,
}
use unfs3_raft.Daemon.Transport.{create_udp_transport, create_tcp_transport, unregister_transport}
use unfs3_raft.Daemon.Register.{register_nfs_service, register_mount_service, if_open}

-- How a look at the requests ends: the round goes on, the loop starts again, or it returns.
pub data Polled : Type 0 where
  goes_on starts_again returns : Polled

module _ (net : Net) where
  abbrev pub State : Type 0
  State = Daemon net.State

  abbrev pub on_net : {A : Type 0} → Run net.State A → Run State A
  on_net m d = elim (m d.net) [ none ↦ none | some (a, s) ↦ some (a, record d { net = s }) ]

  -- leadership_lost: unregister_transport leaves NULL in both variables.
  unfoldable pub leadership_lost : Run State Bool
  leadership_lost = do
    d ← gets (λ d. d)
    on_net (if_open net true d.nfs_udptransp (unregister_transport net))
    on_net (if_open net true d.nfs_tcptransp (unregister_transport net))
    modify (λ d. record d { nfs_udptransp = none; nfs_tcptransp = none })

  module _ (settings : Settings) where
    open settings use {opt_tcponly, opt_portmapper, opt_nfs_port, opt_mount_port, opt_bind_addr}

    unfoldable pub new_udp : Run State (Option ℕ)
    new_udp = when opt_tcponly (pure none) (do
      transp ← on_net (create_udp_transport net opt_bind_addr opt_nfs_port)
      pure (some transp))

    -- If the ports differ the process ends here.
    unfoldable pub become_leader : Run State Bool
    become_leader = do
      udptransp ← new_udp
      tcptransp ← on_net (create_tcp_transport net opt_bind_addr opt_nfs_port)
      on_net (register_nfs_service net opt_portmapper udptransp (some tcptransp))
      check (opt_mount_port == opt_nfs_port)
      on_net (register_mount_service net opt_portmapper udptransp (some tcptransp))
      modify (λ d. record d {
        nfs_udptransp = udptransp;
        nfs_tcptransp = some tcptransp;
        mount_udptransp = udptransp;
        mount_tcptransp = some tcptransp;
      })

    unfoldable pub after_poll : PollResult → Run State Polled
    after_poll (poll_failed eintr) = pure (if eintr then starts_again else returns)
    after_poll (poll_ready zero) = pure goes_on
    after_poll (poll_ready (suc r)) =
        modify (λ d. record d { net = net.svc_getreq_poll (suc r) d.net }) >> pure goes_on

    unfoldable pub poll_fds : ℕ → Run State Polled
    poll_fds n = do
      len ← gets (λ d. d.pollfds_len)
      room ← when (len == n) (pure true) (on_net (call (net.realloc_pollfds n)))
      when (not room) (pure returns) (do
        modify (λ d. record d { pollfds_len = n })
        result ← on_net (call (net.poll n))
        after_poll result)

    -- The requests that wait; without descriptors the process sleeps.
    unfoldable pub poll_requests : Run State Polled
    poll_requests = do
      n ← gets (λ d. net.svc_max_pollfd d.net)
      when (n == 0)
          (modify (λ d. record d { net = net.usleep (timeout_ms * 1000) d.net }) >> pure goes_on)
          (poll_fds n)

    unfoldable pub step_down : Run State Bool
    step_down = do
      modify (λ d. record d { net = net.raft_become_follower d.net })
      leadership_lost
      modify (λ d. record d { is_leader_now = false; was_leader = false })

    unfoldable pub follow_raft : Run State Bool
    follow_raft = do
      leads ← gets (λ d. net.raft_is_leader d.net)
      was ← gets (λ d. d.was_leader)
      when (leads && not was) become_leader (when (not leads && was) leadership_lost (pure true))
      modify (λ d. record d { is_leader_now = leads; was_leader = leads })

    unfoldable pub lead : Run State Bool
    lead = do
      modify (λ d. record d { net = net.raft_make_progress d.net })
      disabled ← gets (λ d. net.raft_disabled d.net)
      was ← gets (λ d. d.was_leader)
      when (was && disabled) step_down follow_raft

    -- Whether the loop goes on after a round.
    unfoldable pub finish_round : Polled → Run State Bool
    finish_round goes_on = lead >> pure true
    finish_round starts_again = pure true
    finish_round returns = pure false

    unfoldable pub svc_round : Run State Bool
    svc_round = do
      modify (λ d. record d { net = net.close_inactive d.net })
      polled ← poll_requests
      finish_round polled

    -- The first `n` rounds, or those until the loop returns.
    unfoldable pub svc_run : ℕ → Run State Bool
    svc_run zero d = some (true, d)
    svc_run (suc n) d =
        let rest : State → Option (Bool × State) = svc_run n in
        elim (svc_round d) [
          | none ↦ none
          | some (true, d') ↦ rest d'
          | some (false, d') ↦ some (false, d')
        ]

    -- The part of `main` that follows the election.
    unfoldable pub start : Bool → Run State Bool
    start elected = do
      modify (λ d. record d { was_leader = elected; is_leader_now = elected })
      when elected become_leader (pure true)
