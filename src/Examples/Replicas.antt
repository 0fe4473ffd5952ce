-- ===== src/Examples/Replicas.antt =====
-- A leader whose entry is committed while it waits, and a node that is elected later.
use unfs3_raft.Base.{
  Bool, not, ◌&&◌, ◌||◌, ◌==◌, ==_refl, ℕ, zero, suc, ◌+◌, ◌≤◌, ◌≡◌, refl, true, false, none, some,
  [], ◌∷◌, arith, ltb, if◌then◌else◌, inr,
}
use unfs3_raft.Raft.Ring.{Ring, put_result}
use unfs3_raft.Raft.Ring.Collect.{put_all}
use unfs3_raft.Raft.Replicate.{
  RaftServer, Timespec, raft_make_progress, wait_round, rounds, raft_serialize_and_replicate_nfs_op,
}
use unfs3_raft.Raft.Replicate.Commit.{CommitsWithin, Answers, replicated}
use unfs3_raft.Daemon.{
  Program, nfs3_program, mountprog, Net, Settings, Daemon, pf_inet6, sock_stream, poll_ready,
}
use unfs3_raft.Daemon.Round.{leadership_lost, become_leader}
use unfs3_raft.Daemon.Registered.{IsRegistry}
use unfs3_raft.Daemon.Handover.{IsLiving, CanFail, Serving, Retired, handover_lem}
use unfs3_raft.Daemon.Keeps.{Ends}

abbrev no_results : Ring ℕ
no_results = record {
  result_buffer = λ i. record { index = 0; data_ptr = 0 };
  write_pos = 0;
  read_pos = 0;
}

abbrev moment : Timespec
moment = record { tv_sec = 1; tv_nsec = 0 }

-- The state is the index that is committed, with the results.
abbrev test_server : RaftServer ℕ
test_server = record {
  State = ℕ × Ring ℕ;
  is_leader = λ st. true;
  current_leader = λ st. some 1;
  current_idx = λ st. 6;
  commit_idx = λ st. st.0;
  apply_all = λ st. if ltb st.0 7 then st else (st.0, put_result 7 70 st.1);
  recv_entry = λ st entry. (st, some 7);
  periodic = λ elapsed st. st;
  net_receive = λ st. st;
  usleep = λ usec st. (7, st.1);
  clock = λ st. moment;
  last_progress_time = λ st. moment;
  set_last_progress_time = λ time st. st;
  raft_disabled = λ st. false;
  ring = λ st. st.1;
  set_ring = λ ring st. (st.0, ring);
}

commits : CommitsWithin test_server 1 7 (0, no_results)
unfolding wait_round raft_make_progress
commits = inr (refl, omega arith)

applies :
    (m : ℕ)
    → m ≤ 1
    → 7 ≤ (rounds test_server m (0, no_results)).0
    → (d : ℕ) × Answers test_server 7 d (rounds test_server m (0, no_results))
unfolding wait_round raft_make_progress put_all
applies zero few done = absurd (omega (arith, done))
applies (suc zero) few done = (
  70,
  record {
    before = no_results;
    others = [];
    valid = record { write_in = omega arith; read_in = omega arith };
    absent = tt;
    other = tt;
    put = refl;
  },
)
applies (suc (suc m)) few done = absurd (omega arith)

replicated_example :
    (m : ℕ) × (d : ℕ) × (st' : ℕ × Ring ℕ) × (m ≤ 1)
    × Answers test_server 7 d (rounds test_server m (0, no_results))
    × (raft_serialize_and_replicate_nfs_op test_server 16 0
          (λ size. true)
          2
          1
          []
          none
          4
          (some (1 ∷ 2 ∷ 3 ∷ 4 ∷ []))
          (0, no_results)
        ≡ some (some d, st'))
replicated_example =
    replicated test_server 16 0 (λ size. true) 1 [] none 4 (1 ∷ 2 ∷ 3 ∷ 4 ∷ []) (0, no_results)
      (0, no_results) 7 1 refl refl refl refl commits applies 2 (omega arith)

-- The next transport, what is registered, and which transports there are.
abbrev Rpc : Type 0
Rpc = ℕ × (ℕ → Program → ℕ → Bool) × (ℕ → Bool)

abbrev same_program : Program → Program → Bool
same_program nfs3_program nfs3_program = true
same_program nfs3_program mountprog = false
same_program mountprog nfs3_program = false
same_program mountprog mountprog = true

abbrev test_net : Net
test_net = record {
  State = Rpc;
  no_family = λ s. false;
  socket = λ domain type s. (s, some 5);
  socket_domain = λ fd s. some pf_inet6;
  socket_type = λ fd s. some sock_stream;
  clear_v6only = λ fd s. s;
  set_reuseaddr = λ fd s. s;
  bind = λ fd addr s. (s, true);
  listen = λ fd s. (s, true);
  usleep = λ usec s. s;
  svc_create = λ type fd s. ((s.0 + 1, s.1, λ x. (x == s.0) || s.2 x), some s.0);
  xp_fd = λ transp s. 5;
  getnetconfigent = λ id s. true;
  svc_reg = λ transp prog vers id s. (
    (s.0, (λ t p v. ((t == transp) && (same_program p prog && (v == vers))) || s.1 t p v), s.2),
    true,
  );
  svc_unreg =
      λ prog vers s. (s.0, (λ t p v. not (same_program p prog && (v == vers)) && s.1 t p v), s.2);
  xprt_unregister = λ transp s. s;
  shutdown = λ fd s. s;
  svc_destroy = λ transp s. (s.0, s.1, λ x. not (x == transp) && s.2 x);
  close_inactive = λ s. s;
  svc_max_pollfd = λ s. 1;
  realloc_pollfds = λ count s. (s, true);
  poll = λ count s. (s, poll_ready 1);
  svc_getreq_poll = λ count s. s;
  raft_make_progress = λ s. s;
  raft_disabled = λ s. false;
  raft_is_leader = λ s. true;
  raft_become_follower = λ s. s;
}

abbrev registered : ℕ → Program → ℕ → Rpc → Bool
registered t p v s = s.1 t p v

abbrev alive : ℕ → Rpc → Bool
alive t s = s.2 t

same_program_refl : (p : Program) → same_program p p ≡ true
same_program_refl nfs3_program = refl
same_program_refl mountprog = refl

test_net-IsRegistry : IsRegistry test_net registered
test_net-IsRegistry = record {
  registers = λ t p v id s ok. rw (==_refl t, same_program_refl p, ==_refl v) refl;
  reg_keeps = λ t p v id s t' p' v' h. ground (arith, h);
  unreg_keeps = λ v s t v' h. h;
}

test_net-IsLiving : IsLiving test_net alive
test_net-IsLiving = record {
  destroyed = λ t s. rw (==_refl t) refl;
  by_xprt_unregister = λ t x s h. h;
  by_shutdown = λ fd x s h. h;
  by_svc_destroy = λ t x s h. ground (arith, h);
}

abbrev test_settings : Settings
test_settings = record {
  opt_tcponly = false;
  opt_portmapper = true;
  opt_nfs_port = 2049;
  opt_mount_port = 2049;
  opt_bind_addr = 0 ∷ 0 ∷ 0 ∷ 0 ∷ [];
}

-- A node that holds the transports 1 and 2.
abbrev holding : Daemon Rpc
holding = record {
  net = (3, (λ t p v. false), λ t. (t == 1) || (t == 2));
  nfs_udptransp = some 1;
  nfs_tcptransp = some 2;
  mount_udptransp = some 1;
  mount_tcptransp = some 2;
  was_leader = true;
  is_leader_now = true;
  pollfds_len = 0;
}

handover_lem_example :
    let serving =
      Serving test_net test_settings registered alive test_net-IsRegistry test_net-IsLiving
        holding in
    let retired =
      Retired test_net test_settings registered alive test_net-IsRegistry test_net-IsLiving
        holding in
    Ends
      (CanFail test_net test_settings registered alive test_net-IsRegistry test_net-IsLiving)
      (λ r. serving r.1)
      (become_leader test_net test_settings holding)
    × Ends ⊥ (λ r. retired r.1) (leadership_lost test_net holding)
handover_lem_example =
    handover_lem test_net test_settings registered alive test_net-IsRegistry test_net-IsLiving
      holding
