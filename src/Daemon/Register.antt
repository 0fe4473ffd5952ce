-- ===== src/Daemon/Register.antt =====
-- daemon.c: the registration of the services.
use unfs3_raft.Base.{ℕ, Bool, true, Option, none, some}
use unfs3_raft.Daemon.{
  Domain, pf_inet6, pf_inet, SockType, sock_stream, sock_dgram, NetId, udp, tcp, udp6, tcp6,
  Program, nfs3_program, mountprog, Net, Run, ◌>>=◌, ◌>>◌, pure, gets, call, must, when, modify,
  check,
}

-- NFS_V3, MOUNTVERS1 and MOUNTVERS3
abbrev pub nfs_v3 : ℕ
nfs_v3 = 3

abbrev pub mountvers1 : ℕ
mountvers1 = 1

abbrev pub mountvers3 : ℕ
mountvers3 = 3

abbrev pub netid : SockType → NetId
netid sock_stream = tcp
netid sock_dgram = udp

abbrev pub netid6 : SockType → NetId
netid6 sock_stream = tcp6
netid6 sock_dgram = udp6

module _ (net : Net) (opt_portmapper : Bool) where
  -- The entry of a net in the portmapper's database has to be there.
  unfoldable pub register_with : ℕ → Program → ℕ → NetId → Run net.State Bool
  register_with transp prog vers id = do
    known ← gets (net.getnetconfigent id)
    check known
    registered ← call (net.svc_reg transp prog vers (some id))
    check registered

  unfoldable pub register_second : ℕ → Program → ℕ → SockType → Domain → Run net.State Bool
  register_second transp prog vers type pf_inet6 = register_with transp prog vers (netid6 type)
  register_second transp prog vers type pf_inet = pure true

  -- _register_service
  unfoldable pub register_service : ℕ → Program → ℕ → Run net.State Bool
  register_service transp prog vers = do
    fd ← gets (net.xp_fd transp)
    type_known ← gets (net.socket_type fd)
    type ← must type_known
    when opt_portmapper
        (do
          register_with transp prog vers (netid type)
          domain_known ← gets (net.socket_domain fd)
          domain ← must domain_known
          register_second transp prog vers type domain)
        (do registered ← call (net.svc_reg transp prog vers none); check registered)

  unfoldable pub unregister : Program → ℕ → Run net.State Bool
  unregister prog vers = when opt_portmapper (modify (net.svc_unreg prog vers)) (pure true)

  unfoldable pub if_open : Option ℕ → (ℕ → Run net.State Bool) → Run net.State Bool
  if_open none m = pure true
  if_open (some transp) m = m transp

  unfoldable pub register_nfs_service : Option ℕ → Option ℕ → Run net.State Bool
  register_nfs_service udptransp tcptransp = do
    unregister nfs3_program nfs_v3
    if_open udptransp (λ transp. register_service transp nfs3_program nfs_v3)
    if_open tcptransp (λ transp. register_service transp nfs3_program nfs_v3)

  unfoldable pub register_versions : ℕ → Run net.State Bool
  register_versions transp =
      register_service transp mountprog mountvers1 >> register_service transp mountprog mountvers3

  unfoldable pub register_mount_service : Option ℕ → Option ℕ → Run net.State Bool
  register_mount_service udptransp tcptransp = do
    unregister mountprog mountvers1
    unregister mountprog mountvers3
    if_open udptransp register_versions
    if_open tcptransp register_versions
