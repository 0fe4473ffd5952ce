-- ===== src/Mount/Program.antt =====
-- daemon.c: mountprog_3, and the procedures of mount.c that only read.
use unfs3_raft.Base.{ℕ, List, Option, none, some, ◌==◌, if◌then◌else◌}
use unfs3_raft.Fs.{FilePath}
use unfs3_raft.Exports.Build.{ExportNode}
use unfs3_raft.Server.{Config, Run, ◌>>=◌, pure}
use unfs3_raft.Mount.{MountBody, Mounts, MountRes, Caller, mnt, umnt, umntall}

pub data MountProc : Type 0 where
  mountproc_null mountproc_mnt mountproc_dump mountproc_umnt : MountProc
  mountproc_umntall mountproc_export : MountProc

-- What is sent: a result, svcerr_noproc or svcerr_decode.
pub data MountReply : Type 0 where
  void_reply noproc not_decoded : MountReply
  mountres3 : MountRes → MountReply
  mountlist : List MountBody → MountReply
  exports : List ExportNode → MountReply

unfoldable pub mount_proc : ℕ → Option MountProc
mount_proc rq_proc =
    if rq_proc == 0
    then some mountproc_null
    else if rq_proc == 1
    then some mountproc_mnt
    else if rq_proc == 2
    then some mountproc_dump
    else if rq_proc == 3
    then some mountproc_umnt
    else if rq_proc == 4
    then some mountproc_umntall
    else if rq_proc == 5
    then some mountproc_export
    else none

module _ (c : Config) (k : Caller c.backend.Os) (exports_nfslist : List ExportNode) where
  -- `path` is the argument where there is one.
  unfoldable pub run_mount_proc :
      MountProc → FilePath → Mounts → Run c.backend.Os (MountReply × Mounts)
  run_mount_proc mountproc_null path m = pure (void_reply, m)
  run_mount_proc mountproc_mnt path m = do (res, m') ← mnt c k path m; pure (mountres3 res, m')
  run_mount_proc mountproc_dump path m = pure (mountlist m.mount_list, m)
  run_mount_proc mountproc_umnt path m = do m' ← umnt c k path m; pure (void_reply, m')
  run_mount_proc mountproc_umntall path m = do m' ← umntall c k m; pure (void_reply, m')
  run_mount_proc mountproc_export path m = pure (exports exports_nfslist, m)

  -- `argument` is what svc_getargs gives, and `none` if it fails; without an argument, any path.
  unfoldable pub mountprog_3 : ℕ → Option FilePath → Mounts → Run c.backend.Os (MountReply × Mounts)
  mountprog_3 rq_proc argument m = elim (mount_proc rq_proc) [
    | none ↦ pure (noproc, m)
    | some proc ↦ elim argument [
      | none ↦ pure (not_decoded, m)
      | some path ↦ run_mount_proc proc path m
    ]
  ]
