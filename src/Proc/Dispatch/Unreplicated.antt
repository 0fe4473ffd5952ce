-- ===== src/Proc/Dispatch/Unreplicated.antt =====
-- daemon_raft.c: the calls that `nfs_program_3` runs without replicating them.
use unfs3_raft.Proc.Reading.{
  getattr-Reads, access-Reads, readlink-Reads, fsstat-Reads, fsinfo-Reads, pathconf-Reads,
  read-Reads, readdir-Reads,
}
use unfs3_raft.Base.{◌≡◌, refl, ◌∙◌, false, Option, none, some}
use unfs3_raft.Server.{Config, Run, ◌>>=◌, lift, State}
use unfs3_raft.Server.Reads.{Reads, Reads-bind, Reads-pure}
use unfs3_raft.Server.Quiet.{IsViewed}
use unfs3_raft.Raft.Handles.{LocalHandle}
use unfs3_raft.Proc.Info.{readdirplus}
use unfs3_raft.Proc.Dispatch.Local.{is_replicated-local}
use unfs3_raft.Proc.Dispatch.{
  readdirplus_reply, replied, Call, null_call, setattr_call, lookup_call, write_call, create_call,
  mkdir_call, symlink_call, mknod_call, remove_call, rmdir_call, rename_call, link_call,
  commit_call, getattr_call, access_call, readlink_call, read_call, readdir_call, readdirplus_call,
  fsstat_call, fsinfo_call, pathconf_call, Reply, is_replicated, perform, run_local,
}

module _ (c : Config) {V : Type 0} (view : c.backend.Os → V) (v : IsViewed c.backend view) where
  Reads-known :
      {A B : Type 0} (o : Option A) {f : A → Run c.backend.Os B}
      → ((a : A) → o ≡ some a → Reads view (f a))
      → Reads view (lift o >>= f)
  Reads-known none reads = record { same = λ s s' a h. absurd (cc h) }
  Reads-known (some a) reads = record { same = λ s s' b h. (reads a refl).same s s' b h }

  replied-Reads :
      {A : Type 0} (make : A → Reply) (m : Run c.backend.Os A)
      → Reads view m
      → Reads view (replied c make m)
  replied-Reads make m reads = Reads-bind view m _ reads λ a. Reads-pure view (make a)

  perform-Reads : (made : Call) → is_replicated made ≡ false → Reads view (perform c made)
  unfolding perform readdirplus is_replicated
  perform-Reads (getattr_call object) h = replied-Reads _ _ (getattr-Reads c view v object)
  perform-Reads (access_call object wanted) h =
      replied-Reads _ _ (access-Reads c view v object wanted)
  perform-Reads (readlink_call symlink) h = replied-Reads _ _ (readlink-Reads c view v symlink)
  perform-Reads (read_call file offset count) h =
      replied-Reads _ _ (read-Reads c view v file offset count)
  perform-Reads (readdir_call dir cookie count) h =
      replied-Reads _ _ (readdir-Reads c view v dir cookie count)
  perform-Reads (readdirplus_call dir) h =
      replied-Reads readdirplus_reply (readdirplus c) (Reads-pure view _)
  perform-Reads (fsstat_call fsroot) h = replied-Reads _ _ (fsstat-Reads c view v fsroot)
  perform-Reads (fsinfo_call fsroot) h = replied-Reads _ _ (fsinfo-Reads c view v fsroot)
  perform-Reads (pathconf_call object) h = replied-Reads _ _ (pathconf-Reads c view v object)
  perform-Reads null_call h = absurd (cc h)
  perform-Reads (setattr_call o n g) h = absurd (cc h)
  perform-Reads (lookup_call w) h = absurd (cc h)
  perform-Reads (write_call f b o w) h = absurd (cc h)
  perform-Reads (create_call t w) h = absurd (cc h)
  perform-Reads (mkdir_call t n) h = absurd (cc h)
  perform-Reads (symlink_call t a b) h = absurd (cc h)
  perform-Reads (mknod_call t w) h = absurd (cc h)
  perform-Reads (remove_call o) h = absurd (cc h)
  perform-Reads (rmdir_call o) h = absurd (cc h)
  perform-Reads (rename_call f t) h = absurd (cc h)
  perform-Reads (link_call f t) h = absurd (cc h)
  perform-Reads (commit_call f) h = absurd (cc h)

  -- A call that is run without being replicated, and that ends, has changed nothing that `view` sees
  -- of the system, where `view` may see all that is left alone by looking at files and directories,
  -- reading, opening and closing files, and changing the user.
  pub run_local-Reads :
      (here : LocalHandle) (made : Call) (s s' : State c) (reply : Reply)
      → is_replicated made ≡ false
      → run_local c here made s ≡ some (reply, s')
      → view s'.os ≡ view s.os
  unfolding run_local
  run_local-Reads here made s s' reply r h =
      (Reads-known _ (λ mine e.
          perform-Reads mine (is_replicated-local c.host c.junk here made mine e ∙ r))).same
        s s' reply h
