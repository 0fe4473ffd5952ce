-- ===== src/Proc/Reading.antt =====
-- nfs.c: the procedures that are run without being replicated leave alone what `view` sees.
use unfs3_raft.Base.{ℕ, ◌≡◌, refl, ◌∙◌, Bool, true, Option, none, some, List, ◌==◌, ◌+◌, ◌-◌, arith}
use unfs3_raft.Backend.{Permission, r_ok, w_ok, x_ok, rights}
use unfs3_raft.User.{Ids, Request, ExportOptions, get_uid, read_executable, read_by_owner}
use unfs3_raft.Fs.{FilePath, Stat, nfs_maxpathlen}
use unfs3_raft.Nfs.{Fattr3, nfs3_ok, nf3dir}
use unfs3_raft.Exports.{export_options}
use unfs3_raft.Backend.{StatVfs}
use unfs3_raft.Attr.{is_reg}
use unfs3_raft.Fh.{NfsFh}
use unfs3_raft.FdCache.{fd_read}
use unfs3_raft.Readdir.{Listing}
use unfs3_raft.Readdir.Reads.{view-read_dir}
use unfs3_raft.Server.{Config, Run, ◌>>=◌, ◌>>◌, pure, lift, gets, call, when, State}
use unfs3_raft.Server.Reads.{
  Reads, Reads-call, Reads-modify, Reads-bind, Reads-gets, Reads-lift, Reads-pure, Reads-when,
  reads_rules,
}
use unfs3_raft.Server.Quiet.{
  IsViewed, view-as_root, decode-Reads, run_switch_to_root-Reads, run_switch_user-Reads,
  run_fd_open-Reads, run_fd_close-Reads,
}
use unfs3_raft.Server.Quiet.Handles.{
  fh_decomp-Reads, run_get_post_cached-Reads, get_post_stat-Reads,
}
use unfs3_raft.Server.Handles.{get_post_stat, run_get_post_cached}
use unfs3_raft.Proc.{prep}
use unfs3_raft.Proc.Info.{
  getattr, access, read_target, access_bits, attributes_of, readlink, readdir,
}
use unfs3_raft.Proc.Limits.{no_statvfs, fsstat_of, fsstat, fsinfo, pathconf}
use unfs3_raft.Proc.Io.{clamp, read_result, read_from, read_open, switch_for_read, read}

module _ (c : Config) {V : Type 0} (view : c.backend.Os → V) (v : IsViewed c.backend view) where
  pub prep-Reads : (fh : NfsFh) → Reads view (prep c fh)
  unfolding prep
  prep-Reads fh = search (
    reads_rules,
    decode-Reads c view v fh,
    run_switch_to_root-Reads c view v,
    fh_decomp-Reads c view v fh,
    run_switch_user-Reads c view v,
  )

  attributes-Reads : Reads view (run_get_post_cached c)
  attributes-Reads = run_get_post_cached-Reads c view v

  pub getattr-Reads : (object : NfsFh) → Reads view (getattr c object)
  unfolding getattr
  getattr-Reads object =
      Reads-bind view _ _ (prep-Reads object)
        λ path. Reads-bind view _ _ attributes-Reads λ post. Reads-pure view _

  abbrev is_root : Run c.backend.Os Bool
  is_root = gets λ s. get_uid (export_options s.exports) s.ids s.req == 0

  permitted-Reads :
      (path : Option FilePath) (p : Permission) → Reads view (call (c.backend.access path p))
  permitted-Reads path p = Reads-call view (c.backend.access path p) (v.by_access path p)

  is_root-Reads : Reads view is_root
  is_root-Reads = Reads-gets view _

  pub access-Reads : (object : NfsFh) (wanted : ℕ) → Reads view (access c object wanted)
  unfolding access
  access-Reads object wanted = Reads-bind view _ _ (prep-Reads object) λ path.
      Reads-bind view _ _ attributes-Reads λ post.
        Reads-bind view _ _ (permitted-Reads path r_ok) λ r.
          Reads-bind view _ _ (permitted-Reads path w_ok) λ w.
            Reads-bind view _ _ (permitted-Reads path x_ok) λ x.
              Reads-bind view is_root _ is_root-Reads λ root. Reads-pure view (
                nfs3_ok,
                access_bits r w x c.opts.opt_readable_executables root
                    ((attributes_of post).type == nf3dir) wanted,
                post,
              )

  read_target-Reads : (o : Option (List ℕ)) → Reads view (read_target c o)
  unfolding read_target
  read_target-Reads none = Reads-gets view _
  read_target-Reads (some target) = Reads-pure view _

  pub readlink-Reads : (symlink : NfsFh) → Reads view (readlink c symlink)
  unfolding readlink
  readlink-Reads symlink = Reads-bind view _ _ (prep-Reads symlink) λ path.
      Reads-bind view (call (c.backend.readlink path (nfs_maxpathlen - 1))) _
        (Reads-call view _ (v.by_readlink path _))
        λ found. Reads-bind view _ _ (read_target-Reads found) λ r.
          Reads-bind view _ _ (get_post_stat-Reads c view v path)
            λ post. Reads-pure view (r.0, r.1, post)

  no_statvfs-Reads : (path : Option FilePath) → Reads view (no_statvfs c path)
  unfolding no_statvfs
  no_statvfs-Reads path = search reads_rules

  pub fsstat-Reads : (fsroot : NfsFh) → Reads view (fsstat c fsroot)
  unfolding fsstat
  fsstat-Reads fsroot = Reads-bind view _ _ (prep-Reads fsroot) λ path.
      Reads-bind view _ _ attributes-Reads λ attributes.
        Reads-bind view _ _ (Reads-call view (c.backend.statvfs path) (v.by_statvfs path)) λ found.
          Reads-bind view _ _ (space path found) λ result. Reads-pure view (result, attributes)
    where
      space :
          (path : Option FilePath) (found : Option StatVfs)
          → Reads view (elim found [ none ↦ no_statvfs c path | some buf ↦ pure (fsstat_of buf) ])
      space path none = no_statvfs-Reads path
      space path (some buf) = Reads-pure view _

  pub fsinfo-Reads : (fsroot : NfsFh) → Reads view (fsinfo c fsroot)
  unfolding fsinfo
  fsinfo-Reads fsroot =
      Reads-bind view _ _ (prep-Reads fsroot)
        λ path. Reads-bind view _ _ attributes-Reads λ post. Reads-pure view _

  pub pathconf-Reads : (object : NfsFh) → Reads view (pathconf c object)
  unfolding pathconf
  pathconf-Reads object =
      Reads-bind view _ _ (prep-Reads object)
        λ path. Reads-bind view _ _ attributes-Reads λ post. Reads-pure view _

  read_result-Reads : (fd count : ℕ) (o : Option (List ℕ)) → Reads view (read_result c fd count o)
  unfolding read_result
  read_result-Reads fd count none =
      search (reads_rules, run_fd_close-Reads c view v fd fd_read true)
  read_result-Reads fd count (some bytes) =
      Reads-bind view _ _ (run_fd_close-Reads c view v fd fd_read _) λ closed. Reads-pure view _

  read_from-Reads : (offset count : ℕ) (fd : Option ℕ) → Reads view (read_from c offset count fd)
  unfolding read_from
  read_from-Reads offset count none = search reads_rules
  read_from-Reads offset count (some fd) =
      Reads-bind view _ _ (Reads-call view _ (v.by_pread fd (count + 1) offset))
        λ o. read_result-Reads fd count o

  read_open-Reads :
      (path : Option FilePath) (file : NfsFh) (offset count : ℕ)
      → Reads view (read_open c path file offset count)
  unfolding read_open
  read_open-Reads path file offset count = Reads-bind view _ _ (Reads-lift view path) λ p.
      Reads-bind view _ _ (run_fd_open-Reads c view v p file fd_read true)
        λ fd. read_from-Reads offset count fd

  view-read_executable :
      (opts : ExportOptions) (ids : Ids) (req : Request) (buf : Stat) (os : c.backend.Os)
      → view (read_executable (rights c.backend) opts ids req buf os) ≡ view os
  unfolding read_executable
  view-read_executable opts ids req buf os = ground (arith, view-as_root c view v os)

  view-read_by_owner :
      (opts : ExportOptions) (ids : Ids) (req : Request) (buf : Stat) (os : c.backend.Os)
      → view (read_by_owner (rights c.backend) opts ids req buf os) ≡ view os
  unfolding read_by_owner
  view-read_by_owner opts ids req buf os = ground (arith, view-as_root c view v os)

  switch_for_read-Reads : Reads view (switch_for_read c)
  unfolding switch_for_read
  switch_for_read-Reads = Reads-modify view _ λ s.
      view-read_by_owner _ s.ids s.req s.st.st_cache _
      ∙ view-read_executable (export_options s.exports) s.ids s.req s.st.st_cache s.os

  pub read-Reads : (file : NfsFh) (offset asked : ℕ) → Reads view (read c file offset asked)
  unfolding read
  read-Reads file offset asked = Reads-bind view _ _ (prep-Reads file) λ path.
      Reads-bind view (gets λ s. is_reg s.st) _ (Reads-gets view _) λ status.
        Reads-bind view _ _ switch_for_read-Reads λ switched.
          Reads-bind view
            (when (status == nfs3_ok) (read_open c path file offset (clamp c.is_stream asked))
              (pure (status, none)))
            _ (Reads-when view _ _ _ (read_open-Reads path file offset _) (Reads-pure view _))
            λ answer.
              Reads-bind view _ _ (get_post_stat-Reads c view v path)
                λ post. Reads-pure view (answer, post)

  view-listed :
      (path : Option FilePath) (opened : Option (c.backend.Os × Listing)) (s s' : State c)
      (a : Listing × Option Fattr3)
      → ((os : c.backend.Os) (listing : Listing)
          → opened ≡ some (os, listing)
          → view os ≡ view s.os)
      → (lift opened >>= λ r.
            call (λ os. (r.0, true)) >> (get_post_stat c path >>= λ post. pure (r.1, post)))
          s
        ≡ some (a, s')
      → view s'.os ≡ view s.os
  view-listed path none s s' a kept h = absurd (cc h)
  view-listed path (some (os, listing)) s s' a kept h =
      (Reads-bind view _ _ (get_post_stat-Reads c view v path)
          λ post. Reads-pure view (listing, post)).same
        (record s { os = os }) s' a h
      ∙ kept os listing refl

  pub readdir-Reads : (dir : NfsFh) (cookie count : ℕ) → Reads view (readdir c dir cookie count)
  unfolding readdir
  readdir-Reads dir cookie count = Reads-bind view _ _ (prep-Reads dir) λ path. record {
    same = λ s s' a h.
        view-listed path _ s s' a
          (λ os listing e.
            view-read_dir c.backend c.errnos c.opts.opt_32_bit_truncate s.rcookie view v.by_lstat
              v.by_opendir c.export_list s.exports.exports_opts path cookie count s.os os listing e)
          h;
  }
