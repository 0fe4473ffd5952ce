-- ===== src/Server/Quiet.antt =====
-- What resolving handles, opening descriptors and changing the user leave alone.
pub mod Handles
use unfs3_raft.Base.{ℕ, ◌≡◌, refl, ap, ◌∙◌, Bool, false, List, take, Option, none, some, arith}
use mathlib.Core.Option.{some-injective}
use unfs3_raft.Backend.{Backend, Access, Permission, rights}
use unfs3_raft.Fs.{FilePath, Stat}
use unfs3_raft.Fh.{Fh, NfsFh}
use unfs3_raft.Fh.Search.{Found}
use unfs3_raft.User.{
  Ids, Request, ExportOptions, as_root, get_uid, get_gid, group_max, switched_request,
  switch_to_root, switch_groups, switch_user,
}
use unfs3_raft.FdCache.{Kind, Table, fd_open, fd_close}
use unfs3_raft.FdCache.Reads.{IsQuiet, view-fd_open, view-fd_close}
use unfs3_raft.Server.{
  Config, ◌>>=◌, ◌>>◌, pure, gets, call, State, fixed_times, decode, run_switch_to_root, switched,
  run_switch_user, regenerate_write_verifier, fd_calls, with_fds, run_fd_open, run_fd_close,
  run_fh_cache_add,
}
use unfs3_raft.Server.Reads.{
  Reads, Reads-state, Reads-pure, Reads-gets, Reads-call, Reads-modify, Reads-bind, Reads-look,
  reads_rules,
}
use unfs3_raft.Server.Handles.{
  set_st_cache, invalidate, decomp_export, run_fh_cache_lookup, store_found, store_located,
  decomp_located, store_raw, decomp_uncached, cached_path, decomp_object, decomp_valid, fh_decomp,
  post_found, get_post_ll, get_post_stat, run_get_post_buf, run_get_post_cached, sane_stat,
  dummy_stat,
}

-- What `view` sees of a system, such as its directories and the contents and attributes of files
-- without the times of access, is not changed by calls that read and by those on the process.
pub record IsViewed (b : Backend) {V : Type 0} (view : b.Os → V) : Type 0 where
  pub by_set_errno : (e : ℕ) (os : b.Os) → view (b.set_errno e os) ≡ view os
  pub by_rand : (os : b.Os) → view (b.rand os).0 ≡ view os
  pub by_setegid : (id : ℕ) (os : b.Os) → view (b.setegid id os).0 ≡ view os
  pub by_seteuid : (id : ℕ) (os : b.Os) → view (b.seteuid id os).0 ≡ view os
  pub by_setgroups : (ids : List ℕ) (os : b.Os) → view (b.setgroups ids os).0 ≡ view os
  pub by_lstat : (path : FilePath) (os : b.Os) → view (b.lstat path os).0 ≡ view os
  pub by_opendir : (path : Option FilePath) (os : b.Os) → view (b.opendir path os).0 ≡ view os
  pub by_statvfs : (path : Option FilePath) (os : b.Os) → view (b.statvfs path os).0 ≡ view os
  pub by_access :
      (path : Option FilePath) (p : Permission) (os : b.Os) → view (b.access path p os).0 ≡ view os
  pub by_readlink :
      (path : Option FilePath) (size : ℕ) (os : b.Os) → view (b.readlink path size os).0 ≡ view os
  pub by_open_file :
      (path : FilePath) (mode : Access) (nonblock : Bool) (os : b.Os)
      → view (b.open_file path mode nonblock os).0 ≡ view os
  pub by_close : (fd : ℕ) (os : b.Os) → view (b.close fd os).0 ≡ view os
  pub by_fsync : (fd : ℕ) (os : b.Os) → view (b.fsync fd os).0 ≡ view os
  pub by_pread : (fd count offset : ℕ) (os : b.Os) → view (b.pread fd count offset os).0 ≡ view os

module _ (c : Config) {V : Type 0} (view : c.backend.Os → V) (v : IsViewed c.backend view) where
  fd_calls-IsQuiet : IsQuiet (fd_calls c) (λ os. view os.0)
  unfolding regenerate_write_verifier
  fd_calls-IsQuiet = record {
    by_fsync = λ fd os. v.by_fsync fd os.0;
    by_close = λ fd os. v.by_close fd os.0;
    by_open = λ path kind os. v.by_open_file path _ false os.0;
    by_eio = λ os. v.by_set_errno c.eio os.0;
    by_eloop = λ os. v.by_set_errno c.errnos.eloop os.0;
    by_verifier = λ os. v.by_rand os.0;
  }

  pub view-as_root : (os : c.backend.Os) → view (as_root (rights c.backend) os) ≡ view os
  view-as_root os = v.by_seteuid 0 _ ∙ v.by_setegid 0 os

  pub decode-Reads : (nfh : NfsFh) → Reads view (decode c nfh)
  unfolding decode
  decode-Reads nfh = search reads_rules

  pub run_switch_to_root-Reads : Reads view (run_switch_to_root c)
  unfolding run_switch_to_root switch_to_root
  run_switch_to_root-Reads = Reads-modify view _ λ s. ground (arith, view-as_root s.os)

  view-switch_user :
      (opts : ExportOptions) (single : Bool) (ids : Ids) (req : Request) (os : c.backend.Os)
      (r : Ids × Request × c.backend.Os)
      → switch_user (rights c.backend) opts single ids req os ≡ some r
      → view r.2 ≡ view os
  unfolding switch_user switch_groups
  view-switch_user opts single ids req os r h =
      let st1 = (c.backend.setegid (get_gid opts ids req) (as_root (rights c.backend) os)).0 in
      let req' = switched_request opts ids req in
      let gids = take (group_max opts ids req) req'.auth.aup_gids in
      let st2 = (c.backend.setgroups gids st1).0 in
      let switched_back : view (c.backend.seteuid (get_uid opts ids req') st2).0 ≡ view os =
        v.by_seteuid (get_uid opts ids req') st2
        ∙ v.by_setgroups gids st1
        ∙ v.by_setegid (get_gid opts ids req) (as_root (rights c.backend) os)
        ∙ view-as_root os in
      ground (arith, switched_back, h)

  view-switched :
      (s s' : State c) (a : Bool) (o : Option (Ids × Request × c.backend.Os))
      → ((r : Ids × Request × c.backend.Os) → o ≡ some r → view r.2 ≡ view s.os)
      → switched c s o ≡ some (a, s')
      → view s'.os ≡ view s.os
  unfolding switched
  view-switched s s' a none kept h = absurd (cc h)
  view-switched s s' a (some (ids', req', os')) kept h =
      let e : os' ≡ s'.os = ap (λ (r : Bool × State c). r.1.os) (some-injective _ _ h) in
      rw (← e) (kept (ids', req', os') refl)

  pub run_switch_user-Reads : Reads view (run_switch_user c)
  unfolding run_switch_user
  run_switch_user-Reads = record {
    same = λ s s' a h. view-switched s s' a _ (λ r e. view-switch_user _ _ _ _ _ r e) h;
  }

  with_fds-Reads :
      {A : Type 0} (f : Table × (c.backend.Os × List ℕ) → (Table × (c.backend.Os × List ℕ)) × A)
      → ((st : Table × (c.backend.Os × List ℕ)) → view (f st).0.1.0 ≡ view st.1.0)
      → Reads view (with_fds c f)
  with_fds-Reads f kept =
      Reads-state view (with_fds c f) (λ s. (f (s.fds, (s.os, s.wverf))).1)
        (λ s.
          let (state, a) = f (s.fds, (s.os, s.wverf)) in
          record s { fds = state.0; os = state.1.0; wverf = state.1.1 })
        (λ s. refl) (λ s. kept (s.fds, (s.os, s.wverf)))

  pub run_fd_open-Reads :
      (path : FilePath) (nfh : NfsFh) (kind : Kind) (allow_caching : Bool)
      → Reads view (run_fd_open c path nfh kind allow_caching)
  unfolding run_fd_open
  run_fd_open-Reads path nfh kind allow_caching =
      Reads-bind view (decode c nfh) _ (decode-Reads nfh) λ fh.
        Reads-bind view (gets λ s. c.backend.time s.os) _ (Reads-gets view _) λ now.
          with_fds-Reads (fd_open (fd_calls c) fh path kind allow_caching now) (
            view-fd_open (fd_calls c) (λ os. view os.0) fd_calls-IsQuiet fh path kind allow_caching
              now)

  pub run_fd_close-Reads :
      (fd : ℕ) (kind : Kind) (really_close : Bool)
      → Reads view (run_fd_close c fd kind really_close)
  unfolding run_fd_close
  run_fd_close-Reads fd kind really_close =
      Reads-bind view (gets λ s. c.backend.time s.os) _ (Reads-gets view _) λ now.
        with_fds-Reads (fd_close (fd_calls c) fd kind really_close now)
          (view-fd_close (fd_calls c) (λ os. view os.0) fd_calls-IsQuiet fd kind really_close now)
