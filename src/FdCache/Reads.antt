-- ===== src/FdCache/Reads.antt =====
-- What opening and closing descriptors leaves alone.
use unfs3_raft.Base.{
  ℕ, ◌≡◌, refl, ◌∙◌, Bool, true, false, not, ◌&&◌, Option, none, some, arith, if◌then◌else◌,
}
use unfs3_raft.Fs.{FilePath}
use unfs3_raft.Fh.{Fh}
use unfs3_raft.FdCache.{
  Kind, fd_read, fd_write, Table, Calls, close_kind, close_slot, fd_cache_del, opened, cached,
  open_at, fd_open, close_at, fd_close, idx_by_fh, idx_by_fd,
}

module _ (calls : Calls) {V : Type 0} (view : calls.Os → V) where
  open calls use {Os, fsync, close, open_file, set_eio, set_eloop, regenerate_write_verifier}

  -- The calls that these functions make, WRITE excepted, do not change what `view` sees.
  pub record IsQuiet : Type 0 where
    pub by_fsync : (fd : ℕ) (os : Os) → view (fsync fd os).0 ≡ view os
    pub by_close : (fd : ℕ) (os : Os) → view (close fd os).0 ≡ view os
    pub by_open :
        (path : FilePath) (kind : Kind) (os : Os) → view (open_file path kind os).0 ≡ view os
    pub by_eio : (os : Os) → view (set_eio os) ≡ view os
    pub by_eloop : (os : Os) → view (set_eloop os) ≡ view os
    pub by_verifier : (os : Os) → view (regenerate_write_verifier os) ≡ view os

  module _ (q : IsQuiet) where
    view-close_kind :
        (kind : Kind) (fd : ℕ) (os : Os) → view (close_kind calls kind fd os).0 ≡ view os
    unfolding close_kind
    view-close_kind fd_read fd os = q.by_close fd os
    view-close_kind fd_write fd os = q.by_close fd (fsync fd os).0 ∙ q.by_fsync fd os

    view-close_slot :
        (fd : Option ℕ) (kind : Kind) (os : Os) → view (close_slot calls fd kind os).0 ≡ view os
    unfolding close_slot
    view-close_slot none kind os = q.by_eio os
    view-close_slot (some fd) kind os = view-close_kind kind fd os

    view-fd_cache_del :
        (idx : ℕ) (keep_on_error : Bool) (st : Table × Os)
        → view (fd_cache_del calls idx keep_on_error st).0.1 ≡ view st.1
    unfolding fd_cache_del
    view-fd_cache_del idx keep_on_error (t, os) =
        let s = t.fd_cache idx in
        let (os1, ok) = close_slot calls s.fd s.kind os in
        renewed (not ok && not keep_on_error) os1 ∙ view-close_slot s.fd s.kind os
      where
        renewed :
            (b : Bool) (os1 : Os)
            → view (if b then regenerate_write_verifier os1 else os1) ≡ view os1
        renewed true os1 = q.by_verifier os1
        renewed false os1 = refl

    view-opened :
        (fh : Fh) (path : FilePath) (kind : Kind) (allow_caching : Bool) (now : ℕ) (t : Table)
        (r : Os × Option ℕ)
        → view (opened calls fh path kind allow_caching now t r).0.1 ≡ view r.0
    unfolding opened
    view-opened fh path kind allow_caching now t (os, none) = refl
    view-opened fh path kind allow_caching now t (os, some fd) =
        ground (arith, q.by_eloop (close fd os).0, q.by_close fd os)

    view-cached :
        (idx : ℕ) (fd : Option ℕ) (st : Table × Os) → view (cached calls idx fd st).0.1 ≡ view st.1
    unfolding cached
    view-cached idx none st = view-fd_cache_del idx false st
    view-cached idx (some fd) st = refl

    view-open_at :
        (fh : Fh) (path : FilePath) (kind : Kind) (allow_caching : Bool) (now : ℕ) (idx : Option ℕ)
        (st : Table × Os)
        → view (open_at calls fh path kind allow_caching now idx st).0.1 ≡ view st.1
    unfolding open_at
    view-open_at fh path kind allow_caching now none (t, os) =
        view-opened fh path kind allow_caching now t (open_file path kind os)
        ∙ q.by_open path kind os
    view-open_at fh path kind allow_caching now (some idx) (t, os) =
        view-cached idx (t.fd_cache idx).fd (t, os)

    pub view-fd_open :
        (fh : Fh) (path : FilePath) (kind : Kind) (allow_caching : Bool) (now : ℕ) (st : Table × Os)
        → view (fd_open calls fh path kind allow_caching now st).0.1 ≡ view st.1
    unfolding fd_open
    view-fd_open fh path kind allow_caching now (t, os) =
        view-open_at fh path kind allow_caching now (idx_by_fh fh kind t) (t, os)

    view-close_at :
        (fd : ℕ) (kind : Kind) (really_close : Bool) (now : ℕ) (idx : Option ℕ) (st : Table × Os)
        → view (close_at calls fd kind really_close now idx st).0.1 ≡ view st.1
    unfolding close_at
    view-close_at fd kind really_close now none (t, os) = view-close_kind kind fd os
    view-close_at fd kind true now (some idx) (t, os) = view-fd_cache_del idx false _
    view-close_at fd kind false now (some idx) (t, os) = refl

    pub view-fd_close :
        (fd : ℕ) (kind : Kind) (really_close : Bool) (now : ℕ) (st : Table × Os)
        → view (fd_close calls fd kind really_close now st).0.1 ≡ view st.1
    unfolding fd_close
    view-fd_close fd kind really_close now (t, os) =
        view-close_at fd kind really_close now (idx_by_fd fd kind t) (t, os)
