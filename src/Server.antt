-- ===== src/Server.antt =====
-- The server's state between the calls of its procedures, and functions on it: a value and the new
-- state, or `none` where an assertion fails, the process exits or NULL is used as a string.
pub mod Handles
pub mod Inversion
pub mod Reads
pub mod Quiet
use Prim.Native.Nat.{bit_xor}
use unfs3_raft.Base.{
  ℕ, ◌/◌, ◌%◌, ◌^◌, Bool, true, false, not, List, [], ◌∷◌, Option, none, some, length, set, get_or,
  ◌==◌, if◌then◌else◌,
}
use unfs3_raft.Backend.{Backend, o_rdonly, o_wronly, rights, files}
use unfs3_raft.Bytes.{ByteOrder}
use unfs3_raft.Error.{Errnos}
use unfs3_raft.Exports.{Item, ExportState, export_options, exports_compat}
use unfs3_raft.Fs.{FilePath, Stat, FileSystem}
use unfs3_raft.Fh.{Fh, NfsFh, fh_decode}
use unfs3_raft.FhCache.{Cache, StCache, DirTimes, fh_cache_add}
use unfs3_raft.FdCache.{Kind, fd_read, fd_write, Table, Calls, fd_open, fd_close, fd_sync}
use unfs3_raft.Attr.{Options}
use unfs3_raft.Attr.Times.{BadDirs, fix_dir_times}
use unfs3_raft.Nfs.{Nfsstat3}
use unfs3_raft.User.{Ids, Request, switch_to_root, switch_user}

-- The globals. The request is part of the state, since `switch_groups` writes to it; statistics are
-- left out.
pub record Server (Os : Type 0) : Type 0 where
  pub os : Os
  pub wverf : List ℕ
  pub rcookie : ℕ
  pub cache : Cache
  pub st : StCache
  pub dirs : BadDirs
  pub fds : Table
  pub exports : ExportState
  pub ids : Ids
  pub req : Request

-- What does not change while a procedure runs: the system, the options, the list of exports, the
-- client's address and the kind of its socket, and the contents of uninitialised variables.
pub record Config : Type 1 where
  pub backend : Backend
  pub errnos : Errnos
  pub eio : ℕ
  pub host : ByteOrder
  pub opts : Options
  pub opt_brute_force : Bool
  pub mtab : Option (List FilePath)
  pub export_list : List Item
  pub remote : Option (List ℕ)
  pub is_stream : Bool
  pub junk : List ℕ
  pub junk_stat : Stat
  pub junk_fh : Fh

-- regenerate_write_verifier of daemon.c: two of the eight characters are written.
unfoldable pub regenerate_write_verifier : (b : Backend) → b.Os × List ℕ → b.Os × List ℕ
regenerate_write_verifier b (os, wverf) =
    let (os', r) = b.rand os in
    (os', set (set wverf 0 (bit_xor (b.getpid os % 2 ^ 8) (r % 2 ^ 8))) 4 (b.time os' % 2 ^ 8))

-- What fd_cache.c calls.
abbrev pub fd_calls : Config → Calls
fd_calls c =
    let b : Backend = c.backend in
    record {
      Os = b.Os × List ℕ;
      fsync = λ fd s. let (os, ok) = b.fsync fd s.0 in ((os, s.1), ok);
      close = λ fd s. let (os, ok) = b.close fd s.0 in ((os, s.1), ok);
      open_file = λ path kind s.
          let (os, fd) =
            b.open_file path (elim kind [ fd_read ↦ o_rdonly | fd_write ↦ o_wronly ]) false s.0 in
          ((os, s.1), fd);
      fstat = λ fd s. (b.fstat fd s.0).1;
      get_gen = λ buf fd path s. b.get_gen buf (some fd) path s.0;
      set_eio = λ s. (b.set_errno c.eio s.0, s.1);
      set_eloop = λ s. (b.set_errno c.errnos.eloop s.0, s.1);
      regenerate_write_verifier = regenerate_write_verifier b;
    }

abbrev pub Run {ℓ} : Type 0 → Type ℓ → Type ℓ
Run Os A = Server Os → Option (A × Server Os)

module _ {Os : Type 0} where
  infixl 5 ◌>>=◌ ◌>>◌
  abbrev pub ◌>>=◌ {ℓ κ} : {A : Type ℓ} {B : Type κ} → Run Os A → (A → Run Os B) → Run Os B
  ◌>>=◌ m f s = elim (m s) [ none ↦ none | some (a, s') ↦ f a s' ]

  abbrev pub ◌>>◌ {ℓ κ} : {A : Type ℓ} {B : Type κ} → Run Os A → Run Os B → Run Os B
  m >> n = m >>= λ _. n

  module _ {ℓ} {A : Type ℓ} where
    abbrev pub pure : A → Run Os A
    pure a s = some (a, s)

    -- An assertion.
    abbrev pub lift : Option A → Run Os A
    lift none s = none
    lift (some a) s = some (a, s)

    abbrev pub gets : (Server Os → A) → Run Os A
    gets f s = some (f s, s)

    -- A system call.
    abbrev pub call : (Os → Os × A) → Run Os A
    call f s = let (os', a) = f s.os in some (a, record s { os = os' })

    -- One of two calls.
    abbrev pub when : Bool → Run Os A → Run Os A → Run Os A
    when true m n = m
    when false m n = n

  abbrev pub modify : (Server Os → Server Os) → Run Os Bool
  modify f s = some (true, f s)

module _ (c : Config) where
  abbrev pub State : Type 0
  State = Server c.backend.Os

  -- `fix_dir_times` at one moment.
  abbrev pub times : State → DirTimes
  times s = record {
    Memory = BadDirs;
    fix_dir_times = fix_dir_times (files c.backend s.os) (c.backend.time s.os);
  }

  unfoldable pub fixed_times : FilePath → Stat → Run c.backend.Os Stat
  fixed_times path buf s =
      let (dirs', buf') =
        fix_dir_times (files c.backend s.os) (c.backend.time s.os) path buf s.dirs in
      some (buf', record s { dirs = dirs' })

  unfoldable pub decode : NfsFh → Run c.backend.Os Fh
  decode nfh = lift (fh_decode c.host c.junk nfh)

  unfoldable pub run_switch_to_root : Run c.backend.Os Bool
  run_switch_to_root = modify (λ s. record s { os = switch_to_root (rights c.backend) s.ids s.os })

  -- The user that `switch_user` chose; `none` is `daemon_exit`.
  unfoldable pub switched : State → Option (Ids × Request × c.backend.Os) → Option (Bool × State)
  switched s none = none
  switched s (some (ids', req', os')) = some (true, record s { ids = ids'; req = req'; os = os' })

  unfoldable pub run_switch_user : Run c.backend.Os Bool
  run_switch_user s = switched s (
      switch_user (rights c.backend) (export_options s.exports) c.opts.opt_singleuser s.ids s.req
        s.os)

  -- The table of descriptors, the system and the write verifier.
  abbrev pub with_fds :
      {A : Type 0}
      → (Table × (c.backend.Os × List ℕ) → (Table × (c.backend.Os × List ℕ)) × A)
      → Run c.backend.Os A
  with_fds f s =
      let (state, a) = f (s.fds, (s.os, s.wverf)) in
      some (a, record s { fds = state.0; os = state.1.0; wverf = state.1.1 })

  unfoldable pub run_fd_open : FilePath → NfsFh → Kind → Bool → Run c.backend.Os (Option ℕ)
  run_fd_open path nfh kind allow_caching = do
    fh ← decode nfh
    now ← gets λ s. c.backend.time s.os
    with_fds (fd_open (fd_calls c) fh path kind allow_caching now)

  unfoldable pub run_fd_close : ℕ → Kind → Bool → Run c.backend.Os Bool
  run_fd_close fd kind really_close = do
    now ← gets λ s. c.backend.time s.os
    with_fds (fd_close (fd_calls c) fd kind really_close now)

  unfoldable pub run_fd_sync : NfsFh → Run c.backend.Os Bool
  run_fd_sync nfh = do fh ← decode nfh; with_fds (fd_sync (fd_calls c) fh)

  -- exports_compat, with the globals that it changes.
  unfoldable pub run_exports_compat : Option FilePath → Run c.backend.Os Nfsstat3
  run_exports_compat path s =
      let (status, exports') = exports_compat c.export_list path c.remote s.exports in
      some (status, record s { exports = exports' })

  -- fh_cache_add: the result is the path that is stored; the device is a 32 bit argument.
  unfoldable pub run_fh_cache_add : ℕ → ℕ → FilePath → Run c.backend.Os FilePath
  run_fh_cache_add dev ino path =
      modify (λ s. record s { cache = (fh_cache_add (dev % 2 ^ 32) ino path s.cache).0 })
      >> pure path
