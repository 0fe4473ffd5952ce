-- ===== src/FdCache.antt =====
-- fd_cache.c: descriptors that stay open between calls. -1 is `none` for a descriptor and `false` for
-- a result; `errno` is part of the system's state. The warning about a full table is left out.
pub mod Find
pub mod Reuse
pub mod Errors
pub mod Reads
use unfs3_raft.Base.{
  ℕ, zero, suc, ◌+◌, ◌-◌, ◌%◌, ◌^◌, Bool, true, false, not, ◌&&◌, ◌||◌, Option, none, some, ltb,
  ◌==◌, if◌then◌else◌,
}
use unfs3_raft.Fs.{FilePath, Stat}
use unfs3_raft.Fh.{Fh}

-- FD_ENTRIES
abbrev pub fd_entries : ℕ
fd_entries = 256

-- INACTIVE_TIMEOUT
abbrev pub inactive_timeout : ℕ
inactive_timeout = 2

-- PENDING_ERROR_TIMEOUT
abbrev pub pending_error_timeout : ℕ
pending_error_timeout = 7200

-- UNFS3_FD_READ and UNFS3_FD_WRITE
pub data Kind : Type 0 where
  fd_read : Kind
  fd_write : Kind

abbrev pub same_kind : Kind → Kind → Bool
same_kind fd_read fd_read = true
same_kind fd_read fd_write = false
same_kind fd_write fd_read = false
same_kind fd_write fd_write = true

-- fd_cache_t
pub record Slot : Type 0 where
  pub fd : Option ℕ
  pub kind : Kind
  pub last_use : ℕ
  pub dev : ℕ
  pub ino : ℕ
  pub gen : ℕ

pub record Table : Type 0 where
  pub fd_cache : ℕ → Slot
  pub fd_cache_readers : ℕ
  pub fd_cache_writers : ℕ

abbrev pub update {ℓ} : {A : Type ℓ} → (ℕ → A) → ℕ → A → ℕ → A
update f i v j = if i == j then v else f j

abbrev pub is_fd : Option ℕ → ℕ → Bool
is_fd none fd = false
is_fd (some x) fd = x == fd

abbrev pub has_fd : Option ℕ → Bool
has_fd none = false
has_fd (some fd) = true

-- The loops that look for an entry: the first one of `left` entries from `i` on that passes a test.
unfoldable pub find : (ℕ → Bool) → ℕ → ℕ → Option ℕ
find test zero i = none
find test (suc left) i = let rest = find test left (i + 1) in if test i then some i else rest

unfoldable pub fd_cache_init : Table → Table
fd_cache_init t = record t {
  fd_cache = λ i. record { fd = none; kind = fd_read; last_use = 0; dev = 0; ino = 0; gen = 0 };
}

unfoldable pub fd_cache_unused : Table → Option ℕ
fd_cache_unused t = find (λ i. (t.fd_cache i).last_use == 0) fd_entries 0

abbrev pub holds_fd : ℕ → Kind → Slot → Bool
holds_fd fd kind s = is_fd s.fd fd && same_kind s.kind kind

unfoldable pub idx_by_fd : ℕ → Kind → Table → Option ℕ
idx_by_fd fd kind t = find (λ i. holds_fd fd kind (t.fd_cache i)) fd_entries 0

abbrev pub holds_fh : Fh → Kind → Slot → Bool
holds_fh fh kind s =
    same_kind s.kind kind && ((s.dev == fh.dev) && ((s.ino == fh.ino) && (s.gen == fh.gen)))

unfoldable pub idx_by_fh : Fh → Kind → Table → Option ℕ
idx_by_fh fh kind t = find (λ i. holds_fh fh kind (t.fd_cache i)) fd_entries 0

-- The statistics of an entry that is added or whose descriptor is closed, on an `int`.
unfoldable pub count_open : Kind → Table → Table
count_open fd_read t = record t { fd_cache_readers = (t.fd_cache_readers + 1) % 2 ^ 32 }
count_open fd_write t = record t { fd_cache_writers = (t.fd_cache_writers + 1) % 2 ^ 32 }

unfoldable pub count_closed : Slot → Table → Table
count_closed s t = elim s.fd [
  | none ↦ t
  | some fd ↦ elim s.kind [
    | fd_read ↦ record t { fd_cache_readers = (t.fd_cache_readers + 2 ^ 32 - 1) % 2 ^ 32 }
    | fd_write ↦ record t { fd_cache_writers = (t.fd_cache_writers + 2 ^ 32 - 1) % 2 ^ 32 }
  ]
]

-- `now` is time(NULL), and `fh` the decoded handle.
unfoldable pub added_slot : ℕ → Fh → Kind → ℕ → Slot
added_slot fd fh kind now = record {
  fd = some fd;
  kind = kind;
  last_use = now;
  dev = fh.dev;
  ino = fh.ino;
  gen = fh.gen;
}

unfoldable pub add_at : ℕ → Fh → Kind → ℕ → Option ℕ → Table → Table
add_at fd fh kind now none t = t
add_at fd fh kind now (some idx) t =
    let t1 = count_open kind t in
    record t1 { fd_cache = update t1.fd_cache idx (added_slot fd fh kind now) }

unfoldable pub fd_cache_add : ℕ → Fh → Kind → ℕ → Table → Table
fd_cache_add fd fh kind now t = add_at fd fh kind now (fd_cache_unused t) t

-- The system calls, with the new state of the system and whether they succeeded, and
-- regenerate_write_verifier of daemon.c.
pub record Calls : Type 1 where
  pub Os : Type 0
  pub fsync : ℕ → Os → Os × Bool
  pub close : ℕ → Os → Os × Bool
  pub open_file : FilePath → Kind → Os → Os × Option ℕ
  pub fstat : ℕ → Os → Option Stat
  pub get_gen : Stat → ℕ → FilePath → Os → ℕ
  -- `errno = EIO` and `errno = ELOOP`
  pub set_eio : Os → Os
  pub set_eloop : Os → Os
  pub regenerate_write_verifier : Os → Os

module _ (calls : Calls) where
  open calls use {
    Os, fsync, close, open_file, fstat, get_gen, set_eio, set_eloop, regenerate_write_verifier,
  }

  unfoldable pub close_kind : Kind → ℕ → Os → Os × Bool
  close_kind fd_read fd os = close fd os
  close_kind fd_write fd os =
      let (os1, synced) = fsync fd os in let (os2, closed) = close fd os1 in (os2, synced && closed)

  -- An entry without a descriptor is a pending error.
  unfoldable pub close_slot : Option ℕ → Kind → Os → Os × Bool
  close_slot none kind os = (set_eio os, false)
  close_slot (some fd) kind os = close_kind kind fd os

  unfoldable pub released : Bool → Bool → Slot → Slot
  released ok keep_on_error s =
      if ok || not keep_on_error
      then record { fd = none; kind = s.kind; last_use = 0; dev = 0; ino = 0; gen = 0 }
      else record s { fd = none }

  unfoldable pub fd_cache_del : ℕ → Bool → Table × Os → (Table × Os) × Bool
  fd_cache_del idx keep_on_error (t, os) =
      let s : Slot = t.fd_cache idx in
      let (os1, ok) = close_slot s.fd s.kind os in
      let t1 = count_closed s t in
      (
        (
          record t1 { fd_cache = update t1.fd_cache idx (released ok keep_on_error s) },
          if not ok && not keep_on_error then regenerate_write_verifier os1 else os1,
        ),
        ok,
      )

  -- The test for a race with the local file system.
  unfoldable pub is_same : Fh → FilePath → ℕ → Os → Option Stat → Bool
  is_same fh path fd os none = false
  is_same fh path fd os (some buf) =
      (fh.dev == buf.st_dev) && ((fh.ino == buf.st_ino) && (fh.gen == get_gen buf fd path os))

  unfoldable pub opened :
      Fh → FilePath → Kind → Bool → ℕ → Table → Os × Option ℕ → (Table × Os) × Option ℕ
  opened fh path kind allow_caching now t (os, none) = ((t, os), none)
  opened fh path kind allow_caching now t (os, some fd) =
      if is_same fh path fd os (fstat fd os)
      then ((if allow_caching then fd_cache_add fd fh kind now t else t, os), some fd)
      else ((t, set_eloop (close fd os).0), none)

  unfoldable pub cached : ℕ → Option ℕ → Table × Os → (Table × Os) × Option ℕ
  cached idx none st = ((fd_cache_del idx false st).0, none)
  cached idx (some fd) st = (st, some fd)

  unfoldable pub open_at :
      Fh → FilePath → Kind → Bool → ℕ → Option ℕ → Table × Os → (Table × Os) × Option ℕ
  open_at fh path kind allow_caching now none (t, os) =
      opened fh path kind allow_caching now t (open_file path kind os)
  open_at fh path kind allow_caching now (some idx) (t, os) = cached idx (t.fd_cache idx).fd (t, os)

  unfoldable pub fd_open : Fh → FilePath → Kind → Bool → ℕ → Table × Os → (Table × Os) × Option ℕ
  fd_open fh path kind allow_caching now (t, os) =
      open_at fh path kind allow_caching now (idx_by_fh fh kind t) (t, os)

  unfoldable pub close_at : ℕ → Kind → Bool → ℕ → Option ℕ → Table × Os → (Table × Os) × Bool
  close_at fd kind really_close now none (t, os) =
      let (os1, ok) = close_kind kind fd os in ((t, os1), ok)
  close_at fd kind really_close now (some idx) (t, os) =
      let used : Table = record t {
        fd_cache = update t.fd_cache idx (record (t.fd_cache idx) { last_use = now });
      } in
      if really_close then fd_cache_del idx false (used, os) else ((used, os), true)

  unfoldable pub fd_close : ℕ → Kind → Bool → ℕ → Table × Os → (Table × Os) × Bool
  fd_close fd kind really_close now (t, os) =
      close_at fd kind really_close now (idx_by_fd fd kind t) (t, os)

  unfoldable pub sync_at : Option ℕ → Table × Os → (Table × Os) × Bool
  sync_at none st = (st, true)
  sync_at (some idx) st = fd_cache_del idx false st

  unfoldable pub fd_sync : Fh → Table × Os → (Table × Os) × Bool
  fd_sync fh (t, os) = sync_at (idx_by_fh fh fd_write t) (t, os)

  -- The loop of `fd_cache_purge` over `left` entries from `i` on.
  unfoldable pub purge_loop : ℕ → ℕ → Table × Os → Table × Os
  purge_loop zero i st = st
  purge_loop (suc left) i st =
      let rest : Table × Os → Table × Os = purge_loop left (i + 1) in
      if not ((st.0.fd_cache i).last_use == 0) then rest (fd_cache_del i true st).0 else rest st

  unfoldable pub fd_cache_purge : Table × Os → Table × Os
  fd_cache_purge st = purge_loop fd_entries 0 st

  -- One round of the first loop: what it found so far is (found_error, active_error).
  unfoldable pub inactive_step : ℕ → ℕ → (Bool × Bool) → Table × Os → (Bool × Bool) × (Table × Os)
  inactive_step now i (found_error, active_error) st =
      let s : Slot = st.0.fd_cache i in
      let st1 : Table × Os =
        if not (s.last_use == 0) && (has_fd s.fd && ltb (s.last_use + inactive_timeout) now)
        then (fd_cache_del i true st).0
        else st in
      let s1 : Slot = st1.0.fd_cache i in
      let pending = not (s1.last_use == 0) && not (has_fd s1.fd) in
      (
        (
          found_error || pending,
          active_error || (pending && ltb now (s1.last_use + pending_error_timeout)),
        ),
        st1,
      )

  unfoldable pub inactive_loop :
      ℕ → ℕ → ℕ → (Bool × Bool) → Table × Os → (Bool × Bool) × (Table × Os)
  inactive_loop now zero i flags st = (flags, st)
  inactive_loop now (suc left) i flags st =
      let (flags1, st1) = inactive_step now i flags st in inactive_loop now left (i + 1) flags1 st1

  -- The second loop, which gives up the pending errors.
  unfoldable pub forget_loop : ℕ → ℕ → Table × Os → Table × Os
  forget_loop zero i st = st
  forget_loop (suc left) i st =
      let s : Slot = st.0.fd_cache i in
      let rest : Table × Os → Table × Os = forget_loop left (i + 1) in
      if not (s.last_use == 0) && not (has_fd s.fd)
      then rest (fd_cache_del i false st).0
      else rest st

  unfoldable pub fd_cache_close_inactive : ℕ → Table × Os → Table × Os
  fd_cache_close_inactive now st =
      let (flags, st1) = inactive_loop now fd_entries 0 (false, false) st in
      let (found_error, active_error) = flags in
      let (t2, os2) = forget_loop fd_entries 0 st1 in
      if found_error && not active_error then (t2, regenerate_write_verifier os2) else st1
