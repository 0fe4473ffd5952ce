-- ===== src/Examples/Descriptors.antt =====
-- A file that is open for writing, on a disk that fails to sync.
use unfs3_raft.Base.{ℕ, ◌+◌, ◌<◌, ◌≡◌, refl, true, false, none, some, [], ◌∷◌, arith}
use unfs3_raft.Fs.{Stat, slash}
use unfs3_raft.Fh.{Fh, no_inos}
use unfs3_raft.FdCache.{
  fd_read, fd_write, Slot, Table, fd_entries, update, find, fd_cache_unused, idx_by_fh, Calls,
  fd_cache_del, fd_open, open_at, opened, is_same, close_slot, close_kind, fd_sync, fd_cache_purge,
}
use unfs3_raft.FdCache.Reuse.{fd_open-fd_open}
use unfs3_raft.FdCache.Errors.{IsTidy, closing, fd_cache_purge_lem, fd_sync-fd_cache_del}

abbrev file : Fh
file = record { dev = 1; ino = 4; gen = 0; pwhash = 5; len = 1; inos = no_inos }

abbrev file_buf : Stat
file_buf = record {
  st_dev = 1;
  st_ino = 4;
  st_mode = 0x8000;
  st_nlink = 1;
  st_uid = 0;
  st_gid = 0;
  st_rdev = 0;
  st_size = 5;
  st_blksize = 4096;
  st_blocks = 1;
  st_atime = 0;
  st_mtime = 0;
  st_ctime = 0;
}

-- The state is the number of calls.
abbrev calls : Calls
calls = record {
  Os = ℕ;
  fsync = λ fd n. (n + 1, false);
  close = λ fd n. (n + 1, true);
  open_file = λ path kind n. (n + 1, some 7);
  fstat = λ fd n. some file_buf;
  get_gen = λ buf fd path n. 0;
  set_eio = λ n. n;
  set_eloop = λ n. n;
  regenerate_write_verifier = λ n. n + 100;
}

abbrev free_slot : Slot
free_slot = record { fd = none; kind = fd_read; last_use = 0; dev = 0; ino = 0; gen = 0 }

abbrev empty : Table
empty = record { fd_cache = λ i. free_slot; fd_cache_readers = 0; fd_cache_writers = 0 }

abbrev writing : Table
writing = record {
  fd_cache =
      update (λ i. free_slot) 0
        (record { fd = some 7; kind = fd_write; last_use = 1000; dev = 1; ino = 4; gen = 0 });
  fd_cache_readers = 0;
  fd_cache_writers = 1;
}

unused_empty : fd_cache_unused empty ≡ some 0
unfolding fd_cache_unused find
unused_empty = refl

opened_empty : (fd_open calls file [] fd_write true 1000 (empty, 0)).1 ≡ some 7
unfolding fd_open open_at opened is_same idx_by_fh find
opened_empty = refl

fd_open-fd_open_example :
    let (st, result) = fd_open calls file [] fd_write true 1000 (empty, 0) in
    fd_open calls file (slash ∷ []) fd_write false 1001 st ≡ (st, some 7)
fd_open-fd_open_example =
    fd_open-fd_open calls file fd_write [] (slash ∷ []) false 1000 1001 empty 0 0 7 unused_empty
      opened_empty

writing-IsTidy : IsTidy writing
writing-IsTidy j = ground arith

fd_cache_purge_lem_example :
    IsTidy (fd_cache_purge calls (writing, 0)).0
    × ((j : ℕ) → j < fd_entries → ((fd_cache_purge calls (writing, 0)).0.fd_cache j).fd ≡ none)
fd_cache_purge_lem_example = fd_cache_purge_lem calls (writing, 0) writing-IsTidy

closing_fails : (closing calls 0 writing 5).1 ≡ false
unfolding close_slot close_kind
closing_fails = refl

indexed : idx_by_fh file fd_write writing ≡ some 0
unfolding idx_by_fh find
indexed = refl

fd_sync-fd_cache_del_example :
    let (st, ok) = fd_cache_del calls 0 true (writing, 5) in
    let (st', ok') = fd_sync calls file st in
    (ok ≡ false)
    × (st.1 ≡ (closing calls 0 writing 5).0)
    × ((st.0.fd_cache 0).last_use ≡ 1000)
    × (ok' ≡ false)
    × (st'.1 ≡ st.1 + 100)
    × ((st'.0.fd_cache 0).last_use ≡ 0)
fd_sync-fd_cache_del_example = fd_sync-fd_cache_del calls file writing 5 0 closing_fails indexed
