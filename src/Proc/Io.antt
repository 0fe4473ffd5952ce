-- ===== src/Proc/Io.antt =====
-- nfs.c: READ, WRITE and COMMIT. The path is not NULL where the status is NFS3_OK, since the stat cache
-- is then not valid (`Proc.Stale`).
pub mod Verified
use unfs3_raft.Base.{
  ℕ, ◌+◌, Bool, true, false, not, ◌&&◌, ◌||◌, List, [], ◌∷◌, Option, none, some, length, take, ltb,
  leb, ◌==◌, if◌then◌else◌,
}
use unfs3_raft.Attr.{is_reg}
use unfs3_raft.Backend.{rights}
use unfs3_raft.Error.{join, read_err, write_write_err, write_open_err}
use unfs3_raft.Exports.{export_options, exports_rw}
use unfs3_raft.FdCache.{fd_read, fd_write}
use unfs3_raft.Fs.{FilePath}
use unfs3_raft.Fh.{NfsFh}
use unfs3_raft.Nfs.{Nfsstat3, nfs3_ok, nfs3err_io, nfs3err_inval, Fattr3, WccData}
use unfs3_raft.User.{read_executable, read_by_owner, write_by_owner}
use unfs3_raft.Server.{
  Server, Config, Run, ◌>>=◌, ◌>>◌, pure, lift, gets, call, when, modify, run_fd_open, run_fd_close,
  run_fd_sync,
}
use unfs3_raft.Server.Handles.{run_get_pre_cached, get_post_stat}
use unfs3_raft.Proc.{maxdata, prep}

-- stable_how
pub data StableHow : Type 0 where
  unstable : StableHow
  data_sync : StableHow
  file_sync : StableHow

abbrev pub is_unstable : StableHow → Bool
is_unstable unstable = true
is_unstable data_sync = false
is_unstable file_sync = false

unfoldable pub committed_as : StableHow → StableHow
committed_as unstable = unstable
committed_as data_sync = file_sync
committed_as file_sync = file_sync

-- READ3resok: `count`, `eof` and the data.
pub record ReadOk : Type 0 where
  pub count : ℕ
  pub eof : Bool
  pub contents : List ℕ

pub record WriteOk : Type 0 where
  pub count : ℕ
  pub committed : StableHow
  pub verf : List ℕ

-- An answer: the status, and what is sent if it is NFS3_OK.
abbrev pub Answer : Type 0 → Type 0
Answer A = Nfsstat3 × Option A

unfoldable pub clamp : Bool → ℕ → ℕ
clamp is_stream count = if ltb (maxdata is_stream) count then maxdata is_stream else count

module _ (c : Config) where
  abbrev Os : Type 0
  Os = c.backend.Os

  abbrev pub current_errno : Run Os ℕ
  current_errno = gets λ s. c.backend.errno s.os

  -- The whole status is_reg gives, joined with that of `exports_rw`.
  abbrev pub writable_status : Run Os Nfsstat3
  writable_status = gets λ s. join (is_reg s.st) exports_rw

  -- `wcc_data` as WRITE and COMMIT fill it.
  unfoldable pub wcc_data : Option FilePath → Run Os WccData
  wcc_data path = do
    before ← run_get_pre_cached c
    after ← get_post_stat c path
    pure (record { before = before; after = after })

  -- One byte more than was asked for is read, to find the end of the file.
  unfoldable pub read_result : ℕ → ℕ → Option (List ℕ) → Run Os (Answer ReadOk)
  read_result fd count none = do
    run_fd_close c fd fd_read true
    errno ← current_errno
    pure (if errno == c.errnos.einval then nfs3err_inval else nfs3err_io, none)
  read_result fd count (some bytes) = do
    let eof = leb (length bytes) count
    run_fd_close c fd fd_read eof
    let contents = if eof then bytes else take count bytes
    pure (nfs3_ok, some (record { count = length contents; eof = eof; contents = contents }))

  unfoldable pub read_from : ℕ → ℕ → Option ℕ → Run Os (Answer ReadOk)
  read_from offset count none = do errno ← current_errno; pure (read_err c.errnos errno, none)
  read_from offset count (some fd) =
      call (c.backend.pread fd (count + 1) offset) >>= read_result fd count

  unfoldable pub read_open : Option FilePath → NfsFh → ℕ → ℕ → Run Os (Answer ReadOk)
  read_open path file offset count = do
    p ← lift path
    fd ← run_fd_open c p file fd_read true
    read_from offset count fd

  unfoldable pub switch_for_read : Run Os Bool
  switch_for_read = modify λ s.
      let opts = export_options s.exports in
      let os1 = read_executable (rights c.backend) opts s.ids s.req s.st.st_cache s.os in
      record s { os = read_by_owner (rights c.backend) opts s.ids s.req s.st.st_cache os1 }

  unfoldable pub read : NfsFh → ℕ → ℕ → Run Os (Answer ReadOk × Option Fattr3)
  read file offset asked = do
    path ← prep c file
    status ← gets λ s. is_reg s.st
    switch_for_read
    answer ←
        when (status == nfs3_ok) (read_open path file offset (clamp c.is_stream asked))
          (pure (status, none))
    attributes ← get_post_stat c path
    pure (answer, attributes)

  -- The descriptor is closed for real unless the write is unstable.
  unfoldable pub write_result : ℕ → StableHow → Option ℕ → Run Os (Answer WriteOk)
  write_result fd how written = do
    closed ← run_fd_close c fd fd_write (not (is_unstable how))
    errno ← current_errno
    verf ← gets λ s. s.wverf
    let failed : Answer WriteOk = (write_write_err c.errnos errno, none)
    pure (elim written [
      | none ↦ failed
      | some n ↦
          if closed
          then (nfs3_ok, some (record { count = n; committed = committed_as how; verf = verf }))
          else failed
    ])

  unfoldable pub write_to : List ℕ → ℕ → StableHow → Option ℕ → Run Os (Answer WriteOk)
  write_to contents offset how none = do
    errno ← current_errno
    pure (write_open_err c.errnos errno, none)
  write_to contents offset how (some fd) =
      call (c.backend.pwrite fd contents offset) >>= write_result fd how

  unfoldable pub write_open :
      Option FilePath → NfsFh → List ℕ → ℕ → StableHow → Run Os (Answer WriteOk)
  write_open path file contents offset how = do
    p ← lift path
    fd ← run_fd_open c p file fd_write (is_unstable how)
    write_to contents offset how fd

  unfoldable pub switch_for_write : Run Os Bool
  switch_for_write = modify λ s. record s {
    os =
        write_by_owner (rights c.backend) (export_options s.exports) s.ids s.req s.st.st_cache s.os;
  }

  unfoldable pub write : NfsFh → List ℕ → ℕ → StableHow → Run Os (Answer WriteOk × WccData)
  write file contents offset how = do
    path ← prep c file
    status ← writable_status
    switch_for_write
    answer ←
        when (status == nfs3_ok) (write_open path file contents offset how) (pure (status, none))
    file_wcc ← wcc_data path
    pure (answer, file_wcc)

  unfoldable pub commit_synced : Bool → Run Os (Answer (List ℕ))
  commit_synced true = gets λ s. (nfs3_ok, some s.wverf)
  commit_synced false = pure (nfs3err_io, none)

  unfoldable pub commit : NfsFh → Run Os (Answer (List ℕ) × WccData)
  commit file = do
    path ← prep c file
    status ← writable_status
    answer ← when (status == nfs3_ok) (run_fd_sync c file >>= commit_synced) (pure (status, none))
    file_wcc ← wcc_data path
    pure (answer, file_wcc)
