-- ===== src/Proc/Io/Verified.antt =====
-- What COMMIT answers for the data of unstable writes.
use unfs3_raft.Base.{
  ℕ, ◌≡◌, refl, Bool, true, false, not, ◌||◌, List, Option, none, some, ◌==◌, if◌then◌else◌,
}
use unfs3_raft.Error.{join}
use unfs3_raft.Fs.{FilePath, Stat}
use unfs3_raft.Fh.{Fh, NfsFh, fh_decode}
use unfs3_raft.Nfs.{nfs3_ok, nfs3err_io, WccData}
use unfs3_raft.Attr.{is_reg, get_pre_cached}
use unfs3_raft.FdCache.{fd_sync}
use unfs3_raft.Server.{
  Config, ◌>>=◌, pure, lift, when, State, fixed_times, decode, run_fd_sync, fd_calls,
}
use unfs3_raft.Server.Handles.{
  run_get_pre_cached, run_get_post_buf, post_found, get_post_ll, get_post_stat,
}
use unfs3_raft.Proc.{prep}
use unfs3_raft.Proc.Io.{Answer, wcc_data, commit_synced, commit}

module _ (c : Config) where
  -- A run that gives a result, in a state with the same descriptors and write verifier.
  abbrev pub Gives : {A : Type 0} → State c → Option (A × State c) → Type 0
  Gives {A = A} s r =
      (a : A) × (s' : State c) × (r ≡ some (a, s')) × (s'.fds ≡ s.fds) × (s'.wverf ≡ s.wverf)

  post_found-Gives :
      (path : FilePath) (dev ino : ℕ) (found : Option Stat) (s : State c)
      → Gives s (post_found c path dev ino found s)
  unfolding post_found fixed_times run_get_post_buf
  post_found-Gives path dev ino none s = (none, s, refl, refl, refl)
  post_found-Gives path dev ino (some buf) s =
      go (not (dev == buf.st_dev) || not (ino == buf.st_ino))
    where
      go :
          (b : Bool)
          → Gives s (
              when b
                (pure none)
                (fixed_times c path buf >>= λ buf'.
                  run_get_post_buf c buf' >>= λ attributes. pure (some attributes))
                s)
      go true = (none, s, refl, refl, refl)
      go false = (_, _, refl, refl, refl)

  get_post_ll-Gives :
      (path : Option FilePath) (dev ino : ℕ) (s : State c) → Gives s (get_post_ll c path dev ino s)
  unfolding get_post_ll
  get_post_ll-Gives none dev ino s = (none, s, refl, refl, refl)
  get_post_ll-Gives (some path) dev ino s = post_found-Gives path dev ino _ _

  wcc_data-Gives : (path : Option FilePath) (s : State c) → Gives s (wcc_data c path s)
  unfolding wcc_data run_get_pre_cached get_post_stat
  wcc_data-Gives path s =
      let (after, s', e, f, w) =
        get_post_ll-Gives path s.st.st_cache.st_dev s.st.st_cache.st_ino s in
      (record { before = get_pre_cached s.st; after = after }, s', rw (◌>>=◌, e) refl, f, w)

  -- What COMMIT answers when the descriptor was closed, or not, and what the verifier is then.
  abbrev pub committed : Bool → List ℕ → Answer (List ℕ)
  committed ok wverf = if ok then (nfs3_ok, some wverf) else (nfs3err_io, none)

  commit_synced_lem :
      (ok : Bool) (s : State c) → commit_synced c ok s ≡ some (committed ok s.wverf, s)
  unfolding commit_synced
  commit_synced_lem true s = refl
  commit_synced_lem false s = refl

  abbrev pub after_sync : Fh → State c → State c
  after_sync fh s =
      let synced = (fd_sync (fd_calls c) fh (s.fds, (s.os, s.wverf))).0 in
      record s { fds = synced.0; os = synced.1.0; wverf = synced.1.1 }

  run_fd_sync_lem :
      (file : NfsFh) (fh : Fh) (s : State c)
      → fh_decode c.host c.junk file ≡ some fh
      → (run_fd_sync c file >>= commit_synced c) s
        ≡ some (
          committed (fd_sync (fd_calls c) fh (s.fds, (s.os, s.wverf))).1 (after_sync fh s).wverf,
          after_sync fh s,
        )
  unfolding run_fd_sync decode
  run_fd_sync_lem file fh s e = rw (e, lift) (commit_synced_lem _ (after_sync fh s))

  -- For a regular file, COMMIT always answers: NFS3_OK with the write verifier if `fd_sync` succeeds, and else
  -- NFS3ERR_IO; the descriptors and the verifier that it leaves are those after `fd_sync`.
  pub commit-fd_sync :
      (file : NfsFh) (s s1 : State c) (path : Option FilePath) (fh : Fh)
      → prep c file s ≡ some (path, s1)
      → is_reg s1.st ≡ nfs3_ok
      → fh_decode c.host c.junk file ≡ some fh
      → let (synced, ok) = fd_sync (fd_calls c) fh (s1.fds, (s1.os, s1.wverf)) in
        (file_wcc : WccData) × (s' : State c) × (commit c file s
          ≡ some ((committed ok synced.1.1, file_wcc), s'))
        × (s'.fds ≡ synced.0)
        × (s'.wverf ≡ synced.1.1)
  unfolding commit join
  commit-fd_sync file s s1 path fh e regular decoded =
      let (wcc, s', ew, f, w) = wcc_data-Gives path (after_sync fh s1) in
      (
        wcc,
        s',
        rw (◌>>=◌, e, regular) (rw (run_fd_sync_lem file fh s1 decoded) (rw (◌>>=◌, ew) refl)),
        f,
        w,
      )
