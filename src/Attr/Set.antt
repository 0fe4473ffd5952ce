-- ===== src/Attr/Set.antt =====
-- attr.c: `set_attr`, which changes an object through a descriptor where one can be opened. `errno` is
-- read after the descriptor was closed.
use unfs3_raft.Base.{
  ℕ, ◌-◌, ◌^◌, Bool, true, false, not, ◌||◌, Option, none, some, ◌==◌, if◌then◌else◌,
}
use unfs3_raft.Fs.{FilePath, Stat, file_type}
use unfs3_raft.Nfs.{
  Nfsstat3, nfs3_ok, nfs3err_stale, nfs3err_io, SetTime, dont_change, set_to_server_time,
  set_to_client_time, Sattr3,
}
use unfs3_raft.Backend.{Backend, o_rdonly, o_wronly}
use unfs3_raft.Error.{Errnos, setattr_err}
use unfs3_raft.Fh.{Fh}

-- -1 as a `uid_t` or `gid_t`.
abbrev pub no_id : ℕ
no_id = 2 ^ 32 - 1

unfoldable pub new_time : SetTime → ℕ → ℕ → ℕ
new_time dont_change now old = old
new_time set_to_server_time now old = now
new_time (set_to_client_time t) now old = t

abbrev pub is_change : SetTime → Bool
is_change dont_change = false
is_change set_to_server_time = true
is_change (set_to_client_time t) = true

unfoldable pub new_uid : Option ℕ → ℕ → ℕ
new_uid none old = no_id
new_uid (some uid) old = if uid == old then no_id else uid

unfoldable pub new_gid : Option ℕ → ℕ
new_gid none = no_id
new_gid (some gid) = gid

abbrev pub is_some : Option ℕ → Bool
is_some none = false
is_some (some x) = true

module _ (b : Backend) (e : Errnos) where
  open b use {
    Os, errno, time, lstat, fstat, get_gen, open_file, close, truncate, ftruncate, lchown, fchown,
    chmod, fchmod, lutimes,
  }

  abbrev pub Step : Type 0
  Step = Os → Os × Nfsstat3

  -- A call whose failure ends the function: `cleanup` runs before `errno` is translated.
  unfoldable pub failed : (Os → Os) → Step
  failed cleanup os = let os' = cleanup os in (os', setattr_err e (errno os'))

  unfoldable pub checked : (Os → Os) → Os × Bool → Step → Os × Nfsstat3
  checked cleanup (os, true) next = next os
  checked cleanup (os, false) next = failed cleanup os

  abbrev pub keep : Os → Os
  keep os = os

  abbrev pub close_fd : ℕ → Os → Os
  close_fd fd os = (close fd os).0

  -- The build with `HAVE_LUTIMES`.
  unfoldable pub set_time : FilePath → Stat → Sattr3 → Step
  set_time path buf new os =
      if is_change new.atime || is_change new.mtime
      then checked keep
          (lutimes path (new_time new.atime (time os) buf.st_atime)
            (new_time new.mtime (time os) buf.st_mtime) os)
          (λ os. (os, nfs3_ok))
      else (os, nfs3_ok)

  -- The three changes that both functions make, by the calls they make them with.
  unfoldable pub set_fields :
      (ℕ → Os → Os × Bool)
      → (ℕ → ℕ → Os → Os × Bool)
      → (ℕ → Os → Os × Bool)
      → (Os → Os)
      → Stat
      → Sattr3
      → Step
      → Step
  set_fields resize chown chmod cleanup buf new next = set_size (set_owner (set_mode next))
    where
      set_mode : Step → Step
      set_mode k os = elim new.mode [ none ↦ k os | some mode ↦ checked cleanup (chmod mode os) k ]

      set_owner : Step → Step
      set_owner k os =
          if is_some new.uid || is_some new.gid
          then checked cleanup (chown (new_uid new.uid buf.st_uid) (new_gid new.gid) os) k
          else k os

      set_size : Step → Step
      set_size k os = elim new.size [ none ↦ k os | some size ↦ checked cleanup (resize size os) k ]

  unfoldable pub set_found_unsafe : FilePath → Fh → Sattr3 → Os × Option Stat → Os × Nfsstat3
  set_found_unsafe path fh new (os, none) = (os, nfs3err_stale)
  set_found_unsafe path fh new (os, some buf) =
      if not (buf.st_dev == fh.dev) || not (buf.st_ino == fh.ino)
      then (os, nfs3err_stale)
      else set_fields (truncate path) (lchown path) (chmod path) keep buf new
          (set_time path buf new) os

  -- `fh` is the decoded handle.
  unfoldable pub set_attr_unsafe : FilePath → Fh → Sattr3 → Step
  set_attr_unsafe path fh new os = set_found_unsafe path fh new (lstat path os)

  -- A failed `close` means that the attributes may be lost.
  unfoldable pub close_and_set_time : FilePath → Stat → Sattr3 → Os × Bool → Os × Nfsstat3
  close_and_set_time path buf new (os, false) = (os, nfs3err_io)
  close_and_set_time path buf new (os, true) = set_time path buf new os

  unfoldable pub set_opened : FilePath → Fh → Sattr3 → ℕ → Os × Option Stat → Os × Nfsstat3
  set_opened path fh new fd (os, none) = (close_fd fd os, nfs3err_stale)
  set_opened path fh new fd (os, some buf) =
      if not (fh.dev == buf.st_dev)
        || (not (fh.ino == buf.st_ino) || not (fh.gen == get_gen buf (some fd) path os))
      then (close_fd fd os, nfs3err_stale)
      else set_fields (ftruncate fd) (fchown fd) (fchmod fd) (close_fd fd) buf new
          (λ os. close_and_set_time path buf new (close fd os)) os

  unfoldable pub set_with : FilePath → Fh → Sattr3 → Os × Option ℕ → Os × Nfsstat3
  set_with path fh new (os, none) = set_attr_unsafe path fh new os
  set_with path fh new (os, some fd) = set_opened path fh new fd (fstat fd os)

  -- For writing, or else for reading.
  unfoldable pub open_any : FilePath → Os × Option ℕ → Os × Option ℕ
  open_any path (os, none) = open_file path o_rdonly true os
  open_any path (os, some fd) = (os, some fd)

  -- Block and character devices and symbolic links are not opened.
  abbrev pub is_not_opened : ℕ → Bool
  is_not_opened mode = (file_type mode == 6) || ((file_type mode == 2) || (file_type mode == 10))

  unfoldable pub set_found : FilePath → Fh → Sattr3 → Os × Option Stat → Os × Nfsstat3
  set_found path fh new (os, none) = (os, nfs3err_stale)
  set_found path fh new (os, some buf) =
      if is_not_opened buf.st_mode
      then set_attr_unsafe path fh new os
      else set_with path fh new (open_any path (open_file path o_wronly true os))

  unfoldable pub set_attr : FilePath → Fh → Sattr3 → Step
  set_attr path fh new os = set_found path fh new (lstat path os)
