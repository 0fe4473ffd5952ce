-- ===== src/Proc/Create.antt =====
-- nfs.c: CREATE, which may be repeated with the same verifier.
use unfs3_raft.Base.{ℕ, Bool, true, false, List, Option, none, some, ◌==◌, if◌then◌else◌}
use unfs3_raft.Attr.{create_mode, atomic_attr}
use unfs3_raft.Backend.{o_rdonly}
use unfs3_raft.Error.{join, create_err}
use unfs3_raft.Exports.{exports_rw}
use unfs3_raft.Fs.{FilePath, Stat}
use unfs3_raft.Fh.{NfsFh}
use unfs3_raft.Nfs.{
  Nfsstat3, nfs3_ok, nfs3err_io, nfs3err_exist, dont_change, Sattr3, Fattr3, WccData,
}
use unfs3_raft.Server.{Config, Run, ◌>>=◌, ◌>>◌, pure, gets, call, when, run_fh_cache_add}
use unfs3_raft.Server.Handles.{fh_extend_post, run_get_post_buf}
use unfs3_raft.Proc.{DirOpArgs, cat_name, prep}
use unfs3_raft.Proc.Verifier.{store_create_verifier, check_create_verifier}
use unfs3_raft.Proc.Io.{wcc_data}

-- createhow3
pub data CreateHow3 : Type 0 where
  unchecked : Sattr3 → CreateHow3
  guarded : Sattr3 → CreateHow3
  exclusive : List ℕ → CreateHow3

-- What the creating procedures answer; `obj` and `obj_attributes` are sent with NFS3_OK.
pub record CreateRes : Type 0 where
  pub status : Nfsstat3
  pub obj : Option NfsFh
  pub obj_attributes : Option Fattr3
  pub dir_wcc : WccData

-- The part of it that depends on the object.
abbrev pub Created : Type 0
Created = Nfsstat3 × Option NfsFh × Option Fattr3

abbrev pub not_created : Nfsstat3 → Created
not_created status = (status, none, none)

abbrev pub is_guarded : CreateHow3 → Bool
is_guarded (unchecked new) = false
is_guarded (guarded new) = true
is_guarded (exclusive verf) = true

-- `new_attr`: only the mode of it is set for an exclusive create.
abbrev pub no_attributes : Sattr3
no_attributes = record {
  mode = none;
  uid = none;
  gid = none;
  size = none;
  atime = dont_change;
  mtime = dont_change;
}

unfoldable pub new_attr : CreateHow3 → Sattr3
new_attr (unchecked new) = new
new_attr (guarded new) = new
new_attr (exclusive verf) = no_attributes

module _ (c : Config) where
  abbrev Os : Type 0
  Os = c.backend.Os

  unfoldable pub run_atomic_attr : Sattr3 → Run Os Nfsstat3
  run_atomic_attr attr = gets λ s. atomic_attr c.backend c.opts s.exports s.ids s.os attr

  unfoldable pub atomic_how : CreateHow3 → Run Os Nfsstat3
  atomic_how (unchecked new) = run_atomic_attr new
  atomic_how (guarded new) = run_atomic_attr new
  atomic_how (exclusive verf) = pure nfs3_ok

  -- The verifier is stored, and the times that the file then has are checked: the buffer with them, or
  -- -1.
  unfoldable pub verify_stored : FilePath → List ℕ → Bool → Run Os (Option Stat)
  verify_stored obj verf false = pure none
  verify_stored obj verf true = do
    found ← call (c.backend.stat obj)
    pure (elim found [
      | none ↦ none
      | some buf ↦ if check_create_verifier buf verf then some buf else none
    ])

  unfoldable pub store_verifier : FilePath → CreateHow3 → Stat → Run Os (Option Stat)
  store_verifier obj (unchecked new) buf = pure (some buf)
  store_verifier obj (guarded new) buf = pure (some buf)
  store_verifier obj (exclusive verf) buf =
      call (store_create_verifier c.backend obj verf) >>= verify_stored obj verf

  -- The object at `obj` is answered with a handle and attributes.
  unfoldable pub answer_object : NfsFh → FilePath → ℕ → Stat → Run Os Created
  answer_object dir obj fd buf = do
    gen ← gets λ s. c.backend.get_gen buf (some fd) obj s.os
    run_fh_cache_add c buf.st_dev buf.st_ino obj
    handle ← fh_extend_post c dir buf.st_dev buf.st_ino gen
    attributes ← run_get_post_buf c buf
    pure (nfs3_ok, handle, some attributes)

  unfoldable pub answer_stored : NfsFh → FilePath → ℕ → Option Stat → Run Os Created
  answer_stored dir obj fd none = pure (not_created nfs3err_io)
  answer_stored dir obj fd (some buf) = answer_object dir obj fd buf

  unfoldable pub stat_created : FilePath → CreateHow3 → Option Stat → Run Os (Option Stat)
  stat_created obj how none = pure none
  stat_created obj how (some buf) = store_verifier obj how buf

  unfoldable pub create_opened : NfsFh → FilePath → CreateHow3 → ℕ → Run Os Created
  create_opened dir obj how fd = do
    found ← call (c.backend.fstat fd)
    stored ← stat_created obj how found
    result ← answer_stored dir obj fd stored
    call (c.backend.close fd)
    pure result

  -- The file exists: the create is repeated if its verifier is that of the file. A status of
  -- `create_err` is found after the descriptor is closed.
  unfoldable pub check_existing : NfsFh → FilePath → List ℕ → ℕ → Option Stat → Run Os Created
  check_existing dir obj verf fd none = do
    call (c.backend.close fd)
    gets λ s. not_created (create_err c.errnos (c.backend.errno s.os))
  check_existing dir obj verf fd (some buf) = do
    result ←
        when (check_create_verifier buf verf) (answer_object dir obj fd buf)
          (pure (not_created nfs3err_exist))
    call (c.backend.close fd)
    pure result

  unfoldable pub create_again : NfsFh → FilePath → List ℕ → Option ℕ → Run Os Created
  create_again dir obj verf none =
      gets λ s. not_created (create_err c.errnos (c.backend.errno s.os))
  create_again dir obj verf (some fd) = call (c.backend.fstat fd) >>= check_existing dir obj verf fd

  unfoldable pub create_failed : NfsFh → FilePath → CreateHow3 → ℕ → Run Os Created
  create_failed dir obj (unchecked new) errno = pure (not_created (create_err c.errnos errno))
  create_failed dir obj (guarded new) errno = pure (not_created (create_err c.errnos errno))
  create_failed dir obj (exclusive verf) errno =
      when (errno == c.errnos.eexist)
        (call (c.backend.open_file obj o_rdonly true) >>= create_again dir obj verf)
        (pure (not_created (create_err c.errnos errno)))

  unfoldable pub create_with : NfsFh → FilePath → CreateHow3 → Option ℕ → Run Os Created
  create_with dir obj how none = do
    errno ← gets λ s. c.backend.errno s.os
    create_failed dir obj how errno
  create_with dir obj how (some fd) = create_opened dir obj how fd

  unfoldable pub create : DirOpArgs → CreateHow3 → Run Os CreateRes
  create target how = do
    path ← prep c target.dir
    let (status, obj) = cat_name path target.name
    atomic ← atomic_how how
    let checked = join (join status exports_rw) atomic
    (result, handle, attributes) ←
        when (checked == nfs3_ok)
          (call (c.backend.open_create obj (is_guarded how) (create_mode (new_attr how)))
            >>= create_with target.dir obj how)
          (pure (not_created checked))
    dir_wcc ← wcc_data c path
    pure (record { status = result; obj = handle; obj_attributes = attributes; dir_wcc = dir_wcc })
