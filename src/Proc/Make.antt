-- ===== src/Proc/Make.antt =====
-- nfs.c: MKDIR, SYMLINK and MKNOD. The arguments of `join3` are evaluated from left to right,
-- which C leaves open.
use unfs3_raft.Base.{
  ℕ, ◌+◌, ◌-◌, ◌*◌, ◌%◌, ◌^◌, Bool, true, false, ◌&&◌, ◌||◌, List, Option, none, some, length, ltb,
  ◌==◌, if◌then◌else◌,
}
use Prim.Native.Nat.{bit_or}
use unfs3_raft.Attr.{type_to_mode, create_mode}
use unfs3_raft.Error.{join3, mkdir_err, symlink_err, mknod_err}
use unfs3_raft.Exports.{exports_rw}
use unfs3_raft.Fs.{FilePath}
use unfs3_raft.Fh.{NfsFh}
use unfs3_raft.Nfs.{
  Nfsstat3, nfs3_ok, nfs3err_inval, nfs3err_nametoolong, Ftype3, nf3reg, nf3dir, nf3blk, nf3chr,
  nf3lnk, nf3sock, nf3fifo, Sattr3, WccAttr,
}
use unfs3_raft.Server.{Config, Run, ◌>>=◌, ◌>>◌, pure, gets, call, when}
use unfs3_raft.Server.Handles.{
  fh_extend_type, run_get_pre_cached, run_get_post_cached, get_post_attr,
}
use unfs3_raft.Proc.{DirOpArgs, cat_name, prep}
use unfs3_raft.Proc.Create.{CreateRes, Created, not_created, run_atomic_attr}

-- mknoddata3: the type, the attributes and, for a device, its numbers.
pub record MknodData3 : Type 0 where
  pub type : Ftype3
  pub attributes : Sattr3
  pub specdata1 : ℕ
  pub specdata2 : ℕ

-- UNIX_PATH_MAX
abbrev pub unix_path_max : ℕ
unix_path_max = 108

abbrev pub is_device : Ftype3 → Bool
is_device type = (type == nf3chr) || (type == nf3blk)

unfoldable pub mknod_mode : Ftype3 → ℕ → ℕ
mknod_mode type mode =
    if type == nf3chr
    then bit_or mode 0x2000
    else if type == nf3blk
    then bit_or mode 0x6000
    else mode

unfoldable pub mknod_dev : MknodData3 → ℕ
mknod_dev what =
    if is_device what.type then (what.specdata1 * 2 ^ 8 + what.specdata2) % 2 ^ 32 else 0

module _ (c : Config) where
  abbrev Os : Type 0
  Os = c.backend.Os

  -- What MKDIR, SYMLINK and MKNOD do after their system call.
  unfoldable pub answer_type : NfsFh → FilePath → ℕ → (ℕ → Nfsstat3) → Bool → Run Os Created
  answer_type dir obj type translate false =
      gets λ s. not_created (translate (c.backend.errno s.os))
  answer_type dir obj type translate true = do
    handle ← fh_extend_type c dir obj type
    attributes ← run_get_post_cached c
    pure (nfs3_ok, handle, attributes)

  -- The attributes of the directory are those that its handle has at the end.
  unfoldable pub created_in : Option FilePath → NfsFh → Option WccAttr → Created → Run Os CreateRes
  created_in path dir pre (status, handle, attributes) = do
    post ← get_post_attr c path dir
    pure (record {
      status = status;
      obj = handle;
      obj_attributes = attributes;
      dir_wcc = record { before = pre; after = post };
    })

  unfoldable pub mkdir : DirOpArgs → Sattr3 → Run Os CreateRes
  mkdir target new = do
    path ← prep c target.dir
    pre ← run_get_pre_cached c
    let (status, obj) = cat_name path target.name
    atomic ← run_atomic_attr c new
    let checked = join3 status atomic exports_rw
    result ←
        when (checked == nfs3_ok)
          (call (c.backend.mkdir obj (create_mode new))
            >>= answer_type target.dir obj 0x4000 (mkdir_err c.errnos))
          (pure (not_created checked))
    created_in path target.dir pre result

  -- `~mode`
  abbrev pub mask_of : ℕ → ℕ
  mask_of mode = 2 ^ 32 - 1 - mode

  abbrev pub run_umask : ℕ → Run Os Bool
  run_umask mask = call (λ os. (c.backend.umask mask os, true))

  unfoldable pub run_symlink : List ℕ → FilePath → ℕ → Run Os Bool
  run_symlink target obj new_mode = do
    run_umask (mask_of new_mode)
    linked ← call (c.backend.symlink target obj)
    run_umask 0
    pure linked

  unfoldable pub symlink_mode : Sattr3 → ℕ
  symlink_mode attributes = elim attributes.mode [
    | some mode ↦ create_mode attributes
    | none ↦ 0x1ff
  ]

  unfoldable pub symlink : DirOpArgs → Sattr3 → List ℕ → Run Os CreateRes
  symlink target attributes contents = do
    path ← prep c target.dir
    pre ← run_get_pre_cached c
    let (status, obj) = cat_name path target.name
    atomic ← run_atomic_attr c attributes
    let checked = join3 status atomic exports_rw
    result ←
        when (checked == nfs3_ok)
          (run_symlink contents obj (symlink_mode attributes)
            >>= answer_type target.dir obj 0xa000 (symlink_err c.errnos))
          (pure (not_created checked))
    created_in path target.dir pre result

  unfoldable pub bind_socket : FilePath → ℕ → Option ℕ → Run Os Bool
  bind_socket path mode none = pure false
  bind_socket path mode (some sock) = do
    run_umask (mask_of mode)
    bound ← call (c.backend.bind sock path)
    run_umask 0
    call (c.backend.close sock)
    pure bound

  unfoldable pub mksocket : FilePath → ℕ → Run Os Bool
  mksocket path mode = call c.backend.socket >>= bind_socket path mode

  -- For a type that the protocol does not know, `attr` is not written: here it is what was sent.
  unfoldable pub mknod_args : MknodData3 → FilePath → Run Os (Nfsstat3 × ℕ × ℕ)
  mknod_args what obj = do
    atomic ← run_atomic_attr c what.attributes
    let mode = mknod_mode what.type (create_mode what.attributes)
    pure (
        if (what.type == nf3reg) || ((what.type == nf3dir) || (what.type == nf3lnk))
        then (nfs3err_inval, 0, 0)
        else if (what.type == nf3sock) && ltb unix_path_max (length obj + 1)
        then (nfs3err_nametoolong, 0, 0)
        else (atomic, mode, mknod_dev what))

  -- A device, a FIFO, or else a socket.
  unfoldable pub make_node : Ftype3 → FilePath → ℕ → ℕ → Run Os Bool
  make_node type obj new_mode dev =
      when (is_device type) (call (c.backend.mknod obj new_mode dev))
        (when (type == nf3fifo) (call (c.backend.mkfifo obj new_mode)) (mksocket obj new_mode))

  unfoldable pub mknod : DirOpArgs → MknodData3 → Run Os CreateRes
  mknod target what = do
    path ← prep c target.dir
    pre ← run_get_pre_cached c
    let (status, obj) = cat_name path target.name
    (args, new_mode, dev) ← mknod_args what obj
    let checked = join3 status args exports_rw
    result ←
        when (checked == nfs3_ok)
          (make_node what.type obj new_mode dev
            >>= answer_type target.dir obj (type_to_mode what.type) (mknod_err c.errnos))
          (pure (not_created checked))
    created_in path target.dir pre result
