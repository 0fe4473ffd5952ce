-- ===== src/Raft/Handles.antt =====
-- daemon_raft.c: `adjust_handle`, which makes the handles of a replicated call local.
pub mod Adjust
use unfs3_raft.Base.{
  ℕ, Bool, true, false, not, List, Option, none, some, ◌>>=◌, ◌==◌, if◌then◌else◌,
}
use unfs3_raft.Bytes.{ByteOrder}
use unfs3_raft.Fs.{FilePath, FileSystem}
use unfs3_raft.Fh.{Fh, NfsFh, fh_valid, fh_encode, fh_decode}
use unfs3_raft.Fh.Compose.{Exports, fh_comp_raw}

-- `local_root_fh` and `local_fsid`; `none` while `local_fh_ready` is 0.
abbrev pub LocalHandle : Type 0
LocalHandle = Option (NfsFh × ℕ)

module _ (host : ByteOrder) where
  unfoldable pub local_handle : Fh → LocalHandle
  local_handle fh = if fh_valid fh then some (fh_encode host fh, fh.dev) else none

  -- `exports_nfslist` is NULL or has a path, which may be NULL; `stack` is the uninitialised variable
  -- of `fh_comp_raw`.
  unfoldable pub init_local_handle :
      FileSystem → Exports → Fh → Option (Option FilePath) → LocalHandle → LocalHandle
  init_local_handle fs exports stack exports_nfslist (some ready) = some ready
  init_local_handle fs exports stack none none = none
  init_local_handle fs exports stack (some none) none = none
  init_local_handle fs exports stack (some (some path)) none =
      local_handle (fh_comp_raw fs exports stack path false true)

  -- `adjust_handle` behind its first line. The outer `none` is a failed assertion of `fh_decode`.
  unfoldable pub adjust_handle : List ℕ → LocalHandle → NfsFh → Option NfsFh
  adjust_handle junk none fh = some fh
  adjust_handle junk (some (local_root_fh, local_fsid)) fh = do
    obj ← fh_decode host junk fh
    some (
        if obj.len == 0
        then local_root_fh
        else if not (obj.dev == local_fsid)
        then fh_encode host (record obj { dev = local_fsid })
        else fh)
