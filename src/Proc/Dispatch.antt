-- ===== src/Proc/Dispatch.antt =====
-- daemon_raft.c and daemon.c: a call as the arguments that were decoded for its procedure, whether it
-- is replicated, its handles made local, and the procedure it runs. The decoding is in xdr.c.
pub mod Local
pub mod Unreplicated
use mathlib.Core.Option
use unfs3_raft.Base.{ℕ, Bool, true, false, List, Option, none, some}
use unfs3_raft.Bytes.{ByteOrder}
use unfs3_raft.Fh.{NfsFh}
use unfs3_raft.Nfs.{Nfsstat3, Sattr3, Fattr3, WccData}
use unfs3_raft.Raft.Handles.{LocalHandle, adjust_handle}
use unfs3_raft.Readdir.{Listing}
use unfs3_raft.Server.{Config, Run, ◌>>=◌, pure, lift}
use unfs3_raft.Proc.{DirOpArgs}
use unfs3_raft.Proc.Info.{LookupRes, getattr, lookup, access, readlink, readdir, readdirplus}
use unfs3_raft.Proc.Limits.{FsstatRes, FsinfoRes, PathconfRes, fsstat, fsinfo, pathconf}
use unfs3_raft.Proc.Io.{Answer, ReadOk, WriteOk, StableHow, read, write, commit}
use unfs3_raft.Proc.Change.{Guard, RenameRes, LinkRes, setattr, remove, rmdir, rename, link}
use unfs3_raft.Proc.Create.{CreateHow3, CreateRes, create}
use unfs3_raft.Proc.Make.{MknodData3, mkdir, symlink, mknod}

-- `argument`, with the number of the procedure.
pub data Call : Type 0 where
  null_call : Call
  getattr_call : NfsFh → Call
  setattr_call : NfsFh → Sattr3 → Guard → Call
  lookup_call : DirOpArgs → Call
  access_call : NfsFh → ℕ → Call
  readlink_call : NfsFh → Call
  read_call : NfsFh → ℕ → ℕ → Call
  write_call : NfsFh → List ℕ → ℕ → StableHow → Call
  create_call : DirOpArgs → CreateHow3 → Call
  mkdir_call : DirOpArgs → Sattr3 → Call
  symlink_call : DirOpArgs → Sattr3 → List ℕ → Call
  mknod_call : DirOpArgs → MknodData3 → Call
  remove_call : DirOpArgs → Call
  rmdir_call : DirOpArgs → Call
  rename_call : DirOpArgs → DirOpArgs → Call
  link_call : NfsFh → DirOpArgs → Call
  readdir_call : NfsFh → ℕ → ℕ → Call
  readdirplus_call : NfsFh → Call
  fsstat_call : NfsFh → Call
  fsinfo_call : NfsFh → Call
  pathconf_call : NfsFh → Call
  commit_call : NfsFh → Call

-- What a procedure returns.
pub data Reply : Type 0 where
  null_reply : Reply
  getattr_reply : Nfsstat3 × Fattr3 → Reply
  setattr_reply : Nfsstat3 × WccData → Reply
  lookup_reply : LookupRes → Reply
  access_reply : Nfsstat3 × ℕ × Option Fattr3 → Reply
  readlink_reply : Nfsstat3 × List ℕ × Option Fattr3 → Reply
  read_reply : Answer ReadOk × Option Fattr3 → Reply
  write_reply : Answer WriteOk × WccData → Reply
  create_reply : CreateRes → Reply
  remove_reply : Nfsstat3 × WccData → Reply
  rename_reply : RenameRes → Reply
  link_reply : LinkRes → Reply
  readdir_reply : Listing × Option Fattr3 → Reply
  readdirplus_reply : Nfsstat3 → Reply
  fsstat_reply : FsstatRes × Option Fattr3 → Reply
  fsinfo_reply : FsinfoRes × Option Fattr3 → Reply
  pathconf_reply : PathconfRes × Option Fattr3 → Reply
  commit_reply : Answer (List ℕ) × WccData → Reply

-- The switch of `nfs_program_3` over what is run here; all else is replicated.
unfoldable pub is_replicated : Call → Bool
is_replicated (readlink_call symlink) = false
is_replicated (readdir_call dir cookie count) = false
is_replicated (readdirplus_call dir) = false
is_replicated (read_call file offset count) = false
is_replicated (getattr_call object) = false
is_replicated (fsstat_call fsroot) = false
is_replicated (fsinfo_call fsroot) = false
is_replicated (pathconf_call object) = false
is_replicated (access_call object wanted) = false
is_replicated null_call = true
is_replicated (setattr_call object new guard) = true
is_replicated (lookup_call what) = true
is_replicated (write_call file contents offset how) = true
is_replicated (create_call target how) = true
is_replicated (mkdir_call target new) = true
is_replicated (symlink_call target attributes contents) = true
is_replicated (mknod_call target what) = true
is_replicated (remove_call object) = true
is_replicated (rmdir_call object) = true
is_replicated (rename_call from to) = true
is_replicated (link_call file target) = true
is_replicated (commit_call file) = true

module _ (host : ByteOrder) (junk : List ℕ) (here : LocalHandle) where
  unfoldable pub adjusted : (NfsFh → Call) → NfsFh → Option Call
  adjusted make fh = Option.map make (adjust_handle host junk here fh)

  unfoldable pub adjusted_dir : (DirOpArgs → Call) → DirOpArgs → Option Call
  adjusted_dir make args = adjusted (λ fh. make (record args { dir = fh })) args.dir

  unfoldable pub adjusted_twice : (NfsFh → NfsFh → Call) → NfsFh → Option NfsFh → Option Call
  adjusted_twice make second none = none
  adjusted_twice make second (some first) = adjusted (make first) second

  -- adjust_handles_for_proc; `none` is a failed assertion of `fh_decode`.
  unfoldable pub adjust_handles_for_proc : Call → Option Call
  adjust_handles_for_proc null_call = some null_call
  adjust_handles_for_proc (getattr_call object) = adjusted getattr_call object
  adjust_handles_for_proc (setattr_call object new guard) =
      adjusted (λ fh. setattr_call fh new guard) object
  adjust_handles_for_proc (lookup_call what) = adjusted_dir lookup_call what
  adjust_handles_for_proc (access_call object wanted) =
      adjusted (λ fh. access_call fh wanted) object
  adjust_handles_for_proc (readlink_call symlink) = adjusted readlink_call symlink
  adjust_handles_for_proc (read_call file offset count) =
      adjusted (λ fh. read_call fh offset count) file
  adjust_handles_for_proc (write_call file contents offset how) =
      adjusted (λ fh. write_call fh contents offset how) file
  adjust_handles_for_proc (create_call target how) =
      adjusted_dir (λ args. create_call args how) target
  adjust_handles_for_proc (mkdir_call target new) =
      adjusted_dir (λ args. mkdir_call args new) target
  adjust_handles_for_proc (symlink_call target attributes contents) =
      adjusted_dir (λ args. symlink_call args attributes contents) target
  adjust_handles_for_proc (mknod_call target what) =
      adjusted_dir (λ args. mknod_call args what) target
  adjust_handles_for_proc (remove_call object) = adjusted_dir remove_call object
  adjust_handles_for_proc (rmdir_call object) = adjusted_dir rmdir_call object
  adjust_handles_for_proc (rename_call from to) =
      adjusted_twice
        (λ first second. rename_call (record from { dir = first }) (record to { dir = second }))
        to.dir (adjust_handle host junk here from.dir)
  adjust_handles_for_proc (link_call file target) =
      adjusted_twice (λ first second. link_call first (record target { dir = second })) target.dir
        (adjust_handle host junk here file)
  adjust_handles_for_proc (readdir_call dir cookie count) =
      adjusted (λ fh. readdir_call fh cookie count) dir
  adjust_handles_for_proc (readdirplus_call dir) = adjusted readdirplus_call dir
  adjust_handles_for_proc (fsstat_call fsroot) = adjusted fsstat_call fsroot
  adjust_handles_for_proc (fsinfo_call fsroot) = adjusted fsinfo_call fsroot
  adjust_handles_for_proc (pathconf_call object) = adjusted pathconf_call object
  adjust_handles_for_proc (commit_call file) = adjusted commit_call file

module _ (c : Config) where
  abbrev Os : Type 0
  Os = c.backend.Os

  abbrev pub replied : {A : Type 0} → (A → Reply) → Run Os A → Run Os Reply
  replied make m = m >>= λ a. pure (make a)

  -- The procedure `local` of a call.
  unfoldable pub perform : Call → Run Os Reply
  perform null_call = pure null_reply
  perform (getattr_call object) = replied getattr_reply (getattr c object)
  perform (setattr_call object new guard) = replied setattr_reply (setattr c object new guard)
  perform (lookup_call what) = replied lookup_reply (lookup c what)
  perform (access_call object wanted) = replied access_reply (access c object wanted)
  perform (readlink_call symlink) = replied readlink_reply (readlink c symlink)
  perform (read_call file offset count) = replied read_reply (read c file offset count)
  perform (write_call file contents offset how) =
      replied write_reply (write c file contents offset how)
  perform (create_call target how) = replied create_reply (create c target how)
  perform (mkdir_call target new) = replied create_reply (mkdir c target new)
  perform (symlink_call target attributes contents) =
      replied create_reply (symlink c target attributes contents)
  perform (mknod_call target what) = replied create_reply (mknod c target what)
  perform (remove_call object) = replied remove_reply (remove c object)
  perform (rmdir_call object) = replied remove_reply (rmdir c object)
  perform (rename_call from to) = replied rename_reply (rename c from to)
  perform (link_call file target) = replied link_reply (link c file target)
  perform (readdir_call dir cookie count) = replied readdir_reply (readdir c dir cookie count)
  perform (readdirplus_call dir) = replied readdirplus_reply (readdirplus c)
  perform (fsstat_call fsroot) = replied fsstat_reply (fsstat c fsroot)
  perform (fsinfo_call fsroot) = replied fsinfo_reply (fsinfo c fsroot)
  perform (pathconf_call object) = replied pathconf_reply (pathconf c object)
  perform (commit_call file) = replied commit_reply (commit c file)

  -- A call on this server: its handles are made local, and its procedure is run.
  unfoldable pub run_local : LocalHandle → Call → Run Os Reply
  run_local here made = lift (adjust_handles_for_proc c.host c.junk here made) >>= perform
