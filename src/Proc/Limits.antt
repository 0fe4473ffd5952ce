-- ===== src/Proc/Limits.antt =====
-- nfs.c: FSSTAT, FSINFO and PATHCONF.
use unfs3_raft.Base.{
  ℕ, ◌-◌, ◌*◌, ◌%◌, ◌^◌, Bool, true, false, not, Option, none, some, if◌then◌else◌,
}
use unfs3_raft.Backend.{StatVfs}
use unfs3_raft.Exports.{export_point}
use unfs3_raft.Fs.{FilePath, nfs_maxpathlen}
use unfs3_raft.Fh.{NfsFh}
use unfs3_raft.Nfs.{Nfsstat3, nfs3_ok, nfs3err_io, Fattr3}
use unfs3_raft.User.{has_bit}
use unfs3_raft.Server.{Config, Run, ◌>>=◌, ◌>>◌, pure, lift, gets, call, when}
use unfs3_raft.Server.Handles.{run_get_post_cached}
use unfs3_raft.Proc.{maxdata, prep}

pub record FsstatRes : Type 0 where
  pub status : Nfsstat3
  pub tbytes : ℕ
  pub fbytes : ℕ
  pub abytes : ℕ
  pub tfiles : ℕ
  pub ffiles : ℕ
  pub afiles : ℕ

unfoldable pub fsstat_of : StatVfs → FsstatRes
fsstat_of buf = record {
  status = nfs3_ok;
  tbytes = buf.f_blocks * buf.f_frsize % 2 ^ 64;
  fbytes = buf.f_bfree * buf.f_frsize % 2 ^ 64;
  abytes = buf.f_bavail * buf.f_frsize % 2 ^ 64;
  tfiles = buf.f_files;
  ffiles = buf.f_ffree;
  afiles = buf.f_ffree;
}

abbrev pub no_space : Nfsstat3 → FsstatRes
no_space status = record {
  status = status;
  tbytes = 0;
  fbytes = 0;
  abytes = 0;
  tfiles = 0;
  ffiles = 0;
  afiles = 0;
}

-- `properties` is FSF3_LINK | FSF3_SYMLINK | FSF3_HOMOGENEOUS | FSF3_CANSETTIME.
pub record FsinfoRes : Type 0 where
  pub rtmax : ℕ
  pub rtpref : ℕ
  pub rtmult : ℕ
  pub wtmax : ℕ
  pub wtpref : ℕ
  pub wtmult : ℕ
  pub dtpref : ℕ
  pub maxfilesize : ℕ
  pub time_delta : ℕ
  pub properties : ℕ

unfoldable pub fsinfo_of : Bool → FsinfoRes
fsinfo_of is_stream = record {
  rtmax = maxdata is_stream;
  rtpref = maxdata is_stream;
  rtmult = 4096;
  wtmax = maxdata is_stream;
  wtpref = maxdata is_stream;
  wtmult = 4096;
  dtpref = 4096;
  maxfilesize = 2 ^ 64 - 1;
  time_delta = 1;
  properties = 0x1b;
}

pub record PathconfRes : Type 0 where
  pub linkmax : ℕ
  pub name_max : ℕ
  pub no_trunc : Bool
  pub chown_restricted : Bool
  pub case_insensitive : Bool
  pub case_preserving : Bool

unfoldable pub pathconf_of : PathconfRes
pathconf_of = record {
  linkmax = 0xffffffff;
  name_max = nfs_maxpathlen;
  no_trunc = true;
  chown_restricted = false;
  case_insensitive = false;
  case_preserving = true;
}

module _ (c : Config) where
  abbrev Os : Type 0
  Os = c.backend.Os

  -- Without space on a removable export point, zeros; `none` is the crash of `export_point(NULL)`.
  unfoldable pub no_statvfs : Option FilePath → Run Os FsstatRes
  no_statvfs path = do
    removable ← gets λ s. has_bit s.exports.exports_opts 3
    when (not removable) (pure (no_space nfs3err_io)) (do
      p ← lift path
      pure (no_space (if export_point c.export_list p then nfs3_ok else nfs3err_io)))

  unfoldable pub fsstat : NfsFh → Run Os (FsstatRes × Option Fattr3)
  fsstat fsroot = do
    path ← prep c fsroot
    attributes ← run_get_post_cached c
    found ← call (c.backend.statvfs path)
    result ← elim found [ none ↦ no_statvfs path | some buf ↦ pure (fsstat_of buf) ]
    pure (result, attributes)

  unfoldable pub fsinfo : NfsFh → Run Os (FsinfoRes × Option Fattr3)
  fsinfo fsroot = do
    prep c fsroot
    attributes ← run_get_post_cached c
    pure (fsinfo_of c.is_stream, attributes)

  unfoldable pub pathconf : NfsFh → Run Os (PathconfRes × Option Fattr3)
  pathconf object = do
    prep c object
    attributes ← run_get_post_cached c
    pure (pathconf_of, attributes)
