-- ===== src/Nfs.antt =====
-- nfs.h: the status codes of the protocol, file types and attributes.
use unfs3_raft.Base.{ℕ, Option}

-- nfsstat3 of nfs.h
abbrev pub Nfsstat3 : Type 0
Nfsstat3 = ℕ

abbrev pub nfs3_ok : Nfsstat3
nfs3_ok = 0

abbrev pub nfs3err_acces : Nfsstat3
nfs3err_acces = 13

abbrev pub nfs3err_stale : Nfsstat3
nfs3err_stale = 70

abbrev pub nfs3err_rofs : Nfsstat3
nfs3err_rofs = 30

abbrev pub nfs3err_exist : Nfsstat3
nfs3err_exist = 17

abbrev pub nfs3err_nospc : Nfsstat3
nfs3err_nospc = 28

abbrev pub nfs3err_dquot : Nfsstat3
nfs3err_dquot = 69

abbrev pub nfs3err_notsupp : Nfsstat3
nfs3err_notsupp = 10004

abbrev pub nfs3err_inval : Nfsstat3
nfs3err_inval = 22

abbrev pub nfs3err_io : Nfsstat3
nfs3err_io = 5

abbrev pub nfs3err_xdev : Nfsstat3
nfs3err_xdev = 18

abbrev pub nfs3err_mlink : Nfsstat3
nfs3err_mlink = 31

abbrev pub nfs3err_noent : Nfsstat3
nfs3err_noent = 2

abbrev pub nfs3err_nxio : Nfsstat3
nfs3err_nxio = 6

abbrev pub nfs3err_fbig : Nfsstat3
nfs3err_fbig = 27

abbrev pub nfs3err_isdir : Nfsstat3
nfs3err_isdir = 21

abbrev pub nfs3err_notempty : Nfsstat3
nfs3err_notempty = 66

abbrev pub nfs3err_notdir : Nfsstat3
nfs3err_notdir = 20

abbrev pub nfs3err_perm : Nfsstat3
nfs3err_perm = 1

abbrev pub nfs3err_nametoolong : Nfsstat3
nfs3err_nametoolong = 63

abbrev pub nfs3err_not_sync : Nfsstat3
nfs3err_not_sync = 10002

-- ftype3 of nfs.h; what is sent may be any number.
abbrev pub Ftype3 : Type 0
Ftype3 = ℕ

abbrev pub nf3reg : Ftype3
nf3reg = 1

abbrev pub nf3dir : Ftype3
nf3dir = 2

abbrev pub nf3blk : Ftype3
nf3blk = 3

abbrev pub nf3chr : Ftype3
nf3chr = 4

abbrev pub nf3lnk : Ftype3
nf3lnk = 5

abbrev pub nf3sock : Ftype3
nf3sock = 6

abbrev pub nf3fifo : Ftype3
nf3fifo = 7

-- set_atime and set_mtime of nfs.h
pub data SetTime : Type 0 where
  dont_change : SetTime
  set_to_server_time : SetTime
  set_to_client_time : ℕ → SetTime

-- sattr3 of nfs.h; `none` is a `set_it` of FALSE.
pub record Sattr3 : Type 0 where
  pub mode : Option ℕ
  pub uid : Option ℕ
  pub gid : Option ℕ
  pub size : Option ℕ
  pub atime : SetTime
  pub mtime : SetTime

-- wcc_attr of nfs.h, whose times have seconds only; `pre_op_attr` is an option of it.
pub record WccAttr : Type 0 where
  pub size : ℕ
  pub mtime : ℕ
  pub ctime : ℕ

-- fattr3 of nfs.h; `post_op_attr` is an option of it.
pub record Fattr3 : Type 0 where
  pub type : Ftype3
  pub mode : ℕ
  pub nlink : ℕ
  pub uid : ℕ
  pub gid : ℕ
  pub size : ℕ
  pub used : ℕ
  pub specdata1 : ℕ
  pub specdata2 : ℕ
  pub fsid : ℕ
  pub fileid : ℕ
  pub atime : ℕ
  pub mtime : ℕ
  pub ctime : ℕ

-- wcc_data of nfs.h
pub record WccData : Type 0 where
  pub before : Option WccAttr
  pub after : Option Fattr3
