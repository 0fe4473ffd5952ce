-- ===== src/Server/Handles.antt =====
-- fh_cache.c and fh.c: the functions on handles that work through the caches, and the attributes that
-- an answer carries, of attr.c.
use unfs3_raft.Base.{
  ◌%◌, ◌^◌, ℕ, Bool, true, false, not, ◌||◌, Option, none, some, ◌==◌, if◌then◌else◌,
}
use Prim.Native.Nat.{bit_and}
use unfs3_raft.Backend.{files}
use unfs3_raft.Fs.{FilePath, Stat}
use unfs3_raft.Nfs.{WccAttr, Fattr3}
use unfs3_raft.Fh.{Fh, NfsFh, fh_encode, fh_valid, fh_extend, nfh_valid}
use unfs3_raft.Fh.Compose.{Exports, fh_comp_raw}
use unfs3_raft.Fh.Search.{Found, fh_decomp_raw}
use unfs3_raft.FhCache.{fh_cache_lookup}
use unfs3_raft.Exports.{
  ExportState, no_export, exports_options, export_point, export_point_from_fsid,
}
use unfs3_raft.Locate.{locate_file}
use unfs3_raft.User.{has_bit}
use unfs3_raft.Attr.{get_pre_cached, get_post_buf, get_post_cached}
use unfs3_raft.Server.{
  Config, Run, ◌>>=◌, ◌>>◌, pure, lift, gets, call, when, modify, State, times, fixed_times, decode,
  run_fh_cache_add,
}

-- S_IFDIR with all permissions, for an export point where no media is inserted.
abbrev pub dummy_stat : ℕ → Stat
dummy_stat dev = record {
  st_dev = dev;
  st_ino = 1;
  st_mode = 0x41ff;
  st_nlink = 2;
  st_uid = 0;
  st_gid = 0;
  st_rdev = 0;
  st_size = 4096;
  st_blksize = 512;
  st_blocks = 8;
  st_atime = 0;
  st_mtime = 0;
  st_ctime = 0;
}

abbrev pub or_default : ℕ → ℕ → ℕ
or_default n default = if n == 0 then default else n

unfoldable pub sane_stat : Stat → Stat
sane_stat buf = record buf {
  st_nlink = or_default buf.st_nlink 1;
  st_size = or_default buf.st_size 4096;
  st_blksize = or_default buf.st_blksize 512;
  st_blocks = or_default buf.st_blocks 8;
}

module _ (c : Config) where
  abbrev Os : Type 0
  Os = c.backend.Os

  abbrev pub set_st_cache : Stat → Run Os Bool
  set_st_cache buf =
      modify (λ s. record s { st = record { st_cache_valid = true; st_cache = buf } })

  abbrev pub invalidate : Run Os Bool
  invalidate = modify (λ s. record s { st = record s.st { st_cache_valid = false } })

  unfoldable pub decomp_export : Fh → FilePath → Run Os (Option FilePath)
  decomp_export obj path = do
    found ← call (c.backend.lstat path)
    elim found [
      | none ↦ do set_st_cache (dummy_stat obj.dev); pure (some path)
      | some buf ↦ do
        buf' ← fixed_times c path (sane_stat buf)
        set_st_cache (record buf' { st_dev = obj.dev; st_ino = 1 })
        pure (some path)
    ]

  unfoldable pub run_fh_cache_lookup : ℕ → ℕ → Run Os (Option FilePath)
  run_fh_cache_lookup dev ino s =
      let (world, path) =
        fh_cache_lookup (files c.backend s.os) (times c s) dev ino (s.cache, s.st, s.dirs) in
      let (cache', st', dirs') = world in
      some (path, record s { cache = cache'; st = st'; dirs = dirs' })

  -- What a search found goes into the stat cache, if there is a buffer, and into the cache of paths.
  unfoldable pub store_found : Fh → FilePath → Option Stat → Run Os (Option FilePath)
  store_found obj path none = do
    stored ← run_fh_cache_add c obj.dev obj.ino path
    pure (some stored)
  store_found obj path (some buf) = do
    buf' ← fixed_times c path buf
    set_st_cache buf'
    stored ← run_fh_cache_add c obj.dev obj.ino path
    pure (some stored)

  unfoldable pub store_located : Fh → Found → Run Os (Option FilePath)
  store_located obj none = invalidate >> pure none
  store_located obj (some (path, buf)) = store_found obj path (some buf)

  unfoldable pub decomp_located : Fh → Run Os (Option FilePath)
  decomp_located obj s =
      store_located obj
        (locate_file (files c.backend s.os) obj.dev obj.ino c.opt_brute_force c.mtab) s

  unfoldable pub store_raw : Fh → Option (FilePath × Option Stat) → Run Os (Option FilePath)
  store_raw obj none = decomp_located obj
  store_raw obj (some (path, buf)) = store_found obj path buf

  -- The hard way, when the cache has no path.
  unfoldable pub decomp_uncached : Fh → Run Os (Option FilePath)
  decomp_uncached obj s = store_raw obj (fh_decomp_raw (files c.backend s.os) obj c.junk_stat) s

  unfoldable pub cached_path : Fh → Option FilePath → Run Os (Option FilePath)
  cached_path obj none = decomp_uncached obj
  cached_path obj (some path) = pure (some path)

  unfoldable pub decomp_object : Fh → Run Os (Option FilePath)
  decomp_object obj = run_fh_cache_lookup obj.dev obj.ino >>= cached_path obj

  unfoldable pub decomp_valid : Fh → Option FilePath → Run Os (Option FilePath)
  decomp_valid obj none = decomp_object obj
  decomp_valid obj (some path) = when (obj.ino == 1) (decomp_export obj path) (decomp_object obj)

  -- fh_decomp
  unfoldable pub fh_decomp : NfsFh → Run Os (Option FilePath)
  fh_decomp nfh = do
    obj ← decode c nfh
    valid ← lift (nfh_valid c.host c.junk nfh)
    when (not valid) (invalidate >> pure none)
        (decomp_valid obj (export_point_from_fsid c.export_list obj.dev))

  -- What `fh_comp_raw` asks of Config/exports.y. `fsid` is written whenever there are options.
  unfoldable pub comp_exports : ExportState → Exports
  comp_exports exports = record {
    export_point = export_point c.export_list;
    exports_options = λ path.
        let (outs, exports') = exports_options c.export_list (some path) c.remote exports in
        if exports'.exports_opts == no_export
        then none
        else elim outs.fsid [ none ↦ none | some id ↦ some (id, has_bit exports'.exports_opts 3) ];
  }

  -- fh_comp with a request: `fh_comp_raw` leaves the options of the export point it asks for.
  unfoldable pub fh_comp : FilePath → Bool → Run Os Fh
  fh_comp path need_dir = do
    fh ← gets λ s.
        fh_comp_raw (files c.backend s.os) (comp_exports s.exports) c.junk_fh path true need_dir
    modify (λ s.
        if export_point c.export_list path
        then record s { exports = (exports_options c.export_list (some path) c.remote s.exports).1 }
        else s)
    when (fh_valid fh) (run_fh_cache_add c fh.dev fh.ino path) (pure path)
    gets λ s. record fh { pwhash = s.exports.export_password_hash }

  unfoldable pub fh_comp_ptr : FilePath → Bool → Run Os (Option Fh)
  fh_comp_ptr path need_dir = do
    res ← fh_comp path need_dir
    pure (if fh_valid res then some res else none)

  -- export_point_from_fsid, then fh_comp_raw without a request
  unfoldable pub removable : State c → ℕ → Option Fh
  removable s dev = elim (export_point_from_fsid c.export_list dev) [
    | none ↦ none
    | some path ↦
        some
          (fh_comp_raw (files c.backend s.os) (comp_exports s.exports) c.junk_fh path false false)
  ]

  -- The device is a 32 bit argument.
  unfoldable pub run_fh_extend : NfsFh → ℕ → ℕ → ℕ → Run Os (Option Fh)
  run_fh_extend nfh dev ino gen = do
    extended ← gets λ s.
        fh_extend c.host (removable s) s.exports.export_password_hash c.junk nfh (dev % 2 ^ 32) ino
          gen
    lift extended

  -- fh_extend_post: `none` is a `handle_follows` of FALSE.
  unfoldable pub fh_extend_post : NfsFh → ℕ → ℕ → ℕ → Run Os (Option NfsFh)
  fh_extend_post nfh dev ino gen = do
    new ← run_fh_extend nfh dev ino gen
    pure (elim new [ none ↦ none | some fh ↦ some (fh_encode c.host fh) ])

  unfoldable pub extend_found : NfsFh → FilePath → ℕ → Option Stat → Run Os (Option NfsFh)
  extend_found nfh path type none = invalidate >> pure none
  extend_found nfh path type (some buf) =
      when (not (bit_and buf.st_mode type == type)) (invalidate >> pure none) (do
        buf' ← fixed_times c path buf
        set_st_cache buf'
        gen ← gets λ s. c.backend.get_gen buf' none path s.os
        fh_extend_post nfh buf'.st_dev buf'.st_ino gen)

  unfoldable pub fh_extend_type : NfsFh → FilePath → ℕ → Run Os (Option NfsFh)
  fh_extend_type nfh path type = do
    found ← call (c.backend.lstat path)
    extend_found nfh path type found

  -- The device comes from the handle and the inode from the path.
  unfoldable pub fh_cache_update : NfsFh → FilePath → Run Os Bool
  fh_cache_update nfh path = do
    obj ← decode c nfh
    found ← call (c.backend.lstat path)
    elim found [
      | none ↦ pure false
      | some buf ↦ run_fh_cache_add c obj.dev buf.st_ino path >> pure true
    ]

  unfoldable pub run_get_pre_cached : Run Os (Option WccAttr)
  run_get_pre_cached = gets λ s. get_pre_cached s.st

  unfoldable pub run_get_post_cached : Run Os (Option Fattr3)
  run_get_post_cached = gets λ s. get_post_cached c.backend c.opts s.exports s.req s.os s.st

  unfoldable pub run_get_post_buf : Stat → Run Os Fattr3
  run_get_post_buf buf = gets λ s. get_post_buf c.backend c.opts s.exports s.req s.os buf

  unfoldable pub post_found : FilePath → ℕ → ℕ → Option Stat → Run Os (Option Fattr3)
  post_found path dev ino none = pure none
  post_found path dev ino (some buf) =
      when (not (dev == buf.st_dev) || not (ino == buf.st_ino)) (pure none) (do
        buf' ← fixed_times c path buf
        attributes ← run_get_post_buf buf'
        pure (some attributes))

  unfoldable pub get_post_ll : Option FilePath → ℕ → ℕ → Run Os (Option Fattr3)
  get_post_ll none dev ino = pure none
  get_post_ll (some path) dev ino = do
    found ← call (c.backend.lstat path)
    post_found path dev ino found

  unfoldable pub get_post_attr : Option FilePath → NfsFh → Run Os (Option Fattr3)
  get_post_attr path nfh = do fh ← decode c nfh; get_post_ll path fh.dev fh.ino

  unfoldable pub get_post_stat : Option FilePath → Run Os (Option Fattr3)
  get_post_stat path s = get_post_ll path s.st.st_cache.st_dev s.st.st_cache.st_ino s
