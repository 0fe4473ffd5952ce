-- ===== src/Attr/Times.antt =====
-- attr.c: the times of directories on file systems that keep none. `now` is time(NULL).
use unfs3_raft.Base.{
  ℕ, zero, suc, ◌+◌, Bool, false, not, ◌&&◌, List, [], ◌∷◌, Option, none, some, ltb, ◌==◌,
  if◌then◌else◌,
}
use unfs3_raft.Fs.{FilePath, Stat, FileSystem, str_eq, s_isdir}
use unfs3_raft.Exports.{fnv1a_32, fnv1a_32_update}
use unfs3_raft.FdCache.{find, update}

-- BAD_DIR_CACHE_SIZE
abbrev pub bad_dir_cache_size : ℕ
bad_dir_cache_size = 256

-- struct bad_dir_entry; `path` is `none` for NULL.
pub record BadDirEntry : Type 0 where
  pub path : Option FilePath
  pub hash : ℕ
  pub time : ℕ
  pub last_used : ℕ

abbrev pub BadDirs : Type 0
BadDirs = ℕ → BadDirEntry

unfoldable pub hash_names : List FilePath → ℕ → ℕ
hash_names [] hval = hval
hash_names (name ∷ names) hval = hash_names names (fnv1a_32_update name hval)

unfoldable pub directory_hash : FileSystem → FilePath → ℕ
directory_hash fs path = elim (fs.readdir path) [
  | none ↦ 0
  | some names ↦ hash_names names (fnv1a_32 [])
]

-- The loop of `get_free_bad_dir_entry` over `left` entries from `i` on.
unfoldable pub free_loop : BadDirs → ℕ → ℕ → ℕ → ℕ
free_loop dirs zero i best = best
free_loop dirs (suc left) i best =
    let next : ℕ → ℕ = free_loop dirs left (i + 1) in
    elim (dirs i).path [
      | none ↦ i
      | some path ↦ next (if ltb (dirs i).last_used (dirs best).last_used then i else best)
    ]

unfoldable pub get_free_bad_dir_entry : BadDirs → ℕ
get_free_bad_dir_entry dirs = free_loop dirs bad_dir_cache_size 0 0

abbrev pub is_of : FilePath → BadDirEntry → Bool
is_of path entry = elim entry.path [ none ↦ false | some p ↦ str_eq path p ]

-- The entry is a new one, in the place of one that is free, or the one that was found.
unfoldable pub use_bad_dir_entry : FilePath → ℕ → BadDirs → Option ℕ → BadDirs × ℕ
use_bad_dir_entry path now dirs none =
    let i = get_free_bad_dir_entry dirs in
    (update dirs i (record { path = some path; hash = 0; time = 0; last_used = now }), i)
use_bad_dir_entry path now dirs (some i) = (update dirs i (record (dirs i) { last_used = now }), i)

unfoldable pub find_bad_dir_entry : FilePath → ℕ → BadDirs → BadDirs × ℕ
find_bad_dir_entry path now dirs =
    use_bad_dir_entry path now dirs (find (λ i. is_of path (dirs i)) bad_dir_cache_size 0)

unfoldable pub rehashed : ℕ → ℕ → BadDirEntry → BadDirEntry
rehashed hash now entry =
    if not (hash == entry.hash) then record entry { hash = hash; time = now } else entry

module _ (fs : FileSystem) (now : ℕ) where
  unfoldable pub fix_dir_times : FilePath → Stat → BadDirs → BadDirs × Stat
  fix_dir_times path buf dirs =
      let (dirs', i) = find_bad_dir_entry path now dirs in
      let entry : BadDirEntry = rehashed (directory_hash fs path) now (dirs' i) in
      if not (s_isdir buf.st_mode)
      then (dirs, buf)
      else if not (buf.st_mtime == 0) && not (buf.st_ctime == 0)
      then (dirs, buf)
      else (update dirs' i entry, record buf { st_mtime = entry.time; st_ctime = entry.time })
