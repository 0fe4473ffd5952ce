-- ===== src/Examples/Cache.antt =====
-- A table with two entries, of which the second has been handed out last.
use unfs3_raft.Base.{ℕ, ◌-◌, ◌<◌, ◌≡◌, none, some, [], ◌∷◌, false, arith}
use unfs3_raft.Fs.{FilePath, Stat, FileSystem, slash}
use unfs3_raft.FhCache.{
  Entry, Cache, DirTimes, World, cache_entries, empty_entry, update, fh_cache_lru, fh_cache_index,
  fh_cache_add, fh_cache_lookup,
}
use unfs3_raft.FhCache.Slots.{IsBounded, IsOldest, fh_cache_lru-IsOldest}
use unfs3_raft.FhCache.Index.{fh_cache_index-fh_cache_add}
use unfs3_raft.FhCache.Lookup.{Outcome, fh_cache_lookup_lem}

abbrev path_a : FilePath
path_a = slash ∷ 0x61 ∷ []

abbrev path_b : FilePath
path_b = slash ∷ 0x62 ∷ []

abbrev table : ℕ → Entry
table =
    update (update (λ i. empty_entry) 0 (record { dev = 1; ino = 10; path = path_a; use_time = 1 }))
      1 (record { dev = 1; ino = 20; path = path_b; use_time = 2 })

abbrev two_entries : Cache
two_entries = record {
  fh_cache = table;
  fh_cache_max = 2;
  fh_cache_time = 2;
  fh_last_entry = some 1;
}

two_entries-IsBounded : IsBounded two_entries
two_entries-IsBounded = (omega arith, λ j. ground arith)

fh_cache_lru-IsOldest_example :
    let (c', slot) = fh_cache_lru two_entries in
    (slot < cache_entries)
    × IsBounded c'
    × ((2 < cache_entries - 1) → (slot ≡ 2) × (c'.fh_cache_max ≡ 3))
    × ((2 ≡ cache_entries - 1) → IsOldest table (some 1) slot × (c' ≡ two_entries))
fh_cache_lru-IsOldest_example = fh_cache_lru-IsOldest two_entries two_entries-IsBounded

fh_cache_index-fh_cache_add_example :
    let (c', idx) = fh_cache_add 1 30 path_a two_entries in
    (fh_cache_index 1 30 c' ≡ some idx)
    × ((c'.fh_cache idx).path ≡ path_a)
    × (idx < cache_entries)
    × IsBounded c'
fh_cache_index-fh_cache_add_example =
    fh_cache_index-fh_cache_add 1 30 path_a two_entries two_entries-IsBounded

-- An object with inode 10 at every path.
abbrev stat_a : Stat
stat_a = record {
  st_dev = 1;
  st_ino = 10;
  st_mode = 0x8000;
  st_nlink = 1;
  st_uid = 0;
  st_gid = 0;
  st_rdev = 0;
  st_size = 5;
  st_blksize = 4096;
  st_blocks = 1;
  st_atime = 0;
  st_mtime = 0;
  st_ctime = 0;
}

abbrev fs : FileSystem
fs = record { lstat = λ p. some stat_a; readdir = λ p. none; get_gen = λ b p. 0 }

abbrev times : DirTimes
times = record { Memory = ℕ; fix_dir_times = λ p buf m. (m, buf) }

abbrev world : World fs times
world = (two_entries, record { st_cache_valid = false; st_cache = stat_a }, 0)

fh_cache_lookup_lem_example : Outcome fs times 1 10 world (fh_cache_lookup fs times 1 10 world)
fh_cache_lookup_lem_example = fh_cache_lookup_lem fs times 1 10 world
