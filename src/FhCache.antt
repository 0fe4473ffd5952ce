-- ===== src/FhCache.antt =====
-- fh_cache.c: the table of recently used paths, found by device and inode.
pub mod Slots
pub mod Index
pub mod Lookup
use unfs3_raft.Base.{
  ℕ, zero, suc, ◌+◌, ◌-◌, ◌%◌, ◌^◌, Bool, true, false, not, ◌&&◌, ◌||◌, List, [], ◌∷◌, Option, none,
  some, ltb, ◌==◌, if◌then◌else◌,
}
use unfs3_raft.Fs.{FilePath, Stat, FileSystem}

-- CACHE_ENTRIES
abbrev pub cache_entries : ℕ
cache_entries = 4096

-- unfs3_cache_t
pub record Entry : Type 0 where
  pub dev : ℕ
  pub ino : ℕ
  pub path : FilePath
  pub use_time : ℕ

-- The globals: `fh_last_entry` is `none` for -1. An index into the array is at most 4095
-- (`Slots.IsValid`).
pub record Cache : Type 0 where
  pub fh_cache : ℕ → Entry
  pub fh_cache_max : ℕ
  pub fh_cache_time : ℕ
  pub fh_last_entry : Option ℕ

-- The stat cache of fh.c.
pub record StCache : Type 0 where
  pub st_cache_valid : Bool
  pub st_cache : Stat

abbrev pub update {ℓ} : {A : Type ℓ} → (ℕ → A) → ℕ → A → ℕ → A
update f i v j = if i == j then v else f j

abbrev pub empty_entry : Entry
empty_entry = record { dev = 0; ino = 0; path = []; use_time = 0 }

-- The table as the program starts and as `fh_cache_init` leaves it.
abbrev pub initial : Cache
initial = record {
  fh_cache = λ i. empty_entry;
  fh_cache_max = 0;
  fh_cache_time = 0;
  fh_last_entry = none;
}

unfoldable pub fh_cache_init : Cache → Cache
fh_cache_init c = record c { fh_cache = λ i. empty_entry }

-- `++fh_cache_time` on an `unsigned int`.
unfoldable pub fh_cache_next : Cache → Cache × ℕ
fh_cache_next c =
    let time = (c.fh_cache_time + 1) % 2 ^ 32 in (record c { fh_cache_time = time }, time)

abbrev pub is_last : Option ℕ → ℕ → Bool
is_last none i = false
is_last (some last) i = i == last

-- The loop of `fh_cache_lru` with `left` rounds to go, at `i`: the slot is an unused one, or the
-- best one that was seen.
unfoldable pub lru_loop : (ℕ → Entry) → Option ℕ → ℕ → ℕ → ℕ → ℕ → ℕ
lru_loop table last zero i best best_idx = if (best_idx == 0) && is_last last 0 then 1 else best_idx
lru_loop table last (suc left) i best best_idx =
    let used = (table i).use_time in
    let next : ℕ → ℕ → ℕ = lru_loop table last left (i + 1) in
    elim (is_last last i) [
      | true ↦ next best best_idx
      | false ↦ elim (used == 0) [
        | true ↦ i
        | false ↦ elim (ltb used best) [ true ↦ next used i | false ↦ next best best_idx ]
      ]
    ]

unfoldable pub fh_cache_lru : Cache → Cache × ℕ
fh_cache_lru c =
    if ltb c.fh_cache_max (cache_entries - 1)
    then (record c { fh_cache_max = c.fh_cache_max + 1 }, c.fh_cache_max)
    else (c, lru_loop c.fh_cache c.fh_last_entry cache_entries 0 (2 ^ 32 - 1) 0)

unfoldable pub fh_cache_inval : ℕ → Cache → Cache
fh_cache_inval idx c = record c { fh_cache = update c.fh_cache idx empty_entry }

abbrev pub is_entry : ℕ → ℕ → Entry → Bool
is_entry dev ino e = (e.dev == dev) && (e.ino == ino)

-- The first index from `i` on, of `left`, whose entry is that of the object.
unfoldable pub index_loop : (ℕ → Entry) → ℕ → ℕ → ℕ → ℕ → Option ℕ
index_loop table dev ino zero i = none
index_loop table dev ino (suc left) i =
    let rest = index_loop table dev ino left (i + 1) in
    if is_entry dev ino (table i) then some i else rest

unfoldable pub fh_cache_index : ℕ → ℕ → Cache → Option ℕ
fh_cache_index dev ino c = index_loop c.fh_cache dev ino (c.fh_cache_max + 1) 0

unfoldable pub slot_for : Option ℕ → Cache → Cache × ℕ
slot_for (some idx) c = (c, idx)
slot_for none c = fh_cache_lru c

-- The entry is written, and the pointer that is returned leads to its path. `strcpy` relies on a path
-- below NFS_MAXPATHLEN.
unfoldable pub fh_cache_add : ℕ → ℕ → FilePath → Cache → Cache × ℕ
fh_cache_add dev ino path c =
    let (c1, idx) = slot_for (fh_cache_index dev ino c) c in
    let (c2, time) = fh_cache_next c1 in
    let entry : Entry = record { dev = dev; ino = ino; path = path; use_time = time } in
    (record c2 { fh_cache = update c2.fh_cache idx entry }, idx)

-- `fix_dir_times` of attr.c, with the state that it keeps.
pub record DirTimes : Type 1 where
  pub Memory : Type 0
  pub fix_dir_times : FilePath → Stat → Memory → Memory × Stat

module _ (fs : FileSystem) (times : DirTimes) where
  open times use {Memory, fix_dir_times}

  abbrev pub World : Type 0
  World = Cache × StCache × Memory

  unfoldable pub use_entry : ℕ → Stat → World → World × Option FilePath
  use_entry i buf (c, st, m) =
      let (c1, time) = fh_cache_next c in
      let entry : Entry = c1.fh_cache i in
      let path : FilePath = entry.path in
      let (m', fixed) = fix_dir_times path buf m in
      (
        (
          record c1 {
            fh_cache = update c1.fh_cache i (record entry { use_time = time });
            fh_last_entry = some i;
          },
          record { st_cache_valid = true; st_cache = fixed },
          m',
        ),
        some path,
      )

  unfoldable pub check_entry : ℕ → ℕ → ℕ → Option Stat → World → World × Option FilePath
  check_entry dev ino i none (c, st, m) = ((fh_cache_inval i c, st, m), none)
  check_entry dev ino i (some buf) (c, st, m) =
      if (buf.st_dev == dev) && (buf.st_ino == ino)
      then use_entry i buf (c, st, m)
      else ((fh_cache_inval i c, st, m), none)

  unfoldable pub lookup_at : ℕ → ℕ → Option ℕ → World → World × Option FilePath
  lookup_at dev ino none w = (w, none)
  lookup_at dev ino (some i) (c, st, m) =
      check_entry dev ino i (fs.lstat (c.fh_cache i).path) (c, st, m)

  unfoldable pub fh_cache_lookup : ℕ → ℕ → World → World × Option FilePath
  fh_cache_lookup dev ino (c, st, m) = lookup_at dev ino (fh_cache_index dev ino c) (c, st, m)
