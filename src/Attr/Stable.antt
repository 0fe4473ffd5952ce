-- ===== src/Attr/Stable.antt =====
-- The times that a directory without times of its own is given.
use unfs3_raft.Base.{
  ℕ, zero, suc, ◌+◌, ◌≤◌, ◌<◌, ◌≡◌, refl, ap, true, false, not, ◌&&◌, Option, none, some, [], ◌∷◌,
  ltb, ◌==◌, arith, if◌then◌else◌, inl, inr, Option-cases, if_intro, ==_refl,
}
use unfs3_raft.Fs.{FilePath, Stat, FileSystem, str_eq, s_isdir}
use unfs3_raft.FdCache.{update}
use unfs3_raft.FdCache.Find.{IsFirst, find-IsFirst, find_first}
use unfs3_raft.Attr.Times.{
  bad_dir_cache_size, BadDirEntry, BadDirs, directory_hash, free_loop, get_free_bad_dir_entry,
  is_of, use_bad_dir_entry, find_bad_dir_entry, rehashed, fix_dir_times,
}

str_eq_refl : (s : FilePath) → str_eq s s ≡ true
unfolding str_eq
str_eq_refl [] = refl
str_eq_refl (x ∷ xs) = rw (==_refl x) (str_eq_refl xs)

free_loop_lt :
    (dirs : BadDirs) (left i best n : ℕ) → i + left ≤ n → best < n → free_loop dirs left i best < n
unfolding free_loop
free_loop_lt dirs zero i best n h k = k
free_loop_lt dirs (suc left) i best n h k = elim (Option-cases (dirs i).path) [
  | inl e ↦ rw (e, free_loop) (omega arith)
  | inr e ↦
      rw (e.1, free_loop)
        (free_loop_lt dirs left (i + 1) _ n (omega arith) (
          if_intro (λ m. m < n) (ltb (dirs i).last_used (dirs best).last_used) i best
            (λ t. omega arith) (λ f. k)))
]

-- Entry `i` is the first one of the path.
record IsEntryOf (path : FilePath) (dirs : BadDirs) (i : ℕ) : Type 0 where
  pub small : i < bad_dir_cache_size
  pub hit : is_of path (dirs i) ≡ true
  pub first : (j : ℕ) → j < i → is_of path (dirs j) ≡ false

same_path-IsEntryOf :
    (path : FilePath) (dirs : BadDirs) (i : ℕ) (entry : BadDirEntry)
    → i < bad_dir_cache_size
    → is_of path entry ≡ true
    → ((j : ℕ) → j < i → is_of path (dirs j) ≡ false)
    → IsEntryOf path (update dirs i entry) i
same_path-IsEntryOf path dirs i entry small hit first = record {
  small = small;
  hit = rw (==_refl i) hit;
  first = λ j h. rw ne (first j h);
}
  where
    ne : {j : ℕ} → j < i → (i == j) ≡ false
    ne h = ground arith

get_free_bad_dir_entry_lt : (dirs : BadDirs) → get_free_bad_dir_entry dirs < bad_dir_cache_size
unfolding get_free_bad_dir_entry
get_free_bad_dir_entry_lt dirs =
    free_loop_lt dirs bad_dir_cache_size 0 0 bad_dir_cache_size (omega arith) (omega arith)

use_bad_dir_entry-IsEntryOf :
    (path : FilePath) (now : ℕ) (dirs : BadDirs) (o : Option ℕ)
    → IsFirst (λ i. is_of path (dirs i)) 0 bad_dir_cache_size o
    → IsEntryOf path (use_bad_dir_entry path now dirs o).0 (use_bad_dir_entry path now dirs o).1
unfolding use_bad_dir_entry
use_bad_dir_entry-IsEntryOf path now dirs none unused =
    let small : get_free_bad_dir_entry dirs < bad_dir_cache_size = get_free_bad_dir_entry_lt dirs in
    same_path-IsEntryOf path dirs _ _ small (str_eq_refl path)
      (λ j h. unused j (omega arith) (omega arith))
use_bad_dir_entry-IsEntryOf path now dirs (some i) h =
    same_path-IsEntryOf path dirs i _ h.0 h.1 (λ j k. h.2 j (omega arith) k)

find_bad_dir_entry-IsEntryOf :
    (path : FilePath) (now : ℕ) (dirs : BadDirs)
    → IsEntryOf path (find_bad_dir_entry path now dirs).0 (find_bad_dir_entry path now dirs).1
unfolding find_bad_dir_entry
find_bad_dir_entry-IsEntryOf path now dirs =
    use_bad_dir_entry-IsEntryOf path now dirs _
      (find-IsFirst (λ i. is_of path (dirs i)) bad_dir_cache_size 0)

-- An entry that is there is found again, and only its last use changes.
find_bad_dir_entry_again :
    (path : FilePath) (now : ℕ) (dirs : BadDirs) (i : ℕ)
    → IsEntryOf path dirs i
    → find_bad_dir_entry path now dirs ≡ (update dirs i (record (dirs i) { last_used = now }), i)
unfolding find_bad_dir_entry use_bad_dir_entry
find_bad_dir_entry_again path now dirs i h = ap (use_bad_dir_entry path now dirs) (
    find_first (λ i. is_of path (dirs i)) bad_dir_cache_size 0 i (omega arith) h.small h.hit
      (λ j _. h.first j))

-- A directory without a time of its own.
pub record IsTimeless (buf : Stat) : Type 0 where
  pub directory : s_isdir buf.st_mode ≡ true
  pub timeless : (not (buf.st_mtime == 0) && not (buf.st_ctime == 0)) ≡ false

rehashed_hash : (h now : ℕ) (entry : BadDirEntry) → (rehashed h now entry).hash ≡ h
unfolding rehashed
rehashed_hash h now entry =
    if_intro {A = BadDirEntry} (λ e. e.hash ≡ h) (not (h == entry.hash)) _ _ (λ t. refl)
      (λ f. ground arith)

rehashed_path : (h now : ℕ) (entry : BadDirEntry) → (rehashed h now entry).path ≡ entry.path
unfolding rehashed
rehashed_path h now entry =
    if_intro {A = BadDirEntry} (λ e. e.path ≡ entry.path) (not (h == entry.hash)) _ _ (λ t. refl)
      (λ f. refl)

rehashed_time :
    (h now : ℕ) (entry : BadDirEntry)
    → (rehashed h now entry).time ≡ (if h == entry.hash then entry.time else now)
unfolding rehashed
rehashed_time h now entry = ground arith

fix_dir_times_lem :
    (fs : FileSystem) (now : ℕ) (path : FilePath) (buf : Stat) (dirs : BadDirs)
    → IsTimeless buf
    → let (dirs', i) = find_bad_dir_entry path now dirs in
      let entry = rehashed (directory_hash fs path) now (dirs' i) in
      fix_dir_times fs now path buf dirs
      ≡ (update dirs' i entry, record buf { st_mtime = entry.time; st_ctime = entry.time })
unfolding fix_dir_times
fix_dir_times_lem fs now path buf dirs h = rw (h.directory, h.timeless) refl

-- For a directory without a time of its own, the second of two calls in a row reports the time that the first one
-- reported if the hash of the names in the directory is still the same, and else the current time.
pub fix_dir_times-fix_dir_times :
    (fs fs' : FileSystem) (now now' : ℕ) (path : FilePath) (buf buf' : Stat) (dirs : BadDirs)
    → IsTimeless buf
    → IsTimeless buf'
    → let (dirs', first) = fix_dir_times fs now path buf dirs in
      (fix_dir_times fs' now' path buf' dirs').1.st_mtime
      ≡ (if directory_hash fs' path == directory_hash fs path then first.st_mtime else now')
fix_dir_times-fix_dir_times fs fs' now now' path buf buf' dirs t t' =
    let (dirs1, i) = find_bad_dir_entry path now dirs in
    let entry : BadDirEntry = rehashed (directory_hash fs path) now (dirs1 i) in
    let found : IsEntryOf path dirs1 i = find_bad_dir_entry-IsEntryOf path now dirs in
    let kept : is_of path entry ≡ true =
      rw (rehashed_path (directory_hash fs path) now (dirs1 i)) found.hit in
    let again : IsEntryOf path (update dirs1 i entry) i =
      same_path-IsEntryOf path dirs1 i entry found.small kept found.first in
    rw
      (
        fix_dir_times_lem fs now path buf dirs t,
        fix_dir_times_lem fs' now' path buf' (update dirs1 i entry) t',
        find_bad_dir_entry_again path now' (update dirs1 i entry) i again,
        ==_refl i,
        rehashed_time (directory_hash fs' path) now' (record entry { last_used = now' }),
        rehashed_hash (directory_hash fs path) now (dirs1 i),
      )
      refl
