-- ===== src/Readdir/Pages.antt =====
-- What one answer says about a directory.
use unfs3_raft.Base.{
  ℕ, suc, ◌+◌, ◌≤◌, ◌<◌, ◌≡◌, refl, ap, ap₂, Bool, true, false, not, ◌&&◌, ◌||◌, List, [], ◌∷◌,
  Option, none, some, ◌⊎◌, inl, inr, length, take, drop, ltb, arith, if◌then◌else◌, Bool-cases,
  lt→ltb,
}
use unfs3_raft.Fs.{FilePath, nfs_maxpathlen, Stat}
use unfs3_raft.Backend.{Backend}
use unfs3_raft.Error.{Errnos}
use unfs3_raft.Exports.{Item}
use unfs3_raft.Readdir.{
  max_entries, resok_size, entry_size, name_size, Entry3, Listing, listed, with_entry, skipped,
  scratch_path, entry_cookie, add_entry, stat_entry, fill, stream, read_dir,
}

unfoldable pub names_of : List Entry3 → List FilePath
names_of [] = []
names_of (entry ∷ entries) = entry.name ∷ names_of entries

-- What the entries add to the size of the answer.
unfoldable pub entries_size : List Entry3 → ℕ
entries_size [] = 0
entries_size (entry ∷ entries) = entry_size + name_size entry.name + entries_size entries

abbrev pub is_empty : List FilePath → Bool
is_empty [] = true
is_empty (name ∷ names) = false

abbrev pub at_most_4096 : ℕ → ℕ
at_most_4096 count = if ltb 4096 count then 4096 else count

-- The cookies are those of the positions from `position` on.
unfoldable pub HasCookies : ℕ → ℕ → List Entry3 → Type 0
HasCookies rcookie position [] = Unit {0}
HasCookies rcookie position (entry ∷ entries) =
    (entry.cookie ≡ entry_cookie rcookie position) × HasCookies rcookie (position + 1) entries

-- Entries for the first names of a directory from `skip + i` on, where `size` is the size of what
-- stands before them.
pub record IsPage (rcookie skip count i size : ℕ) (names : List FilePath) (entries : List Entry3)
    (eof : Bool) : Type 0 where
  pub taken : ℕ
  pub first_names : names_of entries ≡ take taken names
  pub at_end : eof ≡ is_empty (drop taken names)
  pub cookies : HasCookies rcookie (skip + i) entries
  pub few : (taken ≡ 0) ⊎ (i + taken ≤ max_entries)
  pub short :
      ((taken ≡ 0) × (entries ≡ [])) ⊎ (i + taken ≤ 1) ⊎ (size + entries_size entries ≤ count)
  pub progress : i ≡ 0 → size < count → taken ≡ 0 → names ≡ []

module _ (b : Backend) (e : Errnos) (o : Bool) (rcookie : ℕ) where
  open b use {Os, lstat, opendir}

  -- From a state on, as lstat is called for one name after the other, each of the names has a path
  -- that is short enough and an object at it.
  unfoldable pub IsReadable : FilePath → List FilePath → Os → Type 0
  IsReadable path [] os = Unit {0}
  IsReadable path (name ∷ names) os =
      let (os', found) = lstat (scratch_path path name) os in
      (length path + length name + 1 < nfs_maxpathlen)
      × ((buf : Stat) × (found ≡ some buf))
      × IsReadable path names os'

  abbrev pub Lists : FilePath → ℕ → ℕ → ℕ → ℕ → List FilePath → Os × Listing → Type 0
  Lists path skip count i size names result =
      (entries : List Entry3) × (eof : Bool) × (result.1 ≡ listed entries eof)
      × IsPage rcookie skip count i size names entries eof

  module _ (path : FilePath) (skip count : ℕ) where
    nothing :
        (i size : ℕ) (names : List FilePath)
        → (i ≡ 0 → size < count → names ≡ [])
        → IsPage rcookie skip count i size names [] (is_empty names)
    unfolding names_of HasCookies
    nothing i size names h = record {
      taken = 0;
      first_names = refl;
      at_end = refl;
      cookies = tt;
      few = inl refl;
      short = inl (refl, refl);
      progress = λ a b _. h a b;
    }

    -- An entry before a page that starts behind it.
    one_more :
        (i size : ℕ) (name : FilePath) (names : List FilePath) (entry : Entry3)
        (entries : List Entry3) (eof : Bool)
        → entry.name ≡ name
        → entry.cookie ≡ entry_cookie rcookie (skip + i)
        → i < max_entries
        → (ltb count (size + (entry_size + name_size name)) && ltb 0 i) ≡ false
        → IsPage rcookie skip count (i + 1) (size + (entry_size + name_size name)) names entries eof
        → IsPage rcookie skip count i size (name ∷ names) (entry ∷ entries) eof
    unfolding names_of HasCookies entries_size
    one_more i size name names entry entries eof n c small room page = record {
      taken = suc page.taken;
      first_names = ap₂ ◌∷◌ n page.first_names;
      at_end = page.at_end;
      cookies = (c, rw next page.cookies);
      few = inr (elim page.few [ inl t ↦ omega arith | inr k ↦ omega arith ]);
      short = inr (rw n (short_of page.short));
      progress = λ a b z. absurd (omega arith);
    }
      where
        next : skip + i + 1 ≡ skip + (i + 1)
        next = omega arith

        short_of :
            ((page.taken ≡ 0) × (entries ≡ []))
              ⊎ (i + 1 + page.taken ≤ 1)
              ⊎ (size + (entry_size + name_size name) + entries_size entries ≤ count)
            → (i + suc page.taken ≤ 1)
              ⊎ (size + (entry_size + name_size name + entries_size entries) ≤ count)
        short_of (inl (t, none_left)) = rw none_left (ground arith)
        short_of (inr (inl k)) = inl (omega arith)
        short_of (inr (inr k)) = inr (omega arith)

    stat_entry-Lists :
        (i size : ℕ) (name : FilePath) (names : List FilePath) (next : Os → Os × Listing) (os : Os)
        (found : Os × Option Stat) (buf : Stat)
        → found.1 ≡ some buf
        → i < max_entries
        → size < count
        → Lists path skip count (i + 1) (size + (entry_size + name_size name)) names (next found.0)
        → Lists path skip count i size (name ∷ names) (
            stat_entry b e o rcookie path skip count name i
              (size + (entry_size + name_size name))
              next
              found)
    unfolding stat_entry add_entry with_entry
    stat_entry-Lists i size name names next os (os', none) buf h small below rest = cc h
    stat_entry-Lists i size name names next os (os', some buf') buf h small below rest =
        elim (Bool-cases (ltb count (size + (entry_size + name_size name)) && ltb 0 i)) [
          | inl full ↦
              rw full ([], false, refl, nothing i size (name ∷ names) (λ z _. ground arith))
          | inr room ↦
              let (entries, eof, e1, page) = rest in
              rw room (
                _,
                eof,
                ap (with_entry _) e1,
                one_more i size name names _ entries eof refl refl small room page,
              )
        ]

    fill-Lists :
        (names : List FilePath) (i size : ℕ) (os : Os)
        → IsReadable path names os
        → Lists path skip count i size names (fill b e o rcookie path skip count names i size os)
    unfolding fill IsReadable
    fill-Lists [] i size os r = ([], true, refl, nothing i size [] (λ _ _. refl))
    fill-Lists (name ∷ names) i size os r =
        elim (Bool-cases (ltb size count && ltb i max_entries)) [
          | inl going ↦
              rw (going_on going, lt→ltb _ nfs_maxpathlen r.0)
                (stat_entry-Lists i size name names _ os _ r.1.0 r.1.1 (ground arith) (ground arith)
                  (fill-Lists names (i + 1) _ _ r.2))
          | inr full ↦
              rw (stopped full)
                ([], false, refl, nothing i size (name ∷ names) (λ z k. ground arith))
        ]
      where
        going_on :
            (ltb size count && ltb i max_entries) ≡ true
            → (not (ltb size count) || not (ltb i max_entries)) ≡ false
        going_on h = ground arith

        stopped :
            (ltb size count && ltb i max_entries) ≡ false
            → (not (ltb size count) || not (ltb i max_entries)) ≡ true
        stopped h = ground arith

  -- For a directory that opens, and whose names behind the skipped ones have paths that are short
  -- enough and objects that lstat finds, called for one name after the other from then on, `read_dir`
  -- answers with entries for the first of these names, in order, with the cookies of their places, and
  -- `eof` is set exactly if no name is left. There are at most MAX_ENTRIES, they stay below `count` and
  -- 4096 bytes or are a single one, and there is at least one if `count` is above RESOK_SIZE and a name
  -- is left.
  pub read_dir-IsPage :
      (list : List Item) (exports_opts : ℕ) (path : FilePath) (cookie count : ℕ) (os : Os)
      (names : List FilePath)
      → (opendir (some path) os).1 ≡ some names
      → IsReadable path (drop (skipped o rcookie cookie) names) (opendir (some path) os).0
      → (os' : Os) × (entries : List Entry3) × (eof : Bool) × (read_dir b e o rcookie list
            exports_opts
            (some path)
            cookie
            count
            os
          ≡ some (os', listed entries eof))
        × IsPage rcookie
            (skipped o rcookie cookie)
            (at_most_4096 count)
            0
            resok_size
            (drop (skipped o rcookie cookie) names)
            entries
            eof
  unfolding read_dir stream
  read_dir-IsPage list exports_opts path cookie count os names opened readable =
      stream_lem (opendir (some path) os).0 (opendir (some path) os).1 opened readable
    where
      skip : ℕ
      skip = skipped o rcookie cookie

      stream_lem :
          (os : Os) (found : Option (List FilePath))
          → found ≡ some names
          → IsReadable path (drop (skipped o rcookie cookie) names) os
          → (os' : Os) × (entries : List Entry3) × (eof : Bool) × (stream b e o rcookie list
                exports_opts
                (some path)
                cookie
                count
                (os, found)
              ≡ some (os', listed entries eof))
            × IsPage rcookie
                (skipped o rcookie cookie)
                (at_most_4096 count)
                0
                resok_size
                (drop (skipped o rcookie cookie) names)
                entries
                eof
      stream_lem os found h readable =
          let rest = drop (skipped o rcookie cookie) names in
          let result = fill b e o rcookie path skip (at_most_4096 count) rest 0 resok_size os in
          let (entries, eof, e1, page) =
            fill-Lists path skip (at_most_4096 count) rest 0 resok_size os readable in
          rw h (result.0, entries, eof, ap (λ l. some (result.0, l)) e1, page)
