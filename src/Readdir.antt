-- ===== src/Readdir.antt =====
-- readdir.c: the entries of a directory, one answer of limited size after the other, and
-- `change_readdir_cookie` of daemon.c. The cookie verifier is always zero and left out.
pub mod Cookie
pub mod Pages
pub mod Reads
use Prim.Native.Nat.{bit_or}
use unfs3_raft.Base.{
  ℕ, zero, suc, ◌+◌, ◌*◌, ◌/◌, ◌%◌, ◌^◌, Bool, true, false, not, ◌&&◌, ◌||◌, List, [], ◌∷◌, ◌++◌,
  Option, none, some, length, drop, ltb, ◌==◌, if◌then◌else◌,
}
use unfs3_raft.Fs.{FilePath, slash, root_path, nfs_maxpathlen, str_eq, Stat}
use unfs3_raft.Nfs.{Nfsstat3, nfs3err_io}
use unfs3_raft.Backend.{Backend}
use unfs3_raft.Attr.{fileid}
use unfs3_raft.Error.{Errnos, readdir_err}
use unfs3_raft.Exports.{Item, export_point}
use unfs3_raft.User.{has_bit}

-- MAX_ENTRIES
abbrev pub max_entries : ℕ
max_entries = 143

-- RESOK_SIZE
abbrev pub resok_size : ℕ
resok_size = 104

-- ENTRY_SIZE
abbrev pub entry_size : ℕ
entry_size = 24

-- NAME_SIZE
unfoldable pub name_size : List ℕ → ℕ
name_size name = (length name + 3) / 4 * 4

-- entry3; the list stands for `nextentry`.
pub record Entry3 : Type 0 where
  pub fileid : ℕ
  pub name : FilePath
  pub cookie : ℕ

-- READDIR3res without the attributes: entries and `eof`, or a status.
pub data Listing : Type 0 where
  listed : List Entry3 → Bool → Listing
  refused : Nfsstat3 → Listing

unfoldable pub with_entry : Entry3 → Listing → Listing
with_entry entry (listed entries eof) = listed (entry ∷ entries) eof
with_entry entry (refused status) = refused status

-- On an `unsigned long long`.
unfoldable pub change_readdir_cookie : Bool → ℕ → ℕ
change_readdir_cookie opt_32_bit_truncate rcookie =
    if opt_32_bit_truncate
    then (rcookie / 2 ^ 20 + 1) % 2 ^ 12 * 2 ^ 20
    else (rcookie / 2 ^ 32 + 1) * 2 ^ 32 % 2 ^ 64

unfoldable pub upper_part : Bool → ℕ → ℕ
upper_part opt_32_bit_truncate cookie =
    if opt_32_bit_truncate
    then cookie / 2 ^ 20 % 2 ^ 12 * 2 ^ 20
    else cookie / 2 ^ 32 % 2 ^ 32 * 2 ^ 32

unfoldable pub lower_part : Bool → ℕ → ℕ
lower_part opt_32_bit_truncate cookie =
    if opt_32_bit_truncate then cookie % 2 ^ 20 else cookie % 2 ^ 32

-- The number of entries to skip: from the beginning if the cookie is not a current one.
unfoldable pub skipped : Bool → ℕ → ℕ → ℕ
skipped opt_32_bit_truncate rcookie cookie =
    if not (cookie == 0) && not (upper_part opt_32_bit_truncate cookie == rcookie)
    then lower_part opt_32_bit_truncate 0
    else lower_part opt_32_bit_truncate cookie

unfoldable pub scratch_path : FilePath → FilePath → FilePath
scratch_path path name = if str_eq path root_path then slash ∷ name else path ++ (slash ∷ name)

unfoldable pub entry_cookie : ℕ → ℕ → ℕ
entry_cookie rcookie position = bit_or (position + 1) rcookie

module _ (b : Backend) (e : Errnos) (opt_32_bit_truncate : Bool) (rcookie : ℕ) where
  open b use {Os, errno, lstat, opendir}

  module _ (path : FilePath) (cookie count : ℕ) where
    -- One round with a `stat` buffer: `size` is `real_count` with this entry, and `rest` what the
    -- rounds after it give. An entry that does not fit is left out unless it is the first one, and the
    -- loop ends.
    unfoldable pub add_entry : FilePath → ℕ → ℕ → Stat → Os → Os × Listing → Os × Listing
    add_entry name i size buf os rest =
        let entry : Entry3 = record {
          fileid = fileid opt_32_bit_truncate buf.st_ino;
          name = name;
          cookie = entry_cookie rcookie (cookie + i);
        } in
        if ltb count size && ltb 0 i
        then (os, listed [] false)
        else (rest.0, with_entry entry rest.1)

    unfoldable pub stat_entry :
        FilePath → ℕ → ℕ → (Os → Os × Listing) → Os × Option Stat → Os × Listing
    stat_entry name i size next (os, none) = (os, refused (readdir_err e (errno os)))
    stat_entry name i size next (os, some buf) = add_entry name i size buf os (next os)

    -- The second loop, over the names that are left; `backend_closedir` is left out.
    unfoldable pub fill : List FilePath → ℕ → ℕ → Os → Os × Listing
    fill [] i real_count os = (os, listed [] true)
    fill (name ∷ names) i real_count os =
        let size = real_count + (entry_size + name_size name) in
        let next : Os → Os × Listing = fill names (i + 1) size in
        if not (ltb real_count count) || not (ltb i max_entries)
        then (os, listed [] false)
        else if ltb (length path + length name + 1) nfs_maxpathlen
        then stat_entry name i size next (lstat (scratch_path path name) os)
        else (os, refused nfs3err_io)

  -- A directory that does not open is empty if it is a removable export point. `none` is the crash
  -- of `export_point(NULL)`.
  unfoldable pub no_stream : List Item → ℕ → Option FilePath → Os → Option (Os × Listing)
  no_stream list exports_opts none os =
      if has_bit exports_opts 3 then none else some (os, refused (readdir_err e (errno os)))
  no_stream list exports_opts (some path) os =
      if has_bit exports_opts 3 && export_point list path
      then some (os, listed [] true)
      else some (os, refused (readdir_err e (errno os)))

  -- `strlen(NULL)` would crash as well.
  unfoldable pub stream :
      List Item → ℕ → Option FilePath → ℕ → ℕ → Os × Option (List FilePath) → Option (Os × Listing)
  stream list exports_opts path cookie count (os, none) = no_stream list exports_opts path os
  stream list exports_opts none cookie count (os, some names) = none
  stream list exports_opts (some path) cookie count (os, some names) =
      let skip = skipped opt_32_bit_truncate rcookie cookie in
      some
        (fill path skip (if ltb 4096 count then 4096 else count) (drop skip names) 0 resok_size os)

  -- `exports_opts` and the list of exports are those of Config/exports.y.
  unfoldable pub read_dir : List Item → ℕ → Option FilePath → ℕ → ℕ → Os → Option (Os × Listing)
  read_dir list exports_opts path cookie count os =
      stream list exports_opts path cookie count (opendir path os)
