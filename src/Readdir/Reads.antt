-- ===== src/Readdir/Reads.antt =====
-- Reading a directory leaves alone what stat and opendir leave alone.
use unfs3_raft.Base.{
  ℕ, ◌+◌, ◌≡◌, refl, ◌∙◌, Bool, List, [], ◌∷◌, Option, none, some, drop, ltb, ap, sym,
  if◌then◌else◌, arith,
}
use mathlib.Core.Option.{some-injective}
use unfs3_raft.Fs.{FilePath, Stat}
use unfs3_raft.Backend.{Backend}
use unfs3_raft.Error.{Errnos}
use unfs3_raft.Exports.{Item}
use unfs3_raft.Readdir.{
  Listing, entry_size, name_size, scratch_path, skipped, resok_size, add_entry, stat_entry, fill,
  no_stream, stream, read_dir,
}

module _ (b : Backend) (e : Errnos) (opt_32_bit_truncate : Bool) (rcookie : ℕ) {V : Type 0}
    (view : b.Os → V)
    (by_lstat : (path : FilePath) (os : b.Os) → view (b.lstat path os).0 ≡ view os) where
  view-add_entry :
      (path : FilePath) (cookie count : ℕ) (name : FilePath) (i size : ℕ) (buf : Stat) (os : b.Os)
      (rest : b.Os × Listing)
      → view rest.0 ≡ view os
      → view (add_entry b e opt_32_bit_truncate rcookie path cookie count name i size buf os rest).0
        ≡ view os
  unfolding add_entry
  view-add_entry path cookie count name i size buf os rest h = ground (arith, h)

  view-stat_entry :
      (path : FilePath) (cookie count : ℕ) (name : FilePath) (i size : ℕ)
      (next : b.Os → b.Os × Listing) (r : b.Os × Option Stat)
      → ((os : b.Os) → view (next os).0 ≡ view os)
      → view (stat_entry b e opt_32_bit_truncate rcookie path cookie count name i size next r).0
        ≡ view r.0
  unfolding stat_entry
  view-stat_entry path cookie count name i size next (os, none) h = refl
  view-stat_entry path cookie count name i size next (os, some buf) h =
      view-add_entry path cookie count name i size buf os (next os) (h os)

  view-fill :
      (path : FilePath) (cookie count : ℕ) (names : List FilePath) (i real_count : ℕ) (os : b.Os)
      → view (fill b e opt_32_bit_truncate rcookie path cookie count names i real_count os).0
        ≡ view os
  unfolding fill
  view-fill path cookie count [] i real_count os = refl
  view-fill path cookie count (name ∷ names) i real_count os =
      let size = real_count + (entry_size + name_size name) in
      let next = fill b e opt_32_bit_truncate rcookie path cookie count names (i + 1) size in
      let entry =
        view-stat_entry path cookie count name i size next (b.lstat (scratch_path path name) os)
          (view-fill path cookie count names (i + 1) size)
        ∙ by_lstat (scratch_path path name) os in
      ground (arith, entry)

  view-no_stream :
      (list : List Item) (exports_opts : ℕ) (path : Option FilePath) (os os' : b.Os)
      (listing : Listing)
      → no_stream b e opt_32_bit_truncate rcookie list exports_opts path os ≡ some (os', listing)
      → view os' ≡ view os
  unfolding no_stream
  view-no_stream list exports_opts none os os' listing h = ground (arith, h)
  view-no_stream list exports_opts (some path) os os' listing h = ground (arith, h)

  view-stream :
      (list : List Item) (exports_opts : ℕ) (path : Option FilePath) (cookie count : ℕ)
      (r : b.Os × Option (List FilePath)) (os' : b.Os) (listing : Listing)
      → stream b e opt_32_bit_truncate rcookie list exports_opts path cookie count r
        ≡ some (os', listing)
      → view os' ≡ view r.0
  unfolding stream
  view-stream list exports_opts path cookie count (os, none) os' listing h =
      view-no_stream list exports_opts path os os' listing h
  view-stream list exports_opts none cookie count (os, some names) os' listing h = absurd (cc h)
  view-stream list exports_opts (some path) cookie count (os, some names) os' listing h =
      let skip = skipped opt_32_bit_truncate rcookie cookie in
      ap (λ (r : b.Os × Listing). view r.0) (sym (some-injective _ _ h))
      ∙ view-fill path skip (if ltb 4096 count then 4096 else count) (drop skip names) 0 resok_size
          os

  pub view-read_dir :
      (by_opendir : (path : Option FilePath) (os : b.Os) → view (b.opendir path os).0 ≡ view os)
      (list : List Item) (exports_opts : ℕ) (path : Option FilePath) (cookie count : ℕ)
      (os os' : b.Os) (listing : Listing)
      → read_dir b e opt_32_bit_truncate rcookie list exports_opts path cookie count os
        ≡ some (os', listing)
      → view os' ≡ view os
  unfolding read_dir
  view-read_dir by_opendir list exports_opts path cookie count os os' listing h =
      view-stream list exports_opts path cookie count (b.opendir path os) os' listing h
      ∙ by_opendir path os
