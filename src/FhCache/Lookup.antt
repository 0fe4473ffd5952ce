-- ===== src/FhCache/Lookup.antt =====
-- What fh_cache_lookup returns: never a path that has come to lead to another object.
use unfs3_raft.Base.{
  ℕ, ◌≡◌, refl, sym, ◌∙◌, inl, inr, true, ◌&&◌, Option, none, some, ◌==◌, arith, if_intro,
  Option-cases, ==_iff,
}
use mathlib.Core.Option.{some-injective}
use unfs3_raft.Fs.{FilePath, Stat, FileSystem}
use unfs3_raft.FhCache.{
  DirTimes, World, empty_entry, fh_cache_index, fh_cache_next, use_entry, check_entry, lookup_at,
  fh_cache_lookup, fh_cache_inval,
}

module _ (fs : FileSystem) (times : DirTimes) where
  -- The path leads to the object now, and it is the one that the table has for it.
  pub record Hit (dev ino : ℕ) (w : World fs times) (path : FilePath) (w' : World fs times)
      : Type 0 where
    pub slot : ℕ
    pub indexed : fh_cache_index dev ino w.0 ≡ some slot
    pub path_of : path ≡ (w.0.fh_cache slot).path
    pub buf : Stat
    pub exists : fs.lstat path ≡ some buf
    pub dev_of : buf.st_dev ≡ dev
    pub ino_of : buf.st_ino ≡ ino
    pub cached :
        w'.1 ≡ record { st_cache_valid = true; st_cache = (times.fix_dir_times path buf w.2).1 }
    pub protected : w'.0.fh_last_entry ≡ some slot

  -- A miss leaves the stat cache as it is; the slot that was found stale, if any, is empty.
  pub record Miss (dev ino : ℕ) (w : World fs times) (w' : World fs times) : Type 0 where
    pub same_st : w'.1 ≡ w.1
    pub same_last : w'.0.fh_last_entry ≡ w.0.fh_last_entry
    pub cleared :
        (slot : ℕ) → fh_cache_index dev ino w.0 ≡ some slot → w'.0.fh_cache slot ≡ empty_entry

  abbrev pub Outcome : ℕ → ℕ → World fs times → World fs times × Option FilePath → Type 0
  Outcome dev ino w (w', none) = Miss dev ino w w'
  Outcome dev ino w (w', some path) = Hit dev ino w path w'

  use_entry-Hit :
      (dev ino slot : ℕ) (buf : Stat) (w : World fs times)
      → fh_cache_index dev ino w.0 ≡ some slot
      → fs.lstat (w.0.fh_cache slot).path ≡ some buf
      → buf.st_dev ≡ dev
      → buf.st_ino ≡ ino
      → Outcome dev ino w (use_entry fs times slot buf w)
  unfolding use_entry fh_cache_next
  use_entry-Hit dev ino slot buf (c, st, m) at exists d i = record {
    slot = slot;
    indexed = at;
    path_of = refl;
    buf = buf;
    exists = exists;
    dev_of = d;
    ino_of = i;
    cached = refl;
    protected = refl;
  }

  inval-Miss :
      (dev ino slot : ℕ) (w : World fs times)
      → fh_cache_index dev ino w.0 ≡ some slot
      → Miss dev ino w (fh_cache_inval slot w.0, w.1, w.2)
  unfolding fh_cache_inval
  inval-Miss dev ino slot (c, st, m) at = record {
    same_st = refl;
    same_last = refl;
    cleared = λ k e. rw ((==_iff slot k).1 (some-injective _ _ (sym at ∙ e))) refl;
  }

  check_entry_lem :
      (dev ino slot : ℕ) (o : Option Stat) (w : World fs times)
      → fh_cache_index dev ino w.0 ≡ some slot
      → fs.lstat (w.0.fh_cache slot).path ≡ o
      → Outcome dev ino w (check_entry fs times dev ino slot o w)
  unfolding check_entry
  check_entry_lem dev ino slot none (c, st, m) at e = inval-Miss dev ino slot (c, st, m) at
  check_entry_lem dev ino slot (some buf) (c, st, m) at e =
      if_intro (Outcome dev ino (c, st, m)) ((buf.st_dev == dev) && (buf.st_ino == ino)) _ _
        (λ same. use_entry-Hit dev ino slot buf (c, st, m) at e (ground arith) (ground arith))
        (λ other. inval-Miss dev ino slot (c, st, m) at)

  -- A path that `fh_cache_lookup` returns is that of the table's entry for the device and inode, it
  -- leads to a file of that device and inode at the time of the call, whose attributes are now in
  -- the stat cache, and its slot is protected from the next `fh_cache_add`. When nothing is
  -- returned the stat cache and the protected slot are the same as before, and the entry that was
  -- found, if any, is empty.
  pub fh_cache_lookup_lem :
      (dev ino : ℕ) (w : World fs times) → Outcome dev ino w (fh_cache_lookup fs times dev ino w)
  unfolding fh_cache_lookup lookup_at
  fh_cache_lookup_lem dev ino (c, st, m) = elim (Option-cases (fh_cache_index dev ino c)) [
    | inl missing ↦
        rw missing
          (record { same_st = refl; same_last = refl; cleared = λ k e. absurd (cc (missing, e)) })
    | inr (slot, found) ↦
        rw found
          (check_entry_lem dev ino slot (fs.lstat (c.fh_cache slot).path) (c, st, m) found refl)
  ]
