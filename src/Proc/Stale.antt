-- ===== src/Proc/Stale.antt =====
-- Handles that lead to no object.
use unfs3_raft.Base.{
  ℕ, List, ◌≡◌, refl, subst, Bool, true, false, not, Option, none, some, ◌==◌, Option-cases, inl,
  inr,
}
use unfs3_raft.Fs.{FilePath, Stat}
use unfs3_raft.Fh.{Fh, NfsFh, nfh_valid}
use unfs3_raft.Fh.Search.{Found}
use unfs3_raft.Exports.{export_point_from_fsid}
use unfs3_raft.Error.{join}
use unfs3_raft.Proc.Io.{StableHow, switch_for_read, switch_for_write, read, write, commit, wcc_data}
use unfs3_raft.Proc.Change.{Guard, in_sync, setattr}
use unfs3_raft.Nfs.{WccData, Sattr3, nfs3_ok, nfs3err_stale}
use unfs3_raft.Attr.{is_reg, get_pre_cached, get_post_cached}
use unfs3_raft.User.{Ids, Request}
use unfs3_raft.Server.{
  Server, Config, Run, ◌>>=◌, ◌>>◌, pure, when, State, fixed_times, decode, lift, run_fh_cache_add,
  switched, run_switch_to_root, run_switch_user,
}
use unfs3_raft.Server.Handles.{
  sane_stat, run_fh_cache_lookup, decomp_export, store_found, store_located, decomp_located,
  store_raw, decomp_uncached, cached_path, decomp_object, decomp_valid, fh_decomp,
  run_get_post_cached, run_get_pre_cached, get_post_stat, get_post_ll,
}
use unfs3_raft.Proc.{prep}
use unfs3_raft.Proc.Info.{zero_attributes, attributes_of, getattr}

-- A result NULL comes with a stat cache that is not valid.
IsMarked : {Os : Type 0} → Option (Option FilePath × Server Os) → Type 0
IsMarked none = Unit {0}
IsMarked (some (none, s)) = s.st.st_cache_valid ≡ false
IsMarked (some (some path, s)) = Unit {0}

after-IsMarked :
    {Os A : Type 0} (r : Option (A × Server Os)) (f : A → Run Os (Option FilePath))
    → ((a : A) (s : Server Os) → IsMarked (f a s))
    → IsMarked (elim r [ none ↦ none | some (a, s') ↦ f a s' ])
unfolding IsMarked
after-IsMarked none f h = tt
after-IsMarked (some (a, s)) f h = h a s

abbrev pub no_wcc : WccData
no_wcc = record { before = none; after = none }

module _ (c : Config) where
  store_found-IsMarked :
      (obj : Fh) (path : FilePath) (buf : Option Stat) (s : State c)
      → IsMarked (store_found c obj path buf s)
  unfolding store_found IsMarked
  store_found-IsMarked obj path none s =
      after-IsMarked (run_fh_cache_add c obj.dev obj.ino path s) _ (λ stored s'. tt {0})
  store_found-IsMarked obj path (some buf) s =
      after-IsMarked (fixed_times c path buf s) _ (λ buf' s'.
        after-IsMarked
          (run_fh_cache_add c obj.dev obj.ino path
            (record s' { st = record { st_cache_valid = true; st_cache = buf' } }))
          _ (λ stored s2. tt {0}))

  store_located-IsMarked : (obj : Fh) (o : Found) (s : State c) → IsMarked (store_located c obj o s)
  unfolding store_located IsMarked
  store_located-IsMarked obj none s = refl
  store_located-IsMarked obj (some (path, buf)) s = store_found-IsMarked obj path (some buf) s

  store_raw-IsMarked :
      (obj : Fh) (o : Option (FilePath × Option Stat)) (s : State c)
      → IsMarked (store_raw c obj o s)
  unfolding store_raw decomp_located
  store_raw-IsMarked obj none s = store_located-IsMarked obj _ s
  store_raw-IsMarked obj (some (path, buf)) s = store_found-IsMarked obj path buf s

  cached_path-IsMarked :
      (obj : Fh) (o : Option FilePath) (s : State c) → IsMarked (cached_path c obj o s)
  unfolding cached_path decomp_uncached IsMarked
  cached_path-IsMarked obj none s = store_raw-IsMarked obj _ s
  cached_path-IsMarked obj (some path) s = tt {0}

  decomp_object-IsMarked : (obj : Fh) (s : State c) → IsMarked (decomp_object c obj s)
  unfolding decomp_object
  decomp_object-IsMarked obj s =
      after-IsMarked (run_fh_cache_lookup c obj.dev obj.ino s) _ (cached_path-IsMarked obj)

  decomp_export-IsMarked :
      (obj : Fh) (path : FilePath) (s : State c) → IsMarked (decomp_export c obj path s)
  unfolding decomp_export IsMarked
  decomp_export-IsMarked obj path s = elim (Option-cases (c.backend.lstat path s.os).1) [
    | inl e ↦ rw e (tt {0})
    | inr (buf, e) ↦ rw e (
        after-IsMarked
          (fixed_times c path (sane_stat buf) (record s { os = (c.backend.lstat path s.os).0 })) _
          (λ buf' s'. tt {0}))
  ]

  when-IsMarked :
      (b : Bool) (m n : Run c.backend.Os (Option FilePath)) (s : State c)
      → IsMarked (m s)
      → IsMarked (n s)
      → IsMarked (when b m n s)
  when-IsMarked true m n s h k = h
  when-IsMarked false m n s h k = k

  decomp_valid-IsMarked :
      (obj : Fh) (path : Option FilePath) (s : State c) → IsMarked (decomp_valid c obj path s)
  unfolding decomp_valid
  decomp_valid-IsMarked obj none s = decomp_object-IsMarked obj s
  decomp_valid-IsMarked obj (some path) s =
      when-IsMarked (obj.ino == 1) _ _ s (decomp_export-IsMarked obj path s)
        (decomp_object-IsMarked obj s)

  fh_decomp-IsMarked : (nfh : NfsFh) (s : State c) → IsMarked (fh_decomp c nfh s)
  unfolding fh_decomp IsMarked
  fh_decomp-IsMarked nfh s = after-IsMarked (decode c nfh s) _ (λ obj s1.
      after-IsMarked (lift (nfh_valid c.host c.junk nfh) s1) _ (λ valid s2.
        when-IsMarked (not valid) _ _ s2 refl
          (decomp_valid-IsMarked obj (export_point_from_fsid c.export_list obj.dev) s2)))

  switched-IsMarked :
      (p : Option FilePath) (s : State c) (o : Option (Ids × Request × c.backend.Os))
      → IsMarked (some (p, s))
      → IsMarked (elim (switched c s o) [ none ↦ none | some (_, s') ↦ some (p, s') ])
  unfolding switched IsMarked
  switched-IsMarked p s none h = tt {0}
  switched-IsMarked none s (some (ids', req', os')) h = h
  switched-IsMarked (some path) s (some (ids', req', os')) h = tt {0}

  with_user-IsMarked :
      (r : Option (Option FilePath × State c))
      → IsMarked r
      → IsMarked (elim r [ none ↦ none | some (p, s) ↦ (run_switch_user c >> pure p) s ])
  unfolding run_switch_user IsMarked
  with_user-IsMarked none h = tt {0}
  with_user-IsMarked (some (p, s)) h = switched-IsMarked p s _ h

  prep-IsMarked : (nfh : NfsFh) (s : State c) → IsMarked (prep c nfh s)
  unfolding prep run_switch_to_root
  prep-IsMarked nfh s =
      after-IsMarked (decode c nfh s) _ (λ obj s1. with_user-IsMarked _ (fh_decomp-IsMarked nfh _))

  -- For a handle that leads to no object, READ, WRITE, COMMIT and SETATTR answer NFS3ERR_STALE without
  -- attributes, and behind the look at the handle they do no more than READ and WRITE do to choose the
  -- user; but GETATTR answers NFS3_OK, with attributes that are zero.
  pub prep_stale :
      (nfh : NfsFh) (offset count : ℕ) (contents : List ℕ) (how : StableHow) (new : Sattr3)
      (guard : Guard) (s s' : State c)
      → prep c nfh s ≡ some (none, s')
      → ((s2 : State c) × (switch_for_read c s' ≡ some (true, s2))
          × (read c nfh offset count s ≡ some (((nfs3err_stale, none), none), s2)))
        × ((s2 : State c) × (switch_for_write c s' ≡ some (true, s2))
            × (write c nfh contents offset how s ≡ some (((nfs3err_stale, none), no_wcc), s2)))
        × (commit c nfh s ≡ some (((nfs3err_stale, none), no_wcc), s'))
        × (setattr c nfh new guard s ≡ some ((nfs3err_stale, no_wcc), s'))
        × (getattr c nfh s ≡ some ((nfs3_ok, zero_attributes), s'))
  unfolding is_reg get_pre_cached getattr run_get_post_cached get_post_cached attributes_of IsMarked
      read write commit setattr switch_for_read switch_for_write wcc_data run_get_pre_cached
      get_post_stat get_post_ll in_sync join
  prep_stale nfh offset count contents how new guard s s' e =
      let invalid : s'.st.st_cache_valid ≡ false = marked (prep-IsMarked nfh s) in
      (
        (_, refl, rw (◌>>◌, ◌>>=◌, e) (rw invalid refl)),
        (_, refl, rw (◌>>◌, ◌>>=◌, e) (rw invalid refl)),
        rw (◌>>◌, ◌>>=◌, e) (rw invalid refl),
        rw (◌>>◌, ◌>>=◌, e) (rw invalid refl),
        rw (◌>>◌, ◌>>=◌, e) (rw invalid refl),
      )
    where
      marked : IsMarked (prep c nfh s) → s'.st.st_cache_valid ≡ false
      marked h = subst IsMarked e h
