-- ===== src/Server/Quiet/Handles.antt =====
-- Resolving handles, and the attributes of answers, leave alone what `view` sees.
use unfs3_raft.Base.{ℕ, refl, Option, none, some}
use unfs3_raft.Fs.{FilePath, Stat}
use unfs3_raft.Fh.{Fh, NfsFh}
use unfs3_raft.Fh.Search.{Found}
use unfs3_raft.Server.{Config, ◌>>=◌, ◌>>◌, pure, call, fixed_times, run_fh_cache_add}
use unfs3_raft.Server.Reads.{
  Reads, Reads-state, Reads-pure, Reads-call, Reads-modify, Reads-bind, Reads-look, reads_rules,
}
use unfs3_raft.Server.Handles.{
  set_st_cache, invalidate, decomp_export, run_fh_cache_lookup, store_found, store_located,
  decomp_located, store_raw, decomp_uncached, cached_path, decomp_object, decomp_valid, fh_decomp,
  post_found, get_post_ll, get_post_stat, run_get_post_buf, run_get_post_cached, sane_stat,
  dummy_stat,
}
use unfs3_raft.Server.Quiet.{IsViewed, decode-Reads}

module _ (c : Config) {V : Type 0} (view : c.backend.Os → V) (v : IsViewed c.backend view) where
  set_st_cache-Reads : (buf : Stat) → Reads view (set_st_cache c buf)
  set_st_cache-Reads buf = Reads-modify view _ (λ s. refl)

  invalidate-Reads : Reads view (invalidate c)
  invalidate-Reads = Reads-modify view _ (λ s. refl)

  pub fixed_times-Reads : (path : FilePath) (buf : Stat) → Reads view (fixed_times c path buf)
  unfolding fixed_times
  fixed_times-Reads path buf = Reads-state view _ _ _ (λ s. refl) (λ s. refl)

  pub run_fh_cache_add-Reads :
      (dev ino : ℕ) (path : FilePath) → Reads view (run_fh_cache_add c dev ino path)
  unfolding run_fh_cache_add
  run_fh_cache_add-Reads dev ino path =
      Reads-bind view _ _ (Reads-modify view _ (λ s. refl)) λ a. Reads-pure view path

  lstat-Reads : (path : FilePath) → Reads view (call (c.backend.lstat path))
  lstat-Reads path = Reads-call view (c.backend.lstat path) (v.by_lstat path)

  ruleset cache_rules = (
    reads_rules, set_st_cache-Reads, invalidate-Reads, fixed_times-Reads, run_fh_cache_add-Reads,
    lstat-Reads,
  )

  run_fh_cache_lookup-Reads : (dev ino : ℕ) → Reads view (run_fh_cache_lookup c dev ino)
  unfolding run_fh_cache_lookup
  run_fh_cache_lookup-Reads dev ino = Reads-state view _ _ _ (λ s. refl) (λ s. refl)

  store_found-Reads :
      (obj : Fh) (path : FilePath) (buf : Option Stat) → Reads view (store_found c obj path buf)
  unfolding store_found
  store_found-Reads obj path none = search cache_rules
  store_found-Reads obj path (some buf) = search cache_rules

  store_located-Reads : (obj : Fh) (o : Found) → Reads view (store_located c obj o)
  unfolding store_located
  store_located-Reads obj none = search cache_rules
  store_located-Reads obj (some (path, buf)) = store_found-Reads obj path (some buf)

  store_raw-Reads :
      (obj : Fh) (o : Option (FilePath × Option Stat)) → Reads view (store_raw c obj o)
  unfolding store_raw decomp_located
  store_raw-Reads obj none = Reads-look view _ (store_located c obj) (store_located-Reads obj)
  store_raw-Reads obj (some (path, buf)) = store_found-Reads obj path buf

  cached_path-Reads : (obj : Fh) (o : Option FilePath) → Reads view (cached_path c obj o)
  unfolding cached_path decomp_uncached
  cached_path-Reads obj none = Reads-look view _ (store_raw c obj) (store_raw-Reads obj)
  cached_path-Reads obj (some path) = Reads-pure view (some path)

  decomp_object-Reads : (obj : Fh) → Reads view (decomp_object c obj)
  unfolding decomp_object
  decomp_object-Reads obj = search (cache_rules, run_fh_cache_lookup-Reads, cached_path-Reads)

  decomp_export-Reads : (obj : Fh) (path : FilePath) → Reads view (decomp_export c obj path)
  unfolding decomp_export
  decomp_export-Reads obj path = Reads-bind view _ _ (lstat-Reads path) found
    where
      found :
          (o : Option Stat)
          → Reads view (elim o [
            | none ↦ set_st_cache c (dummy_stat obj.dev) >> pure (some path)
            | some buf ↦ fixed_times c path (sane_stat buf) >>= λ buf'.
                set_st_cache c (record buf' { st_dev = obj.dev; st_ino = 1 }) >> pure (some path)
          ])
      found none = search cache_rules
      found (some buf) = search cache_rules

  decomp_valid-Reads : (obj : Fh) (o : Option FilePath) → Reads view (decomp_valid c obj o)
  unfolding decomp_valid
  decomp_valid-Reads obj none = decomp_object-Reads obj
  decomp_valid-Reads obj (some path) =
      search (cache_rules, decomp_export-Reads, decomp_object-Reads)

  pub fh_decomp-Reads : (nfh : NfsFh) → Reads view (fh_decomp c nfh)
  unfolding fh_decomp
  fh_decomp-Reads nfh = search (cache_rules, decode-Reads c view v, decomp_valid-Reads)

  pub run_get_post_cached-Reads : Reads view (run_get_post_cached c)
  unfolding run_get_post_cached
  run_get_post_cached-Reads = search cache_rules

  post_found-Reads :
      (path : FilePath) (dev ino : ℕ) (o : Option Stat) → Reads view (post_found c path dev ino o)
  unfolding post_found run_get_post_buf
  post_found-Reads path dev ino none = search cache_rules
  post_found-Reads path dev ino (some buf) = search cache_rules

  get_post_ll-Reads :
      (path : Option FilePath) (dev ino : ℕ) → Reads view (get_post_ll c path dev ino)
  unfolding get_post_ll
  get_post_ll-Reads none dev ino = search cache_rules
  get_post_ll-Reads (some path) dev ino = search (cache_rules, post_found-Reads)

  pub get_post_stat-Reads : (path : Option FilePath) → Reads view (get_post_stat c path)
  unfolding get_post_stat
  get_post_stat-Reads path = record {
    same = λ s s' a h.
        (get_post_ll-Reads path s.st.st_cache.st_dev s.st.st_cache.st_ino).same s s' a h;
  }
