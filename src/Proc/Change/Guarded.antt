-- ===== src/Proc/Change/Guarded.antt =====
-- nfs.c: a SETATTR whose guard does not hold.
use unfs3_raft.Base.{
  ℕ, ◌≢◌, none, ne→==, ◌≡◌, refl, ap, sym, ◌∙◌, Bool, true, false, Option, some, ◌==◌,
}
use mathlib.Core.Option.{some-injective}
use unfs3_raft.Error.{join}
use unfs3_raft.Exports.{exports_rw}
use unfs3_raft.Fs.{FilePath}
use unfs3_raft.Fh.{NfsFh}
use unfs3_raft.Nfs.{Nfsstat3, nfs3_ok, nfs3err_stale, nfs3err_not_sync, Sattr3, WccAttr, WccData}
use unfs3_raft.Server.{Config, Run, ◌>>=◌, pure, when, State}
use unfs3_raft.Server.Inversion.{>>=-eq-some}
use unfs3_raft.Server.Handles.{run_get_pre_cached, get_post_stat}
use unfs3_raft.Server.Quiet.{IsViewed}
use unfs3_raft.Server.Quiet.Handles.{get_post_stat-Reads}
use unfs3_raft.Proc.{prep}
use unfs3_raft.Proc.Reading.{prep-Reads}
use unfs3_raft.Proc.Change.{Guard, in_sync, run_set_attr, setattr}

-- When a SETATTR is refused, and the answer: no attributes of the object are known, or its time of
-- change is not the one of the guard.
pub data IsRefused : Guard → Option WccAttr → Nfsstat3 → Type 0 where
  gone : (guard : Guard) → IsRefused guard none nfs3err_stale
  changed :
      (ctime : ℕ) (pre : WccAttr)
      → ctime ≢ pre.ctime
      → IsRefused (some ctime) (some pre) nfs3err_not_sync

in_sync-IsRefused :
    {guard : Guard} {before : Option WccAttr} {answer : Nfsstat3}
    → IsRefused guard before answer
    → (in_sync guard before ≡ answer) × ((in_sync guard before == nfs3_ok) ≡ false)
unfolding in_sync
in_sync-IsRefused (gone none) = (refl, refl)
in_sync-IsRefused (gone (some ctime)) = (refl, refl)
in_sync-IsRefused (changed ctime pre other) =
    let differs : (ctime == pre.ctime) ≡ false = ne→== ctime pre.ctime other in
    (rw differs refl, rw differs refl)

module _ (c : Config) {V : Type 0} (view : c.backend.Os → V) (v : IsViewed c.backend view) where
  join-refused :
      (x y : Nfsstat3) → (x == nfs3_ok) ≡ false → (join x y ≡ x) × ((join x y == nfs3_ok) ≡ false)
  unfolding join
  join-refused x y refused = (rw refused refl, rw (refused, refused) refl)

  when-false :
      {A : Type 0} (b : Bool) (m : Run c.backend.Os A) (a a' : A) (s s' : State c)
      → b ≡ false
      → when b m (pure a) s ≡ some (a', s')
      → (a ≡ a') × (s ≡ s')
  when-false {A} true m a a' s s' off h = absurd (cc off)
  when-false {A} false m a a' s s' off h =
      let e : (a, s) ≡ (a', s') = some-injective _ _ h in
      (ap (λ (r : A × State c). r.0) e, ap (λ (r : A × State c). r.1) e)

  abbrev answered :
      Option FilePath → Option WccAttr → Nfsstat3 → Run c.backend.Os (Nfsstat3 × WccData)
  answered path pre status =
      get_post_stat c path >>= λ after. pure (status, record { before = pre; after = after })

  refused-pre :
      (object : NfsFh) (new : Sattr3) (guard : Guard) (path : Option FilePath)
      (pre : Option WccAttr) (s s' : State c) (status : Nfsstat3) (wcc : WccData)
      → (when
              (join (in_sync guard pre) exports_rw == nfs3_ok)
              (run_set_attr c path object new)
              (pure (join (in_sync guard pre) exports_rw))
            >>= answered path pre)
          s
        ≡ some ((status, wcc), s')
      → (in_sync guard wcc.before == nfs3_ok) ≡ false
      → (status ≡ in_sync guard wcc.before) × (view s'.os ≡ view s.os)
  refused-pre object new guard path pre s s' status wcc h refused =
      let checked = join (in_sync guard pre) exports_rw in
      let (st, s1, e1, h1) =
        >>=-eq-some (when (checked == nfs3_ok) (run_set_attr c path object new) (pure checked))
          (answered path pre) s h in
      let (after, s2, e2, h2) =
        >>=-eq-some (get_post_stat c path)
          (λ after. pure (st, record { before = pre; after = after })) s1 h1 in
      let e =
        some-injective ((st, record { before = pre; after = after }), s2) ((status, wcc), s') h2 in
      let before : pre ≡ wcc.before = ap (λ (r : (Nfsstat3 × WccData) × State c). r.0.1.before) e in
      let (same, off) = join-refused (in_sync guard pre) exports_rw (rw before refused) in
      let (answer, kept) = when-false _ (run_set_attr c path object new) checked st s s1 off e1 in
      (
        sym (ap (λ (r : (Nfsstat3 × WccData) × State c). r.0.0) e)
            ∙ sym answer
            ∙ same
            ∙ ap (in_sync guard) before,
        ap (λ (r : (Nfsstat3 × WccData) × State c). view r.1.os) (sym e)
            ∙ (get_post_stat-Reads c view v path).same s1 s2 after e2
            ∙ ap (λ (t : State c). view t.os) (sym kept),
      )

  -- A SETATTR that ends, and reports no attributes from before the call or another time of change
  -- than its guard gives, answers NFS3ERR_STALE or NFS3ERR_NOT_SYNC respectively, and changes nothing
  -- that `view` sees of the system, where `view` may see all that is left alone by looking, reading,
  -- opening and closing files, and by changing the user.
  pub setattr-IsRefused :
      (object : NfsFh) (new : Sattr3) (guard : Guard) (s s' : State c) (status answer : Nfsstat3)
      (wcc : WccData)
      → setattr c object new guard s ≡ some ((status, wcc), s')
      → IsRefused guard wcc.before answer
      → (status ≡ answer) × (view s'.os ≡ view s.os)
  unfolding setattr run_get_pre_cached
  setattr-IsRefused object new guard s s' status answer wcc h refused =
      let (path, s1, e1, h1) = >>=-eq-some (prep c object) _ s h in
      let (said, off) = in_sync-IsRefused refused in
      let (status_in_sync, kept) = refused-pre object new guard path _ s1 s' status wcc h1 off in
      (status_in_sync ∙ said, kept ∙ (prep-Reads c view v object).same s s1 path e1)
