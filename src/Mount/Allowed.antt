-- ===== src/Mount/Allowed.antt =====
-- Who can mount what.
pub mod Checked
use unfs3_raft.Base.{
  ℕ, ◌+◌, ◌<◌, ◌≡◌, refl, sym, ap, ◌∙◌, subst, ◌⊎◌, inl, inr, Bool, true, false, not, ◌&&◌, List,
  [], ◌∷◌, Option, none, some, length, take, ltb, ltb→lt, ◌==◌, ==_iff, if◌then◌else◌, arith,
  Bool-cases,
}
use mathlib.Core.Option.{some-injective}
use unfs3_raft.Fs.{FilePath, nfs_maxpathlen}
use unfs3_raft.User.{has_bit}
use unfs3_raft.Fh.{Fh, fh_valid, fh_encode}
use unfs3_raft.Exports.{
  Outs, ExportState, granted, no_export, is_prefix, exports_options, export_point,
}
use unfs3_raft.Server.{Config, ◌>>=◌, pure, lift, when, State}
use unfs3_raft.Server.Handles.{fh_comp}
use unfs3_raft.Server.Inversion.{>>=-eq-some, lift-eq-some}
use unfs3_raft.Mount.{
  Mounts, MountRes, mnt3_ok, mnt3_err, mnt3err_io, mnt3err_inval, path_max, Caller, getnonce_cmd,
  map_logical, is_secure, has_password, mnt3err_acces, is_refused, add_mount, run_exports_options,
  login, real_path, mount_handle, mount_checked, mount_at, mount_path, getnonce, mnt,
}
use unfs3_raft.Mount.Login.{Exported, exported, Knows, login_lem}
use unfs3_raft.Mount.Allowed.Checked.{IsReal, Allowed, mount_at_lem}

module _ (c : Config) (k : Caller c.backend.Os) where
  real_lem :
      (path : FilePath) (s : State c) (buf : FilePath)
      → (if has_bit s.exports.exports_opts 3 && export_point c.export_list path
          then some (take path_max path)
          else k.realpath path s.os)
        ≡ some buf
      → IsReal c k path s buf
  real_lem path s buf h =
      elim (Bool-cases (has_bit s.exports.exports_opts 3 && export_point c.export_list path)) [
        | inl point ↦
            inl
              (sym (some-injective (take path_max path) buf (rw point at h)), ground (arith, point))
        | inr other ↦ inr (rw other at h)
      ]

  mount_path_lem :
      (dpath : FilePath) (m m' : Mounts) (bytes : List ℕ) (s s' : State c)
      → mount_path c k dpath m s ≡ some ((mnt3_ok bytes, m'), s')
      → Allowed c k dpath bytes m m' s
  unfolding mount_path real_path
  mount_path_lem dpath m m' bytes s s' h =
      let (who, s1, logged, rest) = >>=-eq-some (login c k dpath m) _ s h in
      let said = login_lem c k dpath m s (who, s1) logged in
      mount_at_lem c k dpath m s who.0.0 who.0.1 said.0 who.1 said.1 bytes m' s1 s' logged _
        (real_lem who.0.0 s1) rest

  getnonce_lem :
      (m m' : Mounts) (bytes : List ℕ) (s s' : State c)
      → getnonce c k m s ≡ some ((mnt3_ok bytes, m'), s')
      → bytes ≡ m'.nonce
  unfolding getnonce
  getnonce_lem m m' bytes s s' h = go (k.gen_nonce m.nonce s.os).1.1 h
    where
      go :
          (ok : Bool)
          → ◌≡◌ {A = Option ((MountRes × Mounts) × State c)}
              (some (
                (
                  if ok then mnt3_ok (k.gen_nonce m.nonce s.os).1.0 else mnt3_err mnt3err_io,
                  record m { nonce = (k.gen_nonce m.nonce s.os).1.0 },
                ),
                record s { os = (k.gen_nonce m.nonce s.os).0 },
              ))
              (some ((mnt3_ok bytes, m'), s'))
          → bytes ≡ m'.nonce
      go true h =
          let same = some-injective _ ((mnt3_ok bytes, m'), s') h in
          let sent : mnt3_ok (k.gen_nonce m.nonce s.os).1.0 ≡ mnt3_ok bytes =
            ap (λ (x : (MountRes × Mounts) × State c). x.0.0) same in
          let kept : (k.gen_nonce m.nonce s.os).1.0 ≡ m'.nonce =
            ap (λ (x : (MountRes × Mounts) × State c). x.0.1.nonce) same in
          cc
      go false h = absurd (cc h)

  pub mnt-Allowed :
      (dirpath : FilePath) (m m' : Mounts) (bytes : List ℕ) (s s' : State c)
      → mnt c k dirpath m s ≡ some ((mnt3_ok bytes, m'), s')
      → (dpath : FilePath) × (map_logical k.text_of k.logical_mount_root k.my_mount_root dirpath
          ≡ some dpath)
        × (k.rq_vers ≡ 3)
        × (((is_prefix getnonce_cmd dpath ≡ true) × (bytes ≡ m'.nonce))
            ⊎ Allowed c k dpath bytes m m' s)
  unfolding mnt
  mnt-Allowed dirpath m m' bytes s s' h =
      let (dpath, s1, e, rest) =
        >>=-eq-some (lift (map_logical k.text_of k.logical_mount_root k.my_mount_root dirpath)) _ s
          h in
      let (mapped, same) =
        lift-eq-some (map_logical k.text_of k.logical_mount_root k.my_mount_root dirpath) s e in
      let (three, rest) = answered dpath s s1 same rest in (dpath, mapped, three, rest)
    where
      answered :
          (dpath : FilePath) (s s1 : State c)
          → s ≡ s1
          → when
              (not (k.rq_vers == 3))
              (pure (mnt3_err mnt3err_inval, m))
              (when (is_prefix getnonce_cmd dpath) (getnonce c k m) (mount_path c k dpath m))
              s1
            ≡ some ((mnt3_ok bytes, m'), s')
          → (k.rq_vers ≡ 3)
            × (((is_prefix getnonce_cmd dpath ≡ true) × (bytes ≡ m'.nonce))
                ⊎ Allowed c k dpath bytes m m' s)
      answered dpath s s1 same h = elim (Bool-cases (k.rq_vers == 3)) [
        | inr other ↦ absurd (cc (rw other at h))
        | inl three ↦ elim (Bool-cases (is_prefix getnonce_cmd dpath)) [
          | inl nonce ↦ (
            (==_iff k.rq_vers 3).0 three,
            inl (nonce, getnonce_lem m m' bytes s1 s' (rw (three, nonce) at h)),
          )
          | inr path ↦ (
            (==_iff k.rq_vers 3).0 three,
            inr (
                subst (Allowed c k dpath bytes m m') (sym same)
                  (mount_path_lem dpath m m' bytes s1 s' (rw (three, path) at h))),
          )
        ]
      ]
