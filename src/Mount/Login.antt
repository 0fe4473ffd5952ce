-- ===== src/Mount/Login.antt =====
-- What a request that is authenticated has shown.
use unfs3_raft.Base.{
  ℕ, ◌≡◌, refl, sym, ap, ◌∙◌, subst, ◌⊎◌, inl, inr, Bool, true, false, not, ◌&&◌, List, ◌++◌,
  Option, none, some, length, drop, take, ◌==◌, arith, Bool-cases,
}
use mathlib.Core.Option.{some-injective}
use unfs3_raft.Fs.{FilePath}
use unfs3_raft.Exports.{Outs, ExportState, no_export, is_prefix, exports_options}
use unfs3_raft.Exports.Build.Options.{password_maxlen}
use unfs3_raft.Exports.Longest.{Chosen, NoLonger, exports_options_known}
use unfs3_raft.Exports.Text.{str_eq→≡, is_prefix-append}
use unfs3_raft.Password.{mnt_cmd_argument, otp_digest}
use unfs3_raft.Password.Argument.{mnt_cmd_argument-Cuts}
use unfs3_raft.Server.{Config, ◌>>=◌, pure, call, when, State}
use unfs3_raft.Mount.{
  Mounts, Caller, Login, password_cmd, otp_cmd, is_password, is_otp, run_exports_options,
  has_options, login_password, login_otp, login,
}

module _ (c : Config) (k : Caller c.backend.Os) where
  -- The options for a path, and the password with them, are those of the export that is chosen for it.
  pub record Exported (path : FilePath) (outs : Outs) (exports : ExportState) : Type 0 where
    pub addr : List ℕ
    pub client : c.remote ≡ some addr
    pub size : ℕ
    pub longest : NoLonger path addr size c.export_list
    pub chosen : Chosen path addr c.export_list size outs exports

  -- A request that carries the password of the export that is chosen for the path behind it, or an
  -- answer to the nonce made with this password.
  pub record Knows (request path : FilePath) (m : Mounts) (before : ExportState) : Type 0 where
    pub exported :
        let (outs, exports) = exports_options c.export_list (some path) c.remote before in
        Exported path outs exports
    pub arg : List ℕ
    pub proof :
        ((password_cmd ++ (arg ++ path) ≡ request) × (exported.chosen.host.password ≡ arg))
        ⊎ ((otp_cmd ++ (arg ++ path) ≡ request)
            × (take 32 (otp_digest k.md5 m.nonce exported.chosen.host.password) ≡ take 32 arg))

  pub exported :
      (path : FilePath) (before : ExportState)
      → let (outs, exports) = exports_options c.export_list (some path) c.remote before in
        (exports.exports_opts == no_export) ≡ false → Exported path outs exports
  exported path before known =
      let (addr, client, size, longest, chosen) =
        exports_options_known c.export_list path c.remote before known in
      record { addr = addr; client = client; size = size; longest = longest; chosen = chosen }

  is_password_lem :
      (p : Option (List ℕ)) (host pw : List ℕ) → p ≡ some host → is_password p pw ≡ true → host ≡ pw
  unfolding is_password
  is_password_lem none host pw e h = cc
  is_password_lem (some q) host pw e h = sym (some-injective q host e) ∙ str_eq→≡ q pw h

  is_otp_lem :
      (nonce : List ℕ) (p : Option (List ℕ)) (host otp : List ℕ)
      → p ≡ some host
      → is_otp k.md5 nonce p otp ≡ true
      → take 32 (otp_digest k.md5 nonce host) ≡ take 32 otp
  unfolding is_otp
  is_otp_lem nonce none host otp e h = cc
  is_otp_lem nonce (some q) host otp e h =
      rw (← some-injective q host e) (str_eq→≡ (take 32 (otp_digest k.md5 nonce q)) (take 32 otp) h)

  -- The argument and the path behind it make up the request.
  recut :
      (cmd dpath : FilePath)
      → is_prefix cmd dpath ≡ true
      → let (arg, path) = mnt_cmd_argument dpath cmd password_maxlen in cmd ++ (arg ++ path) ≡ dpath
  recut cmd dpath h =
      subst
        (λ d. let (arg, path) = mnt_cmd_argument d cmd password_maxlen in cmd ++ (arg ++ path) ≡ d)
        (is_prefix-append cmd dpath h)
        (ap (◌++◌ cmd) (mnt_cmd_argument-Cuts cmd (drop (length cmd) dpath) password_maxlen).whole)

  -- What a login that ends says; the list of mounts is left alone.
  abbrev pub IsLogin : FilePath → Mounts → State c → (Login × Mounts) × State c → Type 0
  IsLogin dpath m s r =
      (r.0.0.1 ≡ true → Knows dpath r.0.0.0 m s.exports) × (r.0.1.mount_list ≡ m.mount_list)

  login_password_lem :
      (dpath : FilePath) (m : Mounts) (s : State c) (r : (Login × Mounts) × State c)
      → is_prefix password_cmd dpath ≡ true
      → login_password c k dpath m s ≡ some r
      → IsLogin dpath m s r
  unfolding login_password run_exports_options has_options
  login_password_lem dpath m s r starts h =
      subst (IsLogin dpath m s) (some-injective _ r h) (proof, refl)
    where
      path : FilePath
      path = (mnt_cmd_argument dpath password_cmd password_maxlen).1

      arg : List ℕ
      arg = (mnt_cmd_argument dpath password_cmd password_maxlen).0

      outs : Outs
      outs = (exports_options c.export_list (some path) c.remote s.exports).0

      after : ExportState
      after = (exports_options c.export_list (some path) c.remote s.exports).1

      proof :
          (not (after.exports_opts == no_export) && is_password outs.password arg) ≡ true
          → Knows dpath path m s.exports
      proof both =
          let e = exported path s.exports (ground (arith, both)) in
          record {
            exported = e;
            arg = arg;
            proof = inl (
              recut password_cmd dpath starts,
              is_password_lem outs.password e.chosen.host.password arg e.chosen.password
                  (ground (arith, both)),
            );
          }

  login_otp_lem :
      (dpath : FilePath) (m : Mounts) (s : State c) (r : (Login × Mounts) × State c)
      → is_prefix otp_cmd dpath ≡ true
      → login_otp c k dpath m s ≡ some r
      → IsLogin dpath m s r
  unfolding login_otp run_exports_options has_options
  login_otp_lem dpath m s r starts h = go (not (after.exports_opts == no_export)) refl h
    where
      path : FilePath
      path = (mnt_cmd_argument dpath otp_cmd password_maxlen).1

      arg : List ℕ
      arg = (mnt_cmd_argument dpath otp_cmd password_maxlen).0

      outs : Outs
      outs = (exports_options c.export_list (some path) c.remote s.exports).0

      after : ExportState
      after = (exports_options c.export_list (some path) c.remote s.exports).1

      proof :
          not (after.exports_opts == no_export) ≡ true
          → is_otp k.md5 m.nonce outs.password arg ≡ true
          → Knows dpath path m s.exports
      proof known same =
          let e = exported path s.exports (ground (arith, known)) in
          record {
            exported = e;
            arg = arg;
            proof = inr (
              recut otp_cmd dpath starts,
              is_otp_lem m.nonce outs.password e.chosen.host.password arg e.chosen.password same,
            );
          }

      go :
          (known : Bool)
          → not (after.exports_opts == no_export) ≡ known
          → when known
              (do
                (nonce', ok) ← call (k.gen_nonce m.nonce)
                pure ((path, is_otp k.md5 m.nonce outs.password arg), record m { nonce = nonce' }))
              (pure ((path, false), m))
              (record s { exports = after })
            ≡ some r
          → IsLogin dpath m s r
      go true known h = subst (IsLogin dpath m s) (some-injective _ r h) (proof known, refl)
      go false known h = subst (IsLogin dpath m s) (some-injective _ r h) (λ e. absurd (cc e), refl)

  pub login_lem :
      (dpath : FilePath) (m : Mounts) (s : State c) (r : (Login × Mounts) × State c)
      → login c k dpath m s ≡ some r
      → IsLogin dpath m s r
  unfolding login
  login_lem dpath m s r h = elim (Bool-cases (is_prefix password_cmd dpath)) [
    | inl p ↦ login_password_lem dpath m s r p (rw p at h)
    | inr p ↦ elim (Bool-cases (is_prefix otp_cmd dpath)) [
      | inl q ↦ login_otp_lem dpath m s r q (rw (p, q) at h)
      | inr q ↦
          subst (IsLogin dpath m s) (some-injective ((((dpath, false), m), s)) r (rw (p, q) at h))
            (λ e. absurd (cc e), refl)
    ]
  ]
