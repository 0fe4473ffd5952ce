-- ===== src/Mount/Allowed/Checked.antt =====
-- mount.c: the part of MNT behind the login.
use unfs3_raft.Base.{
  ◌++◌, ◌&&◌, ℕ, ◌+◌, ◌<◌, ◌≡◌, refl, sym, ap, ◌∙◌, subst, ◌⊎◌, inl, inr, Bool, true, false, List,
  [], ◌∷◌, Option, none, some, length, take, ltb, ltb→lt, ◌==◌, arith, Bool-cases,
}
use mathlib.Core.Option.{some-injective}
use unfs3_raft.Fs.{FilePath, nfs_maxpathlen}
use unfs3_raft.User.{has_bit}
use unfs3_raft.Fh.{Fh, fh_valid, fh_encode}
use unfs3_raft.Exports.{
  is_prefix, Outs, ExportState, granted, no_export, exports_options, export_point,
}
use unfs3_raft.Server.{Config, ◌>>=◌, pure, when, State}
use unfs3_raft.Server.Handles.{fh_comp}
use unfs3_raft.Server.Inversion.{>>=-eq-some}
use unfs3_raft.Mount.{
  mountbody_size, password_cmd, otp_cmd, login, Mounts, MountRes, mnt3_ok, mnt3_err, path_max,
  Caller, is_secure, has_password, mnt3err_acces, is_refused, add_mount, run_exports_options,
  mount_handle, mount_checked, mount_at,
}
use unfs3_raft.Mount.Login.{Exported, exported, Knows}

module _ (c : Config) (k : Caller c.backend.Os) where
  -- The path that is mounted is the one asked for or the one that it leads to.
  abbrev pub IsReal : FilePath → State c → FilePath → Type 0
  IsReal path s buf =
      ((buf ≡ take path_max path) × (export_point c.export_list path ≡ true))
      ⊎ (k.realpath path s.os ≡ some buf)

  -- What the client meets in the list of mounts is recorded: its address and the path that it asked
  -- for, unless its address is not known or there is no memory.
  abbrev pub Recorded : FilePath → Mounts → Mounts → Type 0
  Recorded path m m' =
      (addr : List ℕ)
      → c.remote ≡ some addr
      → k.alloc mountbody_size
          && (k.alloc (length (k.inet_ntop addr) + 1) && k.alloc (length path + 1))
        ≡ true
      → m'.mount_list
        ≡ m.mount_list ++ record { ml_hostname = k.inet_ntop addr; ml_directory = path } ∷ []

  -- A handle was given for the path behind the command: it is that of a directory of an export that
  -- lists the client, whose password is empty or was asked for, from a port that it accepts. A request
  -- without a command asks for its own path, and shows no password.
  pub record Allowed (request : FilePath) (bytes : List ℕ) (m m' : Mounts) (s : State c)
      : Type 0 where
    pub path : FilePath
    pub authenticated : Bool
    pub knows : authenticated ≡ true → Knows c k request path m s.exports
    pub plain :
        is_prefix password_cmd request ≡ false
        → is_prefix otp_cmd request ≡ false
        → (path ≡ request) × (authenticated ≡ false)
    pub buf : FilePath
    pub after_login : Mounts
    pub at_login : State c
    pub logged : login c k request m s ≡ some (((path, authenticated), after_login), at_login)
    pub real : IsReal path at_login buf
    pub outs : Outs
    pub at_mount : State c
    pub looked_up :
        exports_options c.export_list (some buf) c.remote at_login.exports
        ≡ (outs, at_mount.exports)
    pub exported : Exported c k buf outs at_mount.exports
    pub password : (authenticated ≡ true) ⊎ (exported.chosen.host.password ≡ [])
    pub port : (has_bit exported.chosen.host.options 4 ≡ true) ⊎ (k.port < 1024)
    pub fh : Fh
    pub after : State c
    pub composed : fh_comp c buf true at_mount ≡ some (fh, after)
    pub valid : fh_valid fh ≡ true
    pub sent : bytes ≡ fh_encode c.host fh
    pub entry : m'.mount_list ≡ (add_mount c k path m).mount_list
    pub recorded : Recorded path m m'

  add_mount-Recorded :
      (path : FilePath) (m m' : Mounts)
      → m'.mount_list ≡ (add_mount c k path m).mount_list
      → Recorded path m m'
  unfolding add_mount
  add_mount-Recorded path m m' e addr known room = e ∙ rw (known, room) refl

  login_plain :
      (request path : FilePath) (authenticated : Bool) (m m1 : Mounts) (s s1 : State c)
      → login c k request m s ≡ some (((path, authenticated), m1), s1)
      → is_prefix password_cmd request ≡ false
      → is_prefix otp_cmd request ≡ false
      → (path ≡ request) × (authenticated ≡ false)
  unfolding login
  login_plain request path authenticated m m1 s s1 h no_password no_otp =
      let same =
        some-injective (((request, false), m), s) (((path, authenticated), m1), s1)
          (rw (no_password, no_otp) at h) in
      (
        sym (ap (λ (x : ((FilePath × Bool) × Mounts) × State c). x.0.0.0) same),
        sym (ap (λ (x : ((FilePath × Bool) × Mounts) × State c). x.0.0.1) same),
      )

  not_refused :
      (authenticated : Bool) (outs : Outs) (exports : ExportState)
      → is_refused k.port authenticated outs exports ≡ false
      → ((exports.exports_opts == no_export) ≡ false)
        × ((authenticated ≡ true) ⊎ (has_password outs.password ≡ false))
        × ((has_bit exports.exports_opts 4 ≡ true) ⊎ (is_secure k.port ≡ true))
  unfolding is_refused
  not_refused authenticated outs exports h =
      (ground (arith, h), ground (arith, h), ground (arith, h))

  no_password :
      (p : Option (List ℕ)) (host : List ℕ) → p ≡ some host → has_password p ≡ false → host ≡ []
  unfolding has_password
  no_password none host e h = cc
  no_password (some []) host e h = cc
  no_password (some (x ∷ xs)) host e h = cc

  options_lem :
      (path : FilePath) (outs : Outs) (exports : ExportState) (e : Exported c k path outs exports)
      → exports.exports_opts ≡ e.chosen.host.options
  options_lem path outs exports e =
      unfold granted in ap (λ (x : ExportState). x.exports_opts) e.chosen.state

  entry_lem :
      (path : FilePath) (m m1 : Mounts)
      → m1.mount_list ≡ m.mount_list
      → (add_mount c k path m1).mount_list ≡ (add_mount c k path m).mount_list
  unfolding add_mount
  entry_lem path m m1 same = ground (arith, same)

  handle_lem :
      (path : FilePath) (m1 m' : Mounts) (fh : Fh) (bytes : List ℕ) (s s' : State c)
      → ◌≡◌ {A = Option ((MountRes × Mounts) × State c)}
          (some (mount_handle c k path m1 fh, s))
          (some ((mnt3_ok bytes, m'), s'))
      → (fh_valid fh ≡ true) × (bytes ≡ fh_encode c.host fh) × (m' ≡ add_mount c k path m1)
  unfolding mount_handle
  handle_lem path m1 m' fh bytes s s' h = elim (Bool-cases (fh_valid fh)) [
    | inl valid ↦
        let both =
          some-injective ((mnt3_ok (fh_encode c.host fh), add_mount c k path m1), s)
            ((mnt3_ok bytes, m'), s') (rw valid at h) in
        let sent : mnt3_ok (fh_encode c.host fh) ≡ mnt3_ok bytes =
          ap (λ (x : (MountRes × Mounts) × State c). x.0.0) both in
        (valid, cc, sym (ap (λ (x : (MountRes × Mounts) × State c). x.0.1) both))
    | inr other ↦ absurd (cc (rw other at h))
  ]

  module _ (request : FilePath) (m : Mounts) (s0 : State c) (path : FilePath) (authenticated : Bool)
      (knows : authenticated ≡ true → Knows c k request path m s0.exports) (m1 : Mounts)
      (same : m1.mount_list ≡ m.mount_list) (bytes : List ℕ) (m' : Mounts) (s s' : State c)
      (logged : login c k request m s0 ≡ some (((path, authenticated), m1), s)) where
    mount_checked_lem :
        (buf : FilePath)
        → IsReal path s buf
        → mount_checked c k (path, authenticated) buf m1 s ≡ some ((mnt3_ok bytes, m'), s')
        → Allowed request bytes m m' s0
    unfolding mount_checked run_exports_options
    mount_checked_lem buf real h = go (is_refused k.port authenticated outs exports) refl h
      where
        outs : Outs
        outs = (exports_options c.export_list (some buf) c.remote s.exports).0

        exports : ExportState
        exports = (exports_options c.export_list (some buf) c.remote s.exports).1

        s1 : State c
        s1 = record s { exports = exports }

        go :
            (refused : Bool)
            → is_refused k.port authenticated outs exports ≡ refused
            → when refused
                (pure (mnt3_err mnt3err_acces, m1))
                (do fh ← fh_comp c buf true; pure (mount_handle c k path m1 fh))
                s1
              ≡ some ((mnt3_ok bytes, m'), s')
            → Allowed request bytes m m' s0
        go true e h = absurd (cc h)
        go false e h =
            let (known, password, port) = not_refused authenticated outs exports e in
            let found : Exported c k buf outs exports = exported c k buf s.exports known in
            let (fh, s2, composed, rest) =
              >>=-eq-some (fh_comp c buf true) (λ fh. pure (mount_handle c k path m1 fh)) s1 h in
            let (valid, sent, entry) = handle_lem path m1 m' fh bytes s2 s' rest in
            let added : m'.mount_list ≡ (add_mount c k path m).mount_list =
              ap (λ (x : Mounts). x.mount_list) entry ∙ entry_lem path m m1 same in
            record {
              path = path;
              authenticated = authenticated;
              knows = knows;
              plain = login_plain request path authenticated m m1 s0 s logged;
              after_login = m1;
              logged = logged;
              looked_up = refl;
              buf = buf;
              at_login = s;
              real = real;
              outs = outs;
              at_mount = s1;
              exported = found;
              password = elim password [
                | inl shown ↦ inl shown
                | inr empty ↦ inr (
                    no_password outs.password found.chosen.host.password found.chosen.password
                      empty)
              ];
              port = elim port [
                | inl open_port ↦ inl (
                    subst (λ (n : ℕ). has_bit n 4 ≡ true) (options_lem buf outs exports found)
                      open_port)
                | inr low ↦ inr (ltb→lt k.port 1024 low)
              ];
              fh = fh;
              after = s2;
              composed = composed;
              valid = valid;
              sent = sent;
              entry = added;
              recorded = add_mount-Recorded path m m' added;
            }

    pub mount_at_lem :
        (buf : Option FilePath)
        → ((b : FilePath) → buf ≡ some b → IsReal path s b)
        → mount_at c k (path, authenticated) buf m1 s ≡ some ((mnt3_ok bytes, m'), s')
        → Allowed request bytes m m' s0
    unfolding mount_at
    mount_at_lem none real h = absurd (cc h)
    mount_at_lem (some buf) real h = elim (Bool-cases (ltb nfs_maxpathlen (length buf + 1))) [
      | inl long ↦ absurd (cc (rw long at h))
      | inr fits ↦ mount_checked_lem buf (real buf refl) (rw fits at h)
    ]
