-- ===== src/Mount/Logical.antt =====
-- A mount of the logical root.
use unfs3_raft.Base.{
  refl, sym, subst, ◌⊎◌, none, ℕ, ◌+◌, ◌≡◌, ◌≢◌, ap, ◌∙◌, true, false, ◌&&◌, List, [], ◌∷◌, ◌++◌,
  Option, some, length, take, ◌-◌, Bool-cases, inl, inr,
}
use unfs3_raft.Fs.{FilePath, str_eq}
use unfs3_raft.Exports.Text.{str_eq→≡, str_eq_refl}
use mathlib.Core.Option.{some-injective}
use unfs3_raft.Exports.{is_prefix}
use unfs3_raft.FdCache.Errors.{IsTidy}
use unfs3_raft.Server.{Config, State}
use unfs3_raft.Mount.Allowed.{mnt-Allowed}
use unfs3_raft.Mount.Allowed.Checked.{Allowed}
use unfs3_raft.Mount.Unmounted.{Unmounts, umnt-Unmounts}
use unfs3_raft.Mount.{
  Mounts, MountBody, Caller, mountbody_size, path_max, mnt3_ok, getnonce_cmd, password_cmd, otp_cmd,
  mnt, umnt, map_logical,
}
use unfs3_raft.Mount.Count.{IsCounted, is_gone, without}

without-append :
    (host : List ℕ) (path : Option FilePath) (bodies : List MountBody) (body : MountBody)
    → is_gone host path body ≡ false
    → without host path (bodies ++ body ∷ []) ≡ without host path bodies ++ body ∷ []
without-append host path [] body stays = rw stays
without-append host path (x ∷ xs) body stays = elim (Bool-cases (is_gone host path x)) [
  | inl gone ↦ rw gone (without-append host path xs body stays)
  | inr kept ↦ rw kept (ap (◌∷◌ x) (without-append host path xs body stays))
]

module _ (c : Config) (k : Caller c.backend.Os) (addr : List ℕ) (m m' : Mounts) where
  abbrev pub host : List ℕ
  host = k.inet_ntop addr

  module _ (logical mine : FilePath) (known : c.remote ≡ some addr)
      (named : k.logical_mount_root ≡ some logical) (here : k.my_mount_root ≡ some mine) where
    -- What `map_logical` makes of the name.
    abbrev pub dpath : FilePath
    dpath = take (path_max - 1) (k.text_of mine)

    abbrev pub body : MountBody
    body = record { ml_hostname = host; ml_directory = dpath }

    mapped : map_logical k.text_of k.logical_mount_root k.my_mount_root logical ≡ some dpath
    unfolding map_logical
    mapped = rw (named, here, str_eq_refl logical)

    module _ (no_nonce : is_prefix getnonce_cmd dpath ≡ false)
        (no_password : is_prefix password_cmd dpath ≡ false)
        (no_otp : is_prefix otp_cmd dpath ≡ false)
        (room : k.alloc mountbody_size && (k.alloc (length host + 1) && k.alloc (length dpath + 1))
          ≡ true) where
      recorded :
          (bytes : List ℕ) (s : State c) (asked : FilePath)
          → asked ≡ dpath
          → ((is_prefix getnonce_cmd asked ≡ true) × (bytes ≡ m'.nonce))
            ⊎ Allowed c k asked bytes m m' s
          → m'.mount_list ≡ m.mount_list ++ body ∷ []
      recorded bytes s asked same (inl (nonce, _)) =
          absurd (cc (ap (is_prefix getnonce_cmd) same, nonce, no_nonce))
      recorded bytes s asked same (inr a) =
          let path_eq : a.path ≡ dpath =
            (a.plain (ap (is_prefix password_cmd) same ∙ no_password)
              (ap (is_prefix otp_cmd) same ∙ no_otp)).0
            ∙ same in
          subst
            (λ (p : FilePath).
              k.alloc mountbody_size && (k.alloc (length host + 1) && k.alloc (length p + 1)) ≡ true
              → m'.mount_list
                ≡ m.mount_list ++ record { ml_hostname = host; ml_directory = p } ∷ [])
            path_eq (a.recorded addr known) room

      stays : dpath ≢ logical → is_gone host (some logical) body ≡ false
      stays moved = elim (Bool-cases (str_eq dpath logical)) [
        | inl same ↦ absurd (moved (str_eq→≡ dpath logical same))
        | inr other ↦ rw (str_eq_refl host, other)
      ]

      left :
          (t : State c) (bodies : List MountBody) (o : Option (Mounts × State c))
          → without host (some logical) m'.mount_list ≡ bodies
          → Unmounts c k addr m' t (some logical) o
          → (m2 : Mounts) × (t' : State c) × (o ≡ some (m2, t')) × (m2.mount_list ≡ bodies)
      left t bodies none e u = absurd u
      left t bodies (some (m2, t')) e u = (m2, t', refl, u.0 ∙ e)

      -- The name of the logical root stands for another path, which begins with no command. When the
      -- client mounts the name, and there is memory, the mount is recorded under this path; so when it
      -- then unmounts the name, this entry stays.
      pub umnt-mnt :
          (bytes : List ℕ) (s s' t : State c)
          → dpath ≢ logical
          → IsCounted m'
          → IsTidy t.fds
          → mnt c k logical m s ≡ some ((mnt3_ok bytes, m'), s')
          → (m'.mount_list ≡ m.mount_list ++ body ∷ [])
            × ((m2 : Mounts) × (t' : State c) × (umnt c k logical m' t ≡ some (m2, t'))
                × (m2.mount_list ≡ without host (some logical) m.mount_list ++ body ∷ []))
      umnt-mnt bytes s s' t moved v tidy h =
          let (asked, e, _, answer) = mnt-Allowed c k logical m m' bytes s s' h in
          let same : asked ≡ dpath = some-injective asked dpath (sym e ∙ mapped) in
          let entry = recorded bytes s asked same answer in
          (
            entry,
            left t _ _
                (ap (without host (some logical)) entry
                  ∙ without-append host (some logical) m.mount_list body (stays moved))
                (umnt-Unmounts c k addr m' t known v tidy logical).0,
          )
