-- ===== src/Mount/Unmounted.antt =====
-- What UMNT and UMNTALL leave.
use unfs3_raft.Base.{
  ℕ, false, ◌<◌, ◌≡◌, ◌≢◌, refl, ap, List, [], ◌∷◌, Option, none, some, length, ◌==◌, ==_iff, arith,
  Bool-cases, inl, inr,
}
use unfs3_raft.Fs.{FilePath}
use unfs3_raft.FdCache.{fd_entries}
use unfs3_raft.FdCache.Errors.{IsTidy, fd_cache_purge_lem}
use unfs3_raft.Server.{Config, State, fd_calls}
use unfs3_raft.Mount.{Mounts, MountBody, Caller, remove_mount, purge_unused, umnt, umntall}
use unfs3_raft.Mount.Count.{IsCounted, without, remove_mount-IsCounted}

-- No entry of the table has a descriptor.
abbrev pub NoDescriptors : (c : Config) → State c → Type 0
NoDescriptors c s = (j : ℕ) → j < fd_entries → (s.fds.fd_cache j).fd ≡ none

module _ (c : Config) (k : Caller c.backend.Os) (addr : List ℕ) (m : Mounts) (s : State c) where
  -- The client's mounts of the path, or all of the client's, are gone and the others are as they
  -- were; if there is none, no descriptor is left, and otherwise nothing else changes.
  abbrev pub Unmounts : Option FilePath → Option (Mounts × State c) → Type 0
  Unmounts path none = ⊥
  Unmounts path (some (m', s')) =
      (m'.mount_list ≡ without (k.inet_ntop addr) path m.mount_list)
      × IsCounted m'
      × (m'.mount_list ≡ [] → NoDescriptors c s')
      × (m'.mount_list ≢ [] → s' ≡ s)

  nil_of_length : (bodies : List MountBody) → length bodies ≡ 0 → bodies ≡ []
  nil_of_length [] h = refl
  nil_of_length (x ∷ xs) h = absurd (omega arith)

  module _ (known : c.remote ≡ some addr) (v : IsCounted m) (tidy : IsTidy s.fds) where
    unmounts :
        (path : Option FilePath) → Unmounts path (purge_unused c k (remove_mount c k path m) s)
    unfolding purge_unused
    unmounts path =
        let (left, counted) = remove_mount-IsCounted c k path m addr known v in
        elim (Bool-cases ((remove_mount c k path m).mount_cnt == 0)) [
          | inl all ↦
              let size : length (remove_mount c k path m).mount_list ≡ 0 =
                omega
                  (arith, counted.count, (==_iff (remove_mount c k path m).mount_cnt 0).0 all) in
              rw all (
                left,
                counted,
                λ empty. (fd_cache_purge_lem (fd_calls c) (s.fds, (s.os, s.wverf)) tidy).1,
                λ other. absurd (other (nil_of_length (remove_mount c k path m).mount_list size)),
              )
          | inr some_left ↦
              rw some_left
                (left, counted, λ empty. absurd (zero_count counted empty some_left), λ other. refl)
        ]
      where
        zero_count :
            {m1 : Mounts} → IsCounted m1 → m1.mount_list ≡ [] → (m1.mount_cnt == 0) ≡ false → ⊥
        zero_count {m1} counted empty h =
            let size : length m1.mount_list ≡ 0 = ap length empty in
            ground (arith, counted.count, size, h)

    -- UMNT removes the client's mounts of its path and UMNTALL all of the client's; every other
    -- mount stays, and the counter is right. If no mount is left, no descriptor is left in the
    -- table; otherwise the rest of the server is as it was.
    pub umnt-Unmounts :
        (path : FilePath)
        → Unmounts (some path) (umnt c k path m s) × Unmounts none (umntall c k m s)
    unfolding umnt umntall
    umnt-Unmounts path = (unmounts (some path), unmounts none)
