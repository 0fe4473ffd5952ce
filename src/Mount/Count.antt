-- ===== src/Mount/Count.antt =====
-- The list of mounts and its counter.
use unfs3_raft.Base.{
  ℕ, ◌+◌, ◌-◌, ◌%◌, ◌^◌, ◌≡◌, ◌≤◌, ◌<◌, refl, ap, Bool, true, ◌&&◌, List, [], ◌∷◌, ◌++◌, Option,
  none, some, length, if◌then◌else◌, arith, Bool-cases, inl, inr, length-append, if_intro,
}
use unfs3_raft.Fs.{FilePath, str_eq}
use unfs3_raft.Raft.Net.{is_positive}
use unfs3_raft.Server.{Config}
use unfs3_raft.Mount.{
  Mounts, MountBody, Caller, mountbody_size, remove_from, add_mount, remove_mount,
}

-- What `remove_mount` removes: the mounts of a host, of one path or of all.
abbrev pub is_gone : List ℕ → Option FilePath → MountBody → Bool
is_gone host path body =
    str_eq body.ml_hostname host
    && elim path [ none ↦ true | some dir ↦ str_eq body.ml_directory dir ]

-- The mounts that stay, in their order.
abbrev pub without : List ℕ → Option FilePath → List MountBody → List MountBody
without host path [] = []
without host path (body ∷ bodies) =
    if is_gone host path body then without host path bodies else body ∷ without host path bodies

pub length-without :
    (host : List ℕ) (path : Option FilePath) (bodies : List MountBody)
    → length (without host path bodies) ≤ length bodies
length-without host path [] = omega arith
length-without host path (body ∷ bodies) = ground (arith, length-without host path bodies)

remove_from_lem :
    (host : List ℕ) (path : Option FilePath) (bodies : List MountBody) (cnt : ℕ)
    → length bodies ≤ cnt
    → cnt < 2 ^ 31
    → let (left, cnt') = remove_from host path bodies cnt in
      (left ≡ without host path bodies) × (cnt' + length bodies ≡ cnt + length left)
unfolding remove_from
remove_from_lem host path [] cnt enough small = (refl, refl)
remove_from_lem host path (body ∷ bodies) cnt enough small =
    elim (Bool-cases (is_gone host path body)) [
      | inl gone ↦
          let positive : is_positive cnt ≡ true = ground arith in
          let (left, count) =
            remove_from_lem host path bodies (cnt - 1) (omega arith) (omega arith) in
          rw (gone, positive) (left, omega (arith, count))
      | inr stays ↦
          let (left, count) = remove_from_lem host path bodies cnt (omega arith) small in
          rw stays (ap (◌∷◌ body) left, omega (arith, count))
    ]

-- The counter is the number of mounts, which is below 2 ^ 31.
pub record IsCounted (m : Mounts) : Type 0 where
  pub count : m.mount_cnt ≡ length m.mount_list
  pub small : length m.mount_list < 2 ^ 31

module _ (c : Config) (k : Caller c.backend.Os) where
  -- remove_mount removes the client's mounts of the path, or all of the client's, and no other, and
  -- counts them.
  pub remove_mount-IsCounted :
      (path : Option FilePath) (m : Mounts) (addr : List ℕ)
      → c.remote ≡ some addr
      → IsCounted m
      → (remove_mount c k path m).mount_list ≡ without (k.inet_ntop addr) path m.mount_list
        × IsCounted (remove_mount c k path m)
  unfolding remove_mount
  remove_mount-IsCounted path m addr known v =
      let (left, count) =
        remove_from_lem (k.inet_ntop addr) path m.mount_list m.mount_cnt (omega (arith, v.count))
          (omega (arith, v.count, v.small)) in
      rw known (
        left,
        record {
          count = omega (arith, count, v.count);
          small =
              omega (
                arith,
                ap length left,
                length-without (k.inet_ntop addr) path m.mount_list,
                v.small,
              );
        },
      )

  pub add_mount-IsCounted :
      (path : FilePath) (m : Mounts)
      → length m.mount_list + 1 < 2 ^ 31
      → IsCounted m
      → IsCounted (add_mount c k path m)
  unfolding add_mount
  add_mount-IsCounted path m room v = added c.remote
    where
      added :
          (o : Option (List ℕ))
          → IsCounted (elim o [
            | none ↦ m
            | some addr ↦
                let host = k.inet_ntop addr in
                if k.alloc mountbody_size
                  && (k.alloc (length host + 1) && k.alloc (length path + 1))
                then record m {
                  mount_cnt = (m.mount_cnt + 1) % 2 ^ 32;
                  mount_list =
                      m.mount_list ++ record { ml_hostname = host; ml_directory = path } ∷ [];
                }
                else m
          ])
      added none = v
      added (some addr) = if_intro IsCounted _ _ m (λ fits. grown (k.inet_ntop addr)) (λ fails. v)
        where
          grown :
              (host : List ℕ)
              → IsCounted (record m {
                mount_cnt = (m.mount_cnt + 1) % 2 ^ 32;
                mount_list =
                    m.mount_list ++ record { ml_hostname = host; ml_directory = path } ∷ [];
              })
          grown host =
              let size =
                length-append m.mount_list
                  (record { ml_hostname = host; ml_directory = path } ∷ []) in
              record {
                count = omega (arith, size, v.count, room);
                small = omega (arith, size, room);
              }
