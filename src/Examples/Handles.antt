-- ===== src/Examples/Handles.antt =====
-- Handles for the file /d/f of a small file system.
use unfs3_raft.Base.{
  ℕ, ◌<◌, ◌≡◌, refl, ◌⊎◌, inl, inr, true, false, List, [], ◌∷◌, ◌++◌, Option, none, some, replicate,
  arith, ◌==◌, if◌then◌else◌,
}
use unfs3_raft.Bytes.{little}
use unfs3_raft.Fs.{FilePath, Stat, FileSystem, slash, root_path, dot, dot_dot, str_eq}
use unfs3_raft.Fh.{
  Fh, fh_maxlen, fh_valid, invalid_fh, fh_hash, fh_encode, fh_decode, nfh_valid, no_inos,
}
use unfs3_raft.Fh.Codec.{Fits, fh_decode-fh_encode, nfh_valid-true}
use unfs3_raft.Fh.Extend.{Extends}
use unfs3_raft.Fh.Compose.{
  Exports, fh_comp_raw, comp_path, comp_found, with_components, components, next_slash, component,
  tail,
}
use unfs3_raft.Fh.Compose.Lookup.{comp-child-Extends}
use unfs3_raft.Fh.Search.{fh_decomp_raw}
use unfs3_raft.Fh.Search.Sound.{Resolves, fh_decomp_raw-Resolves}
use unfs3_raft.Fh.Search.Complete.{Route, arrive, walk, fh_decomp_raw-found}

abbrev stat_of : ℕ → ℕ → Stat
stat_of ino mode = record {
  st_dev = 1;
  st_ino = ino;
  st_mode = mode;
  st_nlink = 1;
  st_uid = 0;
  st_gid = 0;
  st_rdev = 0;
  st_size = 5;
  st_blksize = 4096;
  st_blocks = 1;
  st_atime = 0;
  st_mtime = 0;
  st_ctime = 0;
}

abbrev root_stat : Stat
root_stat = stat_of 2 0x4000

abbrev dir_stat : Stat
dir_stat = stat_of 3 0x4000

abbrev file_stat : Stat
file_stat = stat_of 4 0x8000

abbrev name_d : FilePath
name_d = 0x64 ∷ []

abbrev name_f : FilePath
name_f = 0x66 ∷ []

-- The path without any '/' in front.
abbrev strip : FilePath → FilePath
strip [] = []
strip (c ∷ cs) = if c == slash then strip cs else c ∷ cs

abbrev object_at : FilePath → Option Stat
object_at p =
    if str_eq p []
    then some root_stat
    else if str_eq p name_d
    then some dir_stat
    else if str_eq p (name_d ++ (slash ∷ name_f))
    then some file_stat
    else none

abbrev names_at : FilePath → Option (List FilePath)
names_at p =
    if str_eq p []
    then some (dot ∷ dot_dot ∷ name_d ∷ [])
    else if str_eq p name_d
    then some (dot ∷ dot_dot ∷ name_f ∷ [])
    else none

abbrev fs : FileSystem
fs = record {
  lstat = λ p. object_at (strip p);
  readdir = λ p. names_at (strip p);
  get_gen = λ b p. 0;
}

-- The handle of the file, with the hashes of the inodes 3 and 4.
abbrev file_fh : Fh
file_fh = record { dev = 1; ino = 4; gen = 0; pwhash = 5; len = 2; inos = 3 ∷ 4 ∷ replicate 41 0 }

file_fh-Fits : Fits file_fh
file_fh-Fits = record {
  dev = omega arith;
  ino = omega arith;
  gen = omega arith;
  pwhash = omega arith;
  len = omega arith;
  array = refl;
}

fh_decode-fh_encode_example :
    fh_decode little no_inos (fh_encode little file_fh)
    ≡ some (record file_fh { inos = 3 ∷ 4 ∷ replicate 41 0 })
fh_decode-fh_encode_example = fh_decode-fh_encode little no_inos file_fh file_fh-Fits

nfh_valid-true_example :
    (nfh_valid little no_inos (fh_encode little file_fh) ≡ none)
    ⊎ (nfh_valid little no_inos (fh_encode little file_fh) ≡ some true)
nfh_valid-true_example = nfh_valid-true little no_inos (fh_encode little file_fh)

abbrev no_export : ℕ → Option Fh
no_export fsid = none

file_fh-valid : fh_valid file_fh ≡ true
unfolding fh_valid
file_fh-valid = refl

fh_decomp_raw-Resolves_example : Resolves fs file_fh (fh_decomp_raw fs file_fh root_stat)
fh_decomp_raw-Resolves_example =
    fh_decomp_raw-Resolves fs file_fh file_fh-valid root_stat (λ path. refl)

route : Route fs file_fh (3 ∷ 4 ∷ []) root_path
unfolding str_eq fh_hash
route =
    walk 3 (4 ∷ []) root_path name_d (dot ∷ dot_dot ∷ name_d ∷ []) dir_stat refl
      (inr (inr (inl refl))) refl refl refl
      (arrive 4 [] (root_path ++ (slash ∷ name_d)) name_f (dot ∷ dot_dot ∷ name_f ∷ []) file_stat
        refl (inr (inr (inl refl))) refl refl refl)

fh_decomp_raw-found_example :
    (path : FilePath) × (buf : Stat) × (fh_decomp_raw fs file_fh root_stat ≡ some (path, some buf))
fh_decomp_raw-found_example = fh_decomp_raw-found fs file_fh root_stat (omega arith) route

-- Nothing is exported under its own number.
abbrev exports : Exports
exports = record { export_point = λ path. false; exports_options = λ path. none }

abbrev composed : FilePath → Fh
composed path = fh_comp_raw fs exports invalid_fh path false false

dir_valid : fh_valid (composed (slash ∷ name_d)) ≡ true
unfolding fh_valid fh_comp_raw comp_path comp_found str_eq with_components components next_slash
    component tail
dir_valid = refl

dir_not_root : str_eq (slash ∷ name_d) root_path ≡ false
unfolding str_eq
dir_not_root = refl

child_stat : fs.lstat ((slash ∷ name_d) ++ (slash ∷ name_f)) ≡ some file_stat
unfolding str_eq
child_stat = refl

comp-child-Extends_example :
    (((composed (slash ∷ name_d)).len < fh_maxlen)
      × Extends
          (composed (slash ∷ name_d))
          (composed ((slash ∷ name_d) ++ (slash ∷ name_f)))
          1
          4
          0
          0)
    ⊎ (((composed (slash ∷ name_d)).len ≡ fh_maxlen)
        × (composed ((slash ∷ name_d) ++ (slash ∷ name_f)) ≡ invalid_fh))
comp-child-Extends_example =
    comp-child-Extends fs exports invalid_fh name_d name_f file_stat dir_not_root dir_valid
      (omega arith, tt) child_stat refl
