-- ===== src/Examples/Exports.antt =====
-- Two exports, one inside the other, and a client of one network.
use unfs3_raft.Base.{ℕ, ◌≡◌, refl, ◌⊎◌, false, none, some, List, [], ◌∷◌}
use unfs3_raft.Fs.{FilePath}
use unfs3_raft.User.{anon_notspecial}
use unfs3_raft.Exports.{
  Host, Item, ExportState, no_export, contains, is_prefix, up_path, cleared, exports_options,
  normpath,
}
use unfs3_raft.Exports.Longest.{NoLonger, Chosen, exports_options-Chosen}
use unfs3_raft.Exports.Normpath.{IsNormal, normpath-IsNormal}

abbrev network : Host
network = record {
  orig = 0x6e ∷ [];
  options = 4;
  password = [];
  password_hash = 7;
  addr = 0 ∷ 0 ∷ 0xffff ∷ 0xc0a80000 ∷ [];
  prefix = 112;
  anonuid = anon_notspecial;
  anongid = anon_notspecial;
}

abbrev pub data_path : FilePath
data_path = 0x2f ∷ 0x61 ∷ []

abbrev inner_path : FilePath
inner_path = 0x2f ∷ 0x61 ∷ 0x2f ∷ 0x62 ∷ []

abbrev pub exports_list : List Item
exports_list =
    record { path = data_path; orig = data_path; hosts = network ∷ []; fsid = 11 }
    ∷ (record { path = inner_path; orig = inner_path; hosts = []; fsid = 12 } ∷ [])

abbrev no_state : ExportState
no_state = record {
  exports_opts = no_export;
  export_path = none;
  export_fsid = 0;
  export_password_hash = 0;
  last_anonuid = anon_notspecial;
  last_anongid = anon_notspecial;
}

abbrev pub client : List ℕ
client = 0 ∷ 0 ∷ 0xffff ∷ 0xc0a80105 ∷ []

abbrev untidy : FilePath
untidy = 0x2f ∷ 0x2f ∷ 0x61 ∷ 0x2f ∷ []

inner_clean : contains up_path inner_path ≡ false
unfolding contains is_prefix
inner_clean = refl

exports_options-Chosen_example :
    let (outs, st') = exports_options exports_list (some inner_path) (some client) no_state in
    (n : ℕ) × NoLonger inner_path client n exports_list
    × (((n ≡ 0) × (st' ≡ cleared no_state)) ⊎ Chosen inner_path client exports_list n outs st')
exports_options-Chosen_example =
    exports_options-Chosen inner_path client exports_list no_state inner_clean

normpath-IsNormal_example :
    IsNormal (normpath untidy)
    × (IsNormal untidy → normpath untidy ≡ untidy)
    × (normpath (normpath untidy) ≡ normpath untidy)
normpath-IsNormal_example = normpath-IsNormal untidy
