-- ===== src/Exports.antt =====
-- Config/exports.y: the C code behind the grammar, over the list that the parser has built. The
-- names of hosts are resolved while parsing, so a host here is an address with a prefix.
-- Exports/Build and its children are the code that the grammar's rules run.
pub mod Longest
pub mod Normpath
pub mod Build
pub mod Text
use Prim.Native.Nat.{bit_xor}
use unfs3_raft.Base.{
  ℕ, zero, suc, ◌+◌, ◌-◌, ◌*◌, ◌/◌, ◌%◌, ◌^◌, Bool, true, false, not, ◌&&◌, ◌||◌, List, [], ◌∷◌,
  Option, none, some, length, ltb, ◌==◌, if◌then◌else◌,
}
use unfs3_raft.Fs.{FilePath, slash, str_eq}
use unfs3_raft.Nfs.{Nfsstat3, nfs3_ok, nfs3err_acces, nfs3err_xdev}
use unfs3_raft.User.{ExportOptions, anon_notspecial}

-- e_host; `addr` is the four words of a struct in6_addr in host order.
pub record Host : Type 0 where
  pub orig : List ℕ
  pub options : ℕ
  pub password : List ℕ
  pub password_hash : ℕ
  pub addr : List ℕ
  pub prefix : ℕ
  pub anonuid : ℕ
  pub anongid : ℕ

-- e_item
pub record Item : Type 0 where
  pub path : FilePath
  pub orig : FilePath
  pub hosts : List Host
  pub fsid : ℕ

-- The globals that the last call of `exports_options` left.
pub record ExportState : Type 0 where
  pub exports_opts : ℕ
  pub export_path : Option FilePath
  pub export_fsid : ℕ
  pub export_password_hash : ℕ
  pub last_anonuid : ℕ
  pub last_anongid : ℕ

-- -1 as an `int`.
abbrev pub no_export : ℕ
no_export = 2 ^ 32 - 1

-- `*str` as an `unsigned int`, on a host whose `char` is signed.
unfoldable pub char_value : ℕ → ℕ
char_value c = if ltb c 128 then c else c + 2 ^ 32 - 2 ^ 8

unfoldable pub fnv1a_32_update : List ℕ → ℕ → ℕ
fnv1a_32_update [] hval = hval
fnv1a_32_update (c ∷ cs) hval =
    fnv1a_32_update cs (bit_xor hval (char_value c) * 0x01000193 % 2 ^ 32)

unfoldable pub fnv1a_32 : List ℕ → ℕ
fnv1a_32 str = fnv1a_32_update str 0x811c9dc5

-- hval |= 0x80000000
unfoldable pub get_free_fsid : FilePath → ℕ
get_free_fsid path = fnv1a_32 path % 2 ^ 31 + 2 ^ 31

-- The first loop of `normpath`: blocks of slashes become one.
unfoldable pub squeeze : FilePath → FilePath
squeeze [] = []
squeeze (c ∷ []) = c ∷ []
squeeze (c ∷ d ∷ cs) =
    let rest = squeeze (d ∷ cs) in if (c == slash) && (d == slash) then rest else c ∷ rest

-- A slash at the end of a longer path is dropped.
unfoldable pub drop_last_slash : FilePath → FilePath
drop_last_slash [] = []
drop_last_slash (c ∷ []) = if c == slash then [] else c ∷ []
drop_last_slash (c ∷ d ∷ cs) = c ∷ drop_last_slash (d ∷ cs)

unfoldable pub remove_trailing : FilePath → FilePath
remove_trailing [] = []
remove_trailing (c ∷ []) = c ∷ []
remove_trailing (c ∷ d ∷ cs) = c ∷ drop_last_slash (d ∷ cs)

unfoldable pub normpath : FilePath → FilePath
normpath path = remove_trailing (squeeze path)

-- `w & mask`, where the mask has the upper `n` of 32 bits.
abbrev pub masked : ℕ → ℕ → ℕ
masked n w = w / 2 ^ (32 - n) * 2 ^ (32 - n)

-- The words of both addresses, from the first on; `prefix` is what is left of the prefix.
unfoldable pub is_equal_addr : List ℕ → List ℕ → ℕ → Bool
is_equal_addr [] b prefix = true
is_equal_addr (x ∷ a) [] prefix = true
is_equal_addr (x ∷ a) (y ∷ b) prefix =
    let n = if ltb prefix 32 then prefix else 32 in
    (masked n x == masked n y) && is_equal_addr a b (prefix - 32)

unfoldable pub find_host : List ℕ → List Host → Option Host
find_host remote [] = none
find_host remote (host ∷ hosts) =
    if is_equal_addr remote host.addr host.prefix then some host else find_host remote hosts

-- `strstr(path, prefix) == path`
unfoldable pub is_prefix : List ℕ → List ℕ → Bool
is_prefix [] s = true
is_prefix (p ∷ ps) [] = false
is_prefix (p ∷ ps) (c ∷ cs) = (p == c) && is_prefix ps cs

-- `strstr(path, s) != NULL`
unfoldable pub contains : List ℕ → List ℕ → Bool
contains s [] = is_prefix s []
contains s (c ∷ cs) = is_prefix s (c ∷ cs) || contains s cs

-- "/../"
abbrev pub up_path : FilePath
up_path = slash ∷ 0x2e ∷ 0x2e ∷ slash ∷ []

-- The state at the start of the search.
unfoldable pub cleared : ExportState → ExportState
cleared st = record st {
  exports_opts = no_export;
  export_path = none;
  export_fsid = 0;
  last_anonuid = anon_notspecial;
  last_anongid = anon_notspecial;
}

unfoldable pub granted : Item → Host → ExportState
granted item host = record {
  exports_opts = host.options;
  export_path = some item.path;
  export_fsid = item.fsid;
  export_password_hash = host.password_hash;
  last_anonuid = host.anonuid;
  last_anongid = host.anongid;
}

-- `*fsid` and `*password`, if they are written.
pub record Outs : Type 0 where
  pub fsid : Option ℕ
  pub password : Option (List ℕ)

abbrev pub no_outs : Outs
no_outs = record { fsid = none; password = none }

-- `last_len`, what is written through the pointers, and the globals.
abbrev pub Search : Type 0
Search = ℕ × Outs × ExportState

unfoldable pub grant : Item → Option Host → Search → Search
grant item none (last_len, outs, st) = (last_len, record outs { fsid = some item.fsid }, st)
grant item (some host) (last_len, outs, st) = (
  length item.path,
  record { fsid = some item.fsid; password = some host.password },
  granted item host,
)

unfoldable pub search_step : FilePath → List ℕ → Item → Search → Search
search_step path remote item (last_len, outs, st) =
    if ltb last_len (length item.path) && is_prefix item.path path
    then grant item (find_host remote item.hosts) (last_len, outs, st)
    else (last_len, outs, st)

unfoldable pub search_items : FilePath → List ℕ → List Item → Search → Search
search_items path remote [] s = s
search_items path remote (item ∷ items) s =
    search_items path remote items (search_step path remote item s)

unfoldable pub found : Search → Outs × ExportState
found (last_len, outs, st) = (outs, st)

-- `path` is `none` for NULL, and `remote` if `get_remote` fails. The result is what is written to
-- `*fsid` and `*password`, and the globals, of which `exports_opts` is also what is returned.
unfoldable pub exports_options :
    List Item → Option FilePath → Option (List ℕ) → ExportState → Outs × ExportState
exports_options list none remote st = (no_outs, cleared st)
exports_options list (some path) none st = (no_outs, cleared st)
exports_options list (some path) (some remote) st =
    if contains up_path path
    then (no_outs, cleared st)
    else found (search_items path remote list (0, no_outs, cleared st))

unfoldable pub export_point : List Item → FilePath → Bool
export_point [] path = false
export_point (item ∷ items) path = str_eq path item.path || export_point items path

unfoldable pub export_point_from_fsid : List Item → ℕ → Option FilePath
export_point_from_fsid [] fsid = none
export_point_from_fsid (item ∷ items) fsid =
    if item.fsid == fsid then some item.path else export_point_from_fsid items fsid

unfoldable pub exports_compat :
    List Item → Option FilePath → Option (List ℕ) → ExportState → Nfsstat3 × ExportState
exports_compat list path remote st =
    let st' = (exports_options list path remote st).1 in
    (
      if (st'.exports_opts == st.exports_opts)
            && ((st'.last_anonuid == st.last_anonuid) && (st'.last_anongid == st.last_anongid))
          then nfs3_ok
          else if st'.exports_opts == no_export
          then nfs3err_acces
          else nfs3err_xdev,
      st',
    )

-- The first line returns; the test of OPT_RW behind it is never reached.
abbrev pub exports_rw : Nfsstat3
exports_rw = nfs3_ok

-- What `user.c` reads of the state.
unfoldable pub export_options : ExportState → ExportOptions
export_options st = record {
  exports_opts = st.exports_opts;
  exports_anonuid = st.last_anonuid;
  exports_anongid = st.last_anongid;
}
