-- ===== src/Exports/Build.antt =====
-- Config/exports.y: the code that the grammar's rules run, over a file that was read into lines, and
-- exports_parse. The lexer and the tables of yacc are not modelled: a file is the list of lines whose
-- rules ran, and whether the lexer or the parser reported an error. `inet_pton`, `gethostbyname`,
-- `realpath` and `atoi` are the parameter `Resolver`.
pub mod Options
pub mod Hosts
pub mod Spec
pub mod Lines
pub mod Parsed
pub mod Mask
use unfs3_raft.Base.{
  ℕ, ◌+◌, ◌≡◌, Bool, true, false, not, ◌&&◌, ◌||◌, List, [], ◌∷◌, ◌++◌, Option, none, some, length,
  ltb, if◌then◌else◌,
}
use unfs3_raft.Fs.{FilePath, nfs_maxpathlen}
use unfs3_raft.User.{has_bit}
use unfs3_raft.Exports.{Host, Item, get_free_fsid, normpath}
use Options.{Opt, add_opt}
use Hosts.{Resolver, Current, Name, anon_host, set_name}

-- struct exportnode with its list of groups, for the mount protocol.
pub record ExportNode : Type 0 where
  pub ex_dir : FilePath
  pub ex_groups : List (List ℕ)

-- The globals that are filled during a parse; of `cur_item` only the hosts are set before the end
-- of its line.
pub record Parse : Type 0 where
  pub e_list : List Item
  pub ne_list : List ExportNode
  pub cur_hosts : List Host
  pub ne_groups : List (List ℕ)
  pub cur_host : Host
  pub e_error : Bool

-- The three forms of `host`: a name, a name with options, and options alone.
pub record HostSpec : Type 0 where
  pub name : Option Name
  pub opts : List Opt

pub record Line : Type 0 where
  pub path : FilePath
  pub hosts : List HostSpec

unfoldable pub clear_host : Parse → Parse
clear_host st = record st { cur_host = anon_host }

unfoldable pub clear_item : Parse → Parse
clear_item st = record st { cur_hosts = []; ne_groups = [] }

unfoldable pub add_host : Parse → Parse
unfolding clear_host
add_host st = clear_host (record st {
  cur_hosts = st.cur_hosts ++ st.cur_host ∷ [];
  ne_groups = st.ne_groups ++ st.cur_host.orig ∷ [];
})

-- The loop at the start of `add_item`; bit 3 is OPT_REMOVABLE.
unfoldable pub removable_for_all : List Host → Bool
removable_for_all [] = true
removable_for_all (host ∷ hosts) = has_bit host.options 3 && removable_for_all hosts

abbrev pub current : Parse → Current
current st = (st.cur_host, st.e_error)

abbrev pub with_current : Parse → Current → Parse
with_current st (host, e) = record st { cur_host = host; e_error = e }

unfoldable pub fail_item : Parse → Parse
unfolding clear_item
fail_item st = clear_item (record st { e_error = true })

-- The end of `add_item`, behind the default host.
unfoldable pub link_item : FilePath → FilePath → Parse → Parse
unfolding clear_item
link_item path buf st = clear_item (record st {
  e_list =
      st.e_list
      ++ record { path = buf; orig = path; hosts = st.cur_hosts; fsid = get_free_fsid path } ∷ [];
  ne_list = st.ne_list ++ record { ex_dir = path; ex_groups = st.ne_groups } ∷ [];
})

-- If no hosts are listed, the default host is.
unfoldable pub default_host : List Host → Parse → Parse
default_host [] st = add_host st
default_host (host ∷ hosts) st = st

-- clear_cur
unfoldable pub clear_cur : Parse
clear_cur = record {
  e_list = [];
  ne_list = [];
  cur_hosts = [];
  ne_groups = [];
  cur_host = anon_host;
  e_error = false;
}

-- `export_list` and `exports_nfslist`.
abbrev pub Lists : Type 0
Lists = List Item × List ExportNode

unfoldable pub loaded : Parse → Bool × Lists
loaded st = if st.e_error then (false, ([], [])) else (true, (st.e_list, st.ne_list))

-- An error that the lexer or the parser reports.
unfoldable pub report : Bool → Parse → Parse
report failed st = record st { e_error = st.e_error || failed }

unfoldable pub add_at : FilePath → Option FilePath → Parse → Parse
add_at path none st = fail_item st
add_at path (some buf) st =
    if ltb nfs_maxpathlen (length buf + 1)
    then fail_item st
    else link_item path buf (default_host st.cur_hosts st)

module _ (r : Resolver) where
  unfoldable pub add_opts : List Opt → Host → Host
  add_opts [] host = host
  add_opts (opt ∷ opts) host = add_opts opts (add_opt r.atoi opt host)

  -- Where an item is exported from; `none` is a failure of `realpath`.
  unfoldable pub item_path : FilePath → List Host → Option FilePath
  item_path path hosts = if removable_for_all hosts then some (normpath path) else r.realpath path

  unfoldable pub add_item : FilePath → Parse → Parse
  add_item path st = add_at path (item_path path st.cur_hosts) st

  -- The rules for `host`.
  unfoldable pub name_host : Option Name → Parse → Parse
  name_host none st = st
  name_host (some name) st = with_current st (set_name r name (current st))

  unfoldable pub run_host : HostSpec → Parse → Parse
  run_host spec st =
      let named = name_host spec.name st in
      add_host (record named { cur_host = add_opts spec.opts named.cur_host })

  unfoldable pub run_hosts : List HostSpec → Parse → Parse
  run_hosts [] st = st
  run_hosts (spec ∷ specs) st = run_hosts specs (run_host spec st)

  -- The rules for `export` and `exports`.
  unfoldable pub run_line : Line → Parse → Parse
  run_line line st = add_item line.path (run_hosts line.hosts st)

  unfoldable pub run_lines : List Line → Parse → Parse
  run_lines [] st = st
  run_lines (line ∷ lines) st = run_lines lines (run_line line st)

  -- `file` is `none` if it cannot be opened.
  unfoldable pub exports_parse : Bool → Option (List Line × Bool) → Lists → Bool × Lists
  exports_parse exports_access file lists = if exports_access then (false, lists) else elim file [
    | none ↦ (false, ([], []))
    | some (lines, failed) ↦ loaded (report failed (run_lines lines clear_cur))
  ]
