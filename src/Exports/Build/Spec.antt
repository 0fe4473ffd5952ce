-- ===== src/Exports/Build/Spec.antt =====
-- What an exports file means: each line for itself, and each host of a line for itself.
use unfs3_raft.Base.{
  ℕ, Bool, true, false, List, [], ◌∷◌, Option, none, some, map, ltb, ◌+◌, length, if◌then◌else◌,
}
use unfs3_raft.Fs.{FilePath, nfs_maxpathlen}
use unfs3_raft.Exports.{Host, Item, get_free_fsid}
use unfs3_raft.Exports.Build.Hosts.{Resolver, Name, anon_host, set_name}
use unfs3_raft.Exports.Build.{HostSpec, Line, ExportNode, item_path, add_opts, Lists}

-- A value, if all parts have one.
abbrev pub all_some {ℓ κ} : {A : Type ℓ} {B : Type κ} → (A → Option B) → List A → Option (List B)
all_some f [] = some []
all_some f (x ∷ xs) = elim (f x) [
  | none ↦ none
  | some y ↦ elim (all_some f xs) [ none ↦ none | some ys ↦ some (y ∷ ys) ]
]

-- The hosts of a line that lists none.
abbrev pub or_anon : List Host → List Host
or_anon [] = anon_host ∷ []
or_anon (host ∷ hosts) = host ∷ hosts

abbrev pub origs : List Host → List (List ℕ)
origs = map (λ host. host.orig)

unfoldable pub entry : FilePath → FilePath → List Host → Item × ExportNode
entry path buf hosts = (
  record { path = buf; orig = path; hosts = or_anon hosts; fsid = get_free_fsid path },
  record { ex_dir = path; ex_groups = origs (or_anon hosts) },
)

unfoldable pub entry_at : FilePath → List Host → Option FilePath → Option (Item × ExportNode)
entry_at path hosts none = none
entry_at path hosts (some buf) =
    if ltb nfs_maxpathlen (length buf + 1) then none else some (entry path buf hosts)

-- Everything is exported, or nothing is.
abbrev pub decided : Option (List (Item × ExportNode)) → Bool → Bool × Lists
decided none failed = (false, ([], []))
decided (some entries) true = (false, ([], []))
decided (some entries) false = (true, (map (λ e. e.0) entries, map (λ e. e.1) entries))

module _ (r : Resolver) where
  -- The address of the name, if it has one, starting from the anonymous host, then the options.
  unfoldable pub named : Option Name → Host × Bool
  named none = (anon_host, false)
  named (some name) = set_name r name (anon_host, false)

  unfoldable pub host_of : HostSpec → Option Host
  host_of spec =
      let (host, failed) = named spec.name in
      if failed then none else some (add_opts r spec.opts host)

  unfoldable pub line_of : Line → Option (Item × ExportNode)
  line_of line = elim (all_some host_of line.hosts) [
    | none ↦ none
    | some hosts ↦ entry_at line.path hosts (item_path r line.path hosts)
  ]

  unfoldable pub meaning : List Line → Bool → Bool × Lists
  meaning lines failed = decided (all_some line_of lines) failed
