-- ===== src/Exports/Build/Lines.antt =====
-- One line of an exports file, from the globals as they are between two lines.
use unfs3_raft.Base.{
  ◌≡◌, refl, ◌∙◌, Bool, true, false, ◌||◌, List, [], ◌∷◌, ◌++◌, Option, none, some, map,
  if◌then◌else◌, append_assoc, append-nil, map-append, arith, ltb, ◌+◌, length, Bool-cases, inl,
  inr,
}
use unfs3_raft.Fs.{FilePath, nfs_maxpathlen}
use unfs3_raft.Exports.{Host, Item}
use unfs3_raft.Exports.Build.Hosts.{
  Resolver, Name, id, ipv4, ipv6, ipv6_net, ipv4_net, old_net, anon_host, set_name, set_hostname,
  set_ipv4addr, set_ipv6addr, set_ipv4net, set_ipv6net, set_oldnet,
}
use unfs3_raft.Exports.Build.{
  HostSpec, Line, ExportNode, Parse, add_host, item_path, fail_item, link_item, default_host,
  add_at, add_item, name_host, add_opts, run_host, run_hosts, run_line,
}
use unfs3_raft.Exports.Build.Spec.{all_some, origs, named, host_of, entry, entry_at, line_of}

or-false : (b : Bool) → (b || false) ≡ b
or-false true = refl
or-false false = refl

or_true : (b : Bool) → (b || true) ≡ true
or_true true = refl
or_true false = refl

or_assoc : (a b c : Bool) → ((a || b) || c) ≡ (a || (b || c))
or_assoc true b c = refl
or_assoc false b c = refl

-- The globals in the middle of a line, with these hosts so far.
abbrev pub at : List Item → List ExportNode → List Host → Bool → Parse
at items nodes hosts e = record {
  e_list = items;
  ne_list = nodes;
  cur_hosts = hosts;
  ne_groups = origs hosts;
  cur_host = anon_host;
  e_error = e;
}

-- A line that means nothing leaves an error; any other adds its entry.
abbrev pub Outcome :
    List Item → List ExportNode → Bool → Option (Item × ExportNode) → Parse → Type 0
Outcome items nodes e none st = (is : List Item) × (ns : List ExportNode) × (st ≡ at is ns [] true)
Outcome items nodes e (some (item, node)) st =
    st ≡ at (items ++ item ∷ []) (nodes ++ node ∷ []) [] e

module _ (r : Resolver) where
  -- The error flag is only ever added to.
  set_name_flag :
      (name : Name) (host : Host) (e : Bool)
      → set_name r name (host, e)
        ≡ ((set_name r name (host, false)).0, e || (set_name r name (host, false)).1)
  unfolding set_name set_hostname set_ipv4addr set_ipv6addr set_ipv4net set_ipv6net set_oldnet
  set_name_flag (id name) host e = ground arith
  set_name_flag (ipv4 addr) host e = ground arith
  set_name_flag (ipv6 addr) host e = ground arith
  set_name_flag (ipv6_net addr) host e = ground arith
  set_name_flag (ipv4_net addr) host e = ground arith
  set_name_flag (old_net addr) host e = ground arith

  abbrev host_at : HostSpec → Host
  host_at spec = add_opts r spec.opts (named r spec.name).0

  abbrev any_bad : List HostSpec → Bool
  any_bad [] = false
  any_bad (spec ∷ specs) = (named r spec.name).1 || any_bad specs

  abbrev line_hosts : Line → List Host
  line_hosts line = map host_at line.hosts

  module _ (items : List Item) (nodes : List ExportNode) where
    add_host_lem :
        (hosts : List Host) (host : Host) (e : Bool)
        → add_host (record (at items nodes hosts e) { cur_host = host })
          ≡ at items nodes (hosts ++ host ∷ []) e
    unfolding add_host
    add_host_lem hosts host e = simp map-append

    name_host_lem :
        (name : Option Name) (hosts : List Host) (e : Bool)
        → name_host r name (at items nodes hosts e)
          ≡ record (at items nodes hosts (e || (named r name).1)) { cur_host = (named r name).0 }
    unfolding name_host named
    name_host_lem none hosts e = rw (or-false e)
    name_host_lem (some name) hosts e = rw (set_name_flag name anon_host e)

    run_host_lem :
        (spec : HostSpec) (hosts : List Host) (e : Bool)
        → run_host r spec (at items nodes hosts e)
          ≡ at items nodes (hosts ++ host_at spec ∷ []) (e || (named r spec.name).1)
    unfolding run_host
    run_host_lem spec hosts e =
        rw (name_host_lem spec.name hosts e)
          (add_host_lem hosts (host_at spec) (e || (named r spec.name).1))

    run_hosts_lem :
        (specs : List HostSpec) (hosts : List Host) (e : Bool)
        → run_hosts r specs (at items nodes hosts e)
          ≡ at items nodes (hosts ++ map host_at specs) (e || any_bad specs)
    unfolding run_hosts
    run_hosts_lem [] hosts e = rw (append-nil, or-false e)
    run_hosts_lem (spec ∷ specs) hosts e = rw (run_host_lem spec hosts e) (
        run_hosts_lem specs (hosts ++ host_at spec ∷ []) (e || (named r spec.name).1)
        ∙ simp (append_assoc, or_assoc))

    -- What the end of a line makes of its hosts.
    abbrev linked : Option (Item × ExportNode) → Bool → Parse
    linked none e = at items nodes [] true
    linked (some (item, node)) e = at (items ++ item ∷ []) (nodes ++ node ∷ []) [] e

    link_item_lem :
        (path buf : FilePath) (hosts : List Host) (e : Bool)
        → link_item path buf (default_host hosts (at items nodes hosts e))
          ≡ linked (some (entry path buf hosts)) e
    unfolding link_item entry default_host add_host
    link_item_lem path buf [] e = refl
    link_item_lem path buf (h ∷ hs) e = refl

    add_at_lem :
        (path : FilePath) (buf : Option FilePath) (hosts : List Host) (e : Bool)
        → add_at path buf (at items nodes hosts e) ≡ linked (entry_at path hosts buf) e
    unfolding add_at entry_at fail_item
    add_at_lem path none hosts e = refl
    add_at_lem path (some buf) hosts e = elim (Bool-cases (ltb nfs_maxpathlen (length buf + 1))) [
      | inl long ↦ rw long
      | inr fits ↦ rw fits (link_item_lem path buf hosts e)
    ]

    run_line_lem :
        (line : Line) (e : Bool)
        → run_line r line (at items nodes [] e)
          ≡ linked
              (entry_at line.path (line_hosts line) (item_path r line.path (line_hosts line)))
              (e || any_bad line.hosts)
    unfolding run_line add_item
    run_line_lem line e = rw (run_hosts_lem line.hosts [] e) (
        add_at_lem line.path (item_path r line.path (line_hosts line)) (line_hosts line)
          (e || any_bad line.hosts))

  -- Good hosts are those that have a description.
  hosts_of :
      (specs : List HostSpec)
      → all_some (host_of r) specs ≡ (if any_bad specs then none else some (map host_at specs))
  unfolding host_of
  hosts_of [] = refl
  hosts_of (spec ∷ specs) = ground (arith, hosts_of specs)

  linked_bad :
      (items : List Item) (nodes : List ExportNode) (o : Option (Item × ExportNode))
      → (is : List Item) × (ns : List ExportNode) × (linked items nodes o true ≡ at is ns [] true)
  linked_bad items nodes none = (items, nodes, refl)
  linked_bad items nodes (some (item, node)) = (items ++ item ∷ [], nodes ++ node ∷ [], refl)

  linked_good :
      (items : List Item) (nodes : List ExportNode) (o : Option (Item × ExportNode)) (e : Bool)
      → Outcome items nodes e o (linked items nodes o e)
  linked_good items nodes none e = (items, nodes, refl)
  linked_good items nodes (some (item, node)) e = refl

  line_of_bad : (line : Line) → any_bad line.hosts ≡ true → line_of r line ≡ none
  unfolding line_of
  line_of_bad line bad = ground (arith, hosts_of line.hosts)

  line_of_good :
      (line : Line)
      → any_bad line.hosts ≡ false
      → line_of r line
        ≡ entry_at line.path (line_hosts line) (item_path r line.path (line_hosts line))
  unfolding line_of
  line_of_good line good = ground (arith, hosts_of line.hosts)

  pub run_line-Outcome :
      (items : List Item) (nodes : List ExportNode) (line : Line) (e : Bool)
      → Outcome items nodes e (line_of r line) (run_line r line (at items nodes [] e))
  run_line-Outcome items nodes line e =
      rw (run_line_lem items nodes line e) (elim (Bool-cases (any_bad line.hosts)) [
        | inl bad ↦ rw (line_of_bad line bad, bad, or_true e) (linked_bad items nodes _)
        | inr good ↦ rw (line_of_good line good, good, or-false e) (linked_good items nodes _ e)
      ])
