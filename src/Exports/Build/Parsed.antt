-- ===== src/Exports/Build/Parsed.antt =====
-- exports_parse against the meaning of a file.
use unfs3_raft.Base.{
  ◌≡◌, refl, Bool, true, false, List, [], ◌∷◌, ◌++◌, Option, none, some, map, append_assoc,
  append-nil,
}
use unfs3_raft.Exports.{Item}
use unfs3_raft.Exports.Build.Hosts.{Resolver}
use unfs3_raft.Exports.Build.{
  Line, ExportNode, Parse, Lists, run_line, run_lines, clear_cur, loaded, report, exports_parse,
}
use unfs3_raft.Exports.Build.Spec.{all_some, line_of, decided, meaning}
use unfs3_raft.Exports.Build.Lines.{at, Outcome, run_line-Outcome}

module _ (r : Resolver) where
  -- How a run ends: with an error, or with these entries behind the others.
  abbrev Ends :
      List Item → List ExportNode → Bool → Option (List (Item × ExportNode)) → Parse → Type 0
  Ends items nodes e none st = (is : List Item) × (ns : List ExportNode) × (st ≡ at is ns [] true)
  Ends items nodes e (some entries) st =
      st ≡ at (items ++ map (λ x. x.0) entries) (nodes ++ map (λ x. x.1) entries) [] e

  -- An error stays.
  abbrev Stays : List Line → Type 0
  Stays lines =
      (items : List Item) (nodes : List ExportNode)
      → (is : List Item) × (ns : List ExportNode) × (run_lines r lines (at items nodes [] true)
          ≡ at is ns [] true)

  stays :
      (lines : List Line) (items : List Item) (nodes : List ExportNode)
      (o : Option (Item × ExportNode)) (st : Parse)
      → Stays lines
      → Outcome items nodes true o st
      → (is : List Item) × (ns : List ExportNode) × (run_lines r lines st ≡ at is ns [] true)
  stays lines items nodes none st later (is, ns, p) = rw p (later is ns)
  stays lines items nodes (some (item, node)) st later p =
      rw p (later (items ++ item ∷ []) (nodes ++ node ∷ []))

  run_lines_bad : (lines : List Line) → Stays lines
  unfolding run_lines
  run_lines_bad [] items nodes = (items, nodes, refl)
  run_lines_bad (line ∷ lines) items nodes =
      stays lines items nodes (line_of r line) (run_line r line (at items nodes [] true))
        (run_lines_bad lines) (run_line-Outcome r items nodes line true)

  abbrev AllEnd : List Line → Type 0
  AllEnd lines =
      (items : List Item) (nodes : List ExportNode) (e : Bool)
      → Ends items nodes e (all_some (line_of r) lines) (run_lines r lines (at items nodes [] e))

  abbrev after :
      Option (Item × ExportNode)
      → Option (List (Item × ExportNode))
      → Option (List (Item × ExportNode))
  after o os = elim o [ none ↦ none | some y ↦ elim os [ none ↦ none | some ys ↦ some (y ∷ ys) ] ]

  Ends-after :
      (items : List Item) (nodes : List ExportNode) (e : Bool) (x : Item × ExportNode)
      (os : Option (List (Item × ExportNode))) (st : Parse)
      → Ends (items ++ x.0 ∷ []) (nodes ++ x.1 ∷ []) e os st
      → Ends items nodes e (after (some x) os) st
  Ends-after items nodes e x none st p = p
  Ends-after items nodes e x (some xs) st p = rw p (simp append_assoc)

  ends :
      (lines : List Line) (items : List Item) (nodes : List ExportNode) (e : Bool)
      (o : Option (Item × ExportNode)) (st : Parse)
      → AllEnd lines
      → Outcome items nodes e o st
      → Ends items nodes e (after o (all_some (line_of r) lines)) (run_lines r lines st)
  ends lines items nodes e none st later (is, ns, p) = rw p (run_lines_bad lines is ns)
  ends lines items nodes e (some (item, node)) st later p = rw p (
      Ends-after items nodes e (item, node) (all_some (line_of r) lines) _
        (later (items ++ item ∷ []) (nodes ++ node ∷ []) e))

  run_lines-Ends : (lines : List Line) → AllEnd lines
  unfolding run_lines
  run_lines-Ends [] items nodes e = simp append-nil
  run_lines-Ends (line ∷ lines) items nodes e =
      ends lines items nodes e (line_of r line) (run_line r line (at items nodes [] e))
        (run_lines-Ends lines) (run_line-Outcome r items nodes line e)

  loaded-Ends :
      (failed : Bool) (o : Option (List (Item × ExportNode))) (st : Parse)
      → Ends [] [] false o st
      → loaded (report failed st) ≡ decided o failed
  unfolding loaded report
  loaded-Ends failed none st (is, ns, p) = rw p
  loaded-Ends true (some entries) st p = rw p
  loaded-Ends false (some entries) st p = rw p

  -- A file that can be read is loaded as its lines mean, each for itself: all of them are exported,
  -- in their order, or none if one has no meaning or the file had an error. A file that cannot be
  -- read exports nothing, and while the list is in use nothing changes.
  pub exports_parse-meaning :
      (lines : List Line) (failed : Bool) (file : Option (List Line × Bool)) (lists : Lists)
      → (exports_parse r false (some (lines, failed)) lists ≡ meaning r lines failed)
        × (exports_parse r false none lists ≡ (false, ([], [])))
        × (exports_parse r true file lists ≡ (false, lists))
  unfolding exports_parse meaning
  exports_parse-meaning lines failed file lists = (
    loaded-Ends failed (all_some (line_of r) lines) (run_lines r lines clear_cur)
        (unfold clear_cur in run_lines-Ends lines [] [] false),
    refl,
    refl,
  )
