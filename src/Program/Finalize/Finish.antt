-- ===== src/Program/Finalize/Finish.antt =====
-- `ProgramGraph::finalize` from end to end (lib/Graph/ProgramGraph.cpp).
use llta.Prelude.{Bool, List, Option, [], false, if◌then◌else◌, none, some, ℕ, ◌∷◌}
use llta.Program.{ProgramGraph}
use llta.Program.Detach.Ids.{there_is}
use llta.Program.Detach.Reached.{prune_unreachable}
use llta.Program.Fill.{ModuleGraph}
use llta.Program.Finalize.{CallFacts, Wiring, charge_symbols, then_wire, wire_calls}
use llta.Program.Finalize.Bound.{bound_cycles}
use llta.Solver.Graph.{insert_id}

-- What is left: the graph, and the names that make the bound unsound or that recursion is found for.
pub record Finished : Type 0 where
  pub program : ProgramGraph
  pub unsound_names : List ℕ
  pub bounded_recursion : List ℕ
  pub unbounded_recursion : List ℕ
  pub mutual_recursion : List ℕ

-- `UnsoundExternalCallees`: what is staged at a node that is left.
unfoldable pub add_unsound : ProgramGraph → List (ℕ × ℕ) → List ℕ → List ℕ
add_unsound g [] found = found
add_unsound g ((node, name) ∷ xs) found =
    add_unsound g xs (if there_is g node then insert_id name found else found)

-- `Reachable(F)`: the entry of the function is left.
unfoldable pub is_kept : ModuleGraph → ProgramGraph → ℕ → Bool
is_kept s g f = elim (s.entry_of f) [ none ↦ false | some entry ↦ there_is g entry ]

-- The names of the functions that are left.
unfoldable pub kept_names : CallFacts → ModuleGraph → ProgramGraph → List ℕ → List ℕ → List ℕ
kept_names facts s g [] found = found
kept_names facts s g (f ∷ fs) found =
    kept_names facts s g fs (if is_kept s g f then insert_id (facts.name_of f) found else found)

unfoldable pub report : CallFacts → ModuleGraph → Wiring → ProgramGraph → Finished
report facts s w g = record {
  program = g;
  unsound_names = add_unsound g w.pending [];
  bounded_recursion =
      kept_names facts s g w.bounded_mutual (kept_names facts s g w.bounded_self []);
  unbounded_recursion = kept_names facts s g w.unbounded_self [];
  mutual_recursion = kept_names facts s g w.unbounded_mutual [];
}

-- The pruning, when there is an entry node.
unfoldable pub finish : CallFacts → ModuleGraph → Wiring → Option Finished
finish facts s w = elim s.entry_node [
  | none ↦ some (report facts s w w.wired)
  | some entry ↦ elim (prune_unreachable w.wired.next_node_id w.wired entry) [
    | none ↦ none
    | some g ↦ some (report facts s w g)
  ]
]

abbrev pub unwired : ModuleGraph → Wiring
unwired s = record {
  wired = s.graph;
  pending = [];
  bounded_self = [];
  unbounded_self = [];
  bounded_mutual = [];
  unbounded_mutual = [];
}

-- `finalize(MF, MMI, Target, RecursionBounds)`; none where a lookup throws.
unfoldable pub finalize : CallFacts → ModuleGraph → Option Finished
finalize facts s =
    elim (then_wire (then_wire (wire_calls facts s s.calls (unwired s)) (bound_cycles facts s))
      (charge_symbols facts s.symbol_calls)) [ none ↦ none | some w ↦ finish facts s w ]
