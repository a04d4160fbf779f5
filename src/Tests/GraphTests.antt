-- ===== src/Tests/GraphTests.antt =====
-- The program graph at concrete inputs (lib/Graph/ProgramGraph.cpp).
use llta.Prelude.{
  Bool, Bool-cases, List, [], arith, if◌then◌else◌, inl, inr, ltb, none, refl, some, subst, true, ℕ,
  ◌==◌, ◌||◌, ◌↔◌, ◌∷◌, ◌≡◌,
}
use llta.Program.{ProgramGraph, ProgramNode, fresh_node, has_edge, has_reverse, wire_entry_exit}
use llta.Program.Built.{Built-IsSoundGraph, IsSoundGraph, empty_program, node_added, nothing_yet}
use llta.Program.Detach.Reached.{IsGiven, IsReached, prune_unreachable, prune_unreachable_lem}
use llta.Program.Prune.{reachable_set}
use llta.Program.Prune.Exact.{Reach}
use llta.Program.Prune.Fuel.{AllBelow, IsNumbered, reachable_set_lem}
use llta.Program.Symmetry.{IsSymmetric}
use llta.Program.Total.{wire_entry_exit-total}
use llta.Program.Wire.{is_wired, wire_entry_exit_lem}
use llta.Solver.Graph.{mem_id, put}

-- Four nodes without edges: the entry, the exit and two blocks.
abbrev four_nodes : ProgramGraph
four_nodes = record {
  nodes = λ id. if ltb id 4 then some (fresh_node 3 3) else none;
  next_node_id = 4;
}

abbrev body : List ℕ
body = 2 ∷ 3 ∷ []

abbrev wired_nodes : ProgramGraph
wired_nodes =
    (wire_entry_exit-total four_nodes body (3 ∷ []) 0 1 (fresh_node 3 3, refl)
      (fresh_node 3 3, refl) ((fresh_node 3 3, refl), ((fresh_node 3 3, refl), tt))
      ((fresh_node 3 3, refl), tt)).0

wired : wire_entry_exit four_nodes body (3 ∷ []) 0 1 ≡ some wired_nodes
wired =
    (wire_entry_exit-total four_nodes body (3 ∷ []) 0 1 (fresh_node 3 3, refl)
      (fresh_node 3 3, refl) ((fresh_node 3 3, refl), ((fresh_node 3 3, refl), tt))
      ((fresh_node 3 3, refl), tt)).1

wire_entry_exit_lem_example :
    has_edge wired_nodes 3 1 ≡ (is_wired body (3 ∷ []) 0 1 3 1 || has_edge four_nodes 3 1)
wire_entry_exit_lem_example = wire_entry_exit_lem four_nodes wired_nodes body (3 ∷ []) 0 1 wired 3 1

abbrev one_node : ProgramGraph
one_node = record { nodes = put empty_program.nodes 0 (some (fresh_node 3 3)); next_node_id = 1 }

Built-IsSoundGraph_example : IsSoundGraph one_node
Built-IsSoundGraph_example = Built-IsSoundGraph (node_added (fresh_node 3 3) refl refl nothing_yet)

four_nodes-IsNumbered : IsNumbered four_nodes
four_nodes-IsNumbered = record {
  full = λ id h. (fresh_node 3 3, ground arith);
  targets = λ id n h. ground arith;
}

reachable_set_lem_example :
    (r : ℕ → Bool) × (reachable_set 4 four_nodes 0 ≡ some r)
    × ((v : ℕ) → (r v ≡ true) ↔ Reach four_nodes 0 v)
reachable_set_lem_example = reachable_set_lem four_nodes four_nodes-IsNumbered 0 (omega arith)

-- The entry goes to a loop of two nodes; one more node goes to the loop and is not reached.
abbrev stray_node : ℕ → ProgramNode
stray_node id = record (fresh_node 3 3) {
  successors = if id == 0 || id == 3 then 2 ∷ [] else 3 ∷ [];
  predecessors = if id == 2 then 0 ∷ 3 ∷ [] else (if id == 3 then 1 ∷ 2 ∷ [] else []);
}

abbrev loop_and_stray : ProgramGraph
loop_and_stray = record {
  nodes = λ id. if ltb id 4 then some (stray_node id) else none;
  next_node_id = 4;
}

loop_and_stray-IsSymmetric : IsSymmetric loop_and_stray
unfolding has_edge has_reverse mem_id
loop_and_stray-IsSymmetric u v = ground arith

loop_and_stray-IsGiven : IsGiven loop_and_stray
loop_and_stray-IsGiven id (n, at) = ground arith

stray_node_below : (id : ℕ) → AllBelow 4 (stray_node id).successors
stray_node_below id = elim (Bool-cases (id == 0 || id == 3)) [
  | inl to_two ↦ rw to_two (omega arith, tt)
  | inr to_three ↦ rw to_three (omega arith, tt)
]

stray_node_at : (id : ℕ) (n : ProgramNode) → loop_and_stray.nodes id ≡ some n → stray_node id ≡ n
stray_node_at id n h = ground arith

loop_and_stray-IsNumbered : IsNumbered loop_and_stray
loop_and_stray-IsNumbered = record {
  full = λ id h. (stray_node id, ground arith);
  targets = λ id n h.
      subst (λ (m : ProgramNode). AllBelow 4 m.successors) (stray_node_at id n h)
        (stray_node_below id);
}

prune_unreachable_lem_example :
    (h : ProgramGraph) × (prune_unreachable 4 loop_and_stray 0 ≡ some h)
    × IsReached loop_and_stray h 0
prune_unreachable_lem_example =
    prune_unreachable_lem loop_and_stray 0 loop_and_stray-IsSymmetric loop_and_stray-IsNumbered
      loop_and_stray-IsGiven (omega arith)
