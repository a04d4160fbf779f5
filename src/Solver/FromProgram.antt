-- ===== src/Solver/FromProgram.antt =====
-- The worklist algorithm over a program graph (`initializeGraph(PG)` and `run(PG)` of
-- lib/Analysis/WorklistSolver.cpp).
pub mod Each
pub mod Nodes
pub mod Edges
pub mod Marks
pub mod Rounds
pub mod Copied
use text.Mathlib.Text.{◌==◌ as str_eq}
use llta.Cache.Age.{equals, join}
use llta.Prelude.{
  Bool, List, Option, [], false, if◌then◌else◌, none, not, some, suc, true, zero, ℕ, ◌==◌, ◌||◌,
  ◌∷◌,
}
use llta.Program.{ProgramGraph, ProgramNode, is_empty_set}
use llta.Solver.Analysable.{AbstractAnalysable}
use llta.Solver.Graph.{
  AbstractStateGraph, Node, add_edge, add_node, empty_graph, get_node, get_successors, mem_id,
  new_node, put, set_node,
}
use llta.Solver.Worklist.{
  WorklistSolver, add_targets, add_to_worklist, in_state, take_from_worklist,
}

-- `for (Pair : PG.getNodes())`, below an identifier: the nodes in ascending order.
unfoldable pub each_node : {S : Type 0} → (ℕ → ProgramNode → S → S) → ProgramGraph → ℕ → S → S
each_node f g zero s = s
each_node f g (suc n) s =
    let before = each_node f g n s in elim (g.nodes n) [ none ↦ before | some m ↦ f n m before ]

-- Whether the successor counts this node among its back edge predecessors.
unfoldable pub is_back_pred : ProgramGraph → ℕ → ℕ → Bool
is_back_pred pg id succ = elim (pg.nodes succ) [
  | none ↦ false
  | some m ↦ mem_id id m.back_edge_predecessors
]

module _ (analysis : AbstractAnalysable) where
  open analysis use {State, Instr, initial_state, equals, join}

  -- The graph and `PGToASGMap`.
  pub record Copy : Type 0 where
    pub graph : AbstractStateGraph State
    pub index : ℕ → Option ℕ

  -- A node that stands for the summary of a block: no block, and the cost of the program graph.
  abbrev pub summary_node : ProgramNode → Node State
  summary_node m = record (new_node initial_state none) {
    cost = m.max_cycles;
    is_loop_header = not (is_empty_set m.back_edge_predecessors);
    upper_loop_bound = if is_empty_set m.back_edge_predecessors then 0 else m.upper_loop_bound;
    is_entry = str_eq m.name "Entry";
    is_exit = str_eq m.name "Exit";
  }

  unfoldable pub copy_node : ℕ → ProgramNode → Copy → Copy
  copy_node id m c =
      let (g, a) = add_node c.graph initial_state none in
      record { graph = set_node g a (summary_node m); index = put c.index id (some a) }

  unfoldable pub copy_edges :
      ProgramGraph
      → (ℕ → Option ℕ)
      → ℕ
      → ℕ
      → List ℕ
      → AbstractStateGraph State
      → AbstractStateGraph State
  copy_edges pg index id a [] g = g
  copy_edges pg index id a (succ ∷ succs) g =
      copy_edges pg index id a succs
        (elim (index succ) [ none ↦ g | some b ↦ add_edge g a b (is_back_pred pg id succ) ])

  -- The second loop; every node of the program graph has an entry in the map.
  unfoldable pub copy_node_edges :
      ProgramGraph
      → (ℕ → Option ℕ)
      → ℕ
      → ProgramNode
      → AbstractStateGraph State
      → AbstractStateGraph State
  copy_node_edges pg index id m g = elim (index id) [
    | none ↦ g
    | some a ↦ copy_edges pg index id a m.successors g
  ]

  -- The third loop: a node without predecessors is an entry, and one without successors an exit.
  abbrev pub with_marks : ProgramNode → Node State → Node State
  with_marks m n = record n {
    is_entry = is_empty_set m.predecessors || n.is_entry;
    is_exit = is_empty_set m.successors || n.is_exit;
  }

  unfoldable pub mark_ends :
      (ℕ → Option ℕ) → ℕ → ProgramNode → AbstractStateGraph State → AbstractStateGraph State
  mark_ends index id m g = elim (index id) [
    | none ↦ g
    | some a ↦ elim (get_node g a) [ none ↦ g | some n ↦ set_node g a (with_marks m n) ]
  ]

  unfoldable pub copy_graph : ProgramGraph → Copy
  copy_graph pg =
      let c =
        each_node copy_node pg pg.next_node_id
          (record { graph = empty_graph; index = λ _. none }) in
      let g = each_node (copy_node_edges pg c.index) pg pg.next_node_id c.graph in
      record { graph = each_node (mark_ends c.index) pg pg.next_node_id g; index = c.index }

  -- `for (Pair : Graph.getNodes()) if (IsEntry) addToWorklist(...)`, with a test of the nodes.
  unfoldable pub queue_nodes :
      (Node State → Bool) → ℕ → List (Node State) → WorklistSolver State → WorklistSolver State
  queue_nodes test id [] s = s
  queue_nodes test id (n ∷ ns) s =
      queue_nodes test (suc id) ns (if test n then add_to_worklist s id else s)

  -- `initializeGraph(PG)`.
  unfoldable pub initialize_from_program : ProgramGraph → WorklistSolver State
  initialize_from_program pg =
      let g = (copy_graph pg).graph in
      queue_nodes (λ n. n.is_entry) 0 g.nodes
        (record { graph = g; worklist = []; in_worklist = λ _. false })

  -- `run(PG)`: every node is queued. A node has no block, so the round keeps its cost.
  unfoldable pub visit_summary : WorklistSolver State → ℕ → WorklistSolver State
  visit_summary s id = elim (get_node s.graph id) [
    | none ↦ s
    | some n ↦
        let out = in_state analysis s.graph id in
        if equals n.state out
        then s
        else add_targets (record s { graph = set_node s.graph id (record n { state = out }) })
            (get_successors s.graph id)
  ]

  unfoldable pub solve_summaries : ℕ → WorklistSolver State → Option (WorklistSolver State)
  solve_summaries zero s = elim (take_from_worklist s) [ none ↦ some s | some _ ↦ none ]
  solve_summaries (suc fuel) s = elim (take_from_worklist s) [
    | none ↦ some s
    | some (id, rest) ↦ solve_summaries fuel (visit_summary rest id)
  ]

  unfoldable pub run_program : ℕ → ProgramGraph → Option (WorklistSolver State)
  run_program fuel pg =
      let s = initialize_from_program pg in
      solve_summaries fuel (queue_nodes (λ _. true) 0 s.graph.nodes s)
