-- ===== src/Solver/FromProgram/Copied.antt =====
-- The graph that the solver copies from a program graph, and its run (`initializeGraph(PG)` and
-- `run(PG)` of lib/Analysis/WorklistSolver.cpp).
use llta.Prelude.{
  List, Option, ap, arith, false, get_elem?, ltb, none, refl, some, sym, true, ℕ, ◌∙◌, ◌≡◌,
}
use llta.Program.{ProgramGraph, ProgramNode, has_edge}
use llta.Program.Detach.Reached.{IsGiven}
use llta.Program.Wire.{HasNode}
use llta.Solver.Analysable.{AbstractAnalysable}
use llta.Solver.FromProgram.{
  copy_graph, copy_node, copy_node_edges, each_node, mark_ends, summary_node, with_marks,
}
use llta.Solver.FromProgram.Edges.{HasFlags, IsWired, copy_all-IsWired}
use llta.Solver.FromProgram.Marks.{IsMarked, mark_all-IsMarked}
use llta.Solver.FromProgram.Nodes.{IsIndexed, copy_nodes-IsIndexed}
use llta.Solver.FromProgram.Rounds.{IsCold}
use llta.Solver.Graph.{AbstractStateGraph, Edge, IsConsistent, Node, empty_graph, mem_edge}

module _ (analysis : AbstractAnalysable) (pg : ProgramGraph) where
  open analysis use {State, initial_state, equals, join}

  -- The copy: a node for each node with its cost, its loop bound and its marks, and the same edges,
  -- each a back edge where its target says so.
  pub record IsProgramCopy (index : ℕ → Option ℕ) (g : AbstractStateGraph State) : Type 0 where
    pub node_for :
        (id : ℕ) (m : ProgramNode)
        → pg.nodes id ≡ some m
        → (a : ℕ) × (index id ≡ some a)
          × (get_elem? g.nodes a ≡ some (with_marks analysis m (summary_node analysis m)))
    pub only_nodes : (id a : ℕ) → index id ≡ some a → HasNode pg id
    pub one_each : (u v a : ℕ) → index u ≡ some a → index v ≡ some a → u ≡ v
    pub edge_for :
        (u v a b : ℕ)
        → index u ≡ some a
        → index v ≡ some b
        → mem_edge b (g.adjacency a) ≡ has_edge pg u v
    pub only_edges :
        (a b : ℕ)
        → mem_edge b (g.adjacency a) ≡ true
        → ((u : ℕ) × (index u ≡ some a)) × ((v : ℕ) × (index v ≡ some b))
    pub back_for : HasFlags pg index g.adjacency
    pub both_lists : IsConsistent g

  pub copy_graph-IsProgramCopy :
      IsGiven pg
      → IsProgramCopy (copy_graph analysis pg).index (copy_graph analysis pg).graph
        × IsCold analysis (copy_graph analysis pg).graph
  unfolding copy_graph
  copy_graph-IsProgramCopy given =
      let top = pg.next_node_id in
      let c =
        each_node (copy_node analysis) pg top (record { graph = empty_graph; index = λ _. none }) in
      let i : IsIndexed analysis pg top c = copy_nodes-IsIndexed analysis pg top in
      let g = each_node (copy_node_edges analysis pg c.index) pg top c.graph in
      let at : (id : ℕ) (n : ProgramNode) → pg.nodes id ≡ some n → (a : ℕ) × (c.index id ≡ some a) =
        λ id n there. let (a, here, _) = i.indexed id n (given id (n, there)) there in (a, here) in
      let w : IsWired analysis pg c.index i.apart c.graph.nodes top g =
        copy_all-IsWired analysis pg c.index i.apart c.graph top at i.no_edges i.no_preds in
      let h = each_node (mark_ends analysis c.index) pg top g in
      let m : IsMarked analysis pg c.index i.apart g top h =
        mark_all-IsMarked analysis pg c.index i.apart g top at (record {
          same_edges = refl;
          same_preds = refl;
          same_size = refl;
          nodes_marked = λ id a n there here.
              let (b, here', node) = i.indexed id n (given id (n, there)) there in
              let e : some b ≡ some a = sym here' ∙ here in
              let b_a : b ≡ a = cc in
              let not_below : ltb id 0 ≡ false = ground arith in rw (w.kept, ← b_a, not_below) node;
          still_cold = λ a k there.
              i.all_cold a k (sym (ap (λ (ns : List (Node State)). get_elem? ns a) w.kept) ∙ there);
        }) in
      (
        record {
          node_for = λ id n there.
              let low = given id (n, there) in
              let (a, at, _) = i.indexed id n low there in
              let below : ltb id top ≡ true = ground (arith, low) in
              (a, at, m.nodes_marked id a n there at ∙ rw below refl);
          only_nodes = λ id a at. (i.only id a at).0;
          one_each = i.apart;
          edge_for = λ u v a b at_u at_v.
              let low = (i.only u a at_u).1 in
              ap (λ (e : ℕ → List Edge). mem_edge b (e a)) m.same_edges
              ∙ w.wired u v a b at_u at_v
              ∙ ground (arith, low);
          only_edges = λ a b e.
              w.images a b (sym (ap (λ (f : ℕ → List Edge). mem_edge b (f a)) m.same_edges) ∙ e);
          back_for = rw m.same_edges w.flagged;
          both_lists = rw (m.same_edges, m.same_preds) w.agreeing;
        },
        m.still_cold,
      )
