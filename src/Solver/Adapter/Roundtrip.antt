-- ===== src/Solver/Adapter/Roundtrip.antt =====
-- A graph that is converted and copied back (`GraphAdapter::convert` of
-- lib/Analysis/GraphAdapter.cpp, `initializeGraph(PG)` of lib/Analysis/WorklistSolver.cpp).
use llta.Prelude.{
  Option, Option-cases, ap, arith, false, get_elem?, inl, inr, length, ltb, none, refl, some, sym,
  true, ℕ, ◌&&◌, ◌+◌, ◌<◌, ◌↔◌, ◌∙◌, ◌≡◌,
}
use llta.Program.{ProgramGraph, ProgramNode, has_edge}
use llta.Program.Built.{Built, Built-IsSoundGraph, empty_program, nothing_yet}
use llta.Program.Fill.Nodes.{cost_at}
use llta.Program.Wire.{HasNode}
use llta.Solver.Adapter.{Conversion, convert, convert_nodes}
use llta.Solver.Adapter.Converted.{
  AllEnds, IsConverting, below, convert_all_edges-Adds, convert_nodes-IsConverting,
}
use llta.Solver.Analysable.{AbstractAnalysable}
use llta.Solver.FromProgram.{copy_graph, summary_node, with_marks}
use llta.Solver.FromProgram.Copied.{copy_graph-IsProgramCopy}
use llta.Solver.Graph.{AbstractStateGraph, Node, mem_edge}

-- The same nodes, costs and edges.
pub record IsConverted {State : Type 0} (a : AbstractStateGraph State) (g : ProgramGraph)
    : Type 0 where
  pub converted_built : Built g
  pub converted_size : (i : ℕ) → HasNode g i ↔ (i < length a.nodes)
  pub converted_cost :
      (i : ℕ) (n : Node State) → get_elem? a.nodes i ≡ some n → cost_at g i ≡ some n.cost
  pub converted_edges :
      (u v : ℕ) → has_edge g u v ≡ (ltb u (length a.nodes) && mem_edge v (a.adjacency u))

-- The edges of a node go to nodes.
abbrev pub HasEnds : {State : Type 0} → AbstractStateGraph State → Type 0
HasEnds a = (i : ℕ) → i < length a.nodes → AllEnds (length a.nodes) (a.adjacency i)

cost-HasNode : (g : ProgramGraph) (i c : ℕ) → cost_at g i ≡ some c → HasNode g i
cost-HasNode g i c h = elim (Option-cases (g.nodes i)) [
  | inl gone ↦ let never : none ≡ some c = sym (rw (gone, cost_at) refl) ∙ h in absurd (cc)
  | inr (n, there) ↦ (n, there)
]

HasNode-cost :
    (g : ProgramGraph) (i : ℕ) (n : ProgramNode)
    → g.nodes i ≡ some n
    → cost_at g i ≡ some n.max_cycles
HasNode-cost g i n there = rw (there, cost_at) refl

-- When every edge goes to a node, the conversion succeeds.
pub convert-IsConverted :
    {State : Type 0} (a : AbstractStateGraph State)
    → HasEnds a
    → (g : ProgramGraph) × (convert a ≡ some g) × IsConverted a g
unfolding convert has_edge
convert-IsConverted a ends =
    let start : Conversion = record { converted = empty_program; new_nodes = λ _. none } in
    let c = convert_nodes 0 a.nodes start in
    let i : IsConverting 0 a.nodes start c =
      convert_nodes-IsConverting 0 a.nodes start nothing_yet refl (λ j. ground arith) in
    let plain : 0 + length a.nodes ≡ length a.nodes = omega arith in
    let sound = Built-IsSoundGraph i.grown.built_on in
    let (h, made, p) =
      convert_all_edges-Adds a (length a.nodes) c.new_nodes
        (λ j. i.map_now j ∙ ap (λ (n : ℕ). below n j) plain) ends 0 a.nodes c.converted
        (omega arith) i.grown.built_on
        (λ j less. (sound.numbers j).1 (omega (arith, less, i.next_now))) in
    (
      h,
      made,
      record {
        converted_built = p.still_built;
        converted_size = λ j. (
          λ (m, there).
              let price = sym (p.costs_held j) ∙ HasNode-cost h j m there in
              let low = (sound.numbers j).0 (cost-HasNode c.converted j m.max_cycles price) in
              omega (arith, low, i.next_now),
          λ less. p.nodes_held j ((sound.numbers j).1 (omega (arith, less, i.next_now))),
        );
        converted_cost = λ j n at.
            let same : j ≡ 0 + j = omega arith in
            p.costs_held j ∙ ap (λ (k : ℕ). cost_at c.converted k) same ∙ i.costs_now j n at;
        converted_edges = λ u v.
            let empty : has_edge c.converted u v ≡ false = i.grown.same_edges u v ∙ refl in
            ground (arith, p.edges_now u v, empty);
      },
    )

-- The nodes with their costs, and the edges, under the new identifiers.
pub record IsRoundTrip {S T : Type 0} (a : AbstractStateGraph S) (index : ℕ → Option ℕ)
    (b : AbstractStateGraph T) : Type 0 where
  pub nodes_back :
      (i : ℕ) (n : Node S)
      → get_elem? a.nodes i ≡ some n
      → (j : ℕ) × (index i ≡ some j)
        × ((k : Node T) × (get_elem? b.nodes j ≡ some k) × (k.cost ≡ n.cost))
  pub edges_back :
      (u v i j : ℕ)
      → index u ≡ some i
      → index v ≡ some j
      → mem_edge j (b.adjacency i) ≡ mem_edge v (a.adjacency u)
  pub edges_only :
      (i j : ℕ)
      → mem_edge j (b.adjacency i) ≡ true
      → ((u : ℕ) × (index u ≡ some i)) × ((v : ℕ) × (index v ≡ some j))
  pub apart_back : (u v i : ℕ) → index u ≡ some i → index v ≡ some i → u ≡ v

-- A graph whose edges go to nodes is converted without a failure, and the copy that the solver makes of
-- the result has the same nodes with their costs and the same edges, under new identifiers. Back edge
-- marks and loop bounds are not converted.
pub convert-copy_graph :
    {S : Type 0} (analysis : AbstractAnalysable) (a : AbstractStateGraph S)
    → HasEnds a
    → (g : ProgramGraph) × (convert a ≡ some g)
      × IsRoundTrip a (copy_graph analysis g).index (copy_graph analysis g).graph
convert-copy_graph analysis a ends =
    let (g, made, c) = convert-IsConverted a ends in
    let sound = Built-IsSoundGraph c.converted_built in
    let (copied, _) = copy_graph-IsProgramCopy analysis g (λ id has. (sound.numbers id).0 has) in
    (
      g,
      made,
      record {
        nodes_back = λ i n at.
            let price = c.converted_cost i n at in
            let (m, there) = cost-HasNode g i n.cost price in
            let (j, here, node) = copied.node_for i m there in
            let e : some m.max_cycles ≡ some n.cost = sym (HasNode-cost g i m there) ∙ price in
            let same : m.max_cycles ≡ n.cost = cc in
            (j, here, (with_marks analysis m (summary_node analysis m), node, same));
        edges_back = λ u v i j at_u at_v.
            let low = (c.converted_size u).0 (copied.only_nodes u i at_u) in
            copied.edge_for u v i j at_u at_v ∙ c.converted_edges u v ∙ ground (arith, low);
        edges_only = copied.only_edges;
        apart_back = copied.one_each;
      },
    )
