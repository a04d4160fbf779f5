-- ===== src/Solver/Worklist/Degree.antt =====
-- How many edges leave a node (`initializeGraph` of lib/Analysis/WorklistSolver.cpp).
use llta.Prelude.{
  ==_iff, Bool, Bool-cases, List, Option, [], ap, arith, inl, inr, length, refl, suc, ℕ, ◌+◌, ◌==◌,
  ◌∙◌, ◌∷◌, ◌≡◌, ◌≤◌,
}
use llta.Solver.Analysable.{AbstractAnalysable}
use llta.Solver.Graph.{
  AbstractStateGraph, Edge, add_edge, add_node, empty_graph, get_node, insert_edge, set_node,
}
use llta.Solver.Worklist.{
  LoopInfo, MachineFunction, add_to_worklist, connect, connect_block, create_node, create_nodes,
  enter, initialize_graph, is_back, mark_entry, mark_exit, mark_exits,
}

-- The successors of all the blocks together.
abbrev pub degree : {Instr : Type 0} → MachineFunction Instr → ℕ
degree [] = 0
degree (b ∷ blocks) = length b.succs + degree blocks

length-insert_edge : (e : Edge) (es : List Edge) → length (insert_edge e es) ≤ suc (length es)
unfolding insert_edge
length-insert_edge e [] = omega arith
length-insert_edge e (f ∷ es) = ground (arith, length-insert_edge e es)

module _ (analysis : AbstractAnalysable) where
  open analysis use {State, Instr}

  add_edge-degree :
      (g : AbstractStateGraph State) (from to : ℕ) (back : Bool) (u : ℕ)
      → length ((add_edge g from to back).adjacency u) ≤ suc (length (g.adjacency u))
  unfolding add_edge
  add_edge-degree g from to back u = elim (Bool-cases (from == u)) [
    | inl here ↦
        let at : from ≡ u = (==_iff from u).0 here in
        rw (here, at) (length-insert_edge (record { to = to; is_back_edge = back }) (g.adjacency u))
    | inr apart ↦ rw apart (omega arith)
  ]

  connect_block-degree :
      (loops : Option LoopInfo) (g : AbstractStateGraph State) (from : ℕ) (succs : List ℕ) (u : ℕ)
      → length ((connect_block analysis loops g from succs).adjacency u)
        ≤ length succs + length (g.adjacency u)
  unfolding connect_block
  connect_block-degree loops g from [] u = omega arith
  connect_block-degree loops g from (to ∷ succs) u =
      let back = is_back analysis loops from to in
      omega (
        arith,
        connect_block-degree loops (add_edge g from to back) from succs u,
        add_edge-degree g from to back u,
      )

  connect-degree :
      (loops : Option LoopInfo) (g : AbstractStateGraph State) (from : ℕ)
      (blocks : MachineFunction Instr) (u : ℕ)
      → length ((connect analysis loops g from blocks).adjacency u)
        ≤ degree blocks + length (g.adjacency u)
  unfolding connect
  connect-degree loops g from [] u = omega arith
  connect-degree loops g from (b ∷ blocks) u = omega (
    arith,
    connect-degree loops (connect_block analysis loops g from b.succs) (suc from) blocks u,
    connect_block-degree loops g from b.succs u,
  )

  adjacency-create_nodes :
      (loops : Option LoopInfo) (bounds : Option (ℕ → Option ℕ)) (g : AbstractStateGraph State)
      (blocks : MachineFunction Instr)
      → (create_nodes analysis loops bounds g blocks).adjacency ≡ g.adjacency
  unfolding create_nodes create_node add_node set_node
  adjacency-create_nodes loops bounds g [] = refl
  adjacency-create_nodes loops bounds g (b ∷ blocks) =
      adjacency-create_nodes loops bounds (create_node analysis loops bounds g) blocks

  adjacency-mark_exits :
      (g : AbstractStateGraph State) (id : ℕ) (blocks : MachineFunction Instr)
      → (mark_exits analysis g id blocks).adjacency ≡ g.adjacency
  unfolding mark_exits mark_exit get_node set_node
  adjacency-mark_exits g id [] = refl
  adjacency-mark_exits g id (b ∷ blocks) =
      adjacency-mark_exits (mark_exit analysis g id b.is_return) (suc id) blocks ∙ ground arith

  adjacency-enter :
      (blocks : MachineFunction Instr) (g : AbstractStateGraph State)
      → (enter analysis blocks g).graph.adjacency ≡ g.adjacency
  unfolding enter add_to_worklist mark_entry get_node set_node
  adjacency-enter [] g = refl
  adjacency-enter (b ∷ blocks) g = ground arith

  pub initialize_graph-degree :
      (loops : Option LoopInfo) (bounds : Option (ℕ → Option ℕ)) (mf : MachineFunction Instr)
      (u : ℕ)
      → length ((initialize_graph analysis loops bounds mf).graph.adjacency u) ≤ degree mf
  unfolding initialize_graph
  initialize_graph-degree loops bounds mf u =
      let made = create_nodes analysis loops bounds empty_graph mf in
      let g = connect analysis loops made 0 mf in
      let same : (initialize_graph analysis loops bounds mf).graph.adjacency u ≡ g.adjacency u =
        ap (λ (f : ℕ → List Edge). f u)
          (adjacency-mark_exits (enter analysis mf g).graph 0 mf ∙ adjacency-enter mf g) in
      let bare : made.adjacency u ≡ [] =
        ap (λ (f : ℕ → List Edge). f u) (adjacency-create_nodes loops bounds empty_graph mf) in
      let none : length (made.adjacency u) ≡ 0 = ap length bare in
      rw same (omega (arith, connect-degree loops made 0 mf u, none))
