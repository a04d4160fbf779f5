-- ===== src/Solver/Worklist/Shape.antt =====
-- The nodes and the edges of the graph that `initializeGraph` builds
-- (lib/Analysis/WorklistSolver.cpp).
use llta.Prelude.{
  Bool, List, Option, Option-cases, [], ap, arith, false, get_elem?, inl, inr, length,
  length-append, length-set, refl, some, suc, true, ℕ, ◌++◌, ◌+◌, ◌||◌, ◌∙◌, ◌∷◌, ◌≡◌,
}
use llta.Solver.Analysable.{AbstractAnalysable}
use llta.Solver.Graph.{
  AbstractStateGraph, Node, add_edge, add_node, empty_graph, get_node, mem_id, new_node, set_node,
}
use llta.Solver.Worklist.{
  LoopInfo, MachineFunction, add_to_worklist, connect, connect_block, create_node, create_nodes,
  enter, initialize_graph, is_back, mark_entry, mark_exit, mark_exits, mark_header,
}

-- Some block has the successor.
abbrev pub reaches : ℕ → {Instr : Type 0} → MachineFunction Instr → Bool
reaches to [] = false
reaches to (b ∷ blocks) = mem_id to b.succs || reaches to blocks

module _ (analysis : AbstractAnalysable) where
  open analysis use {State, Instr, initial_state}

  length-set_node :
      (g : AbstractStateGraph State) (id : ℕ) (m : Node State)
      → length (set_node g id m).nodes ≡ length g.nodes
  unfolding set_node
  length-set_node g id m = length-set g.nodes id m

  length-create_nodes :
      (loops : Option LoopInfo) (bounds : Option (ℕ → Option ℕ)) (g : AbstractStateGraph State)
      (blocks : MachineFunction Instr)
      → length (create_nodes analysis loops bounds g blocks).nodes ≡ length g.nodes + length blocks
  unfolding create_nodes create_node add_node
  length-create_nodes loops bounds g [] = omega arith
  length-create_nodes loops bounds g (b ∷ blocks) =
      let id = length g.nodes in
      let node = new_node initial_state (some id) in
      let g' : AbstractStateGraph State = record g { nodes = g.nodes ++ node ∷ [] } in
      omega (
        arith,
        length-create_nodes loops bounds (create_node analysis loops bounds g) blocks,
        length-set_node g' id (mark_header analysis loops bounds id node),
        length-append g.nodes (node ∷ []),
      )

  nodes-connect_block :
      (loops : Option LoopInfo) (g : AbstractStateGraph State) (from : ℕ) (succs : List ℕ)
      → (connect_block analysis loops g from succs).nodes ≡ g.nodes
  unfolding connect_block add_edge
  nodes-connect_block loops g from [] = refl
  nodes-connect_block loops g from (to ∷ succs) =
      nodes-connect_block loops (add_edge g from to (is_back analysis loops from to)) from succs

  nodes-connect :
      (loops : Option LoopInfo) (g : AbstractStateGraph State) (from : ℕ)
      (blocks : MachineFunction Instr)
      → (connect analysis loops g from blocks).nodes ≡ g.nodes
  unfolding connect
  nodes-connect loops g from [] = refl
  nodes-connect loops g from (b ∷ blocks) =
      nodes-connect loops (connect_block analysis loops g from b.succs) (suc from) blocks
      ∙ nodes-connect_block loops g from b.succs

  preds-connect_block :
      (loops : Option LoopInfo) (g : AbstractStateGraph State) (from : ℕ) (succs : List ℕ) (to : ℕ)
      → mem_id to succs ≡ false
      → (connect_block analysis loops g from succs).preds to ≡ g.preds to
  unfolding connect_block add_edge mem_id
  preds-connect_block loops g from [] to h = refl
  preds-connect_block loops g from (v ∷ succs) to h = ground (
    arith,
    preds-connect_block loops (add_edge g from v (is_back analysis loops from v)) from succs to,
  )

  -- A block that no block has as a successor gets no predecessor.
  preds-connect :
      (loops : Option LoopInfo) (g : AbstractStateGraph State) (from : ℕ)
      (blocks : MachineFunction Instr) (to : ℕ)
      → reaches to blocks ≡ false
      → (connect analysis loops g from blocks).preds to ≡ g.preds to
  unfolding connect
  preds-connect loops g from [] to h = refl
  preds-connect loops g from (b ∷ blocks) to h =
      preds-connect loops (connect_block analysis loops g from b.succs) (suc from) blocks to
        (ground arith)
      ∙ preds-connect_block loops g from b.succs to (ground arith)

  preds-create_nodes :
      (loops : Option LoopInfo) (bounds : Option (ℕ → Option ℕ)) (g : AbstractStateGraph State)
      (blocks : MachineFunction Instr)
      → (create_nodes analysis loops bounds g blocks).preds ≡ g.preds
  unfolding create_nodes create_node add_node set_node
  preds-create_nodes loops bounds g [] = refl
  preds-create_nodes loops bounds g (b ∷ blocks) =
      preds-create_nodes loops bounds (create_node analysis loops bounds g) blocks

  mark_exit-keeps :
      (g : AbstractStateGraph State) (id : ℕ) (r : Bool)
      → ((mark_exit analysis g id r).preds ≡ g.preds)
        × (length (mark_exit analysis g id r).nodes ≡ length g.nodes)
  unfolding mark_exit get_node set_node
  mark_exit-keeps g id r = elim (Option-cases (get_elem? g.nodes id)) [
    | inl gone ↦ ground arith
    | inr (n, there) ↦ ground (arith, length-set g.nodes id (record n { is_exit = true }))
  ]

  mark_exits-keeps :
      (g : AbstractStateGraph State) (id : ℕ) (blocks : MachineFunction Instr)
      → ((mark_exits analysis g id blocks).preds ≡ g.preds)
        × (length (mark_exits analysis g id blocks).nodes ≡ length g.nodes)
  unfolding mark_exits
  mark_exits-keeps g id [] = (refl, refl)
  mark_exits-keeps g id (b ∷ blocks) =
      let rest = mark_exits-keeps (mark_exit analysis g id b.is_return) (suc id) blocks in
      let one = mark_exit-keeps g id b.is_return in (rest.0 ∙ one.0, rest.1 ∙ one.1)

  mark_entry-keeps :
      (g : AbstractStateGraph State)
      → ((mark_entry analysis g).preds ≡ g.preds)
        × (length (mark_entry analysis g).nodes ≡ length g.nodes)
  unfolding mark_entry get_node set_node
  mark_entry-keeps g = elim (Option-cases (get_elem? g.nodes 0)) [
    | inl gone ↦ ground arith
    | inr (n, there) ↦ ground (arith, length-set g.nodes 0 (record n { is_entry = true }))
  ]

  enter-keeps :
      (blocks : MachineFunction Instr) (g : AbstractStateGraph State)
      → ((enter analysis blocks g).graph.preds ≡ g.preds)
        × (length (enter analysis blocks g).graph.nodes ≡ length g.nodes)
  unfolding enter add_to_worklist
  enter-keeps [] g = (refl, refl)
  enter-keeps (b ∷ blocks) g = mark_entry-keeps g

  module _ (loops : Option LoopInfo) (bounds : Option (ℕ → Option ℕ))
      (mf : MachineFunction Instr) where
    -- One node for each block, and no predecessor for an entry that no block jumps to.
    pub initialize_graph-shape :
        (length (initialize_graph analysis loops bounds mf).graph.nodes ≡ length mf)
        × ((to : ℕ)
            → reaches to mf ≡ false
            → (initialize_graph analysis loops bounds mf).graph.preds to ≡ [])
    unfolding initialize_graph
    initialize_graph-shape =
        let made = create_nodes analysis loops bounds empty_graph mf in
        let g = connect analysis loops made 0 mf in
        let entered = enter-keeps mf g in
        let marked = mark_exits-keeps (enter analysis mf g).graph 0 mf in
        (
          marked.1
              ∙ entered.1
              ∙ ap length (nodes-connect loops made 0 mf)
              ∙ length-create_nodes loops bounds empty_graph mf
              ∙ omega arith,
          λ to h.
              ap (λ (f : ℕ → List ℕ). f to) (marked.0 ∙ entered.0)
              ∙ preds-connect loops made 0 mf to h
              ∙ ap (λ (f : ℕ → List ℕ). f to) (preds-create_nodes loops bounds empty_graph mf),
        )
