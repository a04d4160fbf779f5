-- ===== src/Solver/Worklist/Initial.antt =====
-- The graph and the queue that the solver starts from (`initializeGraph` of
-- lib/Analysis/WorklistSolver.cpp).
use llta.Prelude.{
  Bool, Bool-cases, List, Option, Option-cases, [], append_origin, arith, false, get_elem?, inl,
  inr, length, none, refl, set_origin, some, subst, suc, true, ℕ, ◌==◌, ◌∷◌, ◌≡◌,
}
use llta.Solver.Analysable.{AbstractAnalysable}
use llta.Solver.Graph.{
  AbstractStateGraph, IsConsistent, Node, add_edge, add_node, empty_graph, get_node, mem_edge,
  mem_id, new_node, set_node,
}
use llta.Solver.Graph.Edges.{add_edge-IsConsistent}
use llta.Solver.Worklist.{
  LoopInfo, MachineFunction, add_to_worklist, connect, connect_block, create_node, create_nodes,
  enter, initialize_graph, is_back, mark_entry, mark_exit, mark_exits, mark_header,
}
use llta.Solver.Worklist.Fixpoint.{IsUntouched}
use llta.Solver.Worklist.Queue.{IsQueue, add_to_worklist-IsQueue}

module _ (analysis : AbstractAnalysable) where
  open analysis use {State, Instr, initial_state, equals, join}

  module _ (mf : MachineFunction Instr) where
    -- Every node is as it was made, and both views of the edges agree.
    pub record IsFresh (g : AbstractStateGraph State) : Type 0 where
      pub untouched :
          (id : ℕ) (n : Node State) → get_elem? g.nodes id ≡ some n → IsUntouched analysis mf n
      pub numbered : (id : ℕ) (n : Node State) → get_elem? g.nodes id ≡ some n → n.block ≡ some id
      pub consistent : IsConsistent g

    empty-IsFresh : IsFresh empty_graph
    unfolding mem_edge mem_id
    empty-IsFresh = record {
      untouched = λ id n h. cc;
      numbered = λ id n h. cc;
      consistent = λ u v. refl;
    }

    set_node-IsFresh :
        (g : AbstractStateGraph State) (id : ℕ) (m : Node State)
        → IsUntouched analysis mf m
        → m.block ≡ some id
        → IsFresh g
        → IsFresh (set_node g id m)
    unfolding set_node
    set_node-IsFresh g id m u b f = record {
      untouched = λ j n h. elim (set_origin g.nodes id j m n h) [
        | inl old ↦ f.untouched j n old
        | inr (_, new) ↦ subst (IsUntouched analysis mf) new u
      ];
      numbered = λ j n h. elim (set_origin g.nodes id j m n h) [
        | inl old ↦ f.numbered j n old
        | inr (place, new) ↦ rw (← new, place) b
      ];
      consistent = f.consistent;
    }

    add_node-IsFresh :
        (g : AbstractStateGraph State)
        → IsFresh g
        → IsFresh (add_node g initial_state (some (length g.nodes))).0
    unfolding add_node
    add_node-IsFresh g f = record {
      untouched = λ j n h.
          elim (append_origin g.nodes j (new_node initial_state (some (length g.nodes))) n h) [
            | inl old ↦ f.untouched j n old
            | inr (_, new) ↦
                subst (IsUntouched analysis mf) new (record { cold = refl; free = refl })
          ];
      numbered = λ j n h.
          elim (append_origin g.nodes j (new_node initial_state (some (length g.nodes))) n h) [
            | inl old ↦ f.numbered j n old
            | inr (place, new) ↦ rw (← new, place)
          ];
      consistent = f.consistent;
    }

    mark_header-IsUntouched :
        (loops : Option LoopInfo) (bounds : Option (ℕ → Option ℕ)) (id : ℕ) (n : Node State)
        → IsUntouched analysis mf n
        → IsUntouched analysis mf (mark_header analysis loops bounds id n)
    unfolding mark_header
    mark_header-IsUntouched none bounds id n u = u
    mark_header-IsUntouched (some l) none id n u = u
    mark_header-IsUntouched (some l) (some b) id n u = elim (Option-cases (l id)) [
      | inl outside ↦ rw (outside, mark_header) u
      | inr (h, inside) ↦ elim (Bool-cases (h == id)) [
        | inl header ↦
            rw (inside, mark_header) (rw header (record { cold = u.cold; free = u.free }))
        | inr other ↦ rw (inside, mark_header) (rw other u)
      ]
    ]

    block-mark_header :
        (loops : Option LoopInfo) (bounds : Option (ℕ → Option ℕ)) (id : ℕ) (n : Node State)
        → (mark_header analysis loops bounds id n).block ≡ n.block
    unfolding mark_header
    block-mark_header none bounds id n = refl
    block-mark_header (some l) none id n = refl
    block-mark_header (some l) (some b) id n = ground arith

    create_node-IsFresh :
        (loops : Option LoopInfo) (bounds : Option (ℕ → Option ℕ)) (g : AbstractStateGraph State)
        → IsFresh g
        → IsFresh (create_node analysis loops bounds g)
    unfolding create_node
    create_node-IsFresh loops bounds g f =
        let (g', id) = add_node g initial_state (some (length g.nodes)) in
        set_node-IsFresh g' id
          (mark_header analysis loops bounds id (new_node initial_state (some id)))
          (mark_header-IsUntouched loops bounds id (new_node initial_state (some id))
            (record { cold = refl; free = refl }))
          (block-mark_header loops bounds id (new_node initial_state (some id)))
          (add_node-IsFresh g f)

    create_nodes-IsFresh :
        (loops : Option LoopInfo) (bounds : Option (ℕ → Option ℕ)) (g : AbstractStateGraph State)
        (blocks : MachineFunction Instr)
        → IsFresh g
        → IsFresh (create_nodes analysis loops bounds g blocks)
    unfolding create_nodes
    create_nodes-IsFresh loops bounds g [] f = f
    create_nodes-IsFresh loops bounds g (b ∷ blocks) f =
        create_nodes-IsFresh loops bounds (create_node analysis loops bounds g) blocks
          (create_node-IsFresh loops bounds g f)

    add_edge-IsFresh :
        (g : AbstractStateGraph State) (from to : ℕ) (back : Bool)
        → IsFresh g
        → IsFresh (add_edge g from to back)
    add_edge-IsFresh g from to back f = record {
      untouched = unfold add_edge in f.untouched;
      numbered = unfold add_edge in f.numbered;
      consistent = add_edge-IsConsistent g from to back f.consistent;
    }

    connect_block-IsFresh :
        (loops : Option LoopInfo) (g : AbstractStateGraph State) (from : ℕ) (succs : List ℕ)
        → IsFresh g
        → IsFresh (connect_block analysis loops g from succs)
    unfolding connect_block
    connect_block-IsFresh loops g from [] f = f
    connect_block-IsFresh loops g from (to ∷ succs) f =
        connect_block-IsFresh loops (add_edge g from to (is_back analysis loops from to)) from succs
          (add_edge-IsFresh g from to (is_back analysis loops from to) f)

    connect-IsFresh :
        (loops : Option LoopInfo) (g : AbstractStateGraph State) (from : ℕ)
        (blocks : MachineFunction Instr)
        → IsFresh g
        → IsFresh (connect analysis loops g from blocks)
    unfolding connect
    connect-IsFresh loops g from [] f = f
    connect-IsFresh loops g from (b ∷ blocks) f =
        connect-IsFresh loops (connect_block analysis loops g from b.succs) (suc from) blocks
          (connect_block-IsFresh loops g from b.succs f)

    mark_exit-IsFresh :
        (g : AbstractStateGraph State) (id : ℕ) (is_return : Bool)
        → IsFresh g
        → IsFresh (mark_exit analysis g id is_return)
    unfolding mark_exit get_node
    mark_exit-IsFresh g id is_return f = elim (Option-cases (get_elem? g.nodes id)) [
      | inl gone ↦ rw (gone, mark_exit) f
      | inr (n, there) ↦
          let u = f.untouched id n there in
          rw (there, mark_exit)
            (elim (Bool-cases is_return) [
              | inl returns ↦ rw returns (
                  set_node-IsFresh g id (record n { is_exit = true })
                    (record { cold = u.cold; free = u.free }) (f.numbered _ n there) f)
              | inr goes_on ↦ rw goes_on f
            ])
    ]

    mark_exits-IsFresh :
        (g : AbstractStateGraph State) (id : ℕ) (blocks : MachineFunction Instr)
        → IsFresh g
        → IsFresh (mark_exits analysis g id blocks)
    unfolding mark_exits
    mark_exits-IsFresh g id [] f = f
    mark_exits-IsFresh g id (b ∷ blocks) f =
        mark_exits-IsFresh (mark_exit analysis g id b.is_return) (suc id) blocks
          (mark_exit-IsFresh g id b.is_return f)

    mark_entry-IsFresh :
        (g : AbstractStateGraph State) → IsFresh g → IsFresh (mark_entry analysis g)
    unfolding mark_entry get_node
    mark_entry-IsFresh g f = elim (Option-cases (get_elem? g.nodes 0)) [
      | inl gone ↦ rw (gone, mark_entry) f
      | inr (n, there) ↦
          let u = f.untouched 0 n there in
          rw (there, mark_entry)
            (set_node-IsFresh g 0 (record n { is_entry = true })
              (record { cold = u.cold; free = u.free }) (f.numbered _ n there) f)
    ]

    empty-IsQueue :
        (g : AbstractStateGraph State)
        → IsQueue (record { graph = g; worklist = []; in_worklist = λ _. false })
    unfolding mem_id
    empty-IsQueue g = record { members = λ id. refl; distinct = tt }

    enter-IsFresh :
        (blocks : MachineFunction Instr) (g : AbstractStateGraph State)
        → IsFresh g
        → IsFresh (enter analysis blocks g).graph × IsQueue (enter analysis blocks g)
    unfolding enter
    enter-IsFresh [] g f = (f, empty-IsQueue g)
    enter-IsFresh (_ ∷ _) g f = (
      unfold add_to_worklist in mark_entry-IsFresh g f,
      add_to_worklist-IsQueue _ 0 (empty-IsQueue (mark_entry analysis g)),
    )

    -- The solver starts from untouched nodes and a queue that holds at most the entry block.
    pub initialize_graph-IsFresh :
        (loops : Option LoopInfo) (bounds : Option (ℕ → Option ℕ))
        → IsFresh (initialize_graph analysis loops bounds mf).graph
          × IsQueue (initialize_graph analysis loops bounds mf)
    unfolding initialize_graph
    initialize_graph-IsFresh loops bounds =
        let g = connect analysis loops (create_nodes analysis loops bounds empty_graph mf) 0 mf in
        let (fresh, queue) = enter-IsFresh mf g (
          connect-IsFresh loops (create_nodes analysis loops bounds empty_graph mf) 0 mf
            (create_nodes-IsFresh loops bounds empty_graph mf empty-IsFresh)) in
        (
          mark_exits-IsFresh (enter analysis mf g).graph 0 mf fresh,
          record { members = queue.members; distinct = queue.distinct },
        )
