-- ===== src/Solver/Worklist/Run.antt =====
-- What a run of the worklist algorithm leaves (`WorklistSolver::run` of
-- lib/Analysis/WorklistSolver.cpp).
use llta.Prelude.{
  List, Option, [], ap, arith, false, get_elem?, inr, length, lt-length_of_get_elem?, refl, some,
  true, ℕ, ◌==◌, ◌∙◌, ◌∷◌, ◌≡◌,
}
use llta.Solver.Analysable.{AbstractAnalysable}
use llta.Solver.Graph.{AbstractStateGraph, Node, empty_graph, mem_id}
use llta.Solver.Worklist.{
  LoopInfo, MachineFunction, WorklistSolver, add_to_worklist, connect, create_nodes, enter,
  initialize_graph, visit,
}
use llta.Solver.Worklist.Fixpoint.{Inv, Settled, visit-Inv}
use llta.Solver.Worklist.Initial.{IsFresh, initialize_graph-IsFresh}
use llta.Solver.Worklist.Queue.{popped, popped-IsQueue}
use llta.Solver.Worklist.Shape.{initialize_graph-shape}

module _ (analysis : AbstractAnalysable) where
  open analysis use {State, Instr, initial_state, equals, join}

  module _ (mf : MachineFunction Instr) (equals_refl : (s : State) → equals s s ≡ true) where
    -- A round keeps the invariant: when the front of the queue is taken and visited, every node that
    -- does not wait still holds what its block gives for the joined states of its predecessors, or is as
    -- it was made, is not the entry block and has predecessors in the initial state. Both views of the
    -- edges still agree, and the set of the nodes that wait is that of the queue, which holds none
    -- twice. A state must equal itself.
    pub round-Inv :
        (s : WorklistSolver State) (id : ℕ) (rest : List ℕ)
        → s.worklist ≡ id ∷ rest
        → Inv analysis mf s
        → Inv analysis mf (visit analysis mf (popped s id rest) id)
    round-Inv s id rest front inv =
        visit-Inv analysis mf equals_refl (popped s id rest) id inv.consistent
          (popped-IsQueue s id rest front inv.queue)
          (λ j other free. inv.settled j (rw other at free))

    pub empty-Settled :
        (s : WorklistSolver State)
        → Inv analysis mf s
        → s.worklist ≡ []
        → (id : ℕ) → Settled analysis mf s.graph id
    empty-Settled s inv empty id =
        inv.settled id (inv.queue.members id ∙ rw empty (unfold mem_id in refl))

  -- The queue that a function starts with: its entry block, if it has one.
  abbrev pub first_queue : MachineFunction Instr → List ℕ
  first_queue [] = []
  first_queue (_ ∷ _) = 0 ∷ []

  enter-queue :
      (mf : MachineFunction Instr) (g : AbstractStateGraph State)
      → (enter analysis mf g).worklist ≡ first_queue mf
  unfolding enter add_to_worklist
  enter-queue [] g = refl
  enter-queue (b ∷ mf) g = refl

  initialize_graph-queue :
      (loops : Option LoopInfo) (bounds : Option (ℕ → Option ℕ)) (mf : MachineFunction Instr)
      → (initialize_graph analysis loops bounds mf).worklist ≡ first_queue mf
  unfolding initialize_graph
  initialize_graph-queue loops bounds mf =
      enter-queue mf
        (connect analysis loops (create_nodes analysis loops bounds empty_graph mf) 0 mf)

  -- The solver starts with a node for each block, every node as it was made and under the number of
  -- its block, with both views of the edges in agreement, and with a queue that holds the entry block
  -- and nothing else, or nothing where the function has no block; the set of the nodes that wait is
  -- that of the queue.
  pub initialize_graph_lem :
      (loops : Option LoopInfo) (bounds : Option (ℕ → Option ℕ)) (mf : MachineFunction Instr)
      → (length (initialize_graph analysis loops bounds mf).graph.nodes ≡ length mf)
        × IsFresh analysis mf (initialize_graph analysis loops bounds mf).graph
        × ((initialize_graph analysis loops bounds mf).worklist ≡ first_queue mf)
        × ((id : ℕ)
            → (initialize_graph analysis loops bounds mf).in_worklist id
              ≡ mem_id id (first_queue mf))
  initialize_graph_lem loops bounds mf =
      let (size, _) = initialize_graph-shape analysis loops bounds mf in
      let (fresh, queue) = initialize_graph-IsFresh analysis mf loops bounds in
      let first : (initialize_graph analysis loops bounds mf).worklist ≡ first_queue mf =
        initialize_graph-queue loops bounds mf in
      (size, fresh, first, λ id. queue.members id ∙ ap (mem_id id) first)

  initial-not_entry :
      (loops : Option LoopInfo) (bounds : Option (ℕ → Option ℕ)) (mf : MachineFunction Instr)
      (id : ℕ) (n : Node State)
      → (initialize_graph analysis loops bounds mf).in_worklist id ≡ false
      → get_elem? (initialize_graph analysis loops bounds mf).graph.nodes id ≡ some n
      → (id == 0) ≡ false
  unfolding mem_id
  initial-not_entry loops bounds [] id n free there =
      let (size, _, _, _) = initialize_graph_lem loops bounds [] in
      let some_node = lt-length_of_get_elem? _ id n there in absurd (omega (arith, size, some_node))
  initial-not_entry loops bounds (b ∷ mf) id n free there =
      let (_, _, _, waits) = initialize_graph_lem loops bounds (b ∷ mf) in
      let w = waits id in ground (arith, w, free)

  -- The solver starts with the invariant: the entry block waits, and nothing feeds the other nodes.
  pub initial-Inv :
      (mf : MachineFunction Instr) (loops : Option LoopInfo) (bounds : Option (ℕ → Option ℕ))
      → Inv analysis mf (initialize_graph analysis loops bounds mf)
  initial-Inv mf loops bounds =
      let (fresh, queue) = initialize_graph-IsFresh analysis mf loops bounds in
      record {
        consistent = fresh.consistent;
        queue = queue;
        settled = λ id free n there. inr (
          fresh.untouched id n there,
          record {
            not_entry = initial-not_entry loops bounds mf id n free there;
            cold_preds = λ p q reads found. (fresh.untouched p q found).cold;
          },
        );
      }
