-- ===== src/Solver/Worklist/Stalled.antt =====
-- A function whose entry block leaves the initial state (`WorklistSolver::run` of
-- lib/Analysis/WorklistSolver.cpp).
use llta.Prelude.{
  Option, [], ap, arith, false, get_elem?, get_elem?-set_ne, get_elem?_of_lt, refl, some, suc, sym,
  true, zero, ℕ, ◌∙◌, ◌∷◌, ◌≡◌,
}
use llta.Solver.Analysable.{AbstractAnalysable, process_block}
use llta.Solver.Graph.{AbstractStateGraph, Node, get_node, set_node}
use llta.Solver.Worklist.{
  Block, LoopInfo, MachineFunction, WorklistSolver, add_to_worklist, enter, in_state,
  initialize_graph, join_preds, process_node, run, solve, take_from_worklist, transfer, visit,
}
use llta.Solver.Worklist.Fixpoint.{IsUntouched}
use llta.Solver.Worklist.Initial.{initialize_graph-IsFresh}
use llta.Solver.Worklist.Queue.{popped}
use llta.Solver.Worklist.Shape.{initialize_graph-shape, reaches}

module _ (analysis : AbstractAnalysable) where
  open analysis use {State, Instr, initial_state, equals}

  module _ (entry : Block Instr) (blocks : MachineFunction Instr) where
    in_state-entry :
        (g : AbstractStateGraph State) → g.preds 0 ≡ [] → in_state analysis g 0 ≡ initial_state
    unfolding in_state join_preds
    in_state-entry g none_before = rw (none_before, in_state) refl

    transfer-entry :
        (g : AbstractStateGraph State)
        → g.preds 0 ≡ []
        → transfer analysis (entry ∷ blocks) g 0 (some 0)
          ≡ process_block analysis initial_state 0 entry.instrs
    unfolding process_node
    transfer-entry g none_before =
        ap (λ (t : State). process_block analysis t 0 entry.instrs) (in_state-entry g none_before)

    pub visit-entry :
        (s : WorklistSolver State) (n : Node State)
        → get_elem? s.graph.nodes 0 ≡ some n
        → n.block ≡ some 0
        → s.graph.preds 0 ≡ []
        → equals n.state (process_block analysis initial_state 0 entry.instrs).0 ≡ true
        → visit analysis (entry ∷ blocks) s 0 ≡ record s {
          graph =
              set_node s.graph 0
                (record n { cost = (process_block analysis initial_state 0 entry.instrs).1 });
        }
    unfolding visit get_node
    visit-entry s n there place before same =
        rw (there, visit) (rw (place, transfer-entry s.graph before, same) refl)

    solve-empty :
        (s : WorklistSolver State) (fuel : ℕ)
        → s.worklist ≡ []
        → solve analysis fuel (entry ∷ blocks) s ≡ some s
    unfolding solve take_from_worklist
    solve-empty s zero empty = rw (empty, take_from_worklist) refl
    solve-empty s (suc fuel) empty = rw (empty, take_from_worklist) refl

    -- When no block jumps to the entry and the entry block leaves a state that equals the initial
    -- one, one round ends the run and every other block is as it was made: the initial state, at no
    -- cost.
    pub run-stalls :
        (loops : Option LoopInfo) (bounds : Option (ℕ → Option ℕ)) (fuel : ℕ)
        → reaches 0 (entry ∷ blocks) ≡ false
        → equals initial_state (process_block analysis initial_state 0 entry.instrs).0 ≡ true
        → (t : WorklistSolver State) × (run analysis (suc fuel) loops bounds (entry ∷ blocks)
            ≡ some t)
          × ((id : ℕ) (n : Node State)
              → get_elem? t.graph.nodes (suc id) ≡ some n
              → IsUntouched analysis (entry ∷ blocks) n)
    unfolding run solve take_from_worklist initialize_graph enter add_to_worklist
    run-stalls loops bounds fuel alone same =
        let mf : MachineFunction Instr = entry ∷ blocks in
        let s : WorklistSolver State = initialize_graph analysis loops bounds mf in
        let (fresh, _) = initialize_graph-IsFresh analysis mf loops bounds in
        let (size, before) = initialize_graph-shape analysis loops bounds mf in
        let (n, there) = get_elem?_of_lt s.graph.nodes 0 (rw size (omega arith)) in
        let cold : n.state ≡ initial_state = (fresh.untouched 0 n there).cold in
        let round =
          visit-entry (popped s 0 []) n there (fresh.numbered 0 n there) (before 0 alone)
            (rw cold same) in
        let t : WorklistSolver State = record (popped s 0 []) {
          graph =
              set_node s.graph 0
                (record n { cost = (process_block analysis initial_state 0 entry.instrs).1 });
        } in
        (
          t,
          ap (λ (u : WorklistSolver State). solve analysis fuel mf u) round
              ∙ solve-empty t fuel refl,
          λ id m at. fresh.untouched (suc id) m (
              sym (
                get_elem?-set_ne s.graph.nodes 0 (suc id)
                  (record n { cost = (process_block analysis initial_state 0 entry.instrs).1 })
                  (omega arith))
              ∙ (unfold set_node in at)),
        )
