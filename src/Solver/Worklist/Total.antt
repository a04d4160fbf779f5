-- ===== src/Solver/Worklist/Total.antt =====
-- The worklist algorithm ends (`WorklistSolver::run` of lib/Analysis/WorklistSolver.cpp).
use native.Mathlib.Nat.{mul-le-mul_right}
use llta.Prelude.{
  Option, [], ap, arith, get_elem?, inl, inr, length, refl, some, subst, suc, sym, true, zero, ℕ,
  ◌*◌, ◌+◌, ◌∷◌, ◌≡◌, ◌≤◌,
}
use llta.Solver.Analysable.{AbstractAnalysable}
use llta.Solver.Graph.{AbstractStateGraph, Node}
use llta.Solver.Worklist.{
  LoopInfo, MachineFunction, WorklistSolver, add_to_worklist, enter, initialize_graph, run, solve,
  transfer, visit,
}
use llta.Solver.Worklist.Ascent.{AllKnown, Ascends}
use llta.Solver.Worklist.Climb.{Climbs, LeGraph-refl, remaining, visit_step}
use llta.Solver.Worklist.Degree.{degree, initialize_graph-degree}
use llta.Solver.Worklist.Fixpoint.{Inv, Settled}
use llta.Solver.Worklist.Initial.{IsFresh, initialize_graph-IsFresh}
use llta.Solver.Worklist.Mono.{transfer-mono}
use llta.Solver.Worklist.Potential.{potential, potential_bound}
use llta.Solver.Worklist.Queue.{popped, take_cases}
use llta.Solver.Worklist.Run.{empty-Settled, initial-Inv, round-Inv}
use llta.Solver.Worklist.Shape.{initialize_graph-shape}

waiting_bound :
    (analysis : AbstractAnalysable) (mf : MachineFunction analysis.Instr) (loops : Option LoopInfo)
    (bounds : Option (ℕ → Option ℕ))
    → length (initialize_graph analysis loops bounds mf).worklist ≤ 1
unfolding initialize_graph enter add_to_worklist
waiting_bound analysis [] loops bounds = omega arith
waiting_bound analysis (b ∷ mf) loops bounds = omega arith

module _ (analysis : AbstractAnalysable) (ascends : Ascends analysis) where
  open analysis use {State, Instr, initial_state, equals}
  open ascends use {Valid, Le, initial_least, initial_valid, height}

  module _ (mf : MachineFunction Instr) (known : AllKnown ascends mf)
      (equals_refl : (s : State) → equals s s ≡ true) where
    fresh-Climbs :
        (g : AbstractStateGraph State) → IsFresh analysis mf g → Climbs analysis ascends mf known g
    fresh-Climbs g f =
        let valid : (id : ℕ) (n : Node State) → get_elem? g.nodes id ≡ some n → Valid n.state =
          λ id n h. subst Valid (sym (f.untouched id n h).cold) initial_valid in
        record {
          valid = valid;
          below_transfer = λ id n h.
              let reached =
                (transfer-mono analysis ascends mf g g id n.block known refl
                  (LeGraph-refl analysis ascends mf known g valid)).0 in
              rw ((f.untouched id n h).cold)
                (initial_least (transfer analysis mf g id n.block).0 reached);
        }

    solve-total :
        (fuel bound : ℕ) (s : WorklistSolver State)
        → Inv analysis mf s
        → Climbs analysis ascends mf known s.graph
        → ((u : ℕ) → length (s.graph.adjacency u) ≤ bound)
        → remaining analysis ascends mf known bound s ≤ fuel
        → (t : WorklistSolver State) × (solve analysis fuel mf s ≡ some t)
          × Inv analysis mf t
          × (t.worklist ≡ [])
    unfolding solve
    solve-total zero bound s inv c few enough = elim (take_cases s) [
      | inl (empty, taken) ↦ (s, rw (taken, solve) refl, inv, empty)
      | inr (id, rest, front, taken) ↦
          let size : length s.worklist ≡ suc (length rest) = ap length front in
          absurd (omega (arith, size, enough))
    ]
    solve-total (suc fuel) bound s inv c few enough = elim (take_cases s) [
      | inl (empty, taken) ↦ (s, rw (taken, solve) refl, inv, empty)
      | inr (id, rest, front, taken) ↦
          let size : length s.worklist ≡ suc (length rest) = ap length front in
          let left : WorklistSolver State = popped s id rest in
          let (c', same, less) = visit_step analysis ascends mf known left id bound c (few id) in
          let (t, found, inv', empty) =
            solve-total fuel bound (visit analysis mf left id)
              (round-Inv analysis mf equals_refl s id rest front inv) c' (λ u. rw same (few u))
              (omega (arith, size, less, enough)) in
          (t, rw (taken, solve) found, inv', empty)
    ]

    -- For an analysis whose states have finite height and whose operations are monotone, the run over
    -- a machine function ends: as many rounds as the nodes times the height times one more than the
    -- edges, and one, are enough. Every node then holds the state and the cost that its block gives
    -- for the joined states of its predecessors, or nothing fed it: it is as it was made, it is not the
    -- entry block, and its predecessors hold the initial state. A state must equal itself.
    pub run-total :
        (loops : Option LoopInfo) (bounds : Option (ℕ → Option ℕ))
        → (t : WorklistSolver State) × (run analysis
              (length mf * height * suc (degree mf) + 1)
              loops
              bounds
              mf
            ≡ some t)
          × ((id : ℕ) → Settled analysis mf t.graph id)
    unfolding run
    run-total loops bounds =
        let s : WorklistSolver State = initialize_graph analysis loops bounds mf in
        let (fresh, _) = initialize_graph-IsFresh analysis mf loops bounds in
        let (size, _) = initialize_graph-shape analysis loops bounds mf in
        let cap : potential analysis ascends s.graph.nodes ≤ length mf * height =
          subst (λ (k : ℕ). potential analysis ascends s.graph.nodes ≤ k * height) size
            (potential_bound analysis ascends s.graph.nodes) in
        let front : length s.worklist ≤ 1 = waiting_bound analysis mf loops bounds in
        let (t, found, inv, empty) =
          solve-total (length mf * height * suc (degree mf) + 1) (degree mf) s
            (initial-Inv analysis mf loops bounds) (fresh-Climbs s.graph fresh)
            (initialize_graph-degree analysis loops bounds mf)
            (omega (arith, mul-le-mul_right (suc (degree mf)) cap, front)) in
        (t, found, empty-Settled analysis mf equals_refl t inv empty)
