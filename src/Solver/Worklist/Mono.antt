-- ===== src/Solver/Worklist/Mono.antt =====
-- Larger states at the predecessors give a larger transfer (`WorklistSolver::run` of
-- lib/Analysis/WorklistSolver.cpp).
use llta.Prelude.{List, Option, [], none, some, ℕ, ◌∷◌, ◌≡◌}
use llta.Solver.Analysable.{AbstractAnalysable}
use llta.Solver.Graph.{AbstractStateGraph}
use llta.Solver.Worklist.{MachineFunction, in_state, join_preds, transfer}
use llta.Solver.Worklist.Ascent.{AllKnown, Ascends, process_node-Valid, process_node-mono}
use llta.Solver.Worklist.Transfer.{join_preds-cons, merge_state, state_of}

module _ (analysis : AbstractAnalysable) (ascends : Ascends analysis) where
  open analysis use {State, Instr, initial_state, equals, join}
  open ascends use {Valid, Known, Le, le_refl, initial_least, initial_valid, join_valid, join_mono}

  -- Both states are there and the second is the larger one, or none is.
  abbrev pub LeOption : Option State → Option State → Type 0
  LeOption none none = Unit
  LeOption none (some t) = ⊥
  LeOption (some s) none = ⊥
  LeOption (some s) (some t) = Valid s × Valid t × Le s t

  merge_state_mono :
      (a b x y : Option State)
      → LeOption a b
      → LeOption x y
      → LeOption (merge_state analysis a x) (merge_state analysis b y)
  merge_state_mono a b none none h k = h
  merge_state_mono a b none (some y) h k = absurd k
  merge_state_mono a b (some x) none h k = absurd k
  merge_state_mono none none (some x) (some y) h k = k
  merge_state_mono none (some b) (some x) (some y) h k = absurd h
  merge_state_mono (some a) none (some x) (some y) h k = absurd h
  merge_state_mono (some a) (some b) (some x) (some y) h k =
      (join_valid a x h.0 k.0, join_valid b y h.1 k.1, join_mono a x b y h.0 k.0 h.1 k.1 h.2 k.2)

  -- Every state of the second graph is the larger one.
  abbrev pub LeGraph : AbstractStateGraph State → AbstractStateGraph State → Type 0
  LeGraph g g' = (p : ℕ) → LeOption (state_of analysis g p) (state_of analysis g' p)

  join_preds_mono :
      (g g' : AbstractStateGraph State) (a b : Option State) (ps : List ℕ)
      → LeGraph g g'
      → LeOption a b
      → LeOption (join_preds analysis g a ps) (join_preds analysis g' b ps)
  join_preds_mono g g' a b [] rel h = unfold join_preds in h
  join_preds_mono g g' a b (p ∷ ps) rel h =
      rw (join_preds-cons analysis g a p ps, join_preds-cons analysis g' b p ps)
        (join_preds_mono g g' (merge_state analysis a (state_of analysis g p))
          (merge_state analysis b (state_of analysis g' p)) ps rel
          (merge_state_mono a b (state_of analysis g p) (state_of analysis g' p) h (rel p)))

  abbrev or_initial : Option State → State
  or_initial none = initial_state
  or_initial (some s) = s

  or_initial-mono :
      (a b : Option State)
      → LeOption a b
      → Valid (or_initial a) × Valid (or_initial b) × Le (or_initial a) (or_initial b)
  or_initial-mono none none h = (initial_valid, initial_valid, le_refl initial_state)
  or_initial-mono none (some b) h = absurd h
  or_initial-mono (some a) none h = absurd h
  or_initial-mono (some a) (some b) h = h

  in_state-mono :
      (g g' : AbstractStateGraph State) (id : ℕ)
      → g'.preds id ≡ g.preds id
      → LeGraph g g'
      → Valid (in_state analysis g id)
        × Valid (in_state analysis g' id)
        × Le (in_state analysis g id) (in_state analysis g' id)
  unfolding in_state
  in_state-mono g g' id e rel =
      let joined : LeOption (join_preds analysis g none (g.preds id))
          (join_preds analysis g' none (g'.preds id)) =
        rw e (join_preds_mono g g' none none (g.preds id) rel tt) in
      or_initial-mono (join_preds analysis g none (g.preds id))
        (join_preds analysis g' none (g'.preds id)) joined

  pub transfer-mono :
      (mf : MachineFunction Instr) (g g' : AbstractStateGraph State) (id : ℕ) (block : Option ℕ)
      → AllKnown ascends mf
      → g'.preds id ≡ g.preds id
      → LeGraph g g'
      → Valid (transfer analysis mf g id block).0
        × Valid (transfer analysis mf g' id block).0
        × Le (transfer analysis mf g id block).0 (transfer analysis mf g' id block).0
  transfer-mono mf g g' id block known e rel =
      let (v, w, le) = in_state-mono g g' id e rel in
      (
        process_node-Valid analysis ascends mf known (in_state analysis g id) block v,
        process_node-Valid analysis ascends mf known (in_state analysis g' id) block w,
        process_node-mono analysis ascends mf known (in_state analysis g id)
            (in_state analysis g' id) block v w le,
      )
