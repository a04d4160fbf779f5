-- ===== src/Solver/Worklist/Transfer.antt =====
-- What the transfer of a node reads: the states of its predecessors, and nothing else
-- (`WorklistSolver::run` of lib/Analysis/WorklistSolver.cpp).
use llta.Prelude.{List, Option, [], ap, arith, get_elem?, none, refl, some, true, ℕ, ◌∷◌, ◌≡◌}
use llta.Solver.Analysable.{AbstractAnalysable}
use llta.Solver.Graph.{AbstractStateGraph, get_node, mem_id}
use llta.Solver.Worklist.{MachineFunction, in_state, join_preds, process_node, transfer}

module _ (analysis : AbstractAnalysable) where
  open analysis use {State, Instr, initial_state, equals, join}

  -- The state of a node, if there is one.
  abbrev pub state_of : AbstractStateGraph State → ℕ → Option State
  state_of g p = elim (get_elem? g.nodes p) [ some n ↦ some n.state | none ↦ none ]

  abbrev pub merge_state : Option State → Option State → Option State
  merge_state acc none = acc
  merge_state none (some s) = some s
  merge_state (some a) (some s) = some (join a s).0

  pub join_preds-cons :
      (g : AbstractStateGraph State) (acc : Option State) (p : ℕ) (ps : List ℕ)
      → join_preds analysis g acc (p ∷ ps)
        ≡ join_preds analysis g (merge_state acc (state_of g p)) ps
  unfolding join_preds get_node
  join_preds-cons g acc p ps = ap (λ o. join_preds analysis g o ps) (ground arith)

  pub join_preds_congr :
      (g g' : AbstractStateGraph State) (acc : Option State) (ps : List ℕ)
      → ((p : ℕ) → mem_id p ps ≡ true → state_of g p ≡ state_of g' p)
      → join_preds analysis g acc ps ≡ join_preds analysis g' acc ps
  unfolding mem_id
  join_preds_congr g g' acc [] h = unfold join_preds in refl
  join_preds_congr g g' acc (p ∷ ps) h =
      rw (join_preds-cons g acc p ps, join_preds-cons g' acc p ps, h p (ground arith))
        (join_preds_congr g g' (merge_state acc (state_of g' p)) ps (λ q m. h q (ground arith)))

  in_state_congr :
      (g g' : AbstractStateGraph State) (id : ℕ)
      → g'.preds id ≡ g.preds id
      → ((p : ℕ) → mem_id p (g.preds id) ≡ true → state_of g p ≡ state_of g' p)
      → in_state analysis g id ≡ in_state analysis g' id
  unfolding in_state
  in_state_congr g g' id e h =
      let joined : join_preds analysis g none (g.preds id)
          ≡ join_preds analysis g' none (g'.preds id) =
        rw e (join_preds_congr g g' none (g.preds id) h) in
      ap (λ (o : Option State). elim o [ none ↦ initial_state | some s ↦ s ]) joined

  -- Two graphs with the same edges and the same states at the predecessors give the same transfer.
  pub transfer_congr :
      (mf : MachineFunction Instr) (g g' : AbstractStateGraph State) (id : ℕ) (block : Option ℕ)
      → g'.preds id ≡ g.preds id
      → ((p : ℕ) → mem_id p (g.preds id) ≡ true → state_of g p ≡ state_of g' p)
      → transfer analysis mf g id block ≡ transfer analysis mf g' id block
  transfer_congr mf g g' id block e h =
      ap (λ s. process_node analysis mf s block) (in_state_congr g g' id e h)
