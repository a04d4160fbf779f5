-- ===== src/Solver/Analysable.antt =====
-- The interface of an abstract analysis (include/Analysis/AbstractAnalysable.h and
-- include/Analysis/AbstractState.h). A state is a value: `clone` is the identity, and the operations
-- that change a state return the new one. The text form of a state is left out.
use llta.Prelude.{ℕ, Bool, List, [], ◌∷◌, ◌+◌, ◌%◌, ◌^◌}

pub record AbstractAnalysable : Type 1 where
  pub State : Type 0
  pub Instr : Type 0
  pub initial_state : State
  -- the new state and the cost
  pub process : State → Instr → State × ℕ
  pub equals : State → State → Bool
  -- the joined state and whether it changed
  pub join : State → State → State × Bool

module _ (analysis : AbstractAnalysable) where
  open analysis use {State, Instr, process}

  -- The loop over the instructions of a block, with the cost so far; costs are 32-bit unsigned.
  unfoldable pub process_block : State → ℕ → List Instr → State × ℕ
  process_block s cost [] = (s, cost)
  process_block s cost (i ∷ is) =
      let (s', c) = process s i in process_block s' ((cost + c) % 2 ^ 32) is
