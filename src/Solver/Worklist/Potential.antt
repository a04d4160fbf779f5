-- ===== src/Solver/Worklist/Potential.antt =====
-- How far the states of a graph can still grow (`WorklistSolver::run` of
-- lib/Analysis/WorklistSolver.cpp).
use native.Mathlib.Nat.{suc-mul}
use llta.Prelude.{
  List, [], ap, arith, get_elem?, length, set, some, suc, zero, ℕ, ◌*◌, ◌+◌, ◌-◌, ◌∷◌, ◌≡◌, ◌≤◌,
}
use llta.Solver.Analysable.{AbstractAnalysable}
use llta.Solver.Graph.{Node}
use llta.Solver.Worklist.Ascent.{Ascends}

module _ (analysis : AbstractAnalysable) (ascends : Ascends analysis) where
  open analysis use {State, Instr}
  open ascends use {height, rank}

  abbrev pub potential : List (Node State) → ℕ
  potential [] = 0
  potential (n ∷ ns) = (height - rank n.state) + potential ns

  pub potential-set :
      (ns : List (Node State)) (id : ℕ) (n m : Node State)
      → get_elem? ns id ≡ some n
      → potential (set ns id m) + (height - rank n.state) ≡ potential ns + (height - rank m.state)
  potential-set [] id n m h = absurd (cc)
  potential-set (k ∷ ns) zero n m h =
      let e : k ≡ n = cc in
      let r : rank k.state ≡ rank n.state = ap (λ (x : Node State). rank x.state) e in
      rw r (omega arith)
  potential-set (k ∷ ns) (suc id) n m h = omega (arith, potential-set ns id n m h)

  pub potential_bound : (ns : List (Node State)) → potential ns ≤ length ns * height
  potential_bound [] = omega arith
  potential_bound (n ∷ ns) = omega (arith, potential_bound ns, suc-mul (length ns) height)
