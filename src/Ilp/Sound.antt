-- ===== src/Ilp/Sound.antt =====
-- The objective at a run, and the bound that an optimal solution gives
-- (`AbstractHighsSolver::solveWCET` of lib/ILP/AbstractHighsSolver.cpp).
use native.Mathlib.Nat.{mul-suc}
use llta.Ilp.{Calls, Column, Satisfies, objective, wcet_rows}
use llta.Ilp.Count.{counts, visits}
use llta.Ilp.Feasible.{IsProper, IsRun, run-feasible}
use llta.Prelude.{
  All, List, Option, [], arith, get_elem?, if◌then◌else◌, none, refl, some, subst, suc, zero, ℕ,
  ◌+◌, ◌<◌, ◌==◌, ◌∷◌, ◌≡◌, ◌≤◌,
}
use llta.Solver.Graph.{AbstractStateGraph, Node}
use llta.Solver.Worklist.{run}

module _ {State : Type 0} where
  abbrev node_cost : Option (Node State) → ℕ
  node_cost none = 0
  node_cost (some n) = n.cost

  -- What the nodes along a path cost together.
  abbrev pub path_cost : AbstractStateGraph State → List ℕ → ℕ
  path_cost g [] = 0
  path_cost g (u ∷ path) = node_cost (get_elem? g.nodes u) + path_cost g path

  -- The cost of a node in a list that is numbered from the first argument.
  abbrev cost_from : ℕ → ℕ → List (Node State) → ℕ
  cost_from v u [] = 0
  cost_from v u (n ∷ ns) = (if v == u then n.cost else 0) + cost_from v (suc u) ns

  cost_from_below : (v u : ℕ) (ns : List (Node State)) → v < u → cost_from v u ns ≡ 0
  cost_from_below v u [] below = refl
  cost_from_below v u (n ∷ ns) below = ground (arith, cost_from_below v (suc u) ns)

  cost_from_lem :
      (v u k : ℕ) (ns : List (Node State))
      → v ≡ u + k
      → cost_from v u ns ≡ node_cost (get_elem? ns k)
  cost_from_lem v u k [] e = refl
  cost_from_lem v u zero (n ∷ ns) e = ground (arith, cost_from_below v (suc u) ns)
  cost_from_lem v u (suc k) (n ∷ ns) e = ground (arith, cost_from_lem v (suc u) k ns)

  objective-step :
      (u v : ℕ) (path : List ℕ) (ns : List (Node State))
      → objective (counts (v ∷ path)) u ns ≡ cost_from v u ns + objective (counts path) u ns
  unfolding objective
  objective-step u v path [] = omega arith
  objective-step u v path (n ∷ ns) =
      let deeper = objective-step (suc u) v path ns in
      ground (arith, deeper, mul-suc n.cost (visits u path))

  objective-empty : (u : ℕ) (ns : List (Node State)) → objective (counts []) u ns ≡ 0
  unfolding objective
  objective-empty u [] = refl
  objective-empty u (n ∷ ns) = omega (arith, objective-empty (suc u) ns)

  -- The objective at the counts of a path is the cost of the path.
  pub objective-counts :
      (g : AbstractStateGraph State) (path : List ℕ)
      → objective (counts path) 0 g.nodes ≡ path_cost g path
  objective-counts g [] = objective-empty 0 g.nodes
  objective-counts g (v ∷ path) = omega (
    arith,
    objective-counts g path,
    objective-step 0 v path g.nodes,
    cost_from_lem v 0 v g.nodes (omega arith),
  )

  -- An optimal value of the program is at least the cost of every run: no run that keeps the loop
  -- bounds, and in which each call site of the graph is left for its callee as often as the callee
  -- returns to its landing, costs more. The solver is a parameter, and optimal
  -- means that no solution of the rows has a larger objective.
  pub wcet-bounds-runs :
      (g : AbstractStateGraph State) (calls : Calls) (wcet : ℕ)
      → IsProper g
      → ((x : Column → ℕ) → All (Satisfies x) (wcet_rows g calls) → objective x 0 g.nodes ≤ wcet)
      → (a : ℕ) (path : List ℕ) → IsRun g calls a path
      → path_cost g (a ∷ path) ≤ wcet
  wcet-bounds-runs g calls wcet proper optimal a path run =
      subst (λ (c : ℕ). c ≤ wcet) (objective-counts g (a ∷ path))
        (optimal (counts (a ∷ path)) (run-feasible g proper calls a path run))
