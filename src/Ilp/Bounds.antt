-- ===== src/Ilp/Bounds.antt =====
-- The sums of the rows over back edges and over returns
-- (`AbstractHighsSolver::solveWCET` of lib/ILP/AbstractHighsSolver.cpp).
use native.Mathlib.Nat.{suc-mul, mul-add}
use llta.Ilp.{Column, back_terms, gained, is_back_to, lost, return_terms}
use llta.Ilp.Count.{IsPath, counts, crossings, crossings_no_column, sum_from}
use llta.Prelude.{
  List, [], arith, if◌then◌else◌, refl, suc, zero, ℕ, ◌*◌, ◌+◌, ◌-◌, ◌<◌, ◌∷◌, ◌≡◌, ◌≤◌,
}
use llta.Solver.Graph.{AbstractStateGraph}

module _ {State : Type 0} (g : AbstractStateGraph State) where
  -- The crossings of the edges into a node that have a back edge's column, and of the others.
  abbrev pub back_sum : ℕ → List ℕ → List ℕ → ℕ
  back_sum u [] path = 0
  back_sum u (p ∷ ps) path =
      (if is_back_to u (g.adjacency p) then crossings p u path else 0) + back_sum u ps path

  abbrev pub forward_sum : ℕ → List ℕ → List ℕ → ℕ
  forward_sum u [] path = 0
  forward_sum u (p ∷ ps) path =
      (if is_back_to u (g.adjacency p) then 0 else crossings p u path) + forward_sum u ps path

  pub sum_from-split :
      (u : ℕ) (ps path : List ℕ) → sum_from u ps path ≡ back_sum u ps path + forward_sum u ps path
  sum_from-split u [] path = omega arith
  sum_from-split u (p ∷ ps) path = ground (arith, sum_from-split u ps path)

  pub lost-back_terms :
      (u bound : ℕ) (ps path : List ℕ)
      → IsPath g path
      → lost (counts path) (back_terms g u bound ps) ≡ bound * back_sum u ps path
  unfolding lost back_terms
  lost-back_terms u bound [] path walk = omega arith
  lost-back_terms u bound (p ∷ ps) path walk =
      ground (arith, lost-back_terms u bound ps path walk, crossings_no_column g p u path walk)

  pub lost-return_terms :
      (landing : ℕ) (rs path : List ℕ)
      → IsPath g path
      → lost (counts path) (return_terms g landing rs) ≡ sum_from landing rs path
  unfolding lost return_terms
  lost-return_terms landing [] path walk = refl
  lost-return_terms landing (r ∷ rs) path walk =
      ground
        (arith, lost-return_terms landing rs path walk, crossings_no_column g r landing path walk)

  pub gained-return_terms :
      (landing : ℕ) (rs : List ℕ) (x : Column → ℕ) → gained x (return_terms g landing rs) ≡ 0
  unfolding gained return_terms
  gained-return_terms landing [] x = refl
  gained-return_terms landing (r ∷ rs) x = ground (arith, gained-return_terms landing rs x)

-- A loop that runs its header at most `bound` times for each entry keeps the row of the loop.
pub loop_bound_lem :
    (bound back forward : ℕ)
    → 0 < bound
    → back + forward ≤ bound * forward
    → bound * back ≤ (bound - 1) * (back + forward)
loop_bound_lem zero back forward pos h = omega arith
loop_bound_lem (suc b) back forward pos h =
    let e : suc b - 1 ≡ b = omega arith in
    rw e (omega (arith, suc-mul b back, suc-mul b forward, mul-add b back forward))
