-- ===== src/Ilp/Flow.antt =====
-- Flow conservation along a path (the rows of `AbstractHighsSolver::solveWCET`,
-- lib/ILP/AbstractHighsSolver.cpp).
use llta.Ilp.Count.{IsPath, sum_from, sum_to, visits}
use llta.Prelude.{
  ==_iff, Bool, List, [], arith, false, if◌then◌else◌, refl, sym, true, ℕ, ◌&&◌, ◌+◌, ◌==◌, ◌∙◌,
  ◌∷◌, ◌≡◌,
}
use llta.Solver.Graph.{AbstractStateGraph, Edge, IsConsistent, mem_edge, mem_id}
use llta.Solver.Worklist.Queue.{IsDistinct}

-- The identifiers of the targets are all different.
abbrev pub IsSimple : List Edge → Type 0
IsSimple [] = Unit
IsSimple (e ∷ es) = (mem_edge e.to es ≡ false) × IsSimple es

abbrev pub tally : Bool → ℕ
tally b = if b then 1 else 0

-- The last node of a path that starts with the first argument.
abbrev pub last : ℕ → List ℕ → ℕ
last a [] = a
last a (b ∷ path) = last b path

sum_from-step_free :
    (u : ℕ) (ps : List ℕ) (a b : ℕ) (path : List ℕ)
    → (b == u) && mem_id a ps ≡ false
    → sum_from u ps (a ∷ b ∷ path) ≡ sum_from u ps (b ∷ path)
unfolding mem_id
sum_from-step_free u [] a b path out = refl
sum_from-step_free u (p ∷ ps) a b path out = ground (arith, sum_from-step_free u ps a b path)

sum_from-step :
    (u : ℕ) (ps : List ℕ) (a b : ℕ) (path : List ℕ)
    → IsDistinct ps
    → sum_from u ps (a ∷ b ∷ path) ≡ tally ((b == u) && mem_id a ps) + sum_from u ps (b ∷ path)
unfolding mem_id
sum_from-step u [] a b path d = ground arith
sum_from-step u (p ∷ ps) a b path d =
    ground (arith, sum_from-step u ps a b path d.1, sum_from-step_free u ps a b path)

sum_to-step_free :
    (u : ℕ) (es : List Edge) (a b : ℕ) (path : List ℕ)
    → (a == u) && mem_edge b es ≡ false
    → sum_to u es (a ∷ b ∷ path) ≡ sum_to u es (b ∷ path)
unfolding mem_edge
sum_to-step_free u [] a b path out = refl
sum_to-step_free u (e ∷ es) a b path out = ground (arith, sum_to-step_free u es a b path)

sum_to-step :
    (u : ℕ) (es : List Edge) (a b : ℕ) (path : List ℕ)
    → IsSimple es
    → sum_to u es (a ∷ b ∷ path) ≡ tally ((a == u) && mem_edge b es) + sum_to u es (b ∷ path)
unfolding mem_edge
sum_to-step u [] a b path d = ground arith
sum_to-step u (e ∷ es) a b path d =
    ground (arith, sum_to-step u es a b path d.1, sum_to-step_free u es a b path)

sum_from-single : (u : ℕ) (ps : List ℕ) (a : ℕ) → sum_from u ps (a ∷ []) ≡ 0
sum_from-single u [] a = refl
sum_from-single u (p ∷ ps) a = omega (arith, sum_from-single u ps a)

sum_to-single : (u : ℕ) (es : List Edge) (a : ℕ) → sum_to u es (a ∷ []) ≡ 0
sum_to-single u [] a = refl
sum_to-single u (e ∷ es) a = omega (arith, sum_to-single u es a)

module _ {State : Type 0} (g : AbstractStateGraph State) (consistent : IsConsistent g) where
  -- A path comes to a node as often as it crosses an edge into it, once more where it starts.
  pub visits-in :
      (u a : ℕ) (path : List ℕ)
      → IsDistinct (g.preds u)
      → IsPath g (a ∷ path)
      → visits u (a ∷ path) ≡ tally (a == u) + sum_from u (g.preds u) (a ∷ path)
  visits-in u a [] d walk = ground (arith, sum_from-single u (g.preds u) a)
  visits-in u a (b ∷ path) d walk =
      let rest = visits-in u b path d walk.2 in
      let step = sum_from-step u (g.preds u) a b path d in
      let edge : (b == u) ≡ true → mem_id a (g.preds u) ≡ true =
        λ same. rw (← (==_iff b u).0 same) (sym (consistent a b) ∙ walk.1) in
      ground (arith, rest, step, edge)

  -- A path leaves a node as often as it comes to it, once less where it ends.
  pub visits-out :
      (u a : ℕ) (path : List ℕ)
      → IsSimple (g.adjacency u)
      → IsPath g (a ∷ path)
      → visits u (a ∷ path) ≡ tally (last a path == u) + sum_to u (g.adjacency u) (a ∷ path)
  visits-out u a [] d walk = ground (arith, sum_to-single u (g.adjacency u) a)
  visits-out u a (b ∷ path) d walk =
      let rest = visits-out u b path d walk.2 in
      let step = sum_to-step u (g.adjacency u) a b path d in
      let edge : (a == u) ≡ true → mem_edge b (g.adjacency u) ≡ true =
        λ same. rw (← (==_iff a u).0 same) walk.1 in
      ground (arith, rest, step, edge)
