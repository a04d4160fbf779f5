-- ===== src/Loops/Back/Chain.antt =====
-- The stack of the search of `findBackEdges` is a path
-- (lib/MIRPasses/MachineLoopBoundAgregatorPass.cpp).
use llta.Loops.Collect.{Steps, more_steps, one_step}
use llta.Prelude.{
  ==_iff, Bool, Bool-cases, List, [], arith, false, inl, inr, subst, sym, true, ℕ, ◌==◌, ◌||◌, ◌∷◌,
  ◌≡◌, ◌⊎◌,
}
use llta.Solver.Graph.{mem_id}

abbrev pub on_stack : ℕ → List (ℕ × List ℕ) → Bool
on_stack u [] = false
on_stack u ((b, _) ∷ st) = (b == u) || on_stack u st

module _ (succs : ℕ → List ℕ) where
  -- The block below has an edge to this one.
  abbrev pub IsNext : ℕ → List (ℕ × List ℕ) → Type 0
  IsNext b [] = Unit
  IsNext b ((c, _) ∷ st) = mem_id b (succs c) ≡ true

  abbrev pub IsChain : List (ℕ × List ℕ) → Type 0
  IsChain [] = Unit
  IsChain ((b, ts) ∷ st) =
      ((v : ℕ) → mem_id v ts ≡ true → mem_id v (succs b) ≡ true) × IsNext b st × IsChain st

  chain-Steps :
      (u b : ℕ) (st : List (ℕ × List ℕ))
      → IsNext b st
      → IsChain st
      → on_stack u st ≡ true
      → Steps succs u b
  chain-Steps u b [] edge l h = absurd (cc)
  chain-Steps u b ((c, ts) ∷ st) edge l h = elim (Bool-cases (c == u)) [
    | inl same ↦ one_step (subst (λ (j : ℕ). mem_id b (succs j) ≡ true) ((==_iff c u).0 same) edge)
    | inr apart ↦ more_steps (chain-Steps u c st l.1 l.2 (ground (arith, h, apart))) edge
  ]

  -- The edge to a block on the stack closes a cycle.
  abbrev pub Closes : ℕ → ℕ → Type 0
  Closes u v = (v ≡ u) ⊎ Steps succs v u

  pub on_stack-Closes :
      (b t : ℕ) (ts : List ℕ) (st : List (ℕ × List ℕ))
      → IsChain ((b, ts) ∷ st)
      → on_stack t ((b, ts) ∷ st) ≡ true
      → Closes b t
  on_stack-Closes b t ts st l h = elim (Bool-cases (b == t)) [
    | inl same ↦ inl (sym ((==_iff b t).0 same))
    | inr apart ↦ inr (chain-Steps t b st l.1 l.2 (ground (arith, h, apart)))
  ]
