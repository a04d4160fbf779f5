-- ===== src/Solver/FromProgram/Each.antt =====
-- The rule for a loop over the nodes of a program graph.
use llta.Prelude.{Option-cases, inl, inr, none, some, suc, zero, ℕ, ◌≡◌}
use llta.Program.{ProgramGraph, ProgramNode}
use llta.Solver.FromProgram.{each_node}

pub each_node_inv :
    {S : Type 0} (P : ℕ → S → Type 0) (f : ℕ → ProgramNode → S → S) (g : ProgramGraph)
    → ((n : ℕ) (s : S) → g.nodes n ≡ none → P n s → P (suc n) s)
    → ((n : ℕ) (m : ProgramNode) (s : S) → g.nodes n ≡ some m → P n s → P (suc n) (f n m s))
    → (n : ℕ) (s : S) → P 0 s
    → P n (each_node f g n s)
unfolding each_node
each_node_inv P f g skip keep zero s h = h
each_node_inv P f g skip keep (suc n) s h =
    let before = each_node_inv P f g skip keep n s h in
    elim (Option-cases (g.nodes n)) [
      | inl gone ↦ rw (gone, each_node) (skip n (each_node f g n s) gone before)
      | inr (m, there) ↦ rw (there, each_node) (keep n m (each_node f g n s) there before)
    ]
