-- ===== src/Program/Prune.antt =====
-- The nodes that are reachable from the entry (the pruning of `ProgramGraph::finalize`,
-- lib/Graph/ProgramGraph.cpp).
pub mod Exact
pub mod Fuel
use llta.Prelude.{Bool, List, Option, [], false, if◌then◌else◌, none, some, suc, true, zero, ℕ, ◌∷◌}
use llta.Program.{ProgramGraph}
use llta.Solver.Graph.{put}

-- `Reachable.insert(Succ).second` decides whether the successor is pushed.
unfoldable pub push_new : (ℕ → Bool) → List ℕ → List ℕ → (ℕ → Bool) × List ℕ
push_new seen work [] = (seen, work)
push_new seen work (s ∷ ss) =
    let after = push_new (put seen s true) (s ∷ work) ss in
    let same = push_new seen work ss in if seen s then same else after

-- The loop over the worklist, a stack; none when the fuel runs out or `Nodes.at` throws.
unfoldable pub sweep : ℕ → ProgramGraph → (ℕ → Bool) → List ℕ → Option (ℕ → Bool)
sweep fuel g seen [] = some seen
sweep zero g seen (id ∷ work) = none
sweep (suc fuel) g seen (id ∷ work) = elim (g.nodes id) [
  | none ↦ none
  | some n ↦ let after = push_new seen work n.successors in sweep fuel g after.0 after.1
]

-- `Reachable`: the nodes that are found from the entry.
unfoldable pub reachable_set : ℕ → ProgramGraph → ℕ → Option (ℕ → Bool)
reachable_set fuel g entry = sweep fuel g (put (λ _. false) entry true) (entry ∷ [])
