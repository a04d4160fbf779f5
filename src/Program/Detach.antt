-- ===== src/Program/Detach.antt =====
-- The removal of a node with its edges (the pruning of `ProgramGraph::finalize`,
-- lib/Graph/ProgramGraph.cpp).
pub mod Removed
pub mod Pruned
pub mod Reached
pub mod Ids
pub mod Next
use llta.Prelude.{Bool, List, Option, [], if◌then◌else◌, none, some, suc, zero, ℕ, ◌++◌, ◌∷◌}
use llta.Program.{ProgramGraph, ProgramNode, and_then, remove_node, unlink}

-- `for (unsigned Succ : Nodes.at(Id).getSuccessors()) removeEdge(Id, Succ)`.
unfoldable pub unlink_successors : ProgramGraph → ℕ → List ℕ → Option ProgramGraph
unlink_successors g id [] = some g
unlink_successors g id (s ∷ ss) = and_then (unlink g id s) (λ h. unlink_successors h id ss)

-- `for (unsigned Pred : Nodes.at(Id).getPredecessors()) removeEdge(Pred, Id)`.
unfoldable pub unlink_predecessors : ProgramGraph → ℕ → List ℕ → Option ProgramGraph
unlink_predecessors g id [] = some g
unlink_predecessors g id (p ∷ ps) = and_then (unlink g p id) (λ h. unlink_predecessors h id ps)

-- The lists of a node; none where `Nodes.at` throws.
abbrev pub with_node : ProgramGraph → ℕ → (ProgramNode → Option ProgramGraph) → Option ProgramGraph
with_node g id f = elim (g.nodes id) [ none ↦ none | some n ↦ f n ]

-- The body of the loop over the unreachable nodes.
unfoldable pub detach : ProgramGraph → ℕ → Option ProgramGraph
detach g id = with_node g id (λ n. and_then (unlink_successors g id n.successors) (λ h.
    with_node h id
      (λ m. and_then (unlink_predecessors h id m.predecessors) (λ k. remove_node k id))))

-- `ToRemove`: the nodes below an identifier that are not in the set, and their removal in order.
unfoldable pub unreachable_ids : ProgramGraph → (ℕ → Bool) → ℕ → List ℕ
unreachable_ids g seen zero = []
unreachable_ids g seen (suc n) =
    let before = unreachable_ids g seen n in
    elim (g.nodes n) [ none ↦ before | some _ ↦ if seen n then before else before ++ n ∷ [] ]

unfoldable pub detach_all : ProgramGraph → List ℕ → Option ProgramGraph
detach_all g [] = some g
detach_all g (id ∷ ids) = and_then (detach g id) (λ h. detach_all h ids)

-- The pruning, with the set that the sweep found.
unfoldable pub prune : ProgramGraph → (ℕ → Bool) → Option ProgramGraph
prune g seen = detach_all g (unreachable_ids g seen g.next_node_id)
