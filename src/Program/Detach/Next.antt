-- ===== src/Program/Detach/Next.antt =====
-- The pruning gives out no identifier (`ProgramGraph::finalize` of lib/Graph/ProgramGraph.cpp).
use llta.Prelude.{
  Bool-cases, List, Option, Option-cases, [], ap, if◌then◌else◌, inl, inr, none, refl, some, sym, ℕ,
  ◌∙◌, ◌∷◌, ◌≡◌,
}
use llta.Program.{
  ProgramGraph, ProgramNode, and_then, delete_predecessor, delete_successor, is_free, modify,
  remove_node, unlink,
}
use llta.Program.Built.{same_next}
use llta.Program.Detach.{
  detach, detach_all, prune, unlink_predecessors, unlink_successors, unreachable_ids, with_node,
}
use llta.Program.Detach.Reached.{prune_unreachable}
use llta.Program.Prune.{reachable_set}
use llta.Program.Symmetry.{and_then_lem}
use llta.Solver.Graph.{put}

-- A step of the pruning keeps the next identifier.
abbrev KeepsNext : ProgramGraph → Option ProgramGraph → Type 0
KeepsNext g o = (h : ProgramGraph) → o ≡ some h → h.next_node_id ≡ g.next_node_id

then-KeepsNext :
    (g : ProgramGraph) (o : Option ProgramGraph) (f : ProgramGraph → Option ProgramGraph)
    → KeepsNext g o
    → ((m : ProgramGraph) → KeepsNext m (f m))
    → KeepsNext g (and_then o f)
then-KeepsNext g o f first rest h e =
    let (m, made, on) = and_then_lem o f h e in rest m h on ∙ first m made

unlink-KeepsNext : (g : ProgramGraph) (u v : ℕ) → KeepsNext g (unlink g u v)
unfolding unlink
unlink-KeepsNext g u v =
    then-KeepsNext g (modify g u (delete_successor v)) (λ m. modify m v (delete_predecessor u))
      (λ h e. same_next g h u (delete_successor v) e)
      (λ m h e. same_next m h v (delete_predecessor u) e)

same-KeepsNext : (g : ProgramGraph) → KeepsNext g (some g)
same-KeepsNext g h e = let same : g ≡ h = cc in ap (λ (k : ProgramGraph). k.next_node_id) (sym same)

with_node-KeepsNext :
    (g : ProgramGraph) (id : ℕ) (f : ProgramNode → Option ProgramGraph)
    → ((n : ProgramNode) → KeepsNext g (f n))
    → KeepsNext g (with_node g id f)
with_node-KeepsNext g id f next h e = elim (Option-cases (g.nodes id)) [
  | inl gone ↦ let never : none ≡ some h = sym (rw (gone, with_node) refl) ∙ e in absurd (cc)
  | inr (n, there) ↦ next n h (sym (rw (there, with_node) refl) ∙ e)
]

unlink_successors-KeepsNext :
    (g : ProgramGraph) (id : ℕ) (ss : List ℕ) → KeepsNext g (unlink_successors g id ss)
unfolding unlink_successors
unlink_successors-KeepsNext g id [] = same-KeepsNext g
unlink_successors-KeepsNext g id (s ∷ ss) =
    then-KeepsNext g (unlink g id s) (λ m. unlink_successors m id ss) (unlink-KeepsNext g id s)
      (λ m. unlink_successors-KeepsNext m id ss)

unlink_predecessors-KeepsNext :
    (g : ProgramGraph) (id : ℕ) (ps : List ℕ) → KeepsNext g (unlink_predecessors g id ps)
unfolding unlink_predecessors
unlink_predecessors-KeepsNext g id [] = same-KeepsNext g
unlink_predecessors-KeepsNext g id (p ∷ ps) =
    then-KeepsNext g (unlink g p id) (λ m. unlink_predecessors m id ps) (unlink-KeepsNext g p id)
      (λ m. unlink_predecessors-KeepsNext m id ps)

remove_node-KeepsNext : (g : ProgramGraph) (id : ℕ) → KeepsNext g (remove_node g id)
unfolding remove_node
remove_node-KeepsNext g id =
    with_node-KeepsNext g id
      (λ n. if is_free n then some (record g { nodes = put g.nodes id none }) else none)
      (λ n. elim (Bool-cases (is_free n)) [
        | inl free ↦ rw free (λ h e.
            let same : record g { nodes = put g.nodes id none } ≡ h = cc in
            ap (λ (k : ProgramGraph). k.next_node_id) (sym same))
        | inr tied ↦ rw tied (λ h e. absurd (cc))
      ])

detach-KeepsNext : (g : ProgramGraph) (id : ℕ) → KeepsNext g (detach g id)
unfolding detach
detach-KeepsNext g id = with_node-KeepsNext g id _ (λ n.
    then-KeepsNext g (unlink_successors g id n.successors) _
      (unlink_successors-KeepsNext g id n.successors)
      (λ h. with_node-KeepsNext h id _ (λ m.
        then-KeepsNext h (unlink_predecessors h id m.predecessors) (λ k. remove_node k id)
          (unlink_predecessors-KeepsNext h id m.predecessors) (λ k. remove_node-KeepsNext k id))))

detach_all-KeepsNext : (g : ProgramGraph) (ids : List ℕ) → KeepsNext g (detach_all g ids)
unfolding detach_all
detach_all-KeepsNext g [] = same-KeepsNext g
detach_all-KeepsNext g (id ∷ ids) =
    then-KeepsNext g (detach g id) (λ m. detach_all m ids) (detach-KeepsNext g id)
      (λ m. detach_all-KeepsNext m ids)

pub prune_unreachable-next :
    (g h : ProgramGraph) (entry fuel : ℕ)
    → prune_unreachable fuel g entry ≡ some h
    → h.next_node_id ≡ g.next_node_id
unfolding prune_unreachable prune
prune_unreachable-next g h entry fuel e = elim (Option-cases (reachable_set fuel g entry)) [
  | inl out ↦ let never : none ≡ some h = sym (rw (out, prune_unreachable) refl) ∙ e in absurd (cc)
  | inr (seen, found) ↦
      detach_all-KeepsNext g (unreachable_ids g seen g.next_node_id) h
        (sym (rw (found, prune_unreachable) refl) ∙ e)
]
