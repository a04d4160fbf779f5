-- ===== src/Program/Detach/Pruned.antt =====
-- The graph that the pruning leaves (`ProgramGraph::finalize`, lib/Graph/ProgramGraph.cpp).
use llta.Prelude.{
  ==_iff, All, Bool-cases, List, Option, [], ap, arith, false, if◌then◌else◌, inl, inr, none, not,
  refl, some, sym, true, ℕ, ◌&&◌, ◌==◌, ◌||◌, ◌↔◌, ◌∙◌, ◌∷◌, ◌≡◌,
}
use llta.Program.{
  ProgramGraph, ProgramNode, and_then, has_edge, has_reverse, is_empty_set, is_free, remove_node,
}
use llta.Program.Detach.{detach, unlink_predecessors, unlink_successors, with_node}
use llta.Program.Detach.Removed.{
  IsCut, has_edge-HasNode, has_reverse-HasNode, unlink_predecessors-IsCut, unlink_successors-IsCut,
}
use llta.Program.Symmetry.{IsSymmetric}
use llta.Program.Wire.{HasNode}
use llta.Solver.Graph.{mem_id, put}

All-mem_id :
    (g : ProgramGraph) (ids : List ℕ)
    → ((v : ℕ) → mem_id v ids ≡ true → HasNode g v)
    → All (HasNode g) ids
unfolding mem_id
All-mem_id g [] h = tt
All-mem_id g (id ∷ ids) h =
    (h id (rw ((==_iff id id).1 refl) refl), All-mem_id g ids (λ v m. h v (ground arith)))

empty_of_none : (ids : List ℕ) → ((v : ℕ) → mem_id v ids ≡ false) → ids ≡ []
unfolding mem_id
empty_of_none [] h = refl
empty_of_none (id ∷ ids) h =
    let e : true ≡ false = sym (rw ((==_iff id id).1 refl) refl) ∙ h id in absurd (cc)

pub edges_of :
    (g : ProgramGraph) (id v : ℕ) (n : ProgramNode)
    → g.nodes id ≡ some n
    → has_edge g id v ≡ mem_id v n.successors
unfolding has_edge
edges_of g id v n there = rw (there, has_edge) refl

reverses_of :
    (g : ProgramGraph) (id u : ℕ) (n : ProgramNode)
    → g.nodes id ≡ some n
    → has_reverse g u id ≡ mem_id u n.predecessors
unfolding has_reverse
reverses_of g id u n there = rw (there, has_reverse) refl

-- What is left once a node is gone.
pub record IsWithout (g h : ProgramGraph) (id : ℕ) : Type 0 where
  pub edges : (u v : ℕ) → has_edge h u v ≡ (not ((id == u) || (id == v)) && has_edge g u v)
  pub two_ended : IsSymmetric h
  pub nodes_left : (j : ℕ) → HasNode h j ↔ (((id == j) ≡ false) × HasNode g j)

abbrev erased : ProgramGraph → ℕ → ProgramGraph
erased g id = record g { nodes = put g.nodes id none }

has_edge-erased :
    (g : ProgramGraph) (id u v : ℕ)
    → has_edge (erased g id) u v ≡ (if id == u then false else has_edge g u v)
unfolding has_edge
has_edge-erased g id u v = elim (Bool-cases (id == u)) [
  | inl here ↦ rw (here, has_edge) refl
  | inr apart ↦ rw (apart, has_edge) refl
]

has_reverse-erased :
    (g : ProgramGraph) (id u v : ℕ)
    → has_reverse (erased g id) u v ≡ (if id == v then false else has_reverse g u v)
unfolding has_reverse
has_reverse-erased g id u v = elim (Bool-cases (id == v)) [
  | inl here ↦ rw (here, has_reverse) refl
  | inr apart ↦ rw (apart, has_reverse) refl
]

HasNode-erased :
    (g : ProgramGraph) (id j : ℕ) → HasNode (erased g id) j ↔ (((id == j) ≡ false) × HasNode g j)
HasNode-erased g id j = elim (Bool-cases (id == j)) [
  | inl here ↦ (
    λ (n, at). let e : none ≡ some n = sym (rw here refl) ∙ at in absurd (cc),
    λ (apart, has). let e : true ≡ false = sym here ∙ apart in absurd (cc),
  )
  | inr apart ↦
      (λ (n, at). (apart, (n, sym (rw apart refl) ∙ at)), λ (_, has). (has.0, rw apart has.1))
]

remove_node_lem :
    (g : ProgramGraph) (id : ℕ)
    → IsSymmetric g
    → HasNode g id
    → ((v : ℕ) → has_edge g id v ≡ false)
    → ((u : ℕ) → has_edge g u id ≡ false)
    → (h : ProgramGraph) × (remove_node g id ≡ some h) × IsWithout g h id
unfolding remove_node is_free is_empty_set
remove_node_lem g id two (n, there) no_out no_in =
    let outs : n.successors ≡ [] =
      empty_of_none n.successors (λ v. sym (edges_of g id v n there) ∙ no_out v) in
    let ins : n.predecessors ≡ [] =
      empty_of_none n.predecessors
        (λ u. sym (reverses_of g id u n there) ∙ sym (two u id) ∙ no_in u) in
    (
      record g { nodes = put g.nodes id none },
      rw (there, remove_node) (rw (outs, ins, is_free) refl),
      record {
        edges = λ u v.
            let after = has_edge-erased g id u v in
            let none_in : (id == v) ≡ true → has_edge g u v ≡ false =
              λ h. rw (← (==_iff id v).0 h) (no_in u) in
            ground (arith, after, none_in);
        two_ended = λ u v.
            let after = has_edge-erased g id u v in
            let back = has_reverse-erased g id u v in
            let none_in : (id == v) ≡ true → has_edge g u v ≡ false =
              λ h. rw (← (==_iff id v).0 h) (no_in u) in
            let none_out : (id == u) ≡ true → has_edge g u v ≡ false =
              λ h. rw (← (==_iff id u).0 h) (no_out v) in
            ground (arith, after, back, none_in, none_out, two u v);
        nodes_left = λ j. HasNode-erased g id j;
      },
    )

with_node-at :
    (g : ProgramGraph) (id : ℕ) (n : ProgramNode) (f : ProgramNode → Option ProgramGraph)
    → g.nodes id ≡ some n
    → with_node g id f ≡ f n
with_node-at g id n f there = rw (there, with_node) refl

-- The rest of the step, once the edges from the node are gone.
abbrev drop_node : ProgramGraph → ℕ → Option ProgramGraph
drop_node h id =
    with_node h id (λ m. and_then (unlink_predecessors h id m.predecessors) (λ k. remove_node k id))

drop_node-IsWithout :
    (g h : ProgramGraph) (id : ℕ) (n : ProgramNode)
    → g.nodes id ≡ some n
    → IsCut g h (λ u v. (id == u) && mem_id v n.successors)
    → HasNode h id
    → (r : ProgramGraph) × (drop_node h id ≡ some r) × IsWithout g r id
drop_node-IsWithout g h id n there c (m, at) =
    let (k, second, d) =
      unlink_predecessors-IsCut h id m.predecessors c.both (m, at)
        (All-mem_id h m.predecessors
          (λ u w. has_edge-HasNode h u id (c.both u id ∙ reverses_of h id u m at ∙ w))) in
    let self : (id == id) ≡ true = (==_iff id id).1 refl in
    let no_out : (v : ℕ) → has_edge k id v ≡ false = λ v.
      let e = edges_of g id v n there in
      let a = d.cut id v in let b = c.cut id v in ground (arith, a, b, e, self) in
    let no_in : (u : ℕ) → has_edge k u id ≡ false = λ u.
      let e = reverses_of h id u m at in
      let a = d.cut u id in let b = c.both u id in ground (arith, a, b, e, self) in
    let (r, third, w) = remove_node_lem k id d.both ((d.same_nodes id).0 (m, at)) no_out no_in in
    (
      r,
      with_node-at h id m
            (λ x. and_then (unlink_predecessors h id x.predecessors) (λ l. remove_node l id)) at
          ∙ ap (λ (o : Option ProgramGraph). and_then o (λ l. remove_node l id)) second
          ∙ third,
      record {
        edges = λ u v.
            let a = w.edges u v in
            let b = d.cut u v in let e = c.cut u v in ground (arith, a, b, e);
        two_ended = w.two_ended;
        nodes_left = λ j. (
          λ x. let y = (w.nodes_left j).0 x in (y.0, (c.same_nodes j).1 ((d.same_nodes j).1 y.1)),
          λ y. (w.nodes_left j).1 (y.0, (d.same_nodes j).0 ((c.same_nodes j).0 y.1)),
        );
      },
    )

-- A node of the graph is removed with all its edges, and nothing else is.
pub detach-IsWithout :
    (g : ProgramGraph) (id : ℕ)
    → IsSymmetric g
    → HasNode g id
    → (h : ProgramGraph) × (detach g id ≡ some h) × IsWithout g h id
unfolding detach
detach-IsWithout g id two (n, there) =
    let (h, first, c) =
      unlink_successors-IsCut g id n.successors two (n, there)
        (All-mem_id g n.successors
          (λ v m. has_reverse-HasNode g id v (sym (two id v) ∙ edges_of g id v n there ∙ m))) in
    let (r, rest, w) = drop_node-IsWithout g h id n there c ((c.same_nodes id).0 (n, there)) in
    (
      r,
      with_node-at g id n
            (λ x. and_then (unlink_successors g id x.successors) (λ l. drop_node l id)) there
          ∙ ap (λ (o : Option ProgramGraph). and_then o (λ l. drop_node l id)) first
          ∙ rest,
      w,
    )
