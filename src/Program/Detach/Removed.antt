-- ===== src/Program/Detach/Removed.antt =====
-- A node is removed with its edges and nothing else is (the pruning of `ProgramGraph::finalize`,
-- lib/Graph/ProgramGraph.cpp).
use llta.Prelude.{
  ==_iff, All, Bool, Bool-cases, List, Option, Option-cases, [], ap, arith, false, inl, inr, not,
  refl, some, subst, sym, true, ℕ, ◌&&◌, ◌==◌, ◌↔◌, ◌∙◌, ◌∷◌, ◌≡◌,
}
use llta.Program.{
  ProgramGraph, ProgramNode, and_then, delete_predecessor, delete_successor, has_edge, has_reverse,
  modify, unlink,
}
use llta.Program.Detach.{unlink_predecessors, unlink_successors}
use llta.Program.Symmetry.{IsSymmetric, modify_lem, unlink-IsSymmetric, unlink_lem}
use llta.Program.Total.{All-HasNode}
use llta.Program.Wire.{HasNode, modify-HasNode}
use llta.Solver.Graph.{mem_id}

pub has_reverse-HasNode : (g : ProgramGraph) (u v : ℕ) → has_reverse g u v ≡ true → HasNode g v
unfolding has_reverse
has_reverse-HasNode g u v h = elim (Option-cases (g.nodes v)) [
  | inl gone ↦ let e : false ≡ true = sym (rw (gone, has_reverse) refl) ∙ h in absurd (cc)
  | inr (n, there) ↦ (n, there)
]

pub has_edge-HasNode : (g : ProgramGraph) (u v : ℕ) → has_edge g u v ≡ true → HasNode g u
unfolding has_edge
has_edge-HasNode g u v h = elim (Option-cases (g.nodes u)) [
  | inl gone ↦ let e : false ≡ true = sym (rw (gone, has_edge) refl) ∙ h in absurd (cc)
  | inr (n, there) ↦ (n, there)
]

modify-kept :
    (g h : ProgramGraph) (id : ℕ) (f : ProgramNode → ProgramNode)
    → modify g id f ≡ some h
    → (j : ℕ) → HasNode h j
    → HasNode g j
modify-kept g h id f e j (n, at) =
    let (m, there, after) = modify_lem g h id f e in
    elim (Bool-cases (id == j)) [
      | inl here ↦ (m, subst (λ (k : ℕ). g.nodes k ≡ some m) ((==_iff id j).0 here) there)
      | inr apart ↦ (n, sym (after j ∙ rw apart refl) ∙ at)
    ]

-- An edge between two nodes can be removed, and the nodes stay the same.
unlink-HasNode :
    (g : ProgramGraph) (from to : ℕ)
    → HasNode g from
    → HasNode g to
    → (h : ProgramGraph) × (unlink g from to ≡ some h) × ((j : ℕ) → HasNode g j ↔ HasNode h j)
unfolding unlink
unlink-HasNode g from to a b =
    let (m, first, kept) = modify-HasNode g from (delete_successor to) a in
    let (h, second, held) = modify-HasNode m to (delete_predecessor from) (kept to b) in
    (
      h,
      ap (λ (o : Option ProgramGraph). and_then o (λ k. modify k to (delete_predecessor from)))
            first
          ∙ second,
      λ j. (
        λ has. held j (kept j has),
        λ has.
            modify-kept g m from (delete_successor to) first j
              (modify-kept m h to (delete_predecessor from) second j has),
      ),
    )

-- What a graph is after some edges are gone.
pub record IsCut (g h : ProgramGraph) (gone : ℕ → ℕ → Bool) : Type 0 where
  pub cut : (u v : ℕ) → has_edge h u v ≡ (not (gone u v) && has_edge g u v)
  pub both : IsSymmetric h
  pub same_nodes : (j : ℕ) → HasNode g j ↔ HasNode h j

pub unlink_successors-IsCut :
    (g : ProgramGraph) (id : ℕ) (ss : List ℕ)
    → IsSymmetric g
    → HasNode g id
    → All (HasNode g) ss
    → (h : ProgramGraph) × (unlink_successors g id ss ≡ some h)
      × IsCut g h (λ u v. (id == u) && mem_id v ss)
unfolding unlink_successors mem_id
unlink_successors-IsCut g id [] two here all =
    (g, refl, record { cut = λ u v. ground arith; both = two; same_nodes = λ j. (λ x. x, λ x. x) })
unlink_successors-IsCut g id (s ∷ ss) two here all =
    let (m, first, kept) = unlink-HasNode g id s here all.0 in
    let (h, rest, c) =
      unlink_successors-IsCut m id ss (unlink-IsSymmetric g m id s two first) ((kept id).0 here)
        (All-HasNode g m ss (λ j. (kept j).0) all.1) in
    (
      h,
      ap (λ (o : Option ProgramGraph). and_then o (λ k. unlink_successors k id ss)) first ∙ rest,
      record {
        cut = λ u v. let one = (unlink_lem g m id s first u v).0 in ground (arith, one, c.cut u v);
        both = c.both;
        same_nodes =
            λ j. (λ x. (c.same_nodes j).0 ((kept j).0 x), λ x. (kept j).1 ((c.same_nodes j).1 x));
      },
    )

pub unlink_predecessors-IsCut :
    (g : ProgramGraph) (id : ℕ) (ps : List ℕ)
    → IsSymmetric g
    → HasNode g id
    → All (HasNode g) ps
    → (h : ProgramGraph) × (unlink_predecessors g id ps ≡ some h)
      × IsCut g h (λ u v. (id == v) && mem_id u ps)
unfolding unlink_predecessors mem_id
unlink_predecessors-IsCut g id [] two here all =
    (g, refl, record { cut = λ u v. ground arith; both = two; same_nodes = λ j. (λ x. x, λ x. x) })
unlink_predecessors-IsCut g id (p ∷ ps) two here all =
    let (m, first, kept) = unlink-HasNode g p id all.0 here in
    let (h, rest, c) =
      unlink_predecessors-IsCut m id ps (unlink-IsSymmetric g m p id two first) ((kept id).0 here)
        (All-HasNode g m ps (λ j. (kept j).0) all.1) in
    (
      h,
      ap (λ (o : Option ProgramGraph). and_then o (λ k. unlink_predecessors k id ps)) first ∙ rest,
      record {
        cut = λ u v. let one = (unlink_lem g m p id first u v).0 in ground (arith, one, c.cut u v);
        both = c.both;
        same_nodes =
            λ j. (λ x. (c.same_nodes j).0 ((kept j).0 x), λ x. (kept j).1 ((c.same_nodes j).1 x));
      },
    )
