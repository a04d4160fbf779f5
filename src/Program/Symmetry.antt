-- ===== src/Program/Symmetry.antt =====
-- The successors and the predecessors of the program graph (`addEdge`, `removeEdge` and
-- `removeNode` of lib/Graph/ProgramGraph.cpp).
use llta.Prelude.{
  ==_iff, Bool, Bool-cases, Option, Option-cases, arith, false, if◌then◌else◌, inl, inr, none, not,
  refl, some, subst, sym, true, ℕ, ◌&&◌, ◌==◌, ◌||◌, ◌∙◌, ◌≡◌,
}
use llta.Program.{
  ProgramGraph, ProgramNode, add_predecessor, add_successor, and_then, delete_predecessor,
  delete_successor, has_edge, has_reverse, link, modify, unlink,
}
use llta.Solver.Graph.{mem_id, put}
use llta.Solver.Graph.Edges.{mem_id-erase_id, mem_id-insert_id}

-- Both ends of an edge know it.
abbrev pub IsSymmetric : ProgramGraph → Type 0
IsSymmetric g = (u v : ℕ) → has_edge g u v ≡ has_reverse g u v

pub modify_lem :
    (g h : ProgramGraph) (id : ℕ) (f : ProgramNode → ProgramNode)
    → modify g id f ≡ some h
    → (n : ProgramNode) × (g.nodes id ≡ some n)
      × ((j : ℕ) → h.nodes j ≡ (if id == j then some (f n) else g.nodes j))
unfolding modify
modify_lem g h id f e = elim (Option-cases (g.nodes id)) [
  | inl gone ↦ let never : none ≡ some h = sym (rw (gone, modify) refl) ∙ e in absurd (cc)
  | inr (n, there) ↦
      let made : some (record g { nodes = put g.nodes id (some (f n)) }) ≡ some h =
        sym (rw (there, modify) refl) ∙ e in
      let same : record g { nodes = put g.nodes id (some (f n)) } ≡ h = cc in
      (
        n,
        there,
        λ j.
            subst (λ (k : ProgramGraph). k.nodes j ≡ (if id == j then some (f n) else g.nodes j))
              same refl,
      )
]

successors_after :
    (g h : ProgramGraph) (id : ℕ) (f : ProgramNode → ProgramNode)
    → modify g id f ≡ some h
    → (u v : ℕ) → ((n : ProgramNode) → mem_id v (f n).successors ≡ mem_id v n.successors)
    → has_edge h u v ≡ has_edge g u v
unfolding has_edge
successors_after g h id f e u v same =
    let (n, there, after) = modify_lem g h id f e in
    elim (Bool-cases (id == u)) [
      | inl here ↦
          let at : id ≡ u = (==_iff id u).0 here in
          let was : g.nodes u ≡ some n = subst (λ (k : ℕ). g.nodes k ≡ some n) at there in
          let now : h.nodes u ≡ some (f n) = after u ∙ rw here refl in
          rw (now, was, has_edge) (same n)
      | inr apart ↦
          let now : h.nodes u ≡ g.nodes u = after u ∙ rw apart refl in rw (now, has_edge) refl
    ]

predecessors_after :
    (g h : ProgramGraph) (id : ℕ) (f : ProgramNode → ProgramNode)
    → modify g id f ≡ some h
    → (u v : ℕ) → ((n : ProgramNode) → mem_id u (f n).predecessors ≡ mem_id u n.predecessors)
    → has_reverse h u v ≡ has_reverse g u v
unfolding has_reverse
predecessors_after g h id f e u v same =
    let (n, there, after) = modify_lem g h id f e in
    elim (Bool-cases (id == v)) [
      | inl here ↦
          let at : id ≡ v = (==_iff id v).0 here in
          let was : g.nodes v ≡ some n = subst (λ (k : ℕ). g.nodes k ≡ some n) at there in
          let now : h.nodes v ≡ some (f n) = after v ∙ rw here refl in
          rw (now, was, has_reverse) (same n)
      | inr apart ↦
          let now : h.nodes v ≡ g.nodes v = after v ∙ rw apart refl in rw (now, has_reverse) refl
    ]

successor_changed :
    (g h : ProgramGraph) (id w : ℕ) (f : ProgramNode → ProgramNode) (b : Bool)
    → modify g id f ≡ some h
    → ((n : ProgramNode) (v : ℕ)
        → mem_id v (f n).successors ≡ (if w == v then b else mem_id v n.successors))
    → (u v : ℕ) → has_edge h u v ≡ (if (id == u) && (w == v) then b else has_edge g u v)
unfolding has_edge
successor_changed g h id w f b e change u v =
    let (n, there, after) = modify_lem g h id f e in
    elim (Bool-cases (id == u)) [
      | inl here ↦
          let at : id ≡ u = (==_iff id u).0 here in
          let was : g.nodes u ≡ some n = subst (λ (k : ℕ). g.nodes k ≡ some n) at there in
          let now : h.nodes u ≡ some (f n) = after u ∙ rw here refl in
          rw (now, was, here, has_edge) (change n v)
      | inr apart ↦
          let now : h.nodes u ≡ g.nodes u = after u ∙ rw apart refl in
          rw (now, apart, has_edge) refl
    ]

predecessor_changed :
    (g h : ProgramGraph) (id w : ℕ) (f : ProgramNode → ProgramNode) (b : Bool)
    → modify g id f ≡ some h
    → ((n : ProgramNode) (u : ℕ)
        → mem_id u (f n).predecessors ≡ (if w == u then b else mem_id u n.predecessors))
    → (u v : ℕ) → has_reverse h u v ≡ (if (w == u) && (id == v) then b else has_reverse g u v)
unfolding has_reverse
predecessor_changed g h id w f b e change u v =
    let (n, there, after) = modify_lem g h id f e in
    elim (Bool-cases (id == v)) [
      | inl here ↦
          let at : id ≡ v = (==_iff id v).0 here in
          let was : g.nodes v ≡ some n = subst (λ (k : ℕ). g.nodes k ≡ some n) at there in
          let now : h.nodes v ≡ some (f n) = after v ∙ rw here refl in
          let c = change n u in rw (now, was, here, has_reverse) (ground (arith, c))
      | inr apart ↦
          let now : h.nodes v ≡ g.nodes v = after v ∙ rw apart refl in
          rw (now, apart, has_reverse) (ground arith)
    ]

pub and_then_lem :
    (o : Option ProgramGraph) (f : ProgramGraph → Option ProgramGraph) (h : ProgramGraph)
    → and_then o f ≡ some h
    → (m : ProgramGraph) × (o ≡ some m) × (f m ≡ some h)
and_then_lem none f h e = absurd (cc)
and_then_lem (some m) f h e = (m, refl, e)

-- An edge is added, with both of its ends, and nothing else changes.
pub link_lem :
    (g h : ProgramGraph) (from to : ℕ)
    → link g from to ≡ some h
    → (u v : ℕ)
    → (has_edge h u v ≡ ((from == u) && (to == v) || has_edge g u v))
      × (has_reverse h u v ≡ ((from == u) && (to == v) || has_reverse g u v))
unfolding link
link_lem g h from to e u v =
    let (m, first, second) =
      and_then_lem (modify g from (add_successor to)) (λ k. modify k to (add_predecessor from)) h
        e in
    let there =
      successor_changed g m from to (add_successor to) true first
        (λ n w. mem_id-insert_id w to n.successors) u v in
    let back =
      predecessor_changed m h to from (add_predecessor from) true second
        (λ n w. mem_id-insert_id w from n.predecessors) u v in
    let kept = successors_after m h to (add_predecessor from) second u v (λ n. refl) in
    let held = predecessors_after g m from (add_successor to) first u v (λ n. refl) in
    (ground (arith, there, kept), ground (arith, back, held))

-- An edge is removed, with both of its ends, and nothing else changes.
pub unlink_lem :
    (g h : ProgramGraph) (from to : ℕ)
    → unlink g from to ≡ some h
    → (u v : ℕ)
    → (has_edge h u v ≡ (not ((from == u) && (to == v)) && has_edge g u v))
      × (has_reverse h u v ≡ (not ((from == u) && (to == v)) && has_reverse g u v))
unfolding unlink
unlink_lem g h from to e u v =
    let (m, first, second) =
      and_then_lem (modify g from (delete_successor to))
        (λ k. modify k to (delete_predecessor from)) h e in
    let there =
      successor_changed g m from to (delete_successor to) false first
        (λ n w. mem_id-erase_id w to n.successors) u v in
    let back =
      predecessor_changed m h to from (delete_predecessor from) false second
        (λ n w. mem_id-erase_id w from n.predecessors) u v in
    let kept = successors_after m h to (delete_predecessor from) second u v (λ n. refl) in
    let held = predecessors_after g m from (delete_successor to) first u v (λ n. refl) in
    (ground (arith, there, kept), ground (arith, back, held))

pub link-IsSymmetric :
    (g h : ProgramGraph) (from to : ℕ) → IsSymmetric g → link g from to ≡ some h → IsSymmetric h
link-IsSymmetric g h from to sym_g e =
    λ u v. let after = link_lem g h from to e u v in ground (arith, after.0, after.1, sym_g u v)

pub unlink-IsSymmetric :
    (g h : ProgramGraph) (from to : ℕ) → IsSymmetric g → unlink g from to ≡ some h → IsSymmetric h
unlink-IsSymmetric g h from to sym_g e =
    λ u v. let after = unlink_lem g h from to e u v in ground (arith, after.0, after.1, sym_g u v)
