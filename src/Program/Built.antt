-- ===== src/Program/Built.antt =====
-- The graphs that the operations of `ProgramGraph` build (lib/Graph/ProgramGraph.cpp).
use llta.Prelude.{
  ==_iff, Bool-cases, List, Option-cases, [], ap, arith, false, inl, inr, none, not, refl, some,
  suc, sym, true, ℕ, ◌&&◌, ◌<◌, ◌==◌, ◌↔◌, ◌∙◌, ◌∷◌, ◌≡◌, ◌≤◌,
}
use llta.Program.{
  ProgramGraph, ProgramNode, add_predecessor, add_successor, fresh_node, has_edge, has_reverse,
  insert_node, link, modify,
}
use llta.Program.Detach.Pruned.{edges_of}
use llta.Program.Detach.Removed.{has_edge-HasNode, has_reverse-HasNode}
use llta.Program.Prune.Fuel.{AllBelow, IsNumbered}
use llta.Program.Symmetry.{IsSymmetric, and_then_lem, link-IsSymmetric, modify_lem}
use llta.Program.Wire.{HasNode}
use llta.Solver.Graph.{mem_id, put}

abbrev pub empty_program : ProgramGraph
empty_program = record { nodes = λ _. none; next_node_id = 0 }

-- A write to a node that leaves its edges alone.
abbrev pub KeepsEdges : (ProgramNode → ProgramNode) → Type 0
KeepsEdges f =
    (n : ProgramNode) → ((f n).successors ≡ n.successors) × ((f n).predecessors ≡ n.predecessors)

-- Nodes without edges are added, as `insert_node` and `with_new_node` do, edges are added between nodes,
-- and nodes are written.
pub data Built : ProgramGraph → Type 0 where
  nothing_yet : Built empty_program
  node_added :
      {g : ProgramGraph} (n : ProgramNode)
      → n.successors ≡ []
      → n.predecessors ≡ []
      → Built g
      → Built (record {
        nodes = put g.nodes g.next_node_id (some n);
        next_node_id = suc g.next_node_id;
      })
  edge_added : {g h : ProgramGraph} (u v : ℕ) → link g u v ≡ some h → Built g → Built h
  node_written :
      {g h : ProgramGraph} (id : ℕ) (f : ProgramNode → ProgramNode)
      → KeepsEdges f
      → modify g id f ≡ some h
      → Built g
      → Built h

insert_node-Built :
    (g : ProgramGraph) (upper lower : ℕ) → Built g → Built (insert_node g upper lower).0
unfolding insert_node
insert_node-Built g upper lower built = node_added (fresh_node upper lower) refl refl built

-- What the pruning relies on.
pub record IsSoundGraph (g : ProgramGraph) : Type 0 where
  pub two_lists : IsSymmetric g
  pub numbers : (id : ℕ) → HasNode g id ↔ (id < g.next_node_id)

pub same_next :
    (g h : ProgramGraph) (id : ℕ) (f : ProgramNode → ProgramNode)
    → modify g id f ≡ some h
    → h.next_node_id ≡ g.next_node_id
unfolding modify
same_next g h id f e = elim (Option-cases (g.nodes id)) [
  | inl gone ↦ let never : none ≡ some h = sym (rw (gone, modify) refl) ∙ e in absurd (cc)
  | inr (n, there) ↦
      let made : some (record g { nodes = put g.nodes id (some (f n)) }) ≡ some h =
        sym (rw (there, modify) refl) ∙ e in
      let same : record g { nodes = put g.nodes id (some (f n)) } ≡ h = cc in
      sym (ap (λ (k : ProgramGraph). k.next_node_id) same)
]

modify-numbers :
    (g h : ProgramGraph) (id : ℕ) (f : ProgramNode → ProgramNode)
    → modify g id f ≡ some h
    → ((j : ℕ) → HasNode g j ↔ (j < g.next_node_id))
    → (j : ℕ) → HasNode h j ↔ (j < h.next_node_id)
modify-numbers g h id f e before j =
    let (n, there, after) = modify_lem g h id f e in
    let next = same_next g h id f e in
    elim (Bool-cases (id == j)) [
      | inl same ↦
          let at = (==_iff id j).0 same in
          let low = (before id).0 (n, there) in
          (λ _. omega (arith, next, at), λ _. (f n, after j ∙ rw same refl))
      | inr other ↦ (
        λ (m, there').
            omega (arith, next, (before j).0 (m, sym (after j ∙ rw other refl) ∙ there')),
        λ h'.
            let (m, there') = (before j).1 (omega (arith, next)) in (m, after j ∙ rw other there'),
      )
    ]

pub has_edge_written :
    (g h : ProgramGraph) (id : ℕ) (f : ProgramNode → ProgramNode)
    → KeepsEdges f
    → modify g id f ≡ some h
    → (u v : ℕ) → (has_edge h u v ≡ has_edge g u v) × (has_reverse h u v ≡ has_reverse g u v)
unfolding has_edge has_reverse
has_edge_written g h id f keeps e u v =
    let (n, there, after) = modify_lem g h id f e in
    (
      elim (Bool-cases (id == u)) [
        | inl same ↦
            let here : h.nodes u ≡ some (f n) = after u ∙ rw same refl in
            let was : g.nodes u ≡ some n = rw (← (==_iff id u).0 same) there in
            rw (here, was, has_edge) (ap (mem_id v) (keeps n).0)
        | inr other ↦
            let here : h.nodes u ≡ g.nodes u = after u ∙ rw other refl in rw (here, has_edge) refl
      ],
      elim (Bool-cases (id == v)) [
        | inl same ↦
            let here : h.nodes v ≡ some (f n) = after v ∙ rw same refl in
            let was : g.nodes v ≡ some n = rw (← (==_iff id v).0 same) there in
            rw (here, was, has_reverse) (ap (mem_id u) (keeps n).1)
        | inr other ↦
            let here : h.nodes v ≡ g.nodes v = after v ∙ rw other refl in
            rw (here, has_reverse) refl
      ],
    )

pub has_edge_added :
    (g : ProgramGraph) (n : ProgramNode) (u v : ℕ)
    → n.successors ≡ []
    → n.predecessors ≡ []
    → let h : ProgramGraph = record {
      nodes = put g.nodes g.next_node_id (some n);
      next_node_id = suc g.next_node_id;
    } in
      (has_edge h u v ≡ (not (g.next_node_id == u) && has_edge g u v))
      × (has_reverse h u v ≡ (not (g.next_node_id == v) && has_reverse g u v))
unfolding has_edge has_reverse mem_id
has_edge_added g n u v no_out no_in = (
  elim (Bool-cases (g.next_node_id == u)) [
    | inl same ↦ rw (same, no_out, has_edge) refl
    | inr other ↦ rw (other, has_edge) refl
  ],
  elim (Bool-cases (g.next_node_id == v)) [
    | inl same ↦ rw (same, no_in, has_reverse) refl
    | inr other ↦ rw (other, has_reverse) refl
  ],
)

link-numbers :
    (g h : ProgramGraph) (u v : ℕ)
    → link g u v ≡ some h
    → ((j : ℕ) → HasNode g j ↔ (j < g.next_node_id))
    → (j : ℕ) → HasNode h j ↔ (j < h.next_node_id)
unfolding link
link-numbers g h u v e before =
    let (m, first, second) =
      and_then_lem (modify g u (add_successor v)) (λ k. modify k v (add_predecessor u)) h e in
    modify-numbers m h v (add_predecessor u) second
      (modify-numbers g m u (add_successor v) first before)

pub none_above :
    (g : ProgramGraph)
    → ((id : ℕ) → HasNode g id → id < g.next_node_id)
    → (u v : ℕ) → g.next_node_id ≤ u
    → has_edge g u v ≡ false
none_above g low u v h = elim (Bool-cases (has_edge g u v)) [
  | inr none_there ↦ none_there
  | inl there ↦ absurd (omega (arith, low u (has_edge-HasNode g u v there)))
]

pub none_above_back :
    (g : ProgramGraph)
    → ((id : ℕ) → HasNode g id → id < g.next_node_id)
    → (u v : ℕ) → g.next_node_id ≤ v
    → has_reverse g u v ≡ false
none_above_back g low u v h = elim (Bool-cases (has_reverse g u v)) [
  | inr none_there ↦ none_there
  | inl there ↦ absurd (omega (arith, low v (has_reverse-HasNode g u v there)))
]

-- Every graph that is built this way has each edge in both lists, and its nodes are the identifiers
-- that were given out.
pub Built-IsSoundGraph : {g : ProgramGraph} → Built g → IsSoundGraph g
Built-IsSoundGraph nothing_yet = record {
  two_lists = λ u v. unfold has_edge has_reverse in refl;
  numbers = λ id. (λ (n, at). cc, λ h. absurd (omega arith));
}
Built-IsSoundGraph (node_added {g} n no_out no_in b) =
    let s = Built-IsSoundGraph b in
    record {
      two_lists = λ u v.
          let now = has_edge_added g n u v no_out no_in in
          let gone_u : (g.next_node_id == u) ≡ true → has_edge g u v ≡ false = λ e.
            none_above g (λ w. (s.numbers w).0) u v
              (omega (arith, (==_iff g.next_node_id u).0 e)) in
          let gone_v : (g.next_node_id == v) ≡ true → has_reverse g u v ≡ false = λ e.
            none_above_back g (λ w. (s.numbers w).0) u v
              (omega (arith, (==_iff g.next_node_id v).0 e)) in
          ground (arith, now.0, now.1, gone_u, gone_v, s.two_lists u v);
      numbers = λ id. elim (Bool-cases (g.next_node_id == id)) [
        | inl same ↦ (λ _. omega (arith, (==_iff g.next_node_id id).0 same), λ _. (n, rw same refl))
        | inr other ↦ (
          λ (m, at). omega (arith, (s.numbers id).0 (m, sym (rw other refl) ∙ at)),
          λ h. let (m, at) = (s.numbers id).1 (ground (arith, other, h)) in (m, rw other at),
        )
      ];
    }
Built-IsSoundGraph (edge_added {g} {h} u v e b) =
    let s = Built-IsSoundGraph b in
    record {
      two_lists = link-IsSymmetric g h u v s.two_lists e;
      numbers = link-numbers g h u v e s.numbers;
    }
Built-IsSoundGraph (node_written {g} {h} id f keeps e b) =
    let s = Built-IsSoundGraph b in
    record {
      two_lists = λ u v.
          let now = has_edge_written g h id f keeps e u v in now.0 ∙ s.two_lists u v ∙ sym now.1;
      numbers = modify-numbers g h id f e s.numbers;
    }

-- So the pruning can rely on it.
All_targets :
    (g : ProgramGraph) (ss : List ℕ)
    → ((v : ℕ) → mem_id v ss ≡ true → v < g.next_node_id)
    → AllBelow g.next_node_id ss
unfolding mem_id
All_targets g [] h = tt
All_targets g (s ∷ ss) h =
    (h s (rw ((==_iff s s).1 refl) refl), All_targets g ss (λ v m. h v (ground (arith, m))))

pub IsSoundGraph-IsNumbered : (g : ProgramGraph) → IsSoundGraph g → IsNumbered g
IsSoundGraph-IsNumbered g s = record {
  full = λ id h. (s.numbers id).1 h;
  targets = λ id n there. All_targets g n.successors (λ v m.
      (s.numbers v).0
        (has_reverse-HasNode g id v (sym (s.two_lists id v) ∙ edges_of g id v n there ∙ m)));
}
