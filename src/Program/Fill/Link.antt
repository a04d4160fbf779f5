-- ===== src/Program/Fill/Link.antt =====
-- Steps that add edges (`ProgramGraph::addEdge` of lib/Graph/ProgramGraph.cpp and the writes beside it).
use llta.Prelude.{
  ==_iff, Bool, Bool-cases, List, Option, [], ap, arith, false, inl, inr, map, refl, some, ℕ, ◌&&◌,
  ◌==◌, ◌||◌, ◌∙◌, ◌∷◌, ◌≡◌,
}
use llta.Program.{ProgramGraph, ProgramNode, add_predecessor, add_successor, has_edge, link, modify}
use llta.Program.Built.{Built, KeepsEdges, edge_added, has_edge_written, node_written}
use llta.Program.Fill.{MachineBlock, node_at}
use llta.Program.Fill.Nodes.{cost_at}
use llta.Program.Symmetry.{and_then_lem, link_lem, modify_lem}
use llta.Program.Wire.{HasNode, link-HasNode, modify-HasNode}

-- The pairs that the edges of the blocks give.
abbrev pub target_pair : (ℕ → Option ℕ) → ℕ → List ℕ → ℕ → ℕ → Bool
target_pair map from [] u v = false
target_pair map from (t ∷ ts) u v =
    ((node_at map from == u) && (node_at map t == v)) || target_pair map from ts u v

abbrev pub block_pair : (ℕ → Option ℕ) → List MachineBlock → ℕ → ℕ → Bool
block_pair map [] u v = false
block_pair map (b ∷ bs) u v = target_pair map b.key b.targets_of u v || block_pair map bs u v

-- A step that adds edges and keeps the nodes and their costs.
pub record Adds (pairs : ℕ → ℕ → Bool) (g h : ProgramGraph) : Type 0 where
  pub still_built : Built h
  pub edges_now : (u v : ℕ) → has_edge h u v ≡ (pairs u v || has_edge g u v)
  pub nodes_held : (id : ℕ) → HasNode g id → HasNode h id
  pub costs_held : (id : ℕ) → cost_at h id ≡ cost_at g id

pub Adds-trans :
    (p q : ℕ → ℕ → Bool) (g h k : ProgramGraph)
    → Adds p g h
    → Adds q h k
    → Adds (λ u v. p u v || q u v) g k
Adds-trans p q g h k a b = record {
  still_built = b.still_built;
  edges_now = λ u v. ground (arith, a.edges_now u v, b.edges_now u v);
  nodes_held = λ id n. b.nodes_held id (a.nodes_held id n);
  costs_held = λ id. b.costs_held id ∙ a.costs_held id;
}

pub modify-cost :
    (g h : ProgramGraph) (id : ℕ) (f : ProgramNode → ProgramNode)
    → ((n : ProgramNode) → (f n).max_cycles ≡ n.max_cycles)
    → modify g id f ≡ some h
    → (j : ℕ) → cost_at h j ≡ cost_at g j
modify-cost g h id f keeps e j =
    let (n, there, after) = modify_lem g h id f e in
    elim (Bool-cases (id == j)) [
      | inl same ↦
          let now : h.nodes j ≡ some (f n) = after j ∙ rw same refl in
          let was : g.nodes j ≡ some n = rw (← (==_iff id j).0 same) there in
          rw (now, was, cost_at) (ap (λ (c : ℕ). some c) (keeps n))
      | inr other ↦
          let now : h.nodes j ≡ g.nodes j = after j ∙ rw other refl in rw (now, cost_at) refl
    ]

pub link-Adds :
    (g : ProgramGraph) (from to : ℕ)
    → Built g
    → HasNode g from
    → HasNode g to
    → (h : ProgramGraph) × (link g from to ≡ some h) × Adds (λ u v. (from == u) && (to == v)) g h
unfolding link
link-Adds g from to b has_from has_to =
    let (h, made, kept) = link-HasNode g from to has_from has_to in
    let (m, first, second) =
      and_then_lem (modify g from (add_successor to)) (λ k. modify k to (add_predecessor from)) h
        made in
    (
      h,
      made,
      record {
        still_built = edge_added from to made b;
        edges_now = λ u v. (link_lem g h from to made u v).0;
        nodes_held = kept;
        costs_held = λ id.
            modify-cost m h to (add_predecessor from) (λ n. refl) second id
            ∙ modify-cost g m from (add_successor to) (λ n. refl) first id;
      },
    )

pub write-Adds :
    (g : ProgramGraph) (id : ℕ) (f : ProgramNode → ProgramNode)
    → Built g
    → HasNode g id
    → KeepsEdges f
    → ((n : ProgramNode) → (f n).max_cycles ≡ n.max_cycles)
    → (h : ProgramGraph) × (modify g id f ≡ some h) × Adds (λ u v. false) g h
write-Adds g id f b has keeps price =
    let (h, made, kept) = modify-HasNode g id f has in
    (
      h,
      made,
      record {
        still_built = node_written id f keeps made b;
        edges_now = λ u v. (has_edge_written g h id f keeps made u v).0;
        nodes_held = kept;
        costs_held = λ j. modify-cost g h id f price made j;
      },
    )
