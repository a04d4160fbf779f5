-- ===== src/Program/Fill/Ends.antt =====
-- The wiring of the start function's entry and exit, on a graph that was built
-- (`ProgramGraph::wireEntryExit` of lib/Graph/ProgramGraph.cpp).
use llta.Prelude.{Bool-cases, List, [], inl, inr, refl, some, subst, ℕ, ◌==◌, ◌∙◌, ◌∷◌, ◌≡◌}
use llta.Program.{
  ProgramGraph, ProgramNode, add_predecessor, add_successor, and_then, back_of, link, modify,
  wire_entry_exit, wire_fallback, wire_returns,
}
use llta.Program.Built.{Built, edge_added}
use llta.Program.Fill.Link.{modify-cost}
use llta.Program.Fill.Nodes.{cost_at}
use llta.Program.Symmetry.{and_then_lem, modify_lem}
use llta.Program.Wire.{HasNode}

-- The wiring keeps what the graph has.
pub record Keeps (g h : ProgramGraph) : Type 0 where
  pub built_still : Built h
  pub nodes_kept : (id : ℕ) → HasNode g id → HasNode h id
  pub costs_still : (id : ℕ) → cost_at h id ≡ cost_at g id

modify_has :
    (g h : ProgramGraph) (id : ℕ) (f : ProgramNode → ProgramNode)
    → modify g id f ≡ some h
    → (j : ℕ) → HasNode g j
    → HasNode h j
modify_has g h id f e j has =
    let (n, there, after) = modify_lem g h id f e in
    elim (Bool-cases (id == j)) [
      | inl same ↦ (f n, after j ∙ rw same refl)
      | inr other ↦ (has.0, after j ∙ rw other has.1)
    ]

link-Keeps : (g h : ProgramGraph) (u v : ℕ) → Built g → link g u v ≡ some h → Keeps g h
unfolding link
link-Keeps g h u v b e =
    let (m, first, second) =
      and_then_lem (modify g u (add_successor v)) (λ k. modify k v (add_predecessor u)) h e in
    record {
      built_still = edge_added u v e b;
      nodes_kept = λ id has.
          modify_has m h v (add_predecessor u) second id
            (modify_has g m u (add_successor v) first id has);
      costs_still = λ id.
          modify-cost m h v (add_predecessor u) (λ x. refl) second id
          ∙ modify-cost g m u (add_successor v) (λ x. refl) first id;
    }

Keeps-trans : (g h k : ProgramGraph) → Keeps g h → Keeps h k → Keeps g k
Keeps-trans g h k a b = record {
  built_still = b.built_still;
  nodes_kept = λ id n. b.nodes_kept id (a.nodes_kept id n);
  costs_still = λ id. b.costs_still id ∙ a.costs_still id;
}

pub wire_returns-Keeps :
    (g h : ProgramGraph) (rs : List ℕ) (exit : ℕ)
    → Built g
    → wire_returns g rs exit ≡ some h
    → Keeps g h
unfolding wire_returns
wire_returns-Keeps g h [] exit b e =
    let same : g ≡ h = cc in
    subst (Keeps g) same
      (record { built_still = b; nodes_kept = λ id n. n; costs_still = λ id. refl })
wire_returns-Keeps g h (r ∷ rs) exit b e =
    let (m, first, rest) = and_then_lem (link g r exit) (λ k. wire_returns k rs exit) h e in
    let one = link-Keeps g m r exit b first in
    Keeps-trans g m h one (wire_returns-Keeps m h rs exit one.built_still rest)

wire_fallback-Keeps :
    (g h : ProgramGraph) (first : ℕ) (body rs : List ℕ) (exit : ℕ)
    → Built g
    → wire_fallback g first body rs exit ≡ some h
    → Keeps g h
unfolding wire_fallback
wire_fallback-Keeps g h first body [] exit b e = link-Keeps g h (back_of first body) exit b e
wire_fallback-Keeps g h first body (r ∷ rs) exit b e =
    let same : g ≡ h = cc in
    subst (Keeps g) same
      (record { built_still = b; nodes_kept = λ id n. n; costs_still = λ id. refl })

pub wire_entry_exit-Keeps :
    (g h : ProgramGraph) (body rs : List ℕ) (entry exit : ℕ)
    → Built g
    → wire_entry_exit g body rs entry exit ≡ some h
    → Keeps g h
unfolding wire_entry_exit
wire_entry_exit-Keeps g h [] rs entry exit b e =
    let (m, first, rest) = and_then_lem (wire_returns g rs exit) (λ k. link k entry exit) h e in
    let one = wire_returns-Keeps g m rs exit b first in
    Keeps-trans g m h one (link-Keeps m h entry exit one.built_still rest)
wire_entry_exit-Keeps g h (f ∷ body) rs entry exit b e =
    let (m, first, rest) =
      and_then_lem (link g entry f)
        (λ k. and_then (wire_returns k rs exit) (λ l. wire_fallback l f body rs exit)) h e in
    let (n, second, third) =
      and_then_lem (wire_returns m rs exit) (λ l. wire_fallback l f body rs exit) h rest in
    let one = link-Keeps g m entry f b first in
    let two = wire_returns-Keeps m n rs exit one.built_still second in
    Keeps-trans g m h one
      (Keeps-trans m n h two (wire_fallback-Keeps n h f body rs exit two.built_still third))
