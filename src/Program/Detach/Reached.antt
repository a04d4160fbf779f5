-- ===== src/Program/Detach/Reached.antt =====
-- What the whole pruning leaves (`ProgramGraph::finalize`, lib/Graph/ProgramGraph.cpp).
use llta.Prelude.{
  ==_iff, Bool, List, Option, [], ap, arith, false, none, not, refl, some, sym, true, ℕ, ◌&&◌, ◌<◌,
  ◌==◌, ◌↔◌, ◌∙◌, ◌∷◌, ◌≡◌,
}
use llta.Program.{ProgramGraph, and_then, has_edge}
use llta.Program.Detach.{detach_all, prune, unreachable_ids}
use llta.Program.Detach.Ids.{
  NoTwice, NoTwice-unreachable_ids, mem_id-unreachable_ids, there_is-HasNode,
}
use llta.Program.Detach.Pruned.{detach-IsWithout}
use llta.Program.Detach.Removed.{has_edge-HasNode, has_reverse-HasNode}
use llta.Program.Prune.{reachable_set}
use llta.Program.Prune.Exact.{Reach, along}
use llta.Program.Prune.Fuel.{IsNumbered, reachable_set_lem}
use llta.Program.Symmetry.{IsSymmetric}
use llta.Program.Wire.{HasNode}
use llta.Solver.Graph.{mem_id}

-- The part of the graph on the nodes that are kept.
pub record IsPart (g h : ProgramGraph) (keep : ℕ → Bool) : Type 0 where
  pub part_edges : (u v : ℕ) → has_edge h u v ≡ (keep u && keep v && has_edge g u v)
  pub part_two : IsSymmetric h
  pub part_nodes : (j : ℕ) → HasNode h j ↔ ((keep j ≡ true) × HasNode g j)

detach_all-IsPart :
    (g : ProgramGraph) (ids : List ℕ)
    → IsSymmetric g
    → NoTwice ids
    → ((v : ℕ) → mem_id v ids ≡ true → HasNode g v)
    → (h : ProgramGraph) × (detach_all g ids ≡ some h) × IsPart g h (λ v. not (mem_id v ids))
unfolding detach_all mem_id
detach_all-IsPart g [] two d has = (
  g,
  refl,
  record {
    part_edges = λ u v. ground arith;
    part_two = two;
    part_nodes = λ j. (λ h. (refl, h), λ h. h.1);
  },
)
detach_all-IsPart g (id ∷ ids) two d has =
    let (h, first, w) = detach-IsWithout g id two (has id (rw ((==_iff id id).1 refl) refl)) in
    let apart : (v : ℕ) → mem_id v ids ≡ true → (id == v) ≡ false = λ v m.
      let at : (id == v) ≡ true → mem_id id ids ≡ mem_id v ids =
        λ e. ap (λ (j : ℕ). mem_id j ids) ((==_iff id v).0 e) in
      ground (arith, at, m, d.0) in
    let (k, rest, p) =
      detach_all-IsPart h ids w.two_ended d.1
        (λ v m. (w.nodes_left v).1 (apart v m, has v (ground (arith, m)))) in
    (
      k,
      ap (λ (o : Option ProgramGraph). and_then o (λ l. detach_all l ids)) first ∙ rest,
      record {
        part_edges = λ u v. ground (arith, p.part_edges u v, w.edges u v);
        part_two = p.part_two;
        part_nodes = λ j. (
          λ x.
              let y = (p.part_nodes j).0 x in
              let z = (w.nodes_left j).0 y.1 in (ground (arith, y.0, z.0), z.1),
          λ y.
              (p.part_nodes j).1
                (ground (arith, y.0), (w.nodes_left j).1 (ground (arith, y.0), y.1)),
        );
      },
    )

-- `finalize` from the sweep on; none where the fuel runs out or a lookup throws.
unfoldable pub prune_unreachable : ℕ → ProgramGraph → ℕ → Option ProgramGraph
prune_unreachable fuel g entry = elim (reachable_set fuel g entry) [
  | none ↦ none
  | some seen ↦ prune g seen
]

-- Every node has an identifier that was given out.
abbrev pub IsGiven : ProgramGraph → Type 0
IsGiven g = (id : ℕ) → HasNode g id → id < g.next_node_id

-- What is left is reached, and all that is reached is left.
pub record IsReached (g h : ProgramGraph) (entry : ℕ) : Type 0 where
  pub reached_nodes : (v : ℕ) → HasNode h v ↔ (Reach g entry v × HasNode g v)
  pub reached_edges :
      (u v : ℕ) → (has_edge h u v ≡ true) ↔ (Reach g entry u × (has_edge g u v ≡ true))
  pub reached_two : IsSymmetric h

-- On a graph whose edges are in both lists, whose nodes are the identifiers that were given out and
-- whose edges go to nodes, the sweep and the removal end without a failure, with one round for each
-- node. The graph that is left has the nodes that the entry reaches and all the edges from them, and
-- no other.
pub prune_unreachable_lem :
    (g : ProgramGraph) (entry : ℕ)
    → IsSymmetric g
    → IsNumbered g
    → IsGiven g
    → entry < g.next_node_id
    → (h : ProgramGraph) × (prune_unreachable g.next_node_id g entry ≡ some h) × IsReached g h entry
unfolding prune_unreachable prune
prune_unreachable_lem g entry two numbered given less =
    let (r, found, exact) = reachable_set_lem g numbered entry less in
    let ids = unreachable_ids g r g.next_node_id in
    let left = mem_id-unreachable_ids g r g.next_node_id in
    let has : (v : ℕ) → mem_id v ids ≡ true → HasNode g v =
      λ v m. (there_is-HasNode g v).0 (ground (arith, left v, m)) in
    let (h, done, p) =
      detach_all-IsPart g ids two (NoTwice-unreachable_ids g r g.next_node_id) has in
    let out : (v : ℕ) → HasNode g v → not (mem_id v ids) ≡ r v = λ v at.
      let low = given v at in
      let on = (there_is-HasNode g v).1 at in ground (arith, left v, low, on) in
    (
      h,
      rw (found, prune_unreachable) done,
      record {
        reached_nodes = λ v. (
          λ x. let y = (p.part_nodes v).0 x in ((exact v).0 (sym (out v y.1) ∙ y.0), y.1),
          λ y. (p.part_nodes v).1 (out v y.1 ∙ (exact v).1 y.0, y.1),
        );
        reached_edges = λ u v. (
          λ x.
              let e = p.part_edges u v in
              let edge : has_edge g u v ≡ true = ground (arith, e, x) in
              let from = out u (has_edge-HasNode g u v edge) in
              ((exact u).0 (sym from ∙ ground (arith, e, x)), edge),
          λ y.
              let from = out u (has_edge-HasNode g u v y.1) ∙ (exact u).1 y.0 in
              let to =
                out v (has_reverse-HasNode g u v (sym (two u v) ∙ y.1))
                ∙ (exact v).1 (along y.0 y.1) in
              p.part_edges u v ∙ ground (arith, from, to, y.1),
        );
        reached_two = p.part_two;
      },
    )
