-- ===== src/Solver/Graph/Edges.antt =====
-- The edges after each operation of the abstract state graph
-- (lib/Analysis/AbstractStateGraph.cpp).
use llta.Prelude.{
  Bool, List, [], ap, arith, false, if◌then◌else◌, refl, true, ℕ, ◌&&◌, ◌==◌, ◌∷◌, ◌≡◌,
}
use llta.Solver.Graph.{
  AbstractStateGraph, Edge, IsConsistent, add_edge, erase_edge, erase_id, insert_edge, insert_id,
  mem_edge, mem_id, remove_edge,
}

pub mem_edge-insert_edge :
    (v : ℕ) (e : Edge) (es : List Edge)
    → mem_edge v (insert_edge e es) ≡ (if e.to == v then true else mem_edge v es)
unfolding mem_edge insert_edge
mem_edge-insert_edge v e [] = refl
mem_edge-insert_edge v e (f ∷ es) = ground (arith, mem_edge-insert_edge v e es)

pub mem_id-insert_id :
    (v n : ℕ) (ms : List ℕ) → mem_id v (insert_id n ms) ≡ (if n == v then true else mem_id v ms)
unfolding mem_id insert_id
mem_id-insert_id v n [] = refl
mem_id-insert_id v n (m ∷ ms) = ground (arith, mem_id-insert_id v n ms)

mem_edge-erase_edge :
    (v to : ℕ) (es : List Edge)
    → mem_edge v (erase_edge to es) ≡ (if to == v then false else mem_edge v es)
unfolding mem_edge erase_edge
mem_edge-erase_edge v to [] = ground arith
mem_edge-erase_edge v to (f ∷ es) = ground (arith, mem_edge-erase_edge v to es)

pub mem_id-erase_id :
    (v n : ℕ) (ms : List ℕ) → mem_id v (erase_id n ms) ≡ (if n == v then false else mem_id v ms)
unfolding mem_id erase_id
mem_id-erase_id v n [] = ground arith
mem_id-erase_id v n (m ∷ ms) = ground (arith, mem_id-erase_id v n ms)

module _ {State : Type 0} (g : AbstractStateGraph State) where
  -- The pairs that are edges after an insertion and after a removal.
  pub mem_edge-add_edge :
      (from to : ℕ) (back : Bool) (u v : ℕ)
      → mem_edge v ((add_edge g from to back).adjacency u)
        ≡ (if (from == u) && (to == v) then true else mem_edge v (g.adjacency u))
  unfolding add_edge
  mem_edge-add_edge from to back u v = ground (
    arith,
    mem_edge-insert_edge v (record { to = to; is_back_edge = back }) (g.adjacency from),
    ap (λ (w : ℕ). mem_edge v (g.adjacency w)) {x = from} {y = u},
  )

  -- Where the successors and the predecessors tell the same edges, they do so when an edge is added.
  pub add_edge-IsConsistent :
      (from to : ℕ) (back : Bool) → IsConsistent g → IsConsistent (add_edge g from to back)
  unfolding add_edge
  add_edge-IsConsistent from to back h u v = ground (
    arith,
    mem_edge-insert_edge v (record { to = to; is_back_edge = back }) (g.adjacency from),
    mem_id-insert_id u from (g.preds to),
    h u v,
    h from to,
    h from v,
    h u to,
  )

  pub remove_edge-IsConsistent :
      (from to : ℕ) → IsConsistent g → IsConsistent (remove_edge g from to)
  unfolding remove_edge
  remove_edge-IsConsistent from to h u v = ground (
    arith,
    mem_edge-erase_edge v to (g.adjacency from),
    mem_id-erase_id u from (g.preds to),
    h u v,
    h from to,
    h from v,
    h u to,
  )

  -- When the lists of edges and of predecessors tell the same edges, they do so after an edge is added
  -- and after an edge is removed.
  pub edges-IsConsistent :
      (from to : ℕ) (back : Bool)
      → IsConsistent g
      → IsConsistent (add_edge g from to back) × IsConsistent (remove_edge g from to)
  edges-IsConsistent from to back h =
      (add_edge-IsConsistent from to back h, remove_edge-IsConsistent from to h)
