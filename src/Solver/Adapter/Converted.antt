-- ===== src/Solver/Adapter/Converted.antt =====
-- What the conversion of an abstract state graph gives (`GraphAdapter::convert` of
-- lib/Analysis/GraphAdapter.cpp).
use llta.Prelude.{
  ==_iff, All, Bool-cases, List, Option, [], ap, arith, get_elem?, if◌then◌else◌, inl, inr, leb,
  length, ltb, none, refl, some, suc, true, zero, ℕ, ◌&&◌, ◌+◌, ◌<◌, ◌==◌, ◌∙◌, ◌∷◌, ◌≡◌, ◌≤◌,
}
use llta.Program.{ProgramGraph, and_then, fresh_node, insert_node, link}
use llta.Program.Built.{Built}
use llta.Program.Fill.Link.{Adds, link-Adds}
use llta.Program.Fill.Nodes.{Extends, Extends-trans, cost_at, with_new_node-Extends}
use llta.Program.Wire.{HasNode}
use llta.Solver.Adapter.{Conversion, convert_all_edges, convert_edges, convert_node, convert_nodes}
use llta.Solver.Graph.{AbstractStateGraph, Edge, Node, mem_edge}

-- A node keeps its identifier.
abbrev pub below : ℕ → ℕ → Option ℕ
below n i = if ltb i n then some i else none

module _ {State : Type 0} where
  pub record IsConverting (k : ℕ) (ns : List (Node State)) (c d : Conversion) : Type 0 where
    pub grown : Extends c.converted d.converted
    pub next_now : d.converted.next_node_id ≡ k + length ns
    pub map_now : (i : ℕ) → d.new_nodes i ≡ below (k + length ns) i
    pub costs_now :
        (i : ℕ) (n : Node State)
        → get_elem? ns i ≡ some n
        → cost_at d.converted (k + i) ≡ some n.cost

  costs_cons :
      (k : ℕ) (n : Node State) (ns : List (Node State)) (c d : Conversion) (next : ℕ)
      → next ≡ k
      → HasNode c.converted next
      → cost_at c.converted next ≡ some n.cost
      → IsConverting (suc k) ns c d
      → (i : ℕ) (a : Node State) → get_elem? (n ∷ ns) i ≡ some a
      → cost_at d.converted (k + i) ≡ some a.cost
  costs_cons k n ns c d next is_k here price rest zero a h =
      let e : n ≡ a = cc in
      let at : k + 0 ≡ next = omega (arith, is_k) in
      ap (λ (j : ℕ). cost_at d.converted j) at
      ∙ rest.grown.costs_kept next here
      ∙ price
      ∙ ap (λ (m : Node State). some m.cost) e
  costs_cons k n ns c d next is_k here price rest (suc i) a h =
      let at : k + suc i ≡ suc k + i = omega arith in
      ap (λ (j : ℕ). cost_at d.converted j) at ∙ rest.costs_now i a h

  pub convert_nodes-IsConverting :
      (k : ℕ) (ns : List (Node State)) (c : Conversion)
      → Built c.converted
      → c.converted.next_node_id ≡ k
      → ((i : ℕ) → c.new_nodes i ≡ below k i)
      → IsConverting k ns c (convert_nodes k ns c)
  unfolding convert_nodes convert_node insert_node
  convert_nodes-IsConverting k [] c b next map_is = record {
    grown = record {
      built_on = b;
      same_edges = λ u v. refl;
      held = λ id has. has;
      costs_kept = λ id has. refl;
    };
    next_now = omega (arith, next);
    map_now = λ i. map_is i ∙ ground arith;
    costs_now = λ i n h. absurd (cc);
  }
  convert_nodes-IsConverting k (n ∷ ns) c b next map_is =
      let one = with_new_node-Extends c.converted (fresh_node n.cost n.cost) refl refl b in
      let m = convert_node k n c in
      let rest = convert_nodes-IsConverting (suc k) ns m one.built_on (omega (arith, next)) (λ i.
        elim (Bool-cases (k == i)) [
          | inl same ↦
              let at = (==_iff k i).0 same in
              let low : ltb i (suc k) ≡ true = ground (arith, at) in
              rw (same, low) (ap (λ (j : ℕ). some j) (next ∙ at))
          | inr apart ↦ rw apart (map_is i ∙ ground (arith, apart))
        ]) in
      let id = c.converted.next_node_id in
      let here : HasNode m.converted id =
        (fresh_node n.cost n.cost, rw ((==_iff id id).1 refl) refl) in
      let price : cost_at m.converted id ≡ some n.cost =
        rw (((==_iff id id).1 refl), cost_at) refl in
      record {
        grown = Extends-trans c.converted m.converted _ one rest.grown;
        next_now = omega (arith, rest.next_now);
        map_now = λ i. rest.map_now i ∙ ground arith;
        costs_now = costs_cons k n ns m _ id next here price rest;
      }

-- Nodes are there below a number.
abbrev pub HasAll : ℕ → ProgramGraph → Type 0
HasAll n g = (i : ℕ) → i < n → HasNode g i

abbrev pub AllEnds : ℕ → List Edge → Type 0
AllEnds n es = All (λ e. e.to < n) es

convert_edges-Adds :
    (n : ℕ) (map_to : ℕ → Option ℕ) (from : ℕ) (es : List Edge) (g : ProgramGraph)
    → ((i : ℕ) → map_to i ≡ below n i)
    → from < n
    → AllEnds n es
    → Built g
    → HasAll n g
    → (h : ProgramGraph) × (convert_edges map_to from es g ≡ some h)
      × Adds (λ u v. (from == u) && mem_edge v es) g h
unfolding convert_edges mem_edge
convert_edges-Adds n map_to from [] g map_is low ends b has = (
  g,
  refl,
  record {
    still_built = b;
    edges_now = λ u v. ground arith;
    nodes_held = λ id there. there;
    costs_held = λ id. refl;
  },
)
convert_edges-Adds n map_to from (e ∷ es) g map_is low ends b has =
    let (m, made, a) = link-Adds g from e.to b (has from low) (has e.to ends.0) in
    let (h, rest, d) =
      convert_edges-Adds n map_to from es m map_is low ends.1 a.still_built
        (λ i less. a.nodes_held i (has i less)) in
    let below_n : ltb e.to n ≡ true = ground (arith, ends.0) in
    let at : map_to e.to ≡ some e.to = map_is e.to ∙ rw below_n refl in
    (
      h,
      ap
            (λ (o : Option ℕ).
              and_then (elim o [ none ↦ some g | some to ↦ link g from to ])
                (convert_edges map_to from es))
            at
          ∙ ap (λ (o : Option ProgramGraph). and_then o (convert_edges map_to from es)) made
          ∙ rest,
      record {
        still_built = d.still_built;
        edges_now = λ u v. ground (arith, a.edges_now u v, d.edges_now u v);
        nodes_held = λ id there. d.nodes_held id (a.nodes_held id there);
        costs_held = λ id. d.costs_held id ∙ a.costs_held id;
      },
    )

module _ {State : Type 0} (a : AbstractStateGraph State) (n : ℕ) (map_to : ℕ → Option ℕ)
    (map_is : (i : ℕ) → map_to i ≡ below n i)
    (ends : (i : ℕ) → i < n → AllEnds n (a.adjacency i)) where
  pub convert_all_edges-Adds :
      (id : ℕ) (ns : List (Node State)) (g : ProgramGraph)
      → id + length ns ≤ n
      → Built g
      → HasAll n g
      → (h : ProgramGraph) × (convert_all_edges a map_to id ns g ≡ some h)
        × Adds (λ u v. leb id u && ltb u (id + length ns) && mem_edge v (a.adjacency u)) g h
  unfolding convert_all_edges
  convert_all_edges-Adds id [] g low b has = (
    g,
    refl,
    record {
      still_built = b;
      edges_now = λ u v. ground arith;
      nodes_held = λ j there. there;
      costs_held = λ j. refl;
    },
  )
  convert_all_edges-Adds id (x ∷ ns) g low b has =
      let less : id < n = omega (arith, low) in
      let (m, made, p) =
        convert_edges-Adds n map_to id (a.adjacency id) g map_is less (ends id less) b has in
      let (h, rest, q) =
        convert_all_edges-Adds (suc id) ns m (omega (arith, low)) p.still_built
          (λ i l. p.nodes_held i (has i l)) in
      let below_n : ltb id n ≡ true = ground (arith, less) in
      let at : map_to id ≡ some id = map_is id ∙ rw below_n refl in
      (
        h,
        ap
              (λ (o : Option ℕ).
                and_then
                  (elim o [
                    | none ↦ some g
                    | some from ↦ convert_edges map_to from (a.adjacency id) g
                  ])
                  (convert_all_edges a map_to (suc id) ns))
              at
            ∙ ap (λ (o : Option ProgramGraph). and_then o (convert_all_edges a map_to (suc id) ns))
                made
            ∙ rest,
        record {
          still_built = q.still_built;
          edges_now = λ u v.
              let same : (id == u) ≡ true
                  → mem_edge v (a.adjacency id) ≡ mem_edge v (a.adjacency u) =
                λ e. ap (λ (j : ℕ). mem_edge v (a.adjacency j)) ((==_iff id u).0 e) in
              ground (arith, p.edges_now u v, q.edges_now u v, same);
          nodes_held = λ j there. q.nodes_held j (p.nodes_held j there);
          costs_held = λ j. q.costs_held j ∙ p.costs_held j;
        },
      )
