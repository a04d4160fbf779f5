-- ===== src/Program/Fill/Nodes.antt =====
-- The nodes of a machine function (`ProgramGraph::fillGraphWithFunction` of
-- lib/Graph/ProgramGraph.cpp).
use llta.Prelude.{
  ==_iff, Bool-cases, List, Option, Option-cases, [], ap, arith, false, get_elem?, inl, inr, none,
  refl, some, suc, true, zero, ℕ, ◌+◌, ◌==◌, ◌∙◌, ◌∷◌, ◌≡◌,
}
use llta.Program.{ProgramGraph, ProgramNode, has_edge}
use llta.Program.Built.{Built, Built-IsSoundGraph, has_edge_added, node_added, none_above}
use llta.Program.Detach.Ids.{NoTwice}
use llta.Program.Fill.{
  FunctionFacts, MachineBlock, ModuleGraph, block_node, fill_nodes, with_new_node,
}
use llta.Program.Wire.{HasNode}
use llta.Solver.Graph.{mem_id, put}

abbrev pub keys : List MachineBlock → List ℕ
keys [] = []
keys (b ∷ bs) = b.key ∷ keys bs

-- The upper bound of a node's cost, where it is there.
abbrev pub cost_at : ProgramGraph → ℕ → Option ℕ
cost_at g id = elim (g.nodes id) [ none ↦ none | some n ↦ some n.max_cycles ]

abbrev pub latency : FunctionFacts → MachineBlock → ℕ
latency facts b = elim (facts.latency_of b.key) [ none ↦ 0 | some c ↦ c ]

-- A graph that has all that another has.
pub record Extends (g h : ProgramGraph) : Type 0 where
  pub built_on : Built h
  pub same_edges : (u v : ℕ) → has_edge h u v ≡ has_edge g u v
  pub held : (id : ℕ) → HasNode g id → HasNode h id
  pub costs_kept : (id : ℕ) → HasNode g id → cost_at h id ≡ cost_at g id

pub Extends-trans : (g h k : ProgramGraph) → Extends g h → Extends h k → Extends g k
Extends-trans g h k a b = record {
  built_on = b.built_on;
  same_edges = λ u v. b.same_edges u v ∙ a.same_edges u v;
  held = λ id n. b.held id (a.held id n);
  costs_kept = λ id n. b.costs_kept id (a.held id n) ∙ a.costs_kept id n;
}

pub block_node_lem :
    (facts : FunctionFacts) (b : MachineBlock)
    → ((block_node facts b).successors ≡ [])
      × ((block_node facts b).predecessors ≡ [])
      × ((block_node facts b).max_cycles ≡ latency facts b)
unfolding block_node
block_node_lem facts b = elim (Option-cases (facts.bound_of b.key)) [
  | inl none_there ↦ rw (none_there, block_node) (refl, refl, refl)
  | inr (bound, there) ↦ rw (there, block_node) (refl, refl, refl)
]

pub with_new_node-Extends :
    (g : ProgramGraph) (n : ProgramNode)
    → n.successors ≡ []
    → n.predecessors ≡ []
    → Built g
    → Extends g (with_new_node g n)
with_new_node-Extends g n no_out no_in b =
    let s = Built-IsSoundGraph b in
    let apart : (id : ℕ) → HasNode g id → (g.next_node_id == id) ≡ false =
      λ id has. let low = (s.numbers id).0 has in ground (arith, low) in
    record {
      built_on = node_added n no_out no_in b;
      same_edges = λ u v.
          let now = (has_edge_added g n u v no_out no_in).0 in
          let gone : (g.next_node_id == u) ≡ true → has_edge g u v ≡ false = λ e.
            none_above g (λ w. (s.numbers w).0) u v
              (omega (arith, (==_iff g.next_node_id u).0 e)) in
          ground (arith, now, gone);
      held = λ id has. (has.0, rw (apart id has) has.1);
      costs_kept = λ id has. rw (apart id has, cost_at) refl;
    }

module _ (facts : FunctionFacts) (function : ℕ) where
  pub record IsFilled (bs : List MachineBlock) (s t : ModuleGraph) : Type 0 where
    pub extends : Extends s.graph t.graph
    pub keyed :
        (k : ℕ)
        → mem_id k (keys bs) ≡ true
        → (id : ℕ) × (t.node_of k ≡ some id) × HasNode t.graph id
    pub others : (k : ℕ) → mem_id k (keys bs) ≡ false → t.node_of k ≡ s.node_of k
    pub numbered :
        (b : MachineBlock) (i : ℕ)
        → NoTwice (keys bs)
        → get_elem? bs i ≡ some b
        → (t.node_of b.key ≡ some (s.graph.next_node_id + i))
          × HasNode t.graph (s.graph.next_node_id + i)
          × (cost_at t.graph (s.graph.next_node_id + i) ≡ some (latency facts b))

  mem_of_get :
      (bs : List MachineBlock) (b : MachineBlock) (i : ℕ)
      → get_elem? bs i ≡ some b
      → mem_id b.key (keys bs) ≡ true
  unfolding mem_id
  mem_of_get [] b i h = absurd (cc)
  mem_of_get (c ∷ bs) b zero h =
      let e : c ≡ b = cc in rw (← e) (rw ((==_iff c.key c.key).1 refl) refl)
  mem_of_get (c ∷ bs) b (suc i) h = let rest = mem_of_get bs b i h in ground (arith, rest)

  -- The state after the first block.
  abbrev after_block : MachineBlock → ModuleGraph → ModuleGraph
  after_block b s = record s {
    graph = with_new_node s.graph (block_node facts b);
    node_of = put s.node_of b.key (some s.graph.next_node_id);
    function_of = put s.function_of s.graph.next_node_id (some function);
  }

  numbered_cons :
      (b : MachineBlock) (bs : List MachineBlock) (s t : ModuleGraph)
      → HasNode (after_block b s).graph s.graph.next_node_id
      → cost_at (after_block b s).graph s.graph.next_node_id ≡ some (latency facts b)
      → IsFilled bs (after_block b s) t
      → (c : MachineBlock) (i : ℕ) → NoTwice (keys (b ∷ bs))
      → get_elem? (b ∷ bs) i ≡ some c
      → (t.node_of c.key ≡ some (s.graph.next_node_id + i))
        × HasNode t.graph (s.graph.next_node_id + i)
        × (cost_at t.graph (s.graph.next_node_id + i) ≡ some (latency facts c))
  numbered_cons b bs s t here price rest c zero d h =
      let e : b ≡ c = cc in
      let at : s.graph.next_node_id + 0 ≡ s.graph.next_node_id = omega arith in
      let self : (b.key == b.key) ≡ true = (==_iff b.key b.key).1 refl in
      rw (at, ← e)
        (
          rest.others b.key d.0 ∙ rw self refl,
          rest.extends.held s.graph.next_node_id here,
          rest.extends.costs_kept s.graph.next_node_id here ∙ price,
        )
  numbered_cons b bs s t here price rest c (suc j) d h =
      let at : s.graph.next_node_id + suc j ≡ suc s.graph.next_node_id + j = omega arith in
      rw at (rest.numbered c j d.1 h)

  pub fill_nodes-IsFilled :
      (bs : List MachineBlock) (s : ModuleGraph)
      → Built s.graph
      → IsFilled bs s (fill_nodes facts function s bs)
  unfolding fill_nodes mem_id
  fill_nodes-IsFilled [] s b = record {
    extends = record {
      built_on = b;
      same_edges = λ u v. refl;
      held = λ id has. has;
      costs_kept = λ id has. refl;
    };
    keyed = λ k h. absurd (cc);
    others = λ k h. refl;
    numbered = λ c i d h. absurd (cc);
  }
  fill_nodes-IsFilled (b ∷ bs) s built =
      let (no_out, no_in, price) = block_node_lem facts b in
      let id = s.graph.next_node_id in
      let s' = after_block b s in
      let one = with_new_node-Extends s.graph (block_node facts b) no_out no_in built in
      let rest = fill_nodes-IsFilled bs s' one.built_on in
      let self : (id == id) ≡ true = (==_iff id id).1 refl in
      let here : HasNode s'.graph id = (block_node facts b, rw self refl) in
      record {
        extends = Extends-trans s.graph s'.graph _ one rest.extends;
        keyed = λ k h. elim (Bool-cases (mem_id k (keys bs))) [
          | inl later ↦ rest.keyed k later
          | inr not_later ↦
              let at : (b.key == k) ≡ true = ground (arith, h, not_later) in
              (id, rest.others k not_later ∙ rw at refl, rest.extends.held id here)
        ];
        others = λ k h.
            let off : mem_id k (keys bs) ≡ false = ground (arith, h) in
            let differ : (b.key == k) ≡ false = ground (arith, h) in
            rest.others k off ∙ rw differ refl;
        numbered =
            numbered_cons b bs s _ here (rw (self, cost_at) (ap (λ (c : ℕ). some c) price)) rest;
      }
