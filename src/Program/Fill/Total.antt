-- ===== src/Program/Fill/Total.antt =====
-- The graph after a machine function is added (`ProgramGraph::fillGraphWithFunction` of
-- lib/Graph/ProgramGraph.cpp).
use llta.Prelude.{
  ==_iff, All, Bool, Bool-cases, List, Option, [], ap, arith, false, get_elem?, inl, inr, map, refl,
  some, subst, suc, sym, true, ℕ, ◌+◌, ◌||◌, ◌∙◌, ◌∷◌, ◌≡◌,
}
use llta.Program.{ProgramGraph, has_edge}
use llta.Program.Built.{Built}
use llta.Program.Detach.Ids.{NoTwice}
use llta.Program.Fill.{
  FunctionFacts, MachineBlock, ModuleGraph, add_ends, body_ids, fill_edges, fill_function,
  fill_nodes, node_at, record_blocks, return_ids, set_entry, wire_ends,
}
use llta.Program.Fill.Edges.{AllPlaced, AllPlaced-held, AllThere, fill_edges-Adds}
use llta.Program.Fill.Ends.{wire_entry_exit-Keeps}
use llta.Program.Fill.Kept.{
  EndsThere, EndsThere-held, add_ends-Extends, end_pair, first_block, record_blocks-SameGraph,
  set_entry-SameGraph,
}
use llta.Program.Fill.Link.{Adds, block_pair}
use llta.Program.Fill.Nodes.{cost_at, fill_nodes-IsFilled, keys, latency}
use llta.Program.Total.{wire_entry_exit-total}
use llta.Program.Wire.{HasNode, wire_entry_exit_lem}
use llta.Solver.Graph.{mem_id}

-- Each target of a block is a block of the function.
abbrev pub AllTargets : List ℕ → List MachineBlock → Type 0
AllTargets ks bs = All (λ b. All (λ t. mem_id t ks ≡ true) b.targets_of) bs

-- The blocks have keys of the list.
abbrev pub AllKeyed : List ℕ → List MachineBlock → Type 0
AllKeyed ks bs = All (λ b. mem_id b.key ks ≡ true) bs

module _ (map : ℕ → Option ℕ) (g : ProgramGraph) (ks : List ℕ)
    (keyed : (k : ℕ) → mem_id k ks ≡ true → (id : ℕ) × (map k ≡ some id) × HasNode g id) where
  at_key : (k : ℕ) → mem_id k ks ≡ true → HasNode g (node_at map k)
  at_key k h = let (id, there, has) = keyed k h in rw (there, node_at) has

  targets_there : (ts : List ℕ) → All (λ t. mem_id t ks ≡ true) ts → AllThere map g ts
  targets_there [] all = tt
  targets_there (t ∷ ts) all = (at_key t all.0, targets_there ts all.1)

  pub placed : (bs : List MachineBlock) → AllKeyed ks bs → AllTargets ks bs → AllPlaced map g bs
  placed [] known all = tt
  placed (b ∷ bs) known all =
      ((at_key b.key known.0, targets_there b.targets_of all.0), placed bs known.1 all.1)

  pub bodies_there : (bs : List MachineBlock) → AllKeyed ks bs → All (HasNode g) (body_ids map bs)
  bodies_there [] known = tt
  bodies_there (b ∷ bs) known = (at_key b.key known.0, bodies_there bs known.1)

  pub returns_there :
      (bs : List MachineBlock) → AllKeyed ks bs → All (HasNode g) (return_ids map bs)
  unfolding return_ids
  returns_there [] known = tt
  returns_there (b ∷ bs) known = elim (Bool-cases b.returns) [
    | inl here ↦ rw (here, return_ids) (at_key b.key known.0, returns_there bs known.1)
    | inr off ↦ rw (off, return_ids) (returns_there bs known.1)
  ]

pub block_keys :
    (bs : List MachineBlock) (ks : List ℕ)
    → ((k : ℕ) → mem_id k (keys bs) ≡ true → mem_id k ks ≡ true)
    → All (λ b. mem_id b.key ks ≡ true) bs
unfolding mem_id
block_keys [] ks within = tt
block_keys (b ∷ bs) ks within = (
  within b.key (rw ((==_iff b.key b.key).1 refl) refl),
  block_keys bs ks (λ k h. within k (ground (arith, h))),
)

wire_ends-Adds :
    (is_start : Bool) (entry : ℕ) (map : ℕ → Option ℕ) (bs : List MachineBlock) (g : ProgramGraph)
    → Built g
    → EndsThere is_start g entry
    → All (HasNode g) (body_ids map bs)
    → All (HasNode g) (return_ids map bs)
    → (h : ProgramGraph) × (wire_ends is_start entry map bs g ≡ some h)
      × Adds (end_pair is_start entry map bs) g h
unfolding wire_ends
wire_ends-Adds false entry map bs g b ends bodies backs = (
  g,
  refl,
  record {
    still_built = b;
    edges_now = λ u v. refl;
    nodes_held = λ id has. has;
    costs_held = λ id. refl;
  },
)
wire_ends-Adds true entry map bs g b ends bodies backs =
    let (h, made) =
      wire_entry_exit-total g (body_ids map bs) (return_ids map bs) entry (suc entry) ends.0 ends.1
        bodies backs in
    let kept = wire_entry_exit-Keeps g h _ _ entry (suc entry) b made in
    (
      h,
      made,
      record {
        still_built = kept.built_still;
        edges_now = λ u v. wire_entry_exit_lem g h _ _ entry (suc entry) made u v;
        nodes_held = kept.nodes_kept;
        costs_held = kept.costs_still;
      },
    )

-- What a function adds to the graph.
pub record IsAdded (facts : FunctionFacts) (is_start : Bool) (bs : List MachineBlock)
    (s t : ModuleGraph) : Type 0 where
  pub built_now : Built t.graph
  pub pairs_now :
      (u v : ℕ)
      → has_edge t.graph u v ≡ (
          block_pair t.node_of bs u v
          || (end_pair is_start s.graph.next_node_id t.node_of bs u v || has_edge s.graph u v))
  pub blocks_now :
      (b : MachineBlock) (i : ℕ)
      → NoTwice (keys bs)
      → get_elem? bs i ≡ some b
      → let id = first_block is_start s.graph.next_node_id + i in
        (t.node_of b.key ≡ some id) × (cost_at t.graph id ≡ some (latency facts b))
  pub before_now : (id : ℕ) → HasNode s.graph id → cost_at t.graph id ≡ cost_at s.graph id
  pub others_now : (k : ℕ) → mem_id k (keys bs) ≡ false → t.node_of k ≡ s.node_of k

module _ (facts : FunctionFacts) (is_start : Bool) (function : ℕ) (bs : List MachineBlock)
    (s : ModuleGraph) where
  abbrev pub filled_end : ModuleGraph → ProgramGraph → ModuleGraph
  filled_end filled g =
      record_blocks function (set_entry function bs (record filled { graph = g })) bs

  fill_step :
      (w g : ProgramGraph)
      → let filled = fill_nodes facts function (add_ends is_start function s) bs in
        wire_ends is_start s.graph.next_node_id filled.node_of bs filled.graph ≡ some w
        → fill_edges facts filled.node_of w bs ≡ some g
        → fill_function facts is_start function bs s ≡ some (filled_end filled g)
  unfolding fill_function
  fill_step w g wired edged = rw (wired, edged, fill_function) refl

  -- The nodes with the entry and the exit, before the edges are added.
  abbrev pub filled_nodes : ModuleGraph
  filled_nodes = fill_nodes facts function (add_ends is_start function s) bs

  pub fill_function-IsAdded :
      Built s.graph
      → AllTargets (keys bs) bs
      → (g : ProgramGraph) × (fill_function facts is_start function bs s
          ≡ some (filled_end filled_nodes g))
        × ((id : ℕ) → HasNode filled_nodes.graph id → HasNode g id)
        × IsAdded facts is_start bs s (filled_end filled_nodes g)
  fill_function-IsAdded b targets =
      let s1 = add_ends is_start function s in
      let (ext, ends, next, same) = add_ends-Extends is_start function s b in
      let filled = fill_nodes facts function s1 bs in
      let f = fill_nodes-IsFilled facts function bs s1 ext.built_on in
      let known = block_keys bs (keys bs) (λ k h. h) in
      let at = f.keyed in
      let bodies = bodies_there filled.node_of filled.graph (keys bs) at bs known in
      let backs = returns_there filled.node_of filled.graph (keys bs) at bs known in
      let (w, wired, wa) =
        wire_ends-Adds is_start s.graph.next_node_id filled.node_of bs filled.graph
          f.extends.built_on (EndsThere-held is_start s1.graph filled.graph _ f.extends.held ends)
          bodies backs in
      let places = placed filled.node_of filled.graph (keys bs) at bs known targets in
      let (g, edged, ea) =
        fill_edges-Adds facts filled.node_of w bs wa.still_built
          (AllPlaced-held filled.node_of filled.graph w bs wa.nodes_held places) in
      let t = filled_end filled g in
      let one = set_entry-SameGraph function bs (record filled { graph = g }) in
      let end =
        record_blocks-SameGraph function (set_entry function bs (record filled { graph = g })) bs in
      let graph_is : t.graph ≡ g = end.0 ∙ one.0 in
      let map_is : t.node_of ≡ filled.node_of = end.1 ∙ one.1 in
      (
        g,
        fill_step w g wired edged,
        λ id has. ea.nodes_held id (wa.nodes_held id has),
        record {
          built_now = subst Built (sym graph_is) ea.still_built;
          pairs_now = λ u v.
              let pairs =
                ea.edges_now u v
                ∙ ap (λ (c : Bool). block_pair filled.node_of bs u v || c)
                    (wa.edges_now u v
                      ∙ ap
                          (λ (c : Bool).
                            end_pair is_start s.graph.next_node_id filled.node_of bs u v || c)
                          (f.extends.same_edges u v ∙ ext.same_edges u v)) in
              ap (λ (k : ProgramGraph). has_edge k u v) graph_is
              ∙ pairs
              ∙ sym (
                  ap
                    (λ (m : ℕ → Option ℕ).
                      block_pair m bs u v
                      || (end_pair is_start s.graph.next_node_id m bs u v || has_edge s.graph u v))
                    map_is);
          blocks_now = λ c i d h.
              let (named_at, there, price) = f.numbered c i d h in
              let id = first_block is_start s.graph.next_node_id + i in
              let here : s1.graph.next_node_id + i ≡ id = ap (λ (n : ℕ). n + i) next in
              (
                ap (λ (m : ℕ → Option ℕ). m c.key) map_is ∙ named_at ∙ ap (λ (n : ℕ). some n) here,
                ap (λ (k : ProgramGraph). cost_at k id) graph_is
                    ∙ ea.costs_held id
                    ∙ wa.costs_held id
                    ∙ sym (ap (λ (n : ℕ). cost_at filled.graph n) here)
                    ∙ price,
              );
          before_now = λ id has.
              ap (λ (k : ProgramGraph). cost_at k id) graph_is
              ∙ ea.costs_held id
              ∙ wa.costs_held id
              ∙ f.extends.costs_kept id (ext.held id has)
              ∙ ext.costs_kept id has;
          others_now = λ k h.
              ap (λ (m : ℕ → Option ℕ). m k) map_is
              ∙ f.others k h
              ∙ ap (λ (m : ℕ → Option ℕ). m k) same;
        },
      )

  -- Adding a function to a graph that was built succeeds when the targets of its blocks are its blocks.
  -- The graph that is left was built too. Its edges are those that were there, those of the blocks,
  -- and, for the start function, those that the wiring of the entry and the exit adds. Blocks that
  -- differ get the next identifiers in order, after two for the start function, each with the
  -- latency of its block as its cost; the costs that were there and the nodes of other blocks stay.
  pub fill_function_lem :
      Built s.graph
      → AllTargets (keys bs) bs
      → (t : ModuleGraph) × (fill_function facts is_start function bs s ≡ some t)
        × IsAdded facts is_start bs s t
  fill_function_lem b targets =
      let (g, made, _, added) = fill_function-IsAdded b targets in
      (filled_end filled_nodes g, made, added)
