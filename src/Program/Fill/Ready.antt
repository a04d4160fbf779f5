-- ===== src/Program/Fill/Ready.antt =====
-- A graph to which functions were added is ready for `finalize` (lib/Graph/ProgramGraph.cpp).
use llta.Prelude.{
  ==_iff, All, Bool, Bool-cases, List, Option, [], false, inl, inr, map, none, refl, some, subst,
  sym, true, ℕ, ◌<◌, ◌==◌, ◌∙◌, ◌∷◌, ◌≡◌,
}
use llta.Program.{ProgramGraph}
use llta.Program.Built.{Built, empty_program, nothing_yet}
use llta.Program.Fill.{
  FunctionFacts, MachineBlock, ModuleGraph, add_ends, block_node, fill_function, fill_graph,
  fill_nodes, node_at, set_entry, with_new_node,
}
use llta.Program.Fill.Kept.{add_ends-Extends, record_blocks-SameGraph, set_entry-SameGraph}
use llta.Program.Fill.Maps.{
  AllCallees, BlocksThere, IsMapped, IsMapped-held, record_blocks-IsMapped, set_entry-IsMapped,
}
use llta.Program.Fill.Nodes.{block_node_lem, fill_nodes-IsFilled, keys, with_new_node-Extends}
use llta.Program.Fill.Total.{
  AllKeyed, AllTargets, block_keys, fill_function-IsAdded, fill_function_lem, filled_end,
  filled_nodes,
}
use llta.Program.Finalize.{CallFacts}
use llta.Program.Finalize.Total.{IsReady}
use llta.Program.Wire.{HasNode}
use llta.Solver.Graph.{mem_id}

add_ends-IsMapped :
    (n : ℕ) (is_start : Bool) (function : ℕ) (s : ModuleGraph)
    → Built s.graph
    → IsMapped n s s.graph
    → IsMapped n (add_ends is_start function s) (add_ends is_start function s).graph
unfolding add_ends
add_ends-IsMapped n false function s b m = m
add_ends-IsMapped n true function s b m =
    let (ext, ends, _, _) = add_ends-Extends true function s b in
    let more = IsMapped-held n s s.graph (add_ends true function s).graph ext.held m in
    record {
      blocks_there = more.blocks_there;
      links_there = record {
        entries_there = more.links_there.entries_there;
        backs_there = more.links_there.backs_there;
      };
      calls_there = more.calls_there;
      symbols_there = more.symbols_there;
      entry_there = λ id h.
          let e : s.graph.next_node_id ≡ id = cc in
          subst (HasNode (add_ends true function s).graph) e ends.0;
      owners_below = more.owners_below;
      callees_below_it = more.callees_below_it;
    }

fill_nodes-IsMapped :
    (n : ℕ) (facts : FunctionFacts) (function : ℕ) (bs : List MachineBlock) (s : ModuleGraph)
    → function < n
    → Built s.graph
    → IsMapped n s s.graph
    → IsMapped n (fill_nodes facts function s bs) (fill_nodes facts function s bs).graph
unfolding fill_nodes
fill_nodes-IsMapped n facts function [] s low b m = m
fill_nodes-IsMapped n facts function (c ∷ cs) s low b m =
    let (no_out, no_in, _) = block_node_lem facts c in
    let ext = with_new_node-Extends s.graph (block_node facts c) no_out no_in b in
    let id = s.graph.next_node_id in
    let more = IsMapped-held n s s.graph (with_new_node s.graph (block_node facts c)) ext.held m in
    let here : HasNode (with_new_node s.graph (block_node facts c)) id =
      (block_node facts c, rw ((==_iff id id).1 refl) refl) in
    fill_nodes-IsMapped n facts function cs _ low ext.built_on (record {
      blocks_there = λ k j h. elim (Bool-cases (c.key == k)) [
        | inl same ↦
            let at : some id ≡ some j = sym (rw same refl) ∙ h in
            let e : id ≡ j = cc in
            subst (HasNode (with_new_node s.graph (block_node facts c))) e here
        | inr apart ↦ more.blocks_there k j (sym (rw apart refl) ∙ h)
      ];
      links_there = record {
        entries_there = more.links_there.entries_there;
        backs_there = more.links_there.backs_there;
      };
      calls_there = more.calls_there;
      symbols_there = more.symbols_there;
      entry_there = more.entry_there;
      owners_below = λ node f h. elim (Bool-cases (id == node)) [
        | inl same ↦
            let at : some function ≡ some f = sym (rw same refl) ∙ h in
            let e : function ≡ f = cc in subst (λ (j : ℕ). j < n) e low
        | inr apart ↦ more.owners_below node f (sym (rw apart refl) ∙ h)
      ];
      callees_below_it = more.callees_below_it;
    })

-- A function of the module: the targets of its blocks are its blocks, and its calls are of functions of
-- the module.
pub record IsFunction (n function : ℕ) (bs : List MachineBlock) : Type 0 where
  pub function_below : function < n
  pub all_targets : AllTargets (keys bs) bs
  pub all_callees : All (λ b. AllCallees n b.called) bs

abbrev pub empty_module : ModuleGraph
empty_module = record {
  graph = empty_program;
  node_of = λ _. none;
  function_of = λ _. none;
  entry_of = λ _. none;
  returns_of = λ _. none;
  calls = [];
  symbol_calls = [];
  entry_node = none;
  start_function = none;
}

-- Functions are added one after the other.
pub data IsModule (n : ℕ) : ModuleGraph → Type 0 where
  no_function : IsModule n empty_module
  function_added :
      {s t : ModuleGraph} (facts : FunctionFacts) (is_start : Bool) (function : ℕ)
      → (bs : List MachineBlock) → IsFunction n function bs
      → fill_function facts is_start function bs s ≡ some t
      → IsModule n s
      → IsModule n t

-- The edges change and the maps stay.
replaced-IsMapped :
    (n : ℕ) (s : ModuleGraph) (g : ProgramGraph)
    → IsMapped n s g
    → IsMapped n (record s { graph = g }) g
replaced-IsMapped n s g m = record {
  blocks_there = m.blocks_there;
  links_there = record {
    entries_there = m.links_there.entries_there;
    backs_there = m.links_there.backs_there;
  };
  calls_there = m.calls_there;
  symbols_there = m.symbols_there;
  entry_there = m.entry_there;
  owners_below = m.owners_below;
  callees_below_it = m.callees_below_it;
}

blocks_are_there :
    (n : ℕ) (g : ProgramGraph) (map : ℕ → Option ℕ) (ks : List ℕ) (bs : List MachineBlock)
    → ((k : ℕ) → mem_id k ks ≡ true → (id : ℕ) × (map k ≡ some id) × HasNode g id)
    → AllKeyed ks bs
    → All (λ b. AllCallees n b.called) bs
    → BlocksThere n g map bs
blocks_are_there n g map ks [] at known callees = tt
blocks_are_there n g map ks (b ∷ bs) at known callees = (
  (let (id, there, has) = at b.key known.0 in rw (there, node_at) has, callees.0),
  blocks_are_there n g map ks bs at known.1 callees.1,
)

fill_function-IsMapped :
    (n : ℕ) (facts : FunctionFacts) (is_start : Bool) (function : ℕ) (bs : List MachineBlock)
    → (s t : ModuleGraph) → IsFunction n function bs
    → Built s.graph
    → IsMapped n s s.graph
    → fill_function facts is_start function bs s ≡ some t
    → Built t.graph × IsMapped n t t.graph
fill_function-IsMapped n facts is_start function bs s t f b m e =
    let (g, made, held, added) =
      fill_function-IsAdded facts is_start function bs s b f.all_targets in
    let filled = filled_nodes facts is_start function bs s in
    let (ext, _, _, _) = add_ends-Extends is_start function s b in
    let mapped =
      fill_nodes-IsMapped n facts function bs (add_ends is_start function s) f.function_below
        ext.built_on (add_ends-IsMapped n is_start function s b m) in
    let on_g = IsMapped-held n filled filled.graph g held mapped in
    let keyed =
      (fill_nodes-IsFilled facts function bs (add_ends is_start function s) ext.built_on).keyed in
    let there =
      blocks_are_there n g filled.node_of (keys bs) bs
        (λ k h. let (id, at, has) = keyed k h in (id, at, held id has))
        (block_keys bs (keys bs) (λ k h. h)) f.all_callees in
    let s0 = record filled { graph = g } in
    let end = filled_end facts is_start function bs s filled g in
    let set = set_entry-SameGraph function bs s0 in
    let recorded =
      record_blocks-IsMapped n g function bs (set_entry function bs s0)
        (subst (λ (k : ℕ → Option ℕ). BlocksThere n g k bs) (sym set.1) there)
        (set_entry-IsMapped n g function bs s0 there (replaced-IsMapped n filled g on_g)) in
    let graph_is : end.graph ≡ g =
      (record_blocks-SameGraph function (set_entry function bs s0) bs).0 ∙ set.0 in
    let at : some end ≡ some t = sym made ∙ e in
    let same : end ≡ t = cc in
    subst (λ (k : ModuleGraph). Built k.graph × IsMapped n k k.graph) same
      (added.built_now, subst (IsMapped n end) (sym graph_is) recorded)

module-IsMapped : (n : ℕ) (s : ModuleGraph) → IsModule n s → Built s.graph × IsMapped n s s.graph
module-IsMapped n _ no_function = (
  nothing_yet,
  record {
    blocks_there = λ k id h. absurd (cc);
    links_there = record {
      entries_there = λ f e h. absurd (cc);
      backs_there = λ f rs h. absurd (cc);
    };
    calls_there = tt;
    symbols_there = tt;
    entry_there = λ id h. absurd (cc);
    owners_below = λ node f h. absurd (cc);
    callees_below_it = tt;
  },
)
module-IsMapped n _ (function_added {s} {t} facts is_start function bs f e before) =
    let (b, m) = module-IsMapped n s before in
    fill_function-IsMapped n facts is_start function bs s t f b m e

-- A graph to which the functions of a module were added one after the other, from the empty graph on,
-- is ready for `finalize` when it has an entry node: it was built by adding nodes and edges, and the
-- entries, the returns, the call sites and their landings are nodes.
pub IsModule-IsReady :
    (facts : CallFacts) (s : ModuleGraph) (entry : ℕ)
    → IsModule facts.function_count s
    → s.entry_node ≡ some entry
    → IsReady facts s entry
IsModule-IsReady facts s entry built at =
    let (b, m) = module-IsMapped facts.function_count s built in
    record {
      ready_built = b;
      ready_links = m.links_there;
      ready_calls = m.calls_there;
      ready_symbols = m.symbols_there;
      ready_functions = (m.owners_below, m.callees_below_it);
      ready_entry = at;
      ready_node = m.entry_there entry at;
    }

-- Functions whose block targets are blocks can be added, all of them.
pub fill_graph-IsModule :
    (n : ℕ) (facts : FunctionFacts) (is_start : Bool) (fs : List (ℕ × List MachineBlock))
    → (s : ModuleGraph) → All (λ f. IsFunction n f.0 f.1) fs
    → IsModule n s
    → (t : ModuleGraph) × (fill_graph facts is_start fs s ≡ some t) × IsModule n t
unfolding fill_graph
fill_graph-IsModule n facts is_start [] s all m = (s, refl, m)
fill_graph-IsModule n facts is_start ((function, bs) ∷ fs) s all m =
    let (t, made, _) =
      fill_function_lem facts is_start function bs s (module-IsMapped n s m).0 all.0.all_targets in
    let (u, rest, after) =
      fill_graph-IsModule n facts false fs t all.1
        (function_added facts is_start function bs all.0 made m) in
    (u, rw (made, fill_graph) rest, after)
