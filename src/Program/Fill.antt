-- ===== src/Program/Fill.antt =====
-- The nodes and the edges of a machine function (`ProgramGraph::fillGraphWithFunction` of
-- lib/Graph/ProgramGraph.cpp). A basic block, a function and a symbol are numbers.
pub mod Nodes
pub mod Link
pub mod Edges
pub mod Ends
pub mod Kept
pub mod Total
pub mod Maps
pub mod Ready
use Prim.Native.String.{String}
use llta.Prelude.{
  Bool, List, Option, [], false, if◌then◌else◌, map, none, some, suc, true, ℕ, ◌++◌, ◌||◌, ◌∷◌,
}
use llta.Program.{ProgramGraph, ProgramNode, and_then, fresh_node, link, modify, wire_entry_exit}
use llta.Solver.Graph.{insert_id, put}
use llta.Solver.Worklist.{is_back}

-- What a call instruction names: a function, the symbol of a library call, or neither.
pub data Callee : Type 0 where
  named : ℕ → Callee
  symbol : ℕ → Callee
  indirect : Callee

-- A machine basic block. `fall_through` is `getFallThrough()`.
pub record MachineBlock : Type 0 where
  pub key : ℕ
  pub block_name : String
  pub targets_of : List ℕ
  pub returns : Bool
  pub fall_through : Option ℕ
  pub called : List Callee

-- `CallSites`: the call's node, the function, and the landing node (`HasLanding`).
pub record ProgramCall : Type 0 where
  pub call_from : ℕ
  pub call_to : ℕ
  pub lands : Option ℕ

-- The graph with the maps that the class keeps: `MBBToNodeMap`, `NodeToFunctionMap`,
-- `FunctionToEntryNodeMap`, `FunctionToReturnNodesMap`, the call sites, `EntryNodeId` and
-- `StartFunction`.
pub record ModuleGraph : Type 0 where
  pub graph : ProgramGraph
  pub node_of : ℕ → Option ℕ
  pub function_of : ℕ → Option ℕ
  pub entry_of : ℕ → Option ℕ
  pub returns_of : ℕ → Option (List ℕ)
  pub calls : List ProgramCall
  pub symbol_calls : List (ℕ × ℕ)
  pub entry_node : Option ℕ
  pub start_function : Option ℕ

-- What the passes before have found: latencies, loop bounds, and the back edges that LLVM's loop
-- information and the search for irreducible loops give.
pub record FunctionFacts : Type 0 where
  pub latency_of : ℕ → Option ℕ
  pub bound_of : ℕ → Option ℕ
  pub is_back : ℕ → ℕ → Bool
  pub is_irreducible : ℕ → ℕ → Bool

-- `MBBToNodeMap[MBB]`, zero where there is no entry.
abbrev pub node_at : (ℕ → Option ℕ) → ℕ → ℕ
node_at map key = elim (map key) [ none ↦ 0 | some id ↦ id ]

-- The node of a block, with its bound when it is the header of a loop.
unfoldable pub block_node : FunctionFacts → MachineBlock → ProgramNode
block_node facts b =
    let cycles : ℕ = elim (facts.latency_of b.key) [ none ↦ 0 | some c ↦ c ] in
    elim (facts.bound_of b.key) [
      | none ↦ record (fresh_node cycles cycles) { name = b.block_name }
      | some bound ↦ record (fresh_node cycles cycles) {
        name = b.block_name;
        is_loop = true;
        upper_loop_bound = bound;
        lower_loop_bound = 1;
      }
    ]

-- `addNode`, while there are fewer than 2^32 nodes, with the writes that follow it.
abbrev pub with_new_node : ProgramGraph → ProgramNode → ProgramGraph
with_new_node g n = record {
  nodes = put g.nodes g.next_node_id (some n);
  next_node_id = suc g.next_node_id;
}

-- The loop over the blocks; `BodyNodeIds` and `ReturnNodeIds` are the lists of the nodes.
unfoldable pub fill_nodes : FunctionFacts → ℕ → ModuleGraph → List MachineBlock → ModuleGraph
fill_nodes facts function s [] = s
fill_nodes facts function s (b ∷ bs) =
    fill_nodes facts function
      (record s {
        graph = with_new_node s.graph (block_node facts b);
        node_of = put s.node_of b.key (some s.graph.next_node_id);
        function_of = put s.function_of s.graph.next_node_id (some function);
      })
      bs

abbrev pub body_ids : (ℕ → Option ℕ) → List MachineBlock → List ℕ
body_ids map [] = []
body_ids map (b ∷ bs) = node_at map b.key ∷ body_ids map bs

unfoldable pub return_ids : (ℕ → Option ℕ) → List MachineBlock → List ℕ
return_ids map [] = []
return_ids map (b ∷ bs) =
    let rest = return_ids map bs in if b.returns then node_at map b.key ∷ rest else rest

abbrev pub add_back_pred : ℕ → ProgramNode → ProgramNode
add_back_pred from n = record n { back_edge_predecessors = insert_id from n.back_edge_predecessors }

-- An edge, and the mark that it is a back edge.
unfoldable pub fill_edge :
    FunctionFacts → (ℕ → Option ℕ) → ℕ → ProgramGraph → ℕ → Option ProgramGraph
fill_edge facts map from g target = and_then (link g (node_at map from) (node_at map target)) (λ h.
    if facts.is_back from target || facts.is_irreducible from target
    then modify h (node_at map target) (add_back_pred (node_at map from))
    else some h)

unfoldable pub fill_targets :
    FunctionFacts → (ℕ → Option ℕ) → ℕ → ProgramGraph → List ℕ → Option ProgramGraph
fill_targets facts map from g [] = some g
fill_targets facts map from g (t ∷ ts) =
    and_then (fill_edge facts map from g t) (λ h. fill_targets facts map from h ts)

unfoldable pub fill_edges :
    FunctionFacts → (ℕ → Option ℕ) → ProgramGraph → List MachineBlock → Option ProgramGraph
fill_edges facts map g [] = some g
fill_edges facts map g (b ∷ bs) =
    and_then (fill_targets facts map b.key g b.targets_of) (λ h. fill_edges facts map h bs)

-- `Landing`: the only successor of a block, or the block that it falls through to.
abbrev landing_among : List ℕ → Option ℕ → Option ℕ
landing_among (t ∷ []) next = some t
landing_among [] next = next
landing_among (t ∷ u ∷ ts) next = next

unfoldable pub landing : MachineBlock → Option ℕ
landing b = landing_among b.targets_of b.fall_through

-- The calls of a block.
unfoldable pub record_calls : MachineBlock → ModuleGraph → List Callee → ModuleGraph
record_calls b s [] = s
record_calls b s (named f ∷ cs) =
    let lands : Option ℕ = elim (landing b) [ none ↦ none | some l ↦ s.node_of l ] in
    let call : ProgramCall = record {
      call_from = node_at s.node_of b.key;
      call_to = f;
      lands = lands;
    } in
    record_calls b (record s { calls = s.calls ++ call ∷ [] }) cs
record_calls b s (symbol x ∷ cs) =
    record_calls b (record s { symbol_calls = s.symbol_calls ++ (node_at s.node_of b.key, x) ∷ [] })
      cs
record_calls b s (indirect ∷ cs) = record_calls b s cs

-- The last loop: the return nodes and the call sites.
unfoldable pub record_block : ℕ → ModuleGraph → MachineBlock → ModuleGraph
record_block function s b =
    let id = node_at s.node_of b.key in
    let old : List ℕ = elim (s.returns_of function) [ none ↦ [] | some ids ↦ ids ] in
    record_calls b
      (if b.returns
        then record s { returns_of = put s.returns_of function (some (old ++ id ∷ [])) }
        else s)
      b.called

unfoldable pub record_blocks : ℕ → ModuleGraph → List MachineBlock → ModuleGraph
record_blocks function s [] = s
record_blocks function s (b ∷ bs) = record_blocks function (record_block function s b) bs

-- The entry and the exit node of the start function, named before the blocks are added.
unfoldable pub add_ends : Bool → ℕ → ModuleGraph → ModuleGraph
add_ends false function s = s
add_ends true function s =
    let g = with_new_node s.graph (record (fresh_node 0 0) { name = "Entry" }) in
    record s {
      graph = with_new_node g (record (fresh_node 0 0) { name = "Exit" });
      entry_node = some s.graph.next_node_id;
      start_function = some function;
    }

-- The edges of the start function's entry and exit; the exit is the node after the entry.
unfoldable pub wire_ends :
    Bool → ℕ → (ℕ → Option ℕ) → List MachineBlock → ProgramGraph → Option ProgramGraph
wire_ends false entry map bs g = some g
wire_ends true entry map bs g =
    wire_entry_exit g (body_ids map bs) (return_ids map bs) entry (suc entry)

unfoldable pub set_entry : ℕ → List MachineBlock → ModuleGraph → ModuleGraph
set_entry function [] s = s
set_entry function (b ∷ bs) s = record s {
  entry_of = put s.entry_of function (some (node_at s.node_of b.key));
}

-- `fillGraphWithFunction(MF, IsEntry, ...)`; none where an assertion fails.
unfoldable pub fill_function :
    FunctionFacts → Bool → ℕ → List MachineBlock → ModuleGraph → Option ModuleGraph
fill_function facts is_start function bs s =
    let filled = fill_nodes facts function (add_ends is_start function s) bs in
    elim (and_then (wire_ends is_start s.graph.next_node_id filled.node_of bs filled.graph)
      (λ g. fill_edges facts filled.node_of g bs)) [
        | none ↦ none
        | some g ↦
            some (record_blocks function (set_entry function bs (record filled { graph = g })) bs)
      ]

-- `fillGraph(MMI, ...)`: the first function of the module that has a body is the start function.
unfoldable pub fill_graph :
    FunctionFacts → Bool → List (ℕ × List MachineBlock) → ModuleGraph → Option ModuleGraph
fill_graph facts is_start [] s = some s
fill_graph facts is_start ((function, bs) ∷ fs) s =
    elim (fill_function facts is_start function bs s) [
      | none ↦ none
      | some t ↦ fill_graph facts false fs t
    ]
