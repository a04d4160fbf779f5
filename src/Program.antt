-- ===== src/Program.antt =====
-- The program graph of the whole module (lib/Graph/ProgramGraph.cpp, include/Graph/ProgramGraph.h).
pub mod Symmetry
pub mod Wire
pub mod Total
pub mod Prune
pub mod Detach
pub mod Built
pub mod Fill
pub mod Cycles
pub mod Finalize
use Prim.Native.String.{String}
use llta.Prelude.{Bool, List, Option, [], false, if◌then◌else◌, none, some, suc, true, ℕ, ◌&&◌, ◌∷◌}
use llta.Solver.Graph.{erase_id, insert_id, mem_id, put}

-- The fields of `Node` that the analysis reads. Sets of identifiers are sorted lists.
pub record ProgramNode : Type 0 where
  pub name : String
  pub successors : List ℕ
  pub predecessors : List ℕ
  pub max_cycles : ℕ
  pub min_cycles : ℕ
  pub is_loop : Bool
  pub lower_loop_bound : ℕ
  pub upper_loop_bound : ℕ
  pub back_edge_predecessors : List ℕ

-- `NextNodeId` is 32 bits wide in the program, which asserts that it does not wrap. Here it has no
-- bound: the model speaks of graphs of fewer than 2^32 nodes, for which the assertion holds.
pub record ProgramGraph : Type 0 where
  pub nodes : ℕ → Option ProgramNode
  pub next_node_id : ℕ

-- The constructor of `Node` with its state. It leaves the two loop bounds uninitialised; here they are
-- zero, also for a loop header for which no bound is known, which keeps them.
abbrev pub fresh_node : ℕ → ℕ → ProgramNode
fresh_node upper lower = record {
  name = "";
  successors = [];
  predecessors = [];
  max_cycles = upper;
  min_cycles = lower;
  is_loop = false;
  lower_loop_bound = 0;
  upper_loop_bound = 0;
  back_edge_predecessors = [];
}

abbrev pub add_successor : ℕ → ProgramNode → ProgramNode
add_successor id n = record n { successors = insert_id id n.successors }

abbrev pub add_predecessor : ℕ → ProgramNode → ProgramNode
add_predecessor id n = record n { predecessors = insert_id id n.predecessors }

abbrev pub delete_successor : ℕ → ProgramNode → ProgramNode
delete_successor id n = record n { successors = erase_id id n.successors }

abbrev pub delete_predecessor : ℕ → ProgramNode → ProgramNode
delete_predecessor id n = record n { predecessors = erase_id id n.predecessors }

unfoldable pub is_empty_set : List ℕ → Bool
is_empty_set [] = true
is_empty_set (_ ∷ _) = false

-- `isFree` of a node.
unfoldable pub is_free : ProgramNode → Bool
is_free n = is_empty_set n.successors && is_empty_set n.predecessors

-- `addNode(State, MBB)`: the graph and the identifier, while there are fewer than 2^32 nodes.
unfoldable pub insert_node : ProgramGraph → ℕ → ℕ → ProgramGraph × ℕ
insert_node g upper lower = (
  record {
    nodes = put g.nodes g.next_node_id (some (fresh_node upper lower));
    next_node_id = suc g.next_node_id;
  },
  g.next_node_id,
)

-- A write through `Nodes.at(id)`; none where it throws.
unfoldable pub modify : ProgramGraph → ℕ → (ProgramNode → ProgramNode) → Option ProgramGraph
modify g id f = elim (g.nodes id) [
  | none ↦ none
  | some n ↦ some (record g { nodes = put g.nodes id (some (f n)) })
]

abbrev pub and_then :
    Option ProgramGraph → (ProgramGraph → Option ProgramGraph) → Option ProgramGraph
and_then none f = none
and_then (some g) f = f g

-- `addEdge(FromNode, ToNode)`; none where the assertion on the nodes fails.
unfoldable pub link : ProgramGraph → ℕ → ℕ → Option ProgramGraph
link g from to =
    and_then (modify g from (add_successor to)) (λ h. modify h to (add_predecessor from))

-- `removeEdge(FromNode, ToNode)`.
unfoldable pub unlink : ProgramGraph → ℕ → ℕ → Option ProgramGraph
unlink g from to =
    and_then (modify g from (delete_successor to)) (λ h. modify h to (delete_predecessor from))

-- `removeNode(Node)`; none where the node is missing or has an edge.
unfoldable pub remove_node : ProgramGraph → ℕ → Option ProgramGraph
remove_node g id = elim (g.nodes id) [
  | none ↦ none
  | some n ↦ if is_free n then some (record g { nodes = put g.nodes id none }) else none
]

-- `hasEdge(FromNode, ToNode)`, and its mirror over the predecessors.
unfoldable pub has_edge : ProgramGraph → ℕ → ℕ → Bool
has_edge g from to = elim (g.nodes from) [ none ↦ false | some n ↦ mem_id to n.successors ]

unfoldable pub has_reverse : ProgramGraph → ℕ → ℕ → Bool
has_reverse g from to = elim (g.nodes to) [ none ↦ false | some n ↦ mem_id from n.predecessors ]

-- `for (unsigned Ret : ReturnNodeIds) addEdge(Ret, ExitNode)`.
unfoldable pub wire_returns : ProgramGraph → List ℕ → ℕ → Option ProgramGraph
wire_returns g [] exit = some g
wire_returns g (r ∷ rs) exit = and_then (link g r exit) (λ h. wire_returns h rs exit)

-- `BodyNodeIds.back()`.
abbrev pub back_of : ℕ → List ℕ → ℕ
back_of b [] = b
back_of b (c ∷ bs) = back_of c bs

-- Without a return block the last block goes to the exit.
unfoldable pub wire_fallback : ProgramGraph → ℕ → List ℕ → List ℕ → ℕ → Option ProgramGraph
wire_fallback g first body [] exit = link g (back_of first body) exit
wire_fallback g first body (_ ∷ _) exit = some g

-- `wireEntryExit(BodyNodeIds, ReturnNodeIds, EntryNode, ExitNode)`.
unfoldable pub wire_entry_exit : ProgramGraph → List ℕ → List ℕ → ℕ → ℕ → Option ProgramGraph
wire_entry_exit g [] returns entry exit =
    and_then (wire_returns g returns exit) (λ h. link h entry exit)
wire_entry_exit g (first ∷ body) returns entry exit =
    and_then (link g entry first)
      (λ h. and_then (wire_returns h returns exit) (λ k. wire_fallback k first body returns exit))
