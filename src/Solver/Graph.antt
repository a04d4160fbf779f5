-- ===== src/Solver/Graph.antt =====
-- The abstract state graph (include/Analysis/AbstractStateGraph.h,
-- lib/Analysis/AbstractStateGraph.cpp). Identifiers are given out in order and no node is ever
-- removed, so the map of the nodes is a list read by identifier. The maps of the edges are functions,
-- empty where the source finds no entry, and their sets are sorted lists. A basic block is a number.
pub mod Edges
use llta.Prelude.{
  Bool, List, Option, [], false, get_elem?, if◌then◌else◌, length, ltb, set, true, ℕ, ◌++◌, ◌==◌,
  ◌∷◌, ◌≡◌,
}

pub record Node (State : Type 0) : Type 0 where
  pub state : State
  pub block : Option ℕ
  pub is_entry : Bool
  pub is_exit : Bool
  pub is_loop_header : Bool
  pub upper_loop_bound : ℕ
  pub cost : ℕ

pub record Edge : Type 0 where
  pub to : ℕ
  pub is_back_edge : Bool

-- `NextNodeId` is the number of nodes; in the program it is 32 bits wide, so the model speaks of graphs
-- of fewer than 2^32 nodes. `FunctionEntries`, `FunctionReturns` and `CallSites` are `Calls` of Ilp.
pub record AbstractStateGraph (State : Type 0) : Type 0 where
  pub nodes : List (Node State)
  pub adjacency : ℕ → List Edge
  pub preds : ℕ → List ℕ

-- A write to a map.
abbrev pub put : {A : Type 0} → (ℕ → A) → ℕ → A → ℕ → A
put f k v j = if k == j then v else f j

-- `std::set<Edge>::insert`: edges are compared by target, and an edge that is there stays.
unfoldable pub insert_edge : Edge → List Edge → List Edge
insert_edge e [] = e ∷ []
insert_edge e (f ∷ es) =
    let deeper = insert_edge e es in
    if e.to == f.to then f ∷ es else (if ltb e.to f.to then e ∷ f ∷ es else f ∷ deeper)

unfoldable pub insert_id : ℕ → List ℕ → List ℕ
insert_id n [] = n ∷ []
insert_id n (m ∷ ms) =
    let deeper = insert_id n ms in
    if n == m then m ∷ ms else (if ltb n m then n ∷ m ∷ ms else m ∷ deeper)

unfoldable pub erase_edge : ℕ → List Edge → List Edge
erase_edge to [] = []
erase_edge to (e ∷ es) = let kept = erase_edge to es in if e.to == to then kept else e ∷ kept

unfoldable pub erase_id : ℕ → List ℕ → List ℕ
erase_id n [] = []
erase_id n (m ∷ ms) = let kept = erase_id n ms in if m == n then kept else m ∷ kept

unfoldable pub mem_id : ℕ → List ℕ → Bool
mem_id n [] = false
mem_id n (m ∷ ms) = if m == n then true else mem_id n ms

unfoldable pub mem_edge : ℕ → List Edge → Bool
mem_edge to [] = false
mem_edge to (e ∷ es) = if e.to == to then true else mem_edge to es

module _ {State : Type 0} where
  abbrev pub empty_graph : AbstractStateGraph State
  empty_graph = record { nodes = []; adjacency = λ _. []; preds = λ _. [] }

  -- The constructor of `Node`.
  abbrev pub new_node : State → Option ℕ → Node State
  new_node s block = record {
    state = s;
    block = block;
    is_entry = false;
    is_exit = false;
    is_loop_header = false;
    upper_loop_bound = 0;
    cost = 0;
  }

  -- The new graph and the identifier of the node.
  unfoldable pub add_node :
      AbstractStateGraph State → State → Option ℕ → AbstractStateGraph State × ℕ
  add_node g s block = (record g { nodes = g.nodes ++ new_node s block ∷ [] }, length g.nodes)

  unfoldable pub add_edge : AbstractStateGraph State → ℕ → ℕ → Bool → AbstractStateGraph State
  add_edge g from to back = record g {
    adjacency =
        put g.adjacency from
          (insert_edge (record { to = to; is_back_edge = back }) (g.adjacency from));
    preds = put g.preds to (insert_id from (g.preds to));
  }

  unfoldable pub remove_edge : AbstractStateGraph State → ℕ → ℕ → AbstractStateGraph State
  remove_edge g from to = record g {
    adjacency = put g.adjacency from (erase_edge to (g.adjacency from));
    preds = put g.preds to (erase_id from (g.preds to));
  }

  unfoldable pub get_node : AbstractStateGraph State → ℕ → Option (Node State)
  get_node g id = get_elem? g.nodes id

  abbrev pub get_successors : AbstractStateGraph State → ℕ → List Edge
  get_successors g id = g.adjacency id

  abbrev pub get_predecessors : AbstractStateGraph State → ℕ → List ℕ
  get_predecessors g id = g.preds id

  -- A write through the pointer that `getNode` returns.
  unfoldable pub set_node : AbstractStateGraph State → ℕ → Node State → AbstractStateGraph State
  set_node g id n = record g { nodes = set g.nodes id n }

  -- The successors and the predecessors tell the same edges.
  abbrev pub IsConsistent : AbstractStateGraph State → Type 0
  IsConsistent g = (u v : ℕ) → mem_edge v (g.adjacency u) ≡ mem_id u (g.preds v)
