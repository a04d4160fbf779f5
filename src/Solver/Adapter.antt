-- ===== src/Solver/Adapter.antt =====
-- A program graph from an abstract state graph (`GraphAdapter::convert` of
-- lib/Analysis/GraphAdapter.cpp), without the functions and the calls of the blocks.
pub mod Converted
pub mod Roundtrip
use llta.Prelude.{List, Option, [], none, some, suc, ℕ, ◌∷◌}
use llta.Program.{ProgramGraph, and_then, insert_node, link}
use llta.Program.Built.{empty_program}
use llta.Solver.Graph.{AbstractStateGraph, Edge, Node, get_successors, put}

-- The graph and `NewNodesMap`.
pub record Conversion : Type 0 where
  pub converted : ProgramGraph
  pub new_nodes : ℕ → Option ℕ

-- The edges of a node.
unfoldable pub convert_edges : (ℕ → Option ℕ) → ℕ → List Edge → ProgramGraph → Option ProgramGraph
convert_edges new_nodes from [] g = some g
convert_edges new_nodes from (e ∷ es) g =
    and_then (elim (new_nodes e.to) [ none ↦ some g | some to ↦ link g from to ])
      (convert_edges new_nodes from es)

module _ {State : Type 0} where
  unfoldable pub convert_node : ℕ → Node State → Conversion → Conversion
  convert_node id n c =
      let (g, new_id) = insert_node c.converted n.cost n.cost in
      record { converted = g; new_nodes = put c.new_nodes id (some new_id) }

  unfoldable pub convert_nodes : ℕ → List (Node State) → Conversion → Conversion
  convert_nodes id [] c = c
  convert_nodes id (n ∷ ns) c = convert_nodes (suc id) ns (convert_node id n c)

  -- The second loop; a node has an entry in the map.
  unfoldable pub convert_all_edges :
      AbstractStateGraph State
      → (ℕ → Option ℕ)
      → ℕ
      → List (Node State)
      → ProgramGraph
      → Option ProgramGraph
  convert_all_edges a new_nodes id [] g = some g
  convert_all_edges a new_nodes id (n ∷ ns) g =
      and_then
        (elim (new_nodes id) [
          | none ↦ some g
          | some from ↦ convert_edges new_nodes from (get_successors a id) g
        ])
        (convert_all_edges a new_nodes (suc id) ns)

  -- `convert(ASG, NewNodesMap)`; none where an assertion fails.
  unfoldable pub convert : AbstractStateGraph State → Option ProgramGraph
  convert a =
      let c =
        convert_nodes 0 a.nodes (record { converted = empty_program; new_nodes = λ _. none }) in
      convert_all_edges a c.new_nodes 0 a.nodes c.converted
