-- ===== src/Ilp.antt =====
-- The integer program of the path analysis: its columns, its rows and its objective
-- (`AbstractHighsSolver::solveWCET` of lib/ILP/AbstractHighsSolver.cpp).
pub mod Count
pub mod Flow
pub mod Bounds
pub mod Feasible
pub mod Sound
use llta.Prelude.{
  Bool, List, Option, [], false, if◌then◌else◌, length, ltb, none, some, suc, true, ℕ, ◌&&◌, ◌*◌,
  ◌++◌, ◌+◌, ◌-◌, ◌==◌, ◌∷◌, ◌≤◌,
}
use llta.Solver.Graph.{AbstractStateGraph, Edge, Node, mem_edge}

-- `NodeCols` and `EdgeCols`: a column counts the executions of a node or the crossings of an edge.
pub data Column : Type 0 where
  node_count : ℕ → Column
  edge_flow : ℕ → ℕ → Column

-- The coefficients are whole numbers, here with their sign.
pub data Coefficient : Type 0 where
  plus : ℕ → Coefficient
  minus : ℕ → Coefficient

-- A row of `addRow`; no upper bound stands for `kHighsInf`.
pub record Row : Type 0 where
  pub lower : ℕ
  pub upper : Option ℕ
  pub terms : List (Column × Coefficient)

-- `CallSites`, `FunctionEntries` and `FunctionReturns` of the graph; a function stands for a number.
pub record CallSite : Type 0 where
  pub call_node : ℕ
  pub callee : ℕ
  pub return_node : ℕ

pub record Calls : Type 0 where
  pub call_sites : List CallSite
  pub function_entries : ℕ → Option ℕ
  pub function_returns : ℕ → Option (List ℕ)

-- Whether some edge of the list is a back edge to the node.
unfoldable pub is_back_to : ℕ → List Edge → Bool
is_back_to u [] = false
is_back_to u (e ∷ es) =
    let deeper = is_back_to u es in if (e.to == u) && e.is_back_edge then true else deeper

-- `x_entry = 1`.
unfoldable pub entry_row : ℕ → Row
entry_row u = record { lower = 1; upper = some 1; terms = (node_count u, plus 1) ∷ [] }

-- A row only when some return edge exists.
unfoldable pub match_row : ℕ → ℕ → List (Column × Coefficient) → List Row
match_row from to [] = []
match_row from to (t ∷ ts) =
    record { lower = 0; upper = some 0; terms = (edge_flow from to, plus 1) ∷ t ∷ ts } ∷ []

module _ {State : Type 0} where
  -- `EdgeCols.count({U, V})`: an edge of a node has a column.
  unfoldable pub has_column : AbstractStateGraph State → ℕ → ℕ → Bool
  has_column g u v = ltb u (length g.nodes) && mem_edge v (g.adjacency u)

  unfoldable pub in_terms : AbstractStateGraph State → ℕ → List ℕ → List (Column × Coefficient)
  in_terms g u [] = []
  in_terms g u (p ∷ ps) =
      let deeper = in_terms g u ps in
      if has_column g p u then (edge_flow p u, minus 1) ∷ deeper else deeper

  unfoldable pub out_terms : AbstractStateGraph State → ℕ → List Edge → List (Column × Coefficient)
  out_terms g u [] = []
  out_terms g u (e ∷ es) =
      let deeper = out_terms g u es in
      if has_column g u e.to then (edge_flow u e.to, minus 1) ∷ deeper else deeper

  unfoldable pub back_terms :
      AbstractStateGraph State → ℕ → ℕ → List ℕ → List (Column × Coefficient)
  back_terms g u bound [] = []
  back_terms g u bound (p ∷ ps) =
      let deeper = back_terms g u bound ps in
      if is_back_to u (g.adjacency p) && has_column g p u
      then (edge_flow p u, minus bound) ∷ deeper
      else deeper

  -- `x_u = Sum(InEdges)`.
  unfoldable pub in_row : AbstractStateGraph State → ℕ → Row
  in_row g u = record {
    lower = 0;
    upper = some 0;
    terms = (node_count u, plus 1) ∷ in_terms g u (g.preds u);
  }

  -- `x_u = Sum(OutEdges)`.
  unfoldable pub out_row : AbstractStateGraph State → ℕ → Row
  out_row g u = record {
    lower = 0;
    upper = some 0;
    terms = (node_count u, plus 1) ∷ out_terms g u (g.adjacency u);
  }

  -- `(Bound - 1) * x_h - Bound * Sum(BackEdges) >= 0`.
  unfoldable pub loop_row : AbstractStateGraph State → ℕ → ℕ → Row
  loop_row g u bound = record {
    lower = 0;
    upper = none;
    terms = (node_count u, plus (bound - 1)) ∷ back_terms g u bound (g.preds u);
  }

  -- The rows of one node, in the order of the loop.
  unfoldable pub node_rows : AbstractStateGraph State → ℕ → Node State → List Row
  node_rows g u n =
      (if n.is_entry then [] else in_row g u ∷ [])
      ++ ((if n.is_exit then [] else out_row g u ∷ [])
          ++ ((if n.is_entry then entry_row u ∷ [] else [])
              ++ (if n.is_loop_header && ltb 0 n.upper_loop_bound
                  then loop_row g u n.upper_loop_bound ∷ []
                  else [])))

  unfoldable pub all_node_rows : AbstractStateGraph State → ℕ → List (Node State) → List Row
  all_node_rows g u [] = []
  all_node_rows g u (n ∷ ns) = node_rows g u n ++ all_node_rows g (suc u) ns

  unfoldable pub return_terms : AbstractStateGraph State → ℕ → List ℕ → List (Column × Coefficient)
  return_terms g landing [] = []
  return_terms g landing (r ∷ rs) =
      let deeper = return_terms g landing rs in
      if has_column g r landing then (edge_flow r landing, minus 1) ∷ deeper else deeper

  -- `flow(CallNode -> entry) - Sum_r flow(return_r -> landing) == 0`.
  unfoldable pub call_rows : AbstractStateGraph State → Calls → CallSite → List Row
  call_rows g calls site = elim (calls.function_entries site.callee) [
    | none ↦ []
    | some entry ↦
        if has_column g site.call_node entry
        then match_row site.call_node entry (elim (calls.function_returns site.callee) [
          | none ↦ []
          | some returns ↦ return_terms g site.return_node returns
        ])
        else []
  ]

  unfoldable pub all_call_rows : AbstractStateGraph State → Calls → List CallSite → List Row
  all_call_rows g calls [] = []
  all_call_rows g calls (site ∷ sites) = call_rows g calls site ++ all_call_rows g calls sites

  -- Every row of the program.
  unfoldable pub wcet_rows : AbstractStateGraph State → Calls → List Row
  wcet_rows g calls = all_node_rows g 0 g.nodes ++ all_call_rows g calls calls.call_sites

  -- The objective: a node column costs the node's cost, an edge column nothing.
  unfoldable pub objective : (Column → ℕ) → ℕ → List (Node State) → ℕ
  objective x u [] = 0
  objective x u (n ∷ ns) = n.cost * x (node_count u) + objective x (suc u) ns

-- What the positive and the negative terms of a row add up to.
unfoldable pub gained : (Column → ℕ) → List (Column × Coefficient) → ℕ
gained x [] = 0
gained x ((c, plus k) ∷ ts) = k * x c + gained x ts
gained x ((c, minus k) ∷ ts) = gained x ts

unfoldable pub lost : (Column → ℕ) → List (Column × Coefficient) → ℕ
lost x [] = 0
lost x ((c, plus k) ∷ ts) = lost x ts
lost x ((c, minus k) ∷ ts) = k * x c + lost x ts

-- The values of the columns keep the bounds of a row.
abbrev pub Satisfies : (Column → ℕ) → Row → Type 0
Satisfies x row =
    (row.lower + lost x row.terms ≤ gained x row.terms)
    × elim row.upper [ none ↦ Unit | some upper ↦ gained x row.terms ≤ upper + lost x row.terms ]
