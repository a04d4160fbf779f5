-- ===== src/Program/Finalize.antt =====
-- The calls between functions and what cannot be bounded (`ProgramGraph::finalize` of
-- lib/Graph/ProgramGraph.cpp). A function and a name are numbers, the functions
-- below their number.
pub mod Wired
pub mod Staged
pub mod Sites
pub mod Bound
pub mod Bounded
pub mod Finish
pub mod Total
use llta.Prelude.{
  Bool, List, Option, [], false, if◌then◌else◌, none, some, suc, true, zero, ℕ, ◌%◌, ◌++◌, ◌+◌,
  ◌==◌, ◌^◌, ◌∷◌,
}
use llta.Program.{ProgramGraph, ProgramNode, and_then, link, modify, wire_returns}
use llta.Program.Fill.{ModuleGraph, ProgramCall}
use llta.Solver.Graph.{insert_id}

-- What `finalize` reads of the module, of the target and of the pragmas. Without a target no name
-- has a cost.
pub record CallFacts : Type 0 where
  pub name_of : ℕ → ℕ
  pub is_declaration : ℕ → Bool
  pub external_cost : ℕ → Option ℕ
  pub recursion_bound : ℕ → Option ℕ
  pub function_count : ℕ

-- The graph, `PendingUnsound`, `BoundedSelfRec`, `UnboundedSelfRec`, `BoundedMutual` and
-- `UnboundedMutual`.
pub record Wiring : Type 0 where
  pub wired : ProgramGraph
  pub pending : List (ℕ × ℕ)
  pub bounded_self : List ℕ
  pub unbounded_self : List ℕ
  pub bounded_mutual : List ℕ
  pub unbounded_mutual : List ℕ

-- Whether the option holds the number.
unfoldable pub names : ℕ → Option ℕ → Bool
names n none = false
names n (some m) = m == n

-- `St.MaxCycles += *Cost; St.MinCycles += *Cost`, on 32 bits.
abbrev pub add_cost : ℕ → ProgramNode → ProgramNode
add_cost cost n = record n {
  max_cycles = (n.max_cycles + cost) % 2 ^ 32;
  min_cycles = (n.min_cycles + cost) % 2 ^ 32;
}

-- A loop header of the bound, whose back edge is a call.
abbrev pub mark_recursive : ℕ → ℕ → ProgramNode → ProgramNode
mark_recursive bound from n = record n {
  is_loop = true;
  upper_loop_bound = bound;
  back_edge_predecessors = insert_id from n.back_edge_predecessors;
}

abbrev pub with_graph : Wiring → Option ProgramGraph → Option Wiring
with_graph w none = none
with_graph w (some g) = some (record w { wired = g })

abbrev pub then_wire : Option Wiring → (Wiring → Option Wiring) → Option Wiring
then_wire none f = none
then_wire (some w) f = f w

-- `chargeOrStage(CallNode, Name)`; none where `Nodes.at` throws.
unfoldable pub charge_or_stage : CallFacts → ℕ → ℕ → Wiring → Option Wiring
charge_or_stage facts node name w = elim (facts.external_cost name) [
  | none ↦ some (record w { pending = w.pending ++ (node, name) ∷ [] })
  | some cost ↦ with_graph w (modify w.wired node (add_cost cost))
]

-- The bound of a pragma, when it is above zero.
abbrev pub positive_bound : Option ℕ → Option ℕ
positive_bound none = none
positive_bound (some zero) = none
positive_bound (some (suc b)) = some (suc b)

-- The edges from the return blocks of the callee to the landing.
unfoldable pub wire_landing : Option ℕ → Option (List ℕ) → ProgramGraph → Option ProgramGraph
wire_landing none backs g = some g
wire_landing (some l) none g = some g
wire_landing (some l) (some rs) g = wire_returns g rs l

-- A call of the function that makes it.
unfoldable pub mark_self : CallFacts → ModuleGraph → ProgramCall → ℕ → Wiring → Option Wiring
mark_self facts s call entry w =
    if names (call.call_to) (s.function_of call.call_from)
    then elim (positive_bound (facts.recursion_bound (facts.name_of call.call_to))) [
      | none ↦ some (record w { unbounded_self = insert_id call.call_to w.unbounded_self })
      | some bound ↦
          with_graph (record w { bounded_self = insert_id call.call_to w.bounded_self })
            (modify w.wired entry (mark_recursive bound call.call_from))
    ]
    else some w

-- One call site.
unfoldable pub wire_call : CallFacts → ModuleGraph → ProgramCall → Wiring → Option Wiring
wire_call facts s call w =
    if names call.call_to s.start_function then some w else elim (s.entry_of call.call_to) [
      | none ↦
          if facts.is_declaration call.call_to
          then charge_or_stage facts call.call_from (facts.name_of call.call_to) w
          else some w
      | some entry ↦
          then_wire
            (with_graph w (
              and_then (link w.wired call.call_from entry)
                (wire_landing call.lands (s.returns_of call.call_to))))
            (mark_self facts s call entry)
    ]

unfoldable pub wire_calls : CallFacts → ModuleGraph → List ProgramCall → Wiring → Option Wiring
wire_calls facts s [] w = some w
wire_calls facts s (c ∷ cs) w = then_wire (wire_call facts s c w) (wire_calls facts s cs)

-- `for (CallNode, Name : ExternalSymbolCallSites) chargeOrStage(CallNode, Name)`.
unfoldable pub charge_symbols : CallFacts → List (ℕ × ℕ) → Wiring → Option Wiring
charge_symbols facts [] w = some w
charge_symbols facts ((node, name) ∷ xs) w =
    then_wire (charge_or_stage facts node name w) (charge_symbols facts xs)
