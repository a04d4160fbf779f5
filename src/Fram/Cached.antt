-- ===== src/Fram/Cached.antt =====
-- The wait states with a read cache (`FRAMCacheAnalysisPass::runOnMachineFunction` of
-- lib/Targets/MSP430/FRAMCacheAnalysisPass.cpp), over the run of the worklist algorithm, whose fuel
-- is an argument. The text that it prints is left out.
pub mod Total
use llta.Cache.Engine.{CacheAnalysis}
use llta.Cache.Event.{CacheEvent}
use llta.Cache.Fixpoint.{cache_analysable}
use llta.Cache.Geometry.{CacheGeometry, is_valid}
use llta.Cache.Kind.{must}
use llta.Cache.Policy.{ReplacementPolicy, fifo_policy, lru_policy, unknown_policy}
use llta.Fram.DataAccess.{MemInstr}
use llta.Fram.Mapper.{Fetch, map_events}
use llta.Fram.Wait.{FramModel, compute_data_access_words, find_words, raise_latency, resolve_code}
use llta.Fram.Words.{compute_instruction_words}
use llta.Prelude.{
  Bool, List, Option, [], false, if◌then◌else◌, none, not, some, ℕ, ◌&&◌, ◌++◌, ◌==◌, ◌∷◌,
}
use llta.Solver.Analysable.{AbstractAnalysable}
use llta.Solver.Graph.{Node}
use llta.Solver.Worklist.{MachineFunction, WorklistSolver, run}

-- The code of the function, in layout order.
unfoldable pub function_code : MachineFunction (ℕ × MemInstr) → List (ℕ × MemInstr)
function_code [] = []
function_code (b ∷ bs) = b.instrs ++ function_code bs

-- What the mapper's tables hold for an instruction.
unfoldable pub fetch_of : FramModel → List (ℕ × ℕ) → List (ℕ × ℕ) → ℕ → Fetch
fetch_of m words accesses i = record {
  words = find_words words i;
  address = m.address_of i;
  data_words = find_words accesses i;
}

-- `Mapper`, with both tables computed once for the function.
unfoldable pub make_mapper :
    FramModel → CacheGeometry → ℕ → MachineFunction (ℕ × MemInstr) → ℕ × MemInstr → List CacheEvent
make_mapper m g start mf =
    let words =
      compute_instruction_words m.max_words (resolve_code m.address_of (function_code mf)) in
    let accesses = compute_data_access_words m start (function_code mf) in
    λ i. map_events g start m.wait_states (fetch_of m words accesses i.0)

-- `FRAMCachePolicy`: every other text stands for the default.
pub data PolicyName : Type 0 where
  lru_name : PolicyName
  fifo_name : PolicyName
  other_name : PolicyName

-- `makeMustPolicy(Geo)`.
unfoldable pub make_must_policy : CacheGeometry → PolicyName → ReplacementPolicy
make_must_policy g lru_name = lru_policy g.ways
make_must_policy g fifo_name = fifo_policy g.ways
make_must_policy g other_name = unknown_policy

-- `Must`.
abbrev pub must_cache : CacheGeometry → ℕ → ReplacementPolicy → CacheAnalysis
must_cache g line_fill policy = record {
  geometry = g;
  miss_penalty = line_fill;
  policy = policy;
  kind = must;
  has_sink = false;
}

abbrev pub must_analysable :
    FramModel
    → CacheGeometry
    → ℕ
    → ReplacementPolicy
    → ℕ
    → MachineFunction (ℕ × MemInstr)
    → AbstractAnalysable
must_analysable m g line_fill policy start mf =
    cache_analysable (must_cache g line_fill policy) (make_mapper m g start mf)

-- The loop over the nodes of the graph: a block's latency grows by the cost of its node.
unfoldable pub fold_costs : {State : Type 0} → List (Node State) → (ℕ → Option ℕ) → ℕ → Option ℕ
fold_costs [] latencies = latencies
fold_costs (n ∷ ns) latencies =
    fold_costs ns (elim n.block [ none ↦ latencies | some b ↦ raise_latency latencies b n.cost ])

-- The guards of the pass.
unfoldable pub is_modelled : FramModel → CacheGeometry → Bool
is_modelled m g = m.fram_cache && not (m.wait_states == 0) && is_valid g

-- The costs of the solution; none when the fuel ran out.
unfoldable pub charge_found :
    {State : Type 0} → Option (WorklistSolver State) → (ℕ → Option ℕ) → Option (ℕ → Option ℕ)
charge_found none latencies = none
charge_found (some s) latencies = some (fold_costs s.graph.nodes latencies)

-- `runOnMachineFunction(F)`: the map of the latencies of the blocks; none when the fuel runs out.
unfoldable pub cache_pass :
    ℕ
    → FramModel
    → CacheGeometry
    → ℕ
    → PolicyName
    → MachineFunction (ℕ × MemInstr)
    → (ℕ → Option ℕ)
    → Option (ℕ → Option ℕ)
cache_pass fuel m g line_fill name mf latencies = elim m.fram_start [
  | none ↦ some latencies
  | some start ↦
      if is_modelled m g
      then charge_found
          (run (must_analysable m g line_fill (make_must_policy g name) start mf) fuel none none mf)
          latencies
      else some latencies
]
