-- ===== src/Fram/Misses.antt =====
-- The always-miss reports (`reportAlwaysMiss` of lib/Targets/MSP430/FRAMCacheAnalysisPass.cpp): the
-- may analysis runs to its end, and then every block is replayed from its entry state. A report is
-- the name of a block with a line; a report that was made is not made again.
pub mod Printed
use llta.Cache.Engine.{CacheAnalysis, process_events}
use llta.Cache.Event.{CacheEvent}
use llta.Cache.Fixpoint.{cache_analysable}
use llta.Cache.Geometry.{CacheGeometry}
use llta.Cache.Kind.{may}
use llta.Cache.Policy.{lru_policy}
use llta.Cache.State.{CacheState}
use llta.Loops.Back.{insert_pair}
use llta.Prelude.{Bool, List, Option, [], false, get_elem?, none, some, suc, true, ℕ, ◌∷◌}
use llta.Solver.Analysable.{AbstractAnalysable}
use llta.Solver.Graph.{AbstractStateGraph, Node}
use llta.Solver.Worklist.{Block, MachineFunction, WorklistSolver, in_state, run}

-- `May`, without and with the sink.
abbrev pub may_cache : CacheGeometry → ℕ → Bool → CacheAnalysis
may_cache g line_fill has_sink = record {
  geometry = g;
  miss_penalty = line_fill;
  policy = lru_policy g.ways;
  kind = may;
  has_sink = has_sink;
}

-- The body of the sink: `Reported.insert`, and the text for a new entry. The newest report is first.
unfoldable pub note_lines : ℕ → List ℕ → List (ℕ × ℕ) → List (ℕ × ℕ)
note_lines name [] reported = reported
note_lines name (line ∷ lines) reported = note_lines name lines (insert_pair name line reported)

module _ {Instr : Type 0} (g : CacheGeometry) (line_fill : ℕ) (mapper : Instr → List CacheEvent)
    (name_of : ℕ → ℕ) where
  abbrev pub MayState : Type 0
  MayState = CacheState (lru_policy g.ways)

  abbrev pub may_analysable : AbstractAnalysable
  may_analysable = cache_analysable (may_cache g line_fill false) mapper

  -- `for (MI : *N->MBB) May.process(In, &MI)`, with the sink.
  unfoldable pub replay_code : ℕ → MayState → List Instr → List (ℕ × ℕ) → List (ℕ × ℕ)
  replay_code name sets [] reported = reported
  replay_code name sets (i ∷ is) reported =
      let p = process_events (may_cache g line_fill true) sets (mapper i) in
      replay_code name p.state is (note_lines name p.reported reported)

  unfoldable pub replay_block : ℕ → MayState → Option (Block Instr) → List (ℕ × ℕ) → List (ℕ × ℕ)
  replay_block name sets none reported = reported
  replay_block name sets (some code) reported = replay_code name sets code.instrs reported

  -- A node that has a block is replayed from the states that its predecessors end with.
  unfoldable pub replay_node :
      MachineFunction Instr
      → AbstractStateGraph MayState
      → ℕ
      → Option ℕ
      → List (ℕ × ℕ)
      → List (ℕ × ℕ)
  replay_node mf graph id none reported = reported
  replay_node mf graph id (some b) reported =
      replay_block (name_of b) (in_state may_analysable graph id) (get_elem? mf b) reported

  -- The loop over the nodes, from an identifier on.
  unfoldable pub replay_nodes :
      MachineFunction Instr
      → AbstractStateGraph MayState
      → ℕ
      → List (Node MayState)
      → List (ℕ × ℕ)
      → List (ℕ × ℕ)
  replay_nodes mf graph id [] reported = reported
  replay_nodes mf graph id (n ∷ ns) reported =
      replay_nodes mf graph (suc id) ns (replay_node mf graph id n.block reported)

  unfoldable pub replay_found :
      MachineFunction Instr → Option (WorklistSolver MayState) → Option (List (ℕ × ℕ))
  replay_found mf none = none
  replay_found mf (some s) = some (replay_nodes mf s.graph 0 s.graph.nodes [])

  -- `reportAlwaysMiss`: the reports; none when the fuel of the run is used up.
  unfoldable pub report_always_miss : ℕ → MachineFunction Instr → Option (List (ℕ × ℕ))
  report_always_miss fuel mf = replay_found mf (run may_analysable fuel none none mf)
