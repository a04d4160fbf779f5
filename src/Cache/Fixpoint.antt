-- ===== src/Cache/Fixpoint.antt =====
-- The cache analysis as an analysis of the worklist algorithm (`CacheAnalysis` of
-- include/Analysis/Cache/CacheAnalysis.h and lib/Analysis/Cache/CacheAnalysis.cpp).
pub mod Order
pub mod Events
pub mod Ascent
pub mod Unknown
use llta.Cache.Age.{equals, join}
use llta.Cache.Engine.{CacheAnalysis, process_events}
use llta.Cache.Event.{CacheEvent}
use llta.Cache.State.{CacheState, initial, join_sets, same_sets}
use llta.Prelude.{List}
use llta.Solver.Analysable.{AbstractAnalysable}

-- The four operations of `CacheAnalysis`. The mapper is an argument, as its tables do not change.
abbrev pub cache_analysable :
    (analysis : CacheAnalysis) {Instr : Type 0} (mapper : Instr → List CacheEvent)
    → AbstractAnalysable
cache_analysable analysis {Instr} mapper = record {
  State = CacheState analysis.policy;
  Instr = Instr;
  initial_state = initial analysis.policy analysis.geometry;
  process = λ sets i. let p = process_events analysis sets (mapper i) in (p.state, p.cost);
  equals = same_sets analysis.policy;
  join = join_sets analysis.policy analysis.kind;
}
