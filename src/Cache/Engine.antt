-- ===== src/Cache/Engine.antt =====
-- The transfer function of the cache analysis (include/Analysis/Cache/CacheAnalysis.h,
-- lib/Analysis/Cache/CacheAnalysis.cpp): the events of one instruction in order. A cost is a 32-bit
-- unsigned number. The sink is the list of the lines that it was called with, and stays empty where
-- none is set.
use llta.Cache.Event.{CacheEvent, access, barrier}
use llta.Cache.Geometry.{CacheGeometry}
use llta.Cache.Kind.{AnalysisKind, may, must}
use llta.Cache.Policy.{ReplacementPolicy}
use llta.Cache.State.{CacheState, access_line, wipe}
use llta.Prelude.{Bool, List, [], if◌then◌else◌, not, ℕ, ◌%◌, ◌&&◌, ◌++◌, ◌+◌, ◌^◌, ◌∷◌}

pub record CacheAnalysis : Type 1 where
  pub geometry : CacheGeometry
  pub miss_penalty : ℕ
  pub policy : ReplacementPolicy
  pub kind : AnalysisKind
  pub has_sink : Bool

-- `a + b` on 32 bits.
abbrev pub add32 : ℕ → ℕ → ℕ
add32 a b = (a + b) % 2 ^ 32

module _ (analysis : CacheAnalysis) where
  open analysis use {geometry, miss_penalty, policy, kind, has_sink}

  pub record Progress : Type 0 where
    pub state : CacheState policy
    pub cost : ℕ
    pub reported : List ℕ

  -- What an access adds to the cost.
  unfoldable pub access_cost : Bool → ℕ
  access_cost present = elim kind [ must ↦ if present then 0 else miss_penalty | may ↦ 0 ]

  -- The lines that an access reports.
  unfoldable pub access_report : Bool → ℕ → List ℕ
  access_report present line = elim kind [
    | must ↦ []
    | may ↦ if not present && has_sink then line ∷ [] else []
  ]

  unfoldable pub barrier_cost : ℕ → ℕ
  barrier_cost cost = elim kind [ must ↦ cost | may ↦ 0 ]

  -- The body of the loop over the events.
  unfoldable pub event_step : Progress → CacheEvent → Progress
  unfolding access_cost access_report barrier_cost
  event_step p (access line) =
      let (sets, present) = access_line policy geometry p.state line in
      record {
        state = sets;
        cost = add32 p.cost (access_cost present);
        reported = p.reported ++ access_report present line;
      }
  event_step p (barrier cost) = record p {
    state = wipe policy p.state;
    cost = add32 p.cost (barrier_cost cost);
  }

  unfoldable pub run_events : Progress → List CacheEvent → Progress
  run_events p [] = p
  run_events p (e ∷ es) = run_events (event_step p e) es

  -- `process`, over the events that the mapper gives.
  unfoldable pub process_events : CacheState policy → List CacheEvent → Progress
  process_events sets = run_events (record { state = sets; cost = 0; reported = [] })
