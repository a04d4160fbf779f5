-- ===== src/Cache/Fixpoint/Events.antt =====
-- The events of an instruction keep the order of the cache states and the number of sets
-- (`CacheAnalysis::process` of lib/Analysis/Cache/CacheAnalysis.cpp).
use llta.Cache.Engine.{CacheAnalysis, Progress, event_step, run_events}
use llta.Cache.Event.{CacheEvent, access, barrier}
use llta.Cache.Fixpoint.Order.{CacheLe, SetAscends, access_line-CacheLe, wipe-CacheLe}
use llta.Cache.Geometry.{set_index}
use llta.Cache.State.{access_line, cell, length-wipe}
use llta.Prelude.{List, [], length, length-set, refl, ◌∙◌, ◌∷◌, ◌≡◌}

module _ (analysis : CacheAnalysis) (order : SetAscends analysis.policy analysis.kind) where
  open analysis use {geometry, policy, kind}

  event_step-CacheLe :
      (p q : Progress analysis) (e : CacheEvent)
      → CacheLe policy kind order p.state q.state
      → CacheLe policy kind order (event_step analysis p e).state (event_step analysis q e).state
  unfolding event_step
  event_step-CacheLe p q (access line) h =
      access_line-CacheLe policy kind order geometry p.state q.state line h
  event_step-CacheLe p q (barrier cost) h = wipe-CacheLe policy kind order p.state q.state h

  pub run_events-CacheLe :
      (es : List CacheEvent) (p q : Progress analysis)
      → CacheLe policy kind order p.state q.state
      → CacheLe policy kind order (run_events analysis p es).state (run_events analysis q es).state
  unfolding run_events
  run_events-CacheLe [] p q h = h
  run_events-CacheLe (e ∷ es) p q h =
      run_events-CacheLe es (event_step analysis p e) (event_step analysis q e)
        (event_step-CacheLe p q e h)

  event_step-length :
      (p : Progress analysis) (e : CacheEvent)
      → length (event_step analysis p e).state ≡ length p.state
  unfolding event_step access_line
  event_step-length p (access line) =
      let s = set_index geometry line in
      length-set p.state s (policy.update (cell policy p.state s) line)
  event_step-length p (barrier cost) = length-wipe policy p.state

  pub run_events-length :
      (es : List CacheEvent) (p : Progress analysis)
      → length (run_events analysis p es).state ≡ length p.state
  unfolding run_events
  run_events-length [] p = refl
  run_events-length (e ∷ es) p =
      run_events-length es (event_step analysis p e) ∙ event_step-length p e
