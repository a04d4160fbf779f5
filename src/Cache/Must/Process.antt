-- ===== src/Cache/Must/Process.antt =====
-- The engine in the must direction bounds what the machine waits (`CacheAnalysis::process` of
-- lib/Analysis/Cache/CacheAnalysis.cpp).
use native.Mathlib.Nat.{mod-eq_of_lt}
use llta.Cache.Engine.{CacheAnalysis, Progress, add32, event_step, process_events, run_events}
use llta.Cache.Event.{CacheEvent, access, barrier}
use llta.Cache.Geometry.{CacheGeometry, IsGeometry}
use llta.Cache.Kind.{must}
use llta.Cache.Machine.{Contents, Hardware, Runs, data_access, fetch, stop, worst_cost}
use llta.Cache.Must.{
  Covers, IsWellShaped, MustModel, access_charge, access_line-Covers, access_line-IsWellShaped,
  wipe-Covers, wipe-IsWellShaped,
}
use llta.Cache.Policy.{ReplacementPolicy}
use llta.Cache.State.{CacheState, access_line}
use llta.Prelude.{List, [], arith, false, if◌then◌else◌, ℕ, ◌+◌, ◌<◌, ◌^◌, ◌≡◌, ◌≤◌}

abbrev pub must_analysis : ReplacementPolicy → CacheGeometry → ℕ → CacheAnalysis
must_analysis policy g penalty = record {
  geometry = g;
  miss_penalty = penalty;
  policy = policy;
  kind = must;
  has_sink = false;
}

add32_small : (a b : ℕ) → a + b < 2 ^ 32 → add32 a b ≡ a + b
add32_small a b h = mod-eq_of_lt h

module _ (policy : ReplacementPolicy) (hardware : Hardware) (model : MustModel policy hardware)
    (g : CacheGeometry) (geometry : IsGeometry g) (penalty : ℕ) where
  -- The state, its guarantee and the cost after some events.
  pub record IsSound (before after : Progress (must_analysis policy g penalty))
      (final : Contents hardware) (cycles : ℕ) : Type 0 where
    pub shape : IsWellShaped policy hardware model g geometry after.state
    pub covers : Covers policy hardware model g geometry after.state final
    pub bound : before.cost + cycles ≤ after.cost

  pub run_events-IsSound :
      {final h : Contents hardware} {es : List CacheEvent} {cycles : ℕ}
      (p : Progress (must_analysis policy g penalty))
      → Runs hardware g penalty final h es cycles
      → IsWellShaped policy hardware model g geometry p.state
      → Covers policy hardware model g geometry p.state h
      → p.cost + worst_cost penalty es < 2 ^ 32
      → IsSound p (run_events (must_analysis policy g penalty) p es) final cycles
  unfolding run_events event_step worst_cost
  run_events-IsSound p stop w c small = record { shape = w; covers = c; bound = omega arith }
  run_events-IsSound p (fetch {h} {es} {cycles} line r) w c small =
      let (sets, present) = access_line policy g p.state line in
      let paid = if present then 0 else penalty in
      let fits : paid ≤ penalty = ground arith in
      let waits = access_charge policy hardware model g geometry penalty p.state line h w c in
      let cost = add32_small p.cost paid (omega arith) in
      let rest =
        run_events-IsSound (event_step (must_analysis policy g penalty) p (access line)) r
          (access_line-IsWellShaped policy hardware model g geometry p.state line w)
          (access_line-Covers policy hardware model g geometry p.state line h w c) (omega arith) in
      record { shape = rest.shape; covers = rest.covers; bound = omega (arith, rest.bound) }
  run_events-IsSound p (data_access {h} {es} {cycles} cost waited after fits r) w c small =
      let sum = add32_small p.cost cost (omega arith) in
      let rest =
        run_events-IsSound (event_step (must_analysis policy g penalty) p (barrier cost)) r
          (wipe-IsWellShaped policy hardware model g geometry p.state w)
          (wipe-Covers policy hardware model g geometry p.state after) (omega arith) in
      record { shape = rest.shape; covers = rest.covers; bound = omega (arith, rest.bound) }

  -- The cost that `process` gives for the events of an instruction is at least what the machine waits
  -- for them, from any contents that the state is right about, and the state after them is right
  -- about the contents that the machine is left with. The events must fit a 32-bit cost.
  pub process_events-IsSound :
      {final h : Contents hardware} {es : List CacheEvent} {cycles : ℕ} (sets : CacheState policy)
      → Runs hardware g penalty final h es cycles
      → IsWellShaped policy hardware model g geometry sets
      → Covers policy hardware model g geometry sets h
      → worst_cost penalty es < 2 ^ 32
      → IsSound
          (record { state = sets; cost = 0; reported = [] })
          (process_events (must_analysis policy g penalty) sets es)
          final
          cycles
  unfolding process_events
  process_events-IsSound sets r w c small =
      run_events-IsSound (record { state = sets; cost = 0; reported = [] }) r w c (omega arith)
