-- ===== src/Tests/CacheTests.antt =====
-- The cache analysis at concrete inputs (include/Analysis/Cache, lib/Analysis/Cache).
use llta.Cache.Age.{
  age_all, age_younger, contains, evict, fifo_update, find, insert_miss, join, lru_update, reset,
}
use llta.Cache.Age.Lookup.{is_some}
use llta.Cache.Age.WellFormed.{IsWellFormed, age_sets-IsWellFormed, make_empty-IsWellFormed}
use llta.Cache.Engine.{process_events}
use llta.Cache.Event.{CacheEvent, access}
use llta.Cache.Fifo.{IsExact, fifo_update-IsExact, fifo_update-unsound, lru_may-misses-fifo}
use llta.Cache.Geometry.{
  CacheGeometry, IsGeometry, is_valid, is_valid-IsGeometry, line_id, line_id_lem,
}
use llta.Cache.Hardware.{age_of, fifo_access, lru_access}
use llta.Cache.Kind.{may, must}
use llta.Cache.Lru.{Describes, join-Describes, lru_update-Describes}
use llta.Cache.Lru.Arrival.{Arrives, line_accessed, lru_classifies, set_begins}
use llta.Cache.Machine.{Contents, Runs, charge, fetch, stop, touched, worst_cost}
use llta.Cache.Must.{initial-Covers, initial-IsWellShaped}
use llta.Cache.Must.Models.{lru_hardware, lru_model}
use llta.Cache.Must.Process.{IsSound, must_analysis, process_events-IsSound}
use llta.Cache.Policy.{lru_policy}
use llta.Cache.Policy.Unknown.{meet, meet_lem, merged}
use llta.Cache.State.{initial}
use llta.Prelude.{
  List, [], arith, false, inl, none, refl, some, true, ℕ, ◌%◌, ◌+◌, ◌<◌, ◌↔◌, ◌∷◌, ◌≡◌, ◌≤◌,
}

-- The FRAM cache of the FR5994: two sets of two lines of eight bytes.
abbrev fram_cache : CacheGeometry
fram_cache = record { num_sets = 2; ways = 2; line_bytes = 8 }

fram_cache-IsGeometry : IsGeometry fram_cache
fram_cache-IsGeometry = record {
  set_bits = 1;
  line_bits = 3;
  few_sets = omega arith;
  short_lines = omega arith;
  sets_power = refl;
  line_power = refl;
  some_way = omega arith;
}

line_id_lem_example :
    (line_id fram_cache 16397 % 8 ≡ 0)
    × (line_id fram_cache 16397 ≤ 16397)
    × (16397 < line_id fram_cache 16397 + 8)
line_id_lem_example = line_id_lem fram_cache 3 16397 (omega arith) refl (omega arith)

is_valid-IsGeometry_example : (is_valid fram_cache ≡ true) ↔ IsGeometry fram_cache
is_valid-IsGeometry_example = is_valid-IsGeometry fram_cache (omega arith) (omega arith)

meet_lem_example :
    ((meet must (some 8) (some 16)).0 ≡ merged (some 8) (some 16))
    × (((meet must (some 8) (some 16)).1 ≡ false) ↔ ((meet must (some 8) (some 16)).0 ≡ some 8))
meet_lem_example = meet_lem must (some 8) (some 16)

-- A set that is cold in the analysis and holds two lines in the hardware.
cold-Describes : Describes must [] (8 ∷ 24 ∷ [])
unfolding find
cold-Describes m = tt

updated-Describes : Describes must (lru_update 2 [] 24) (lru_access 2 (8 ∷ 24 ∷ []) 24)
updated-Describes =
    lru_update-Describes must 2 [] (8 ∷ 24 ∷ []) 24 (omega arith) (make_empty-IsWellFormed 2)
      cold-Describes

lru_update-Describes_example : Describes must (lru_update 2 [] 24) (lru_access 2 (8 ∷ 24 ∷ []) 24)
lru_update-Describes_example =
    lru_update-Describes must 2 [] (8 ∷ 24 ∷ []) 24 (omega arith) (make_empty-IsWellFormed 2)
      cold-Describes

-- Two branches access different lines; the hardware took the first.
join-Describes_example :
    Describes must
      (join must (lru_update 2 [] 24) (lru_update 2 [] 40)).0
      (lru_access 2 (8 ∷ 24 ∷ []) 24)
join-Describes_example =
    let first =
      (age_sets-IsWellFormed 2 must [] [] 24 (omega arith) (make_empty-IsWellFormed 2)
        (make_empty-IsWellFormed 2)).0 in
    let second =
      (age_sets-IsWellFormed 2 must [] [] 40 (omega arith) (make_empty-IsWellFormed 2)
        (make_empty-IsWellFormed 2)).0 in
    join-Describes must (lru_update 2 [] 24) (lru_update 2 [] 40) (lru_access 2 (8 ∷ 24 ∷ []) 24)
      first.distinct second.distinct (inl updated-Describes)

-- Two lines of a set of two ways are accessed: the first is still a hit. From an empty set, a line
-- that was pushed out by two others is a miss.
must_run :
    Arrives must 2
      (lru_update 2 (lru_update 2 [] 8) 24)
      (lru_access 2 (lru_access 2 (40 ∷ []) 8) 24)
must_run = line_accessed 24 (line_accessed 8 (set_begins tt))

may_run :
    Arrives may 2
      (lru_update 2 (lru_update 2 (lru_update 2 [] 8) 24) 40)
      (lru_access 2 (lru_access 2 (lru_access 2 [] 8) 24) 40)
may_run = line_accessed 40 (line_accessed 24 (line_accessed 8 (set_begins refl)))

lru_classifies_example :
    (is_some (age_of (lru_access 2 (lru_access 2 (40 ∷ []) 8) 24) 8) ≡ true)
    × (is_some (age_of (lru_access 2 (lru_access 2 (lru_access 2 [] 8) 24) 40) 8) ≡ false)
unfolding contains lru_update age_all age_younger evict find insert_miss reset
lru_classifies_example =
    lru_classifies 2 (lru_update 2 (lru_update 2 [] 8) 24)
      (lru_access 2 (lru_access 2 (40 ∷ []) 8) 24)
      (lru_update 2 (lru_update 2 (lru_update 2 [] 8) 24) 40)
      (lru_access 2 (lru_access 2 (lru_access 2 [] 8) 24) 40) 8 8 (omega arith) must_run may_run
      refl refl

age_sets-IsWellFormed_example :
    IsWellFormed 2 (lru_update 2 [] 8)
    × IsWellFormed 2 (fifo_update 2 [] 8)
    × IsWellFormed 2 (join may [] []).0
age_sets-IsWellFormed_example =
    age_sets-IsWellFormed 2 may [] [] 8 (omega arith) (make_empty-IsWellFormed 2)
      (make_empty-IsWellFormed 2)

cold-IsExact : IsExact [] []
unfolding find age_of
cold-IsExact m = refl

fifo_update-IsExact_example : IsExact (fifo_update 2 [] 8) (fifo_access 2 [] 8)
fifo_update-IsExact_example = fifo_update-IsExact 2 [] [] 8 (omega arith) tt cold-IsExact

-- The line 24 is the oldest of the hardware and is not listed.
fifo_update-unsound_example :
    (contains (fifo_update 2 (fifo_update 2 [] 24) 40) 24 ≡ true)
    × (age_of (fifo_access 2 (fifo_access 2 (8 ∷ 24 ∷ []) 24) 40) 24 ≡ none)
fifo_update-unsound_example =
    fifo_update-unsound 2 [] (8 ∷ 24 ∷ []) 24 40 (omega arith) (make_empty-IsWellFormed 2)
      cold-Describes (unfold contains in refl) (unfold age_of in refl) (unfold age_of in refl)

full-IsWellFormed : IsWellFormed 2 ((24, 0) ∷ (8, 1) ∷ [])
unfolding find
full-IsWellFormed = record { distinct = (refl, (refl, tt)); young = λ m a h. ground arith }

full-IsExact : IsExact ((24, 0) ∷ (8, 1) ∷ []) (24 ∷ 8 ∷ [])
unfolding find age_of
full-IsExact m = ground arith

lru_may-misses-fifo_example :
    (contains (lru_update 2 (lru_update 2 ((24, 0) ∷ (8, 1) ∷ []) 8) 40) 24 ≡ false)
    × (age_of (fifo_access 2 (fifo_access 2 (24 ∷ 8 ∷ []) 8) 40) 24 ≡ some 1)
lru_may-misses-fifo_example =
    lru_may-misses-fifo 2 ((24, 0) ∷ (8, 1) ∷ []) (24 ∷ 8 ∷ []) 24 40 8 (omega arith)
      full-IsWellFormed full-IsExact (unfold age_of in refl) (unfold age_of in refl)
      (unfold age_of in refl)

-- The same line is fetched twice from a cold cache.
abbrev cold : Contents (lru_hardware 2)
cold = λ _. []

abbrev fetched : Contents (lru_hardware 2)
fetched = touched (lru_hardware 2) fram_cache cold 16384

abbrev twice : List CacheEvent
twice = access 16384 ∷ access 16384 ∷ []

abbrev waited : ℕ
waited =
    charge (lru_hardware 2) fram_cache 3 cold 16384
    + (charge (lru_hardware 2) fram_cache 3 fetched 16384 + 0)

twice-Runs :
    Runs
      (lru_hardware 2)
      fram_cache
      3
      (touched (lru_hardware 2) fram_cache fetched 16384)
      cold
      twice
      waited
twice-Runs = fetch 16384 (fetch 16384 stop)

process_events-IsSound_example :
    IsSound
      (lru_policy 2)
      (lru_hardware 2)
      (lru_model 2)
      fram_cache
      fram_cache-IsGeometry
      3
      (record { state = initial (lru_policy 2) fram_cache; cost = 0; reported = [] })
      (process_events
        (must_analysis (lru_policy 2) fram_cache 3)
        (initial (lru_policy 2) fram_cache)
        twice)
      (touched (lru_hardware 2) fram_cache fetched 16384)
      waited
process_events-IsSound_example =
    process_events-IsSound (lru_policy 2) (lru_hardware 2) (lru_model 2) fram_cache
      fram_cache-IsGeometry 3 (initial (lru_policy 2) fram_cache) twice-Runs
      (initial-IsWellShaped (lru_policy 2) (lru_hardware 2) (lru_model 2) fram_cache
        fram_cache-IsGeometry)
      (initial-Covers (lru_policy 2) (lru_hardware 2) (lru_model 2) fram_cache fram_cache-IsGeometry
        cold)
      (unfold worst_cost in omega arith)
