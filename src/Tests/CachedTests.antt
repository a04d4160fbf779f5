-- ===== src/Tests/CachedTests.antt =====
-- The passes that use the FRAM cache at concrete inputs
-- (lib/Targets/MSP430/FRAMCacheAnalysisPass.cpp).
use llta.Cache.Age.{
  age_all, age_younger, contains, effective_ways, equals, evict, find, insert_miss, join,
  lru_update, merge, pair_lt, reset, same_lines, sort_insert, sorted,
}
use llta.Cache.Engine.{
  access_cost, access_report, barrier_cost, event_step, process_events, run_events,
}
use llta.Cache.Event.{CacheEvent, access}
use llta.Cache.Geometry.{complement64, is_pow2, is_valid, line_id, pred32, set_index}
use llta.Cache.Policy.{unknown_policy}
use llta.Cache.Policy.Unknown.{holds, meet, merged, same_line, update}
use llta.Cache.State.{CacheState, access_line, initial, join_sets, same_sets, wipe}
use llta.Fram.Cached.{
  cache_pass, charge_found, fetch_of, fold_costs, function_code, is_modelled, make_mapper,
  make_must_policy, other_name,
}
use llta.Fram.Cached.Total.{cache_pass-total, cost_for, default_must, rounds}
use llta.Fram.DataAccess.{MemInstr, charged_accesses, resolved_data_access_words, unknown_accesses}
use llta.Fram.Mapper.{code_events, data_events, fetch_events, map_events, word_address}
use llta.Fram.Misses.{
  note_lines, replay_block, replay_code, replay_found, replay_node, replay_nodes,
  report_always_miss,
}
use llta.Fram.Wait.{FramModel, compute_data_access_words, find_words, raise_latency, resolve_code}
use llta.Fram.Wait.Charged.{or_zero}
use llta.Fram.Words.{
  compute_instruction_words, compute_words, insert_by_address, sort_by_address, word_count,
}
use llta.Loops.Back.{insert_pair, mem_pair}
use llta.Prelude.{
  List, Option, [], arith, none, refl, some, true, ℕ, ◌%◌, ◌*◌, ◌+◌, ◌<◌, ◌^◌, ◌∷◌, ◌≡◌,
}
use llta.Solver.Analysable.{process_block}
use llta.Solver.Graph.{add_edge, add_node, get_node, insert_edge, insert_id, set_node}
use llta.Solver.Worklist.{
  MachineFunction, WorklistSolver, add_targets, add_to_worklist, connect, connect_block,
  create_node, create_nodes, enter, in_state, initialize_graph, is_back, join_preds, mark_entry,
  mark_exit, mark_exits, mark_header, process_node, run, solve, take_from_worklist, visit,
}
use llta.Solver.Worklist.Fixpoint.{Settled}
use llta.Tests.FramTests.{small_block, small_model, two_sets}

-- Three words of code in FRAM and a store, with the cache, the default policy and five cycles to fill a line, in one block that
-- repeats itself.
abbrev cached_model : FramModel
cached_model = record small_model { fram_cache = true }

abbrev cached_code : MachineFunction (ℕ × MemInstr)
cached_code = record { instrs = small_block.code; succs = 0 ∷ []; is_return = true } ∷ []

two_sets_modelled : is_modelled cached_model two_sets ≡ true
unfolding is_modelled is_valid is_pow2 pred32
two_sets_modelled = refl

cached_words : (key : ℕ) → or_zero (some 8) < 2 ^ 32
cached_words key = omega arith

cache_pass-total_example :
    (s : WorklistSolver (CacheState unknown_policy)) × (raised : ℕ → Option ℕ) × (cache_pass
        (rounds cached_model two_sets 5 16384 cached_code)
        cached_model
        two_sets
        5
        other_name
        cached_code
        (λ _. some 8)
      ≡ some raised)
    × (run
          (default_must cached_model two_sets 5 16384 cached_code)
          (rounds cached_model two_sets 5 16384 cached_code)
          none
          none
          cached_code
        ≡ some s)
    × ((id : ℕ)
        → Settled (default_must cached_model two_sets 5 16384 cached_code) cached_code s.graph id)
    × ((key : ℕ) → or_zero (raised key) ≡ (or_zero (some 8) + cost_for s.graph.nodes key) % 2 ^ 32)
cache_pass-total_example =
    cache_pass-total cached_model two_sets 5 16384 cached_code (λ _. some 8) refl two_sets_modelled
      cached_words

-- The line is filled once for three words, and the store costs the wait states.
abbrev at_zero : Option (ℕ → Option ℕ) → Option ℕ
at_zero none = none
at_zero (some latencies) = latencies 0

cached_pass :
    at_zero (cache_pass 5 cached_model two_sets 5 other_name cached_code (λ _. some 8)) ≡ some 16
unfolding cache_pass is_modelled is_valid is_pow2 pred32 charge_found run solve take_from_worklist
    initialize_graph enter add_to_worklist visit get_node mark_exits mark_exit mark_entry connect
    connect_block is_back add_edge insert_edge insert_id create_nodes create_node mark_header
    add_node set_node add_targets in_state join_preds process_node process_block process_events
    run_events event_step access_line access_cost access_report barrier_cost wipe same_sets
    join_sets initial set_index line_id complement64 update holds same_line meet merged
    make_must_policy fold_costs raise_latency function_code fetch_of make_mapper map_events
    code_events data_events fetch_events word_address compute_instruction_words resolve_code
    sort_by_address insert_by_address compute_words word_count compute_data_access_words
    resolved_data_access_words charged_accesses unknown_accesses find_words
cached_pass = refl

-- Two lines are fetched, of which the second is a word away: each is reported once, in the replay of
-- the one block, from the newest report on.
abbrev fetched_twice : ℕ → List CacheEvent
fetched_twice i = access 16384 ∷ access 16384 ∷ access (16384 + 16 * i) ∷ []

small_reports :
    report_always_miss two_sets 5 fetched_twice
      (λ b. b)
      5
      (record { instrs = 1 ∷ 0 ∷ []; succs = []; is_return = true } ∷ [])
    ≡ some ((0, 16400) ∷ (0, 16384) ∷ [])
unfolding report_always_miss replay_found replay_nodes replay_node replay_block replay_code
    note_lines insert_pair mem_pair run solve take_from_worklist initialize_graph enter
    add_to_worklist visit get_node mark_exits mark_exit mark_entry connect connect_block is_back
    add_edge insert_edge insert_id create_nodes create_node mark_header add_node set_node
    add_targets in_state join_preds process_node process_block process_events run_events event_step
    access_line access_cost access_report barrier_cost wipe same_sets join_sets initial set_index
    pred32 effective_ways find contains age_all evict insert_miss age_younger reset lru_update
    equals join merge same_lines sorted sort_insert pair_lt
small_reports = refl
