-- ===== src/Tests/FramTests.antt =====
-- The words, the data accesses and the cache events of an instruction at concrete inputs
-- (lib/Utility/InstructionWords.cpp, lib/Utility/DataMemoryAccess.cpp,
-- lib/Analysis/Cache/FRAMAccessMapper.cpp).
use llta.Cache.Event.{access, barrier}
use llta.Cache.Geometry.{CacheGeometry, line_id}
use llta.Fram.DataAccess.{
  MemInstr, all_stack, charged_accesses, count_unless, fram_data_access_words, global,
  is_provably_non_fram, is_provably_stack_only, is_sram_object, is_stack_mem_operand,
  resolved-le-fram, resolved_data_access_words, stack, unknown_accesses,
}
use llta.Fram.Mapper.{
  Fetch, code_events, data_events, fetch_events, fetches, map_events, map_events-fetches,
  word_address,
}
use llta.Fram.Wait.{
  FramBlock, FramModel, all_code, block_penalty, charge_data, charge_fetch,
  compute_data_access_words, find_words, raise_blocks, raise_latency, resolve_code, wait_state_pass,
}
use llta.Fram.Words.{
  AllWithin, Resolved, compute_instruction_words, compute_instruction_words_bounds, compute_words,
  insert_by_address, sort_by_address, times_given, times_listed, word_count,
}
use llta.Prelude.{[], arith, false, if◌then◌else◌, none, refl, some, true, ℕ, ◌==◌, ◌∷◌, ◌≡◌, ◌≤◌}

-- A function with a gap at the end of its second instruction.
abbrev scattered : Resolved
scattered = (4, 1) ∷ (0, 0) ∷ (100, 2) ∷ []

words_computed : compute_instruction_words 3 scattered ≡ (0, 2) ∷ (1, 1) ∷ (2, 1) ∷ []
unfolding compute_instruction_words compute_words sort_by_address insert_by_address word_count
words_computed = refl

compute_instruction_words_bounds_example :
    AllWithin 3 (compute_instruction_words 3 scattered)
    × ((i : ℕ) → times_given i (compute_instruction_words 3 scattered) ≡ times_listed i scattered)
compute_instruction_words_bounds_example =
    compute_instruction_words_bounds 3 scattered (omega arith)

-- A load of a global and a store to the stack.
abbrev load_and_store : MemInstr
load_and_store = record {
  may_load = true;
  may_store = true;
  memoperands =
      (record { pseudo = none; base = some (global 7) })
      ∷ (record { pseudo = some stack; base = none })
      ∷ [];
}

charged_unresolved : fram_data_access_words load_and_store ≡ 1
unfolding fram_data_access_words charged_accesses count_unless is_stack_mem_operand
    is_provably_stack_only all_stack
charged_unresolved = refl

charged_resolved : resolved_data_access_words 16384 (λ _. some 7168) load_and_store ≡ 0
unfolding resolved_data_access_words charged_accesses count_unless is_provably_non_fram
    is_stack_mem_operand is_sram_object
charged_resolved = refl

resolved-le-fram_example :
    resolved_data_access_words 16384 (λ _. some 7168) load_and_store
    ≤ fram_data_access_words load_and_store
resolved-le-fram_example = resolved-le-fram 16384 (λ _. some 7168) load_and_store

-- Eight bytes a line, two sets of two ways.
abbrev pub two_sets : CacheGeometry
two_sets = record { line_bytes = 8; num_sets = 2; ways = 2 }

abbrev two_words : Fetch
two_words = record { words = some 2; address = some 16390; data_words = some 1 }

two_words_mapped :
    map_events two_sets 16384 1 two_words ≡ access 16384 ∷ access 16392 ∷ barrier 1 ∷ []
unfolding map_events code_events data_events fetch_events word_address line_id
two_words_mapped = refl

map_events-fetches_example :
    fetches (line_id two_sets (word_address 16390 1)) (map_events two_sets 16384 1 two_words) ≡ true
unfolding word_address
map_events-fetches_example =
    map_events-fetches two_sets 16384 1 16390 2 1 (some 1) (omega arith) (omega arith)

-- Two instructions in FRAM, of one word and two, and a store to a global that is not known.
abbrev pub small_model : FramModel
small_model = record {
  wait_states = 3;
  fram_cache = false;
  fram_start = some 16384;
  address_of = λ i. if i == 0 then some 16384 else (if i == 1 then some 16388 else none);
  global_address = λ _. none;
  max_words = 3;
}

abbrev pub small_block : FramBlock
small_block = record {
  block_key = 5;
  code =
      (0, record { may_load = false; may_store = false; memoperands = [] })
      ∷ (1, record { may_load = false; may_store = true; memoperands = [] })
      ∷ [];
}

-- Three words are fetched and one is stored, at three cycles each.
small_pass : wait_state_pass small_model (small_block ∷ []) (λ _. some 8) 5 ≡ some 20
unfolding wait_state_pass compute_instruction_words resolve_code all_code sort_by_address
    insert_by_address compute_words word_count compute_data_access_words resolved_data_access_words
    charged_accesses unknown_accesses find_words raise_blocks raise_latency block_penalty
    charge_fetch charge_data
small_pass = refl
