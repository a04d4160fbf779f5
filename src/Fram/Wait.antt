-- ===== src/Fram/Wait.antt =====
-- The wait states without a cache (`FRAMWaitStatePass::runOnMachineFunction` of
-- lib/Targets/MSP430/FRAMWaitStatePass.cpp, `computeDataAccessWords` of
-- lib/Utility/InstructionWords.cpp). Instructions, blocks and globals are numbers.
pub mod Charged
use llta.Fram.DataAccess.{MemInstr, resolved_data_access_words}
use llta.Fram.Words.{Resolved, compute_instruction_words}
use llta.Prelude.{
  Bool, List, Option, [], if◌then◌else◌, leb, none, some, ℕ, ◌%◌, ◌*◌, ◌++◌, ◌+◌, ◌==◌, ◌^◌, ◌||◌,
  ◌∷◌,
}
use llta.Solver.Graph.{put}

-- The options of the pass and what the address resolver has found; `fram_start` is none where it is
-- not known, and an instruction without an address is not resolved.
pub record FramModel : Type 0 where
  pub wait_states : ℕ
  pub fram_cache : Bool
  pub fram_start : Option ℕ
  pub address_of : ℕ → Option ℕ
  pub global_address : ℕ → Option ℕ
  pub max_words : ℕ

pub record FramBlock : Type 0 where
  pub block_key : ℕ
  pub code : List (ℕ × MemInstr)

-- `find` in a table of instructions.
unfoldable pub find_words : List (ℕ × ℕ) → ℕ → Option ℕ
find_words [] instr = none
find_words ((i, n) ∷ ws) instr =
    let rest = find_words ws instr in if i == instr then some n else rest

-- `Resolved`, in the order of the code.
unfoldable pub resolve_code : (ℕ → Option ℕ) → List (ℕ × MemInstr) → Resolved
resolve_code address_of [] = []
resolve_code address_of ((i, _) ∷ is) =
    let rest = resolve_code address_of is in
    elim (address_of i) [ none ↦ rest | some at ↦ (at, i) ∷ rest ]

unfoldable pub all_code : List FramBlock → List (ℕ × MemInstr)
all_code [] = []
all_code (b ∷ bs) = b.code ++ all_code bs

-- `computeDataAccessWords(MF, TAR)`.
unfoldable pub compute_data_access_words : FramModel → ℕ → List (ℕ × MemInstr) → List (ℕ × ℕ)
compute_data_access_words m start [] = []
compute_data_access_words m start ((i, memory) ∷ is) =
    let n = resolved_data_access_words start m.global_address memory in
    let rest = compute_data_access_words m start is in if n == 0 then rest else (i, n) ∷ rest

-- `Penalty += FRAMWaitStates * N`, on 32 bits.
abbrev pub add_wait : ℕ → ℕ → ℕ → ℕ
add_wait wait penalty n = (penalty + wait * n % 2 ^ 32) % 2 ^ 32

unfoldable pub charge_data : ℕ → Option ℕ → ℕ → ℕ
charge_data wait none penalty = penalty
charge_data wait (some n) penalty = add_wait wait penalty n

unfoldable pub charge_fetch : ℕ → ℕ → Option ℕ → Option ℕ → ℕ → ℕ
charge_fetch wait start (some n) (some at) penalty =
    if leb start at then add_wait wait penalty n else penalty
charge_fetch wait start _ _ penalty = penalty

-- The loop over the instructions of a block.
unfoldable pub block_penalty :
    FramModel → ℕ → List (ℕ × ℕ) → List (ℕ × ℕ) → List (ℕ × MemInstr) → ℕ → ℕ
block_penalty m start words accesses [] penalty = penalty
block_penalty m start words accesses ((i, _) ∷ is) penalty =
    block_penalty m start words accesses is (
      charge_fetch m.wait_states start (find_words words i) (m.address_of i)
        (charge_data m.wait_states (find_words accesses i) penalty))

-- `Map[&MBB] += Penalty`, when it is not zero; an entry that is missing counts as zero.
unfoldable pub raise_latency : (ℕ → Option ℕ) → ℕ → ℕ → ℕ → Option ℕ
raise_latency latencies key penalty =
    if penalty == 0
    then latencies
    else put latencies key
        (some ((elim (latencies key) [ none ↦ 0 | some c ↦ c ] + penalty) % 2 ^ 32))

unfoldable pub raise_blocks :
    FramModel → ℕ → List (ℕ × ℕ) → List (ℕ × ℕ) → List FramBlock → (ℕ → Option ℕ) → ℕ → Option ℕ
raise_blocks m start words accesses [] latencies = latencies
raise_blocks m start words accesses (b ∷ bs) latencies =
    raise_blocks m start words accesses bs
      (raise_latency latencies b.block_key (block_penalty m start words accesses b.code 0))

abbrev pub raise_if_resolved :
    FramModel → ℕ → List (ℕ × ℕ) → List FramBlock → (ℕ → Option ℕ) → ℕ → Option ℕ
raise_if_resolved m start [] bs latencies = latencies
raise_if_resolved m start (w ∷ ws) bs latencies =
    raise_blocks m start (w ∷ ws) (compute_data_access_words m start (all_code bs)) bs latencies

-- `runOnMachineFunction(F)`: the map of the latencies of the blocks.
unfoldable pub wait_state_pass : FramModel → List FramBlock → (ℕ → Option ℕ) → ℕ → Option ℕ
wait_state_pass m bs latencies = elim m.fram_start [
  | none ↦ latencies
  | some start ↦
      if m.wait_states == 0 || m.fram_cache
      then latencies
      else raise_if_resolved m start
          (compute_instruction_words m.max_words (resolve_code m.address_of (all_code bs))) bs
          latencies
]
