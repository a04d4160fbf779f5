-- ===== src/Fram/Wait/Charged.antt =====
-- What the wait states add to the latency of a block (`FRAMWaitStatePass::runOnMachineFunction` of
-- lib/Targets/MSP430/FRAMWaitStatePass.cpp).
use llta.Fram.DataAccess.{MemInstr}
use llta.Fram.Wait.{
  FramBlock, FramModel, all_code, compute_data_access_words, find_words, resolve_code,
}
use llta.Fram.Words.{compute_instruction_words}
use llta.Prelude.{List, Option, [], if◌then◌else◌, leb, none, some, ℕ, ◌*◌, ◌+◌, ◌==◌, ◌∷◌}

-- The words that an instruction fetches from FRAM, and the words of its data accesses.
abbrev pub or_zero : Option ℕ → ℕ
or_zero none = 0
or_zero (some n) = n

abbrev pub fetched_words : ℕ → Option ℕ → Option ℕ → ℕ
fetched_words start (some n) (some at) = if leb start at then n else 0
fetched_words start (some n) none = 0
fetched_words start none at = 0

abbrev pub instr_words : FramModel → ℕ → List (ℕ × ℕ) → List (ℕ × ℕ) → ℕ → ℕ
instr_words m start words accesses i =
    or_zero (find_words accesses i) + fetched_words start (find_words words i) (m.address_of i)

abbrev pub total_words : FramModel → ℕ → List (ℕ × ℕ) → List (ℕ × ℕ) → List (ℕ × MemInstr) → ℕ
total_words m start words accesses [] = 0
total_words m start words accesses ((i, _) ∷ is) =
    instr_words m start words accesses i + total_words m start words accesses is

module _ (m : FramModel) (start : ℕ) (words accesses : List (ℕ × ℕ)) where
  -- What the blocks of a key are charged.
  abbrev pub charge_for : List FramBlock → ℕ → ℕ
  charge_for [] key = 0
  charge_for (b ∷ bs) key =
      let rest = charge_for bs key in
      if b.block_key == key
      then m.wait_states * total_words m start words accesses b.code + rest
      else rest

-- The words that the pass works with.
abbrev pub pass_words : FramModel → List FramBlock → List (ℕ × ℕ)
pass_words m bs = compute_instruction_words m.max_words (resolve_code m.address_of (all_code bs))

abbrev pub pass_accesses : FramModel → ℕ → List FramBlock → List (ℕ × ℕ)
pass_accesses m start bs = compute_data_access_words m start (all_code bs)
