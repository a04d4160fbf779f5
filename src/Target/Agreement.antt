-- ===== src/Target/Agreement.antt =====
-- The latency table against the instructions that the target accepts
-- (lib/Targets/MSP430/MSP430Target.cpp).
use llta.Prelude.{Bool, Option, arith, false, leb, none, not, some, true, ℕ, ◌&&◌, ◌≡◌}
use llta.Target.Check.{check_dual, check_instruction}
use llta.Target.Latency.{
  dual_latency, immediate_to_memory, immediate_to_register, increment_to_memory,
  increment_to_register, indirect_to_memory, memory_to_memory, msp430_latency_for_opcode,
  register_to_memory, register_to_register, single_latency,
}
use llta.Target.Opcode.{Dual, DualMode, Opcode, Width, dual, mi, sub}

-- There is a latency, of six cycles at most.
unfoldable pub is_priced : Option ℕ → Bool
is_priced none = false
is_priced (some l) = leb l 6

-- SUB16mi and SUB8mi.
unfoldable pub is_sub_mi : Opcode → Bool
is_sub_mi (dual sub _ mi) = true
is_sub_mi _ = false

dual-agrees :
    (op : Dual) (w : Width) (mode : DualMode) (has_pc : Bool)
    → is_priced (dual_latency op mode has_pc)
      ≡ check_dual op mode && not (is_sub_mi (dual op w mode))
unfolding is_priced is_sub_mi dual_latency check_dual immediate_to_memory memory_to_memory
    indirect_to_memory increment_to_memory register_to_memory immediate_to_register
    increment_to_register register_to_register
dual-agrees op w mode has_pc = ground arith

-- An opcode has a latency, of six cycles at most, exactly when `checkInstruction` accepts it and it
-- is neither SUB16mi nor SUB8mi.
pub latency-agrees-check :
    (op : Opcode) (has_pc : Bool)
    → is_priced (msp430_latency_for_opcode op has_pc) ≡ check_instruction op && not (is_sub_mi op)
unfolding is_priced is_sub_mi msp430_latency_for_opcode check_instruction single_latency
    immediate_to_register register_to_register
latency-agrees-check (dual op w mode) has_pc = dual-agrees op w mode has_pc
latency-agrees-check op has_pc = ground arith
