-- ===== src/Target/Latency.antt =====
-- The latency table of the MSP430 (`msp430LatencyForOpcode`, `anyOperandIsPC` and
-- `getMSP430Latency` of lib/Targets/MSP430/MSP430Target.cpp).
use llta.Prelude.{Bool, List, Option, [], false, if◌then◌else◌, none, some, true, ℕ, ◌==◌, ◌∷◌}
use llta.Target.Opcode.{
  Dual, DualMode, MachineInstr, Opcode, Operand, SingleMode, bi, bit, bm, br, calli, callm, calln,
  callp, callr, cfi_instruction, cmp, debug, dual, inline_asm, jcc, jmp, mc, mi, mm, mn, mov,
  movzx16rm8, movzx16rr8, mp, mr, pop16r, pseudo, push16c, push16i, push16r, push8r, rc, reg, ret,
  reti, ri, rm, rn, rp, rr, rra, rrc, sext16, sm, sn, sp, sr, sub, swpb16, unnamed, value, zext16r,
}

-- `mc` and `mi`. The table has no entry for SUB16mi and SUB8mi.
unfoldable pub immediate_to_memory : Dual → DualMode → Option ℕ
immediate_to_memory sub mi = none
immediate_to_memory cmp _ = some 4
immediate_to_memory bit _ = some 4
immediate_to_memory mov _ = some 4
immediate_to_memory _ _ = some 5

unfoldable pub memory_to_memory : Dual → Option ℕ
memory_to_memory bit = some 5
memory_to_memory cmp = some 5
memory_to_memory mov = some 5
memory_to_memory _ = some 6

unfoldable pub indirect_to_memory : Dual → Option ℕ
indirect_to_memory bit = some 4
indirect_to_memory cmp = some 4
indirect_to_memory mov = some 4
indirect_to_memory _ = some 5

-- The table has no entry for MOV16mp and MOV8mp.
unfoldable pub increment_to_memory : Dual → Option ℕ
increment_to_memory bit = some 4
increment_to_memory cmp = some 4
increment_to_memory mov = none
increment_to_memory _ = some 5

unfoldable pub register_to_memory : Dual → Option ℕ
register_to_memory mov = some 3
register_to_memory bit = some 3
register_to_memory cmp = some 3
register_to_memory _ = some 4

-- To a register: the operation makes no difference.
unfoldable pub immediate_to_register : Bool → ℕ
immediate_to_register has_pc = if has_pc then 3 else 2

abbrev pub memory_to_register : ℕ
memory_to_register = 3

abbrev pub indirect_to_register : ℕ
indirect_to_register = 2

unfoldable pub increment_to_register : Bool → ℕ
increment_to_register has_pc = if has_pc then 3 else 2

unfoldable pub register_to_register : Bool → ℕ
register_to_register has_pc = if has_pc then 2 else 1

-- The Format-I instructions.
unfoldable pub dual_latency : Dual → DualMode → Bool → Option ℕ
dual_latency op mc has_pc = immediate_to_memory op mc
dual_latency op mi has_pc = immediate_to_memory op mi
dual_latency op mm has_pc = memory_to_memory op
dual_latency op mn has_pc = indirect_to_memory op
dual_latency op mp has_pc = increment_to_memory op
dual_latency op mr has_pc = register_to_memory op
dual_latency op rc has_pc = some (immediate_to_register has_pc)
dual_latency op ri has_pc = some (immediate_to_register has_pc)
dual_latency op rm has_pc = some memory_to_register
dual_latency op rn has_pc = some indirect_to_register
dual_latency op rp has_pc = some (increment_to_register has_pc)
dual_latency op rr has_pc = some (register_to_register has_pc)

-- The shifts, swaps and sign extensions of Format II.
unfoldable pub single_latency : SingleMode → ℕ
single_latency sm = 4
single_latency sn = 3
single_latency sp = 3
single_latency sr = 1

-- `msp430LatencyForOpcode(Opcode, HasPCOperand)`.
unfoldable pub msp430_latency_for_opcode : Opcode → Bool → Option ℕ
msp430_latency_for_opcode ret has_pc = some 4
msp430_latency_for_opcode reti has_pc = some 5
msp430_latency_for_opcode jcc has_pc = some 2
msp430_latency_for_opcode jmp has_pc = some 2
msp430_latency_for_opcode (rra _ mode) has_pc = some (single_latency mode)
msp430_latency_for_opcode (rrc _ mode) has_pc = some (single_latency mode)
msp430_latency_for_opcode (swpb16 mode) has_pc = some (single_latency mode)
msp430_latency_for_opcode (sext16 mode) has_pc = some (single_latency mode)
msp430_latency_for_opcode zext16r has_pc = some (single_latency sr)
msp430_latency_for_opcode callm has_pc = some 5
msp430_latency_for_opcode calli has_pc = some 4
msp430_latency_for_opcode calln has_pc = some 4
msp430_latency_for_opcode callp has_pc = some 4
msp430_latency_for_opcode callr has_pc = some 4
msp430_latency_for_opcode pop16r has_pc = some 3
msp430_latency_for_opcode push16c has_pc = some 3
msp430_latency_for_opcode push16i has_pc = some 3
msp430_latency_for_opcode push16r has_pc = some 3
msp430_latency_for_opcode push8r has_pc = some 3
msp430_latency_for_opcode (dual op _ mode) has_pc = dual_latency op mode has_pc
msp430_latency_for_opcode bi has_pc = some (immediate_to_register has_pc)
msp430_latency_for_opcode movzx16rm8 has_pc = some memory_to_register
msp430_latency_for_opcode bm has_pc = some memory_to_register
msp430_latency_for_opcode movzx16rr8 has_pc = some (register_to_register has_pc)
msp430_latency_for_opcode br has_pc = some (register_to_register has_pc)
msp430_latency_for_opcode cfi_instruction has_pc = some 0
msp430_latency_for_opcode (debug _) has_pc = some 0
msp430_latency_for_opcode inline_asm has_pc = some 1
msp430_latency_for_opcode (pseudo _) has_pc = none
msp430_latency_for_opcode (unnamed _) has_pc = none

-- `MO.isReg() && MO.getReg() == MSP430::PC`; the number of PC is the argument.
unfoldable pub is_pc : ℕ → Operand → Bool
is_pc pc (reg k) = k == pc
is_pc pc (value _) = false

unfoldable pub any_operand_is_pc : ℕ → List Operand → Bool
any_operand_is_pc pc [] = false
any_operand_is_pc pc (o ∷ os) = if is_pc pc o then true else any_operand_is_pc pc os

-- `getMSP430Latency(const MCInst &)`.
unfoldable pub mc_latency : ℕ → MachineInstr → Option ℕ
mc_latency pc i = msp430_latency_for_opcode i.opcode (any_operand_is_pc pc i.operands)

-- `getMSP430Latency(const MachineInstr &)`: none where the assertion fails.
unfoldable pub get_msp430_latency : ℕ → MachineInstr → Option ℕ
get_msp430_latency pc i = msp430_latency_for_opcode i.opcode (any_operand_is_pc pc i.operands)
