-- ===== src/Target/Check.antt =====
-- The instructions that `checkInstruction` lets pass (lib/Targets/MSP430/MSP430Target.cpp).
use llta.Prelude.{Bool, false, true}
use llta.Target.Opcode.{
  Dual, DualMode, Opcode, bi, bm, br, calli, callm, calln, callp, callr, cfi_instruction, debug,
  dual, inline_asm, jcc, jmp, mov, movzx16rm8, movzx16rr8, mp, pop16r, pseudo, push16c, push16i,
  push16r, push8r, ret, reti, rra, rrc, sext16, swpb16, unnamed, zext16r,
}

-- The list has every two-operand instruction but MOV16mp and MOV8mp.
unfoldable pub check_dual : Dual → DualMode → Bool
check_dual mov mp = false
check_dual _ _ = true

-- Whether `checkInstruction` returns; it stops at an assertion for the others.
unfoldable pub check_instruction : Opcode → Bool
check_instruction (dual op _ mode) = check_dual op mode
check_instruction (rra _ _) = true
check_instruction (rrc _ _) = true
check_instruction (swpb16 _) = true
check_instruction (sext16 _) = true
check_instruction zext16r = true
check_instruction movzx16rm8 = true
check_instruction movzx16rr8 = true
check_instruction calli = true
check_instruction callm = true
check_instruction calln = true
check_instruction callp = true
check_instruction callr = true
check_instruction pop16r = true
check_instruction push16c = true
check_instruction push16i = true
check_instruction push16r = true
check_instruction push8r = true
check_instruction bi = true
check_instruction bm = true
check_instruction br = true
check_instruction jmp = true
check_instruction jcc = true
check_instruction ret = true
check_instruction reti = true
check_instruction (pseudo _) = false
check_instruction cfi_instruction = true
check_instruction (debug _) = true
check_instruction inline_asm = true
check_instruction (unnamed _) = false
