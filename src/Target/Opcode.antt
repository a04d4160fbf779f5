-- ===== src/Target/Opcode.antt =====
-- The MSP430 opcodes that lib/Targets/MSP430/MSP430Target.cpp names, and the operands it reads.
use llta.Prelude.{List, ℕ}

pub data Width : Type 0 where
  w16 : Width
  w8 : Width

-- The two-operand operations.
pub data Dual : Type 0 where
  add : Dual
  addc : Dual
  and : Dual
  bic : Dual
  bis : Dual
  bit : Dual
  cmp : Dual
  dadd : Dual
  mov : Dual
  sub : Dual
  subc : Dual
  xor : Dual

-- The operands of a two-operand instruction, the destination first: r a register, m an indexed
-- address, n indirect, p indirect with an increment, c and i an immediate.
pub data DualMode : Type 0 where
  mc : DualMode
  mi : DualMode
  mm : DualMode
  mn : DualMode
  mp : DualMode
  mr : DualMode
  rc : DualMode
  ri : DualMode
  rm : DualMode
  rn : DualMode
  rp : DualMode
  rr : DualMode

pub data SingleMode : Type 0 where
  sm : SingleMode
  sn : SingleMode
  sp : SingleMode
  sr : SingleMode

-- The debug instructions of `TargetOpcode`.
pub data Debug : Type 0 where
  dbg_value : Debug
  dbg_label : Debug
  dbg_instr_ref : Debug
  dbg_phi : Debug
  dbg_value_list : Debug

pub data Pseudo : Type 0 where
  rrcl16 : Pseudo
  rrcl8 : Pseudo
  select16 : Pseudo
  select8 : Pseudo
  shl16 : Pseudo
  shl8 : Pseudo
  sra16 : Pseudo
  sra8 : Pseudo
  srl16 : Pseudo
  srl8 : Pseudo

-- `unnamed` stands for every opcode that the file does not name.
pub data Opcode : Type 0 where
  dual : Dual → Width → DualMode → Opcode
  rra : Width → SingleMode → Opcode
  rrc : Width → SingleMode → Opcode
  swpb16 : SingleMode → Opcode
  sext16 : SingleMode → Opcode
  zext16r : Opcode
  movzx16rm8 : Opcode
  movzx16rr8 : Opcode
  calli : Opcode
  callm : Opcode
  calln : Opcode
  callp : Opcode
  callr : Opcode
  pop16r : Opcode
  push16c : Opcode
  push16i : Opcode
  push16r : Opcode
  push8r : Opcode
  bi : Opcode
  bm : Opcode
  br : Opcode
  jmp : Opcode
  jcc : Opcode
  ret : Opcode
  reti : Opcode
  pseudo : Pseudo → Opcode
  cfi_instruction : Opcode
  debug : Debug → Opcode
  inline_asm : Opcode
  unnamed : ℕ → Opcode

pub data Operand : Type 0 where
  reg : ℕ → Operand
  value : ℕ → Operand

pub record MachineInstr : Type 0 where
  pub opcode : Opcode
  pub operands : List Operand
