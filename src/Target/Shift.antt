-- ===== src/Target/Shift.antt =====
-- The implicit bound of a shift loop (`getImplicitLoopBound` and `isRegSelfAddShift` of
-- lib/Targets/MSP430/MSP430Target.cpp).
pub mod Laws
use llta.Prelude.{
  Bool, List, Option, [], false, if◌then◌else◌, none, not, some, true, ℕ, ◌%◌, ◌+◌, ◌==◌, ◌^◌, ◌||◌,
  ◌∷◌,
}
use llta.Target.Opcode.{
  MachineInstr, Opcode, Operand, Width, add, addc, bi, bic, cfi_instruction, cmp, debug, dual, jcc,
  jmp, rc, reg, ri, rr, rra, rrc, sr, sub, subc, w16, w8,
}

-- What is read of a machine loop: the number of its blocks, and its header's instructions and
-- whether the header is a successor of itself.
pub record MachineLoop : Type 0 where
  pub num_blocks : ℕ
  pub header : List MachineInstr
  pub is_self_successor : Bool

unfoldable pub is_reg_self_add_shift : List Operand → Bool
is_reg_self_add_shift (_ ∷ reg a ∷ reg b ∷ _) = a == b
is_reg_self_add_shift _ = false

abbrev pub bits : Width → ℕ
bits w16 = 16
bits w8 = 8

-- One round of the `switch`: the bits that are added to the width and whether the counter is
-- decremented; none where the function gives up.
unfoldable pub scan_opcode : Opcode → List Operand → Option (ℕ × Bool)
scan_opcode (rra w sr) _ = some (bits w, false)
scan_opcode (rrc w sr) _ = some (bits w, false)
scan_opcode (dual add w rr) os = if is_reg_self_add_shift os then some (bits w, false) else none
scan_opcode (dual addc w rr) os = if is_reg_self_add_shift os then some (bits w, false) else none
scan_opcode (dual sub _ ri) _ = some (0, true)
scan_opcode (dual subc _ ri) _ = some (0, true)
scan_opcode (dual bic _ rc) _ = some (0, false)
scan_opcode jcc _ = some (0, false)
scan_opcode jmp _ = some (0, false)
scan_opcode bi _ = some (0, false)
scan_opcode (dual cmp _ ri) _ = some (0, false)
scan_opcode cfi_instruction _ = some (0, false)
scan_opcode (debug _) _ = some (0, false)
scan_opcode _ _ = none

-- The loop over the block, with `ShiftedWidthBits` and `SawCounterDecrement`.
unfoldable pub scan_block : List MachineInstr → ℕ → Bool → Option (ℕ × Bool)
scan_block [] width saw = some (width, saw)
scan_block (i ∷ is) width saw = elim (scan_opcode i.opcode i.operands) [
  | none ↦ none
  | some (more, counter) ↦ scan_block is ((width + more) % 2 ^ 32) (saw || counter)
]

-- The last test: a shift and a counter.
unfoldable pub accept_width : Option (ℕ × Bool) → Option ℕ
accept_width none = none
accept_width (some (width, saw)) = if (width == 0) || not saw then none else some width

unfoldable pub get_implicit_loop_bound : MachineLoop → Option ℕ
get_implicit_loop_bound l =
    if not (l.num_blocks == 1)
    then none
    else (if not l.is_self_successor then none else accept_width (scan_block l.header 0 false))
