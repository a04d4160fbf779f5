-- ===== src/Target/Shift/Laws.antt =====
-- What the bound of a shift loop is (`getImplicitLoopBound` of
-- lib/Targets/MSP430/MSP430Target.cpp).
use llta.Prelude.{
  Bool, Bool-cases, List, Option, [], arith, false, get_elem?, if◌then◌else◌, inl, inr, none, not,
  refl, some, true, ℕ, ◌%◌, ◌&&◌, ◌+◌, ◌<◌, ◌==◌, ◌^◌, ◌||◌, ◌∙◌, ◌∷◌, ◌≡◌,
}
use llta.Target.Opcode.{
  Dual, DualMode, MachineInstr, Opcode, Operand, Width, add, addc, bi, bic, cfi_instruction, cmp,
  debug, dual, jcc, jmp, rc, reg, ri, rr, rra, rrc, sr, sub, subc, value,
}
use llta.Target.Shift.{
  MachineLoop, accept_width, bits, get_implicit_loop_bound, is_reg_self_add_shift, scan_block,
  scan_opcode,
}

-- An opcode by what it does in a shift loop: it rotates a register right, it adds two registers, which
-- shifts left when they are one, it takes an immediate from the counter, or it is allowed and shifts
-- nothing.
abbrev pub rotates : Opcode → Bool
rotates (rra _ sr) = true
rotates (rrc _ sr) = true
rotates _ = false

abbrev pub adds_registers : Opcode → Bool
adds_registers (dual add _ rr) = true
adds_registers (dual addc _ rr) = true
adds_registers _ = false

abbrev pub subtracts : Opcode → Bool
subtracts (dual sub _ ri) = true
subtracts (dual subc _ ri) = true
subtracts _ = false

abbrev pub is_neutral : Opcode → Bool
is_neutral (dual bic _ rc) = true
is_neutral (dual cmp _ ri) = true
is_neutral jcc = true
is_neutral jmp = true
is_neutral bi = true
is_neutral cfi_instruction = true
is_neutral (debug _) = true
is_neutral _ = false

-- The bits of a register that an opcode works on, where it has a width.
abbrev pub register_bits : Opcode → ℕ
register_bits (rra w _) = bits w
register_bits (rrc w _) = bits w
register_bits (dual _ w _) = bits w
register_bits _ = 0

abbrev pub one_register : Option Operand → Option Operand → Bool
one_register (some (reg a)) (some (reg b)) = a == b
one_register _ _ = false

-- The operands after the destination are one register.
abbrev pub doubles : List Operand → Bool
doubles os = one_register (get_elem? os 1) (get_elem? os 2)

abbrev pub shifts : MachineInstr → Bool
shifts i = rotates i.opcode || adds_registers i.opcode && doubles i.operands

abbrev pub is_allowed : MachineInstr → Bool
is_allowed i = shifts i || subtracts i.opcode || is_neutral i.opcode

-- Only instructions of a shift loop.
abbrev pub all_allowed : List MachineInstr → Bool
all_allowed [] = true
all_allowed (i ∷ is) = is_allowed i && all_allowed is

-- The bits that the instructions shift together.
abbrev pub shifted_width : List MachineInstr → ℕ
shifted_width [] = 0
shifted_width (i ∷ is) = (if shifts i then register_bits i.opcode else 0) + shifted_width is

abbrev pub has_counter : List MachineInstr → Bool
has_counter [] = false
has_counter (i ∷ is) = subtracts i.opcode || has_counter is

doubles_lem : (os : List Operand) → is_reg_self_add_shift os ≡ doubles os
unfolding is_reg_self_add_shift
doubles_lem [] = refl
doubles_lem (a ∷ []) = refl
doubles_lem (a ∷ reg b ∷ []) = refl
doubles_lem (a ∷ value b ∷ []) = refl
doubles_lem (a ∷ reg b ∷ reg c ∷ os) = refl
doubles_lem (a ∷ reg b ∷ value c ∷ os) = refl
doubles_lem (a ∷ value b ∷ c ∷ os) = refl

-- One instruction: what the scan makes of it.
abbrev scanned : MachineInstr → Option (ℕ × Bool)
scanned i =
    if is_allowed i
    then some (if shifts i then register_bits i.opcode else 0, subtracts i.opcode)
    else none

scan_dual :
    (d : Dual) (w : Width) (mode : DualMode) (os : List Operand)
    → scan_opcode (dual d w mode) os ≡ scanned (record { opcode = dual d w mode; operands = os })
unfolding scan_opcode
scan_dual d w mode os = ground (arith, doubles_lem os)

scan_opcode_lem :
    (op : Opcode) (os : List Operand)
    → scan_opcode op os ≡ scanned (record { opcode = op; operands = os })
unfolding scan_opcode
scan_opcode_lem (dual d w mode) os = scan_dual d w mode os
scan_opcode_lem op os = ground arith

mod_sum : (a b c : ℕ) → ((a + b) % 2 ^ 32 + c) % 2 ^ 32 ≡ (a + (b + c)) % 2 ^ 32
mod_sum a b c = omega arith

goes_along :
    (allowed all saw counter more : Bool) (width : ℕ)
    → allowed ≡ true
    → if◌then◌else◌ {A = Option (ℕ × Bool)} all (some (width, saw || counter || more)) none
      ≡ (if allowed && all then some (width, saw || (counter || more)) else none)
goes_along allowed all saw counter more width h = ground arith

scan_block_lem :
    (is : List MachineInstr) (width : ℕ) (saw : Bool)
    → width < 2 ^ 32
    → scan_block is width saw ≡ (
        if all_allowed is
        then some ((width + shifted_width is) % 2 ^ 32, saw || has_counter is)
        else none)
unfolding scan_block
scan_block_lem [] width saw small = ground arith
scan_block_lem (i ∷ is) width saw small =
    let role = scan_opcode_lem i.opcode i.operands in
    elim (Bool-cases (is_allowed i)) [
      | inr stops ↦
          let gives_up : scan_opcode i.opcode i.operands ≡ none = role ∙ rw stops refl in
          rw (gives_up, scan_block) (rw stops refl)
      | inl allowed ↦
          let more : ℕ = if shifts i then register_bits i.opcode else 0 in
          let counter : Bool = subtracts i.opcode in
          let goes_on : scan_opcode i.opcode i.operands ≡ some (more, counter) =
            role ∙ rw allowed refl in
          let rest = scan_block_lem is ((width + more) % 2 ^ 32) (saw || counter) (omega arith) in
          let sum = mod_sum width more (shifted_width is) in
          rw (goes_on, scan_block)
            (rest
              ∙ rw sum (
                  goes_along (is_allowed i) (all_allowed is) saw counter (has_counter is)
                    ((width + (more + shifted_width is)) % 2 ^ 32) allowed))
    ]

-- The bound of a loop is the number of bits that its instructions shift, modulo 2^32, when the loop
-- is one block that follows itself, has only instructions of a shift loop and decrements a counter,
-- and the number is not zero; every other loop has no bound. A register is shifted by a rotation to
-- the right and by its addition to itself; a subtraction of an immediate decrements a counter; and
-- jumps, a comparison, the clearing of the carry and book-keeping are allowed besides.
pub get_implicit_loop_bound_lem :
    (l : MachineLoop)
    → get_implicit_loop_bound l ≡ (
        if (l.num_blocks == 1)
          && l.is_self_successor
          && all_allowed l.header
          && has_counter l.header
          && not (shifted_width l.header % 2 ^ 32 == 0)
        then some (shifted_width l.header % 2 ^ 32)
        else none)
unfolding get_implicit_loop_bound accept_width
get_implicit_loop_bound_lem l = ground (arith, scan_block_lem l.header 0 false)
