-- ===== src/Tests/TargetTests.antt =====
-- The target description and the address alignment at concrete inputs
-- (lib/Targets/MSP430/MSP430Target.cpp, lib/MIRPasses/AdressResolverPass.cpp).
use llta.Address.Align.{Coverage, DumpInstruction, align_function}
use llta.Address.Order.{IsAscending, IsSorted, align_function-IsAscending}
use llta.Prelude.{
  List, [], arith, false, if◌then◌else◌, none, not, refl, some, suc, true, zero, ◌%◌, ◌&&◌, ◌==◌,
  ◌^◌, ◌∷◌, ◌≡◌,
}
use llta.Target.Agreement.{is_priced, is_sub_mi, latency-agrees-check}
use llta.Target.Check.{check_instruction}
use llta.Target.Latency.{msp430_latency_for_opcode}
use llta.Target.Opcode.{dual, jcc, mm, mov, reg, ri, rra, rrc, sr, sub, value, w16}
use llta.Target.Shift.{MachineLoop, accept_width, get_implicit_loop_bound, scan_block, scan_opcode}
use llta.Target.Shift.Laws.{all_allowed, get_implicit_loop_bound_lem, has_counter, shifted_width}

-- `rra r5; rrc r4; sub #1, r12; jne` as a block that follows itself.
abbrev shift_loop : MachineLoop
shift_loop = record {
  num_blocks = 1;
  header =
      record { opcode = rra w16 sr; operands = reg 5 ∷ [] }
      ∷ record { opcode = rrc w16 sr; operands = reg 4 ∷ [] }
      ∷ record { opcode = dual sub w16 ri; operands = reg 12 ∷ value 1 ∷ [] }
      ∷ record { opcode = jcc; operands = [] }
      ∷ [];
  is_self_successor = true;
}

shift_loop_bound : get_implicit_loop_bound shift_loop ≡ some 32
unfolding get_implicit_loop_bound accept_width scan_block scan_opcode
shift_loop_bound = refl

latency-agrees-check_example :
    is_priced (msp430_latency_for_opcode (dual mov w16 mm) false)
    ≡ check_instruction (dual mov w16 mm) && not (is_sub_mi (dual mov w16 mm))
latency-agrees-check_example = latency-agrees-check (dual mov w16 mm) false

get_implicit_loop_bound_lem_example : get_implicit_loop_bound shift_loop ≡ (
    if (shift_loop.num_blocks == 1)
      && shift_loop.is_self_successor
      && all_allowed shift_loop.header
      && has_counter shift_loop.header
      && not (shifted_width shift_loop.header % 2 ^ 32 == 0)
    then some (shifted_width shift_loop.header % 2 ^ 32)
    else none)
get_implicit_loop_bound_lem_example = get_implicit_loop_bound_lem shift_loop

abbrev two_entries : List DumpInstruction
two_entries =
    record { address = 16384; bytes = 1 ∷ 2 ∷ []; branch_target = none }
    ∷ record { address = 16386; bytes = 3 ∷ 4 ∷ []; branch_target = some 16384 }
    ∷ []

abbrev no_coverage : Coverage
no_coverage = record {
  code_mis = 0;
  resolved_mis = 0;
  branch_targets = 0;
  resync_events = 0;
  mismatch_events = 0;
  leftover_events = 0;
}

two_entries-IsSorted : IsSorted two_entries
two_entries-IsSorted zero zero d e lt a b = absurd (omega arith)
two_entries-IsSorted zero (suc zero) d e lt a b =
    let first : d.address ≡ 16384 = cc in
    let second : e.address ≡ 16386 = cc in omega (arith, first, second)
two_entries-IsSorted zero (suc (suc j)) d e lt a b = absurd (cc)
two_entries-IsSorted (suc zero) zero d e lt a b = absurd (omega arith)
two_entries-IsSorted (suc zero) (suc zero) d e lt a b = absurd (omega arith)
two_entries-IsSorted (suc zero) (suc (suc j)) d e lt a b = absurd (cc)
two_entries-IsSorted (suc (suc i)) j d e lt a b = absurd (cc)

align_function-IsAscending_example :
    IsAscending
      (align_function 32 true two_entries no_coverage
        (record { emits = true; encoding = some (3 ∷ 4 ∷ []) } ∷ [])).addresses
align_function-IsAscending_example =
    align_function-IsAscending two_entries two_entries-IsSorted 32 true no_coverage
      (record { emits = true; encoding = some (3 ∷ 4 ∷ []) } ∷ [])
