-- ===== src/Address/Align.antt =====
-- The alignment of a function's instructions with the disassembled binary
-- (`AdressResolverPass::alignFunction` of lib/MIRPasses/AdressResolverPass.cpp).
use llta.Prelude.{
  Bool, List, Option, [], false, get_elem?, if◌then◌else◌, length, none, some, suc, true, zero, ℕ,
  ◌==◌, ◌∷◌,
}

-- An instruction of the disassembly, and the target of a branch.
pub record DumpInstruction : Type 0 where
  pub address : ℕ
  pub bytes : List ℕ
  pub branch_target : Option ℕ

-- What the pass reads of a machine instruction: whether it emits code, and the bytes that
-- `tryEncode` finds for it with the MC encoder.
pub record MachineCode : Type 0 where
  pub emits : Bool
  pub encoding : Option (List ℕ)

pub record Coverage : Type 0 where
  pub code_mis : ℕ
  pub resolved_mis : ℕ
  pub branch_targets : ℕ
  pub resync_events : ℕ
  pub mismatch_events : ℕ
  pub leftover_events : ℕ

-- The local variables of the loop, the coverage, and the tables of `TAR`: the number of an
-- instruction with its address or its target, the last write first.
pub record Alignment : Type 0 where
  pub dump_idx : ℕ
  pub mi_idx : ℕ
  pub warnings : ℕ
  pub coverage : Coverage
  pub addresses : List (ℕ × ℕ)
  pub targets : List (ℕ × ℕ)

unfoldable pub same_bytes : List ℕ → List ℕ → Bool
same_bytes [] [] = true
same_bytes (a ∷ more) (b ∷ bs) = let deeper = same_bytes more bs in if a == b then deeper else false
same_bytes _ _ = false

-- An anchor has an encoding as long as the entry's.
unfoldable pub usable_anchor : DumpInstruction → Option (List ℕ) → Option (List ℕ)
usable_anchor entry none = none
usable_anchor entry (some bytes) = if length bytes == length entry.bytes then some bytes else none

-- `while (K < Lim && Range[K]->Bytes != Bytes) ++K`, for a window of entries.
unfoldable pub search_forward : List DumpInstruction → List ℕ → ℕ → ℕ → Option ℕ
search_forward range bytes k zero = none
search_forward range bytes k (suc window) =
    let deeper = search_forward range bytes (suc k) window in
    elim (get_elem? range k) [
      | none ↦ none
      | some entry ↦ if same_bytes entry.bytes bytes then some k else deeper
    ]

abbrev pub count_if : Bool → ℕ → ℕ
count_if diagnose n = if diagnose then suc n else n

-- The same length and other bytes: go to the next entry that matches, or stay.
unfoldable pub resync : ℕ → Bool → List DumpInstruction → List ℕ → Alignment → Alignment
resync window diagnose range bytes s = elim (search_forward range bytes (suc s.dump_idx) window) [
  | some k ↦ record s {
    dump_idx = k;
    warnings = suc s.warnings;
    coverage = record s.coverage { resync_events = count_if diagnose s.coverage.resync_events };
  }
  | none ↦ record s {
    warnings = suc s.warnings;
    coverage = record s.coverage { mismatch_events = count_if diagnose s.coverage.mismatch_events };
  }
]

unfoldable pub check_anchor :
    ℕ → Bool → List DumpInstruction → DumpInstruction → Option (List ℕ) → Alignment → Alignment
check_anchor window diagnose range entry none s = s
check_anchor window diagnose range entry (some bytes) s =
    if same_bytes entry.bytes bytes then s else resync window diagnose range bytes s

-- The target of a branch is recorded with its instruction.
unfoldable pub set_target : Bool → Option ℕ → Alignment → Alignment
set_target diagnose none s = s
set_target diagnose (some target) s = record s {
  targets = (s.mi_idx, target) ∷ s.targets;
  coverage = record s.coverage { branch_targets = count_if diagnose s.coverage.branch_targets };
}

-- The entry at the cursor gives the address, and the cursor moves on.
unfoldable pub assign : Bool → Option DumpInstruction → Alignment → Alignment
assign diagnose none s = s
assign diagnose (some entry) s =
    let t : Alignment = record s {
      addresses = (s.mi_idx, entry.address) ∷ s.addresses;
      coverage = record s.coverage { resolved_mis = count_if diagnose s.coverage.resolved_mis };
    } in
    let u : Alignment = set_target diagnose entry.branch_target t in
    record u { dump_idx = suc u.dump_idx }

-- An instruction that emits code, at the entry of the cursor.
unfoldable pub align_at :
    ℕ → Bool → List DumpInstruction → MachineCode → Option DumpInstruction → Alignment → Alignment
align_at window diagnose range code none s = record s { warnings = suc s.warnings }
align_at window diagnose range code (some entry) s =
    let t : Alignment =
      check_anchor window diagnose range entry (usable_anchor entry code.encoding) s in
    assign diagnose (get_elem? range t.dump_idx) t

abbrev pub counted : Bool → Alignment → Alignment
counted diagnose s = record s {
  mi_idx = suc s.mi_idx;
  coverage = record s.coverage { code_mis = count_if diagnose s.coverage.code_mis };
}

unfoldable pub align_step : ℕ → Bool → List DumpInstruction → Alignment → MachineCode → Alignment
align_step window diagnose range s code =
    if code.emits
    then align_at window diagnose range code (get_elem? range s.dump_idx) (counted diagnose s)
    else s

unfoldable pub align_loop :
    ℕ → Bool → List DumpInstruction → Alignment → List MachineCode → Alignment
align_loop window diagnose range s [] = s
align_loop window diagnose range s (code ∷ codes) =
    align_loop window diagnose range (align_step window diagnose range s code) codes

-- Entries that are left over at the end are a warning.
unfoldable pub finish_alignment : Bool → List DumpInstruction → Alignment → Alignment
finish_alignment diagnose range s = if s.dump_idx == length range then s else record s {
  warnings = suc s.warnings;
  coverage = record s.coverage { leftover_events = count_if diagnose s.coverage.leftover_events };
}

-- `alignFunction(F, Range, Diagnose)`; the instructions of the function in layout order.
unfoldable pub align_function :
    ℕ → Bool → List DumpInstruction → Coverage → List MachineCode → Alignment
align_function window diagnose range coverage codes = finish_alignment diagnose range (
    align_loop window diagnose range
      (record {
        dump_idx = 0;
        mi_idx = 0;
        warnings = 0;
        coverage = coverage;
        addresses = [];
        targets = [];
      })
      codes)
