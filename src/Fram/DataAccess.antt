-- ===== src/Fram/DataAccess.antt =====
-- The data accesses of an instruction that may go to FRAM (lib/Utility/DataMemoryAccess.cpp).
use llta.Prelude.{
  Bool, List, List-cases, Option, [], arith, false, if◌then◌else◌, inl, inr, ltb, none, not, refl,
  some, suc, true, ℕ, ◌&&◌, ◌+◌, ◌∷◌, ◌≡◌, ◌≤◌,
}

-- A pseudo value of LLVM: the stack, a fixed stack slot, or another one.
pub data PseudoSource : Type 0 where
  stack : PseudoSource
  fixed_stack : PseudoSource
  unknown_source : PseudoSource

-- The object that `getUnderlyingObject` gives for the value of an operand.
pub data BaseObject : Type 0 where
  alloca : BaseObject
  global : ℕ → BaseObject
  unknown_object : BaseObject

pub record MemOperand : Type 0 where
  pub pseudo : Option PseudoSource
  pub base : Option BaseObject

pub record MemInstr : Type 0 where
  pub may_load : Bool
  pub may_store : Bool
  pub memoperands : List MemOperand

unfoldable pub is_stack_mem_operand : MemOperand → Bool
is_stack_mem_operand o = elim o.pseudo [
  | none ↦ false
  | some source ↦ elim source [ stack ↦ true | fixed_stack ↦ true | unknown_source ↦ false ]
]

-- A global is in SRAM when its address is known and below the FRAM.
unfoldable pub is_sram_object : ℕ → (ℕ → Option ℕ) → BaseObject → Bool
is_sram_object fram_start resolve alloca = true
is_sram_object fram_start resolve (global g) = elim (resolve g) [
  | none ↦ false
  | some address ↦ ltb address fram_start
]
is_sram_object fram_start resolve unknown_object = false

unfoldable pub is_provably_non_fram : ℕ → (ℕ → Option ℕ) → MemOperand → Bool
is_provably_non_fram fram_start resolve o =
    if is_stack_mem_operand o
    then true
    else elim o.base [ none ↦ false | some object ↦ is_sram_object fram_start resolve object ]

unfoldable pub all_stack : List MemOperand → Bool
all_stack [] = true
all_stack (o ∷ os) = let deeper = all_stack os in if is_stack_mem_operand o then deeper else false

unfoldable pub is_provably_stack_only : MemInstr → Bool
is_provably_stack_only i = elim i.memoperands [ [] ↦ false | o ∷ os ↦ all_stack (o ∷ os) ]

unfoldable pub count_unless : (MemOperand → Bool) → List MemOperand → ℕ
count_unless safe [] = 0
count_unless safe (o ∷ os) =
    let deeper = count_unless safe os in if safe o then deeper else suc deeper

unfoldable pub unknown_accesses : MemInstr → ℕ
unknown_accesses i = (if i.may_load then 1 else 0) + (if i.may_store then 1 else 0)

-- Without an operand the accesses are unknown; else the operands that are not safe are charged.
unfoldable pub charged_accesses : (MemOperand → Bool) → MemInstr → ℕ
charged_accesses safe i = elim i.memoperands [
  | [] ↦ unknown_accesses i
  | o ∷ os ↦ count_unless safe (o ∷ os)
]

-- `framDataAccessWords(MI)`.
unfoldable pub fram_data_access_words : MemInstr → ℕ
fram_data_access_words i =
    if not i.may_load && not i.may_store
    then 0
    else (if is_provably_stack_only i then 0 else charged_accesses is_stack_mem_operand i)

-- `framDataAccessWords(MI, FRAMStart, Resolve)`.
unfoldable pub resolved_data_access_words : ℕ → (ℕ → Option ℕ) → MemInstr → ℕ
resolved_data_access_words fram_start resolve i =
    if not i.may_load && not i.may_store
    then 0
    else charged_accesses (is_provably_non_fram fram_start resolve) i

all_stack_count :
    (os : List MemOperand) → all_stack os ≡ true → count_unless is_stack_mem_operand os ≡ 0
unfolding all_stack count_unless
all_stack_count [] h = refl
all_stack_count (o ∷ os) h = ground (arith, all_stack_count os)

count_resolved :
    (fram_start : ℕ) (resolve : ℕ → Option ℕ) (os : List MemOperand)
    → count_unless (is_provably_non_fram fram_start resolve) os
      ≤ count_unless is_stack_mem_operand os
unfolding count_unless is_provably_non_fram
count_resolved fram_start resolve [] = omega arith
count_resolved fram_start resolve (o ∷ os) = ground (arith, count_resolved fram_start resolve os)

-- The resolution of addresses only takes charges away: an instruction is never charged more than it
-- is without an address of a global.
pub resolved-le-fram :
    (fram_start : ℕ) (resolve : ℕ → Option ℕ) (i : MemInstr)
    → resolved_data_access_words fram_start resolve i ≤ fram_data_access_words i
unfolding resolved_data_access_words fram_data_access_words charged_accesses is_provably_stack_only
resolved-le-fram fram_start resolve i = elim (List-cases i.memoperands) [
  | inl none_there ↦ ground arith
  | inr (o, os, e) ↦
      ground (arith, count_resolved fram_start resolve (o ∷ os), all_stack_count (o ∷ os))
]
