-- ===== src/Solver/Worklist/Ascent.antt =====
-- What makes the worklist algorithm end: the states of an analysis have an order of finite height
-- whose least element is the initial state, and the operations are monotone
-- (`AbstractAnalysable` of include/Analysis/AbstractAnalysable.h, used by
-- lib/Analysis/WorklistSolver.cpp).
use llta.Prelude.{
  All, List, Option, Option-cases, [], false, get_elem?, inl, inr, none, some, subst, suc, zero, ℕ,
  ◌%◌, ◌+◌, ◌<◌, ◌^◌, ◌∷◌, ◌≡◌, ◌≤◌,
}
use llta.Solver.Analysable.{AbstractAnalysable, process_block}
use llta.Solver.Worklist.{Block, MachineFunction, process_node}

pub record Ascends (analysis : AbstractAnalysable) : Type 1 where
  -- the states that occur, and the instructions that lead from one to another
  pub Valid : analysis.State → Type 0
  pub Known : analysis.Instr → Type 0
  pub Le : analysis.State → analysis.State → Type 0
  pub le_refl : (s : analysis.State) → Le s s
  pub le_trans : (s t u : analysis.State) → Le s t → Le t u → Le s u
  pub initial_least : (s : analysis.State) → Valid s → Le analysis.initial_state s
  pub initial_valid : Valid analysis.initial_state
  pub process_valid :
      (s : analysis.State) (i : analysis.Instr) → Known i → Valid s → Valid (analysis.process s i).0
  pub join_valid : (s t : analysis.State) → Valid s → Valid t → Valid (analysis.join s t).0
  pub process_mono :
      (s t : analysis.State) (i : analysis.Instr)
      → Valid s
      → Valid t
      → Le s t
      → Le (analysis.process s i).0 (analysis.process t i).0
  pub join_mono :
      (s t u v : analysis.State)
      → Valid s
      → Valid t
      → Valid u
      → Valid v
      → Le s u
      → Le t v
      → Le (analysis.join s t).0 (analysis.join u v).0
  pub height : ℕ
  pub rank : analysis.State → ℕ
  pub rank_height : (s : analysis.State) → Valid s → rank s ≤ height
  pub rank_grows :
      (s t : analysis.State)
      → Valid s
      → Valid t
      → Le s t
      → analysis.equals s t ≡ false
      → rank s < rank t

abbrev pub AllKnown :
    {analysis : AbstractAnalysable} → Ascends analysis → MachineFunction analysis.Instr → Type 0
AllKnown ascends mf = All (λ b. All ascends.Known b.instrs) mf

module _ (analysis : AbstractAnalysable) (ascends : Ascends analysis) where
  open analysis use {State, Instr, initial_state, process, equals, join}
  open ascends use {
    Valid, Known, Le, le_refl, le_trans, initial_least, initial_valid, process_valid, join_valid,
    process_mono, join_mono,
  }

  process_block-Valid :
      (s : State) (cost : ℕ) (is : List Instr)
      → All Known is
      → Valid s
      → Valid (process_block analysis s cost is).0
  unfolding process_block
  process_block-Valid s cost [] k v = v
  process_block-Valid s cost (i ∷ is) k v =
      process_block-Valid (process s i).0 ((cost + (process s i).1) % 2 ^ 32) is k.1
        (process_valid s i k.0 v)

  process_block-mono :
      (s t : State) (c d : ℕ) (is : List Instr)
      → All Known is
      → Valid s
      → Valid t
      → Le s t
      → Le (process_block analysis s c is).0 (process_block analysis t d is).0
  unfolding process_block
  process_block-mono s t c d [] k v w h = h
  process_block-mono s t c d (i ∷ is) k v w h =
      process_block-mono (process s i).0 (process t i).0 ((c + (process s i).1) % 2 ^ 32)
        ((d + (process t i).1) % 2 ^ 32) is k.1 (process_valid s i k.0 v) (process_valid t i k.0 w)
        (process_mono s t i v w h)

  known_block :
      (mf : MachineFunction Instr) (b : ℕ) (block : Block Instr)
      → All (λ c. All Known c.instrs) mf
      → get_elem? mf b ≡ some block
      → All Known block.instrs
  known_block [] b block k h = absurd (cc)
  known_block (c ∷ mf) zero block k h =
      let e : c ≡ block = cc in subst (λ (d : Block Instr). All Known d.instrs) e k.0
  known_block (c ∷ mf) (suc b) block k h = known_block mf b block k.1 h

  module _ (mf : MachineFunction Instr) (known : All (λ b. All Known b.instrs) mf) where
    pub process_node-Valid :
        (s : State) (block : Option ℕ) → Valid s → Valid (process_node analysis mf s block).0
    unfolding process_node
    process_node-Valid s none v = v
    process_node-Valid s (some b) v = elim (Option-cases (get_elem? mf b)) [
      | inl gone ↦ rw (gone, process_node) v
      | inr (block, there) ↦
          rw (there, process_node)
            (process_block-Valid s 0 block.instrs (known_block mf b block known there) v)
    ]

    pub process_node-mono :
        (s t : State) (block : Option ℕ)
        → Valid s
        → Valid t
        → Le s t
        → Le (process_node analysis mf s block).0 (process_node analysis mf t block).0
    unfolding process_node
    process_node-mono s t none v w h = h
    process_node-mono s t (some b) v w h = elim (Option-cases (get_elem? mf b)) [
      | inl gone ↦ rw (gone, process_node) h
      | inr (block, there) ↦
          rw (there, process_node)
            (process_block-mono s t 0 0 block.instrs (known_block mf b block known there) v w h)
    ]
