-- ===== src/Fram/Misses/Printed.antt =====
-- No report is made twice (`reportAlwaysMiss` of lib/Targets/MSP430/FRAMCacheAnalysisPass.cpp).
use mathlib.Core.Option.{some_inj}
use llta.Cache.Engine.{process_events}
use llta.Cache.Event.{CacheEvent}
use llta.Cache.Geometry.{CacheGeometry}
use llta.Fram.Misses.{
  MayState, may_analysable, may_cache, note_lines, replay_block, replay_code, replay_found,
  replay_node, replay_nodes, report_always_miss,
}
use llta.Loops.Back.{insert_pair, mem_pair}
use llta.Prelude.{
  Bool-cases, List, Option, [], false, get_elem?, inl, inr, none, some, subst, suc, true, ℕ, ◌∷◌,
  ◌≡◌,
}
use llta.Solver.Graph.{AbstractStateGraph, Node}
use llta.Solver.Worklist.{Block, MachineFunction, WorklistSolver, in_state, run}

-- No pair of the list stands in it twice.
abbrev pub Once : List (ℕ × ℕ) → Type 0
Once [] = Unit
Once (e ∷ es) = (mem_pair e.0 e.1 es ≡ false) × Once es

insert_pair-Once : (u v : ℕ) (es : List (ℕ × ℕ)) → Once es → Once (insert_pair u v es)
unfolding insert_pair
insert_pair-Once u v es once = elim (Bool-cases (mem_pair u v es)) [
  | inl there ↦ rw there once
  | inr new ↦ rw new (new, once)
]

note_lines-Once :
    (name : ℕ) (lines : List ℕ) (es : List (ℕ × ℕ)) → Once es → Once (note_lines name lines es)
unfolding note_lines
note_lines-Once name [] es once = once
note_lines-Once name (line ∷ lines) es once =
    note_lines-Once name lines (insert_pair name line es) (insert_pair-Once name line es once)

module _ {Instr : Type 0} (g : CacheGeometry) (line_fill : ℕ) (mapper : Instr → List CacheEvent)
    (name_of : ℕ → ℕ) where
  replay_code-Once :
      (name : ℕ) (sets : MayState g line_fill mapper name_of) (code : List Instr)
      → (es : List (ℕ × ℕ)) → Once es
      → Once (replay_code g line_fill mapper name_of name sets code es)
  unfolding replay_code
  replay_code-Once name sets [] es once = once
  replay_code-Once name sets (i ∷ is) es once =
      let p = process_events (may_cache g line_fill true) sets (mapper i) in
      replay_code-Once name p.state is (note_lines name p.reported es)
        (note_lines-Once name p.reported es once)

  replay_block-Once :
      (name : ℕ) (sets : MayState g line_fill mapper name_of) (code : Option (Block Instr))
      → (es : List (ℕ × ℕ)) → Once es
      → Once (replay_block g line_fill mapper name_of name sets code es)
  unfolding replay_block
  replay_block-Once name sets none es once = once
  replay_block-Once name sets (some code) es once = replay_code-Once name sets code.instrs es once

  replay_node-Once :
      (mf : MachineFunction Instr)
      (graph : AbstractStateGraph (MayState g line_fill mapper name_of)) (id : ℕ) (block : Option ℕ)
      (es : List (ℕ × ℕ))
      → Once es
      → Once (replay_node g line_fill mapper name_of mf graph id block es)
  unfolding replay_node
  replay_node-Once mf graph id none es once = once
  replay_node-Once mf graph id (some b) es once =
      replay_block-Once (name_of b) (in_state (may_analysable g line_fill mapper name_of) graph id)
        (get_elem? mf b) es once

  replay_nodes-Once :
      (mf : MachineFunction Instr)
      (graph : AbstractStateGraph (MayState g line_fill mapper name_of)) (id : ℕ)
      (ns : List (Node (MayState g line_fill mapper name_of))) (es : List (ℕ × ℕ))
      → Once es
      → Once (replay_nodes g line_fill mapper name_of mf graph id ns es)
  unfolding replay_nodes
  replay_nodes-Once mf graph id [] es once = once
  replay_nodes-Once mf graph id (n ∷ ns) es once =
      replay_nodes-Once mf graph (suc id) ns
        (replay_node g line_fill mapper name_of mf graph id n.block es)
        (replay_node-Once mf graph id n.block es once)

  replay_found-Once :
      (mf : MachineFunction Instr)
      (o : Option (WorklistSolver (MayState g line_fill mapper name_of))) (reports : List (ℕ × ℕ))
      → replay_found g line_fill mapper name_of mf o ≡ some reports
      → Once reports
  unfolding replay_found
  replay_found-Once mf none reports h = absurd (cc)
  replay_found-Once mf (some s) reports h =
      subst Once (some_inj.0 h) (replay_nodes-Once mf s.graph 0 s.graph.nodes [] tt)

  -- A block and a line are reported once at most.
  pub report_always_miss-Once :
      (fuel : ℕ) (mf : MachineFunction Instr) (reports : List (ℕ × ℕ))
      → report_always_miss g line_fill mapper name_of fuel mf ≡ some reports
      → Once reports
  unfolding report_always_miss
  report_always_miss-Once fuel mf reports h =
      replay_found-Once mf (run (may_analysable g line_fill mapper name_of) fuel none none mf)
        reports h
