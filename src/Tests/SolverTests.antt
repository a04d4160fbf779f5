-- ===== src/Tests/SolverTests.antt =====
-- The abstract state graph and the worklist algorithm at concrete inputs
-- (lib/Analysis/AbstractStateGraph.cpp, lib/Analysis/WorklistSolver.cpp).
use llta.Prelude.{
  ==_iff, Bool, List, [], arith, false, get_elem?, if◌then◌else◌, length, ltb, max, none, not, refl,
  some, suc, true, ℕ, ◌%◌, ◌&&◌, ◌*◌, ◌+◌, ◌<◌, ◌==◌, ◌^◌, ◌||◌, ◌∷◌, ◌≡◌, ◌≤◌,
}
use llta.Solver.Analysable.{AbstractAnalysable, process_block}
use llta.Solver.Graph.{
  AbstractStateGraph, IsConsistent, Node, add_edge, empty_graph, mem_edge, mem_id, remove_edge,
}
use llta.Solver.Graph.Edges.{edges-IsConsistent}
use llta.Solver.Pipeline.{Stage, pipeline_analysis, process_all}
use llta.Solver.Pipeline.Parts.{costs_alone, process_block-pipeline_analysis, states_alone}
use llta.Solver.Worklist.{
  Block, MachineFunction, WorklistSolver, add_to_worklist, enter, initialize_graph, run, visit,
}
use llta.Solver.Worklist.Ascent.{Ascends}
use llta.Solver.Worklist.Degree.{degree}
use llta.Solver.Worklist.Fixpoint.{Inv, IsUntouched, Settled}
use llta.Solver.Worklist.Initial.{IsFresh}
use llta.Solver.Worklist.Queue.{popped}
use llta.Solver.Worklist.Run.{first_queue, initial-Inv, initialize_graph_lem, round-Inv}
use llta.Solver.Worklist.Stalled.{run-stalls}
use llta.Solver.Worklist.Total.{run-total}

-- An analysis whose state is a number that every instruction overwrites, at a cost of one.
abbrev last_value : AbstractAnalysable
last_value = record {
  State = ℕ;
  Instr = ℕ;
  initial_state = 0;
  process = λ _ i. (i, 1);
  equals = λ a b. a == b;
  join = λ a b. (max a b, ltb a b);
}

abbrev straight : List ℕ → List ℕ → Bool → Block ℕ
straight instrs succs is_return = record { instrs = instrs; succs = succs; is_return = is_return }

-- The entry ends in the initial state, and a second block follows it.
abbrev entry_block : Block ℕ
entry_block = straight (7 ∷ 0 ∷ []) (1 ∷ []) false

abbrev rest_blocks : MachineFunction ℕ
rest_blocks = straight (5 ∷ []) [] true ∷ []

run-stalls_example :
    (t : WorklistSolver ℕ) × (run last_value 10 none none (entry_block ∷ rest_blocks) ≡ some t)
    × ((id : ℕ) (n : Node ℕ)
        → get_elem? t.graph.nodes (suc id) ≡ some n
        → IsUntouched last_value (entry_block ∷ rest_blocks) n)
unfolding mem_id process_block
run-stalls_example = run-stalls last_value entry_block rest_blocks none none 9 refl refl

==-refl : (s : ℕ) → (s == s) ≡ true
==-refl s = (==_iff s s).1 refl

abbrev started : WorklistSolver ℕ
started = initialize_graph last_value none none (entry_block ∷ rest_blocks)

initialize_graph_lem_example :
    (length started.graph.nodes ≡ length (entry_block ∷ rest_blocks))
    × IsFresh last_value (entry_block ∷ rest_blocks) started.graph
    × (started.worklist ≡ first_queue last_value (entry_block ∷ rest_blocks))
    × ((id : ℕ)
        → started.in_worklist id ≡ mem_id id (first_queue last_value (entry_block ∷ rest_blocks)))
initialize_graph_lem_example = initialize_graph_lem last_value none none (entry_block ∷ rest_blocks)

started-Inv : Inv last_value (entry_block ∷ rest_blocks) started
started-Inv = initial-Inv last_value (entry_block ∷ rest_blocks) none none

started_front : started.worklist ≡ 0 ∷ []
unfolding initialize_graph enter add_to_worklist
started_front = refl

round-Inv_example :
    Inv last_value
      (entry_block ∷ rest_blocks)
      (visit last_value (entry_block ∷ rest_blocks) (popped started 0 []) 0)
round-Inv_example =
    round-Inv last_value (entry_block ∷ rest_blocks) ==-refl started 0 [] started_front started-Inv

abbrev empty : AbstractStateGraph ℕ
empty = empty_graph

empty-IsConsistent : IsConsistent empty
unfolding mem_edge mem_id
empty-IsConsistent u v = refl

edges-IsConsistent_example :
    IsConsistent (add_edge empty 0 1 true) × IsConsistent (remove_edge empty 0 1)
edges-IsConsistent_example = edges-IsConsistent empty 0 1 true empty-IsConsistent

-- An analysis that remembers whether some instruction was `true`.
abbrev pub flags : AbstractAnalysable
flags = record {
  State = Bool;
  Instr = Bool;
  initial_state = false;
  process = λ s i. (s || i, 1);
  equals = λ a b. if a then b else not b;
  join = λ a b. (a || b, not a && b);
}

abbrev LeBool : Bool → Bool → Type 0
LeBool true false = ⊥
LeBool _ _ = Unit

LeBool-refl : (s : Bool) → LeBool s s
LeBool-refl true = tt
LeBool-refl false = tt

LeBool-trans : (s t u : Bool) → LeBool s t → LeBool t u → LeBool s u
LeBool-trans false t u h k = tt
LeBool-trans true true u h k = k
LeBool-trans true false u h k = absurd h

LeBool-or : (s t u v : Bool) → LeBool s u → LeBool t v → LeBool (s || t) (u || v)
LeBool-or false false u v h k = tt
LeBool-or false true true v h k = tt
LeBool-or false true false v h k = k
LeBool-or true t true v h k = tt
LeBool-or true t false v h k = absurd h

rank_grows_flags :
    (s t : Bool)
    → LeBool s t
    → flags.equals s t ≡ false
    → (if s then 1 else 0) < (if t then 1 else 0)
rank_grows_flags false true h e = omega arith
rank_grows_flags false false h e = absurd (cc)
rank_grows_flags true true h e = absurd (cc)
rank_grows_flags true false h e = absurd h

rank_height_flags : (s : Bool) → (if s then 1 else 0) ≤ 1
rank_height_flags s = ground arith

abbrev flags_ascend : Ascends flags
flags_ascend = record {
  Valid = λ _. Unit;
  Known = λ _. Unit;
  Le = LeBool;
  le_refl = LeBool-refl;
  le_trans = LeBool-trans;
  initial_least = λ s v. tt;
  initial_valid = tt;
  process_valid = λ s i k v. tt;
  join_valid = λ s t v w. tt;
  process_mono = λ s t i v w h. LeBool-or s i t i h (LeBool-refl i);
  join_mono = λ s t u v a b c d h k. LeBool-or s t u v h k;
  height = 1;
  rank = λ s. if s then 1 else 0;
  rank_height = λ s v. rank_height_flags s;
  rank_grows = λ s t v w h e. rank_grows_flags s t h e;
}

-- A block that sets the bit, and a loop around the next one.
abbrev looping : MachineFunction Bool
looping =
    record { instrs = true ∷ []; succs = 1 ∷ []; is_return = false }
    ∷ record { instrs = false ∷ []; succs = 1 ∷ 2 ∷ []; is_return = false }
    ∷ record { instrs = []; succs = []; is_return = true }
    ∷ []

flags_equals_refl : (s : Bool) → flags.equals s s ≡ true
flags_equals_refl true = refl
flags_equals_refl false = refl

run-total_example :
    (t : WorklistSolver Bool) × (run flags
        (length looping * 1 * suc (degree looping) + 1)
        none
        none
        looping
      ≡ some t)
    × ((id : ℕ) → Settled flags looping t.graph id)
run-total_example =
    run-total flags flags_ascend looping ((tt, tt), ((tt, tt), (tt, tt))) flags_equals_refl none
      none

-- Two stages over instructions that are their latencies: one counts, one is idle.
abbrev counter : Stage ℕ
counter = record {
  StageState = ℕ;
  stage_initial = 0;
  stage_process = λ s i. (s + i, i);
  stage_equals = λ s t. s == t;
  stage_join = λ s t. if ltb s t then (t, true) else (s, false);
}

abbrev idle : Stage ℕ
idle = record {
  StageState = Unit;
  stage_initial = tt;
  stage_process = λ s i. (tt, 1);
  stage_equals = λ s t. true;
  stage_join = λ s t. (tt, false);
}

abbrev two_stages : List (Stage ℕ)
two_stages = counter ∷ idle ∷ []

two_stages_run :
    process_block (pipeline_analysis two_stages) (0, (tt, tt)) 0 (3 ∷ 4 ∷ []) ≡ ((7, (tt, tt)), 9)
unfolding process_block process_all
two_stages_run = refl

process_block-pipeline_analysis_example :
    process_block (pipeline_analysis two_stages) (0, (tt, tt)) 0 (3 ∷ 4 ∷ []) ≡ (
      states_alone two_stages (0, (tt, tt)) (3 ∷ 4 ∷ []),
      costs_alone two_stages (0, (tt, tt)) (3 ∷ 4 ∷ []) % 2 ^ 32,
    )
process_block-pipeline_analysis_example =
    process_block-pipeline_analysis two_stages (0, (tt, tt)) (3 ∷ 4 ∷ [])
