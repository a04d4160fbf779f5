-- ===== src/Solver/Pipeline.antt =====
-- The composite of several analyses (lib/Analysis/PipelineAnalysis.cpp).
pub mod Parts
use llta.Cache.Age.{equals, join}
use llta.Prelude.{Bool, List, [], false, true, ℕ, ◌%◌, ◌&&◌, ◌+◌, ◌^◌, ◌||◌, ◌∷◌}
use llta.Solver.Analysable.{AbstractAnalysable}

-- An analysis over given instructions.
pub record Stage (I : Type 0) : Type 1 where
  pub StageState : Type 0
  pub stage_initial : StageState
  pub stage_process : StageState → I → StageState × ℕ
  pub stage_equals : StageState → StageState → Bool
  pub stage_join : StageState → StageState → StageState × Bool

-- A stage as an analysis of its own.
abbrev pub alone : {I : Type 0} → Stage I → AbstractAnalysable
alone {I} a = record {
  State = a.StageState;
  Instr = I;
  initial_state = a.stage_initial;
  process = a.stage_process;
  equals = a.stage_equals;
  join = a.stage_join;
}

-- `SubStates`: one state for each analysis, so two composite states have as many parts.
abbrev pub SubStates : {I : Type 0} → List (Stage I) → Type 0
SubStates [] = Unit
SubStates (a ∷ rs) = a.StageState × SubStates rs

unfoldable pub get_initial_state : {I : Type 0} → (rs : List (Stage I)) → SubStates rs
get_initial_state [] = tt
get_initial_state (a ∷ rs) = (a.stage_initial, get_initial_state rs)

-- `PipelineAnalysis::process`: the costs are added up, on 32 bits.
unfoldable pub process_all :
    {I : Type 0} → (rs : List (Stage I)) → SubStates rs → I → SubStates rs × ℕ
process_all [] ss i = (tt, 0)
process_all (a ∷ rs) ss i =
    let first = a.stage_process ss.0 i in
    let rest = process_all rs ss.1 i in ((first.0, rest.0), (first.1 + rest.1) % 2 ^ 32)

unfoldable pub equals_all :
    {I : Type 0} → (rs : List (Stage I)) → SubStates rs → SubStates rs → Bool
equals_all [] ss ts = true
equals_all (a ∷ rs) ss ts = a.stage_equals ss.0 ts.0 && equals_all rs ss.1 ts.1

unfoldable pub join_all :
    {I : Type 0} → (rs : List (Stage I)) → SubStates rs → SubStates rs → SubStates rs × Bool
join_all [] ss ts = (tt, false)
join_all (a ∷ rs) ss ts =
    let first = a.stage_join ss.0 ts.0 in
    let rest = join_all rs ss.1 ts.1 in ((first.0, rest.0), first.1 || rest.1)

-- `PipelineAnalysis` as an analysis.
abbrev pub pipeline_analysis : {I : Type 0} → List (Stage I) → AbstractAnalysable
pipeline_analysis {I} rs = record {
  State = SubStates rs;
  Instr = I;
  initial_state = get_initial_state rs;
  process = process_all rs;
  equals = equals_all rs;
  join = join_all rs;
}
