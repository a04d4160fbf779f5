-- ===== src/Solver/Pipeline/Parts.antt =====
-- The composite runs each of its analyses as it would run alone (lib/Analysis/PipelineAnalysis.cpp).
use llta.Prelude.{List, [], ap, arith, refl, ℕ, ◌%◌, ◌+◌, ◌^◌, ◌∙◌, ◌∷◌, ◌≡◌}
use llta.Solver.Analysable.{process_block}
use llta.Solver.Pipeline.{Stage, SubStates, alone, pipeline_analysis, process_all}

-- Every analysis alone over the block: the states that they end in.
pub states_alone : {I : Type 0} → (rs : List (Stage I)) → SubStates rs → List I → SubStates rs
states_alone [] ss js = tt
states_alone (a ∷ rs) ss js = ((process_block (alone a) ss.0 0 js).0, states_alone rs ss.1 js)

-- And the sum of their costs.
pub costs_alone : {I : Type 0} → (rs : List (Stage I)) → SubStates rs → List I → ℕ
costs_alone [] ss js = 0
costs_alone (a ∷ rs) ss js = (process_block (alone a) ss.0 0 js).1 + costs_alone rs ss.1 js

split_block :
    {I : Type 0}
    → (a : Stage I) (rs : List (Stage I)) (s : a.StageState) (ss : SubStates rs)
    → (js : List I) (c u v : ℕ) → c ≡ (u + v) % 2 ^ 32
    → process_block (pipeline_analysis (a ∷ rs)) (s, ss) c js ≡ (
      ((process_block (alone a) s u js).0, (process_block (pipeline_analysis rs) ss v js).0),
      ((process_block (alone a) s u js).1 + (process_block (pipeline_analysis rs) ss v js).1)
          % 2 ^ 32,
    )
unfolding process_block process_all
split_block a rs s ss [] c u v e = rw e refl
split_block a rs s ss (i ∷ js) c u v e =
    let first = a.stage_process s i in
    let rest = process_all rs ss i in
    split_block a rs first.0 rest.0 js ((c + (first.1 + rest.1) % 2 ^ 32) % 2 ^ 32)
      ((u + first.1) % 2 ^ 32) ((v + rest.1) % 2 ^ 32) (omega arith)

no_stage :
    {I : Type 0}
    → (js : List I) (c : ℕ) → c ≡ 0
    → process_block (pipeline_analysis {I = I} []) tt c js ≡ (tt, 0)
unfolding process_block process_all
no_stage [] c e = rw e refl
no_stage (i ∷ js) c e = no_stage js ((c + 0) % 2 ^ 32) (omega arith)

sum_of : (p q : ℕ) → (p + q % 2 ^ 32) % 2 ^ 32 ≡ (p + q) % 2 ^ 32
sum_of p q = omega arith

-- Over the instructions of a block the composite leaves each analysis in the state that it reaches
-- alone, and its cost is the sum of their costs, on 32 bits.
pub process_block-pipeline_analysis :
    {I : Type 0}
    → (rs : List (Stage I)) (ss : SubStates rs) (js : List I)
    → process_block (pipeline_analysis rs) ss 0 js
      ≡ (states_alone rs ss js, costs_alone rs ss js % 2 ^ 32)
unfolding states_alone costs_alone
process_block-pipeline_analysis [] ss js = no_stage js 0 refl
process_block-pipeline_analysis (a ∷ rs) ss js =
    let before = process_block-pipeline_analysis rs ss.1 js in
    split_block a rs ss.0 ss.1 js 0 0 0 refl
    ∙ rw before (
        ap (λ (n : ℕ). (((process_block (alone a) ss.0 0 js).0, states_alone rs ss.1 js), n))
          (sum_of (process_block (alone a) ss.0 0 js).1 (costs_alone rs ss.1 js)))
