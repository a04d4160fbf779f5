-- ===== src/Program/Cycles.antt =====
-- The functions that call each other in a cycle (`ProgramGraph::finalize` and `findSCCBackEdges` of
-- lib/Graph/ProgramGraph.cpp). Functions are numbers below a bound, and sets of them sorted lists.
pub mod Reaches
pub mod Exact
pub mod Groups
pub mod Search
pub mod Colors
pub mod Cut
use llta.Prelude.{
  Bool, List, Option, [], false, if◌then◌else◌, none, not, some, suc, true, zero, ℕ, ◌==◌, ◌∷◌,
}
use llta.Program.Fill.{ProgramCall}
use llta.Program.Prune.{push_new}
use llta.Solver.Graph.{insert_id, put}

-- `CallAdj`: the callers, and the callees of each.
pub record CallAdj : Type 0 where
  pub callers : List ℕ
  pub callees : ℕ → List ℕ

unfoldable pub add_call : (ℕ → Option ℕ) → ProgramCall → CallAdj → CallAdj
add_call function_of call adj = elim (function_of call.call_from) [
  | none ↦ adj
  | some caller ↦ record {
    callers = insert_id caller adj.callers;
    callees = put adj.callees caller (insert_id call.call_to (adj.callees caller));
  }
]

unfoldable pub call_adj : (ℕ → Option ℕ) → List ProgramCall → CallAdj → CallAdj
call_adj function_of [] adj = adj
call_adj function_of (c ∷ cs) adj = call_adj function_of cs (add_call function_of c adj)

-- The loop of `reaches`; none when the fuel runs out.
unfoldable pub reaches_from : ℕ → (ℕ → List ℕ) → ℕ → (ℕ → Bool) → List ℕ → Option Bool
reaches_from fuel next dst seen [] = some false
reaches_from zero next dst seen (f ∷ work) = none
reaches_from (suc fuel) next dst seen (f ∷ work) =
    let after = push_new seen work (next f) in
    let rest = reaches_from fuel next dst after.0 after.1 in if f == dst then some true else rest

-- `reaches(Src, Dst)`, with a round for each function and one more.
unfoldable pub call_reaches : ℕ → (ℕ → List ℕ) → ℕ → ℕ → Option Bool
call_reaches size next src dst = reaches_from (suc size) next dst (λ _. false) (src ∷ [])

-- `A && B` where the second test may run out of fuel.
abbrev pub and_also : Bool → Option Bool → Option Bool
and_also true test = test
and_also false test = some false

-- `Caller != Callee && reaches(Callee, Caller)`.
unfoldable pub calls_back : ℕ → (ℕ → List ℕ) → ℕ → ℕ → Option Bool
calls_back size next caller callee =
    and_also (not (caller == callee)) (call_reaches size next callee caller)

unfoldable pub cycle_callees : ℕ → (ℕ → List ℕ) → ℕ → List ℕ → List ℕ → Option (List ℕ)
cycle_callees size next caller [] found = some found
cycle_callees size next caller (c ∷ cs) found = elim (calls_back size next caller c) [
  | none ↦ none
  | some back ↦
      cycle_callees size next caller cs
        (if back then insert_id c (insert_id caller found) else found)
]

unfoldable pub cycle_callers : ℕ → (ℕ → List ℕ) → List ℕ → List ℕ → Option (List ℕ)
cycle_callers size next [] found = some found
cycle_callers size next (f ∷ fs) found = elim (cycle_callees size next f (next f) found) [
  | none ↦ none
  | some more ↦ cycle_callers size next fs more
]

-- `InCycle`.
unfoldable pub in_cycle : ℕ → CallAdj → Option (List ℕ)
in_cycle size adj = cycle_callers size adj.callees adj.callers []

-- `G != F && reaches(F, G) && reaches(G, F)`.
unfoldable pub reach_both : ℕ → (ℕ → List ℕ) → ℕ → ℕ → Option Bool
reach_both size next f g = elim (and_also (not (g == f)) (call_reaches size next f g)) [
  | none ↦ none
  | some there ↦ and_also there (call_reaches size next g f)
]

-- `SCC` of a function, among the functions of `InCycle`.
unfoldable pub scc_among : ℕ → (ℕ → List ℕ) → ℕ → List ℕ → List ℕ → Option (List ℕ)
scc_among size next f [] found = some found
scc_among size next f (g ∷ gs) found = elim (reach_both size next f g) [
  | none ↦ none
  | some both ↦ scc_among size next f gs (if both then insert_id g found else found)
]

unfoldable pub scc_of : ℕ → CallAdj → List ℕ → ℕ → Option (List ℕ)
scc_of size adj cyclic f = scc_among size adj.callees f cyclic (f ∷ [])
