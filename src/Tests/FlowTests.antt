-- ===== src/Tests/FlowTests.antt =====
-- The integer program at a concrete graph (lib/ILP/AbstractHighsSolver.cpp).
use llta.Ilp.{
  CallSite, Calls, Column, Satisfies, all_call_rows, all_node_rows, back_terms, call_rows,
  entry_row, gained, has_column, in_row, in_terms, is_back_to, loop_row, lost, match_row, node_rows,
  objective, out_row, out_terms, return_terms, wcet_rows,
}
use llta.Ilp.Bounds.{forward_sum}
use llta.Ilp.Count.{crossings, sum_from, visits}
use llta.Ilp.Feasible.{IsProper, IsRun}
use llta.Ilp.Flow.{IsSimple, tally}
use llta.Ilp.Sound.{path_cost, wcet-bounds-runs}
use llta.Prelude.{
  All, Bool, List, [], ap, arith, false, get_elem?, none, refl, some, subst, suc, true, zero, ℕ,
  ◌*◌, ◌+◌, ◌<◌, ◌==◌, ◌∷◌, ◌≡◌, ◌≤◌,
}
use llta.Program.{ProgramGraph}
use llta.Program.Finalize.Finish.{finish}
use llta.Solver.Adapter.{convert}
use llta.Solver.Adapter.Roundtrip.{HasEnds, IsRoundTrip, convert-copy_graph}
use llta.Solver.FromProgram.{copy_graph}
use llta.Solver.Graph.{AbstractStateGraph, IsConsistent, Node, mem_edge, mem_id}
use llta.Solver.Worklist.Queue.{IsDistinct}
use llta.Tests.SolverTests.{flags}

abbrev flow_node : Bool → Bool → Bool → ℕ → ℕ → Node ℕ
flow_node entry exit header bound cost = record {
  state = 0;
  block = none;
  is_entry = entry;
  is_exit = exit;
  is_loop_header = header;
  upper_loop_bound = bound;
  cost = cost;
}

-- Two call sites, 0 and 1, of one function: 1 is the landing of 0, and 3 is the landing of 1. The
-- function is the node 2, a loop header that goes to itself at most three times for each call.
abbrev loop_graph : AbstractStateGraph ℕ
loop_graph = record {
  nodes =
      flow_node true false false 0 2
      ∷ flow_node false false false 0 4
      ∷ flow_node false false true 3 10
      ∷ flow_node false true false 0 1
      ∷ [];
  adjacency = λ u. elim u [
    | zero ↦ record { to = 2; is_back_edge = false } ∷ []
    | suc v ↦ elim v [
      | zero ↦ record { to = 2; is_back_edge = false } ∷ []
      | suc w ↦ elim w [
        | zero ↦
            record { to = 1; is_back_edge = false }
            ∷ record { to = 2; is_back_edge = true }
            ∷ record { to = 3; is_back_edge = false }
            ∷ []
        | suc _ ↦ []
      ]
    ]
  ];
  preds = λ u. elim u [
    | zero ↦ []
    | suc v ↦ elim v [
      | zero ↦ 2 ∷ []
      | suc w ↦ elim w [ zero ↦ 0 ∷ 1 ∷ 2 ∷ [] | suc x ↦ elim x [ zero ↦ 2 ∷ [] | suc _ ↦ [] ] ]
    ]
  ];
}

abbrev first_call : CallSite
first_call = record { call_node = 0; callee = 0; return_node = 1 }

abbrev second_call : CallSite
second_call = record { call_node = 1; callee = 0; return_node = 3 }

abbrev two_calls : Calls
two_calls = record {
  call_sites = first_call ∷ second_call ∷ [];
  function_entries = λ f. elim f [ zero ↦ some 2 | suc _ ↦ none ];
  function_returns = λ f. elim f [ zero ↦ some (2 ∷ []) | suc _ ↦ none ];
}

abbrev both_calls : List ℕ
both_calls = 2 ∷ 2 ∷ 2 ∷ 1 ∷ 2 ∷ 2 ∷ 3 ∷ []

loop_graph-IsConsistent : IsConsistent loop_graph
unfolding mem_edge mem_id
loop_graph-IsConsistent zero zero = refl
loop_graph-IsConsistent zero (suc zero) = refl
loop_graph-IsConsistent zero (suc (suc zero)) = refl
loop_graph-IsConsistent zero (suc (suc (suc zero))) = refl
loop_graph-IsConsistent zero (suc (suc (suc (suc v)))) = ground arith
loop_graph-IsConsistent (suc zero) zero = refl
loop_graph-IsConsistent (suc zero) (suc zero) = refl
loop_graph-IsConsistent (suc zero) (suc (suc zero)) = refl
loop_graph-IsConsistent (suc zero) (suc (suc (suc zero))) = refl
loop_graph-IsConsistent (suc zero) (suc (suc (suc (suc v)))) = ground arith
loop_graph-IsConsistent (suc (suc zero)) zero = refl
loop_graph-IsConsistent (suc (suc zero)) (suc zero) = refl
loop_graph-IsConsistent (suc (suc zero)) (suc (suc zero)) = refl
loop_graph-IsConsistent (suc (suc zero)) (suc (suc (suc zero))) = refl
loop_graph-IsConsistent (suc (suc zero)) (suc (suc (suc (suc v)))) = ground arith
loop_graph-IsConsistent (suc (suc (suc u))) zero = refl
loop_graph-IsConsistent (suc (suc (suc u))) (suc zero) = ground arith
loop_graph-IsConsistent (suc (suc (suc u))) (suc (suc zero)) = ground arith
loop_graph-IsConsistent (suc (suc (suc u))) (suc (suc (suc zero))) = ground arith
loop_graph-IsConsistent (suc (suc (suc u))) (suc (suc (suc (suc v)))) = refl

loop_graph-IsDistinct : (u : ℕ) → IsDistinct (loop_graph.preds u)
unfolding mem_id
loop_graph-IsDistinct zero = tt
loop_graph-IsDistinct (suc zero) = (refl, tt)
loop_graph-IsDistinct (suc (suc zero)) = (refl, (refl, (refl, tt)))
loop_graph-IsDistinct (suc (suc (suc zero))) = (refl, tt)
loop_graph-IsDistinct (suc (suc (suc (suc u)))) = tt

loop_graph-IsSimple : (u : ℕ) → IsSimple (loop_graph.adjacency u)
unfolding mem_edge
loop_graph-IsSimple zero = (refl, tt)
loop_graph-IsSimple (suc zero) = (refl, tt)
loop_graph-IsSimple (suc (suc zero)) = (refl, (refl, (refl, tt)))
loop_graph-IsSimple (suc (suc (suc u))) = tt

loop_graph-IsProper : IsProper loop_graph
loop_graph-IsProper = record {
  consistent = loop_graph-IsConsistent;
  distinct = loop_graph-IsDistinct;
  simple = loop_graph-IsSimple;
}

-- A node that lacks a flag is not one that has it.
unlike : (f : Node ℕ → Bool) (m n : Node ℕ) → m ≡ n → f m ≡ false → ¬ (f n ≡ true)
unlike f m n e off on = let same = ap f e in absurd (cc)

both_calls_once :
    (u : ℕ) (n : Node ℕ)
    → get_elem? loop_graph.nodes u ≡ some n
    → n.is_entry ≡ true
    → visits u (0 ∷ both_calls) ≡ 1
both_calls_once zero n h entry = refl
both_calls_once (suc zero) n h entry =
    absurd (unlike (λ k. k.is_entry) (flow_node false false false 0 4) n (cc) refl entry)
both_calls_once (suc (suc zero)) n h entry =
    absurd (unlike (λ k. k.is_entry) (flow_node false false true 3 10) n (cc) refl entry)
both_calls_once (suc (suc (suc zero))) n h entry =
    absurd (unlike (λ k. k.is_entry) (flow_node false true false 0 1) n (cc) refl entry)
both_calls_once (suc (suc (suc (suc u)))) n h entry = absurd (cc)

both_calls_bounded :
    (u : ℕ) (n : Node ℕ)
    → get_elem? loop_graph.nodes u ≡ some n
    → n.is_loop_header ≡ true
    → 0 < n.upper_loop_bound
    → visits u (0 ∷ both_calls)
      ≤ n.upper_loop_bound
        * (tally (0 == u) + forward_sum loop_graph u (loop_graph.preds u) (0 ∷ both_calls))
unfolding is_back_to
both_calls_bounded zero n h header pos =
    absurd (unlike (λ k. k.is_loop_header) (flow_node true false false 0 2) n (cc) refl header)
both_calls_bounded (suc zero) n h header pos =
    absurd (unlike (λ k. k.is_loop_header) (flow_node false false false 0 4) n (cc) refl header)
both_calls_bounded (suc (suc zero)) n h header pos =
    let e : flow_node false false true 3 10 ≡ n = cc in
    let f : 3 ≡ n.upper_loop_bound = ap (λ (k : Node ℕ). k.upper_loop_bound) e in omega arith
both_calls_bounded (suc (suc (suc zero))) n h header pos =
    absurd (unlike (λ k. k.is_loop_header) (flow_node false true false 0 1) n (cc) refl header)
both_calls_bounded (suc (suc (suc (suc u)))) n h header pos = absurd (cc)

-- A call site is left for its callee as often as the callee returns to its landing.
abbrev IsMatched : CallSite → Type 0
IsMatched site =
    (entry : ℕ) (returns : List ℕ)
    → two_calls.function_entries site.callee ≡ some entry
    → two_calls.function_returns site.callee ≡ some returns
    → crossings site.call_node entry (0 ∷ both_calls)
      ≡ sum_from site.return_node returns (0 ∷ both_calls)

first_call-IsMatched : IsMatched first_call
first_call-IsMatched entry returns there back =
    let e : 2 ≡ entry = cc in let r : 2 ∷ [] ≡ returns = cc in rw (← e, ← r) refl

second_call-IsMatched : IsMatched second_call
second_call-IsMatched entry returns there back =
    let e : 2 ≡ entry = cc in let r : 2 ∷ [] ≡ returns = cc in rw (← e, ← r) refl

both_calls_matched :
    (k : ℕ) (site : CallSite) (entry : ℕ) (returns : List ℕ)
    → get_elem? two_calls.call_sites k ≡ some site
    → two_calls.function_entries site.callee ≡ some entry
    → two_calls.function_returns site.callee ≡ some returns
    → crossings site.call_node entry (0 ∷ both_calls)
      ≡ sum_from site.return_node returns (0 ∷ both_calls)
both_calls_matched zero site entry returns listed =
    let e : first_call ≡ site = cc in subst IsMatched e first_call-IsMatched entry returns
both_calls_matched (suc zero) site entry returns listed =
    let e : second_call ≡ site = cc in subst IsMatched e second_call-IsMatched entry returns
both_calls_matched (suc (suc k)) site entry returns listed = absurd (cc)

both_calls-IsRun : IsRun loop_graph two_calls 0 both_calls
unfolding mem_edge
both_calls-IsRun = record {
  walk = (
    omega arith,
    refl,
    (
      omega arith,
      refl,
      (
        omega arith,
        refl,
        (
          omega arith,
          refl,
          (omega arith, refl, (omega arith, refl, (omega arith, refl, omega arith))),
        ),
      ),
    ),
  );
  begins = λ n h. let e : flow_node true false false 0 2 ≡ n = cc in rw (← e) refl;
  once = both_calls_once;
  ends = λ n h. let e : flow_node false true false 0 1 ≡ n = cc in rw (← e) refl;
  bounded = both_calls_bounded;
  matched = both_calls_matched;
}

-- The function runs three times for each call, and its rows let no third call in.
loop_graph_optimal :
    (x : Column → ℕ)
    → All (Satisfies x) (wcet_rows loop_graph two_calls)
    → objective x 0 loop_graph.nodes ≤ 67
unfolding wcet_rows all_node_rows node_rows all_call_rows in_row out_row entry_row loop_row in_terms
    out_terms back_terms has_column is_back_to mem_edge gained lost objective call_rows match_row
    return_terms
loop_graph_optimal x h =
    let (
      start,
      (one, (call_in, (call_out, (come, (leave, (loop, (finish, (first, (second, _))))))))),
    ) =
      h in
    omega (
      arith, start.0, start.1, one.0, one.1, call_in.0, call_in.1, call_out.0, call_out.1, come.0,
      come.1, leave.0, leave.1, loop.0, finish.0, finish.1, first.0, first.1, second.0, second.1,
    )

wcet-bounds-runs_example : path_cost loop_graph (0 ∷ both_calls) ≤ 67
wcet-bounds-runs_example =
    wcet-bounds-runs loop_graph two_calls 67 loop_graph-IsProper loop_graph_optimal 0 both_calls
      both_calls-IsRun

loop_graph-HasEnds : HasEnds loop_graph
loop_graph-HasEnds zero less = (omega arith, tt)
loop_graph-HasEnds (suc zero) less = (omega arith, tt)
loop_graph-HasEnds (suc (suc zero)) less = (omega arith, (omega arith, (omega arith, tt)))
loop_graph-HasEnds (suc (suc (suc u))) less = tt

convert-copy_graph_example :
    (g : ProgramGraph) × (convert loop_graph ≡ some g)
    × IsRoundTrip loop_graph (copy_graph flags g).index (copy_graph flags g).graph
convert-copy_graph_example = convert-copy_graph flags loop_graph loop_graph-HasEnds
