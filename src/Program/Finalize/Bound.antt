-- ===== src/Program/Finalize/Bound.antt =====
-- The bounds of the cycles of calls (`ProgramGraph::finalize` of lib/Graph/ProgramGraph.cpp). The
-- order in which the set of back edges is read is left out.
use llta.Prelude.{
  Bool, List, Option, [], false, if◌then◌else◌, none, not, some, true, ℕ, ◌&&◌, ◌==◌, ◌∷◌,
}
use llta.Program.{ProgramGraph, and_then, modify}
use llta.Program.Cycles.{CallAdj, call_adj, in_cycle, scc_of}
use llta.Program.Cycles.Search.{find_scc_back_edges}
use llta.Program.Fill.{ModuleGraph, ProgramCall}
use llta.Program.Finalize.{CallFacts, Wiring, mark_recursive, names, positive_bound}
use llta.Solver.Graph.{insert_id, mem_id}

-- `Entries`: what is called from outside the set, and the start function.
unfoldable pub entry_callees : List ℕ → ℕ → List ℕ → List ℕ → List ℕ
entry_callees scc caller [] found = found
entry_callees scc caller (c ∷ cs) found =
    entry_callees scc caller cs
      (if mem_id c scc && not (mem_id caller scc) then insert_id c found else found)

unfoldable pub entry_callers : List ℕ → (ℕ → List ℕ) → List ℕ → List ℕ → List ℕ
entry_callers scc next [] found = found
entry_callers scc next (f ∷ fs) found =
    entry_callers scc next fs (entry_callees scc f (next f) found)

unfoldable pub scc_entries : List ℕ → CallAdj → Option ℕ → List ℕ
scc_entries scc adj start =
    let found = entry_callers scc adj.callees adj.callers [] in
    elim start [ none ↦ found | some f ↦ if mem_id f scc then insert_id f found else found ]

-- The call sites of a back edge become back edges of the header's entry.
unfoldable pub mark_call_sites :
    ModuleGraph → ℕ → ℕ → ℕ → ℕ → List ProgramCall → ProgramGraph → Option ProgramGraph
mark_call_sites s from header entry bound [] g = some g
mark_call_sites s from header entry bound (c ∷ cs) g =
    and_then
      (if (c.call_to == header) && names from (s.function_of c.call_from)
        then modify g entry (mark_recursive bound c.call_from)
        else some g)
      (mark_call_sites s from header entry bound cs)

-- One back edge; the flag is `AllHeadersBounded`.
unfoldable pub bound_header :
    CallFacts → ModuleGraph → ℕ → ℕ → Wiring → Bool → Option (Wiring × Bool)
bound_header facts s from header w all =
    elim (positive_bound (facts.recursion_bound (facts.name_of header))) [
      | none ↦ some (w, false)
      | some bound ↦ elim (s.entry_of header) [
        | none ↦ some (w, false)
        | some entry ↦ elim (mark_call_sites s from header entry bound s.calls w.wired) [
          | none ↦ none
          | some g ↦ some (record w { wired = g }, all)
        ]
      ]
    ]

unfoldable pub bound_headers :
    CallFacts → ModuleGraph → List (ℕ × ℕ) → Wiring → Bool → Option (Wiring × Bool)
bound_headers facts s [] w all = some (w, all)
bound_headers facts s ((from, header) ∷ es) w all = elim (bound_header facts s from header w all) [
  | none ↦ none
  | some (x, more) ↦ bound_headers facts s es x more
]

abbrev pub insert_all : List ℕ → List ℕ → List ℕ
insert_all [] found = found
insert_all (f ∷ fs) found = insert_all fs (insert_id f found)

abbrev pub any_pair : List (ℕ × ℕ) → Bool
any_pair [] = false
any_pair (_ ∷ _) = true

unfoldable pub note_scc : List ℕ → Wiring → Bool → Wiring
note_scc scc w true = record w { bounded_mutual = insert_all scc w.bounded_mutual }
note_scc scc w false = record w { unbounded_mutual = insert_all scc w.unbounded_mutual }

unfoldable pub bound_scc : CallFacts → ModuleGraph → CallAdj → List ℕ → Wiring → Option Wiring
bound_scc facts s adj scc w =
    elim (find_scc_back_edges scc (scc_entries scc adj s.start_function) adj.callees) [
      | none ↦ none
      | some back ↦ elim (bound_headers facts s back w (any_pair back)) [
        | none ↦ none
        | some (x, all) ↦ some (note_scc scc x all)
      ]
    ]

-- One function of `InCycle`, with `Assigned`.
unfoldable pub bound_group :
    CallFacts → ModuleGraph → CallAdj → List ℕ → ℕ → List ℕ → Wiring → Option (List ℕ × Wiring)
bound_group facts s adj cyclic f assigned w =
    if mem_id f assigned
    then some (assigned, w)
    else elim (scc_of facts.function_count adj cyclic f) [
      | none ↦ none
      | some scc ↦ elim (bound_scc facts s adj scc w) [
        | none ↦ none
        | some x ↦ some (insert_all scc assigned, x)
      ]
    ]

unfoldable pub bound_groups :
    CallFacts → ModuleGraph → CallAdj → List ℕ → List ℕ → List ℕ → Wiring → Option Wiring
bound_groups facts s adj cyclic [] assigned w = some w
bound_groups facts s adj cyclic (f ∷ fs) assigned w =
    elim (bound_group facts s adj cyclic f assigned w) [
      | none ↦ none
      | some (more, x) ↦ bound_groups facts s adj cyclic fs more x
    ]

abbrev pub no_calls_yet : CallAdj
no_calls_yet = record { callers = []; callees = λ _. [] }

unfoldable pub bound_cycles : CallFacts → ModuleGraph → Wiring → Option Wiring
bound_cycles facts s w =
    let adj = call_adj s.function_of s.calls no_calls_yet in
    elim (in_cycle facts.function_count adj) [
      | none ↦ none
      | some cyclic ↦ bound_groups facts s adj cyclic cyclic [] w
    ]
