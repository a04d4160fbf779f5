-- ===== src/Program/Finalize/Bounded.antt =====
-- The bounds of the cycles of calls are found and add no edge (`ProgramGraph::finalize` of
-- lib/Graph/ProgramGraph.cpp).
use llta.Prelude.{
  ==_iff, All, Bool, Bool-cases, List, Option, Option-cases, [], ap, arith, false, if◌then◌else◌,
  inl, inr, none, not, refl, some, subst, true, ℕ, ◌&&◌, ◌<◌, ◌==◌, ◌∙◌, ◌∷◌, ◌≡◌,
}
use llta.Program.{ProgramGraph, and_then}
use llta.Program.Built.{Built}
use llta.Program.Cycles.{CallAdj, add_call, call_adj, in_cycle}
use llta.Program.Cycles.Cut.{find_scc_back_edges_lem}
use llta.Program.Cycles.Exact.{IsAdj, in_cycle_lem}
use llta.Program.Cycles.Groups.{AllBelow-mem, below_all, scc_of-members}
use llta.Program.Fill.{ModuleGraph, ProgramCall}
use llta.Program.Finalize.{CallFacts, Wiring, mark_recursive, names, positive_bound}
use llta.Program.Finalize.Bound.{
  any_pair, bound_cycles, bound_group, bound_groups, bound_header, bound_headers, bound_scc,
  entry_callees, entry_callers, insert_all, mark_call_sites, no_calls_yet, note_scc, scc_entries,
}
use llta.Program.Finalize.Staged.{Quiet, Quiet-refl, Quiet-trans}
use llta.Program.Finalize.Wired.{
  IsLinked, IsLinked-held, Wires, Wires-refl, Wires-trans, modify-Wires, no_pair,
}
use llta.Program.Prune.Fuel.{AllBelow}
use llta.Program.Wire.{HasNode}
use llta.Solver.Graph.{insert_id, mem_id}
use llta.Solver.Graph.Edges.{mem_id-insert_id}

entry_callees_within :
    (scc : List ℕ) (f : ℕ) (cs found : List ℕ)
    → ((v : ℕ) → mem_id v found ≡ true → mem_id v scc ≡ true)
    → (v : ℕ) → mem_id v (entry_callees scc f cs found) ≡ true
    → mem_id v scc ≡ true
unfolding entry_callees
entry_callees_within scc f [] found within v h = within v h
entry_callees_within scc f (c ∷ cs) found within v h =
    entry_callees_within scc f cs
      (if mem_id c scc && not (mem_id f scc) then insert_id c found else found)
      (λ v h.
        let at : (c == v) ≡ true → mem_id c scc ≡ mem_id v scc =
          λ e. ap (λ (j : ℕ). mem_id j scc) ((==_iff c v).0 e) in
        ground (arith, within v, mem_id-insert_id v c found, at, h))
      v h

entry_callers_within :
    (scc : List ℕ) (next : ℕ → List ℕ) (fs found : List ℕ)
    → ((v : ℕ) → mem_id v found ≡ true → mem_id v scc ≡ true)
    → (v : ℕ) → mem_id v (entry_callers scc next fs found) ≡ true
    → mem_id v scc ≡ true
unfolding entry_callers
entry_callers_within scc next [] found within v h = within v h
entry_callers_within scc next (f ∷ fs) found within v h =
    entry_callers_within scc next fs (entry_callees scc f (next f) found)
      (entry_callees_within scc f (next f) found within) v h

-- The entries of a set belong to it.
scc_entries_within :
    (scc : List ℕ) (adj : CallAdj) (start : Option ℕ) (v : ℕ)
    → mem_id v (scc_entries scc adj start) ≡ true
    → mem_id v scc ≡ true
unfolding scc_entries mem_id
scc_entries_within scc adj none v h =
    entry_callers_within scc adj.callees adj.callers [] (λ u m. absurd (cc)) v h
scc_entries_within scc adj (some f) v h =
    let found = entry_callers scc adj.callees adj.callers [] in
    let rest = entry_callers_within scc adj.callees adj.callers [] (λ u m. absurd (cc)) v in
    let at : (f == v) ≡ true → mem_id f scc ≡ mem_id v scc =
      λ e. ap (λ (j : ℕ). mem_id j scc) ((==_iff f v).0 e) in
    ground (arith, rest, mem_id-insert_id v f found, at, h)

AllBelow-insert_id : (n v : ℕ) (vs : List ℕ) → v < n → AllBelow n vs → AllBelow n (insert_id v vs)
AllBelow-insert_id n v vs low all = below_all n (insert_id v vs) (λ u m.
    elim (Bool-cases (v == u)) [
      | inl same ↦ subst (λ (j : ℕ). j < n) ((==_iff v u).0 same) low
      | inr apart ↦ AllBelow-mem n u vs all (ground (arith, mem_id-insert_id u v vs, m, apart))
    ])

-- The functions of the calls are below their number.
abbrev pub AreFunctions : CallFacts → ModuleGraph → Type 0
AreFunctions facts s =
    ((node f : ℕ) → s.function_of node ≡ some f → f < facts.function_count)
    × All (λ c. c.call_to < facts.function_count) s.calls

call_adj-IsAdj :
    (n : ℕ) (function_of : ℕ → Option ℕ) (cs : List ProgramCall) (adj : CallAdj)
    → ((node f : ℕ) → function_of node ≡ some f → f < n)
    → All (λ c. c.call_to < n) cs
    → IsAdj n adj
    → IsAdj n (call_adj function_of cs adj)
unfolding call_adj add_call mem_id
call_adj-IsAdj n function_of [] adj low all a = a
call_adj-IsAdj n function_of (c ∷ cs) adj low all a =
    call_adj-IsAdj n function_of cs (add_call function_of c adj) low all.1
      (elim (Option-cases (function_of c.call_from)) [
        | inl gone ↦ rw (gone, add_call) a
        | inr (f, there) ↦
            rw (there, add_call)
              (record {
                callers_below =
                    AllBelow-insert_id n f adj.callers (low c.call_from f there) a.callers_below;
                callees_below = λ g less. elim (Bool-cases (f == g)) [
                  | inl same ↦ rw same (
                      AllBelow-insert_id n c.call_to (adj.callees f) all.0
                        (a.callees_below f (low c.call_from f there)))
                  | inr apart ↦ rw apart (a.callees_below g less)
                ];
                callers_all = λ g d m. elim (Bool-cases (f == g)) [
                  | inl same ↦ ground (arith, mem_id-insert_id g f adj.callers, same)
                  | inr apart ↦
                      let old : mem_id d (adj.callees g) ≡ true = ground (arith, m, apart) in
                      ground (arith, mem_id-insert_id g f adj.callers, a.callers_all g d old)
                ];
              })
      ])

module _ (facts : CallFacts) (s : ModuleGraph) where
  mark_call_sites-Wires :
      (from header entry bound : ℕ) (cs : List ProgramCall) (g : ProgramGraph)
      → Built g
      → HasNode g entry
      → (h : ProgramGraph) × (mark_call_sites s from header entry bound cs g ≡ some h)
        × Wires no_pair g h
  unfolding mark_call_sites
  mark_call_sites-Wires from header entry bound [] g b has = (g, refl, Wires-refl g b)
  mark_call_sites-Wires from header entry bound (c ∷ cs) g b has =
      elim (Bool-cases ((c.call_to == header) && names from (s.function_of c.call_from))) [
        | inr other ↦
            let (h, made, a) = mark_call_sites-Wires from header entry bound cs g b has in
            (h, rw other made, a)
        | inl hit ↦
            let (m, first, a) =
              modify-Wires g entry (mark_recursive bound c.call_from) b has (λ n. (refl, refl)) in
            let (h, rest, d) =
              mark_call_sites-Wires from header entry bound cs m a.wired_built
                (a.wired_nodes entry has) in
            (
              h,
              rw hit (
                  ap
                    (λ (o : Option ProgramGraph).
                      and_then o (mark_call_sites s from header entry bound cs))
                    first
                  ∙ rest),
              Wires-trans no_pair no_pair g m h a d,
            )
      ]

  bound_header-Wires :
      (from header : ℕ) (w : Wiring) (all : Bool)
      → Built w.wired
      → IsLinked s w.wired
      → (x : Wiring) × (r : Bool) × (bound_header facts s from header w all ≡ some (x, r))
        × Quiet w x
  unfolding bound_header
  bound_header-Wires from header w all b l =
      elim (Option-cases (positive_bound (facts.recursion_bound (facts.name_of header)))) [
        | inl unbounded ↦ (w, false, rw (unbounded, bound_header) refl, Quiet-refl w b)
        | inr (bound, known) ↦ elim (Option-cases (s.entry_of header)) [
          | inl no_entry ↦ (w, false, rw (known, no_entry, bound_header) refl, Quiet-refl w b)
          | inr (entry, there) ↦
              let (g, marked, a) =
                mark_call_sites-Wires from header entry bound s.calls w.wired b
                  (l.entries_there header entry there) in
              (record w { wired = g }, all, rw (known, there, marked, bound_header) refl, (a, refl))
        ]
      ]

  bound_headers-Wires :
      (es : List (ℕ × ℕ)) (w : Wiring) (all : Bool)
      → Built w.wired
      → IsLinked s w.wired
      → (x : Wiring) × (r : Bool) × (bound_headers facts s es w all ≡ some (x, r)) × Quiet w x
  unfolding bound_headers
  bound_headers-Wires [] w all b l = (w, all, refl, Quiet-refl w b)
  bound_headers-Wires ((from, header) ∷ es) w all b l =
      let (m, more, first, a) = bound_header-Wires from header w all b l in
      let (x, r, rest, d) =
        bound_headers-Wires es m more a.0.wired_built
          (IsLinked-held s w.wired m.wired a.0.wired_nodes l) in
      (x, r, rw (first, bound_headers) rest, Quiet-trans w m x a d)

  note_scc-Quiet :
      (scc : List ℕ) (w : Wiring) (all : Bool) → Built w.wired → Quiet w (note_scc scc w all)
  unfolding note_scc
  note_scc-Quiet scc w true b = Quiet-refl w b
  note_scc-Quiet scc w false b = Quiet-refl w b

  -- A search or a marking that succeeds and adds no edge.
  abbrev Bounds : Wiring → Option Wiring → Type 0
  Bounds w o = (x : Wiring) × (o ≡ some x) × Quiet w x

  bound_scc-Wires :
      (adj : CallAdj) (scc : List ℕ) (w : Wiring)
      → Built w.wired
      → IsLinked s w.wired
      → Bounds w (bound_scc facts s adj scc w)
  unfolding bound_scc
  bound_scc-Wires adj scc w b l =
      let (back, found, _, _) =
        find_scc_back_edges_lem scc (scc_entries scc adj s.start_function) adj.callees
          (scc_entries_within scc adj s.start_function) in
      let (x, all, made, a) = bound_headers-Wires back w (any_pair back) b l in
      (
        note_scc scc x all,
        rw (found, made, bound_scc) refl,
        Quiet-trans w x (note_scc scc x all) a (note_scc-Quiet scc x all a.0.wired_built),
      )

  bound_groups-Wires :
      (adj : CallAdj) (cyclic fs assigned : List ℕ) (w : Wiring)
      → IsAdj facts.function_count adj
      → in_cycle facts.function_count adj ≡ some cyclic
      → ((v : ℕ) → mem_id v fs ≡ true → mem_id v cyclic ≡ true)
      → Built w.wired
      → IsLinked s w.wired
      → Bounds w (bound_groups facts s adj cyclic fs assigned w)
  unfolding bound_groups bound_group mem_id
  bound_groups-Wires adj cyclic [] assigned w a done within b l = (w, refl, Quiet-refl w b)
  bound_groups-Wires adj cyclic (f ∷ fs) assigned w a done within b l =
      let later : (v : ℕ) → mem_id v fs ≡ true → mem_id v cyclic ≡ true =
        λ v h. within v (ground (arith, h)) in
      elim (Bool-cases (mem_id f assigned)) [
        | inl old ↦
            let (x, made, d) = bound_groups-Wires adj cyclic fs assigned w a done later b l in
            (x, rw (old, bound_groups, bound_group) made, d)
        | inr new ↦
            let (scc, grouped, _) =
              scc_of-members facts.function_count adj a cyclic done f
                (within f (rw ((==_iff f f).1 refl) refl)) in
            let (m, bounded, c) = bound_scc-Wires adj scc w b l in
            let (x, made, d) =
              bound_groups-Wires adj cyclic fs (insert_all scc assigned) m a done later
                c.0.wired_built (IsLinked-held s w.wired m.wired c.0.wired_nodes l) in
            (x, rw (new, grouped, bounded, bound_groups, bound_group) made, Quiet-trans w m x c d)
      ]

  pub bound_cycles-Wires :
      (w : Wiring)
      → AreFunctions facts s
      → Built w.wired
      → IsLinked s w.wired
      → (x : Wiring) × (bound_cycles facts s w ≡ some x) × Quiet w x
  unfolding bound_cycles mem_id
  bound_cycles-Wires w are b l =
      let adj = call_adj s.function_of s.calls no_calls_yet in
      let a : IsAdj facts.function_count adj =
        call_adj-IsAdj facts.function_count s.function_of s.calls no_calls_yet are.0 are.1 (record {
          callers_below = tt;
          callees_below = λ f less. tt;
          callers_all = λ f c h. absurd (cc);
        }) in
      let (cyclic, done, _) = in_cycle_lem facts.function_count adj a in
      let (x, made, d) = bound_groups-Wires adj cyclic cyclic [] w a done (λ v h. h) b l in
      (x, rw (done, bound_cycles) made, d)
