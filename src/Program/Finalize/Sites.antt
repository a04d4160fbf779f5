-- ===== src/Program/Finalize/Sites.antt =====
-- The call sites of the module (`ProgramGraph::finalize` of lib/Graph/ProgramGraph.cpp).
use llta.Loops.Back.{mem_pair}
use llta.Prelude.{
  All, Bool-cases, List, Option, Option-cases, [], ap, arith, inl, inr, refl, some, ℕ, ◌++◌, ◌∙◌,
  ◌∷◌, ◌≡◌,
}
use llta.Program.Built.{Built}
use llta.Program.Fill.{ModuleGraph, ProgramCall}
use llta.Program.Finalize.{
  CallFacts, Wiring, add_cost, charge_or_stage, charge_symbols, mark_recursive, mark_self, names,
  positive_bound, then_wire, wire_call, wire_calls, with_graph,
}
use llta.Program.Finalize.Staged.{
  Goes, Goes-same, Goes-trans, Quiet, Quiet-Goes, Quiet-refl, mem_pair-append, staged_call,
  staged_calls, staged_name, staged_symbols,
}
use llta.Program.Finalize.Wired.{
  IsCallLinked, IsLinked, IsLinked-held, Wires-refl, Wires-same, Wires-trans, call_pair, calls_held,
  calls_pair, link-Wires, modify-Wires, no_pair, symbols_held, wire_landing-Wires,
}
use llta.Program.Wire.{HasNode}
use llta.Solver.Graph.{insert_id}

module _ (facts : CallFacts) where
  pub charge_or_stage-Wires :
      (node name : ℕ) (w : Wiring)
      → Built w.wired
      → HasNode w.wired node
      → (x : Wiring) × (charge_or_stage facts node name w ≡ some x)
        × Goes no_pair (staged_name facts node name) w x
  unfolding charge_or_stage
  charge_or_stage-Wires node name w b has = elim (Option-cases (facts.external_cost name)) [
    | inl unknown ↦ (
      record w { pending = w.pending ++ (node, name) ∷ [] },
      rw (unknown, charge_or_stage) refl,
      record {
        goes_on = Wires-refl w.wired b;
        pending_now = λ u v. rw (unknown, staged_name) (mem_pair-append u v node name w.pending);
      },
    )
    | inr (cost, known) ↦
        let (h, made, a) = modify-Wires w.wired node (add_cost cost) b has (λ n. (refl, refl)) in
        (
          record w { wired = h },
          rw (known, charge_or_stage) (ap (with_graph w) made),
          record { goes_on = a; pending_now = λ u v. rw (known, staged_name) refl },
        )
  ]

  mark_self-Wires :
      (s : ModuleGraph) (call : ProgramCall) (entry : ℕ) (w : Wiring)
      → Built w.wired
      → HasNode w.wired entry
      → (x : Wiring) × (mark_self facts s call entry w ≡ some x) × Quiet w x
  unfolding mark_self
  mark_self-Wires s call entry w b has =
      elim (Bool-cases (names call.call_to (s.function_of call.call_from))) [
        | inr other ↦ (w, rw (other, mark_self) refl, Quiet-refl w b)
        | inl same ↦
            elim (Option-cases
              (positive_bound (facts.recursion_bound (facts.name_of call.call_to)))) [
                | inl unbounded ↦ (
                  record w { unbounded_self = insert_id call.call_to w.unbounded_self },
                  rw (same, unbounded, mark_self) refl,
                  Quiet-refl w b,
                )
                | inr (bound, known) ↦
                    let (h, made, a) =
                      modify-Wires w.wired entry (mark_recursive bound call.call_from) b has
                        (λ n. (refl, refl)) in
                    let w' : Wiring = record w {
                      bounded_self = insert_id call.call_to w.bounded_self;
                    } in
                    (
                      record w' { wired = h },
                      rw (same, known, mark_self) (ap (with_graph w') made),
                      (a, refl),
                    )
              ]
      ]

  pub wire_call-Wires :
      (s : ModuleGraph) (call : ProgramCall) (w : Wiring)
      → Built w.wired
      → IsLinked s w.wired
      → IsCallLinked w.wired call
      → (x : Wiring) × (wire_call facts s call w ≡ some x)
        × Goes (call_pair s call) (staged_call facts s call) w x
  unfolding wire_call
  wire_call-Wires s call w b l c = elim (Bool-cases (names call.call_to s.start_function)) [
    | inl start ↦ (
      w,
      rw (start, wire_call) refl,
      Goes-same no_pair (call_pair s call) no_pair (staged_call facts s call) w w
          (λ u v. rw start refl) (λ u v. rw start refl) (Quiet-Goes w w (Quiet-refl w b)),
    )
    | inr other ↦ elim (Option-cases (s.entry_of call.call_to)) [
      | inl no_entry ↦ elim (Bool-cases (facts.is_declaration call.call_to)) [
        | inl declared ↦
            let (x, made, a) =
              charge_or_stage-Wires call.call_from (facts.name_of call.call_to) w b c.0 in
            (
              x,
              rw (other, no_entry, declared, wire_call) made,
              Goes-same no_pair (call_pair s call)
                  (staged_name facts call.call_from (facts.name_of call.call_to))
                  (staged_call facts s call) w x (λ u v. rw (other, no_entry) refl)
                  (λ u v. rw (other, no_entry, declared) refl) a,
            )
        | inr defined ↦ (
          w,
          rw (other, no_entry, defined, wire_call) refl,
          Goes-same no_pair (call_pair s call) no_pair (staged_call facts s call) w w
              (λ u v. rw (other, no_entry) refl) (λ u v. rw (other, no_entry, defined) refl)
              (Quiet-Goes w w (Quiet-refl w b)),
        )
      ]
      | inr (entry, there) ↦
          let has_entry = l.entries_there call.call_to entry there in
          let (g, linked, a) = link-Wires w.wired call.call_from entry b c.0 has_entry in
          let backs = (IsLinked-held s w.wired g a.wired_nodes l).backs_there call.call_to in
          let (h, landed, d) =
            wire_landing-Wires call.lands (s.returns_of call.call_to) g a.wired_built
              (λ k at. a.wired_nodes k (c.1 k at)) backs in
          let (x, marked, e) =
            mark_self-Wires s call entry (record w { wired = h }) d.wired_built
              (d.wired_nodes entry (a.wired_nodes entry has_entry)) in
          (
            x,
            rw (other, there, linked, landed, wire_call) marked,
            record {
              goes_on =
                  Wires-same _ (call_pair s call) w.wired x.wired
                    (λ u v. rw (other, there) (ground arith))
                    (Wires-trans _ _ w.wired h x.wired (Wires-trans _ _ w.wired g h a d) e.0);
              pending_now = λ u v. ap (mem_pair u v) e.1 ∙ rw (other, there) refl;
            },
          )
    ]
  ]

  pub wire_calls-Wires :
      (s : ModuleGraph) (calls : List ProgramCall) (w : Wiring)
      → Built w.wired
      → IsLinked s w.wired
      → All (IsCallLinked w.wired) calls
      → (x : Wiring) × (wire_calls facts s calls w ≡ some x)
        × Goes (calls_pair s calls) (staged_calls facts s calls) w x
  unfolding wire_calls
  wire_calls-Wires s [] w b l all = (w, refl, Quiet-Goes w w (Quiet-refl w b))
  wire_calls-Wires s (c ∷ cs) w b l all =
      let (m, first, a) = wire_call-Wires s c w b l all.0 in
      let (x, rest, d) =
        wire_calls-Wires s cs m a.goes_on.wired_built
          (IsLinked-held s w.wired m.wired a.goes_on.wired_nodes l)
          (calls_held w.wired m.wired cs a.goes_on.wired_nodes all.1) in
      (
        x,
        ap (λ (o : Option Wiring). then_wire o (wire_calls facts s cs)) first ∙ rest,
        Goes-trans _ _ _ _ w m x a d,
      )

  pub charge_symbols-Wires :
      (xs : List (ℕ × ℕ)) (w : Wiring)
      → Built w.wired
      → All (λ x. HasNode w.wired x.0) xs
      → (x : Wiring) × (charge_symbols facts xs w ≡ some x)
        × Goes no_pair (staged_symbols facts xs) w x
  unfolding charge_symbols
  charge_symbols-Wires [] w b all = (w, refl, Quiet-Goes w w (Quiet-refl w b))
  charge_symbols-Wires ((node, name) ∷ xs) w b all =
      let (m, first, a) = charge_or_stage-Wires node name w b all.0 in
      let (x, rest, d) =
        charge_symbols-Wires xs m a.goes_on.wired_built
          (symbols_held w.wired m.wired xs a.goes_on.wired_nodes all.1) in
      (
        x,
        ap (λ (o : Option Wiring). then_wire o (charge_symbols facts xs)) first ∙ rest,
        Goes-trans _ _ _ _ w m x a d,
      )
