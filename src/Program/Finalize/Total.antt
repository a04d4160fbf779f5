-- ===== src/Program/Finalize/Total.antt =====
-- What `ProgramGraph::finalize` leaves (lib/Graph/ProgramGraph.cpp).
use llta.Loops.Back.{mem_pair}
use llta.Prelude.{
  ==_iff, All, Bool-cases, List, Option, [], ap, arith, if◌then◌else◌, inl, inr, none, refl, some,
  subst, sym, true, ℕ, ◌&&◌, ◌==◌, ◌||◌, ◌↔◌, ◌∙◌, ◌∷◌, ◌≡◌, ◌⊎◌,
}
use llta.Program.{ProgramGraph, has_edge}
use llta.Program.Built.{Built, Built-IsSoundGraph, IsSoundGraph-IsNumbered}
use llta.Program.Detach.Ids.{there_is, there_is-HasNode}
use llta.Program.Detach.Next.{prune_unreachable-next}
use llta.Program.Detach.Reached.{IsGiven, IsReached, prune_unreachable, prune_unreachable_lem}
use llta.Program.Fill.{ModuleGraph}
use llta.Program.Finalize.{CallFacts, Wiring, charge_symbols, then_wire}
use llta.Program.Finalize.Bound.{bound_cycles}
use llta.Program.Finalize.Bounded.{AreFunctions, bound_cycles-Wires}
use llta.Program.Finalize.Finish.{Finished, add_unsound, finalize, finish, report, unwired}
use llta.Program.Finalize.Sites.{charge_symbols-Wires, wire_calls-Wires}
use llta.Program.Finalize.Staged.{Goes-trans, Quiet-Goes, staged_calls, staged_symbols}
use llta.Program.Finalize.Wired.{IsCallLinked, IsLinked, IsLinked-held, calls_pair, symbols_held}
use llta.Program.Wire.{HasNode}
use llta.Solver.Graph.{insert_id, mem_id}
use llta.Solver.Graph.Edges.{mem_id-insert_id}

add_unsound_lem :
    (g : ProgramGraph) (xs : List (ℕ × ℕ)) (found : List ℕ) (name : ℕ)
    → (mem_id name (add_unsound g xs found) ≡ true) ↔ (
        (mem_id name found ≡ true) ⊎ ((node : ℕ) × (mem_pair node name xs ≡ true) × HasNode g node))
unfolding add_unsound mem_pair
add_unsound_lem g [] found name =
    (λ h. inl h, λ h. elim h [ inl m ↦ m | inr e ↦ absurd (let m = e.1 in cc) ])
add_unsound_lem g ((at, called) ∷ xs) found name =
    let more : List ℕ = if there_is g at then insert_id called found else found in
    let rest = add_unsound_lem g xs more name in
    let grown : mem_id name more ≡ (there_is g at && (called == name) || mem_id name found) =
      ground (arith, mem_id-insert_id name called found) in
    (
      λ h. elim (rest.0 h) [
        | inr e ↦ inr (e.0, ground (arith, e.1), e.2)
        | inl m ↦ elim (Bool-cases (mem_id name found)) [
          | inl old ↦ inl old
          | inr new ↦
              let one : (called == name) ≡ true = ground (arith, grown, m, new) in
              let two : there_is g at ≡ true = ground (arith, grown, m, new) in
              let here = (==_iff at at).1 refl in
              inr (at, ground (arith, one, here), (there_is-HasNode g at).0 two)
        ]
      ],
      λ h. elim h [
        | inl old ↦ rest.1 (inl (ground (arith, grown, old)))
        | inr e ↦ elim (Bool-cases (mem_pair e.0 name xs)) [
          | inl later ↦ rest.1 (inr (e.0, later, e.2))
          | inr new ↦
              let one : (called == name) ≡ true = ground (arith, e.1, new) in
              let two : (at == e.0) ≡ true = ground (arith, e.1, new) in
              let has : HasNode g at = subst (HasNode g) (sym ((==_iff at e.0).0 two)) e.2 in
              let there = (there_is-HasNode g at).1 has in
              rest.1 (inl (ground (arith, grown, one, there)))
        ]
      ],
    )

-- The graph with the edges of the calls, and what is left of it.
pub record IsFinished (facts : CallFacts) (s : ModuleGraph) (entry : ℕ) (g : ProgramGraph)
    (t : Finished) : Type 0 where
  pub call_edges : (u v : ℕ) → has_edge g u v ≡ (calls_pair s s.calls u v || has_edge s.graph u v)
  pub left_reached : IsReached g t.program entry
  pub left_given : IsGiven t.program

-- A name is noted exactly when a call that is staged for it is on a node that is left.
abbrev pub IsNoted : CallFacts → ModuleGraph → Finished → Type 0
IsNoted facts s t =
    (name : ℕ)
    → (mem_id name t.unsound_names ≡ true) ↔ (
        (node : ℕ) × ((staged_symbols facts s.symbol_calls node name
            || staged_calls facts s s.calls node name)
          ≡ true)
        × HasNode t.program node)

-- What the functions that were added leave for this step.
pub record IsReady (facts : CallFacts) (s : ModuleGraph) (entry : ℕ) : Type 0 where
  pub ready_built : Built s.graph
  pub ready_links : IsLinked s s.graph
  pub ready_calls : All (IsCallLinked s.graph) s.calls
  pub ready_symbols : All (λ x. HasNode s.graph x.0) s.symbol_calls
  pub ready_functions : AreFunctions facts s
  pub ready_entry : s.entry_node ≡ some entry
  pub ready_node : HasNode s.graph entry

finish_step :
    (facts : CallFacts) (s : ModuleGraph) (entry : ℕ) (w : Wiring) (g : ProgramGraph)
    → s.entry_node ≡ some entry
    → prune_unreachable w.wired.next_node_id w.wired entry ≡ some g
    → finish facts s w ≡ some (report facts s w g)
unfolding finish
finish_step facts s entry w g at pruned =
    ap
      (λ (o : Option ℕ). elim o [
        | none ↦ some (report facts s w w.wired)
        | some e ↦ elim (prune_unreachable w.wired.next_node_id w.wired e) [
          | none ↦ none
          | some k ↦ some (report facts s w k)
        ]
      ])
      at
    ∙ ap (λ (o : Option ProgramGraph). elim o [ none ↦ none | some k ↦ some (report facts s w k) ])
        pruned

-- The identifiers of the nodes that are left were given out.
prune-IsGiven :
    (g : ProgramGraph) (entry : ℕ) (h : ProgramGraph)
    → IsGiven g
    → prune_unreachable g.next_node_id g entry ≡ some h
    → IsReached g h entry
    → IsGiven h
prune-IsGiven g entry h given pruned left id has =
    rw (prune_unreachable-next g h entry g.next_node_id pruned)
      (given id ((left.reached_nodes id).0 has).1)

unsound_of :
    (facts : CallFacts) (s : ModuleGraph) (w : Wiring) (g : ProgramGraph) (name : ℕ)
    → ((node name : ℕ)
        → mem_pair node name w.pending ≡ (
            staged_symbols facts s.symbol_calls node name
            || staged_calls facts s s.calls node name))
    → (mem_id name (add_unsound g w.pending []) ≡ true) ↔ (
        (node : ℕ) × ((staged_symbols facts s.symbol_calls node name
            || staged_calls facts s s.calls node name)
          ≡ true)
        × HasNode g node)
unfolding mem_id mem_pair
unsound_of facts s w g name pending =
    let unsound = add_unsound_lem g w.pending [] name in
    (
      λ h. elim (unsound.0 h) [
        | inl none_yet ↦ absurd (cc)
        | inr e ↦ (e.0, ground (arith, pending e.0 name, e.1), e.2)
      ],
      λ e. unsound.1 (inr (e.0, ground (arith, pending e.0 name, e.1), e.2)),
    )

finalize-IsFinished :
    (facts : CallFacts) (s : ModuleGraph) (entry : ℕ)
    → IsReady facts s entry
    → (t : Finished) × (finalize facts s ≡ some t)
      × ((g : ProgramGraph) × IsFinished facts s entry g t)
      × IsNoted facts s t
unfolding finalize finish report mem_id mem_pair
finalize-IsFinished facts s entry r =
    let (w, called, a) =
      wire_calls-Wires facts s s.calls (unwired s) r.ready_built r.ready_links r.ready_calls in
    let (x, bounded, q) =
      bound_cycles-Wires facts s w r.ready_functions a.goes_on.wired_built
        (IsLinked-held s s.graph w.wired a.goes_on.wired_nodes r.ready_links) in
    let kept : (id : ℕ) → HasNode s.graph id → HasNode x.wired id =
      λ id has. q.0.wired_nodes id (a.goes_on.wired_nodes id has) in
    let (y, charged, c) =
      charge_symbols-Wires facts s.symbol_calls x q.0.wired_built
        (symbols_held s.graph x.wired s.symbol_calls kept r.ready_symbols) in
    let all =
      Goes-trans _ _ _ _ (unwired s) x y (Goes-trans _ _ _ _ (unwired s) w x a (Quiet-Goes w x q))
        c in
    let sound = Built-IsSoundGraph all.goes_on.wired_built in
    let has = all.goes_on.wired_nodes entry r.ready_node in
    let (g, pruned, left) =
      prune_unreachable_lem y.wired entry sound.two_lists (IsSoundGraph-IsNumbered y.wired sound)
        (λ id h. (sound.numbers id).0 h) ((sound.numbers entry).0 has) in
    let wired =
      ap
        (λ (o : Option Wiring).
          then_wire (then_wire o (bound_cycles facts s)) (charge_symbols facts s.symbol_calls))
        called
      ∙ ap (λ (o : Option Wiring). then_wire o (charge_symbols facts s.symbol_calls)) bounded
      ∙ charged in
    (
      report facts s y g,
      ap (λ (o : Option Wiring). elim o [ none ↦ none | some v ↦ finish facts s v ]) wired
          ∙ finish_step facts s entry y g r.ready_entry pruned,
      (
        y.wired,
        record {
          call_edges = λ u v. all.goes_on.wired_edges u v ∙ ground arith;
          left_reached = left;
          left_given =
              λ id h. prune-IsGiven y.wired entry g (λ j k. (sound.numbers j).0 k) pruned left id h;
        },
      ),
      λ name.
          unsound_of facts s y g name
            (λ node called_as. all.pending_now node called_as ∙ ground arith),
    )

-- On a graph that was built, with an entry node, whose call sites, entries and returns are nodes and
-- whose functions are below their number, `finalize` ends without a failure. It adds the edge of each
-- call to a function with an entry, other than the start function, and the edges of its returns to the
-- landing. It leaves the nodes and the edges that the entry reaches then, and no other.
pub finalize_lem :
    (facts : CallFacts) (s : ModuleGraph) (entry : ℕ)
    → IsReady facts s entry
    → (t : Finished) × (finalize facts s ≡ some t)
      × ((g : ProgramGraph) × IsFinished facts s entry g t)
finalize_lem facts s entry r =
    let (t, made, finished, _) = finalize-IsFinished facts s entry r in (t, made, finished)

-- When `finalize` has ended, a name makes the bound unsound exactly when a call to it is on a node that
-- is left, and the call is of a symbol, or of a function that has no entry and no body and is not the
-- start function, and the target has no cost for the name.
pub finalize-unsound :
    (facts : CallFacts) (s : ModuleGraph) (entry : ℕ) (t : Finished)
    → IsReady facts s entry
    → finalize facts s ≡ some t
    → IsNoted facts s t
finalize-unsound facts s entry t r e =
    let (u, made, _, noted) = finalize-IsFinished facts s entry r in
    let at : some u ≡ some t = sym made ∙ e in
    let same : u ≡ t = cc in subst (IsNoted facts s) same noted
