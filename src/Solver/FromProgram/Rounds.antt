-- ===== src/Solver/FromProgram/Rounds.antt =====
-- The rounds over a program graph: no state changes (`run(PG)` of lib/Analysis/WorklistSolver.cpp).
use llta.Prelude.{
  Bool, Bool-cases, List, List-cases, Option, Option-cases, [], ap, arith, get_elem?, if◌then◌else◌,
  inl, inr, length, length-append, none, refl, some, subst, suc, sym, true, zero, ℕ, ◌+◌, ◌∙◌, ◌∷◌,
  ◌≡◌, ◌≤◌,
}
use llta.Solver.Analysable.{AbstractAnalysable}
use llta.Solver.FromProgram.{queue_nodes, solve_summaries, visit_summary}
use llta.Solver.Graph.{AbstractStateGraph, Node, get_node}
use llta.Solver.Worklist.{WorklistSolver, add_to_worklist, in_state, join_preds, take_from_worklist}
use llta.Solver.Worklist.Queue.{popped}
use llta.Solver.Worklist.Transfer.{join_preds-cons, merge_state, state_of}

-- Every node is in the initial state and has no block.
abbrev pub IsCold : (analysis : AbstractAnalysable) → AbstractStateGraph analysis.State → Type 0
IsCold analysis g =
    (a : ℕ) (k : Node analysis.State)
    → get_elem? g.nodes a ≡ some k
    → (k.state ≡ analysis.initial_state) × (k.block ≡ none)

module _ (analysis : AbstractAnalysable)
    (idle : (analysis.join analysis.initial_state analysis.initial_state).0
      ≡ analysis.initial_state)
    (same : analysis.equals analysis.initial_state analysis.initial_state ≡ true) where
  open analysis use {State, initial_state, equals, join}

  IsIdle : Option State → Type 0
  IsIdle none = Unit
  IsIdle (some s) = s ≡ initial_state

  merge-IsIdle :
      (acc o : Option State) → IsIdle acc → IsIdle o → IsIdle (merge_state analysis acc o)
  unfolding IsIdle
  merge-IsIdle none none h k = tt
  merge-IsIdle (some a) none h k = h
  merge-IsIdle none (some s) h k = k
  merge-IsIdle (some a) (some s) h k = rw (h, k) idle

  state_of-IsIdle :
      (g : AbstractStateGraph State) (p : ℕ) → IsCold analysis g → IsIdle (state_of analysis g p)
  unfolding IsIdle
  state_of-IsIdle g p c = elim (Option-cases (get_elem? g.nodes p)) [
    | inl gone ↦
        let e : state_of analysis g p ≡ none = rw (gone, state_of) refl in subst IsIdle (sym e) tt
    | inr (n, there) ↦
        let e : state_of analysis g p ≡ some n.state = rw (there, state_of) refl in
        subst IsIdle (sym e) (c p n there).0
  ]

  join_preds-IsIdle :
      (g : AbstractStateGraph State) (acc : Option State) (ps : List ℕ)
      → IsCold analysis g
      → IsIdle acc
      → IsIdle (join_preds analysis g acc ps)
  join_preds-IsIdle g acc [] c h = unfold join_preds in h
  join_preds-IsIdle g acc (p ∷ ps) c h = rw (join_preds-cons analysis g acc p ps) (
      join_preds-IsIdle g (merge_state analysis acc (state_of analysis g p)) ps c
        (merge-IsIdle acc (state_of analysis g p) h (state_of-IsIdle g p c)))

  from_idle :
      (o : Option State) → IsIdle o → (elim o [ none ↦ initial_state | some s ↦ s ]) ≡ initial_state
  unfolding IsIdle
  from_idle none h = refl
  from_idle (some s) h = h

  in_state-cold :
      (g : AbstractStateGraph State) (id : ℕ)
      → IsCold analysis g
      → in_state analysis g id ≡ initial_state
  unfolding in_state
  in_state-cold g id c =
      from_idle (join_preds analysis g none (g.preds id))
        (unfold IsIdle in (join_preds-IsIdle g none (g.preds id) c tt))

  visit_summary-cold :
      (s : WorklistSolver State) (id : ℕ)
      → IsCold analysis s.graph
      → visit_summary analysis s id ≡ s
  unfolding visit_summary get_node
  visit_summary-cold s id c = elim (Option-cases (get_elem? s.graph.nodes id)) [
    | inl gone ↦ rw (gone, visit_summary) refl
    | inr (n, there) ↦
        let e : equals n.state (in_state analysis s.graph id) ≡ true =
          rw ((c id n there).0, in_state-cold s.graph id c) same in
        rw (there, visit_summary) (rw e refl)
  ]

  -- One round for each entry of the worklist.
  pub solve_summaries-cold :
      (fuel : ℕ) (s : WorklistSolver State)
      → IsCold analysis s.graph
      → length s.worklist ≤ fuel
      → (t : WorklistSolver State) × (solve_summaries analysis fuel s ≡ some t)
        × (t.graph ≡ s.graph)
        × (t.worklist ≡ [])
  unfolding solve_summaries take_from_worklist
  solve_summaries-cold zero s c h = elim (List-cases s.worklist) [
    | inl done ↦ (s, rw (done, take_from_worklist) refl, refl, done)
    | inr (id, rest, e) ↦ absurd (omega (arith, ap length e))
  ]
  solve_summaries-cold (suc fuel) s c h = elim (List-cases s.worklist) [
    | inl done ↦ (s, rw (done, take_from_worklist) refl, refl, done)
    | inr (id, rest, e) ↦
        let s' : WorklistSolver State = popped s id rest in
        let (t, solved, kept, empty) =
          solve_summaries-cold fuel s' c (omega (arith, ap length e)) in
        (
          t,
          rw (e, take_from_worklist)
              (ap (solve_summaries analysis fuel) (visit_summary-cold s' id c) ∙ solved),
          kept,
          empty,
        )
  ]

  queue_one :
      (test : Node State → Bool) (id : ℕ) (n : Node State) (s : WorklistSolver State)
      → (length (if test n then add_to_worklist s id else s).worklist ≤ suc (length s.worklist))
        × ((if test n then add_to_worklist s id else s).graph ≡ s.graph)
  unfolding add_to_worklist
  queue_one test id n s = elim (Bool-cases (test n)) [
    | inr left ↦ rw left (omega arith, refl)
    | inl taken ↦ elim (Bool-cases (s.in_worklist id)) [
      | inl waits ↦ rw (taken, waits) (omega arith, refl)
      | inr new ↦ rw (taken, new) (omega (arith, length-append s.worklist (id ∷ [])), refl)
    ]
  ]

  -- What is queued: one entry for each node at most.
  pub length-queue_nodes :
      (test : Node State → Bool) (id : ℕ) (ns : List (Node State)) (s : WorklistSolver State)
      → (length (queue_nodes analysis test id ns s).worklist ≤ length s.worklist + length ns)
        × ((queue_nodes analysis test id ns s).graph ≡ s.graph)
  unfolding queue_nodes add_to_worklist
  length-queue_nodes test id [] s = (omega arith, refl)
  length-queue_nodes test id (n ∷ ns) s =
      let s' : WorklistSolver State = if test n then add_to_worklist s id else s in
      let rest = length-queue_nodes test (suc id) ns s' in
      let one = queue_one test id n s in (omega (arith, rest.0, one.0), rest.1 ∙ one.1)
