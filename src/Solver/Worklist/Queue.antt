-- ===== src/Solver/Worklist/Queue.antt =====
-- The queue of the solver and its set of members (`addToWorklist` and `takeFromWorklist` of
-- lib/Analysis/WorklistSolver.cpp).
use llta.Prelude.{
  ==_iff, Bool-cases, List, List-cases, [], ap, arith, false, if◌then◌else◌, inl, inr, none, refl,
  some, sym, true, ℕ, ◌++◌, ◌==◌, ◌||◌, ◌∙◌, ◌∷◌, ◌≡◌, ◌⊎◌,
}
use llta.Solver.Graph.{Edge, mem_edge, mem_id, put}
use llta.Solver.Worklist.{WorklistSolver, add_targets, add_to_worklist, take_from_worklist}

-- No identifier waits twice.
abbrev pub IsDistinct : List ℕ → Type 0
IsDistinct [] = Unit
IsDistinct (n ∷ ns) = (mem_id n ns ≡ false) × IsDistinct ns

mem_id-append :
    (v n : ℕ) (ns : List ℕ) → mem_id v (ns ++ n ∷ []) ≡ (if n == v then true else mem_id v ns)
unfolding mem_id
mem_id-append v n [] = refl
mem_id-append v n (m ∷ ns) = ground (arith, mem_id-append v n ns)

append-IsDistinct :
    (n : ℕ) (ns : List ℕ) → mem_id n ns ≡ false → IsDistinct ns → IsDistinct (ns ++ n ∷ [])
unfolding mem_id
append-IsDistinct n [] h d = ground arith
append-IsDistinct n (m ∷ ns) h d = ground (arith, mem_id-append m n ns, append-IsDistinct n ns)

-- The set holds exactly the identifiers that wait, and none waits twice.
pub record IsQueue {State : Type 0} (s : WorklistSolver State) : Type 0 where
  pub members : (id : ℕ) → s.in_worklist id ≡ mem_id id s.worklist
  pub distinct : IsDistinct s.worklist

module _ {State : Type 0} where
  pub add_to_worklist-IsQueue :
      (s : WorklistSolver State) (id : ℕ) → IsQueue s → IsQueue (add_to_worklist s id)
  unfolding add_to_worklist
  add_to_worklist-IsQueue s id q = elim (Bool-cases (s.in_worklist id)) [
    | inl waits ↦ rw (waits, add_to_worklist) q
    | inr new ↦
        rw (new, add_to_worklist)
          (record {
            members = λ v. ground (arith, mem_id-append v id s.worklist, q.members v);
            distinct = append-IsDistinct id s.worklist (sym (q.members id) ∙ new) q.distinct;
          })
  ]

  -- The solver once the front of the queue is gone.
  abbrev pub popped : WorklistSolver State → ℕ → List ℕ → WorklistSolver State
  popped s id rest = record s { worklist = rest; in_worklist = put s.in_worklist id false }

  pub take_cases :
      (s : WorklistSolver State)
      → ((s.worklist ≡ []) × (take_from_worklist s ≡ none))
        ⊎ ((id : ℕ) × (rest : List ℕ) × (s.worklist ≡ id ∷ rest)
            × (take_from_worklist s ≡ some (id, popped s id rest)))
  unfolding take_from_worklist
  take_cases s = elim (List-cases s.worklist) [
    | inl empty ↦ inl (empty, rw (empty, take_from_worklist))
    | inr (id, rest, e) ↦ inr (id, rest, e, rw (e, take_from_worklist))
  ]

  pub popped-IsQueue :
      (s : WorklistSolver State) (id : ℕ) (rest : List ℕ)
      → s.worklist ≡ id ∷ rest
      → IsQueue s
      → IsQueue (popped s id rest)
  unfolding mem_id
  popped-IsQueue s id rest e q =
      let d : IsDistinct (id ∷ rest) = rw e at q.distinct in
      record {
        members = λ v.
            let m : s.in_worklist v ≡ mem_id v (id ∷ rest) = q.members v ∙ ap (mem_id v) e in
            elim (Bool-cases (id == v)) [
              | inl same ↦ rw (same, ← (==_iff id v).0 same) (sym d.0)
              | inr other ↦ rw (other, m, other)
            ];
        distinct = d.1;
      }

  pub in_worklist-add_targets :
      (s : WorklistSolver State) (es : List Edge) (v : ℕ)
      → (add_targets s es).in_worklist v ≡ (s.in_worklist v || mem_edge v es)
  unfolding add_targets add_to_worklist mem_edge
  in_worklist-add_targets s [] v = ground arith
  in_worklist-add_targets s (e ∷ es) v =
      ground (arith, in_worklist-add_targets (add_to_worklist s e.to) es v)

  pub add_targets-IsQueue :
      (s : WorklistSolver State) (es : List Edge) → IsQueue s → IsQueue (add_targets s es)
  unfolding add_targets
  add_targets-IsQueue s [] q = q
  add_targets-IsQueue s (e ∷ es) q =
      add_targets-IsQueue (add_to_worklist s e.to) es (add_to_worklist-IsQueue s e.to q)

  pub graph-add_targets :
      (s : WorklistSolver State) (es : List Edge) → (add_targets s es).graph ≡ s.graph
  unfolding add_targets add_to_worklist
  graph-add_targets s [] = refl
  graph-add_targets s (e ∷ es) = graph-add_targets (add_to_worklist s e.to) es ∙ ground arith
