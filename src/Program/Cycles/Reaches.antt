-- ===== src/Program/Cycles/Reaches.antt =====
-- What `reaches` of `ProgramGraph::finalize` decides (lib/Graph/ProgramGraph.cpp).
use llta.Loops.Collect.{IsCollect, Steps, found_lem, met, push_new-IsCollect, start-IsCollect}
use llta.Prelude.{
  ==_iff, Bool, Bool-cases, List, [], arith, false, inl, inr, length, refl, some, subst, suc, true,
  zero, ℕ, ◌+◌, ◌<◌, ◌==◌, ◌↔◌, ◌∙◌, ◌∷◌, ◌≡◌, ◌≤◌, ◌⊎◌,
}
use llta.Program.Cycles.{call_reaches, reaches_from}
use llta.Program.Prune.{push_new}
use llta.Program.Prune.Exact.{seen-push_new, work-push_new}
use llta.Program.Prune.Fuel.{AllBelow, AllBelow-push_new, push_new_cost, unseen, unseen_nothing}
use llta.Solver.Graph.{mem_id}

module _ (next : ℕ → List ℕ) (src dst : ℕ) where
  -- What is met and no longer waits is not the target.
  abbrev Passed : (ℕ → Bool) → List ℕ → Type 0
  Passed seen work =
      (u : ℕ) → met next src seen u ≡ true → mem_id u work ≡ false → (u == dst) ≡ false

  Answer : Bool → Type 0
  Answer r = (r ≡ true) ↔ ((src ≡ dst) ⊎ Steps next src dst)

  reaches_from-total :
      (n fuel : ℕ) (seen : ℕ → Bool) (work : List ℕ)
      → ((b : ℕ) → b < n → AllBelow n (next b))
      → AllBelow n work
      → length work + unseen seen n ≤ fuel
      → IsCollect next src seen work
      → Passed seen work
      → (r : Bool) × (reaches_from fuel next dst seen work ≡ some r) × Answer r
  unfolding reaches_from mem_id Answer
  reaches_from-total n fuel seen [] small all h i passed = (
    false,
    refl,
    (
      λ e. absurd (cc),
      λ e. elim e [
        | inl same ↦
            let here = (==_iff src dst).1 same in
            let off = passed src (rw ((==_iff src src).1 refl) refl) refl in absurd (cc)
        | inr path ↦
            let off = passed dst (rw (found_lem next src seen i dst path) (ground arith)) refl in
            let self = (==_iff dst dst).1 refl in absurd (cc)
      ],
    ),
  )
  reaches_from-total n zero seen (f ∷ work) small all h i passed = absurd (omega arith)
  reaches_from-total n (suc fuel) seen (f ∷ work) small all h i passed =
      elim (Bool-cases (f == dst)) [
        | inl at ↦ (
          true,
          rw at refl,
          (
            λ e.
                let m = i.waits_met f (rw ((==_iff f f).1 refl) refl) in
                elim (Bool-cases (src == f)) [
                  | inl same ↦ inl ((==_iff src f).0 same ∙ (==_iff f dst).0 at)
                  | inr apart ↦ inr (
                      subst (Steps next src) ((==_iff f dst).0 at)
                        (i.reached f (ground (arith, m, apart))))
                ],
            λ e. refl,
          ),
        )
        | inr off ↦
            let after = push_new seen work (next f) in
            let below = small f all.0 in
            let now = seen-push_new seen work (next f) in
            let waits = work-push_new seen work (next f) in
            let (r, found, answer) =
              reaches_from-total n fuel after.0 after.1 small
                (AllBelow-push_new n seen work (next f) all.1 below)
                (omega (arith, push_new_cost n seen work (next f) below))
                (push_new-IsCollect next src seen f work i)
                (λ u m gone. elim (Bool-cases (f == u)) [
                  | inl same ↦ rw (← (==_iff f u).0 same) off
                  | inr apart ↦
                      passed u (ground (arith, m, now u, waits u, gone))
                        (ground (arith, apart, waits u, gone))
                ]) in
            (r, rw off found, answer)
      ]

-- With the functions below a bound, `reaches` ends, and says whether the target is the source or there
-- is a chain of calls from the source to it.
pub call_reaches_lem :
    (n : ℕ) (next : ℕ → List ℕ) (src dst : ℕ)
    → ((b : ℕ) → b < n → AllBelow n (next b))
    → src < n
    → (r : Bool) × (call_reaches n next src dst ≡ some r)
      × ((r ≡ true) ↔ ((src ≡ dst) ⊎ Steps next src dst))
unfolding call_reaches Answer mem_id
call_reaches_lem n next src dst small less =
    reaches_from-total next src dst n (suc n) (λ _. false) (src ∷ []) small (less, tt)
      (omega (arith, unseen_nothing n)) (start-IsCollect next src)
      (λ u m gone. absurd (ground arith))
