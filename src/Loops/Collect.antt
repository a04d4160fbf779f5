-- ===== src/Loops/Collect.antt =====
-- What a search of `computeLoopBody` finds (lib/MIRPasses/MachineLoopBoundAgregatorPass.cpp).
use llta.Loops.{collect, collect_from}
use llta.Prelude.{
  ==_iff, Bool, Bool-cases, List, [], arith, false, inl, inr, length, refl, some, suc, true, zero,
  ℕ, ◌+◌, ◌<◌, ◌==◌, ◌||◌, ◌↔◌, ◌∷◌, ◌≡◌, ◌≤◌, ◌⊎◌,
}
use llta.Program.Prune.{push_new}
use llta.Program.Prune.Exact.{seen-push_new, work-push_new}
use llta.Program.Prune.Fuel.{AllBelow, AllBelow-push_new, push_new_cost, unseen, unseen_nothing}
use llta.Solver.Graph.{mem_id}
use llta.Solver.Worklist.Queue.{popped}

-- A path of one edge or more.
pub data Steps (next : ℕ → List ℕ) (u : ℕ) : ℕ → Type 0 where
  one_step : {v : ℕ} → mem_id v (next u) ≡ true → Steps next u v
  more_steps : {mid w : ℕ} → Steps next u mid → mem_id w (next mid) ≡ true → Steps next u w

module _ (next : ℕ → List ℕ) (header : ℕ) where
  abbrev pub met : (ℕ → Bool) → ℕ → Bool
  met seen u = (header == u) || seen u

  -- What is seen has a path from the header, and only what waits may have a successor that is not
  -- seen.
  pub record IsCollect (seen : ℕ → Bool) (work : List ℕ) : Type 0 where
    pub reached : (v : ℕ) → seen v ≡ true → Steps next header v
    pub waits_met : (v : ℕ) → mem_id v work ≡ true → met seen v ≡ true
    pub closed :
        (u : ℕ)
        → met seen u ≡ true
        → (mem_id u work ≡ true) ⊎ ((v : ℕ) → mem_id v (next u) ≡ true → seen v ≡ true)

  Steps-on :
      (seen : ℕ → Bool) (b v : ℕ)
      → met seen b ≡ true
      → (seen b ≡ true → Steps next header b)
      → mem_id v (next b) ≡ true
      → Steps next header v
  Steps-on seen b v m before edge = elim (Bool-cases (header == b)) [
    | inl same ↦ one_step (rw ((==_iff header b).0 same) edge)
    | inr apart ↦ more_steps (before (ground arith)) edge
  ]

  pub push_new-IsCollect :
      (seen : ℕ → Bool) (b : ℕ) (work : List ℕ)
      → IsCollect seen (b ∷ work)
      → IsCollect (push_new seen work (next b)).0 (push_new seen work (next b)).1
  unfolding mem_id
  push_new-IsCollect seen b work i =
      let now = seen-push_new seen work (next b) in
      let waits = work-push_new seen work (next b) in
      record {
        reached = λ v h. elim (Bool-cases (seen v)) [
          | inl old ↦ i.reached v old
          | inr new ↦
              Steps-on seen b v (i.waits_met b (rw ((==_iff b b).1 refl) refl)) (i.reached b)
                (ground (arith, now v))
        ];
        waits_met = λ v h. ground (arith, now v, waits v, i.waits_met v);
        closed = λ u h. elim (Bool-cases (met seen u)) [
          | inr fresh ↦ inl (ground (arith, now u, waits u))
          | inl old ↦ elim (Bool-cases (b == u)) [
            | inl popped ↦ inr (λ v edge.
                let linked : mem_id v (next b) ≡ true = rw ((==_iff b u).0 popped) edge in
                ground (arith, now v, linked))
            | inr apart ↦ elim (i.closed u old) [
              | inl waiting ↦ inl (ground (arith, waits u, waiting))
              | inr done ↦ inr (λ v edge. ground (arith, now v, done v edge))
            ]
          ]
        ];
      }

  pub start-IsCollect : IsCollect (λ _. false) (header ∷ [])
  unfolding mem_id
  start-IsCollect = record {
    reached = λ v h. absurd (cc);
    waits_met = λ v h. ground arith;
    closed = λ u h. inl (ground arith);
  }

  pub found_lem : (r : ℕ → Bool) → IsCollect r [] → (v : ℕ) → Steps next header v → r v ≡ true
  unfolding mem_id
  found_lem r i v (one_step edge) =
      elim (i.closed header (rw ((==_iff header header).1 refl) refl)) [
        | inl waiting ↦ absurd (cc)
        | inr done ↦ done v edge
      ]
  found_lem r i w (more_steps {mid} before edge) =
      let at = found_lem r i mid before in
      elim (i.closed mid (ground arith)) [ inl waiting ↦ absurd (cc) | inr done ↦ done w edge ]

  collect-total :
      (n fuel : ℕ) (seen : ℕ → Bool) (work : List ℕ)
      → ((b : ℕ) → b < n → AllBelow n (next b))
      → AllBelow n work
      → length work + unseen seen n ≤ fuel
      → IsCollect seen work
      → (r : ℕ → Bool) × (collect fuel next seen work ≡ some r) × IsCollect r []
  unfolding collect
  collect-total n fuel seen [] small all h i = (seen, refl, i)
  collect-total n zero seen (b ∷ work) small all h i = absurd (omega arith)
  collect-total n (suc fuel) seen (b ∷ work) small all h i =
      let after = push_new seen work (next b) in
      let below = small b all.0 in
      collect-total n fuel after.0 after.1 small
        (AllBelow-push_new n seen work (next b) all.1 below)
        (omega (arith, push_new_cost n seen work (next b) below)) (push_new-IsCollect seen b work i)

  pub collect_from_lem :
      (n : ℕ)
      → header < n
      → ((b : ℕ) → b < n → AllBelow n (next b))
      → (r : ℕ → Bool) × (collect_from (suc n) next header ≡ some r)
        × ((v : ℕ) → (r v ≡ true) ↔ Steps next header v)
  unfolding collect_from
  collect_from_lem n less small =
      let (r, found, i) =
        collect-total n (suc n) (λ _. false) (header ∷ []) small (less, tt)
          (omega (arith, unseen_nothing n)) start-IsCollect in
      (r, found, λ v. (i.reached v, found_lem r i v))
