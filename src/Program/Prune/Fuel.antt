-- ===== src/Program/Prune/Fuel.antt =====
-- The sweep ends (`ProgramGraph::finalize` of lib/Graph/ProgramGraph.cpp).
use llta.Prelude.{
  ==_iff, Bool, Bool-cases, List, [], arith, false, if◌then◌else◌, inl, inr, length, refl, some,
  subst, suc, true, zero, ℕ, ◌+◌, ◌<◌, ◌==◌, ◌↔◌, ◌∷◌, ◌≡◌, ◌≤◌,
}
use llta.Program.{ProgramGraph, ProgramNode}
use llta.Program.Prune.{push_new, reachable_set, sweep}
use llta.Program.Prune.Exact.{Reach, reachable_set-exact}
use llta.Program.Wire.{HasNode}
use llta.Solver.Graph.{put}

-- How many identifiers below the bound are not seen.
abbrev pub unseen : (ℕ → Bool) → ℕ → ℕ
unseen seen zero = 0
unseen seen (suc n) = (if seen n then 0 else 1) + unseen seen n

unseen-put_above : (seen : ℕ → Bool) (s n : ℕ) → n ≤ s → unseen (put seen s true) n ≡ unseen seen n
unseen-put_above seen s zero h = refl
unseen-put_above seen s (suc n) h = ground (arith, unseen-put_above seen s n)

unseen-put :
    (seen : ℕ → Bool) (s n : ℕ)
    → s < n
    → seen s ≡ false
    → suc (unseen (put seen s true) n) ≡ unseen seen n
unseen-put seen s zero h new = omega arith
unseen-put seen s (suc n) h new = elim (Bool-cases (s == n)) [
  | inl here ↦
      let at : s ≡ n = (==_iff s n).0 here in
      let fresh : seen n ≡ false = subst (λ (k : ℕ). seen k ≡ false) at new in
      rw (here, fresh) (omega (arith, unseen-put_above seen s n (omega arith)))
  | inr apart ↦
      let less : s < n = ground arith in rw apart (ground (arith, unseen-put seen s n less new))
]

abbrev pub AllBelow : ℕ → List ℕ → Type 0
AllBelow n [] = Unit
AllBelow n (s ∷ ss) = (s < n) × AllBelow n ss

-- What is pushed was not seen before.
pub push_new_cost :
    (n : ℕ) (seen : ℕ → Bool) (work ss : List ℕ)
    → AllBelow n ss
    → length (push_new seen work ss).1 + unseen (push_new seen work ss).0 n
      ≡ length work + unseen seen n
unfolding push_new
push_new_cost n seen work [] all = refl
push_new_cost n seen work (s ∷ ss) all = elim (Bool-cases (seen s)) [
  | inl old ↦ rw old (push_new_cost n seen work ss all.1)
  | inr new ↦ rw new (
      omega (
        arith,
        push_new_cost n (put seen s true) (s ∷ work) ss all.1,
        unseen-put seen s n all.0 new,
      ))
]

pub AllBelow-push_new :
    (n : ℕ) (seen : ℕ → Bool) (work ss : List ℕ)
    → AllBelow n work
    → AllBelow n ss
    → AllBelow n (push_new seen work ss).1
unfolding push_new
AllBelow-push_new n seen work [] all more = all
AllBelow-push_new n seen work (s ∷ ss) all more = elim (Bool-cases (seen s)) [
  | inl old ↦ rw old (AllBelow-push_new n seen work ss all more.1)
  | inr new ↦ rw new (AllBelow-push_new n (put seen s true) (s ∷ work) ss (more.0, all) more.1)
]

pub unseen_nothing : (n : ℕ) → unseen (λ _. false) n ≡ n
unseen_nothing zero = refl
unseen_nothing (suc n) = omega (arith, unseen_nothing n)

-- Every identifier that was given out is a node, and edges go to such identifiers.
pub record IsNumbered (g : ProgramGraph) : Type 0 where
  pub full : (id : ℕ) → id < g.next_node_id → HasNode g id
  pub targets :
      (id : ℕ) (n : ProgramNode) → g.nodes id ≡ some n → AllBelow g.next_node_id n.successors

module _ (g : ProgramGraph) (numbered : IsNumbered g) where
  sweep-total :
      (fuel : ℕ) (seen : ℕ → Bool) (work : List ℕ)
      → AllBelow g.next_node_id work
      → length work + unseen seen g.next_node_id ≤ fuel
      → (r : ℕ → Bool) × (sweep fuel g seen work ≡ some r)
  unfolding sweep
  sweep-total fuel seen [] all h = (seen, refl)
  sweep-total zero seen (id ∷ work) all h = absurd (omega arith)
  sweep-total (suc fuel) seen (id ∷ work) all h =
      let (n, there) = numbered.full id all.0 in
      let after = push_new seen work n.successors in
      let small = numbered.targets id n there in
      let (r, rest) =
        sweep-total fuel after.0 after.1
          (AllBelow-push_new g.next_node_id seen work n.successors all.1 small)
          (omega (arith, push_new_cost g.next_node_id seen work n.successors small)) in
      (r, rw (there, sweep) rest)

  -- As many rounds as there are nodes are enough.
  pub reachable_set-total :
      (entry : ℕ)
      → entry < g.next_node_id
      → (r : ℕ → Bool) × (reachable_set g.next_node_id g entry ≡ some r)
  unfolding reachable_set
  reachable_set-total entry h =
      sweep-total g.next_node_id (put (λ _. false) entry true) (entry ∷ []) (h, tt)
        (omega (
          arith,
          unseen-put (λ _. false) entry g.next_node_id h refl,
          unseen_nothing g.next_node_id,
        ))

  -- When the identifiers that were given out are nodes and edges go to such nodes, the sweep ends
  -- within one round for each node, and the set that it finds holds exactly the nodes that the
  -- entry reaches.
  pub reachable_set_lem :
      (entry : ℕ)
      → entry < g.next_node_id
      → (r : ℕ → Bool) × (reachable_set g.next_node_id g entry ≡ some r)
        × ((v : ℕ) → (r v ≡ true) ↔ Reach g entry v)
  reachable_set_lem entry h =
      let (r, found) = reachable_set-total entry h in
      (r, found, reachable_set-exact g entry g.next_node_id r found)
