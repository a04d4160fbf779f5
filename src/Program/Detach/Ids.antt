-- ===== src/Program/Detach/Ids.antt =====
-- The nodes that the pruning collects (`ProgramGraph::finalize`, lib/Graph/ProgramGraph.cpp).
use llta.Prelude.{
  ==_iff, Bool, Bool-cases, List, Option-cases, [], ap, arith, false, if◌then◌else◌, inl, inr, ltb,
  none, not, refl, some, suc, sym, true, zero, ℕ, ◌&&◌, ◌++◌, ◌==◌, ◌||◌, ◌↔◌, ◌∙◌, ◌∷◌, ◌≡◌,
}
use llta.Program.{ProgramGraph}
use llta.Program.Detach.{unreachable_ids}
use llta.Program.Wire.{HasNode}
use llta.Solver.Graph.{mem_id}

abbrev pub NoTwice : List ℕ → Type 0
NoTwice [] = Unit
NoTwice (x ∷ xs) = (mem_id x xs ≡ false) × NoTwice xs

mem_id-snoc : (v n : ℕ) (xs : List ℕ) → mem_id v (xs ++ n ∷ []) ≡ (mem_id v xs || (n == v))
unfolding mem_id
mem_id-snoc v n [] = ground arith
mem_id-snoc v n (x ∷ xs) = ground (arith, mem_id-snoc v n xs)

NoTwice-snoc : (n : ℕ) (xs : List ℕ) → NoTwice xs → mem_id n xs ≡ false → NoTwice (xs ++ n ∷ [])
unfolding mem_id
NoTwice-snoc n [] d h = (refl, tt)
NoTwice-snoc n (x ∷ xs) d h =
    (ground (arith, mem_id-snoc x n xs, d.0), NoTwice-snoc n xs d.1 (ground arith))

-- Whether a node is there, as a test.
abbrev pub there_is : ProgramGraph → ℕ → Bool
there_is g v = elim (g.nodes v) [ none ↦ false | some _ ↦ true ]

pub there_is-HasNode : (g : ProgramGraph) (v : ℕ) → (there_is g v ≡ true) ↔ HasNode g v
there_is-HasNode g v = elim (Option-cases (g.nodes v)) [
  | inl gone ↦ (
    λ h. let e : false ≡ true = sym (rw (gone, there_is) refl) ∙ h in absurd (cc),
    λ (n, at). let e : none ≡ some n = sym gone ∙ at in absurd (cc),
  )
  | inr (n, at) ↦ (λ _. (n, at), λ _. rw (at, there_is) refl)
]

-- The nodes below the bound that the sweep did not find.
abbrev pub is_left : ProgramGraph → (ℕ → Bool) → ℕ → ℕ → Bool
is_left g seen n v = ltb v n && (there_is g v && not (seen v))

unreachable_step :
    (g : ProgramGraph) (seen : ℕ → Bool) (n : ℕ)
    → unreachable_ids g seen (suc n) ≡ (
        if there_is g n && not (seen n)
        then unreachable_ids g seen n ++ n ∷ []
        else unreachable_ids g seen n)
unfolding unreachable_ids
unreachable_step g seen n = elim (Option-cases (g.nodes n)) [
  | inl gone ↦ rw (gone, unreachable_ids, there_is) refl
  | inr (m, at) ↦ elim (Bool-cases (seen n)) [
    | inl old ↦ rw (at, old, unreachable_ids, there_is, not) refl
    | inr new ↦ rw (at, new, unreachable_ids, there_is, not) refl
  ]
]

pub mem_id-unreachable_ids :
    (g : ProgramGraph) (seen : ℕ → Bool) (n v : ℕ)
    → mem_id v (unreachable_ids g seen n) ≡ is_left g seen n v
unfolding mem_id unreachable_ids
mem_id-unreachable_ids g seen zero v = ground arith
mem_id-unreachable_ids g seen (suc n) v =
    let before = mem_id-unreachable_ids g seen n v in
    let last = mem_id-snoc v n (unreachable_ids g seen n) in
    let there_at : (n == v) ≡ true → there_is g n ≡ there_is g v =
      λ h. ap (there_is g) ((==_iff n v).0 h) in
    let seen_at : (n == v) ≡ true → seen n ≡ seen v = λ h. ap seen ((==_iff n v).0 h) in
    elim (Bool-cases (there_is g n && not (seen n))) [
      | inl new ↦
          rw (unreachable_step g seen n)
            (rw new (ground (arith, before, last, there_at, seen_at, new)))
      | inr old ↦
          rw (unreachable_step g seen n) (rw old (ground (arith, before, there_at, seen_at, old)))
    ]

pub NoTwice-unreachable_ids :
    (g : ProgramGraph) (seen : ℕ → Bool) (n : ℕ) → NoTwice (unreachable_ids g seen n)
unfolding unreachable_ids
NoTwice-unreachable_ids g seen zero = tt
NoTwice-unreachable_ids g seen (suc n) = elim (Bool-cases (there_is g n && not (seen n))) [
  | inl new ↦ rw (unreachable_step g seen n) (
      rw new (
        NoTwice-snoc n (unreachable_ids g seen n) (NoTwice-unreachable_ids g seen n)
          (ground (arith, mem_id-unreachable_ids g seen n n))))
  | inr old ↦ rw (unreachable_step g seen n) (rw old (NoTwice-unreachable_ids g seen n))
]
