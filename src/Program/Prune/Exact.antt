-- ===== src/Program/Prune/Exact.antt =====
-- The pruning keeps exactly what the entry reaches (`ProgramGraph::finalize` of
-- lib/Graph/ProgramGraph.cpp).
use llta.Prelude.{
  ==_iff, Bool, Bool-cases, List, Option-cases, [], arith, false, inl, inr, none, not, refl, some,
  subst, suc, sym, true, zero, ℕ, ◌&&◌, ◌==◌, ◌||◌, ◌↔◌, ◌∙◌, ◌∷◌, ◌≡◌, ◌⊎◌,
}
use llta.Program.{ProgramGraph, ProgramNode, has_edge}
use llta.Program.Prune.{push_new, reachable_set, sweep}
use llta.Solver.Graph.{mem_id, put}
use llta.Solver.Worklist.Queue.{popped}

-- There is a path of edges.
pub data Reach (g : ProgramGraph) (entry : ℕ) : ℕ → Type 0 where
  begin : Reach g entry entry
  along : {u v : ℕ} → Reach g entry u → has_edge g u v ≡ true → Reach g entry v

pub seen-push_new :
    (seen : ℕ → Bool) (work ss : List ℕ) (v : ℕ)
    → (push_new seen work ss).0 v ≡ (mem_id v ss || seen v)
unfolding push_new mem_id
seen-push_new seen work [] v = refl
seen-push_new seen work (s ∷ ss) v =
    ground (arith, seen-push_new (put seen s true) (s ∷ work) ss v, seen-push_new seen work ss v)

pub work-push_new :
    (seen : ℕ → Bool) (work ss : List ℕ) (v : ℕ)
    → mem_id v (push_new seen work ss).1 ≡ (mem_id v work || mem_id v ss && not (seen v))
unfolding push_new mem_id
work-push_new seen work [] v = ground arith
work-push_new seen work (s ∷ ss) v =
    ground (arith, work-push_new (put seen s true) (s ∷ work) ss v, work-push_new seen work ss v)

module _ (g : ProgramGraph) (entry : ℕ) where
  -- What is seen is reachable, and only what waits may have a successor that is not seen.
  record IsSweep (seen : ℕ → Bool) (work : List ℕ) : Type 0 where
    begun : seen entry ≡ true
    reached : (v : ℕ) → seen v ≡ true → Reach g entry v
    known : (v : ℕ) → mem_id v work ≡ true → seen v ≡ true
    closed :
        (u : ℕ)
        → seen u ≡ true
        → (mem_id u work ≡ true) ⊎ ((v : ℕ) → has_edge g u v ≡ true → seen v ≡ true)

  push_new-IsSweep :
      (seen : ℕ → Bool) (id : ℕ) (work : List ℕ) (n : ProgramNode)
      → g.nodes id ≡ some n
      → IsSweep seen (id ∷ work)
      → IsSweep (push_new seen work n.successors).0 (push_new seen work n.successors).1
  unfolding mem_id has_edge
  push_new-IsSweep seen id work n there i =
      let now = seen-push_new seen work n.successors in
      let waits = work-push_new seen work n.successors in
      let edges : (v : ℕ) → has_edge g id v ≡ mem_id v n.successors =
        λ v. rw (there, has_edge) refl in
      record {
        begun = ground (arith, now entry, i.begun);
        reached = λ v h. elim (Bool-cases (seen v)) [
          | inl old ↦ i.reached v old
          | inr new ↦
              let linked : mem_id v n.successors ≡ true = ground (arith, now v) in
              along (i.reached id (i.known id (rw ((==_iff id id).1 refl) refl))) (edges v ∙ linked)
        ];
        known = λ v h. ground (arith, now v, waits v, i.known v);
        closed = λ u h. elim (Bool-cases (seen u)) [
          | inr fresh ↦ inl (ground (arith, now u, waits u))
          | inl old ↦ elim (Bool-cases (id == u)) [
            | inl popped ↦ inr (λ v edge.
                let at : has_edge g id v ≡ true = rw ((==_iff id u).0 popped) edge in
                let linked : mem_id v n.successors ≡ true = sym (edges v) ∙ at in
                ground (arith, now v, linked))
            | inr apart ↦ elim (i.closed u old) [
              | inl waiting ↦ inl (ground (arith, waits u, waiting))
              | inr done ↦ inr (λ v edge. ground (arith, now v, done v edge))
            ]
          ]
        ];
      }

  start-IsSweep : IsSweep (put (λ _. false) entry true) (entry ∷ [])
  unfolding mem_id
  start-IsSweep = record {
    begun = rw ((==_iff entry entry).1 refl) refl;
    reached = λ v h.
        let at : (entry == v) ≡ true = ground arith in
        subst (Reach g entry) ((==_iff entry v).0 at) begin;
    known = λ v h. ground arith;
    closed = λ u h. inl (ground arith);
  }

  sweep-IsSweep :
      (fuel : ℕ) (seen : ℕ → Bool) (work : List ℕ) (r : ℕ → Bool)
      → IsSweep seen work
      → sweep fuel g seen work ≡ some r
      → IsSweep r []
  unfolding sweep
  sweep-IsSweep fuel seen [] r i e =
      let same : seen ≡ r = cc in subst (λ (k : ℕ → Bool). IsSweep k []) same i
  sweep-IsSweep zero seen (id ∷ work) r i e = absurd (cc)
  sweep-IsSweep (suc fuel) seen (id ∷ work) r i e = elim (Option-cases (g.nodes id)) [
    | inl gone ↦ let never : none ≡ some r = sym (rw (gone, sweep) refl) ∙ e in absurd (cc)
    | inr (n, there) ↦
        let after = push_new seen work n.successors in
        sweep-IsSweep fuel after.0 after.1 r (push_new-IsSweep seen id work n there i)
          (sym (rw (there, sweep) refl) ∙ e)
  ]

  closed_lem : (r : ℕ → Bool) → IsSweep r [] → (v : ℕ) → Reach g entry v → r v ≡ true
  unfolding mem_id
  closed_lem r i _ begin = i.begun
  closed_lem r i _ (along {u} {v} before edge) = elim (i.closed u (closed_lem r i u before)) [
    | inl waiting ↦ absurd (cc)
    | inr done ↦ done v edge
  ]

  -- The set that the sweep finds holds exactly the nodes that the entry reaches.
  pub reachable_set-exact :
      (fuel : ℕ) (r : ℕ → Bool)
      → reachable_set fuel g entry ≡ some r
      → (v : ℕ) → (r v ≡ true) ↔ Reach g entry v
  unfolding reachable_set
  reachable_set-exact fuel r e v =
      let i = sweep-IsSweep fuel (put (λ _. false) entry true) (entry ∷ []) r start-IsSweep e in
      (i.reached v, closed_lem r i v)
