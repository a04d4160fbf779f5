-- ===== src/Ilp/Feasible.antt =====
-- The rows that a run of the program satisfies (`AbstractHighsSolver::solveWCET` of
-- lib/ILP/AbstractHighsSolver.cpp).
use llta.Ilp.{
  CallSite, Calls, Coefficient, Column, Row, Satisfies, all_call_rows, all_node_rows, back_terms,
  call_rows, edge_flow, entry_row, gained, has_column, in_row, loop_row, lost, match_row, node_rows,
  out_row, plus, return_terms, wcet_rows,
}
use llta.Ilp.Bounds.{
  back_sum, forward_sum, gained-return_terms, loop_bound_lem, lost-back_terms, lost-return_terms,
  sum_from-split,
}
use llta.Ilp.Count.{
  IsPath, counts, crossings, gained-back_terms, gained-in_terms, gained-out_terms, lost-in_terms,
  lost-out_terms, sum_from, visits,
}
use llta.Ilp.Flow.{IsSimple, last, tally, visits-in, visits-out}
use llta.Prelude.{
  ==_iff, All, Bool, Bool-cases, List, Option-cases, [], ap, arith, false, get_elem?, if◌then◌else◌,
  inl, inr, ltb, refl, some, subst, suc, sym, true, ℕ, ◌&&◌, ◌*◌, ◌++◌, ◌+◌, ◌-◌, ◌<◌, ◌==◌, ◌∙◌,
  ◌∷◌, ◌≡◌, ◌≤◌,
}
use llta.Solver.Graph.{AbstractStateGraph, IsConsistent, Node}
use llta.Solver.Worklist.Queue.{IsDistinct}

-- The lists of edges and of predecessors tell the same edges, each once.
pub record IsProper {State : Type 0} (g : AbstractStateGraph State) : Type 0 where
  pub consistent : IsConsistent g
  pub distinct : (u : ℕ) → IsDistinct (g.preds u)
  pub simple : (u : ℕ) → IsSimple (g.adjacency u)

-- A run: a path of the graph from an entry, which it comes to once, to an exit, in which every loop
-- header keeps its bound for each time the loop is entered, and every call site of the graph is left
-- for the entry of its callee as often as a return of the callee comes to its landing.
pub record IsRun {State : Type 0} (g : AbstractStateGraph State) (calls : Calls) (a : ℕ)
    (path : List ℕ) : Type 0 where
  pub walk : IsPath g (a ∷ path)
  pub begins : (n : Node State) → get_elem? g.nodes a ≡ some n → n.is_entry ≡ true
  pub once :
      (u : ℕ) (n : Node State)
      → get_elem? g.nodes u ≡ some n
      → n.is_entry ≡ true
      → visits u (a ∷ path) ≡ 1
  pub ends : (n : Node State) → get_elem? g.nodes (last a path) ≡ some n → n.is_exit ≡ true
  pub bounded :
      (u : ℕ) (n : Node State)
      → get_elem? g.nodes u ≡ some n
      → n.is_loop_header ≡ true
      → 0 < n.upper_loop_bound
      → visits u (a ∷ path)
        ≤ n.upper_loop_bound * (tally (a == u) + forward_sum g u (g.preds u) (a ∷ path))
  pub matched :
      (k : ℕ) (site : CallSite) (entry : ℕ) (returns : List ℕ)
      → get_elem? calls.call_sites k ≡ some site
      → calls.function_entries site.callee ≡ some entry
      → calls.function_returns site.callee ≡ some returns
      → crossings site.call_node entry (a ∷ path) ≡ sum_from site.return_node returns (a ∷ path)

All-append : {A : Type 0} (P : A → Type 0) (xs ys : List A) → All P xs → All P ys → All P (xs ++ ys)
All-append P [] ys h k = k
All-append P (x ∷ xs) ys h k = (h.0, All-append P xs ys h.1 k)

All-when :
    {A : Type 0} (P : A → Type 0) (b : Bool) (x : A)
    → (b ≡ true → P x)
    → All P (if b then x ∷ [] else [])
All-when P true x h = (h refl, tt)
All-when P false x h = tt

All-unless :
    {A : Type 0} (P : A → Type 0) (b : Bool) (x : A)
    → (b ≡ false → P x)
    → All P (if b then [] else x ∷ [])
All-unless P true x h = tt
All-unless P false x h = (h refl, tt)

module _ {State : Type 0} (g : AbstractStateGraph State) (proper : IsProper g) where
  module _ (calls : Calls) (a : ℕ) (path : List ℕ) (run : IsRun g calls a path) where
    in_row-Satisfies : (u : ℕ) → (a == u) ≡ false → Satisfies (counts (a ∷ path)) (in_row g u)
    unfolding in_row gained lost
    in_row-Satisfies u other =
        let flow = visits-in g proper.consistent u a path (proper.distinct u) run.walk in
        let lost_eq = lost-in_terms g u (g.preds u) (a ∷ path) run.walk in
        let gained_eq = gained-in_terms g u (g.preds u) (counts (a ∷ path)) in
        (ground (arith, flow, lost_eq, gained_eq), ground (arith, flow, lost_eq, gained_eq))

    out_row-Satisfies :
        (u : ℕ) → (last a path == u) ≡ false → Satisfies (counts (a ∷ path)) (out_row g u)
    unfolding out_row gained lost
    out_row-Satisfies u other =
        let flow = visits-out g proper.consistent u a path (proper.simple u) run.walk in
        let lost_eq = lost-out_terms g u (g.adjacency u) (a ∷ path) run.walk in
        let gained_eq = gained-out_terms g u (g.adjacency u) (counts (a ∷ path)) in
        (ground (arith, flow, lost_eq, gained_eq), ground (arith, flow, lost_eq, gained_eq))

    entry_row-Satisfies :
        (u : ℕ) → visits u (a ∷ path) ≡ 1 → Satisfies (counts (a ∷ path)) (entry_row u)
    unfolding entry_row gained lost
    entry_row-Satisfies u one = (ground arith, ground arith)

    loop_row-Satisfies :
        (u bound : ℕ)
        → 0 < bound
        → ((a == u) ≡ true → visits u (a ∷ path) ≡ 1)
        → visits u (a ∷ path) ≤ bound * (tally (a == u) + forward_sum g u (g.preds u) (a ∷ path))
        → Satisfies (counts (a ∷ path)) (loop_row g u bound)
    unfolding loop_row gained lost
    loop_row-Satisfies u bound positive first keeps =
        let flow = visits-in g proper.consistent u a path (proper.distinct u) run.walk in
        let split = sum_from-split g u (g.preds u) (a ∷ path) in
        let lost_eq = lost-back_terms g u bound (g.preds u) (a ∷ path) run.walk in
        let gained_eq = gained-back_terms g u bound (g.preds u) (counts (a ∷ path)) in
        let back = back_sum g u (g.preds u) (a ∷ path) in
        let forward = forward_sum g u (g.preds u) (a ∷ path) in
        elim (Bool-cases (a == u)) [
          | inl same ↦
              let none_back : back ≡ 0 = ground (arith, flow, split, first same) in
              let nothing : lost (counts (a ∷ path)) (back_terms g u bound (g.preds u))
                  ≡ bound * 0 =
                lost_eq ∙ ap (λ (k : ℕ). bound * k) none_back in
              (omega (arith, nothing), tt)
          | inr apart ↦
              let comes : visits u (a ∷ path) ≡ back + forward = ground (arith, flow, split) in
              let outside : tally (a == u) + forward ≡ forward = rw apart (omega arith) in
              let keeps' : back + forward ≤ bound * forward =
                subst (λ (k : ℕ). k ≤ bound * forward) comes
                  (subst (λ (k : ℕ). visits u (a ∷ path) ≤ bound * k) outside keeps) in
              let enough : bound * back ≤ (bound - 1) * visits u (a ∷ path) =
                rw comes (loop_bound_lem bound back forward positive keeps') in
              (omega (arith, lost_eq, gained_eq, enough), tt)
        ]

    node_rows-Satisfies :
        (u : ℕ) (n : Node State)
        → get_elem? g.nodes u ≡ some n
        → All (Satisfies (counts (a ∷ path))) (node_rows g u n)
    unfolding node_rows
    node_rows-Satisfies u n there =
        let P : Row → Type 0 = Satisfies (counts (a ∷ path)) in
        let first : (a == u) ≡ true → n.is_entry ≡ true =
          λ same. run.begins n (rw ((==_iff a u).0 same) there) in
        let final : (last a path == u) ≡ true → n.is_exit ≡ true =
          λ same. run.ends n (rw ((==_iff (last a path) u).0 same) there) in
        All-append P (if n.is_entry then [] else in_row g u ∷ []) _
          (All-unless P n.is_entry (in_row g u) (λ inner. in_row-Satisfies u (ground arith)))
          (All-append P (if n.is_exit then [] else out_row g u ∷ []) _
            (All-unless P n.is_exit (out_row g u) (λ inner. out_row-Satisfies u (ground arith)))
            (All-append P (if n.is_entry then entry_row u ∷ [] else []) _
              (All-when P n.is_entry (entry_row u)
                (λ entry. entry_row-Satisfies u (run.once u n there entry)))
              (All-when P (n.is_loop_header && ltb 0 n.upper_loop_bound)
                (loop_row g u n.upper_loop_bound)
                (λ header.
                  let positive : 0 < n.upper_loop_bound = ground arith in
                  loop_row-Satisfies u n.upper_loop_bound positive
                    (λ same. run.once u n there (first same))
                    (run.bounded u n there (ground arith) positive)))))

    all_node_rows-Satisfies :
        (u : ℕ) (ns : List (Node State))
        → ((k : ℕ) (n : Node State) → get_elem? ns k ≡ some n → get_elem? g.nodes (u + k) ≡ some n)
        → All (Satisfies (counts (a ∷ path))) (all_node_rows g u ns)
    unfolding all_node_rows
    all_node_rows-Satisfies u [] all = tt
    all_node_rows-Satisfies u (n ∷ ns) all =
        All-append (Satisfies (counts (a ∷ path))) (node_rows g u n) (all_node_rows g (suc u) ns)
          (node_rows-Satisfies u n
            (subst (λ (k : ℕ). get_elem? g.nodes k ≡ some n) (omega arith) (all 0 n refl)))
          (all_node_rows-Satisfies (suc u) ns (λ k m there.
            subst (λ (j : ℕ). get_elem? g.nodes j ≡ some m) (omega arith) (all (suc k) m there)))

    matched_lem :
        (from to : ℕ) (x : Column → ℕ) (ts : List (Column × Coefficient))
        → lost x ts ≡ x (edge_flow from to)
        → gained x ts ≡ 0
        → Satisfies x
            (record { lower = 0; upper = some 0; terms = (edge_flow from to, plus 1) ∷ ts })
    unfolding gained lost
    matched_lem from to x ts paid nothing =
        (omega (arith, paid, nothing), omega (arith, paid, nothing))

    match_row-Satisfies :
        (from to landing : ℕ) (rs : List ℕ) (ts : List (Column × Coefficient))
        → ts ≡ return_terms g landing rs
        → crossings from to (a ∷ path) ≡ sum_from landing rs (a ∷ path)
        → All (Satisfies (counts (a ∷ path))) (match_row from to ts)
    unfolding match_row
    match_row-Satisfies from to landing rs [] e same = tt
    match_row-Satisfies from to landing rs (t ∷ ts) e same =
        let x : Column → ℕ = counts (a ∷ path) in
        let paid : lost x (t ∷ ts) ≡ sum_from landing rs (a ∷ path) =
          ap (lost x) e ∙ lost-return_terms g landing rs (a ∷ path) run.walk in
        let nothing : gained x (t ∷ ts) ≡ 0 =
          ap (gained x) e ∙ gained-return_terms g landing rs x in
        (matched_lem from to x (t ∷ ts) (paid ∙ sym same) nothing, tt)

    call_rows-Satisfies :
        (k : ℕ) (site : CallSite)
        → get_elem? calls.call_sites k ≡ some site
        → All (Satisfies (counts (a ∷ path))) (call_rows g calls site)
    unfolding call_rows match_row
    call_rows-Satisfies k site listed = elim (Option-cases (calls.function_entries site.callee)) [
      | inl gone ↦ rw (gone, call_rows) tt
      | inr (entry, there) ↦ elim (Bool-cases (has_column g site.call_node entry)) [
        | inr unknown ↦ rw (there, call_rows) (rw unknown tt)
        | inl known ↦ elim (Option-cases (calls.function_returns site.callee)) [
          | inl never ↦ rw (there, call_rows) (rw (known, never) tt)
          | inr (returns, back) ↦
              rw (there, call_rows)
                (rw (known, back)
                  (match_row-Satisfies site.call_node entry site.return_node returns
                    (return_terms g site.return_node returns) refl
                    (run.matched k site entry returns listed there back)))
        ]
      ]
    ]

    all_call_rows-Satisfies :
        (k : ℕ) (sites : List CallSite)
        → ((j : ℕ) (site : CallSite)
            → get_elem? sites j ≡ some site
            → get_elem? calls.call_sites (k + j) ≡ some site)
        → All (Satisfies (counts (a ∷ path))) (all_call_rows g calls sites)
    unfolding all_call_rows
    all_call_rows-Satisfies k [] all = tt
    all_call_rows-Satisfies k (site ∷ sites) all =
        All-append (Satisfies (counts (a ∷ path))) (call_rows g calls site)
          (all_call_rows g calls sites)
          (call_rows-Satisfies k site (
            subst (λ (i : ℕ). get_elem? calls.call_sites i ≡ some site) (omega arith)
              (all 0 site refl)))
          (all_call_rows-Satisfies (suc k) sites (λ j s there.
            subst (λ (i : ℕ). get_elem? calls.call_sites i ≡ some s) (omega arith)
              (all (suc j) s there)))

    -- The counts of a run satisfy every row of the integer program.
    pub run-feasible : All (Satisfies (counts (a ∷ path))) (wcet_rows g calls)
    unfolding wcet_rows
    run-feasible =
        All-append (Satisfies (counts (a ∷ path))) (all_node_rows g 0 g.nodes)
          (all_call_rows g calls calls.call_sites)
          (all_node_rows-Satisfies 0 g.nodes
            (λ k n there. subst (λ (j : ℕ). get_elem? g.nodes j ≡ some n) (omega arith) there))
          (all_call_rows-Satisfies 0 calls.call_sites (λ j s there.
            subst (λ (i : ℕ). get_elem? calls.call_sites i ≡ some s) (omega arith) there))
