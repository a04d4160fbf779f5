-- ===== src/Solver/FromProgram/Marks.antt =====
-- The entries and the exits that the copy of a program graph marks (`initializeGraph(PG)` of
-- lib/Analysis/WorklistSolver.cpp).
use llta.Prelude.{
  ==_iff, Bool-cases, Option, ap, arith, false, get_elem?, get_elem?-set_ne, get_elem?-set_self,
  if◌then◌else◌, inl, inr, length, length-set, lt-length_of_get_elem?, ltb, none, refl, set_origin,
  some, suc, sym, true, ℕ, ◌==◌, ◌∙◌, ◌≡◌,
}
use llta.Program.{ProgramGraph, ProgramNode}
use llta.Solver.Analysable.{AbstractAnalysable}
use llta.Solver.FromProgram.{each_node, mark_ends, summary_node, with_marks}
use llta.Solver.FromProgram.Each.{each_node_inv}
use llta.Solver.Graph.{AbstractStateGraph, Node, get_node, set_node}

module _ (analysis : AbstractAnalysable) (pg : ProgramGraph) (index : ℕ → Option ℕ)
    (apart : (u v a : ℕ) → index u ≡ some a → index v ≡ some a → u ≡ v) where
  open analysis use {State, initial_state}

  -- A node of the copy, once the nodes below `n` are marked.
  abbrev pub marked_node : ℕ → ℕ → ProgramNode → Node State
  marked_node id n m =
      if ltb id n then with_marks analysis m (summary_node analysis m) else summary_node analysis m

  pub record IsMarked (base : AbstractStateGraph State) (n : ℕ) (g : AbstractStateGraph State)
      : Type 0 where
    pub same_edges : g.adjacency ≡ base.adjacency
    pub same_preds : g.preds ≡ base.preds
    pub same_size : length g.nodes ≡ length base.nodes
    pub nodes_marked :
        (id a : ℕ) (m : ProgramNode)
        → pg.nodes id ≡ some m
        → index id ≡ some a
        → get_elem? g.nodes a ≡ some (marked_node id n m)
    pub still_cold :
        (a : ℕ) (k : Node State)
        → get_elem? g.nodes a ≡ some k
        → (k.state ≡ initial_state) × (k.block ≡ none)

  skip-IsMarked :
      (base g : AbstractStateGraph State) (n : ℕ)
      → pg.nodes n ≡ none
      → IsMarked base n g
      → IsMarked base (suc n) g
  skip-IsMarked base g n gone i = record {
    same_edges = i.same_edges;
    same_preds = i.same_preds;
    same_size = i.same_size;
    nodes_marked = λ id a m there at. elim (Bool-cases (n == id)) [
      | inl same ↦
          let e : none ≡ some m =
            sym gone ∙ ap (λ (k : ℕ). pg.nodes k) ((==_iff n id).0 same) ∙ there in
          absurd (cc)
      | inr other ↦
          let below : ltb id (suc n) ≡ ltb id n = ground (arith, other) in
          rw below (i.nodes_marked id a m there at)
    ];
    still_cold = i.still_cold;
  }

  mark-IsMarked :
      (base g : AbstractStateGraph State) (n a : ℕ) (m : ProgramNode)
      → pg.nodes n ≡ some m
      → index n ≡ some a
      → IsMarked base n g
      → IsMarked base (suc n) (mark_ends analysis index n m g)
  unfolding mark_ends get_node set_node
  mark-IsMarked base g n a m here at i =
      let not_yet : ltb n n ≡ false = ground arith in
      let found : get_elem? g.nodes a ≡ some (summary_node analysis m) =
        i.nodes_marked n a m here at ∙ rw not_yet refl in
      let new = with_marks analysis m (summary_node analysis m) in
      rw (at, found, mark_ends)
        (record {
          same_edges = i.same_edges;
          same_preds = i.same_preds;
          same_size = length-set g.nodes a new ∙ i.same_size;
          nodes_marked = λ id a' k there at'. elim (Bool-cases (n == id)) [
            | inl same ↦
                let e = (==_iff n id).0 same in
                let e_m : some m ≡ some k = sym here ∙ ap (λ (j : ℕ). pg.nodes j) e ∙ there in
                let m_k : m ≡ k = cc in
                let e_a : some a ≡ some a' = sym at ∙ ap index e ∙ at' in
                let a_a' : a ≡ a' = cc in
                let below : ltb id (suc n) ≡ true = ground (arith, same) in
                rw (below, ← m_k, ← a_a')
                  (get_elem?-set_self g.nodes a new
                    (lt-length_of_get_elem? g.nodes a (summary_node analysis m) found))
            | inr other ↦
                let below : ltb id (suc n) ≡ ltb id n = ground (arith, other) in
                let differ : (a ≡ a') → ⊥ = λ e.
                  let same =
                    (==_iff n id).1 (apart n id a at (at' ∙ ap (λ (j : ℕ). some j) (sym e))) in
                  ground (arith, same, other) in
                rw below
                  (get_elem?-set_ne g.nodes a a' new differ ∙ i.nodes_marked id a' k there at')
          ];
          still_cold = λ a' k there. elim (set_origin g.nodes a a' new k there) [
            | inl old ↦ i.still_cold a' k old
            | inr (_, e) ↦
                let was = i.still_cold a (summary_node analysis m) found in
                (sym (ap (λ (x : Node State). x.state) e), sym (ap (λ (x : Node State). x.block) e))
          ];
        })

  -- The third loop of the copy.
  pub mark_all-IsMarked :
      (g : AbstractStateGraph State) (n : ℕ)
      → ((id : ℕ) (m : ProgramNode) → pg.nodes id ≡ some m → (a : ℕ) × (index id ≡ some a))
      → IsMarked g 0 g
      → IsMarked g n (each_node (mark_ends analysis index) pg n g)
  mark_all-IsMarked g n at start =
      each_node_inv (IsMarked g) (mark_ends analysis index) pg
        (λ k h gone i. skip-IsMarked g h k gone i)
        (λ k m h there i. let (a, here) = at k m there in mark-IsMarked g h k a m there here i) n g
        start
