-- ===== src/Solver/FromProgram/Nodes.antt =====
-- The nodes that the copy of a program graph makes (`initializeGraph(PG)` of
-- lib/Analysis/WorklistSolver.cpp).
use llta.Prelude.{
  ==_iff, Bool-cases, List, Option, [], ap, append_origin, arith, get_elem?, inl, inr, length,
  length-append, none, refl, set, some, subst, suc, sym, zero, ℕ, ◌++◌, ◌<◌, ◌==◌, ◌∙◌, ◌∷◌, ◌≡◌,
  ◌⊎◌,
}
use llta.Program.{ProgramGraph, ProgramNode}
use llta.Program.Wire.{HasNode}
use llta.Solver.Analysable.{AbstractAnalysable}
use llta.Solver.FromProgram.{Copy, copy_node, each_node, summary_node}
use llta.Solver.FromProgram.Each.{each_node_inv}
use llta.Solver.Graph.{Node, add_node, empty_graph, new_node, put, set_node}

put_cases :
    (f : ℕ → Option ℕ) (n u l a : ℕ)
    → put f n (some l) u ≡ some a
    → ((n ≡ u) × (a ≡ l)) ⊎ (f u ≡ some a)
put_cases f n u l a h = elim (Bool-cases (n == u)) [
  | inl same ↦
      let e : some l ≡ some a = sym (rw same refl) ∙ h in
      let e' : l ≡ a = cc in inl ((==_iff n u).0 same, sym e')
  | inr other ↦ inr (sym (rw other refl) ∙ h)
]

module _ (analysis : AbstractAnalysable) (pg : ProgramGraph) where
  open analysis use {State, initial_state}

  -- After the nodes below `n`: each has its own identifier and its summary, and no edge is there.
  pub record IsIndexed (n : ℕ) (c : Copy analysis) : Type 0 where
    pub indexed :
        (id : ℕ) (m : ProgramNode)
        → id < n
        → pg.nodes id ≡ some m
        → (a : ℕ) × (c.index id ≡ some a)
          × (get_elem? c.graph.nodes a ≡ some (summary_node analysis m))
    pub only :
        (id a : ℕ) → c.index id ≡ some a → HasNode pg id × (id < n) × (a < length c.graph.nodes)
    pub apart : (u v a : ℕ) → c.index u ≡ some a → c.index v ≡ some a → u ≡ v
    pub no_edges : (a : ℕ) → c.graph.adjacency a ≡ []
    pub no_preds : (a : ℕ) → c.graph.preds a ≡ []
    pub all_cold :
        (a : ℕ) (k : Node State)
        → get_elem? c.graph.nodes a ≡ some k
        → (k.state ≡ initial_state) × (k.block ≡ none)

  start-IsIndexed : IsIndexed 0 (record { graph = empty_graph; index = λ _. none })
  start-IsIndexed = record {
    indexed = λ id m h. absurd (omega arith);
    only = λ id a h. cc;
    apart = λ u v a h. cc;
    no_edges = λ a. refl;
    no_preds = λ a. refl;
    all_cold = λ a k h. cc;
  }

  skip-IsIndexed :
      (n : ℕ) (c : Copy analysis) → pg.nodes n ≡ none → IsIndexed n c → IsIndexed (suc n) c
  skip-IsIndexed n c gone i = record {
    indexed = λ id m h there. elim (Bool-cases (id == n)) [
      | inl same ↦
          let at : id ≡ n = (==_iff id n).0 same in
          let e : none ≡ some m = sym gone ∙ subst (λ (j : ℕ). pg.nodes j ≡ some m) at there in
          absurd (cc)
      | inr other ↦ i.indexed id m (ground (arith, other, h)) there
    ];
    only = λ id a h. let o = i.only id a h in (o.0, omega (arith, o.1), o.2);
    apart = i.apart;
    no_edges = i.no_edges;
    no_preds = i.no_preds;
    all_cold = i.all_cold;
  }

  copied : (n : ℕ) (m : ProgramNode) (c : Copy analysis) → Copy analysis
  copied n m c = record {
    graph = record c.graph { nodes = c.graph.nodes ++ summary_node analysis m ∷ [] };
    index = put c.index n (some (length c.graph.nodes));
  }

  set-last :
      {A : Type 0} → (xs : List A) (x y : A) → set (xs ++ x ∷ []) (length xs) y ≡ xs ++ y ∷ []
  set-last [] x y = refl
  set-last (z ∷ xs) x y = ap (λ (t : List _). z ∷ t) (set-last xs x y)

  copy_node_lem :
      (n : ℕ) (m : ProgramNode) (c : Copy analysis) → copy_node analysis n m c ≡ copied n m c
  unfolding copy_node copied add_node set_node
  copy_node_lem n m c =
      ap
        (λ (ns : List (Node State)). record {
          graph = record c.graph { nodes = ns };
          index = put c.index n (some (length c.graph.nodes));
        })
        (set-last c.graph.nodes (new_node initial_state none) (summary_node analysis m))

  get-last : {A : Type 0} → (xs : List A) (x : A) → get_elem? (xs ++ x ∷ []) (length xs) ≡ some x
  get-last [] x = refl
  get-last (z ∷ xs) x = get-last xs x

  get-before :
      {A : Type 0}
      → (xs : List A) (x y : A) (a : ℕ) → get_elem? xs a ≡ some y
      → get_elem? (xs ++ x ∷ []) a ≡ some y
  get-before [] x y a h = cc
  get-before (z ∷ xs) x y zero h = h
  get-before (z ∷ xs) x y (suc a) h = get-before xs x y a h

  copied-IsIndexed :
      (n : ℕ) (m : ProgramNode) (c : Copy analysis)
      → pg.nodes n ≡ some m
      → IsIndexed n c
      → IsIndexed (suc n) (copied n m c)
  unfolding copied
  copied-IsIndexed n m c here i =
      let size = length-append c.graph.nodes (summary_node analysis m ∷ []) in
      record {
        indexed = λ id k h there. elim (Bool-cases (n == id)) [
          | inl same ↦
              let at : n ≡ id = (==_iff n id).0 same in
              let e : some m ≡ some k =
                sym here ∙ subst (λ (j : ℕ). pg.nodes j ≡ some k) (sym at) there in
              let m_k : m ≡ k = cc in
              (
                length c.graph.nodes,
                rw same refl,
                subst
                    (λ (x : ProgramNode).
                      get_elem? (c.graph.nodes ++ summary_node analysis m ∷ [])
                        (length c.graph.nodes)
                      ≡ some (summary_node analysis x))
                    m_k (get-last c.graph.nodes (summary_node analysis m)),
              )
          | inr other ↦
              let (a, at, node) = i.indexed id k (ground (arith, other, h)) there in
              (
                a,
                rw other at,
                get-before c.graph.nodes (summary_node analysis m) (summary_node analysis k) a node,
              )
        ];
        only = λ id a h. elim (put_cases c.index n id (length c.graph.nodes) a h) [
          | inl (at, e) ↦ ((m, rw (← at) here), omega (arith, at), omega (arith, e, size))
          | inr old ↦ let o = i.only id a old in (o.0, omega (arith, o.1), omega (arith, o.2, size))
        ];
        apart = λ u v a h k. elim (put_cases c.index n u (length c.graph.nodes) a h) [
          | inl (at, e) ↦ elim (put_cases c.index n v (length c.graph.nodes) a k) [
            | inl (here', _) ↦ sym at ∙ here'
            | inr old ↦ absurd (omega (arith, (i.only v a old).2, e))
          ]
          | inr old ↦ elim (put_cases c.index n v (length c.graph.nodes) a k) [
            | inl (_, e) ↦ absurd (omega (arith, (i.only u a old).2, e))
            | inr older ↦ i.apart u v a old older
          ]
        ];
        no_edges = i.no_edges;
        no_preds = i.no_preds;
        all_cold = λ a k h. elim (append_origin c.graph.nodes a (summary_node analysis m) k h) [
          | inl old ↦ i.all_cold a k old
          | inr new ↦ (
            sym (ap (λ (x : Node State). x.state) new.1),
            sym (ap (λ (x : Node State). x.block) new.1),
          )
        ];
      }

  -- The first loop of the copy.
  pub copy_nodes-IsIndexed :
      (n : ℕ)
      → IsIndexed n
          (each_node (copy_node analysis) pg n (record { graph = empty_graph; index = λ _. none }))
  copy_nodes-IsIndexed n =
      each_node_inv IsIndexed (copy_node analysis) pg skip-IsIndexed
        (λ k m c there i.
          subst (IsIndexed (suc k)) (sym (copy_node_lem k m c)) (copied-IsIndexed k m c there i))
        n (record { graph = empty_graph; index = λ _. none }) start-IsIndexed
