-- ===== src/Solver/FromProgram/Edges.antt =====
-- The edges that the copy of a program graph makes (`initializeGraph(PG)` of
-- lib/Analysis/WorklistSolver.cpp).
use llta.Cache.Policy.Unknown.{meet}
use llta.Prelude.{
  ==_iff, All, Bool-cases, List, Option, Option-cases, [], ap, arith, false, inl, inr, ltb, none,
  refl, some, subst, suc, sym, true, ℕ, ◌&&◌, ◌==◌, ◌||◌, ◌∙◌, ◌∷◌, ◌≡◌, ◌⊎◌,
}
use llta.Program.{ProgramGraph, ProgramNode, has_edge}
use llta.Program.Detach.Pruned.{edges_of}
use llta.Solver.Analysable.{AbstractAnalysable}
use llta.Solver.FromProgram.{copy_edges, copy_node_edges, each_node, is_back_pred}
use llta.Solver.FromProgram.Each.{each_node_inv}
use llta.Solver.Graph.{
  AbstractStateGraph, Edge, IsConsistent, Node, add_edge, insert_edge, mem_edge, mem_id,
}
use llta.Solver.Graph.Edges.{add_edge-IsConsistent, mem_edge-add_edge}

All-insert_edge :
    (P : Edge → Type 0) (e : Edge) (es : List Edge) → P e → All P es → All P (insert_edge e es)
unfolding insert_edge
All-insert_edge P e [] h all = (h, tt)
All-insert_edge P e (f ∷ es) h all = elim (Bool-cases (e.to == f.to)) [
  | inl same ↦ rw same all
  | inr other ↦ elim (Bool-cases (ltb e.to f.to)) [
    | inl before ↦ rw (other, before) (h, all)
    | inr after ↦ rw (other, after) (all.0, All-insert_edge P e es h all.1)
  ]
]

no_node_edges : (pg : ProgramGraph) (k v : ℕ) → pg.nodes k ≡ none → has_edge pg k v ≡ false
unfolding has_edge
no_node_edges pg k v gone = rw (gone, has_edge) refl

-- The flag of an edge tells whether its target counts its source among the back edge predecessors.
abbrev pub HasFlags : ProgramGraph → (ℕ → Option ℕ) → (ℕ → List Edge) → Type 0
HasFlags pg index adjacency =
    (a : ℕ)
    → All
        (λ e.
          (u v : ℕ) → index u ≡ some a → index v ≡ some e.to → e.is_back_edge ≡ is_back_pred pg u v)
        (adjacency a)

module _ (analysis : AbstractAnalysable) (pg : ProgramGraph) (index : ℕ → Option ℕ)
    (apart : (u v a : ℕ) → index u ≡ some a → index v ≡ some a → u ≡ v) where
  open analysis use {State}

  same_target :
      (succ v b b' : ℕ) → index succ ≡ some b → index v ≡ some b' → (b == b') ≡ (succ == v)
  same_target succ v b b' at there = elim (Bool-cases (succ == v)) [
    | inl same ↦
        let e : some b ≡ some b' = sym at ∙ ap index ((==_iff succ v).0 same) ∙ there in
        let e' : b ≡ b' = cc in rw same ((==_iff b b').1 e')
    | inr other ↦ elim (Bool-cases (b == b')) [
      | inl meet ↦
          let e : succ ≡ v =
            apart succ v b at (there ∙ ap (λ (k : ℕ). some k) (sym ((==_iff b b').0 meet))) in
          let e' = (==_iff succ v).1 e in absurd (ground (arith, e', other))
      | inr differ ↦ differ ∙ sym other
    ]
  ]

  -- What the edges of one node add.
  pub record IsCopied (id a : ℕ) (succs : List ℕ) (g h : AbstractStateGraph State) : Type 0 where
    pub same_nodes : h.nodes ≡ g.nodes
    pub linked :
        (a' v b : ℕ)
        → index v ≡ some b
        → mem_edge b (h.adjacency a') ≡ ((a == a') && mem_id v succs || mem_edge b (g.adjacency a'))
    pub known :
        (a' b : ℕ)
        → mem_edge b (h.adjacency a') ≡ true
        → (mem_edge b (g.adjacency a') ≡ true) ⊎ ((a ≡ a') × ((v : ℕ) × (index v ≡ some b)))
    pub flags : HasFlags pg index g.adjacency → HasFlags pg index h.adjacency
    pub agree : IsConsistent g → IsConsistent h

  add_edge-HasFlags :
      (id a succ b : ℕ) (g : AbstractStateGraph State)
      → index id ≡ some a
      → index succ ≡ some b
      → HasFlags pg index g.adjacency
      → HasFlags pg index (add_edge g a b (is_back_pred pg id succ)).adjacency
  unfolding add_edge
  add_edge-HasFlags id a succ b g here at f a' = elim (Bool-cases (a == a')) [
    | inr other ↦ rw other (f a')
    | inl same ↦ rw same (
        All-insert_edge
          (λ e.
            (u v : ℕ)
            → index u ≡ some a'
            → index v ≡ some e.to
            → e.is_back_edge ≡ is_back_pred pg u v)
          (record { to = b; is_back_edge = is_back_pred pg id succ }) (g.adjacency a)
          (λ u v at_u at_v.
            let u' : u ≡ id =
              apart u id a' at_u (here ∙ ap (λ (k : ℕ). some k) ((==_iff a a').0 same)) in
            let v' : v ≡ succ = apart v succ b at_v at in rw (u', v') refl)
          (subst
            (λ (k : ℕ).
              All
                (λ e.
                  (u v : ℕ)
                  → index u ≡ some k
                  → index v ≡ some e.to
                  → e.is_back_edge ≡ is_back_pred pg u v)
                (g.adjacency a))
            ((==_iff a a').0 same) (f a)))
  ]

  pub copy_edges-IsCopied :
      (id a : ℕ) (succs : List ℕ) (g : AbstractStateGraph State)
      → index id ≡ some a
      → IsCopied id a succs g (copy_edges analysis pg index id a succs g)
  unfolding copy_edges mem_id
  copy_edges-IsCopied id a [] g here = record {
    same_nodes = refl;
    linked = λ a' v b at. ground arith;
    known = λ a' b h. inl h;
    flags = λ f. f;
    agree = λ c. c;
  }
  copy_edges-IsCopied id a (succ ∷ succs) g here = elim (Option-cases (index succ)) [
    | inl gone ↦
        let rest = copy_edges-IsCopied id a succs g here in
        rw (gone, copy_edges)
          (record {
            same_nodes = rest.same_nodes;
            linked = λ a' v b at. elim (Bool-cases (succ == v)) [
              | inl same ↦
                  let e : none ≡ some b = sym gone ∙ ap index ((==_iff succ v).0 same) ∙ at in
                  absurd (cc)
              | inr other ↦ ground (arith, rest.linked a' v b at, other)
            ];
            known = rest.known;
            flags = rest.flags;
            agree = rest.agree;
          })
    | inr (b, at) ↦
        let h = add_edge g a b (is_back_pred pg id succ) in
        let rest = copy_edges-IsCopied id a succs h here in
        let edge = mem_edge-add_edge g a b (is_back_pred pg id succ) in
        rw (at, copy_edges)
          (record {
            same_nodes = rest.same_nodes ∙ unfold add_edge in refl;
            linked = λ a' v b' there.
                ground
                  (arith, rest.linked a' v b' there, edge a' b', same_target succ v b b' at there);
            known = λ a' b' m. elim (rest.known a' b' m) [
              | inr new ↦ inr new
              | inl old ↦ elim (Bool-cases ((a == a') && (b == b'))) [
                | inl both ↦
                    let one : (a == a') ≡ true = ground (arith, both) in
                    let two : (b == b') ≡ true = ground (arith, both) in
                    inr (
                      (==_iff a a').0 one,
                      (succ, at ∙ ap (λ (k : ℕ). some k) ((==_iff b b').0 two)),
                    )
                | inr apart' ↦ inl (sym (edge a' b' ∙ rw apart' refl) ∙ old)
              ]
            ];
            flags = λ f. rest.flags (add_edge-HasFlags id a succ b g here at f);
            agree = λ c. rest.agree (add_edge-IsConsistent g a b (is_back_pred pg id succ) c);
          })
  ]

  -- After the nodes below `n`: the edges from them are there, and no other.
  pub record IsWired (nodes : List (Node State)) (n : ℕ) (g : AbstractStateGraph State)
      : Type 0 where
    pub kept : g.nodes ≡ nodes
    pub wired :
        (u v a b : ℕ)
        → index u ≡ some a
        → index v ≡ some b
        → mem_edge b (g.adjacency a) ≡ (ltb u n && has_edge pg u v)
    pub images :
        (a b : ℕ)
        → mem_edge b (g.adjacency a) ≡ true
        → ((u : ℕ) × (index u ≡ some a)) × ((v : ℕ) × (index v ≡ some b))
    pub flagged : HasFlags pg index g.adjacency
    pub agreeing : IsConsistent g

  skip-IsWired :
      (nodes : List (Node State)) (n : ℕ) (g : AbstractStateGraph State)
      → ((v : ℕ) → has_edge pg n v ≡ false)
      → IsWired nodes n g
      → IsWired nodes (suc n) g
  skip-IsWired nodes n g none_out i = record {
    kept = i.kept;
    wired = λ u v a b at there.
        let before = i.wired u v a b at there in
        let here : (n == u) ≡ true → has_edge pg u v ≡ false =
          λ e. rw (← (==_iff n u).0 e) (none_out v) in
        ground (arith, before, here);
    images = i.images;
    flagged = i.flagged;
    agreeing = i.agreeing;
  }

  keep-IsWired :
      (nodes : List (Node State)) (n a : ℕ) (m : ProgramNode) (g : AbstractStateGraph State)
      → pg.nodes n ≡ some m
      → index n ≡ some a
      → IsWired nodes n g
      → IsWired nodes (suc n) (copy_edges analysis pg index n a m.successors g)
  keep-IsWired nodes n a m g there here i =
      let c = copy_edges-IsCopied n a m.successors g here in
      record {
        kept = c.same_nodes ∙ i.kept;
        wired = λ u v a' b at_u at_v.
            let after = c.linked a' v b at_v in
            let before = i.wired u v a' b at_u at_v in
            let same = same_target n u a a' here at_u in
            let edges : (n == u) ≡ true → has_edge pg u v ≡ mem_id v m.successors =
              λ e. rw (← (==_iff n u).0 e) (edges_of pg n v m there) in
            ground (arith, after, before, same, edges);
        images = λ a' b e. elim (c.known a' b e) [
          | inl old ↦ i.images a' b old
          | inr (same, target) ↦ ((n, here ∙ ap (λ (k : ℕ). some k) same), target)
        ];
        flagged = c.flags i.flagged;
        agreeing = c.agree i.agreeing;
      }

  -- The second loop of the copy.
  pub copy_all-IsWired :
      (g : AbstractStateGraph State) (n : ℕ)
      → ((id : ℕ) (m : ProgramNode) → pg.nodes id ≡ some m → (a : ℕ) × (index id ≡ some a))
      → ((a : ℕ) → g.adjacency a ≡ [])
      → ((a : ℕ) → g.preds a ≡ [])
      → IsWired g.nodes n (each_node (copy_node_edges analysis pg index) pg n g)
  unfolding copy_node_edges mem_edge mem_id
  copy_all-IsWired g n at none_out none_in =
      each_node_inv (IsWired g.nodes) (copy_node_edges analysis pg index) pg
        (λ k h gone i. skip-IsWired g.nodes k h (λ v. no_node_edges pg k v gone) i)
        (λ k m h there i.
          let (a, here) = at k m there in
          rw (here, copy_node_edges) (keep-IsWired g.nodes k a m h there here i))
        n g
        (record {
          kept = refl;
          wired = λ u v a b at_u at_v. rw (none_out a) (ground arith);
          images = λ a b h. let e : false ≡ true = sym (rw (none_out a) refl) ∙ h in absurd (cc);
          flagged = λ a. rw (none_out a) tt;
          agreeing = λ u v. rw (none_out u, none_in v) refl;
        })
