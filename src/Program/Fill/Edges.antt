-- ===== src/Program/Fill/Edges.antt =====
-- The edges of a machine function (`ProgramGraph::fillGraphWithFunction` of
-- lib/Graph/ProgramGraph.cpp).
use llta.Prelude.{
  All, Bool-cases, List, Option, [], ap, arith, if◌then◌else◌, inl, inr, refl, some, ℕ, ◌||◌, ◌∙◌,
  ◌∷◌, ◌≡◌,
}
use llta.Program.{ProgramGraph, and_then, modify}
use llta.Program.Built.{Built}
use llta.Program.Fill.{
  FunctionFacts, MachineBlock, add_back_pred, fill_edge, fill_edges, fill_targets, node_at,
}
use llta.Program.Fill.Link.{Adds, block_pair, link-Adds, target_pair, write-Adds}
use llta.Program.Wire.{HasNode}

module _ (map : ℕ → Option ℕ) where
  -- Every target has a node.
  abbrev pub AllThere : ProgramGraph → List ℕ → Type 0
  AllThere g ts = All (λ t. HasNode g (node_at map t)) ts

  AllThere-held :
      (g h : ProgramGraph) (ts : List ℕ)
      → ((id : ℕ) → HasNode g id → HasNode h id)
      → AllThere g ts
      → AllThere h ts
  AllThere-held g h [] kept all = tt
  AllThere-held g h (t ∷ ts) kept all =
      (kept (node_at map t) all.0, AllThere-held g h ts kept all.1)

  -- Every block and every target of one has a node.
  abbrev pub AllPlaced : ProgramGraph → List MachineBlock → Type 0
  AllPlaced g bs = All (λ b. HasNode g (node_at map b.key) × AllThere g b.targets_of) bs

  pub AllPlaced-held :
      (g h : ProgramGraph) (bs : List MachineBlock)
      → ((id : ℕ) → HasNode g id → HasNode h id)
      → AllPlaced g bs
      → AllPlaced h bs
  AllPlaced-held g h [] kept all = tt
  AllPlaced-held g h (b ∷ bs) kept all = (
    (kept (node_at map b.key) all.0.0, AllThere-held g h b.targets_of kept all.0.1),
    AllPlaced-held g h bs kept all.1,
  )

module _ (facts : FunctionFacts) (map : ℕ → Option ℕ) where
  fill_edge-Adds :
      (from : ℕ) (g : ProgramGraph) (t : ℕ)
      → Built g
      → HasNode g (node_at map from)
      → HasNode g (node_at map t)
      → (h : ProgramGraph) × (fill_edge facts map from g t ≡ some h)
        × Adds (target_pair map from (t ∷ [])) g h
  unfolding fill_edge
  fill_edge-Adds from g t b has_from has_to =
      let (m, made, a) = link-Adds g (node_at map from) (node_at map t) b has_from has_to in
      let rest : ProgramGraph → Option ProgramGraph = λ h.
        if facts.is_back from t || facts.is_irreducible from t
        then modify h (node_at map t) (add_back_pred (node_at map from))
        else some h in
      elim (Bool-cases (facts.is_back from t || facts.is_irreducible from t)) [
        | inr forward ↦ (
          m,
          ap (λ (o : Option ProgramGraph). and_then o rest) made ∙ rw forward refl,
          record {
            still_built = a.still_built;
            edges_now = λ u v. ground (arith, a.edges_now u v);
            nodes_held = a.nodes_held;
            costs_held = a.costs_held;
          },
        )
        | inl back ↦
            let (h, written, c) =
              write-Adds m (node_at map t) (add_back_pred (node_at map from)) a.still_built
                (a.nodes_held (node_at map t) has_to) (λ n. (refl, refl)) (λ n. refl) in
            (
              h,
              ap (λ (o : Option ProgramGraph). and_then o rest) made ∙ rw back written,
              record {
                still_built = c.still_built;
                edges_now = λ u v. ground (arith, a.edges_now u v, c.edges_now u v);
                nodes_held = λ id n. c.nodes_held id (a.nodes_held id n);
                costs_held = λ id. c.costs_held id ∙ a.costs_held id;
              },
            )
      ]

  fill_targets-Adds :
      (from : ℕ) (g : ProgramGraph) (ts : List ℕ)
      → Built g
      → HasNode g (node_at map from)
      → AllThere map g ts
      → (h : ProgramGraph) × (fill_targets facts map from g ts ≡ some h)
        × Adds (target_pair map from ts) g h
  unfolding fill_targets
  fill_targets-Adds from g [] b has all = (
    g,
    refl,
    record {
      still_built = b;
      edges_now = λ u v. refl;
      nodes_held = λ id n. n;
      costs_held = λ id. refl;
    },
  )
  fill_targets-Adds from g (t ∷ ts) b has all =
      let (m, made, a) = fill_edge-Adds from g t b has all.0 in
      let (h, rest, c) =
        fill_targets-Adds from m ts a.still_built (a.nodes_held (node_at map from) has)
          (AllThere-held map g m ts a.nodes_held all.1) in
      (
        h,
        ap (λ (o : Option ProgramGraph). and_then o (λ k. fill_targets facts map from k ts)) made
            ∙ rest,
        record {
          still_built = c.still_built;
          edges_now = λ u v. ground (arith, a.edges_now u v, c.edges_now u v);
          nodes_held = λ id n. c.nodes_held id (a.nodes_held id n);
          costs_held = λ id. c.costs_held id ∙ a.costs_held id;
        },
      )

  pub fill_edges-Adds :
      (g : ProgramGraph) (bs : List MachineBlock)
      → Built g
      → AllPlaced map g bs
      → (h : ProgramGraph) × (fill_edges facts map g bs ≡ some h) × Adds (block_pair map bs) g h
  unfolding fill_edges
  fill_edges-Adds g [] b all = (
    g,
    refl,
    record {
      still_built = b;
      edges_now = λ u v. refl;
      nodes_held = λ id n. n;
      costs_held = λ id. refl;
    },
  )
  fill_edges-Adds g (b ∷ bs) built all =
      let (m, made, a) = fill_targets-Adds b.key g b.targets_of built all.0.0 all.0.1 in
      let (h, rest, c) =
        fill_edges-Adds m bs a.still_built (AllPlaced-held map g m bs a.nodes_held all.1) in
      (
        h,
        ap (λ (o : Option ProgramGraph). and_then o (λ k. fill_edges facts map k bs)) made ∙ rest,
        record {
          still_built = c.still_built;
          edges_now = λ u v. ground (arith, a.edges_now u v, c.edges_now u v);
          nodes_held = λ id n. c.nodes_held id (a.nodes_held id n);
          costs_held = λ id. c.costs_held id ∙ a.costs_held id;
        },
      )
