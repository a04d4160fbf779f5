-- ===== src/Ilp/Count.antt =====
-- What a path through the graph makes of the columns (lib/ILP/AbstractHighsSolver.cpp).
use llta.Ilp.{
  Column, back_terms, edge_flow, gained, has_column, in_terms, lost, node_count, out_terms,
}
use llta.Prelude.{
  Bool-cases, List, [], arith, false, if◌then◌else◌, inl, inr, length, refl, suc, true, ℕ, ◌&&◌,
  ◌+◌, ◌<◌, ◌==◌, ◌∷◌, ◌≡◌,
}
use llta.Solver.Graph.{AbstractStateGraph, Edge, mem_edge}

-- How often a path comes to a node.
abbrev pub visits : ℕ → List ℕ → ℕ
visits u [] = 0
visits u (v ∷ vs) = let rest = visits u vs in if v == u then suc rest else rest

-- How often a path goes from one node straight to another.
abbrev pub crossings : ℕ → ℕ → List ℕ → ℕ
crossings u v [] = 0
crossings u v (a ∷ []) = 0
crossings u v (a ∷ b ∷ path) =
    let rest = crossings u v (b ∷ path) in if (a == u) && (b == v) then suc rest else rest

abbrev pub counts : List ℕ → Column → ℕ
counts path (node_count u) = visits u path
counts path (edge_flow u v) = crossings u v path

-- What the sum of a column over a list of sources or of targets adds up to.
abbrev pub sum_from : ℕ → List ℕ → List ℕ → ℕ
sum_from v [] path = 0
sum_from v (p ∷ ps) path = crossings p v path + sum_from v ps path

abbrev pub sum_to : ℕ → List Edge → List ℕ → ℕ
sum_to u [] path = 0
sum_to u (e ∷ es) path = crossings u e.to path + sum_to u es path

module _ {State : Type 0} where
  -- A path along the edges of the graph.
  abbrev pub IsPath : AbstractStateGraph State → List ℕ → Type 0
  IsPath g [] = Unit
  IsPath g (u ∷ []) = u < length g.nodes
  IsPath g (u ∷ v ∷ path) =
      (u < length g.nodes) × (mem_edge v (g.adjacency u) ≡ true) × IsPath g (v ∷ path)

  -- A pair without a column is never crossed.
  pub crossings_no_column :
      (g : AbstractStateGraph State) (u v : ℕ) (path : List ℕ)
      → IsPath g path
      → has_column g u v ≡ false
      → crossings u v path ≡ 0
  unfolding has_column
  crossings_no_column g u v [] walk gone = refl
  crossings_no_column g u v (a ∷ []) walk gone = refl
  crossings_no_column g u v (a ∷ b ∷ path) walk gone =
      ground (arith, crossings_no_column g u v (b ∷ path))

  pub lost-in_terms :
      (g : AbstractStateGraph State) (u : ℕ) (ps : List ℕ) (path : List ℕ)
      → IsPath g path
      → lost (counts path) (in_terms g u ps) ≡ sum_from u ps path
  unfolding lost in_terms
  lost-in_terms g u [] path walk = refl
  lost-in_terms g u (p ∷ ps) path walk = elim (Bool-cases (has_column g p u)) [
    | inl there ↦ rw (there, lost) (ground (arith, lost-in_terms g u ps path walk))
    | inr gone ↦
        rw gone
          (ground (arith, lost-in_terms g u ps path walk, crossings_no_column g p u path walk gone))
  ]

  pub lost-out_terms :
      (g : AbstractStateGraph State) (u : ℕ) (es : List Edge) (path : List ℕ)
      → IsPath g path
      → lost (counts path) (out_terms g u es) ≡ sum_to u es path
  unfolding lost out_terms
  lost-out_terms g u [] path walk = refl
  lost-out_terms g u (e ∷ es) path walk = elim (Bool-cases (has_column g u e.to)) [
    | inl there ↦ rw (there, lost) (ground (arith, lost-out_terms g u es path walk))
    | inr gone ↦ rw gone (
        ground
          (arith, lost-out_terms g u es path walk, crossings_no_column g u e.to path walk gone))
  ]

  pub gained-in_terms :
      (g : AbstractStateGraph State) (u : ℕ) (ps : List ℕ) (x : Column → ℕ)
      → gained x (in_terms g u ps) ≡ 0
  unfolding gained in_terms
  gained-in_terms g u [] x = refl
  gained-in_terms g u (p ∷ ps) x = ground (arith, gained-in_terms g u ps x)

  pub gained-out_terms :
      (g : AbstractStateGraph State) (u : ℕ) (es : List Edge) (x : Column → ℕ)
      → gained x (out_terms g u es) ≡ 0
  unfolding gained out_terms
  gained-out_terms g u [] x = refl
  gained-out_terms g u (e ∷ es) x = ground (arith, gained-out_terms g u es x)

  pub gained-back_terms :
      (g : AbstractStateGraph State) (u bound : ℕ) (ps : List ℕ) (x : Column → ℕ)
      → gained x (back_terms g u bound ps) ≡ 0
  unfolding gained back_terms
  gained-back_terms g u bound [] x = refl
  gained-back_terms g u bound (p ∷ ps) x = ground (arith, gained-back_terms g u bound ps x)
