-- ===== src/Loops/Back/Total.antt =====
-- The search of `findBackEdges` ends and cuts every cycle
-- (lib/MIRPasses/MachineLoopBoundAgregatorPass.cpp).
use llta.Loops.{Cfg}
use llta.Loops.Back.{
  BackSearch, Color, black, find_back_edges, follow, gray, insert_pair, mem_pair, search_back,
  white,
}
use llta.Loops.Back.Cost.{
  StackBelow, edge_cost, stack_cost, white_cost, white_cost-put, white_cost-put_le,
  white_cost-start,
}
use llta.Loops.Back.Marks.{is_black, is_white}
use llta.Loops.Back.Order.{
  IsOrdered, close-IsOrdered, leave-IsOrdered, pass-IsOrdered, push-IsOrdered, start-IsOrdered,
}
use llta.Loops.Collect.{Steps, more_steps, one_step}
use llta.Prelude.{
  Bool-cases, List, Option, [], ap, arith, false, inl, inr, refl, some, subst, suc, true, zero, ℕ,
  ◌+◌, ◌<◌, ◌∙◌, ◌∷◌, ◌≡◌, ◌≤◌, ◌⊎◌,
}
use llta.Program.Prune.Fuel.{AllBelow}
use llta.Solver.Graph.{mem_id, put}

Color-cases : (c : Color) → (c ≡ white) ⊎ ((c ≡ gray) ⊎ (c ≡ black))
Color-cases white = inl refl
Color-cases gray = inr (inl refl)
Color-cases black = inr (inr refl)

module _ (succs : ℕ → List ℕ) where
  -- The search goes on from the state that `follow` gives.
  go_on : ℕ → BackSearch → Option BackSearch
  go_on fuel s = search_back fuel succs s.colors s.stack s.back

  follow_white :
      (fuel : ℕ) (cs : ℕ → Color) (b t : ℕ) (ts : List ℕ) (st : List (ℕ × List ℕ))
      → (es : List (ℕ × ℕ)) → cs t ≡ white
      → search_back (suc fuel) succs cs ((b, t ∷ ts) ∷ st) es
        ≡ search_back fuel succs (put cs t gray) ((t, succs t) ∷ (b, ts) ∷ st) es
  unfolding search_back go_on follow
  follow_white fuel cs b t ts st es here =
      let next : follow succs (record { colors = cs; stack = []; back = es }) b t ts st
          ≡ record { colors = put cs t gray; stack = (t, succs t) ∷ (b, ts) ∷ st; back = es } =
        rw (here, follow) refl in
      ap (go_on fuel) next

  follow_gray :
      (fuel : ℕ) (cs : ℕ → Color) (b t : ℕ) (ts : List ℕ) (st : List (ℕ × List ℕ))
      → (es : List (ℕ × ℕ)) → cs t ≡ gray
      → search_back (suc fuel) succs cs ((b, t ∷ ts) ∷ st) es
        ≡ search_back fuel succs cs ((b, ts) ∷ st) (insert_pair b t es)
  unfolding search_back go_on follow
  follow_gray fuel cs b t ts st es here =
      let next : follow succs (record { colors = cs; stack = []; back = es }) b t ts st
          ≡ record { colors = cs; stack = (b, ts) ∷ st; back = insert_pair b t es } =
        rw (here, follow) refl in
      ap (go_on fuel) next

  follow_black :
      (fuel : ℕ) (cs : ℕ → Color) (b t : ℕ) (ts : List ℕ) (st : List (ℕ × List ℕ))
      → (es : List (ℕ × ℕ)) → cs t ≡ black
      → search_back (suc fuel) succs cs ((b, t ∷ ts) ∷ st) es
        ≡ search_back fuel succs cs ((b, ts) ∷ st) es
  unfolding search_back go_on follow
  follow_black fuel cs b t ts st es here =
      let next : follow succs (record { colors = cs; stack = []; back = es }) b t ts st
          ≡ record { colors = cs; stack = (b, ts) ∷ st; back = es } =
        rw (here, follow) refl in
      ap (go_on fuel) next

  -- The end of a search, with its order.
  Ends : Option BackSearch → Type 0
  Ends o =
      (s : BackSearch) × (o ≡ some s)
      × ((rank : ℕ → ℕ) × ((n : ℕ) × IsOrdered succs s.colors [] s.back rank n))

  search_back-total :
      (size : ℕ)
      → ((b : ℕ) → b < size → AllBelow size (succs b))
      → (fuel : ℕ) (cs : ℕ → Color) (st : List (ℕ × List ℕ)) (es : List (ℕ × ℕ))
      → (rank : ℕ → ℕ) (n : ℕ) → StackBelow size st
      → stack_cost st + white_cost cs succs size ≤ fuel
      → IsOrdered succs cs st es rank n
      → Ends (search_back fuel succs cs st es)
  unfolding search_back Ends
  search_back-total size small fuel cs [] es rank n all h i =
      (record { colors = cs; stack = []; back = es }, refl, (rank, (n, i)))
  search_back-total size small zero cs (x ∷ st) es rank n all h i = absurd (omega arith)
  search_back-total size small (suc fuel) cs ((b, []) ∷ st) es rank n all h i =
      search_back-total size small fuel (put cs b black) st es (put rank b n) (suc n) all.1
        (omega (arith, white_cost-put_le cs succs b size black refl))
        (leave-IsOrdered succs cs b st es rank n i)
  search_back-total size small (suc fuel) cs ((b, t ∷ ts) ∷ st) es rank n all h i =
      elim (Color-cases (cs t)) [
        | inl fresh ↦
            let w : is_white (cs t) ≡ true = rw fresh refl in
            let (s, e, o) =
              search_back-total size small fuel (put cs t gray) ((t, succs t) ∷ (b, ts) ∷ st) es
                rank n (small t all.0.0, (all.0.1, all.1))
                (omega (arith, white_cost-put cs succs t size gray refl all.0.0 w))
                (push-IsOrdered succs cs b t ts st es rank n w i) in
            (s, follow_white fuel cs b t ts st es fresh ∙ e, o)
        | inr (inl waiting) ↦
            let (s, e, o) =
              search_back-total size small fuel cs ((b, ts) ∷ st) (insert_pair b t es) rank n
                (all.0.1, all.1) (omega arith)
                (close-IsOrdered succs cs b t ts st es rank n (rw waiting refl) i) in
            (s, follow_gray fuel cs b t ts st es waiting ∙ e, o)
        | inr (inr done) ↦
            let (s, e, o) =
              search_back-total size small fuel cs ((b, ts) ∷ st) es rank n (all.0.1, all.1)
                (omega arith) (pass-IsOrdered succs cs b t ts st es rank n (rw done refl) i) in
            (s, follow_black fuel cs b t ts st es done ∙ e, o)
      ]

  module _ (cs : ℕ → Color) (es : List (ℕ × ℕ)) (rank : ℕ → ℕ) (n : ℕ) where
    met_black :
        IsOrdered succs cs [] es rank n → (u : ℕ) → is_white (cs u) ≡ false → is_black (cs u) ≡ true
    met_black i u h = ground (arith, i.grays u, h)

    -- All that the entry reaches is left in the end.
    Steps-black :
        IsOrdered succs cs [] es rank n → (u : ℕ) → Steps succs 0 u → is_black (cs u) ≡ true
    Steps-black i u (one_step edge) =
        met_black i u (ground (arith, i.out 0 u (met_black i 0 i.entry_met) edge, i.back_met 0 u))
    Steps-black i u (more_steps {mid} path edge) =
        met_black i u (ground (arith, i.out mid u (Steps-black i mid path) edge, i.back_met mid u))

-- On a control flow graph with a block, whose edges go to its blocks, the search ends within one
-- round for each block and each edge. Every edge that it returns closes a cycle: its target is its
-- source or reaches it. And the edges cut every cycle that the entry reaches: there is a rank of the
-- blocks that every other edge from a block that is reached lowers.
pub find_back_edges_lem :
    (f : Cfg)
    → 0 < f.size
    → ((b : ℕ) → b < f.size → AllBelow f.size (f.succs_of b))
    → (es : List (ℕ × ℕ)) × (find_back_edges (edge_cost f.succs_of f.size) f ≡ some es)
      × ((u v : ℕ) → mem_pair u v es ≡ true → (v ≡ u) ⊎ Steps f.succs_of v u)
      × ((rank : ℕ → ℕ) × ((u v : ℕ)
            → (0 ≡ u) ⊎ Steps f.succs_of 0 u
            → mem_id v (f.succs_of u) ≡ true
            → (mem_pair u v es ≡ true) ⊎ (rank v < rank u)))
unfolding find_back_edges Ends
find_back_edges_lem f some_block small =
    let (s, found, (rank, (n, i))) =
      search_back-total f.succs_of f.size small (edge_cost f.succs_of f.size)
        (put (λ _. white) 0 gray) ((0, f.succs_of 0) ∷ []) [] (λ _. 0) 0 (small 0 some_block, tt)
        (omega (
          arith,
          white_cost-put (λ _. white) f.succs_of 0 f.size gray refl some_block refl,
          white_cost-start f.succs_of f.size,
        ))
        (start-IsOrdered f.succs_of) in
    let left : (u : ℕ) → (0 ≡ u) ⊎ Steps f.succs_of 0 u → is_black (s.colors u) ≡ true = λ u h.
      elim h [
        | inl at ↦
            subst (λ (j : ℕ). is_black (s.colors j) ≡ true) at
              (met_black f.succs_of s.colors s.back rank n i 0 i.entry_met)
        | inr path ↦ Steps-black f.succs_of s.colors s.back rank n i u path
      ] in
    (
      s.back,
      rw (found, find_back_edges) refl,
      i.closing,
      (
        rank,
        λ u v h m. elim (Bool-cases (mem_pair u v s.back)) [
          | inl closing ↦ inl closing
          | inr other ↦ let lower = i.out u v (left u h) m in inr (ground (arith, lower, other))
        ],
      ),
    )
