-- ===== src/Program/Cycles/Cut.antt =====
-- The calls that `findSCCBackEdges` returns cut every cycle (lib/Graph/ProgramGraph.cpp).
use llta.Loops.Back.{Color, black, gray, insert_pair, mem_pair, white}
use llta.Loops.Back.Marks.{is_black, is_gray, is_white, mem_pair-insert_pair, white_not_gray}
use llta.Prelude.{
  ==_iff, Bool-cases, List, Option, [], ap, arith, false, inl, inr, length, ltb, none, refl, some,
  subst, suc, true, zero, ℕ, ◌==◌, ◌||◌, ◌∙◌, ◌∷◌, ◌≡◌, ◌≤◌,
}
use llta.Program.Cycles.Colors.{
  Chain, ClosesCycle, Handled, HasCut, IsGrown, IsGrown-refl, IsGrown-trans, black-HasCut,
  chain_call, chain_start, close-HasCut, gray-HasCut, white_not_black, whites_in, whites_in_le,
  whites_in_less, whites_in_most,
}
use llta.Program.Cycles.Search.{
  CallSearch, dfs, dfs_callee, dfs_callees, dfs_root, dfs_roots, find_scc_back_edges, paint,
  then_search,
}
use llta.Solver.Graph.{mem_id, put}

module _ (scc : List ℕ) (next : ℕ → List ℕ) where
  -- What a search from a white function gives.
  abbrev Searched : (CallSearch → Option CallSearch) → ℕ → CallSearch → Type 0
  Searched search f s =
      (t : CallSearch) × (search s ≡ some t)
      × IsGrown scc next s t
      × HasCut scc next t
      × (is_black (t.color f) ≡ true)

  -- Every function that is being searched leads to the one at hand.
  abbrev AllLead : CallSearch → ℕ → Type 0
  AllLead s f = (u : ℕ) → is_gray (s.color u) ≡ true → Chain scc next u f

  abbrev Searches : (ℕ → CallSearch → Option CallSearch) → ℕ → Type 0
  Searches deeper fuel =
      (f : ℕ) (s : CallSearch)
      → is_white (s.color f) ≡ true
      → mem_id f scc ≡ true
      → AllLead s f
      → HasCut scc next s
      → whites_in s.color scc ≤ fuel
      → Searched (deeper f) f s

  dfs_callee_lem :
      (deeper : ℕ → CallSearch → Option CallSearch) (fuel f g : ℕ) (s : CallSearch)
      → Searches deeper fuel
      → mem_id f scc ≡ true
      → mem_id g (next f) ≡ true
      → AllLead s f
      → HasCut scc next s
      → whites_in s.color scc ≤ fuel
      → (t : CallSearch) × (dfs_callee deeper scc f g s ≡ some t)
        × IsGrown scc next s t
        × HasCut scc next t
        × (mem_id g scc ≡ true → Handled scc next f g t)
  unfolding dfs_callee
  dfs_callee_lem deeper fuel f g s search m edge led cut enough = elim (Bool-cases (mem_id g scc)) [
    | inr outside ↦
        (s, rw (outside, dfs_callee) refl, IsGrown-refl scc next s, cut, λ h. absurd (cc))
    | inl here ↦ by_color (s.color g) refl here
  ]
    where
      by_color :
          (c : Color)
          → s.color g ≡ c
          → mem_id g scc ≡ true
          → (t : CallSearch) × (dfs_callee deeper scc f g s ≡ some t)
            × IsGrown scc next s t
            × HasCut scc next t
            × (mem_id g scc ≡ true → Handled scc next f g t)
      by_color white e here =
          let (t, found, grown, more, done) =
            search g s (rw e refl) here (λ u h. chain_call (led u h) edge here) cut enough in
          (t, rw (here, e, dfs_callee) found, grown, more, λ _. ground (arith, done))
      by_color gray e here = (
        record s { closing_calls = insert_pair f g s.closing_calls },
        rw (here, e, dfs_callee) refl,
        record {
          grays = λ u h. h;
          old_grays = λ u h. h;
          blacks = λ u h. h;
          whites = λ u h. h;
          pairs = λ u v h. ground (arith, mem_pair-insert_pair u v f g s.closing_calls, h);
        },
        close-HasCut scc next f g s
            (record {
              caller_in = m;
              callee_in = here;
              is_call = edge;
              leads_back = led g (rw e refl);
            })
            cut,
        λ _.
            let one = (==_iff f f).1 refl in
            let two = (==_iff g g).1 refl in
            ground (arith, mem_pair-insert_pair f g f g s.closing_calls, one, two),
      )
      by_color black e here =
          let b : is_black (s.color g) ≡ true = rw e refl in
          (s, rw (here, e, dfs_callee) refl, IsGrown-refl scc next s, cut, λ _. ground (arith, b))

  dfs_callees_lem :
      (deeper : ℕ → CallSearch → Option CallSearch) (fuel f : ℕ) (gs : List ℕ) (s : CallSearch)
      → Searches deeper fuel
      → mem_id f scc ≡ true
      → ((v : ℕ) → mem_id v gs ≡ true → mem_id v (next f) ≡ true)
      → AllLead s f
      → HasCut scc next s
      → whites_in s.color scc ≤ fuel
      → (t : CallSearch) × (dfs_callees deeper scc f gs s ≡ some t)
        × IsGrown scc next s t
        × HasCut scc next t
        × ((v : ℕ) → mem_id v gs ≡ true → mem_id v scc ≡ true → Handled scc next f v t)
  unfolding dfs_callees mem_id
  dfs_callees_lem deeper fuel f [] s search m edges led cut enough =
      (s, refl, IsGrown-refl scc next s, cut, λ v h. absurd (cc))
  dfs_callees_lem deeper fuel f (g ∷ gs) s search in_it edges led cut enough =
      let (m, first, a, cut', done) =
        dfs_callee_lem deeper fuel f g s search in_it (edges g (rw ((==_iff g g).1 refl) refl)) led
          cut enough in
      let (t, rest, b, cut_end, all) =
        dfs_callees_lem deeper fuel f gs m search in_it (λ v h. edges v (ground (arith, h)))
          (λ u h. led u (a.old_grays u h)) cut'
          (omega (arith, enough, whites_in_le s.color m.color scc a.whites)) in
      (
        t,
        ap (λ (o : Option CallSearch). then_search o (dfs_callees deeper scc f gs)) first ∙ rest,
        IsGrown-trans scc next s m t a b,
        cut_end,
        λ v h i. elim (Bool-cases (g == v)) [
          | inr apart ↦ all v (ground (arith, h, apart)) i
          | inl same ↦
              let at : g ≡ v = (==_iff g v).0 same in
              let was = done (rw at i) in
              let now : Handled scc next f g t = ground (arith, was, b.pairs f g, b.blacks g) in
              subst (λ (j : ℕ). Handled scc next f j t) at now
        ],
      )

  dfs-Searches : (fuel : ℕ) → Searches (dfs fuel scc next) fuel
  unfolding dfs
  dfs-Searches zero f s w m led cut enough =
      let less =
        whites_in_less s.color (put s.color f black) f scc (λ u h. ground (arith, h)) m w
          (rw ((==_iff f f).1 refl) refl) in
      absurd (omega (arith, less, enough))
  dfs-Searches (suc fuel) f s w m led cut enough =
      let s1 = paint gray f s in
      let here : (f == f) ≡ true = (==_iff f f).1 refl in
      let fewer : (u : ℕ) → is_white (s1.color u) ≡ true → is_white (s.color u) ≡ true =
        λ u h. ground (arith, h) in
      let less = whites_in_less s.color s1.color f scc fewer m w (rw here refl) in
      let led1 : AllLead s1 f = λ u h. elim (Bool-cases (f == u)) [
        | inl same ↦ subst (λ (j : ℕ). Chain scc next j f) ((==_iff f u).0 same) chain_start
        | inr apart ↦ led u (ground (arith, apart, h))
      ] in
      let (t, found, a, cut', all) =
        dfs_callees_lem (dfs fuel scc next) fuel f (next f) s1 (dfs-Searches fuel) m (λ v h. h) led1
          (gray-HasCut scc next f s w cut) (omega (arith, less, enough)) in
      let still_gray : is_gray (t.color f) ≡ true = a.grays f (rw here refl) in
      let self : (u : ℕ) → (f == u) ≡ true → s.color f ≡ s.color u =
        λ u e. ap s.color ((==_iff f u).0 e) in
      let no_gray = white_not_gray (s.color f) w in
      let no_black = white_not_black (s.color f) w in
      (
        paint black f t,
        rw (found, dfs) refl,
        record {
          grays = λ u h. ground (arith, a.grays u, self u, no_gray, h);
          old_grays = λ u h. ground (arith, a.old_grays u, h);
          blacks = λ u h. ground (arith, a.blacks u, self u, no_black, h);
          whites = λ u h. ground (arith, a.whites u, h);
          pairs = a.pairs;
        },
        black-HasCut scc next f t still_gray all cut',
        rw here refl,
      )

  NoGray : CallSearch → Type 0
  NoGray s = (u : ℕ) → is_gray (s.color u) ≡ false

  dfs_root_lem :
      (fuel f : ℕ) (s : CallSearch)
      → mem_id f scc ≡ true
      → NoGray s
      → HasCut scc next s
      → whites_in s.color scc ≤ fuel
      → Searched (dfs_root fuel scc next f) f s
  unfolding dfs_root NoGray
  dfs_root_lem fuel f s m clear cut enough = by_color (s.color f) refl
    where
      by_color : (c : Color) → s.color f ≡ c → Searched (dfs_root fuel scc next f) f s
      by_color white e =
          let (t, found, a, cut', done) =
            dfs-Searches fuel f s (rw e refl) m (λ u h. let off = clear u in absurd (cc)) cut
              enough in
          (t, rw (e, dfs_root) found, a, cut', done)
      by_color gray e =
          let g : is_gray (s.color f) ≡ true = rw e refl in let off = clear f in absurd (cc)
      by_color black e = (s, rw (e, dfs_root) refl, IsGrown-refl scc next s, cut, rw e refl)

  NoGray-grown : (s t : CallSearch) → IsGrown scc next s t → NoGray s → NoGray t
  unfolding NoGray
  NoGray-grown s t a clear u = elim (Bool-cases (is_gray (t.color u))) [
    | inl g ↦ let was = a.old_grays u g in let off = clear u in absurd (cc)
    | inr off ↦ off
  ]

  dfs_roots_lem :
      (fuel : ℕ) (fs : List ℕ) (s : CallSearch)
      → ((v : ℕ) → mem_id v fs ≡ true → mem_id v scc ≡ true)
      → NoGray s
      → HasCut scc next s
      → whites_in s.color scc ≤ fuel
      → (t : CallSearch) × (dfs_roots fuel scc next fs s ≡ some t)
        × IsGrown scc next s t
        × HasCut scc next t
        × ((v : ℕ) → mem_id v fs ≡ true → is_black (t.color v) ≡ true)
  unfolding dfs_roots mem_id
  dfs_roots_lem fuel [] s within clear cut enough =
      (s, refl, IsGrown-refl scc next s, cut, λ v h. absurd (cc))
  dfs_roots_lem fuel (f ∷ fs) s within clear cut enough =
      let here : (f == f) ≡ true = (==_iff f f).1 refl in
      let (m, first, a, cut', done) =
        dfs_root_lem fuel f s (within f (rw here refl)) clear cut enough in
      let (t, rest, b, cut_end, all) =
        dfs_roots_lem fuel fs m (λ v h. within v (ground (arith, h))) (NoGray-grown s m a clear)
          cut' (omega (arith, enough, whites_in_le s.color m.color scc a.whites)) in
      (
        t,
        ap (λ (o : Option CallSearch). then_search o (dfs_roots fuel scc next fs)) first ∙ rest,
        IsGrown-trans scc next s m t a b,
        cut_end,
        λ v h. elim (Bool-cases (f == v)) [
          | inr apart ↦ all v (ground (arith, h, apart))
          | inl same ↦
              subst (λ (j : ℕ). is_black (t.color j) ≡ true) ((==_iff f v).0 same) (b.blacks f done)
        ],
      )

-- When the entries belong to the set, the search ends. Each call that it returns is a call between two
-- functions of the set that closes a cycle: a chain of calls inside the set leads from the callee back
-- to the caller. Without these calls no cycle is left: there is a rank of the functions that every
-- other call inside the set lowers.
pub find_scc_back_edges_lem :
    (scc entries : List ℕ) (next : ℕ → List ℕ)
    → ((v : ℕ) → mem_id v entries ≡ true → mem_id v scc ≡ true)
    → (back : List (ℕ × ℕ)) × (find_scc_back_edges scc entries next ≡ some back)
      × ((u v : ℕ) → mem_pair u v back ≡ true → ClosesCycle scc next u v)
      × ((rank : ℕ → ℕ) × ((u v : ℕ)
            → mem_id u scc ≡ true
            → mem_id v scc ≡ true
            → mem_id v (next u) ≡ true
            → (mem_pair u v back || ltb (rank v) (rank u)) ≡ true))
unfolding find_scc_back_edges mem_pair NoGray
find_scc_back_edges_lem scc entries next within =
    let s : CallSearch = record { color = λ _. white; closing_calls = [] } in
    let start : HasCut scc next s = (
      λ _. 0,
      0,
      record {
        low = λ u h. absurd (cc);
        down = λ u v h m i. absurd (cc);
        inside = λ u v h. absurd (cc);
      },
    ) in
    let most = whites_in_most (λ _. white) scc in
    let (m, first, a, cut, _) =
      dfs_roots_lem scc next (length scc) entries s within (λ u. refl) start most in
    let (t, rest, b, (rank, n, c), all) =
      dfs_roots_lem scc next (length scc) scc m (λ v h. h) (NoGray-grown scc next s m a (λ u. refl))
        cut (omega (arith, most, whites_in_le s.color m.color scc a.whites)) in
    let found =
      ap (λ (o : Option CallSearch). then_search o (dfs_roots (length scc) scc next scc)) first
      ∙ rest in
    (
      t.closing_calls,
      ap (λ (o : Option CallSearch). elim o [ none ↦ none | some r ↦ some r.closing_calls ]) found,
      c.inside,
      (rank, λ u v i j edge. ground (arith, c.down u v (all u i) edge j)),
    )
