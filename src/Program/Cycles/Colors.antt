-- ===== src/Program/Cycles/Colors.antt =====
-- The state of the search of `findSCCBackEdges` (lib/Graph/ProgramGraph.cpp).
use llta.Loops.Back.{Color, black, gray, insert_pair, mem_pair, white}
use llta.Loops.Back.Marks.{is_black, is_gray, is_white, mem_pair-insert_pair}
use llta.Prelude.{
  ==_iff, Bool-cases, List, [], ap, arith, false, if◌then◌else◌, inl, inr, length, ltb, refl, subst,
  suc, true, ℕ, ◌&&◌, ◌+◌, ◌<◌, ◌==◌, ◌||◌, ◌∷◌, ◌≡◌, ◌≤◌,
}
use llta.Program.Cycles.Search.{CallSearch, paint}
use llta.Solver.Graph.{mem_id, put}

-- How many functions of the set are white.
abbrev pub whites_in : (ℕ → Color) → List ℕ → ℕ
whites_in cs [] = 0
whites_in cs (f ∷ fs) = (if is_white (cs f) then 1 else 0) + whites_in cs fs

pub whites_in_le :
    (cs ds : ℕ → Color) (fs : List ℕ)
    → ((u : ℕ) → is_white (ds u) ≡ true → is_white (cs u) ≡ true)
    → whites_in ds fs ≤ whites_in cs fs
whites_in_le cs ds [] h = omega arith
whites_in_le cs ds (f ∷ fs) h = ground (arith, whites_in_le cs ds fs h, h f)

pub whites_in_less :
    (cs ds : ℕ → Color) (f : ℕ) (fs : List ℕ)
    → ((u : ℕ) → is_white (ds u) ≡ true → is_white (cs u) ≡ true)
    → mem_id f fs ≡ true
    → is_white (cs f) ≡ true
    → is_white (ds f) ≡ false
    → whites_in ds fs < whites_in cs fs
unfolding mem_id
whites_in_less cs ds f [] h m w g = absurd (cc)
whites_in_less cs ds f (e ∷ fs) h m w g = elim (Bool-cases (e == f)) [
  | inl same ↦
      let at : e ≡ f = (==_iff e f).0 same in
      let was : is_white (cs e) ≡ true = rw at w in
      let now : is_white (ds e) ≡ false = rw at g in
      ground (arith, whites_in_le cs ds fs h, was, now)
  | inr apart ↦ ground (arith, whites_in_less cs ds f fs h (ground (arith, m, apart)) w g, h e)
]

pub whites_in_most : (cs : ℕ → Color) (fs : List ℕ) → whites_in cs fs ≤ length fs
whites_in_most cs [] = omega arith
whites_in_most cs (f ∷ fs) = ground (arith, whites_in_most cs fs)

pub one_color : (c : Color) → is_white c ≡ false → is_gray c ≡ false → is_black c ≡ true
one_color white h k = absurd (cc)
one_color gray h k = absurd (cc)
one_color black h k = refl

pub white_not_black : (c : Color) → is_white c ≡ true → is_black c ≡ false
white_not_black white h = refl
white_not_black gray h = absurd (cc)
white_not_black black h = absurd (cc)

pub gray_not_black : (c : Color) → is_gray c ≡ true → is_black c ≡ false
gray_not_black white h = absurd (cc)
gray_not_black gray h = refl
gray_not_black black h = absurd (cc)

module _ (scc : List ℕ) (next : ℕ → List ℕ) where
  -- A chain of calls from a function, in which every callee belongs to the set.
  pub data Chain (u : ℕ) : ℕ → Type 0 where
    chain_start : Chain u u
    chain_call :
        {mid w : ℕ} → Chain u mid → mem_id w (next mid) ≡ true → mem_id w scc ≡ true → Chain u w

  -- A call inside the set that closes a cycle: its callee leads back to its caller.
  pub record ClosesCycle (u v : ℕ) : Type 0 where
    pub caller_in : mem_id u scc ≡ true
    pub callee_in : mem_id v scc ≡ true
    pub is_call : mem_id v (next u) ≡ true
    pub leads_back : Chain v u

  -- Functions are ranked in the order in which they turn black: a call from a black function closes
  -- a cycle or goes down.
  pub record IsCut (s : CallSearch) (rank : ℕ → ℕ) (n : ℕ) : Type 0 where
    pub low : (u : ℕ) → is_black (s.color u) ≡ true → ltb (rank u) n ≡ true
    pub down :
        (u v : ℕ)
        → is_black (s.color u) ≡ true
        → mem_id v (next u) ≡ true
        → mem_id v scc ≡ true
        → (mem_pair u v s.closing_calls || is_black (s.color v) && ltb (rank v) (rank u)) ≡ true
    pub inside : (u v : ℕ) → mem_pair u v s.closing_calls ≡ true → ClosesCycle u v

  abbrev pub HasCut : CallSearch → Type 0
  HasCut s = (rank : ℕ → ℕ) × (n : ℕ) × IsCut s rank n

  -- A search that went on.
  pub record IsGrown (s t : CallSearch) : Type 0 where
    pub grays : (u : ℕ) → is_gray (s.color u) ≡ true → is_gray (t.color u) ≡ true
    pub old_grays : (u : ℕ) → is_gray (t.color u) ≡ true → is_gray (s.color u) ≡ true
    pub blacks : (u : ℕ) → is_black (s.color u) ≡ true → is_black (t.color u) ≡ true
    pub whites : (u : ℕ) → is_white (t.color u) ≡ true → is_white (s.color u) ≡ true
    pub pairs :
        (u v : ℕ) → mem_pair u v s.closing_calls ≡ true → mem_pair u v t.closing_calls ≡ true

  pub IsGrown-refl : (s : CallSearch) → IsGrown s s
  IsGrown-refl s = record {
    grays = λ u h. h;
    old_grays = λ u h. h;
    blacks = λ u h. h;
    whites = λ u h. h;
    pairs = λ u v h. h;
  }

  pub IsGrown-trans : (s t r : CallSearch) → IsGrown s t → IsGrown t r → IsGrown s r
  IsGrown-trans s t r a b = record {
    grays = λ u h. b.grays u (a.grays u h);
    old_grays = λ u h. a.old_grays u (b.old_grays u h);
    blacks = λ u h. b.blacks u (a.blacks u h);
    whites = λ u h. a.whites u (b.whites u h);
    pairs = λ u v h. b.pairs u v (a.pairs u v h);
  }

  -- The call of a callee is dealt with.
  abbrev pub Handled : ℕ → ℕ → CallSearch → Type 0
  Handled f v t = (mem_pair f v t.closing_calls || is_black (t.color v)) ≡ true

  pub close-HasCut :
      (f g : ℕ) (s : CallSearch)
      → ClosesCycle f g
      → HasCut s
      → HasCut (record s { closing_calls = insert_pair f g s.closing_calls })
  close-HasCut f g s closes (rank, n, c) = (
    rank,
    n,
    record {
      low = c.low;
      down = λ u v h m i.
          ground (arith, c.down u v h m i, mem_pair-insert_pair u v f g s.closing_calls);
      inside = λ u v h. elim (Bool-cases ((f == u) && (g == v))) [
        | inr apart ↦
            c.inside u v (ground (arith, mem_pair-insert_pair u v f g s.closing_calls, apart, h))
        | inl same ↦
            let one : (f == u) ≡ true = ground (arith, same) in
            let two : (g == v) ≡ true = ground (arith, same) in
            subst (λ (j : ℕ). ClosesCycle j v) ((==_iff f u).0 one)
              (subst (λ (j : ℕ). ClosesCycle f j) ((==_iff g v).0 two) closes)
      ];
    },
  )

  -- A function turns gray.
  pub gray-HasCut :
      (f : ℕ) (s : CallSearch) → is_white (s.color f) ≡ true → HasCut s → HasCut (paint gray f s)
  gray-HasCut f s w (rank, n, c) =
      let self : (v : ℕ) → (f == v) ≡ true → s.color f ≡ s.color v =
        λ v e. ap s.color ((==_iff f v).0 e) in
      let off : is_black (s.color f) ≡ false = white_not_black (s.color f) w in
      (
        rank,
        n,
        record {
          low = λ u h. ground (arith, c.low u);
          down = λ u v h m i. ground (arith, c.down u v, m, i, self v, off, h);
          inside = c.inside;
        },
      )

  -- A function turns black when its calls are dealt with.
  pub black-HasCut :
      (f : ℕ) (s : CallSearch)
      → is_gray (s.color f) ≡ true
      → ((v : ℕ) → mem_id v (next f) ≡ true → mem_id v scc ≡ true → Handled f v s)
      → HasCut s
      → HasCut (paint black f s)
  black-HasCut f s g all (rank, n, c) =
      let self : (v : ℕ) → (f == v) ≡ true → s.color f ≡ s.color v =
        λ v e. ap s.color ((==_iff f v).0 e) in
      let off : is_black (s.color f) ≡ false = gray_not_black (s.color f) g in
      (
        put rank f n,
        suc n,
        record {
          low = λ u h. ground (arith, c.low u);
          down = λ u v h m i. elim (Bool-cases (f == u)) [
            | inl same ↦
                let at : f ≡ u = (==_iff f u).0 same in
                let done = all v (rw at m) i in
                let moved : mem_pair f v s.closing_calls ≡ mem_pair u v s.closing_calls =
                  rw at refl in
                ground (arith, done, moved, c.low v, self v, off, same)
            | inr apart ↦ ground (arith, c.down u v, m, i, self v, off, apart, h)
          ];
          inside = c.inside;
        },
      )
