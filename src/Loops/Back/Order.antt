-- ===== src/Loops/Back/Order.antt =====
-- The order in which the search of `findBackEdges` leaves the blocks
-- (lib/MIRPasses/MachineLoopBoundAgregatorPass.cpp).
use llta.Loops.Back.{Color, black, gray, insert_pair, mem_pair, white}
use llta.Loops.Back.Chain.{Closes, IsChain, on_stack, on_stack-Closes}
use llta.Loops.Back.Marks.{is_at, is_black, is_gray, is_white, mem_pair-insert_pair, white_not_gray}
use llta.Prelude.{
  ==_iff, Bool-cases, List, Option, [], ap, arith, false, inl, inr, ltb, none, refl, some, subst,
  suc, sym, true, ℕ, ◌&&◌, ◌==◌, ◌||◌, ◌∙◌, ◌∷◌, ◌≡◌,
}
use llta.Solver.Graph.{mem_id, put}

module _ (succs : ℕ → List ℕ) where
  -- A block on the stack is gray, and each of its successors is left, was found to close a loop, is
  -- black or is the block above.
  pub Waits : (ℕ → Color) → List (ℕ × ℕ) → Option ℕ → List (ℕ × List ℕ) → Type 0
  Waits cs es above [] = Unit
  Waits cs es above ((b, ts) ∷ st) =
      (is_gray (cs b) ≡ true)
      × (on_stack b st ≡ false)
      × ((v : ℕ)
          → mem_id v (succs b) ≡ true
          → (mem_id v ts || mem_pair b v es || is_black (cs v) || is_at above v) ≡ true)
      × Waits cs es (some b) st

  gray_of :
      (cs : ℕ → Color) (es : List (ℕ × ℕ)) (above : Option ℕ) (st : List (ℕ × List ℕ))
      → Waits cs es above st
      → (u : ℕ) → on_stack u st ≡ true
      → is_gray (cs u) ≡ true
  unfolding Waits
  gray_of cs es above [] w u h = absurd (cc)
  gray_of cs es above ((b, ts) ∷ st) w u h = elim (Bool-cases (b == u)) [
    | inl same ↦ rw (← (==_iff b u).0 same) w.0
    | inr apart ↦ gray_of cs es (some b) st w.3 u (ground (arith, h, apart))
  ]

  Waits-moved :
      (cs ds : ℕ → Color) (es fs : List (ℕ × ℕ)) (above over : Option ℕ) (st : List (ℕ × List ℕ))
      → ((u : ℕ) → on_stack u st ≡ true → is_gray (cs u) ≡ true → is_gray (ds u) ≡ true)
      → ((u : ℕ) → is_black (cs u) ≡ true → is_black (ds u) ≡ true)
      → ((u v : ℕ) → mem_pair u v es ≡ true → mem_pair u v fs ≡ true)
      → ((v : ℕ) → is_at above v ≡ true → (is_black (ds v) || is_at over v) ≡ true)
      → Waits cs es above st
      → Waits ds fs over st
  unfolding Waits
  Waits-moved cs ds es fs above over [] stays darker more there w = tt
  Waits-moved cs ds es fs above over ((b, ts) ∷ st) stays darker more there w = (
    stays b (rw ((==_iff b b).1 refl) refl) w.0,
    w.1,
    (λ v m. ground (arith, w.2 v m, darker v, more b v, there v)),
    Waits-moved cs ds es fs (some b) (some b) st (λ u h. stays u (ground (arith, h))) darker more
        (λ v h. ground (arith, h)) w.3,
  )

  -- Blocks are ranked in the order in which they turn black; an edge from a black block closes a loop
  -- or goes to a block of a lower rank.
  pub record IsOrdered (cs : ℕ → Color) (st : List (ℕ × List ℕ)) (es : List (ℕ × ℕ)) (rank : ℕ → ℕ)
      (n : ℕ) : Type 0 where
    pub low : (u : ℕ) → is_black (cs u) ≡ true → ltb (rank u) n ≡ true
    pub out :
        (u v : ℕ)
        → is_black (cs u) ≡ true
        → mem_id v (succs u) ≡ true
        → (mem_pair u v es || is_black (cs v) && ltb (rank v) (rank u)) ≡ true
    pub back_met : (u v : ℕ) → mem_pair u v es ≡ true → is_white (cs v) ≡ false
    pub waits : Waits cs es none st
    pub grays : (u : ℕ) → is_gray (cs u) ≡ true → on_stack u st ≡ true
    pub entry_met : is_white (cs 0) ≡ false
    pub chain : IsChain succs st
    pub closing : (u v : ℕ) → mem_pair u v es ≡ true → Closes succs u v

  pub leave-IsOrdered :
      (cs : ℕ → Color) (b : ℕ) (st : List (ℕ × List ℕ)) (es : List (ℕ × ℕ)) (rank : ℕ → ℕ) (n : ℕ)
      → IsOrdered cs ((b, []) ∷ st) es rank n
      → IsOrdered (put cs b black) st es (put rank b n) (suc n)
  unfolding Waits mem_id
  leave-IsOrdered cs b st es rank n i =
      let self : (v : ℕ) → (b == v) ≡ true → cs b ≡ cs v = λ v h. ap cs ((==_iff b v).0 h) in
      let was = i.waits.0 in
      record {
        low = λ u h. ground (arith, i.low u);
        out = λ u v h m. elim (Bool-cases (b == u)) [
          | inl same ↦
              let at : b ≡ u = (==_iff b u).0 same in
              let edge : mem_id v (succs b) ≡ true = rw at m in
              let pairs : mem_pair b v es ≡ mem_pair u v es = rw at refl in
              ground (arith, i.waits.2 v edge, i.low v, self v, was, pairs, same)
          | inr apart ↦ ground (arith, i.out u v, m, self v, was, apart, h)
        ];
        back_met = λ u v h. ground (arith, i.back_met u v h);
        waits =
            Waits-moved cs (put cs b black) es es (some b) none st
              (λ u h g.
                let at : (b == u) ≡ true → on_stack b st ≡ on_stack u st =
                  λ e. ap (λ (j : ℕ). on_stack j st) ((==_iff b u).0 e) in
                ground (arith, at, i.waits.1, h, g))
              (λ u h. ground (arith, h)) (λ u v h. h) (λ v h. ground (arith, h)) i.waits.3;
        grays = λ u h. ground (arith, i.grays u);
        entry_met = ground (arith, i.entry_met);
        chain = i.chain.2;
        closing = i.closing;
      }

  -- A white successor is pushed.
  pub push-IsOrdered :
      (cs : ℕ → Color) (b t : ℕ) (ts : List ℕ) (st : List (ℕ × List ℕ)) (es : List (ℕ × ℕ))
      → (rank : ℕ → ℕ) (n : ℕ) → is_white (cs t) ≡ true
      → IsOrdered cs ((b, t ∷ ts) ∷ st) es rank n
      → IsOrdered (put cs t gray) ((t, succs t) ∷ (b, ts) ∷ st) es rank n
  unfolding Waits mem_id
  push-IsOrdered cs b t ts st es rank n fresh i =
      let self : (v : ℕ) → (t == v) ≡ true → cs t ≡ cs v = λ v h. ap cs ((==_iff t v).0 h) in
      let ungray : on_stack t ((b, t ∷ ts) ∷ st) ≡ true → is_gray (cs t) ≡ true =
        gray_of cs es none ((b, t ∷ ts) ∷ st) i.waits t in
      let off_stack : on_stack t ((b, ts) ∷ st) ≡ false =
        elim (Bool-cases (on_stack t ((b, ts) ∷ st))) [
          | inr off ↦ off
          | inl on ↦
              let e : true ≡ false = sym (ungray on) ∙ white_not_gray (cs t) fresh in absurd (cc)
        ] in
      let darker : (v : ℕ) → is_black (cs v) ≡ true → is_black (put cs t gray v) ≡ true =
        λ v h. ground (arith, self v, fresh, h) in
      record {
        low = λ u h. ground (arith, i.low u);
        out = λ u v h m. ground (arith, i.out u v, self v, fresh, h, m);
        back_met = λ u v h. ground (arith, i.back_met u v h);
        waits = (
          rw ((==_iff t t).1 refl) refl,
          off_stack,
          (λ v m. rw m refl),
          (
            ground (arith, i.waits.0, self b),
            i.waits.1,
            (λ v m. ground (arith, i.waits.2 v m, darker v)),
            Waits-moved cs (put cs t gray) es es (some b) (some b) st
                (λ u h g. ground (arith, self u, g)) darker (λ u v h. h) (λ v h. ground (arith, h))
                i.waits.3,
          ),
        );
        grays = λ u h. ground (arith, i.grays u, h);
        entry_met = ground (arith, i.entry_met);
        chain = (
          (λ v m. m),
          i.chain.0 t (rw ((==_iff t t).1 refl) refl),
          ((λ v m. i.chain.0 v (ground (arith, m))), i.chain.1, i.chain.2),
        );
        closing = i.closing;
      }

  -- A gray successor closes a loop.
  pub close-IsOrdered :
      (cs : ℕ → Color) (b t : ℕ) (ts : List ℕ) (st : List (ℕ × List ℕ)) (es : List (ℕ × ℕ))
      → (rank : ℕ → ℕ) (n : ℕ) → is_gray (cs t) ≡ true
      → IsOrdered cs ((b, t ∷ ts) ∷ st) es rank n
      → IsOrdered cs ((b, ts) ∷ st) (insert_pair b t es) rank n
  unfolding Waits mem_id
  close-IsOrdered cs b t ts st es rank n met i =
      let pairs : (u v : ℕ)
          → mem_pair u v (insert_pair b t es) ≡ ((b == u) && (t == v) || mem_pair u v es) =
        λ u v. mem_pair-insert_pair u v b t es in
      let more : (u v : ℕ) → mem_pair u v es ≡ true → mem_pair u v (insert_pair b t es) ≡ true =
        λ u v h. ground (arith, pairs u v, h) in
      let self : (v : ℕ) → (t == v) ≡ true → cs t ≡ cs v = λ v h. ap cs ((==_iff t v).0 h) in
      record {
        low = i.low;
        out = λ u v h m. ground (arith, i.out u v h m, more u v);
        back_met = λ u v h. ground (arith, i.back_met u v, pairs u v, h, self v, met);
        waits = (
          i.waits.0,
          i.waits.1,
          (λ v m. ground (arith, i.waits.2 v m, pairs b v, (==_iff b b).1 refl)),
          Waits-moved cs cs es (insert_pair b t es) (some b) (some b) st (λ u h g. g) (λ u h. h)
              more (λ v h. ground (arith, h)) i.waits.3,
        );
        grays = i.grays;
        entry_met = i.entry_met;
        chain = ((λ v m. i.chain.0 v (ground (arith, m))), i.chain.1, i.chain.2);
        closing = λ u v h. elim (Bool-cases ((b == u) && (t == v))) [
          | inr old ↦ i.closing u v (ground (arith, pairs u v, h, old))
          | inl new ↦
              let one : (b == u) ≡ true = ground (arith, new) in
              let two : (t == v) ≡ true = ground (arith, new) in
              subst (λ (j : ℕ). Closes succs j v) ((==_iff b u).0 one)
                (subst (λ (j : ℕ). Closes succs b j) ((==_iff t v).0 two)
                  (on_stack-Closes succs b t (t ∷ ts) st i.chain (i.grays t met)))
        ];
      }

  -- A black successor is passed.
  pub pass-IsOrdered :
      (cs : ℕ → Color) (b t : ℕ) (ts : List ℕ) (st : List (ℕ × List ℕ)) (es : List (ℕ × ℕ))
      → (rank : ℕ → ℕ) (n : ℕ) → is_black (cs t) ≡ true
      → IsOrdered cs ((b, t ∷ ts) ∷ st) es rank n
      → IsOrdered cs ((b, ts) ∷ st) es rank n
  unfolding Waits mem_id
  pass-IsOrdered cs b t ts st es rank n done i =
      let self : (v : ℕ) → (t == v) ≡ true → cs t ≡ cs v = λ v h. ap cs ((==_iff t v).0 h) in
      record {
        low = i.low;
        out = i.out;
        back_met = i.back_met;
        waits =
            (i.waits.0, i.waits.1, (λ v m. ground (arith, i.waits.2 v m, self v, done)), i.waits.3);
        grays = i.grays;
        entry_met = i.entry_met;
        chain = ((λ v m. i.chain.0 v (ground (arith, m))), i.chain.1, i.chain.2);
        closing = i.closing;
      }

  pub start-IsOrdered : IsOrdered (put (λ _. white) 0 gray) ((0, succs 0) ∷ []) [] (λ _. 0) 0
  unfolding Waits mem_pair
  start-IsOrdered = record {
    low = λ u h. ground (arith, h);
    out = λ u v h m. ground (arith, h);
    back_met = λ u v h. ground (arith, h);
    waits = (refl, refl, (λ v m. rw m refl), tt);
    grays = λ u h. ground (arith, h);
    entry_met = refl;
    chain = ((λ v m. m), tt, tt);
    closing = λ u v h. absurd (cc);
  }
