-- ===== src/Loops/Back/Marks.antt =====
-- The colors and the edges that the search of `findBackEdges` keeps
-- (lib/MIRPasses/MachineLoopBoundAgregatorPass.cpp).
use llta.Loops.Back.{Color, black, gray, insert_pair, mem_pair, white}
use llta.Prelude.{
  ==_iff, Bool, Bool-cases, List, Option, arith, false, inl, inr, none, refl, some, true, ℕ, ◌&&◌,
  ◌==◌, ◌||◌, ◌≡◌,
}

abbrev pub is_white : Color → Bool
is_white white = true
is_white gray = false
is_white black = false

abbrev pub is_gray : Color → Bool
is_gray white = false
is_gray gray = true
is_gray black = false

abbrev pub is_black : Color → Bool
is_black white = false
is_black gray = false
is_black black = true

abbrev pub is_at : Option ℕ → ℕ → Bool
is_at none v = false
is_at (some u) v = u == v

pub white_not_gray : (c : Color) → is_white c ≡ true → is_gray c ≡ false
white_not_gray white h = refl
white_not_gray gray h = absurd (cc)
white_not_gray black h = refl

pub mem_pair-insert_pair :
    (u v b t : ℕ) (es : List (ℕ × ℕ))
    → mem_pair u v (insert_pair b t es) ≡ ((b == u) && (t == v) || mem_pair u v es)
unfolding insert_pair mem_pair
mem_pair-insert_pair u v b t es = elim (Bool-cases (mem_pair b t es)) [
  | inr new ↦ rw new refl
  | inl old ↦
      let at : ((b == u) && (t == v)) ≡ true → mem_pair b t es ≡ mem_pair u v es = λ h.
        let one : (b == u) ≡ true = ground (arith, h) in
        let two : (t == v) ≡ true = ground (arith, h) in
        rw ((==_iff b u).0 one, (==_iff t v).0 two) refl in
      rw old (ground (arith, at, old))
]
