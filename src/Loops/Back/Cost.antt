-- ===== src/Loops/Back/Cost.antt =====
-- The rounds that the search of `findBackEdges` has left
-- (lib/MIRPasses/MachineLoopBoundAgregatorPass.cpp).
use llta.Loops.Back.{Color, white}
use llta.Loops.Back.Marks.{is_white}
use llta.Prelude.{
  ==_iff, Bool-cases, List, [], ap, arith, false, if◌then◌else◌, inl, inr, length, refl, suc, true,
  zero, ℕ, ◌+◌, ◌<◌, ◌==◌, ◌∷◌, ◌≡◌, ◌≤◌,
}
use llta.Program.Prune.Fuel.{AllBelow}
use llta.Solver.Graph.{put}

-- One for each block and one for each of its edges.
abbrev pub edge_cost : (ℕ → List ℕ) → ℕ → ℕ
edge_cost succs zero = 0
edge_cost succs (suc n) = suc (length (succs n)) + edge_cost succs n

-- The same for the blocks that are white, and for what is on the stack.
abbrev pub white_cost : (ℕ → Color) → (ℕ → List ℕ) → ℕ → ℕ
white_cost cs succs zero = 0
white_cost cs succs (suc n) =
    (if is_white (cs n) then suc (length (succs n)) else 0) + white_cost cs succs n

abbrev pub stack_cost : List (ℕ × List ℕ) → ℕ
stack_cost [] = 0
stack_cost ((_, ts) ∷ st) = suc (length ts) + stack_cost st

abbrev pub StackBelow : ℕ → List (ℕ × List ℕ) → Type 0
StackBelow n [] = Unit
StackBelow n ((_, ts) ∷ st) = AllBelow n ts × StackBelow n st

pub white_cost-put_le :
    (cs : ℕ → Color) (succs : ℕ → List ℕ) (t n : ℕ) (c : Color)
    → is_white c ≡ false
    → white_cost (put cs t c) succs n ≤ white_cost cs succs n
white_cost-put_le cs succs t zero c dark = omega arith
white_cost-put_le cs succs t (suc n) c dark =
    ground (arith, white_cost-put_le cs succs t n c dark, dark)

pub white_cost-put :
    (cs : ℕ → Color) (succs : ℕ → List ℕ) (t n : ℕ) (c : Color)
    → is_white c ≡ false
    → t < n
    → is_white (cs t) ≡ true
    → white_cost (put cs t c) succs n + suc (length (succs t)) ≤ white_cost cs succs n
white_cost-put cs succs t zero c dark less fresh = omega arith
white_cost-put cs succs t (suc n) c dark less fresh = elim (Bool-cases (t == n)) [
  | inl same ↦
      let at : t ≡ n = (==_iff t n).0 same in
      let white_n : is_white (cs n) ≡ true = rw (← at) fresh in
      let long : length (succs t) ≡ length (succs n) = ap (λ (j : ℕ). length (succs j)) at in
      rw (same, dark, white_n) (omega (arith, white_cost-put_le cs succs t n c dark, long))
  | inr apart ↦
      let before : t < n = ground arith in
      ground (arith, white_cost-put cs succs t n c dark before fresh, apart)
]

pub white_cost-start :
    (succs : ℕ → List ℕ) (n : ℕ) → white_cost (λ _. white) succs n ≡ edge_cost succs n
white_cost-start succs zero = refl
white_cost-start succs (suc n) = omega (arith, white_cost-start succs n)
