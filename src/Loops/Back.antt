-- ===== src/Loops/Back.antt =====
-- The edges that close a loop (`findBackEdges` of lib/MIRPasses/MachineLoopBoundAgregatorPass.cpp).
pub mod Marks
pub mod Cost
pub mod Chain
pub mod Order
pub mod Total
use llta.Fram.DataAccess.{stack}
use llta.Loops.{Cfg}
use llta.Prelude.{
  Bool, List, Option, [], false, if◌then◌else◌, none, some, suc, zero, ℕ, ◌&&◌, ◌==◌, ◌||◌, ◌∷◌,
}
use llta.Solver.Graph.{put}

pub data Color : Type 0 where
  white : Color
  gray : Color
  black : Color

-- The colors, the stack of blocks with the successors that are left, and the edges that were found.
pub record BackSearch : Type 0 where
  pub colors : ℕ → Color
  pub stack : List (ℕ × List ℕ)
  pub back : List (ℕ × ℕ)

unfoldable pub mem_pair : ℕ → ℕ → List (ℕ × ℕ) → Bool
mem_pair u v [] = false
mem_pair u v (e ∷ es) = ((e.0 == u) && (e.1 == v)) || mem_pair u v es

-- `Back.insert`.
unfoldable pub insert_pair : ℕ → ℕ → List (ℕ × ℕ) → List (ℕ × ℕ)
insert_pair u v es = if mem_pair u v es then es else (u, v) ∷ es

-- The next successor of the top block.
unfoldable pub follow : (ℕ → List ℕ) → BackSearch → ℕ → ℕ → List ℕ → List (ℕ × List ℕ) → BackSearch
follow succs s b succ left below_it = elim (s.colors succ) [
  | white ↦ record s {
    colors = put s.colors succ gray;
    stack = (succ, succs succ) ∷ (b, left) ∷ below_it;
  }
  | gray ↦ record s { stack = (b, left) ∷ below_it; back = insert_pair b succ s.back }
  | black ↦ record s { stack = (b, left) ∷ below_it }
]

-- The loop while the stack is not empty; none when the fuel runs out.
unfoldable pub search_back :
    ℕ → (ℕ → List ℕ) → (ℕ → Color) → List (ℕ × List ℕ) → List (ℕ × ℕ) → Option BackSearch
search_back fuel succs cs [] es = some (record { colors = cs; stack = []; back = es })
search_back zero succs cs (x ∷ st) es = none
search_back (suc fuel) succs cs ((b, []) ∷ st) es = search_back fuel succs (put cs b black) st es
search_back (suc fuel) succs cs ((b, t ∷ ts) ∷ st) es =
    let s = follow succs (record { colors = cs; stack = []; back = es }) b t ts st in
    search_back fuel succs s.colors s.stack s.back

-- `findBackEdges(MF)`, where the function has a block; its entry is block 0.
unfoldable pub find_back_edges : ℕ → Cfg → Option (List (ℕ × ℕ))
find_back_edges fuel f =
    elim (search_back fuel f.succs_of (put (λ _. white) 0 gray) ((0, f.succs_of 0) ∷ []) []) [
      | none ↦ none
      | some s ↦ some s.back
    ]
