-- ===== src/Loops.antt =====
-- The blocks of a loop (`computeLoopBody` of lib/MIRPasses/MachineLoopBoundAgregatorPass.cpp).
pub mod Collect
pub mod Body
pub mod Back
use llta.Prelude.{Bool, List, Option, [], false, none, some, suc, zero, ℕ, ◌&&◌, ◌==◌, ◌||◌, ◌∷◌}
use llta.Program.Prune.{push_new}

-- A function by its blocks, here numbers: the successors and the predecessors of each.
pub record Cfg : Type 0 where
  pub size : ℕ
  pub succs_of : ℕ → List ℕ
  pub preds_of : ℕ → List ℕ

-- A loop over the worklist `WL`, a stack, forwards or backwards; none when the fuel runs out.
unfoldable pub collect : ℕ → (ℕ → List ℕ) → (ℕ → Bool) → List ℕ → Option (ℕ → Bool)
collect fuel next seen [] = some seen
collect zero next seen (b ∷ work) = none
collect (suc fuel) next seen (b ∷ work) =
    let after = push_new seen work (next b) in collect fuel next after.0 after.1

-- `Fwd` or `Bwd`: the header is pushed and is not in the set.
unfoldable pub collect_from : ℕ → (ℕ → List ℕ) → ℕ → Option (ℕ → Bool)
collect_from fuel next header = collect fuel next (λ _. false) (header ∷ [])

-- `Body`: the header, and what is in both sets.
abbrev pub in_body : ℕ → (ℕ → Bool) → (ℕ → Bool) → ℕ → Bool
in_body header fwd bwd b = (header == b) || fwd b && bwd b

-- `computeLoopBody(H)`.
unfoldable pub compute_loop_body : ℕ → Cfg → ℕ → Option (ℕ → Bool)
compute_loop_body fuel f header = elim (collect_from fuel f.succs_of header) [
  | none ↦ none
  | some fwd ↦ elim (collect_from fuel f.preds_of header) [
    | none ↦ none
    | some bwd ↦ some (in_body header fwd bwd)
  ]
]
