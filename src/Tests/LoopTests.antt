-- ===== src/Tests/LoopTests.antt =====
-- The blocks of a loop at a concrete function (lib/MIRPasses/MachineLoopBoundAgregatorPass.cpp).
use llta.Loops.{Cfg, compute_loop_body}
use llta.Loops.Back.{find_back_edges, follow, insert_pair, mem_pair, search_back}
use llta.Loops.Back.Cost.{edge_cost}
use llta.Loops.Back.Total.{find_back_edges_lem}
use llta.Loops.Body.{IsCfg, compute_loop_body_lem}
use llta.Loops.Collect.{Steps}
use llta.Prelude.{
  Bool, List, [], arith, false, if◌then◌else◌, refl, some, true, ℕ, ◌<◌, ◌==◌, ◌↔◌, ◌∷◌, ◌≡◌, ◌⊎◌,
}
use llta.Program.Prune.Fuel.{AllBelow}
use llta.Solver.Graph.{mem_id}

-- The entry goes to a loop of two blocks, and the loop to a last block.
abbrev around : Cfg
around = record {
  size = 4;
  succs_of = λ b.
      if b == 0 then 1 ∷ [] else (if b == 1 then 2 ∷ 3 ∷ [] else (if b == 2 then 1 ∷ [] else []));
  preds_of = λ b.
      if b == 1 then 0 ∷ 2 ∷ [] else (if b == 2 then 1 ∷ [] else (if b == 3 then 1 ∷ [] else []));
}

AllBelow-if :
    (n : ℕ) (t : Bool) (xs ys : List ℕ)
    → AllBelow n xs
    → AllBelow n ys
    → AllBelow n (if t then xs else ys)
AllBelow-if n true xs ys h k = h
AllBelow-if n false xs ys h k = k

around-IsCfg : IsCfg around
unfolding mem_id
around-IsCfg = record {
  succs_below = λ b h.
      AllBelow-if 4 (b == 0) (1 ∷ [])
        (if b == 1 then 2 ∷ 3 ∷ [] else (if b == 2 then 1 ∷ [] else [])) (omega arith, tt)
        (AllBelow-if 4 (b == 1) (2 ∷ 3 ∷ []) (if b == 2 then 1 ∷ [] else [])
          (omega arith, (omega arith, tt))
          (AllBelow-if 4 (b == 2) (1 ∷ []) [] (omega arith, tt) tt));
  preds_below = λ b h.
      AllBelow-if 4 (b == 1) (0 ∷ 2 ∷ [])
        (if b == 2 then 1 ∷ [] else (if b == 3 then 1 ∷ [] else []))
        (omega arith, (omega arith, tt))
        (AllBelow-if 4 (b == 2) (1 ∷ []) (if b == 3 then 1 ∷ [] else []) (omega arith, tt)
          (AllBelow-if 4 (b == 3) (1 ∷ []) [] (omega arith, tt) tt));
  mirrored = λ u v. ground arith;
}

compute_loop_body_lem_example :
    (body : ℕ → Bool) × (compute_loop_body 5 around 1 ≡ some body)
    × ((b : ℕ)
        → (body b ≡ true) ↔ ((1 ≡ b) ⊎ (Steps around.succs_of 1 b × Steps around.succs_of b 1)))
compute_loop_body_lem_example = compute_loop_body_lem around 1 around-IsCfg (omega arith)

back_edge_found : find_back_edges 8 around ≡ some ((2, 1) ∷ [])
unfolding find_back_edges search_back follow insert_pair mem_pair
back_edge_found = refl

find_back_edges_lem_example :
    (es : List (ℕ × ℕ)) × (find_back_edges (edge_cost around.succs_of 4) around ≡ some es)
    × ((u v : ℕ) → mem_pair u v es ≡ true → (v ≡ u) ⊎ Steps around.succs_of v u)
    × ((rank : ℕ → ℕ) × ((u v : ℕ)
          → (0 ≡ u) ⊎ Steps around.succs_of 0 u
          → mem_id v (around.succs_of u) ≡ true
          → (mem_pair u v es ≡ true) ⊎ (rank v < rank u)))
find_back_edges_lem_example = find_back_edges_lem around (omega arith) around-IsCfg.succs_below
