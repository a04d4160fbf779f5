-- ===== src/Program/Cycles/Search.antt =====
-- The calls that close a cycle (`findSCCBackEdges` of lib/Graph/ProgramGraph.cpp).
use llta.Loops.Back.{Color, black, gray, insert_pair, white}
use llta.Prelude.{List, Option, [], if◌then◌else◌, length, none, some, suc, zero, ℕ, ◌∷◌}
use llta.Solver.Graph.{mem_id, put}

-- `Color` and `BackEdges`.
pub record CallSearch : Type 0 where
  pub color : ℕ → Color
  pub closing_calls : List (ℕ × ℕ)

abbrev pub paint : Color → ℕ → CallSearch → CallSearch
paint c f s = record s { color = put s.color f c }

abbrev pub then_search : Option CallSearch → (CallSearch → Option CallSearch) → Option CallSearch
then_search none next = none
then_search (some s) next = next s

-- One callee inside the set, with the search of a callee that is white.
unfoldable pub dfs_callee :
    (ℕ → CallSearch → Option CallSearch) → List ℕ → ℕ → ℕ → CallSearch → Option CallSearch
dfs_callee deeper scc f g s =
    if mem_id g scc
    then elim (s.color g) [
      | white ↦ deeper g s
      | gray ↦ some (record s { closing_calls = insert_pair f g s.closing_calls })
      | black ↦ some s
    ]
    else some s

unfoldable pub dfs_callees :
    (ℕ → CallSearch → Option CallSearch) → List ℕ → ℕ → List ℕ → CallSearch → Option CallSearch
dfs_callees deeper scc f [] s = some s
dfs_callees deeper scc f (g ∷ gs) s =
    then_search (dfs_callee deeper scc f g s) (dfs_callees deeper scc f gs)

-- `Dfs(F)`; none when the fuel runs out.
unfoldable pub dfs : ℕ → List ℕ → (ℕ → List ℕ) → ℕ → CallSearch → Option CallSearch
dfs zero scc next f s = none
dfs (suc fuel) scc next f s =
    elim (dfs_callees (dfs fuel scc next) scc f (next f) (paint gray f s)) [
      | none ↦ none
      | some t ↦ some (paint black f t)
    ]

-- `for (F : ...) if (Color[F] == 0) Dfs(F)`.
unfoldable pub dfs_root : ℕ → List ℕ → (ℕ → List ℕ) → ℕ → CallSearch → Option CallSearch
dfs_root fuel scc next f s = elim (s.color f) [
  | white ↦ dfs fuel scc next f s
  | gray ↦ some s
  | black ↦ some s
]

unfoldable pub dfs_roots : ℕ → List ℕ → (ℕ → List ℕ) → List ℕ → CallSearch → Option CallSearch
dfs_roots fuel scc next [] s = some s
dfs_roots fuel scc next (f ∷ fs) s =
    then_search (dfs_root fuel scc next f s) (dfs_roots fuel scc next fs)

-- `findSCCBackEdges(SCC, Entries, CallAdj)`.
unfoldable pub find_scc_back_edges : List ℕ → List ℕ → (ℕ → List ℕ) → Option (List (ℕ × ℕ))
find_scc_back_edges scc entries next =
    let fuel = length scc in
    elim (then_search
      (dfs_roots fuel scc next entries (record { color = λ _. white; closing_calls = [] }))
      (dfs_roots fuel scc next scc)) [ none ↦ none | some s ↦ some s.closing_calls ]
