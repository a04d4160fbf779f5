-- ===== src/Program/Total.antt =====
-- The wiring of the entry and the exit always succeeds on nodes of the graph
-- (`ProgramGraph::wireEntryExit` of lib/Graph/ProgramGraph.cpp).
use llta.Prelude.{All, List, Option, [], ap, refl, some, ℕ, ◌∙◌, ◌∷◌, ◌≡◌}
use llta.Program.{
  ProgramGraph, and_then, back_of, link, wire_entry_exit, wire_fallback, wire_returns,
}
use llta.Program.Wire.{HasNode, link-HasNode}

pub All-HasNode :
    (g h : ProgramGraph) (ids : List ℕ)
    → ((j : ℕ) → HasNode g j → HasNode h j)
    → All (HasNode g) ids
    → All (HasNode h) ids
All-HasNode g h [] kept all = tt
All-HasNode g h (id ∷ ids) kept all = (kept id all.0, All-HasNode g h ids kept all.1)

back_of-HasNode :
    (g : ProgramGraph) (first : ℕ) (body : List ℕ)
    → All (HasNode g) (first ∷ body)
    → HasNode g (back_of first body)
back_of-HasNode g first [] all = all.0
back_of-HasNode g first (b ∷ body) all = back_of-HasNode g b body all.1

pub wire_returns-HasNode :
    (g : ProgramGraph) (rs : List ℕ) (exit : ℕ)
    → All (HasNode g) rs
    → HasNode g exit
    → (h : ProgramGraph) × (wire_returns g rs exit ≡ some h) × ((j : ℕ) → HasNode g j → HasNode h j)
unfolding wire_returns
wire_returns-HasNode g [] exit all has = (g, refl, λ j there. there)
wire_returns-HasNode g (r ∷ rs) exit all has =
    let (m, first, kept) = link-HasNode g r exit all.0 has in
    let (h, rest, held) =
      wire_returns-HasNode m rs exit (All-HasNode g m rs kept all.1) (kept exit has) in
    (
      h,
      ap (λ (o : Option ProgramGraph). and_then o (λ k. wire_returns k rs exit)) first ∙ rest,
      λ j there. held j (kept j there),
    )

wire_fallback-HasNode :
    (g : ProgramGraph) (first : ℕ) (body returns : List ℕ) (exit : ℕ)
    → All (HasNode g) (first ∷ body)
    → HasNode g exit
    → (h : ProgramGraph) × (wire_fallback g first body returns exit ≡ some h)
unfolding wire_fallback
wire_fallback-HasNode g first body [] exit all has =
    let (h, made, _) =
      link-HasNode g (back_of first body) exit (back_of-HasNode g first body all) has in
    (h, made)
wire_fallback-HasNode g first body (r ∷ rs) exit all has = (g, refl)

-- When the entry, the exit, the blocks and the return blocks are nodes of the graph, no assertion
-- of the wiring fails.
pub wire_entry_exit-total :
    (g : ProgramGraph) (body returns : List ℕ) (entry exit : ℕ)
    → HasNode g entry
    → HasNode g exit
    → All (HasNode g) body
    → All (HasNode g) returns
    → (h : ProgramGraph) × (wire_entry_exit g body returns entry exit ≡ some h)
unfolding wire_entry_exit
wire_entry_exit-total g [] returns entry exit a b all back =
    let (m, first, kept) = wire_returns-HasNode g returns exit back b in
    let (h, second, _) = link-HasNode m entry exit (kept entry a) (kept exit b) in
    (h, ap (λ (o : Option ProgramGraph). and_then o (λ k. link k entry exit)) first ∙ second)
wire_entry_exit-total g (first ∷ body) returns entry exit a b all back =
    let (m, start, kept) = link-HasNode g entry first a all.0 in
    let (w, wired, held) =
      wire_returns-HasNode m returns exit (All-HasNode g m returns kept back) (kept exit b) in
    let (h, last) =
      wire_fallback-HasNode w first body returns exit
        (All-HasNode m w (first ∷ body) held (All-HasNode g m (first ∷ body) kept all))
        (held exit (kept exit b)) in
    (
      h,
      ap
            (λ (o : Option ProgramGraph). and_then o (λ k.
              and_then (wire_returns k returns exit)
                (λ l. wire_fallback l first body returns exit)))
            start
          ∙ ap
              (λ (o : Option ProgramGraph).
                and_then o (λ l. wire_fallback l first body returns exit))
              wired
          ∙ last,
    )
