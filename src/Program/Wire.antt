-- ===== src/Program/Wire.antt =====
-- The wiring of the entry and the exit (`ProgramGraph::wireEntryExit` of
-- lib/Graph/ProgramGraph.cpp).
use llta.Prelude.{
  Bool, Bool-cases, List, Option, [], ap, arith, false, inl, inr, refl, some, ℕ, ◌&&◌, ◌==◌, ◌||◌,
  ◌∙◌, ◌∷◌, ◌≡◌,
}
use llta.Program.{
  ProgramGraph, ProgramNode, add_predecessor, add_successor, and_then, back_of, has_edge, link,
  modify, wire_entry_exit, wire_fallback, wire_returns,
}
use llta.Program.Symmetry.{and_then_lem, link_lem}
use llta.Solver.Graph.{mem_id, put}

-- The edges from the returns to the exit.
pub wire_returns_lem :
    (g h : ProgramGraph) (rs : List ℕ) (exit : ℕ)
    → wire_returns g rs exit ≡ some h
    → (u v : ℕ) → has_edge h u v ≡ ((exit == v) && mem_id u rs || has_edge g u v)
unfolding wire_returns mem_id
wire_returns_lem g h [] exit e u v = let same : g ≡ h = cc in rw (← same) (ground arith)
wire_returns_lem g h (r ∷ rs) exit e u v =
    let (m, first, rest) = and_then_lem (link g r exit) (λ k. wire_returns k rs exit) h e in
    let one = (link_lem g m r exit first u v).0 in
    let more = wire_returns_lem m h rs exit rest u v in ground (arith, one, more)

-- The edges that the wiring is to add.
abbrev pub is_wired : List ℕ → List ℕ → ℕ → ℕ → ℕ → ℕ → Bool
is_wired [] returns entry exit u v = (entry == u) && (exit == v) || (exit == v) && mem_id u returns
is_wired (first ∷ body) [] entry exit u v =
    (entry == u) && (first == v) || (back_of first body == u) && (exit == v)
is_wired (first ∷ body) (r ∷ rs) entry exit u v =
    (entry == u) && (first == v) || (exit == v) && mem_id u (r ∷ rs)

-- The edge of the last block when no block returns.
abbrev falls_back : ℕ → List ℕ → List ℕ → ℕ → ℕ → ℕ → Bool
falls_back first body [] exit u v = (back_of first body == u) && (exit == v)
falls_back first body (r ∷ rs) exit u v = false

wire_fallback_lem :
    (g h : ProgramGraph) (first : ℕ) (body returns : List ℕ) (exit : ℕ)
    → wire_fallback g first body returns exit ≡ some h
    → (u v : ℕ) → has_edge h u v ≡ (falls_back first body returns exit u v || has_edge g u v)
unfolding wire_fallback
wire_fallback_lem g h first body [] exit e u v = (link_lem g h (back_of first body) exit e u v).0
wire_fallback_lem g h first body (r ∷ rs) exit e u v = let same : g ≡ h = cc in rw (← same) refl

is_wired_lem :
    (first : ℕ) (body returns : List ℕ) (entry exit u v : ℕ)
    → is_wired (first ∷ body) returns entry exit u v ≡ (
        falls_back first body returns exit u v
        || ((exit == v) && mem_id u returns || (entry == u) && (first == v)))
unfolding mem_id
is_wired_lem first body [] entry exit u v = ground arith
is_wired_lem first body (r ∷ rs) entry exit u v = ground arith

-- The wiring adds the edge from the entry to the first block, an edge to the exit from each return
-- block, or from the last block when no block returns, and from the entry when there is no block;
-- it adds nothing else and removes nothing.
pub wire_entry_exit_lem :
    (g h : ProgramGraph) (body returns : List ℕ) (entry exit : ℕ)
    → wire_entry_exit g body returns entry exit ≡ some h
    → (u v : ℕ) → has_edge h u v ≡ (is_wired body returns entry exit u v || has_edge g u v)
unfolding wire_entry_exit
wire_entry_exit_lem g h [] returns entry exit e u v =
    let (m, wired, last) =
      and_then_lem (wire_returns g returns exit) (λ k. link k entry exit) h e in
    let one = wire_returns_lem g m returns exit wired u v in
    let more = (link_lem m h entry exit last u v).0 in ground (arith, one, more)
wire_entry_exit_lem g h (first ∷ body) returns entry exit e u v =
    let (m, start, rest) =
      and_then_lem (link g entry first)
        (λ k. and_then (wire_returns k returns exit) (λ l. wire_fallback l first body returns exit))
        h e in
    let (w, wired, last) =
      and_then_lem (wire_returns m returns exit) (λ l. wire_fallback l first body returns exit) h
        rest in
    let one = (link_lem g m entry first start u v).0 in
    let more = wire_returns_lem m w returns exit wired u v in
    let final = wire_fallback_lem w h first body returns exit last u v in
    let spec = is_wired_lem first body returns entry exit u v in
    ground (arith, one, more, final, spec)

-- The graph has the node.
abbrev pub HasNode : ProgramGraph → ℕ → Type 0
HasNode g id = (n : ProgramNode) × (g.nodes id ≡ some n)

pub modify-HasNode :
    (g : ProgramGraph) (id : ℕ) (f : ProgramNode → ProgramNode)
    → HasNode g id
    → (h : ProgramGraph) × (modify g id f ≡ some h) × ((j : ℕ) → HasNode g j → HasNode h j)
unfolding modify
modify-HasNode g id f (n, there) = (
  record g { nodes = put g.nodes id (some (f n)) },
  rw (there, modify) refl,
  λ j has. elim (Bool-cases (id == j)) [
    | inl here ↦ (f n, rw here refl)
    | inr apart ↦ (has.0, rw apart has.1)
  ],
)

-- An edge between two nodes of the graph can be added, and no node is lost.
pub link-HasNode :
    (g : ProgramGraph) (from to : ℕ)
    → HasNode g from
    → HasNode g to
    → (h : ProgramGraph) × (link g from to ≡ some h) × ((j : ℕ) → HasNode g j → HasNode h j)
unfolding link
link-HasNode g from to a b =
    let (m, first, kept) = modify-HasNode g from (add_successor to) a in
    let (h, second, held) = modify-HasNode m to (add_predecessor from) (kept to b) in
    (
      h,
      ap (λ (o : Option ProgramGraph). and_then o (λ k. modify k to (add_predecessor from))) first
          ∙ second,
      λ j has. held j (kept j has),
    )
