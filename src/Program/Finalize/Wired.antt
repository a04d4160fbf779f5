-- ===== src/Program/Finalize/Wired.antt =====
-- The edges of the calls (`ProgramGraph::finalize` of lib/Graph/ProgramGraph.cpp).
use llta.Prelude.{
  All, Bool, List, Option, [], ap, arith, false, if◌then◌else◌, none, refl, some, ℕ, ◌&&◌, ◌==◌,
  ◌||◌, ◌∙◌, ◌∷◌, ◌≡◌,
}
use llta.Program.{ProgramGraph, ProgramNode, has_edge, link, modify}
use llta.Program.Built.{Built, KeepsEdges, has_edge_written, node_written}
use llta.Program.Fill.{ModuleGraph, ProgramCall}
use llta.Program.Fill.Ends.{wire_returns-Keeps}
use llta.Program.Fill.Link.{link-Adds}
use llta.Program.Finalize.{names, wire_landing}
use llta.Program.Total.{All-HasNode, wire_returns-HasNode}
use llta.Program.Wire.{HasNode, modify-HasNode, wire_returns_lem}
use llta.Solver.Graph.{mem_id}

-- A step that adds edges and keeps the nodes.
pub record Wires (pairs : ℕ → ℕ → Bool) (g h : ProgramGraph) : Type 0 where
  pub wired_built : Built h
  pub wired_edges : (u v : ℕ) → has_edge h u v ≡ (pairs u v || has_edge g u v)
  pub wired_nodes : (id : ℕ) → HasNode g id → HasNode h id

abbrev pub no_pair : ℕ → ℕ → Bool
no_pair u v = false

pub Wires-refl : (g : ProgramGraph) → Built g → Wires no_pair g g
Wires-refl g b = record { wired_built = b; wired_edges = λ u v. refl; wired_nodes = λ id has. has }

pub Wires-trans :
    (p q : ℕ → ℕ → Bool) (g h k : ProgramGraph)
    → Wires p g h
    → Wires q h k
    → Wires (λ u v. p u v || q u v) g k
Wires-trans p q g h k a b = record {
  wired_built = b.wired_built;
  wired_edges = λ u v. ground (arith, a.wired_edges u v, b.wired_edges u v);
  wired_nodes = λ id has. b.wired_nodes id (a.wired_nodes id has);
}

pub Wires-same :
    (p q : ℕ → ℕ → Bool) (g h : ProgramGraph)
    → ((u v : ℕ) → p u v ≡ q u v)
    → Wires p g h
    → Wires q g h
Wires-same p q g h same a = record {
  wired_built = a.wired_built;
  wired_edges = λ u v. a.wired_edges u v ∙ ap (λ (c : Bool). c || has_edge g u v) (same u v);
  wired_nodes = a.wired_nodes;
}

pub link-Wires :
    (g : ProgramGraph) (from to : ℕ)
    → Built g
    → HasNode g from
    → HasNode g to
    → (h : ProgramGraph) × (link g from to ≡ some h) × Wires (λ u v. (from == u) && (to == v)) g h
link-Wires g from to b has_from has_to =
    let (h, made, a) = link-Adds g from to b has_from has_to in
    (
      h,
      made,
      record { wired_built = a.still_built; wired_edges = a.edges_now; wired_nodes = a.nodes_held },
    )

pub modify-Wires :
    (g : ProgramGraph) (id : ℕ) (f : ProgramNode → ProgramNode)
    → Built g
    → HasNode g id
    → KeepsEdges f
    → (h : ProgramGraph) × (modify g id f ≡ some h) × Wires no_pair g h
modify-Wires g id f b has keeps =
    let (h, made, kept) = modify-HasNode g id f has in
    (
      h,
      made,
      record {
        wired_built = node_written id f keeps made b;
        wired_edges = λ u v. (has_edge_written g h id f keeps made u v).0;
        wired_nodes = kept;
      },
    )

-- The edges of a call site.
abbrev pub landing_pair : Option ℕ → Option (List ℕ) → ℕ → ℕ → Bool
landing_pair none backs u v = false
landing_pair (some l) none u v = false
landing_pair (some l) (some rs) u v = (l == v) && mem_id u rs

abbrev pub call_pair : ModuleGraph → ProgramCall → ℕ → ℕ → Bool
call_pair s call u v =
    if names call.call_to s.start_function then false else elim (s.entry_of call.call_to) [
      | none ↦ false
      | some entry ↦
          (call.call_from == u) && (entry == v)
          || landing_pair call.lands (s.returns_of call.call_to) u v
    ]

abbrev pub calls_pair : ModuleGraph → List ProgramCall → ℕ → ℕ → Bool
calls_pair s [] u v = false
calls_pair s (c ∷ cs) u v = call_pair s c u v || calls_pair s cs u v

-- What the maps name are nodes.
abbrev pub IsCallLinked : ProgramGraph → ProgramCall → Type 0
IsCallLinked g c = HasNode g c.call_from × ((l : ℕ) → c.lands ≡ some l → HasNode g l)

pub record IsLinked (s : ModuleGraph) (g : ProgramGraph) : Type 0 where
  pub entries_there : (f e : ℕ) → s.entry_of f ≡ some e → HasNode g e
  pub backs_there : (f : ℕ) (rs : List ℕ) → s.returns_of f ≡ some rs → All (HasNode g) rs

pub IsLinked-held :
    (s : ModuleGraph) (g h : ProgramGraph)
    → ((id : ℕ) → HasNode g id → HasNode h id)
    → IsLinked s g
    → IsLinked s h
IsLinked-held s g h kept l = record {
  entries_there = λ f e at. kept e (l.entries_there f e at);
  backs_there = λ f rs at. All-HasNode g h rs kept (l.backs_there f rs at);
}

pub calls_held :
    (g h : ProgramGraph) (cs : List ProgramCall)
    → ((id : ℕ) → HasNode g id → HasNode h id)
    → All (IsCallLinked g) cs
    → All (IsCallLinked h) cs
calls_held g h [] kept all = tt
calls_held g h (c ∷ cs) kept all =
    ((kept c.call_from all.0.0, λ l at. kept l (all.0.1 l at)), calls_held g h cs kept all.1)

pub symbols_held :
    (g h : ProgramGraph) (xs : List (ℕ × ℕ))
    → ((id : ℕ) → HasNode g id → HasNode h id)
    → All (λ x. HasNode g x.0) xs
    → All (λ x. HasNode h x.0) xs
symbols_held g h [] kept all = tt
symbols_held g h (x ∷ xs) kept all = (kept x.0 all.0, symbols_held g h xs kept all.1)

pub wire_landing-Wires :
    (lands : Option ℕ) (backs : Option (List ℕ)) (g : ProgramGraph)
    → Built g
    → ((l : ℕ) → lands ≡ some l → HasNode g l)
    → ((rs : List ℕ) → backs ≡ some rs → All (HasNode g) rs)
    → (h : ProgramGraph) × (wire_landing lands backs g ≡ some h)
      × Wires (landing_pair lands backs) g h
unfolding wire_landing
wire_landing-Wires none backs g b has all = (g, refl, Wires-refl g b)
wire_landing-Wires (some l) none g b has all = (g, refl, Wires-refl g b)
wire_landing-Wires (some l) (some rs) g b has all =
    let (h, made, kept) = wire_returns-HasNode g rs l (all rs refl) (has l refl) in
    (
      h,
      made,
      record {
        wired_built = (wire_returns-Keeps g h rs l b made).built_still;
        wired_edges = λ u v. wire_returns_lem g h rs l made u v;
        wired_nodes = kept;
      },
    )
