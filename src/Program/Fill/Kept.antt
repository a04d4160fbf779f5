-- ===== src/Program/Fill/Kept.antt =====
-- What the ends of a function and the book-keeping leave alone
-- (`ProgramGraph::fillGraphWithFunction` of lib/Graph/ProgramGraph.cpp).
use llta.Prelude.{
  ==_iff, Bool, List, Option, [], false, if◌then◌else◌, map, refl, suc, true, ℕ, ◌==◌, ◌∙◌, ◌∷◌,
  ◌≡◌,
}
use llta.Program.{ProgramGraph, fresh_node}
use llta.Program.Built.{Built}
use llta.Program.Fill.{
  Callee, MachineBlock, ModuleGraph, add_ends, body_ids, indirect, named, record_block,
  record_blocks, record_calls, return_ids, set_entry, symbol, with_new_node,
}
use llta.Program.Fill.Nodes.{Extends, Extends-trans, with_new_node-Extends}
use llta.Program.Wire.{HasNode, is_wired}

-- The book-keeping at the end of the function leaves the graph and the block map alone.
abbrev pub SameGraph : ModuleGraph → ModuleGraph → Type 0
SameGraph s t = (t.graph ≡ s.graph) × (t.node_of ≡ s.node_of)

record_calls-SameGraph :
    (b : MachineBlock) (cs : List Callee) (s : ModuleGraph) → SameGraph s (record_calls b s cs)
unfolding record_calls
record_calls-SameGraph b [] s = (refl, refl)
record_calls-SameGraph b (named f ∷ cs) s = record_calls-SameGraph b cs _
record_calls-SameGraph b (symbol x ∷ cs) s = record_calls-SameGraph b cs _
record_calls-SameGraph b (indirect ∷ cs) s = record_calls-SameGraph b cs s

pub put_returns-SameGraph :
    (c : Bool) (s : ModuleGraph) (new : ℕ → Option (List ℕ))
    → SameGraph s (if c then record s { returns_of = new } else s)
put_returns-SameGraph true s new = (refl, refl)
put_returns-SameGraph false s new = (refl, refl)

pub record_block-SameGraph :
    (function : ℕ) (s : ModuleGraph) (b : MachineBlock) → SameGraph s (record_block function s b)
unfolding record_block
record_block-SameGraph function s b =
    let one = put_returns-SameGraph b.returns s _ in
    let rest = record_calls-SameGraph b b.called _ in (rest.0 ∙ one.0, rest.1 ∙ one.1)

pub record_blocks-SameGraph :
    (function : ℕ) (s : ModuleGraph) (bs : List MachineBlock)
    → SameGraph s (record_blocks function s bs)
unfolding record_blocks
record_blocks-SameGraph function s [] = (refl, refl)
record_blocks-SameGraph function s (b ∷ bs) =
    let one = record_block-SameGraph function s b in
    let rest = record_blocks-SameGraph function (record_block function s b) bs in
    (rest.0 ∙ one.0, rest.1 ∙ one.1)

pub set_entry-SameGraph :
    (function : ℕ) (bs : List MachineBlock) (s : ModuleGraph)
    → SameGraph s (set_entry function bs s)
unfolding set_entry
set_entry-SameGraph function [] s = (refl, refl)
set_entry-SameGraph function (b ∷ bs) s = (refl, refl)

-- The edges of the entry and the exit, and the identifier of the first block.
abbrev pub end_pair : Bool → ℕ → (ℕ → Option ℕ) → List MachineBlock → ℕ → ℕ → Bool
end_pair false entry map bs u v = false
end_pair true entry map bs u v =
    is_wired (body_ids map bs) (return_ids map bs) entry (suc entry) u v

abbrev pub first_block : Bool → ℕ → ℕ
first_block false next = next
first_block true next = suc (suc next)

abbrev pub EndsThere : Bool → ProgramGraph → ℕ → Type 0
EndsThere false g entry = Unit {0}
EndsThere true g entry = HasNode g entry × HasNode g (suc entry)

pub add_ends-Extends :
    (is_start : Bool) (function : ℕ) (s : ModuleGraph)
    → Built s.graph
    → let t = add_ends is_start function s in
      Extends s.graph t.graph
      × EndsThere is_start t.graph s.graph.next_node_id
      × (t.graph.next_node_id ≡ first_block is_start s.graph.next_node_id)
      × (t.node_of ≡ s.node_of)
unfolding add_ends
add_ends-Extends false function s b = (
  record {
    built_on = b;
    same_edges = λ u v. refl;
    held = λ id has. has;
    costs_kept = λ id has. refl;
  },
  tt,
  refl,
  refl,
)
add_ends-Extends true function s b =
    let g = with_new_node s.graph (record (fresh_node 0 0) { name = "Entry" }) in
    let one =
      with_new_node-Extends s.graph (record (fresh_node 0 0) { name = "Entry" }) refl refl b in
    let two =
      with_new_node-Extends g (record (fresh_node 0 0) { name = "Exit" }) refl refl one.built_on in
    let id = s.graph.next_node_id in
    let self : (n : ℕ) → (n == n) ≡ true = λ n. (==_iff n n).1 refl in
    let entry : HasNode g id = (record (fresh_node 0 0) { name = "Entry" }, rw (self id) refl) in
    (
      Extends-trans s.graph g _ one two,
      (two.held id entry, (record (fresh_node 0 0) { name = "Exit" }, rw (self (suc id)) refl)),
      refl,
      refl,
    )

pub EndsThere-held :
    (is_start : Bool) (g h : ProgramGraph) (entry : ℕ)
    → ((id : ℕ) → HasNode g id → HasNode h id)
    → EndsThere is_start g entry
    → EndsThere is_start h entry
EndsThere-held false g h entry kept ends = tt
EndsThere-held true g h entry kept ends = (kept entry ends.0, kept (suc entry) ends.1)
