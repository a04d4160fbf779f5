-- ===== src/Program/Fill/Maps.antt =====
-- What the maps name after a machine function is added (`ProgramGraph::fillGraphWithFunction` of
-- lib/Graph/ProgramGraph.cpp).
use llta.Prelude.{
  All, Bool, Bool-cases, List, Option, [], false, if◌then◌else◌, inl, inr, map, none, refl, some,
  subst, sym, true, ℕ, ◌++◌, ◌<◌, ◌==◌, ◌∙◌, ◌∷◌, ◌≡◌,
}
use llta.Program.{ProgramGraph}
use llta.Program.Fill.{
  Callee, MachineBlock, ModuleGraph, indirect, landing, named, node_at, record_block, record_blocks,
  record_calls, set_entry, symbol,
}
use llta.Program.Fill.Kept.{put_returns-SameGraph, record_block-SameGraph}
use llta.Program.Finalize.Wired.{IsCallLinked, IsLinked, IsLinked-held, calls_held, symbols_held}
use llta.Program.Wire.{HasNode}
use llta.Solver.Graph.{put}

-- What the maps, the calls and the entry name are nodes of the graph, and functions are below their
-- number.
pub record IsMapped (n : ℕ) (s : ModuleGraph) (g : ProgramGraph) : Type 0 where
  pub blocks_there : (k id : ℕ) → s.node_of k ≡ some id → HasNode g id
  pub links_there : IsLinked s g
  pub calls_there : All (IsCallLinked g) s.calls
  pub symbols_there : All (λ x. HasNode g x.0) s.symbol_calls
  pub entry_there : (id : ℕ) → s.entry_node ≡ some id → HasNode g id
  pub owners_below : (node f : ℕ) → s.function_of node ≡ some f → f < n
  pub callees_below_it : All (λ c. c.call_to < n) s.calls

pub IsMapped-held :
    (n : ℕ) (s : ModuleGraph) (g h : ProgramGraph)
    → ((id : ℕ) → HasNode g id → HasNode h id)
    → IsMapped n s g
    → IsMapped n s h
IsMapped-held n s g h kept m = record {
  blocks_there = λ k id at. kept id (m.blocks_there k id at);
  links_there = IsLinked-held s g h kept m.links_there;
  calls_there = calls_held g h s.calls kept m.calls_there;
  symbols_there = symbols_held g h s.symbol_calls kept m.symbols_there;
  entry_there = λ id at. kept id (m.entry_there id at);
  owners_below = m.owners_below;
  callees_below_it = m.callees_below_it;
}

All-snoc :
    {A : Type 0} (P : A → Type 0) (xs : List A) (x : A) → All P xs → P x → All P (xs ++ x ∷ [])
All-snoc P [] x all h = (h, tt)
All-snoc P (y ∷ ys) x all h = (all.0, All-snoc P ys x all.1 h)

-- The functions that the calls of a block name.
abbrev pub AllCallees : ℕ → List Callee → Type 0
AllCallees n [] = Unit
AllCallees n (named f ∷ cs) = (f < n) × AllCallees n cs
AllCallees n (symbol x ∷ cs) = AllCallees n cs
AllCallees n (indirect ∷ cs) = AllCallees n cs

module _ (n : ℕ) (g : ProgramGraph) where
  lands_there :
      (s : ModuleGraph) (o : Option ℕ)
      → IsMapped n s g
      → (l : ℕ) → elim o [ none ↦ none | some k ↦ s.node_of k ] ≡ some l
      → HasNode g l
  lands_there s none m l h = absurd (cc)
  lands_there s (some k) m l h = m.blocks_there k l h

  record_calls-IsMapped :
      (b : MachineBlock) (cs : List Callee) (s : ModuleGraph)
      → AllCallees n cs
      → HasNode g (node_at s.node_of b.key)
      → IsMapped n s g
      → IsMapped n (record_calls b s cs) g
  unfolding record_calls
  record_calls-IsMapped b [] s low has m = m
  record_calls-IsMapped b (named f ∷ cs) s low has m =
      record_calls-IsMapped b cs _ low.1 has (record {
        blocks_there = m.blocks_there;
        links_there = record {
          entries_there = m.links_there.entries_there;
          backs_there = m.links_there.backs_there;
        };
        calls_there =
            All-snoc (IsCallLinked g) s.calls _ m.calls_there (has, lands_there s (landing b) m);
        symbols_there = m.symbols_there;
        entry_there = m.entry_there;
        owners_below = m.owners_below;
        callees_below_it = All-snoc (λ c. c.call_to < n) s.calls _ m.callees_below_it low.0;
      })
  record_calls-IsMapped b (symbol x ∷ cs) s low has m =
      record_calls-IsMapped b cs _ low has (record {
        blocks_there = m.blocks_there;
        links_there = record {
          entries_there = m.links_there.entries_there;
          backs_there = m.links_there.backs_there;
        };
        calls_there = m.calls_there;
        symbols_there = All-snoc (λ y. HasNode g y.0) s.symbol_calls _ m.symbols_there has;
        entry_there = m.entry_there;
        owners_below = m.owners_below;
        callees_below_it = m.callees_below_it;
      })
  record_calls-IsMapped b (indirect ∷ cs) s low has m = record_calls-IsMapped b cs s low has m

  old_returns_there :
      (s : ModuleGraph) (o : Option (List ℕ)) (function : ℕ)
      → s.returns_of function ≡ o
      → IsMapped n s g
      → All (HasNode g) (elim o [ none ↦ [] | some ids ↦ ids ])
  old_returns_there s none function e m = tt
  old_returns_there s (some ids) function e m = m.links_there.backs_there function ids e

  put_returns-IsMapped :
      (c : Bool) (s : ModuleGraph) (function : ℕ) (ids : List ℕ)
      → All (HasNode g) ids
      → IsMapped n s g
      → IsMapped n
          (if c then record s { returns_of = put s.returns_of function (some ids) } else s)
          g
  put_returns-IsMapped false s function ids all m = m
  put_returns-IsMapped true s function ids all m = record {
    blocks_there = m.blocks_there;
    links_there = record {
      entries_there = m.links_there.entries_there;
      backs_there = λ f rs h. elim (Bool-cases (function == f)) [
        | inl same ↦
            let at : some ids ≡ some rs = sym (rw same refl) ∙ h in
            let e : ids ≡ rs = cc in subst (All (HasNode g)) e all
        | inr apart ↦ m.links_there.backs_there f rs (sym (rw apart refl) ∙ h)
      ];
    };
    calls_there = m.calls_there;
    symbols_there = m.symbols_there;
    entry_there = m.entry_there;
    owners_below = m.owners_below;
    callees_below_it = m.callees_below_it;
  }

  -- Every block has a node, and its calls are of functions of the module.
  abbrev pub BlocksThere : (ℕ → Option ℕ) → List MachineBlock → Type 0
  BlocksThere map bs = All (λ b. HasNode g (node_at map b.key) × AllCallees n b.called) bs

  pub record_blocks-IsMapped :
      (function : ℕ) (bs : List MachineBlock) (s : ModuleGraph)
      → BlocksThere s.node_of bs
      → IsMapped n s g
      → IsMapped n (record_blocks function s bs) g
  unfolding record_blocks record_block
  record_blocks-IsMapped function [] s all m = m
  record_blocks-IsMapped function (b ∷ bs) s all m =
      let old = old_returns_there s (s.returns_of function) function refl m in
      let id = node_at s.node_of b.key in
      let ids = elim (s.returns_of function) [ none ↦ [] | some rs ↦ rs ] ++ id ∷ [] in
      let one =
        put_returns-IsMapped b.returns s function ids (All-snoc (HasNode g) _ id old all.0.0) m in
      let same = put_returns-SameGraph b.returns s (put s.returns_of function (some ids)) in
      let two =
        record_calls-IsMapped b b.called _ all.0.1
          (subst (λ (k : ℕ → Option ℕ). HasNode g (node_at k b.key)) (sym same.1) all.0.0) one in
      record_blocks-IsMapped function bs (record_block function s b)
        (subst (λ (k : ℕ → Option ℕ). BlocksThere k bs)
          (sym (record_block-SameGraph function s b).1) all.1)
        two

  pub set_entry-IsMapped :
      (function : ℕ) (bs : List MachineBlock) (s : ModuleGraph)
      → BlocksThere s.node_of bs
      → IsMapped n s g
      → IsMapped n (set_entry function bs s) g
  unfolding set_entry
  set_entry-IsMapped function [] s all m = m
  set_entry-IsMapped function (b ∷ bs) s all m = record {
    blocks_there = m.blocks_there;
    links_there = record {
      entries_there = λ f e h. elim (Bool-cases (function == f)) [
        | inl same ↦
            let at : some (node_at s.node_of b.key) ≡ some e = sym (rw same refl) ∙ h in
            let here : node_at s.node_of b.key ≡ e = cc in subst (HasNode g) here all.0.0
        | inr apart ↦ m.links_there.entries_there f e (sym (rw apart refl) ∙ h)
      ];
      backs_there = m.links_there.backs_there;
    };
    calls_there = m.calls_there;
    symbols_there = m.symbols_there;
    entry_there = m.entry_there;
    owners_below = m.owners_below;
    callees_below_it = m.callees_below_it;
  }
