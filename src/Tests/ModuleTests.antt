-- ===== src/Tests/ModuleTests.antt =====
-- A module of two functions, its program graph and its calls (lib/Graph/ProgramGraph.cpp).
use llta.Loops.Back.{insert_pair, mem_pair}
use llta.Prelude.{
  Bool-cases, List, Option, [], arith, false, if◌then◌else◌, inl, inr, ltb, none, refl, some, subst,
  sym, true, ℕ, ◌+◌, ◌==◌, ◌||◌, ◌↔◌, ◌∷◌, ◌≡◌, ◌⊎◌,
}
use llta.Program.{ProgramGraph, link, modify, wire_entry_exit, wire_fallback, wire_returns}
use llta.Program.Built.{Built, nothing_yet}
use llta.Program.Cycles.{
  CallAdj, call_reaches, calls_back, cycle_callees, cycle_callers, in_cycle, reaches_from, scc_of,
}
use llta.Program.Cycles.Colors.{ClosesCycle}
use llta.Program.Cycles.Cut.{find_scc_back_edges_lem}
use llta.Program.Cycles.Exact.{IsAdj, IsCyclic, in_cycle_lem}
use llta.Program.Cycles.Groups.{Both, scc_of_lem}
use llta.Program.Cycles.Search.{
  dfs, dfs_callee, dfs_callees, dfs_root, dfs_roots, find_scc_back_edges,
}
use llta.Program.Fill.{
  FunctionFacts, MachineBlock, ModuleGraph, add_ends, block_node, fill_edge, fill_edges,
  fill_function, fill_nodes, fill_targets, landing, named, record_block, record_blocks,
  record_calls, return_ids, set_entry, symbol, wire_ends,
}
use llta.Program.Fill.Ready.{
  IsFunction, IsModule, IsModule-IsReady, empty_module, function_added, no_function,
}
use llta.Program.Fill.Total.{IsAdded, fill_function_lem}
use llta.Program.Finalize.{CallFacts}
use llta.Program.Finalize.Finish.{Finished, finalize}
use llta.Program.Finalize.Total.{IsFinished, IsNoted, IsReady, finalize-unsound, finalize_lem}
use llta.Program.Prune.{push_new}
use llta.Program.Prune.Fuel.{AllBelow}
use llta.Solver.Graph.{insert_id, mem_id}

abbrev plain_facts : FunctionFacts
plain_facts = record {
  latency_of = λ _. some 3;
  bound_of = λ _. none;
  is_back = λ from to. from == to;
  is_irreducible = λ from to. false;
}

-- A block that calls the second function and the start function, and the block that it returns to.
abbrev start_blocks : List MachineBlock
start_blocks =
    record {
      key = 10;
      block_name = "call";
      targets_of = 11 ∷ [];
      returns = false;
      fall_through = some 11;
      called = named 1 ∷ [];
    }
    ∷ record {
      key = 11;
      block_name = "return";
      targets_of = [];
      returns = true;
      fall_through = none;
      called = [];
    }
    ∷ []

-- A block that calls a symbol, a declared function and the start function.
abbrev callee_blocks : List MachineBlock
callee_blocks =
    record {
      key = 20;
      block_name = "leaf";
      targets_of = [];
      returns = true;
      fall_through = none;
      called = symbol 7 ∷ named 2 ∷ named 0 ∷ [];
    }
    ∷ []

fill_function_lem_example :
    (t : ModuleGraph) × (fill_function plain_facts true 0 start_blocks empty_module ≡ some t)
    × IsAdded plain_facts true start_blocks empty_module t
unfolding mem_id
fill_function_lem_example =
    fill_function_lem plain_facts true 0 start_blocks empty_module nothing_yet
      ((refl, tt), (tt, tt))

abbrev module_or_empty : Option ModuleGraph → ModuleGraph
module_or_empty none = empty_module
module_or_empty (some s) = s

one_function : ModuleGraph
one_function = module_or_empty (fill_function plain_facts true 0 start_blocks empty_module)

two_functions : ModuleGraph
two_functions = module_or_empty (fill_function plain_facts false 1 callee_blocks one_function)

start-IsFunction : IsFunction 3 0 start_blocks
unfolding mem_id
start-IsFunction = record {
  function_below = omega arith;
  all_targets = ((refl, tt), (tt, tt));
  all_callees = ((omega arith, tt), (tt, tt));
}

callee-IsFunction : IsFunction 3 1 callee_blocks
unfolding mem_id
callee-IsFunction = record {
  function_below = omega arith;
  all_targets = (tt, tt);
  all_callees = ((omega arith, (omega arith, tt)), tt);
}

filled_or : (o : Option ModuleGraph) (t : ModuleGraph) → o ≡ some t → o ≡ some (module_or_empty o)
filled_or none t e = absurd (cc)
filled_or (some s) t e = refl

one-IsModule : IsModule 3 one_function
unfolding one_function mem_id
one-IsModule =
    let (t, made, _) =
      fill_function_lem plain_facts true 0 start_blocks empty_module nothing_yet
        ((refl, tt), (tt, tt)) in
    function_added plain_facts true 0 start_blocks start-IsFunction
      (filled_or (fill_function plain_facts true 0 start_blocks empty_module) t made) no_function

one-Built : Built one_function.graph
unfolding mem_id one_function
one-Built =
    let (t, made, added) =
      fill_function_lem plain_facts true 0 start_blocks empty_module nothing_yet
        ((refl, tt), (tt, tt)) in
    subst (λ (o : Option ModuleGraph). Built (module_or_empty o).graph) (sym made) added.built_now

two-IsModule : IsModule 3 two_functions
unfolding two_functions mem_id
two-IsModule =
    let (t, made, _) =
      fill_function_lem plain_facts false 1 callee_blocks one_function one-Built (tt, tt) in
    function_added plain_facts false 1 callee_blocks callee-IsFunction
      (filled_or (fill_function plain_facts false 1 callee_blocks one_function) t made) one-IsModule

two_entry : two_functions.entry_node ≡ some 0
unfolding two_functions one_function fill_function add_ends fill_nodes block_node wire_ends
    wire_entry_exit wire_returns wire_fallback link modify return_ids fill_edges fill_targets
    fill_edge record_blocks record_block record_calls set_entry landing insert_id
two_entry = refl

-- The second function's calls of symbol 7 and of function 2 have no cost.
abbrev call_facts : CallFacts
call_facts = record {
  name_of = λ f. f + 100;
  is_declaration = λ f. f == 2;
  external_cost = λ _. none;
  recursion_bound = λ _. some 4;
  function_count = 3;
}

IsModule-IsReady_example : IsReady call_facts two_functions 0
IsModule-IsReady_example = IsModule-IsReady call_facts two_functions 0 two-IsModule two_entry

finalize_lem_example :
    (t : Finished) × (finalize call_facts two_functions ≡ some t)
    × ((g : ProgramGraph) × IsFinished call_facts two_functions 0 g t)
finalize_lem_example =
    finalize_lem call_facts two_functions 0
      (IsModule-IsReady call_facts two_functions 0 two-IsModule two_entry)

abbrev finished : Finished
finished =
    (finalize_lem call_facts two_functions 0
      (IsModule-IsReady call_facts two_functions 0 two-IsModule two_entry)).0

finalize-unsound_example : IsNoted call_facts two_functions finished
finalize-unsound_example =
    finalize-unsound call_facts two_functions 0 finished
      (IsModule-IsReady call_facts two_functions 0 two-IsModule two_entry)
      (finalize_lem call_facts two_functions 0
        (IsModule-IsReady call_facts two_functions 0 two-IsModule two_entry)).1

-- Functions 0 and 1 call each other, and 1 calls 2.
abbrev ring : CallAdj
ring = record {
  callers = 0 ∷ 1 ∷ [];
  callees = λ f. if f == 0 then 1 ∷ [] else (if f == 1 then 0 ∷ 2 ∷ [] else []);
}

ring_below : (f : ℕ) → AllBelow 3 (ring.callees f)
ring_below f = elim (Bool-cases (f == 0)) [
  | inl zeroth ↦ rw zeroth (omega arith, tt)
  | inr other ↦ elim (Bool-cases (f == 1)) [
    | inl first ↦ rw (other, first) (omega arith, (omega arith, tt))
    | inr last_one ↦ rw (other, last_one) tt
  ]
]

ring_callers : (f c : ℕ) → mem_id c (ring.callees f) ≡ true → mem_id f ring.callers ≡ true
unfolding mem_id
ring_callers f c h = ground arith

ring-IsAdj : IsAdj 3 ring
ring-IsAdj = record {
  callers_below = (omega arith, (omega arith, tt));
  callees_below = λ f less. ring_below f;
  callers_all = ring_callers;
}

in_cycle_lem_example :
    (r : List ℕ) × (in_cycle 3 ring ≡ some r)
    × ((v : ℕ) → (mem_id v r ≡ true) ↔ IsCyclic ring.callees v)
in_cycle_lem_example = in_cycle_lem 3 ring ring-IsAdj

ring_cycle : in_cycle 3 ring ≡ some (0 ∷ 1 ∷ [])
unfolding in_cycle cycle_callers cycle_callees calls_back call_reaches reaches_from push_new
    insert_id
ring_cycle = refl

scc_of_lem_example :
    (r : List ℕ) × (scc_of 3 ring (0 ∷ 1 ∷ []) 0 ≡ some r)
    × ((g : ℕ) → (mem_id g r ≡ true) ↔ ((0 ≡ g) ⊎ Both ring.callees 0 g))
    × ((g : ℕ)
        → mem_id g (0 ∷ 1 ∷ []) ≡ true
        → Both ring.callees 0 g
        → (q : List ℕ) × (scc_of 3 ring (0 ∷ 1 ∷ []) g ≡ some q)
          × ((h : ℕ) → (mem_id h r ≡ true) ↔ (mem_id h q ≡ true)))
unfolding mem_id
scc_of_lem_example = scc_of_lem 3 ring ring-IsAdj (0 ∷ 1 ∷ []) ring_cycle 0 refl

find_scc_back_edges_lem_example :
    (back : List (ℕ × ℕ)) × (find_scc_back_edges (0 ∷ 1 ∷ []) (0 ∷ []) ring.callees ≡ some back)
    × ((u v : ℕ) → mem_pair u v back ≡ true → ClosesCycle (0 ∷ 1 ∷ []) ring.callees u v)
    × ((rank : ℕ → ℕ) × ((u v : ℕ)
          → mem_id u (0 ∷ 1 ∷ []) ≡ true
          → mem_id v (0 ∷ 1 ∷ []) ≡ true
          → mem_id v (ring.callees u) ≡ true
          → (mem_pair u v back || ltb (rank v) (rank u)) ≡ true))
unfolding mem_id
find_scc_back_edges_lem_example =
    find_scc_back_edges_lem (0 ∷ 1 ∷ []) (0 ∷ []) ring.callees (λ v h. ground (arith, h))

-- The call from function 1 back to function 0 closes the cycle.
ring_back : find_scc_back_edges (0 ∷ 1 ∷ []) (0 ∷ []) ring.callees ≡ some ((1, 0) ∷ [])
unfolding find_scc_back_edges dfs_roots dfs_root dfs dfs_callees dfs_callee mem_id insert_pair
    mem_pair
ring_back = refl
