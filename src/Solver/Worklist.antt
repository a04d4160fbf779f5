-- ===== src/Solver/Worklist.antt =====
-- The worklist algorithm over a machine function (lib/Analysis/WorklistSolver.cpp,
-- include/Analysis/WorklistSolver.h).
pub mod Queue
pub mod Transfer
pub mod Fixpoint
pub mod Initial
pub mod Shape
pub mod Run
pub mod Ascent
pub mod Mono
pub mod Climb
pub mod Potential
pub mod Degree
pub mod Total
pub mod Stalled
use llta.Prelude.{
  Bool, List, Option, [], false, get_elem?, if◌then◌else◌, length, none, some, suc, true, zero, ℕ,
  ◌++◌, ◌==◌, ◌∷◌,
}
use llta.Solver.Analysable.{AbstractAnalysable, process_block}
use llta.Solver.Graph.{
  AbstractStateGraph, Edge, Node, add_edge, add_node, empty_graph, get_node, get_predecessors,
  get_successors, new_node, put, set_node,
}

-- What the solver reads of LLVM's machine function: the instructions of each block in layout order,
-- its successors by position, and whether it returns. A block stands for its position.
pub record Block (Instr : Type 0) : Type 0 where
  pub instrs : List Instr
  pub succs : List ℕ
  pub is_return : Bool

abbrev pub MachineFunction : Type 0 → Type 0
MachineFunction Instr = List (Block Instr)

-- `MachineLoopInfo`: the header of the innermost loop of a block.
abbrev pub LoopInfo : Type 0
LoopInfo = ℕ → Option ℕ

-- The solver's state. `InWorklist` is a set of identifiers.
pub record WorklistSolver (State : Type 0) : Type 0 where
  pub graph : AbstractStateGraph State
  pub worklist : List ℕ
  pub in_worklist : ℕ → Bool

module _ {State : Type 0} where
  unfoldable pub add_to_worklist : WorklistSolver State → ℕ → WorklistSolver State
  add_to_worklist s id =
      if s.in_worklist id
      then s
      else record s { worklist = s.worklist ++ id ∷ []; in_worklist = put s.in_worklist id true }

  -- The front of the list and the solver without it; none for an empty list.
  unfoldable pub take_from_worklist : WorklistSolver State → Option (ℕ × WorklistSolver State)
  take_from_worklist s = elim s.worklist [
    | [] ↦ none
    | id ∷ rest ↦ some (id, record s { worklist = rest; in_worklist = put s.in_worklist id false })
  ]

  -- `for (Edge : getSuccessors(NodeId)) addToWorklist(Edge.To)`.
  unfoldable pub add_targets : WorklistSolver State → List Edge → WorklistSolver State
  add_targets s [] = s
  add_targets s (e ∷ es) = add_targets (add_to_worklist s e.to) es

module _ (analysis : AbstractAnalysable) where
  open analysis use {State, Instr, initial_state, equals, join}

  -- A node whose block is the header of its loop; both tables must be given.
  unfoldable pub mark_header : Option LoopInfo → Option (ℕ → Option ℕ) → ℕ → Node State → Node State
  mark_header (some loops) (some bounds) id n = elim (loops id) [
    | some header ↦
        if header == id
        then record n {
          is_loop_header = true;
          upper_loop_bound = elim (bounds id) [ some b ↦ b | none ↦ n.upper_loop_bound ];
        }
        else n
    | none ↦ n
  ]
  mark_header _ _ id n = n

  unfoldable pub create_node :
      Option LoopInfo → Option (ℕ → Option ℕ) → AbstractStateGraph State → AbstractStateGraph State
  create_node loops bounds g =
      let (g', id) = add_node g initial_state (some (length g.nodes)) in
      set_node g' id (mark_header loops bounds id (new_node initial_state (some id)))

  -- `for (auto &MBB : MF)`: a node for each block.
  unfoldable pub create_nodes :
      Option LoopInfo
      → Option (ℕ → Option ℕ)
      → AbstractStateGraph State
      → MachineFunction Instr
      → AbstractStateGraph State
  create_nodes loops bounds g [] = g
  create_nodes loops bounds g (_ ∷ blocks) =
      create_nodes loops bounds (create_node loops bounds g) blocks

  -- An edge to the header of the loop of its source is a back edge.
  unfoldable pub is_back : Option LoopInfo → ℕ → ℕ → Bool
  is_back none from to = false
  is_back (some loops) from to = elim (loops from) [ some header ↦ header == to | none ↦ false ]

  unfoldable pub connect_block :
      Option LoopInfo → AbstractStateGraph State → ℕ → List ℕ → AbstractStateGraph State
  connect_block loops g from [] = g
  connect_block loops g from (to ∷ succs) =
      connect_block loops (add_edge g from to (is_back loops from to)) from succs

  unfoldable pub connect :
      Option LoopInfo
      → AbstractStateGraph State
      → ℕ
      → MachineFunction Instr
      → AbstractStateGraph State
  connect loops g from [] = g
  connect loops g from (b ∷ blocks) =
      connect loops (connect_block loops g from b.succs) (suc from) blocks

  unfoldable pub mark_exit : AbstractStateGraph State → ℕ → Bool → AbstractStateGraph State
  mark_exit g id is_return = elim (get_node g id) [
    | some n ↦ if is_return then set_node g id (record n { is_exit = true }) else g
    | none ↦ g
  ]

  -- The last loop of `initializeGraph`: a block that returns is an exit.
  unfoldable pub mark_exits :
      AbstractStateGraph State → ℕ → MachineFunction Instr → AbstractStateGraph State
  mark_exits g id [] = g
  mark_exits g id (b ∷ blocks) = mark_exits (mark_exit g id b.is_return) (suc id) blocks

  unfoldable pub mark_entry : AbstractStateGraph State → AbstractStateGraph State
  mark_entry g = elim (get_node g 0) [
    | some n ↦ set_node g 0 (record n { is_entry = true })
    | none ↦ g
  ]

  -- The entry block of a function that has one is queued and marked.
  unfoldable pub enter : MachineFunction Instr → AbstractStateGraph State → WorklistSolver State
  enter [] g = record { graph = g; worklist = []; in_worklist = λ _. false }
  enter (_ ∷ _) g =
      add_to_worklist (record { graph = mark_entry g; worklist = []; in_worklist = λ _. false }) 0

  -- `initializeGraph(MF, MLI, LoopBounds)`. Only the entry block is put on the worklist.
  unfoldable pub initialize_graph :
      Option LoopInfo → Option (ℕ → Option ℕ) → MachineFunction Instr → WorklistSolver State
  initialize_graph loops bounds mf =
      let s = enter mf (connect loops (create_nodes loops bounds empty_graph mf) 0 mf) in
      record s { graph = mark_exits s.graph 0 mf }

  -- The join over the predecessors, with the state so far; none while `FirstPred` holds.
  unfoldable pub join_preds : AbstractStateGraph State → Option State → List ℕ → Option State
  join_preds g acc [] = acc
  join_preds g acc (p ∷ ps) =
      join_preds g
        (elim (get_node g p) [
          | none ↦ acc
          | some n ↦ elim acc [ none ↦ some n.state | some s ↦ some (join s n.state).0 ]
        ])
        ps

  -- `InState` before the block is processed.
  unfoldable pub in_state : AbstractStateGraph State → ℕ → State
  unfolding join_preds
  in_state g id = elim (join_preds g none (get_predecessors g id)) [
    | none ↦ initial_state
    | some s ↦ s
  ]

  -- `Process`: the instructions of the node's block, if it has one.
  unfoldable pub process_node : MachineFunction Instr → State → Option ℕ → State × ℕ
  process_node mf s none = (s, 0)
  process_node mf s (some b) = elim (get_elem? mf b) [
    | some block ↦ process_block analysis s 0 block.instrs
    | none ↦ (s, 0)
  ]

  -- The state and the cost that a round computes for a node.
  abbrev pub transfer : MachineFunction Instr → AbstractStateGraph State → ℕ → Option ℕ → State × ℕ
  transfer mf g id block = process_node mf (in_state g id) block

  -- The body of the loop, after the node left the worklist.
  unfoldable pub visit : MachineFunction Instr → WorklistSolver State → ℕ → WorklistSolver State
  visit mf s id = elim (get_node s.graph id) [
    | none ↦ s
    | some n ↦
        let (out, cost) = transfer mf s.graph id n.block in
        if equals n.state out
        then record s { graph = set_node s.graph id (record n { cost = cost }) }
        else add_targets
            (record s { graph = set_node s.graph id (record n { cost = cost; state = out }) })
            (get_successors s.graph id)
  ]

  -- `while (!Worklist.empty())` on fuel; none when the fuel runs out.
  unfoldable pub solve :
      ℕ → MachineFunction Instr → WorklistSolver State → Option (WorklistSolver State)
  solve zero mf s = elim (take_from_worklist s) [ none ↦ some s | some _ ↦ none ]
  solve (suc fuel) mf s = elim (take_from_worklist s) [
    | none ↦ some s
    | some (id, rest) ↦ solve fuel mf (visit mf rest id)
  ]

  -- `run(MF, MLI, LoopBounds)`.
  unfoldable pub run :
      ℕ
      → Option LoopInfo
      → Option (ℕ → Option ℕ)
      → MachineFunction Instr
      → Option (WorklistSolver State)
  run fuel loops bounds mf = solve fuel mf (initialize_graph loops bounds mf)
