-- ===== src/Solver/Worklist/Climb.antt =====
-- Every state lies below the transfer of its node, and a round makes no state smaller
-- (`WorklistSolver::run` of lib/Analysis/WorklistSolver.cpp).
use native.Mathlib.Nat.{mul-le-mul_right, suc-mul}
use llta.Prelude.{
  ==_iff, Bool-cases, List, Option, Option-cases, [], ap, arith, false, get_elem?, inl, inr, length,
  length-append, refl, set_origin, some, subst, suc, ℕ, ◌*◌, ◌+◌, ◌<◌, ◌==◌, ◌∙◌, ◌∷◌, ◌≡◌, ◌≤◌,
}
use llta.Solver.Analysable.{AbstractAnalysable}
use llta.Solver.Graph.{AbstractStateGraph, Edge, Node, get_node, set_node}
use llta.Solver.Worklist.{
  MachineFunction, WorklistSolver, add_targets, add_to_worklist, transfer, visit,
}
use llta.Solver.Worklist.Ascent.{AllKnown, Ascends}
use llta.Solver.Worklist.Fixpoint.{state_of-set_node, state_of_there}
use llta.Solver.Worklist.Mono.{LeGraph, transfer-mono}
use llta.Solver.Worklist.Potential.{potential, potential-set}
use llta.Solver.Worklist.Queue.{graph-add_targets}
use llta.Solver.Worklist.Transfer.{state_of}

pub length-add_targets :
    {State : Type 0} (s : WorklistSolver State) (es : List Edge)
    → length (add_targets s es).worklist ≤ length s.worklist + length es
unfolding add_targets add_to_worklist
length-add_targets s [] = omega arith
length-add_targets s (e ∷ es) =
    let rest = length-add_targets (add_to_worklist s e.to) es in
    elim (Bool-cases (s.in_worklist e.to)) [
      | inl waits ↦ ground (arith, rest)
      | inr new ↦ ground (arith, rest, length-append s.worklist (e.to ∷ []))
    ]

module _ (analysis : AbstractAnalysable) (ascends : Ascends analysis) where
  open analysis use {State, Instr, initial_state, equals, join}
  open ascends use {Valid, Le, le_refl, le_trans, height, rank, rank_height, rank_grows}

  module _ (mf : MachineFunction Instr) (known : AllKnown ascends mf) where
    pub record Climbs (g : AbstractStateGraph State) : Type 0 where
      pub valid : (id : ℕ) (n : Node State) → get_elem? g.nodes id ≡ some n → Valid n.state
      pub below_transfer :
          (id : ℕ) (n : Node State)
          → get_elem? g.nodes id ≡ some n
          → Le n.state (transfer analysis mf g id n.block).0

    pub LeGraph-refl :
        (g : AbstractStateGraph State)
        → ((id : ℕ) (n : Node State) → get_elem? g.nodes id ≡ some n → Valid n.state)
        → LeGraph analysis ascends g g
    LeGraph-refl g valid p = elim (Option-cases (get_elem? g.nodes p)) [
      | inl gone ↦ rw (gone, state_of) tt
      | inr (n, there) ↦
          rw (state_of_there analysis mf g p n there)
            (valid p n there, valid p n there, le_refl n.state)
    ]

    -- A write of a larger state that lies below the transfer.
    set_node-LeGraph :
        (g : AbstractStateGraph State) (id : ℕ) (n m : Node State)
        → Climbs g
        → get_elem? g.nodes id ≡ some n
        → Valid m.state
        → Le n.state m.state
        → LeGraph analysis ascends g (set_node g id m)
    set_node-LeGraph g id n m c there v le p =
        let now = state_of-set_node analysis mf g id n m p there in
        elim (Bool-cases (id == p)) [
          | inl here ↦
              let was : state_of analysis g p ≡ some n.state =
                rw (← (==_iff id p).0 here) (state_of_there analysis mf g id n there) in
              let is : state_of analysis (set_node g id m) p ≡ some m.state = now ∙ rw here refl in
              rw (was, is) (c.valid id n there, v, le)
          | inr apart ↦
              let same : state_of analysis (set_node g id m) p ≡ state_of analysis g p =
                now ∙ rw apart refl in
              rw same (LeGraph-refl g c.valid p)
        ]

    pub set_node-Climbs :
        (g : AbstractStateGraph State) (id : ℕ) (n m : Node State)
        → Climbs g
        → get_elem? g.nodes id ≡ some n
        → m.block ≡ n.block
        → Valid m.state
        → Le n.state m.state
        → Le m.state (transfer analysis mf g id n.block).0
        → Climbs (set_node g id m)
    set_node-Climbs g id n m c there block v le up =
        let rel = set_node-LeGraph g id n m c there v le in
        let grows : (j : ℕ) (b : Option ℕ)
            → Le (transfer analysis mf g j b).0 (transfer analysis mf (set_node g id m) j b).0 =
          λ j b.
            (transfer-mono analysis ascends mf g (set_node g id m) j b known
              (unfold set_node in refl) rel).2 in
        let base : Le m.state (transfer analysis mf (set_node g id m) id m.block).0 =
          le_trans m.state (transfer analysis mf g id m.block).0
            (transfer analysis mf (set_node g id m) id m.block).0 (rw block up)
            (grows id m.block) in
        record {
          valid = λ j k at. elim (set_origin g.nodes id j m k (unfold set_node in at)) [
            | inl old ↦ c.valid j k old
            | inr (_, new) ↦ subst (λ (x : Node State). Valid x.state) new v
          ];
          below_transfer = λ j k at. elim (set_origin g.nodes id j m k (unfold set_node in at)) [
            | inl old ↦
                le_trans k.state (transfer analysis mf g j k.block).0
                  (transfer analysis mf (set_node g id m) j k.block).0 (c.below_transfer j k old)
                  (grows j k.block)
            | inr (place, new) ↦
                subst
                  (λ (x : Node State).
                    Le x.state (transfer analysis mf (set_node g id m) j x.block).0)
                  new (rw place base)
          ];
        }

    -- Every transfer of such a graph is a state that occurs.
    pub transfer-Valid :
        (g : AbstractStateGraph State) (id : ℕ) (block : Option ℕ)
        → Climbs g
        → Valid (transfer analysis mf g id block).0
    transfer-Valid g id block c =
        (transfer-mono analysis ascends mf g g id block known refl (LeGraph-refl g c.valid)).0

    -- What is left to do, with `bound` edges at each node.
    abbrev pub remaining : ℕ → WorklistSolver State → ℕ
    remaining bound s = potential analysis ascends s.graph.nodes * suc bound + length s.worklist

    grown_lem :
        (bound before after more work : ℕ)
        → suc after ≤ before
        → more ≤ bound
        → after * suc bound + (work + more) ≤ before * suc bound + work
    grown_lem bound before after more work less few =
        omega (arith, mul-le-mul_right (suc bound) less, suc-mul after (suc bound))

    step_same :
        (s : WorklistSolver State) (id bound : ℕ) (n : Node State) (cost : ℕ)
        → Climbs s.graph
        → get_elem? s.graph.nodes id ≡ some n
        → Climbs (set_node s.graph id (record n { cost = cost }))
          × ((set_node s.graph id (record n { cost = cost })).adjacency ≡ s.graph.adjacency)
          × (remaining bound (record s { graph = set_node s.graph id (record n { cost = cost }) })
              ≤ remaining bound s)
    step_same s id bound n cost c there =
        let m : Node State = record n { cost = cost } in
        let valid = c.valid id n there in
        let held : potential analysis ascends (set_node s.graph id m).nodes
            ≡ potential analysis ascends s.graph.nodes =
          unfold set_node in
          omega (arith, potential-set analysis ascends s.graph.nodes id n m there) in
        (
          set_node-Climbs s.graph id n m c there refl valid (le_refl n.state)
              (c.below_transfer id n there),
          unfold set_node in refl,
          rw held (omega arith),
        )

    step_grown :
        (s : WorklistSolver State) (id bound : ℕ) (n : Node State) (cost : ℕ)
        → Climbs s.graph
        → length (s.graph.adjacency id) ≤ bound
        → get_elem? s.graph.nodes id ≡ some n
        → equals n.state (transfer analysis mf s.graph id n.block).0 ≡ false
        → let out : State = (transfer analysis mf s.graph id n.block).0 in
          let s' : WorklistSolver State = record s {
            graph = set_node s.graph id (record n { cost = cost; state = out });
          } in
          Climbs (add_targets s' (s.graph.adjacency id)).graph
          × ((add_targets s' (s.graph.adjacency id)).graph.adjacency ≡ s.graph.adjacency)
          × (remaining bound (add_targets s' (s.graph.adjacency id)) ≤ remaining bound s)
    step_grown s id bound n cost c few there changed =
        let out : State = (transfer analysis mf s.graph id n.block).0 in
        let m : Node State = record n { cost = cost; state = out } in
        let s' : WorklistSolver State = record s { graph = set_node s.graph id m } in
        let es = s.graph.adjacency id in
        let valid = c.valid id n there in
        let up = c.below_transfer id n there in
        let reached = transfer-Valid s.graph id n.block c in
        let larger : rank n.state < rank out = rank_grows n.state out valid reached up changed in
        let capped : rank out ≤ height = rank_height out reached in
        let less : suc (potential analysis ascends (set_node s.graph id m).nodes)
            ≤ potential analysis ascends s.graph.nodes =
          unfold set_node in
          omega (arith, potential-set analysis ascends s.graph.nodes id n m there) in
        let graph = graph-add_targets s' es in
        (
          rw graph (set_node-Climbs s.graph id n m c there refl reached up (le_refl out)),
          ap (λ (g : AbstractStateGraph State). g.adjacency) graph ∙ (unfold set_node in refl),
          rw graph (
              omega (
                arith,
                length-add_targets s' es,
                grown_lem bound (potential analysis ascends s.graph.nodes)
                    (potential analysis ascends (set_node s.graph id m).nodes) (length es)
                    (length s.worklist) less few,
              )),
        )

    -- A visit keeps the order and leaves no more to do.
    pub visit_step :
        (s : WorklistSolver State) (id bound : ℕ)
        → Climbs s.graph
        → length (s.graph.adjacency id) ≤ bound
        → Climbs (visit analysis mf s id).graph
          × ((visit analysis mf s id).graph.adjacency ≡ s.graph.adjacency)
          × (remaining bound (visit analysis mf s id) ≤ remaining bound s)
    unfolding visit get_node
    visit_step s id bound c few = elim (Option-cases (get_elem? s.graph.nodes id)) [
      | inl gone ↦ rw (gone, visit) (c, refl, omega arith)
      | inr (n, there) ↦
          let (out, cost) = transfer analysis mf s.graph id n.block in
          elim (Bool-cases (equals n.state out)) [
            | inl same ↦ rw (there, visit) (rw same (step_same s id bound n cost c there))
            | inr changed ↦
                rw (there, visit) (rw changed (step_grown s id bound n cost c few there changed))
          ]
    ]
