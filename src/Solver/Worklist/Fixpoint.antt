-- ===== src/Solver/Worklist/Fixpoint.antt =====
-- The states that the worklist algorithm leaves (`WorklistSolver::run` of
-- lib/Analysis/WorklistSolver.cpp).
use llta.Prelude.{
  ==_iff, Bool-cases, Option, Option-cases, arith, false, get_elem?, get_elem?-set_ne,
  get_elem?-set_self, if◌then◌else◌, inl, inr, lt-length_of_get_elem?, refl, some, subst, sym, true,
  ℕ, ◌==◌, ◌||◌, ◌∙◌, ◌≡◌, ◌⊎◌,
}
use llta.Solver.Analysable.{AbstractAnalysable}
use llta.Solver.Graph.{AbstractStateGraph, IsConsistent, Node, get_node, mem_edge, mem_id, set_node}
use llta.Solver.Worklist.{MachineFunction, WorklistSolver, add_targets, transfer, visit}
use llta.Solver.Worklist.Queue.{
  IsQueue, add_targets-IsQueue, graph-add_targets, in_worklist-add_targets,
}
use llta.Solver.Worklist.Transfer.{state_of, transfer_congr}

module _ (analysis : AbstractAnalysable) where
  open analysis use {State, Instr, initial_state, equals, join}

  module _ (mf : MachineFunction Instr) where
    -- The node holds what its transfer computes.
    pub record IsSolved (g : AbstractStateGraph State) (id : ℕ) (n : Node State) : Type 0 where
      pub stable : equals n.state (transfer analysis mf g id n.block).0 ≡ true
      pub priced : n.cost ≡ (transfer analysis mf g id n.block).1

    -- The node is as it was made: the algorithm never came to it.
    pub record IsUntouched (n : Node State) : Type 0 where
      pub cold : n.state ≡ initial_state
      pub free : n.cost ≡ 0

    -- Nothing was there to queue the node: it is not the entry, and its predecessors hold the initial
    -- state.
    pub record IsUnfed (g : AbstractStateGraph State) (id : ℕ) : Type 0 where
      pub not_entry : (id == 0) ≡ false
      pub cold_preds :
          (p : ℕ) (q : Node State)
          → mem_id p (g.preds id) ≡ true
          → get_elem? g.nodes p ≡ some q
          → q.state ≡ initial_state

    abbrev pub Settled : AbstractStateGraph State → ℕ → Type 0
    Settled g id =
        (n : Node State)
        → get_elem? g.nodes id ≡ some n
        → IsSolved g id n ⊎ (IsUntouched n × IsUnfed g id)

    -- The invariant of the loop: every node that does not wait is settled, solved or not fed.
    pub record Inv (s : WorklistSolver State) : Type 0 where
      pub consistent : IsConsistent s.graph
      pub queue : IsQueue s
      pub settled : (id : ℕ) → s.in_worklist id ≡ false → Settled s.graph id

    pub state_of_there :
        (g : AbstractStateGraph State) (id : ℕ) (n : Node State)
        → get_elem? g.nodes id ≡ some n
        → state_of analysis g id ≡ some n.state
    state_of_there g id n h = ground arith

    pub state_of-set_node :
        (g : AbstractStateGraph State) (id : ℕ) (n m : Node State) (p : ℕ)
        → get_elem? g.nodes id ≡ some n
        → state_of analysis (set_node g id m) p
          ≡ (if id == p then some m.state else state_of analysis g p)
    unfolding set_node
    state_of-set_node g id n m p h = ground (
      arith,
      get_elem?-set_self g.nodes id m,
      get_elem?-set_ne g.nodes id p m,
      lt-length_of_get_elem? g.nodes id n,
    )

    pub IsSolved-congr :
        (g g' : AbstractStateGraph State) (id : ℕ) (n : Node State)
        → transfer analysis mf g id n.block ≡ transfer analysis mf g' id n.block
        → IsSolved g id n
        → IsSolved g' id n
    IsSolved-congr g g' id n e h = record { stable = rw (← e) h.stable; priced = rw (← e) h.priced }

    -- A write to a node leaves the transfer of a node that does not read it.
    transfer-set_node :
        (g : AbstractStateGraph State) (id : ℕ) (n m : Node State) (j : ℕ) (block : Option ℕ)
        → get_elem? g.nodes id ≡ some n
        → (mem_id id (g.preds j) ≡ true → m.state ≡ n.state)
        → transfer analysis mf g j block ≡ transfer analysis mf (set_node g id m) j block
    transfer-set_node g id n m j block h keeps =
        transfer_congr analysis mf g (set_node g id m) j block (unfold set_node in refl) (λ p reads.
          rw (state_of-set_node g id n m p h) (elim (Bool-cases (id == p)) [
            | inl same ↦
                let e : id ≡ p = (==_iff id p).0 same in
                let k : m.state ≡ n.state = keeps (rw e reads) in
                rw (same, ← e, k) (state_of_there g id n h)
            | inr other ↦ rw other
          ]))

    pub get_elem?-set_node :
        (g : AbstractStateGraph State) (id : ℕ) (n m : Node State) (j : ℕ)
        → get_elem? g.nodes id ≡ some n
        → get_elem? (set_node g id m).nodes j ≡ (if id == j then some m else get_elem? g.nodes j)
    unfolding set_node
    get_elem?-set_node g id n m j h = ground (
      arith,
      get_elem?-set_self g.nodes id m,
      get_elem?-set_ne g.nodes id j m,
      lt-length_of_get_elem? g.nodes id n,
    )

    set_node-IsUnfed :
        (g : AbstractStateGraph State) (id : ℕ) (n m : Node State) (j : ℕ)
        → get_elem? g.nodes id ≡ some n
        → (mem_id id (g.preds j) ≡ true → m.state ≡ n.state)
        → IsUnfed g j
        → IsUnfed (set_node g id m) j
    set_node-IsUnfed g id n m j h keeps u = record {
      not_entry = u.not_entry;
      cold_preds = λ p q reads there.
          let pred : mem_id p (g.preds j) ≡ true = unfold set_node in reads in
          elim (Bool-cases (id == p)) [
            | inl same ↦
                let e : id ≡ p = (==_iff id p).0 same in
                let now : some m ≡ some q =
                  sym (get_elem?-set_node g id n m p h ∙ rw same) ∙ there in
                let new : m ≡ q = cc in
                let fed : mem_id id (g.preds j) ≡ true = rw e pred in
                subst (λ (k : Node State). k.state ≡ initial_state) new
                  (keeps fed ∙ u.cold_preds id n fed h)
            | inr other ↦
                u.cold_preds p q pred (sym (get_elem?-set_node g id n m p h ∙ rw other) ∙ there)
          ];
    }

    Settled-other :
        (g : AbstractStateGraph State) (id : ℕ) (n m : Node State) (j : ℕ)
        → get_elem? g.nodes id ≡ some n
        → (id == j) ≡ false
        → (mem_id id (g.preds j) ≡ true → m.state ≡ n.state)
        → Settled g j
        → Settled (set_node g id m) j
    Settled-other g id n m j h other keeps before = λ k there.
        let was : get_elem? g.nodes j ≡ some k =
          sym (get_elem?-set_node g id n m j h ∙ rw other) ∙ there in
        elim (before k was) [
          | inl solved ↦ inl (
              IsSolved-congr g (set_node g id m) j k (transfer-set_node g id n m j k.block h keeps)
                solved)
          | inr (untouched, unfed) ↦ inr (untouched, set_node-IsUnfed g id n m j h keeps unfed)
        ]

    Settled-self :
        (g : AbstractStateGraph State) (id : ℕ) (n m : Node State)
        → get_elem? g.nodes id ≡ some n
        → (mem_id id (g.preds id) ≡ true → m.state ≡ n.state)
        → equals m.state (transfer analysis mf g id m.block).0 ≡ true
        → m.cost ≡ (transfer analysis mf g id m.block).1
        → Settled (set_node g id m) id
    Settled-self g id n m h keeps stable priced = λ k there.
        let e : some m ≡ some k =
          sym (get_elem?-set_node g id n m id h ∙ rw ((==_iff id id).1 refl)) ∙ there in
        let same : m ≡ k = cc in
        inl (
          subst (IsSolved (set_node g id m) id) same (
            IsSolved-congr g (set_node g id m) id m (transfer-set_node g id n m id m.block h keeps)
              (record { stable = stable; priced = priced })))

    module _ (equals_refl : (s : State) → equals s s ≡ true) where
      stable-Inv :
          (s : WorklistSolver State) (id : ℕ) (n m : Node State)
          → get_elem? s.graph.nodes id ≡ some n
          → m.state ≡ n.state
          → equals m.state (transfer analysis mf s.graph id m.block).0 ≡ true
          → m.cost ≡ (transfer analysis mf s.graph id m.block).1
          → IsConsistent s.graph
          → IsQueue s
          → ((j : ℕ) → (id == j) ≡ false → s.in_worklist j ≡ false → Settled s.graph j)
          → Inv (record s { graph = set_node s.graph id m })
      stable-Inv s id n m there same stable priced c q before = record {
        consistent = unfold set_node in c;
        queue = record { members = q.members; distinct = q.distinct };
        settled = λ j free. elim (Bool-cases (id == j)) [
          | inl here ↦
              subst (Settled (set_node s.graph id m)) ((==_iff id j).0 here)
                (Settled-self s.graph id n m there (λ _. same) stable priced)
          | inr other ↦ Settled-other s.graph id n m j there other (λ _. same) (before j other free)
        ];
      }

      changed-Inv :
          (s : WorklistSolver State) (id : ℕ) (n m : Node State)
          → get_elem? s.graph.nodes id ≡ some n
          → m.state ≡ (transfer analysis mf s.graph id m.block).0
          → m.cost ≡ (transfer analysis mf s.graph id m.block).1
          → IsConsistent s.graph
          → IsQueue s
          → ((j : ℕ) → (id == j) ≡ false → s.in_worklist j ≡ false → Settled s.graph j)
          → Inv (add_targets (record s { graph = set_node s.graph id m }) (s.graph.adjacency id))
      changed-Inv s id n m there out priced c q before =
          let s' : WorklistSolver State = record s { graph = set_node s.graph id m } in
          let es = s.graph.adjacency id in
          let q' : IsQueue s' = record { members = q.members; distinct = q.distinct } in
          let stable : equals m.state (transfer analysis mf s.graph id m.block).0 ≡ true =
            rw out (equals_refl (transfer analysis mf s.graph id m.block).0) in
          record {
            consistent = rw (graph-add_targets s' es) (unfold set_node in c);
            queue = add_targets-IsQueue s' es q';
            settled = λ j free.
                let idle : (s.in_worklist j || mem_edge j es) ≡ false =
                  sym (in_worklist-add_targets s' es j) ∙ free in
                let apart : mem_id id (s.graph.preds j) ≡ true → m.state ≡ n.state =
                  λ reads. absurd (ground (arith, c id j)) in
                rw (graph-add_targets s' es) (elim (Bool-cases (id == j)) [
                  | inl here ↦
                      let e = (==_iff id j).0 here in
                      subst (Settled (set_node s.graph id m)) e
                        (Settled-self s.graph id n m there (rw (← e) at apart) stable priced)
                  | inr other ↦
                      Settled-other s.graph id n m j there other apart
                        (before j other (ground arith))
                ]);
          }

      pub visit-Inv :
          (s : WorklistSolver State) (id : ℕ)
          → IsConsistent s.graph
          → IsQueue s
          → ((j : ℕ) → (id == j) ≡ false → s.in_worklist j ≡ false → Settled s.graph j)
          → Inv (visit analysis mf s id)
      unfolding visit get_node
      visit-Inv s id c q before = elim (Option-cases (get_elem? s.graph.nodes id)) [
        | inl gone ↦
            rw (gone, visit)
              (record {
                consistent = c;
                queue = q;
                settled = λ j free. elim (Bool-cases (id == j)) [
                  | inl here ↦ λ n there.
                      let e = (==_iff id j).0 here in
                      let now : get_elem? s.graph.nodes id ≡ some n = rw e there in absurd (cc)
                  | inr other ↦ before j other free
                ];
              })
        | inr (n, there) ↦
            elim (Bool-cases (equals n.state (transfer analysis mf s.graph id n.block).0)) [
              | inl stable ↦
                  rw (there, stable, visit)
                    (stable-Inv s id n
                      (record n { cost = (transfer analysis mf s.graph id n.block).1 }) there refl
                      stable refl c q before)
              | inr changed ↦
                  rw (there, changed, visit)
                    (changed-Inv s id n
                      (record n {
                        cost = (transfer analysis mf s.graph id n.block).1;
                        state = (transfer analysis mf s.graph id n.block).0;
                      })
                      there refl refl c q before)
            ]
      ]
