-- ===== src/Fram/Cached/Total.antt =====
-- The pass with a read cache ends, and what it adds (`FRAMCacheAnalysisPass::runOnMachineFunction` of
-- lib/Targets/MSP430/FRAMCacheAnalysisPass.cpp).
use native.Mathlib.Nat.{mod-add-mod, mod-lt}
use llta.Cache.Fixpoint.Ascent.{cache_ascends}
use llta.Cache.Fixpoint.Unknown.{same_sets_refl, unknown_ascends}
use llta.Cache.Geometry.{CacheGeometry}
use llta.Cache.Kind.{must}
use llta.Cache.Policy.{unknown_policy}
use llta.Cache.State.{CacheState}
use llta.Fram.Cached.{
  cache_pass, charge_found, fold_costs, is_modelled, make_mapper, make_must_policy, must_analysable,
  must_cache, other_name,
}
use llta.Fram.DataAccess.{MemInstr}
use llta.Fram.Wait.{FramModel, raise_latency}
use llta.Fram.Wait.Charged.{or_zero}
use llta.Prelude.{
  ==_iff, All, Bool, Bool-cases, List, Option, Option-cases, [], ap, arith, if◌then◌else◌, inl, inr,
  length, none, refl, some, subst, suc, true, ℕ, ◌%◌, ◌*◌, ◌+◌, ◌<◌, ◌==◌, ◌^◌, ◌∙◌, ◌∷◌, ◌≡◌,
}
use llta.Solver.Analysable.{AbstractAnalysable}
use llta.Solver.Graph.{Node}
use llta.Solver.Worklist.{Block, MachineFunction, WorklistSolver, run}
use llta.Solver.Worklist.Degree.{degree}
use llta.Solver.Worklist.Fixpoint.{Settled}
use llta.Solver.Worklist.Total.{run-total}

-- The costs of the nodes of a block.
abbrev pub cost_for : {State : Type 0} → List (Node State) → ℕ → ℕ
cost_for [] key = 0
cost_for (n ∷ ns) key =
    let rest = cost_for ns key in
    elim n.block [ none ↦ rest | some b ↦ if b == key then n.cost + rest else rest ]

raise_latency-wraps :
    (latencies : ℕ → Option ℕ) (key penalty k : ℕ)
    → or_zero (latencies key) < 2 ^ 32
    → or_zero (raise_latency latencies key penalty k)
      ≡ (if key == k then (or_zero (latencies k) + penalty) % 2 ^ 32 else or_zero (latencies k))
unfolding raise_latency
raise_latency-wraps latencies key penalty k h = elim (Bool-cases (penalty == 0)) [
  | inl nothing ↦
      let zero_it = (==_iff penalty 0).0 nothing in
      elim (Bool-cases (key == k)) [
        | inr apart ↦ rw (nothing, apart, raise_latency) refl
        | inl same ↦
            let here : or_zero (latencies k) < 2 ^ 32 =
              subst (λ (j : ℕ). or_zero (latencies j) < 2 ^ 32) ((==_iff key k).0 same) h in
            rw (nothing, same, raise_latency) (ground (arith, zero_it, here))
      ]
  | inr some_it ↦ elim (Bool-cases (key == k)) [
    | inr apart ↦ rw (some_it, apart, raise_latency) refl
    | inl same ↦
        let at = (==_iff key k).0 same in
        rw (some_it, same, raise_latency)
          (ap (λ (j : ℕ). (or_zero (latencies j) + penalty) % 2 ^ 32) at)
  ]
]

add_wrapped : (a b c : ℕ) → ((a + b) % 2 ^ 32 + c) % 2 ^ 32 ≡ (a + (b + c)) % 2 ^ 32
add_wrapped a b c = mod-add-mod (a + b) (2 ^ 32) c ∙ ap (λ (x : ℕ). x % 2 ^ 32) (omega arith)

module _ {State : Type 0} where
  fold_costs_lem :
      (ns : List (Node State)) (latencies : ℕ → Option ℕ)
      → ((key : ℕ) → or_zero (latencies key) < 2 ^ 32)
      → (key : ℕ)
      → or_zero (fold_costs ns latencies key) ≡ (or_zero (latencies key) + cost_for ns key) % 2 ^ 32
  unfolding fold_costs
  fold_costs_lem [] latencies words key = (let w = words key in ground (arith, w))
  fold_costs_lem (n ∷ ns) latencies words key = elim (Option-cases n.block) [
    | inl nowhere ↦ rw nowhere (fold_costs_lem ns latencies words key)
    | inr (b, there) ↦
        let next = raise_latency latencies b n.cost in
        let small : (k : ℕ) → or_zero (next k) < 2 ^ 32 = λ k.
          (let e = raise_latency-wraps latencies b n.cost k (words b) in
            let w = words k in
            let m = mod-lt (or_zero (latencies k) + n.cost) {m = 2 ^ 32} (omega arith) in
            ground (arith, e, w, m)) in
        rw there (
          fold_costs_lem ns next small key
          ∙ ap (λ (x : ℕ). (x + cost_for ns key) % 2 ^ 32)
              (raise_latency-wraps latencies b n.cost key (words b))
          ∙ elim (Bool-cases (b == key)) [
            | inl same ↦ rw same (add_wrapped (or_zero (latencies key)) n.cost (cost_for ns key))
            | inr apart ↦ rw apart refl
          ])
  ]

module _ (m : FramModel) (g : CacheGeometry) (line_fill start : ℕ)
    (mf : MachineFunction (ℕ × MemInstr)) where
  -- The default must analysis of a function, and the rounds that are enough for it.
  abbrev pub default_must : AbstractAnalysable
  default_must = must_analysable m g line_fill unknown_policy start mf

  abbrev pub rounds : ℕ
  rounds = length mf * (g.num_sets * 1) * suc (degree mf) + 1

  instrs_known : (instrs : List (ℕ × MemInstr)) → All {0, 0} (λ (i : ℕ × MemInstr). Unit) instrs
  instrs_known [] = tt
  instrs_known (i ∷ is) = (tt, instrs_known is)

  blocks_known :
      (bs : MachineFunction (ℕ × MemInstr))
      → All {0, 0}
          (λ (b : Block (ℕ × MemInstr)). All {0, 0} (λ (i : ℕ × MemInstr). Unit) b.instrs)
          bs
  blocks_known [] = tt
  blocks_known (b ∷ bs) = (instrs_known b.instrs, blocks_known bs)

  must_run :
      (s : WorklistSolver (CacheState unknown_policy)) × (run default_must rounds none none mf
        ≡ some s)
      × ((id : ℕ) → Settled default_must mf s.graph id)
  must_run =
      run-total default_must
        (cache_ascends (must_cache g line_fill unknown_policy) (make_mapper m g start mf)
          (unknown_ascends must))
        mf (blocks_known mf) same_sets_refl none none

-- With the cache model switched on, wait states, a known FRAM region and a valid geometry, the pass
-- with the default policy ends: as many rounds as the blocks times the sets times one more than the
-- edges, and one, are enough. The costs are those of a solution of the analysis, in which every node
-- holds what its block gives for the joined states of its predecessors, or is as it was made, is not
-- the entry block and has predecessors in the initial state; and the latency of each block grows by
-- the cost of its node, on 32 bits.
pub cache_pass-total :
    (m : FramModel) (g : CacheGeometry) (line_fill start : ℕ) (mf : MachineFunction (ℕ × MemInstr))
    (latencies : ℕ → Option ℕ)
    → m.fram_start ≡ some start
    → is_modelled m g ≡ true
    → ((key : ℕ) → or_zero (latencies key) < 2 ^ 32)
    → (s : WorklistSolver (CacheState unknown_policy)) × (raised : ℕ → Option ℕ) × (cache_pass
          (rounds m g line_fill start mf)
          m
          g
          line_fill
          other_name
          mf
          latencies
        ≡ some raised)
      × (run (default_must m g line_fill start mf) (rounds m g line_fill start mf) none none mf
          ≡ some s)
      × ((id : ℕ) → Settled (default_must m g line_fill start mf) mf s.graph id)
      × ((key : ℕ)
          → or_zero (raised key) ≡ (or_zero (latencies key) + cost_for s.graph.nodes key) % 2 ^ 32)
unfolding cache_pass charge_found make_must_policy
cache_pass-total m g line_fill start mf latencies known on words =
    let (s, found, settled) = must_run m g line_fill start mf in
    let fuel = rounds m g line_fill start mf in
    let passed : ℕ → Option (ℕ → Option ℕ) = λ at.
      charge_found (run (must_analysable m g line_fill unknown_policy at mf) fuel none none mf)
        latencies in
    (
      s,
      fold_costs s.graph.nodes latencies,
      ap
            (λ (o : Option ℕ). elim o [
              | none ↦ some latencies
              | some at ↦ if is_modelled m g then passed at else some latencies
            ])
            known
          ∙ ap (λ (b : Bool). if b then passed start else some latencies) on
          ∙ ap
              (λ (o : Option (WorklistSolver (CacheState unknown_policy))).
                charge_found o latencies)
              found,
      found,
      settled,
      fold_costs_lem s.graph.nodes latencies words,
    )
