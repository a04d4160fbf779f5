-- ===== src/Loops/Body.antt =====
-- The loop of a header is its strongly connected part (`computeLoopBody` of
-- lib/MIRPasses/MachineLoopBoundAgregatorPass.cpp).
use llta.Loops.{Cfg, compute_loop_body, in_body}
use llta.Loops.Collect.{Steps, collect_from_lem, more_steps, one_step}
use llta.Prelude.{
  ==_iff, Bool, Bool-cases, List, arith, inl, inr, refl, some, suc, sym, true, ℕ, ◌<◌, ◌==◌, ◌↔◌,
  ◌∙◌, ◌≡◌, ◌⊎◌,
}
use llta.Program.Prune.Fuel.{AllBelow}
use llta.Solver.Graph.{mem_id}

-- The blocks are the numbers below the size, and each edge stands in both lists.
pub record IsCfg (f : Cfg) : Type 0 where
  pub succs_below : (b : ℕ) → b < f.size → AllBelow f.size (f.succs_of b)
  pub preds_below : (b : ℕ) → b < f.size → AllBelow f.size (f.preds_of b)
  pub mirrored : (u v : ℕ) → mem_id v (f.succs_of u) ≡ mem_id u (f.preds_of v)

Steps-before :
    (next : ℕ → List ℕ) (u v w : ℕ) → mem_id v (next u) ≡ true → Steps next v w → Steps next u w
Steps-before next u v w edge (one_step after) = more_steps (one_step edge) after
Steps-before next u v w edge (more_steps {mid} path after) =
    more_steps (Steps-before next u v mid edge path) after

-- A path of predecessors is a path of successors the other way.
turned :
    (next back : ℕ → List ℕ)
    → ((u v : ℕ) → mem_id v (next u) ≡ mem_id u (back v))
    → (u v : ℕ) → Steps back u v
    → Steps next v u
turned next back same u v (one_step edge) = one_step (same v u ∙ edge)
turned next back same u v (more_steps {mid} path edge) =
    Steps-before next v mid u (same v mid ∙ edge) (turned next back same u mid path)

turn_back :
    (next back : ℕ → List ℕ)
    → ((u v : ℕ) → mem_id v (next u) ≡ mem_id u (back v))
    → (u v : ℕ) → Steps next v u
    → Steps back u v
turn_back next back same u v path = turned back next (λ a b. sym (same b a)) v u path

-- On a control flow graph whose edges stand in both lists and go to its blocks, the two searches end
-- within one round more than there are blocks, and the body holds the header and exactly the blocks
-- that lie on a cycle through it: there is a path from the header and a path back.
pub compute_loop_body_lem :
    (f : Cfg) (header : ℕ)
    → IsCfg f
    → header < f.size
    → (body : ℕ → Bool) × (compute_loop_body (suc f.size) f header ≡ some body)
      × ((b : ℕ)
          → (body b ≡ true)
            ↔ ((header ≡ b) ⊎ (Steps f.succs_of header b × Steps f.succs_of b header)))
unfolding compute_loop_body
compute_loop_body_lem f header c less =
    let (fwd, first, forward) = collect_from_lem f.succs_of header f.size less c.succs_below in
    let (bwd, second, backward) = collect_from_lem f.preds_of header f.size less c.preds_below in
    (
      in_body header fwd bwd,
      rw (first, second, compute_loop_body) refl,
      λ b. (
        λ h. elim (Bool-cases (header == b)) [
          | inl same ↦ inl ((==_iff header b).0 same)
          | inr apart ↦ inr (
            (forward b).0 (ground arith),
            turned f.succs_of f.preds_of c.mirrored header b ((backward b).0 (ground arith)),
          )
        ],
        λ h. elim h [
          | inl at ↦ let same = (==_iff header b).1 at in ground arith
          | inr (out, home) ↦
              let a = (forward b).1 out in
              let d = (backward b).1 (turn_back f.succs_of f.preds_of c.mirrored header b home) in
              ground (arith, a, d)
        ],
      ),
    )
