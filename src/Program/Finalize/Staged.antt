-- ===== src/Program/Finalize/Staged.antt =====
-- The calls that are staged (`PendingUnsound` of `ProgramGraph::finalize`, lib/Graph/ProgramGraph.cpp).
use llta.Loops.Back.{mem_pair}
use llta.Prelude.{
  Bool, List, [], ap, arith, false, if◌then◌else◌, none, refl, some, ℕ, ◌&&◌, ◌++◌, ◌==◌, ◌||◌, ◌∙◌,
  ◌∷◌, ◌≡◌,
}
use llta.Program.Built.{Built}
use llta.Program.Fill.{ModuleGraph, ProgramCall}
use llta.Program.Finalize.{CallFacts, Wiring, names}
use llta.Program.Finalize.Wired.{Wires, Wires-refl, Wires-same, Wires-trans, no_pair}

-- A step that adds no edge and stages no call.
abbrev pub Quiet : Wiring → Wiring → Type 0
Quiet w x = Wires no_pair w.wired x.wired × (x.pending ≡ w.pending)

pub Quiet-refl : (w : Wiring) → Built w.wired → Quiet w w
Quiet-refl w b = (Wires-refl w.wired b, refl)

pub Quiet-trans : (w x y : Wiring) → Quiet w x → Quiet x y → Quiet w y
Quiet-trans w x y a d = (Wires-trans no_pair no_pair w.wired x.wired y.wired a.0 d.0, d.1 ∙ a.1)

-- A step that adds edges, and the calls that it stages.
pub record Goes (pairs staged : ℕ → ℕ → Bool) (w x : Wiring) : Type 0 where
  pub goes_on : Wires pairs w.wired x.wired
  pub pending_now :
      (node name : ℕ)
      → mem_pair node name x.pending ≡ (staged node name || mem_pair node name w.pending)

pub Goes-trans :
    (p q m n : ℕ → ℕ → Bool) (w x y : Wiring)
    → Goes p m w x
    → Goes q n x y
    → Goes (λ u v. p u v || q u v) (λ node name. m node name || n node name) w y
Goes-trans p q m n w x y a d = record {
  goes_on = Wires-trans p q w.wired x.wired y.wired a.goes_on d.goes_on;
  pending_now = λ node name. ground (arith, a.pending_now node name, d.pending_now node name);
}

pub Goes-same :
    (p q m n : ℕ → ℕ → Bool) (w x : Wiring)
    → ((u v : ℕ) → p u v ≡ q u v)
    → ((node name : ℕ) → m node name ≡ n node name)
    → Goes p m w x
    → Goes q n w x
Goes-same p q m n w x same alike a = record {
  goes_on = Wires-same p q w.wired x.wired same a.goes_on;
  pending_now = λ node name.
      a.pending_now node name
      ∙ ap (λ (c : Bool). c || mem_pair node name w.pending) (alike node name);
}

pub Quiet-Goes : (w x : Wiring) → Quiet w x → Goes no_pair no_pair w x
unfolding mem_pair
Quiet-Goes w x q = record { goes_on = q.0; pending_now = λ node name. ap (mem_pair node name) q.1 }

pub mem_pair-append :
    (u v a b : ℕ) (es : List (ℕ × ℕ))
    → mem_pair u v (es ++ (a, b) ∷ []) ≡ ((a == u) && (b == v) || mem_pair u v es)
unfolding mem_pair
mem_pair-append u v a b [] = refl
mem_pair-append u v a b (e ∷ es) = ground (arith, mem_pair-append u v a b es)

-- Whether a call to a name is staged.
abbrev pub staged_name : CallFacts → ℕ → ℕ → ℕ → ℕ → Bool
staged_name facts at called node name = elim (facts.external_cost called) [
  | none ↦ (at == node) && (called == name)
  | some _ ↦ false
]

abbrev pub staged_call : CallFacts → ModuleGraph → ProgramCall → ℕ → ℕ → Bool
staged_call facts s call node name =
    if names call.call_to s.start_function then false else elim (s.entry_of call.call_to) [
      | none ↦
          facts.is_declaration call.call_to
          && staged_name facts call.call_from (facts.name_of call.call_to) node name
      | some _ ↦ false
    ]

abbrev pub staged_calls : CallFacts → ModuleGraph → List ProgramCall → ℕ → ℕ → Bool
staged_calls facts s [] node name = false
staged_calls facts s (c ∷ cs) node name =
    staged_call facts s c node name || staged_calls facts s cs node name

abbrev pub staged_symbols : CallFacts → List (ℕ × ℕ) → ℕ → ℕ → Bool
staged_symbols facts [] node name = false
staged_symbols facts ((at, called) ∷ xs) node name =
    staged_name facts at called node name || staged_symbols facts xs node name
