-- ===== src/Program/Cycles/Groups.antt =====
-- The functions that share a cycle with one (`SCC` of `ProgramGraph::finalize`,
-- lib/Graph/ProgramGraph.cpp).
use llta.Loops.Collect.{Steps, more_steps, one_step}
use llta.Prelude.{
  ==_iff, Bool, Bool-cases, List, [], arith, false, if◌then◌else◌, inl, inr, refl, some, subst, sym,
  true, ℕ, ◌&&◌, ◌<◌, ◌==◌, ◌||◌, ◌↔◌, ◌∙◌, ◌∷◌, ◌≡◌, ◌⊎◌,
}
use llta.Program.Cycles.{CallAdj, in_cycle, reach_both, scc_among, scc_of}
use llta.Program.Cycles.Exact.{IsAdj, IsCyclic, in_cycle_lem, leaves}
use llta.Program.Cycles.Reaches.{call_reaches_lem}
use llta.Program.Prune.Fuel.{AllBelow}
use llta.Solver.Graph.{insert_id, mem_id}
use llta.Solver.Graph.Edges.{mem_id-insert_id}

-- Two functions reach each other.
abbrev pub Both : (ℕ → List ℕ) → ℕ → ℕ → Type 0
Both next f g = Steps next f g × Steps next g f

module _ (n : ℕ) (next : ℕ → List ℕ) (small : (b : ℕ) → b < n → AllBelow n (next b)) where
  reach_both_lem :
      (f g : ℕ)
      → f < n
      → g < n
      → (r : Bool) × (reach_both n next f g ≡ some r)
        × ((r ≡ true) ↔ (((g == f) ≡ false) × Both next f g))
  unfolding reach_both
  reach_both_lem f g f_low g_low = elim (Bool-cases (g == f)) [
    | inl same ↦ (false, rw (same, reach_both) refl, (λ e. absurd (cc), λ e. absurd (cc)))
    | inr apart ↦
        let (there, first, out) = call_reaches_lem n next f g small f_low in
        let (home, second, back) = call_reaches_lem n next g f small g_low in
        let on : (f ≡ g) ⊎ Steps next f g → Steps next f g = λ e. elim e [
          | inl at ↦ let h = (==_iff g f).1 (sym at) in absurd (cc)
          | inr path ↦ path
        ] in
        let off : (g ≡ f) ⊎ Steps next g f → Steps next g f =
          λ e. elim e [ inl at ↦ let h = (==_iff g f).1 at in absurd (cc) | inr path ↦ path ] in
        elim (Bool-cases there) [
          | inl hit ↦ (
            home,
            rw (apart, first, hit, reach_both) second,
            (λ e. (apart, (on (out.0 hit), off (back.0 e))), λ e. back.1 (inr e.1.1)),
          )
          | inr miss ↦ (
            false,
            rw (apart, first, miss, reach_both) refl,
            (λ e. absurd (cc), λ e. let hit = out.1 (inr e.1.0) in absurd (cc)),
          )
        ]
  ]

  scc_among_lem :
      (f : ℕ) (gs found : List ℕ)
      → f < n
      → AllBelow n gs
      → (r : List ℕ) × (scc_among n next f gs found ≡ some r)
        × ((v : ℕ)
            → (mem_id v r ≡ true) ↔ (
                (mem_id v found ≡ true)
                ⊎ ((mem_id v gs ≡ true) × ((v == f) ≡ false) × Both next f v)))
  unfolding scc_among mem_id
  scc_among_lem f [] found low all = (
    found,
    refl,
    λ v. (λ h. inl h, λ h. elim h [ inl m ↦ m | inr e ↦ absurd (let m = e.0 in cc) ]),
  )
  scc_among_lem f (g ∷ gs) found low all =
      let (both, tested, exact) = reach_both_lem f g low all.0 in
      let more : List ℕ = if both then insert_id g found else found in
      let (r, done, rest) = scc_among_lem f gs more low all.1 in
      (
        r,
        rw (tested, scc_among) done,
        λ v.
            let grown : mem_id v more ≡ (both && (g == v) || mem_id v found) =
              ground (arith, mem_id-insert_id v g found) in
            (
              λ h. elim ((rest v).0 h) [
                | inr e ↦ inr (ground (arith, e.0), e.1, e.2)
                | inl m ↦ elim (Bool-cases (mem_id v found)) [
                  | inl old ↦ inl old
                  | inr new ↦
                      let hit : both ≡ true = ground (arith, grown, m, new) in
                      let here : (g == v) ≡ true = ground (arith, grown, m, new) in
                      let e =
                        subst (λ (j : ℕ). ((j == f) ≡ false) × Both next f j) ((==_iff g v).0 here)
                          (exact.0 hit) in
                      inr (ground (arith, here), e.0, e.1)
                ]
              ],
              λ h. elim h [
                | inl old ↦ (rest v).1 (inl (ground (arith, grown, old)))
                | inr e ↦ elim (Bool-cases (g == v)) [
                  | inr apart ↦ (rest v).1 (inr (ground (arith, e.0, apart), e.1, e.2))
                  | inl same ↦
                      let hit : both ≡ true = exact.1 (
                        subst (λ (j : ℕ). ((j == f) ≡ false) × Both next f j)
                          (sym ((==_iff g v).0 same)) (e.1, e.2)) in
                      (rest v).1 (inl (ground (arith, grown, hit, same)))
                ]
              ],
            ),
      )

pub AllBelow-mem : (n v : ℕ) (vs : List ℕ) → AllBelow n vs → mem_id v vs ≡ true → v < n
unfolding mem_id
AllBelow-mem n v [] all h = absurd (cc)
AllBelow-mem n v (w ∷ vs) all h = elim (Bool-cases (w == v)) [
  | inl same ↦ subst (λ (j : ℕ). j < n) ((==_iff w v).0 same) all.0
  | inr apart ↦ AllBelow-mem n v vs all.1 (ground (arith, h, apart))
]

pub below_all : (n : ℕ) (vs : List ℕ) → ((v : ℕ) → mem_id v vs ≡ true → v < n) → AllBelow n vs
unfolding mem_id
below_all n [] h = tt
below_all n (w ∷ vs) h =
    (h w (rw ((==_iff w w).1 refl) refl), below_all n vs (λ v m. h v (ground (arith, m))))

pub scc_of-members :
    (n : ℕ) (adj : CallAdj)
    → IsAdj n adj
    → (cyclic : List ℕ) → in_cycle n adj ≡ some cyclic
    → (f : ℕ) → mem_id f cyclic ≡ true
    → (r : List ℕ) × (scc_of n adj cyclic f ≡ some r)
      × ((g : ℕ) → (mem_id g r ≡ true) ↔ ((f ≡ g) ⊎ Both adj.callees f g))
unfolding scc_of mem_id
scc_of-members n adj a cyclic done f on =
    let (cs, found, exact) = in_cycle_lem n adj a in
    let e : some cs ≡ some cyclic = sym found ∙ done in
    let same : cs ≡ cyclic = cc in
    let cyclic_iff : (v : ℕ) → (mem_id v cyclic ≡ true) ↔ IsCyclic adj.callees v =
      subst (λ (vs : List ℕ). (v : ℕ) → (mem_id v vs ≡ true) ↔ IsCyclic adj.callees v) same exact in
    let low : (v : ℕ) → mem_id v cyclic ≡ true → v < n = λ v m.
      let (g, apart, out, home) = (cyclic_iff v).0 m in
      let (x, edge, _, _) = leaves adj.callees v g out apart in
      AllBelow-mem n v adj.callers a.callers_below (a.callers_all v x edge) in
    let (r, made, rest) =
      scc_among_lem n adj.callees a.callees_below f cyclic (f ∷ []) (low f on)
        (below_all n cyclic low) in
    (
      r,
      made,
      λ g. (
        λ h. elim ((rest g).0 h) [
          | inl here ↦ inl ((==_iff f g).0 (ground (arith, here)))
          | inr e ↦ inr e.2
        ],
        λ h. elim (Bool-cases (g == f)) [
          | inl at ↦ (rest g).1 (inl (ground (arith, at)))
          | inr apart ↦ elim h [
            | inl at ↦ let k = (==_iff g f).1 (sym at) in absurd (cc)
            | inr both ↦ (rest g).1 (inr ((cyclic_iff g).1 (f, apart, both.1, both.0), apart, both))
          ]
        ],
      ),
    )

Steps-trans : (next : ℕ → List ℕ) (f g h : ℕ) → Steps next f g → Steps next g h → Steps next f h
Steps-trans next f g h path (one_step edge) = more_steps path edge
Steps-trans next f g h path (more_steps {mid} before edge) =
    more_steps (Steps-trans next f g mid path before) edge

Both-trans : (next : ℕ → List ℕ) (f g h : ℕ) → Both next f g → Both next g h → Both next f h
Both-trans next f g h (a, b) (c, d) = (Steps-trans next f g h a c, Steps-trans next h g f d b)

Both-sym : (next : ℕ → List ℕ) (f g : ℕ) → Both next f g → Both next g f
Both-sym next f g (a, b) = (b, a)

-- What one function shares with a second, a third that shares a cycle with the first shares too.
Both-moves :
    (next : ℕ → List ℕ) (f g h : ℕ)
    → Both next f g
    → (f ≡ h) ⊎ Both next f h
    → (g ≡ h) ⊎ Both next g h
Both-moves next f g h both (inl here) =
    inr (subst (λ (j : ℕ). Both next g j) here (Both-sym next f g both))
Both-moves next f g h both (inr more) = inr (Both-trans next g f h (Both-sym next f g both) more)

-- A function of `InCycle` makes the set of the functions that reach it and that it reaches, with
-- itself, and two functions that reach each other make sets of the same functions.
pub scc_of_lem :
    (n : ℕ) (adj : CallAdj)
    → IsAdj n adj
    → (cyclic : List ℕ) → in_cycle n adj ≡ some cyclic
    → (f : ℕ) → mem_id f cyclic ≡ true
    → (r : List ℕ) × (scc_of n adj cyclic f ≡ some r)
      × ((g : ℕ) → (mem_id g r ≡ true) ↔ ((f ≡ g) ⊎ Both adj.callees f g))
      × ((g : ℕ)
          → mem_id g cyclic ≡ true
          → Both adj.callees f g
          → (q : List ℕ) × (scc_of n adj cyclic g ≡ some q)
            × ((h : ℕ) → (mem_id h r ≡ true) ↔ (mem_id h q ≡ true)))
scc_of_lem n adj a cyclic done f on =
    let (r, made, exact) = scc_of-members n adj a cyclic done f on in
    (
      r,
      made,
      exact,
      λ g g_on both.
          let (q, other, same) = scc_of-members n adj a cyclic done g g_on in
          let next = adj.callees in
          (
            q,
            other,
            λ h. (
              λ m. (same h).1 (Both-moves next f g h both ((exact h).0 m)),
              λ m. (exact h).1 (Both-moves next g f h (Both-sym next f g both) ((same h).0 m)),
            ),
          ),
    )
