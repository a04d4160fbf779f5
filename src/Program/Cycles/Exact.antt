-- ===== src/Program/Cycles/Exact.antt =====
-- The functions of `InCycle`, and the sets `SCC` (`ProgramGraph::finalize` of
-- lib/Graph/ProgramGraph.cpp).
use llta.Loops.Collect.{Steps, more_steps, one_step}
use llta.Prelude.{
  ==_iff, Bool, Bool-cases, List, [], arith, false, if◌then◌else◌, inl, inr, refl, some, subst, sym,
  true, ℕ, ◌&&◌, ◌<◌, ◌==◌, ◌||◌, ◌↔◌, ◌∙◌, ◌∷◌, ◌≡◌, ◌⊎◌,
}
use llta.Program.Cycles.{CallAdj, calls_back, cycle_callees, cycle_callers, in_cycle}
use llta.Program.Cycles.Reaches.{call_reaches_lem}
use llta.Program.Prune.Fuel.{AllBelow}
use llta.Solver.Graph.{insert_id, mem_id}
use llta.Solver.Graph.Edges.{mem_id-insert_id}

-- A path to another function leaves the source by an edge to another function.
pub leaves :
    (next : ℕ → List ℕ) (f g : ℕ)
    → Steps next f g
    → (f == g) ≡ false
    → (x : ℕ) × (mem_id x (next f) ≡ true) × ((f == x) ≡ false) × ((x ≡ g) ⊎ Steps next x g)
leaves next f g (one_step edge) apart = (g, edge, apart, inl refl)
leaves next f g (more_steps {mid} path edge) apart = elim (Bool-cases (f == mid)) [
  | inl same ↦ (g, rw ((==_iff f mid).0 same) edge, apart, inl refl)
  | inr off ↦
      let (x, out, other, on) = leaves next f mid path off in
      (
        x,
        out,
        other,
        inr (elim on [
          | inl at ↦ one_step (subst (λ (j : ℕ). mem_id g (next j) ≡ true) (sym at) edge)
          | inr steps ↦ more_steps steps edge
        ]),
      )
]

Steps-join : (next : ℕ → List ℕ) (u v w : ℕ) → Steps next u v → Steps next v w → Steps next u w
Steps-join next u v w a (one_step edge) = more_steps a edge
Steps-join next u v w a (more_steps {mid} b edge) = more_steps (Steps-join next u v mid a b) edge

-- Another function is on a cycle with this one.
abbrev pub IsCyclic : (ℕ → List ℕ) → ℕ → Type 0
IsCyclic next f = (g : ℕ) × ((f == g) ≡ false) × Steps next f g × Steps next g f

module _ (n : ℕ) (next : ℕ → List ℕ) (small : (b : ℕ) → b < n → AllBelow n (next b)) where
  -- A call to another function from which there is a chain of calls back.
  abbrev CallsBack : ℕ → ℕ → Type 0
  CallsBack f c = ((f == c) ≡ false) × Steps next c f

  calls_back_lem :
      (f c : ℕ)
      → c < n
      → (r : Bool) × (calls_back n next f c ≡ some r) × ((r ≡ true) ↔ CallsBack f c)
  unfolding calls_back
  calls_back_lem f c less = elim (Bool-cases (f == c)) [
    | inl same ↦ (false, rw (same, calls_back) refl, (λ e. absurd (cc), λ e. absurd (cc)))
    | inr apart ↦
        let (r, found, exact) = call_reaches_lem n next c f small less in
        (
          r,
          rw (apart, calls_back) found,
          (
            λ e. (
              apart,
              elim (exact.0 e) [
                | inl at ↦ let h = (==_iff f c).1 (sym at) in absurd (cc)
                | inr path ↦ path
              ],
            ),
            λ e. exact.1 (inr e.1),
          ),
        )
  ]

  -- What the loops add: the two ends of each call that is on a cycle.
  abbrev IsEnd : ℕ → List ℕ → ℕ → Type 0
  IsEnd f cs v = (c : ℕ) × (mem_id c cs ≡ true) × CallsBack f c × ((f ≡ v) ⊎ (c ≡ v))

  grown_lem :
      (back : Bool) (f c v : ℕ) (found : List ℕ)
      → mem_id v (if back then insert_id c (insert_id f found) else found)
        ≡ (back && ((c == v) || (f == v)) || mem_id v found)
  grown_lem true f c v found =
      ground (arith, mem_id-insert_id v c (insert_id f found), mem_id-insert_id v f found)
  grown_lem false f c v found = refl

  cycle_callees_lem :
      (f : ℕ) (cs found : List ℕ)
      → AllBelow n cs
      → (r : List ℕ) × (cycle_callees n next f cs found ≡ some r)
        × ((v : ℕ) → (mem_id v r ≡ true) ↔ ((mem_id v found ≡ true) ⊎ IsEnd f cs v))
  unfolding cycle_callees mem_id
  cycle_callees_lem f [] found all = (
    found,
    refl,
    λ v. (λ h. inl h, λ h. elim h [ inl m ↦ m | inr e ↦ absurd (let m = e.1 in cc) ]),
  )
  cycle_callees_lem f (c ∷ cs) found all =
      let (back, tested, exact) = calls_back_lem f c all.0 in
      let more : List ℕ = if back then insert_id c (insert_id f found) else found in
      let (r, done, rest) = cycle_callees_lem f cs more all.1 in
      (
        r,
        rw (tested, cycle_callees) done,
        λ v.
            let grown = grown_lem back f c v found in
            (
              λ h. elim ((rest v).0 h) [
                | inr e ↦ inr (e.0, ground (arith, e.1), e.2, e.3)
                | inl m ↦ elim (Bool-cases (mem_id v found)) [
                  | inl old ↦ inl old
                  | inr new ↦
                      let hit : back ≡ true = ground (arith, grown, m, new) in
                      let here : (c == c) ≡ true = (==_iff c c).1 refl in
                      inr (
                        c,
                        rw here refl,
                        exact.0 hit,
                        elim (Bool-cases (f == v)) [
                          | inl at ↦ inl ((==_iff f v).0 at)
                          | inr off ↦ inr ((==_iff c v).0 (ground (arith, grown, m, new, off)))
                        ],
                      )
                ]
              ],
              λ h. elim h [
                | inl old ↦ (rest v).1 (inl (ground (arith, grown, old)))
                | inr e ↦ elim (Bool-cases (c == e.0)) [
                  | inr apart ↦ (rest v).1 (inr (e.0, ground (arith, e.1, apart), e.2, e.3))
                  | inl same ↦
                      let at : c ≡ e.0 = (==_iff c e.0).0 same in
                      let hit : back ≡ true = exact.1 (subst (CallsBack f) (sym at) e.2) in
                      let end : ((c == v) || (f == v)) ≡ true = elim e.3 [
                        | inl this ↦ let h' = (==_iff f v).1 this in ground (arith, h')
                        | inr this ↦ let h' = (==_iff c v).1 (at ∙ this) in ground (arith, h')
                      ] in
                      (rest v).1 (inl (ground (arith, grown, hit, end)))
                ]
              ],
            ),
      )

  abbrev IsSomeEnd : List ℕ → ℕ → Type 0
  IsSomeEnd fs v = (f : ℕ) × (mem_id f fs ≡ true) × IsEnd f (next f) v

  cycle_callers_lem :
      (fs found : List ℕ)
      → AllBelow n fs
      → (r : List ℕ) × (cycle_callers n next fs found ≡ some r)
        × ((v : ℕ) → (mem_id v r ≡ true) ↔ ((mem_id v found ≡ true) ⊎ IsSomeEnd fs v))
  unfolding cycle_callers mem_id
  cycle_callers_lem [] found all = (
    found,
    refl,
    λ v. (λ h. inl h, λ h. elim h [ inl m ↦ m | inr e ↦ absurd (let m = e.1 in cc) ]),
  )
  cycle_callers_lem (f ∷ fs) found all =
      let (more, first, one) = cycle_callees_lem f (next f) found (small f all.0) in
      let (r, done, rest) = cycle_callers_lem fs more all.1 in
      (
        r,
        rw (first, cycle_callers) done,
        λ v. (
          λ h. elim ((rest v).0 h) [
            | inr e ↦ inr (e.0, ground (arith, e.1), e.2)
            | inl m ↦ elim ((one v).0 m) [
              | inl old ↦ inl old
              | inr e ↦ let here : (f == f) ≡ true = (==_iff f f).1 refl in inr (f, rw here refl, e)
            ]
          ],
          λ h. elim h [
            | inl old ↦ (rest v).1 (inl ((one v).1 (inl old)))
            | inr e ↦ elim (Bool-cases (f == e.0)) [
              | inr apart ↦ (rest v).1 (inr (e.0, ground (arith, e.1, apart), e.2))
              | inl same ↦
                  let at : f ≡ e.0 = (==_iff f e.0).0 same in
                  (rest v).1
                    (inl ((one v).1 (inr (subst (λ (j : ℕ). IsEnd j (next j) v) (sym at) e.2))))
            ]
          ],
        ),
      )

-- The functions are below the bound, and who calls is among the callers.
pub record IsAdj (n : ℕ) (adj : CallAdj) : Type 0 where
  pub callers_below : AllBelow n adj.callers
  pub callees_below : (f : ℕ) → f < n → AllBelow n (adj.callees f)
  pub callers_all : (f c : ℕ) → mem_id c (adj.callees f) ≡ true → mem_id f adj.callers ≡ true

-- The search for functions in a cycle ends, and `InCycle` holds exactly the functions that another
-- function reaches and is reached from, along chains of calls.
pub in_cycle_lem :
    (n : ℕ) (adj : CallAdj)
    → IsAdj n adj
    → (r : List ℕ) × (in_cycle n adj ≡ some r)
      × ((v : ℕ) → (mem_id v r ≡ true) ↔ IsCyclic adj.callees v)
unfolding in_cycle mem_id
in_cycle_lem n adj a =
    let (r, done, exact) =
      cycle_callers_lem n adj.callees a.callees_below adj.callers [] a.callers_below in
    (
      r,
      done,
      λ v. (
        λ h. elim ((exact v).0 h) [
          | inl none_yet ↦ absurd (cc)
          | inr (f, _, (c, edge, (apart, back), on)) ↦ elim on [
            | inl at ↦ subst (IsCyclic adj.callees) at (c, apart, one_step edge, back)
            | inr at ↦
                subst (IsCyclic adj.callees) at (f, ground (arith, apart), back, one_step edge)
          ]
        ],
        λ (g, apart, there, home).
            let (x, out, other, on) = leaves adj.callees v g there apart in
            let back : Steps adj.callees x v = elim on [
              | inl at ↦ subst (λ (j : ℕ). Steps adj.callees j v) (sym at) home
              | inr steps ↦ Steps-join adj.callees x g v steps home
            ] in
            (exact v).1 (inr (v, a.callers_all v x out, (x, out, (other, back), inl refl))),
      ),
    )
