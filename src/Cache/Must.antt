-- ===== src/Cache/Must.antt =====
-- What makes a policy right for the must analysis of a hardware, and that the engine is then right:
-- the cost of an instruction is at least the cycles that the machine waits (`CacheAnalysis::process`
-- of lib/Analysis/Cache/CacheAnalysis.cpp, `CacheState` of include/Analysis/Cache/CacheState.h).
pub mod Process
pub mod Models
use llta.Cache.Geometry.{CacheGeometry, IsGeometry, set_index, set_index_lem}
use llta.Cache.Kind.{must}
use llta.Cache.Machine.{Contents, Hardware, charge, touched}
use llta.Cache.Policy.{ReplacementPolicy}
use llta.Cache.State.{CacheState, access_line, cell, cell-wipe, initial, length-wipe, wipe}
use llta.Prelude.{
  ==_iff, Bool-cases, arith, get_or-replicate, get_or-set_ne, get_or-set_self, if◌then◌else◌, inl,
  inr, length, length-replicate, length-set, set, subst, true, ℕ, ◌<◌, ◌==◌, ◌∙◌, ◌≡◌, ◌≤◌, ◌⊎◌,
}

pub record MustModel (policy : ReplacementPolicy) (hardware : Hardware) : Type 1 where
  pub Valid : policy.State → Type 0
  pub Guarantees : policy.State → hardware.Set → Type 0
  pub empty_valid : Valid policy.make_empty
  pub empty_guarantees : (c : hardware.Set) → Guarantees policy.make_empty c
  pub update_valid : (s : policy.State) (line : ℕ) → Valid s → Valid (policy.update s line)
  pub update_guarantees :
      (s : policy.State) (c : hardware.Set) (line : ℕ)
      → Valid s
      → Guarantees s c
      → Guarantees (policy.update s line) (hardware.access_set c line)
  pub join_valid : (s t : policy.State) → Valid s → Valid t → Valid (policy.join must s t).0
  pub join_guarantees :
      (s t : policy.State) (c : hardware.Set)
      → Valid s
      → Valid t
      → Guarantees s c ⊎ Guarantees t c
      → Guarantees (policy.join must s t).0 c
  pub contains_resident :
      (s : policy.State) (c : hardware.Set) (line : ℕ)
      → Valid s
      → Guarantees s c
      → policy.contains s line ≡ true
      → hardware.resident c line ≡ true

module _ (policy : ReplacementPolicy) (hardware : Hardware) (model : MustModel policy hardware)
    (g : CacheGeometry) (geometry : IsGeometry g) where
  open model use {
    Valid, Guarantees, empty_valid, empty_guarantees, update_valid, update_guarantees, join_valid,
    join_guarantees, contains_resident,
  }

  -- Every set of the abstract cache is well formed, and there is one for each set of the geometry.
  pub record IsWellShaped (sets : CacheState policy) : Type 0 where
    pub size : length sets ≡ g.num_sets
    pub valid : (i : ℕ) → Valid (cell policy sets i)

  -- What the abstract cache guarantees holds of the machine.
  abbrev pub Covers : CacheState policy → Contents hardware → Type 0
  Covers sets h = (i : ℕ) → Guarantees (cell policy sets i) (h i)

  pub initial-IsWellShaped : IsWellShaped (initial policy g)
  unfolding initial
  initial-IsWellShaped = record {
    size = length-replicate g.num_sets policy.make_empty;
    valid = λ i. rw (get_or-replicate g.num_sets i policy.make_empty) empty_valid;
  }

  -- The initial state is right about any contents of the machine.
  pub initial-Covers : (h : Contents hardware) → Covers (initial policy g) h
  unfolding initial
  initial-Covers h i = rw (get_or-replicate g.num_sets i policy.make_empty) (empty_guarantees (h i))

  pub wipe-IsWellShaped :
      (sets : CacheState policy) → IsWellShaped sets → IsWellShaped (wipe policy sets)
  wipe-IsWellShaped sets w = record {
    size = length-wipe policy sets ∙ w.size;
    valid = λ i. rw (cell-wipe policy sets i) empty_valid;
  }

  pub wipe-Covers : (sets : CacheState policy) (h : Contents hardware) → Covers (wipe policy sets) h
  wipe-Covers sets h i = rw (cell-wipe policy sets i) (empty_guarantees (h i))

  cell-set :
      (sets : CacheState policy) (s : ℕ) (v : policy.State) (i : ℕ)
      → s < length sets
      → cell policy (set sets s v) i ≡ (if s == i then v else cell policy sets i)
  cell-set sets s v i h = elim (Bool-cases (s == i)) [
    | inl same ↦
        let e : s ≡ i = (==_iff s i).0 same in
        rw (same, ← e) (get_or-set_self sets s v policy.make_empty h)
    | inr other ↦ rw other (get_or-set_ne sets s i v policy.make_empty (λ e. ground arith))
  ]

  in_range :
      (sets : CacheState policy) (line : ℕ) → IsWellShaped sets → set_index g line < length sets
  in_range sets line w = omega (
    arith,
    (set_index_lem g geometry.set_bits line geometry.few_sets geometry.sets_power).1,
    w.size,
  )

  pub access_line-IsWellShaped :
      (sets : CacheState policy) (line : ℕ)
      → IsWellShaped sets
      → IsWellShaped (access_line policy g sets line).0
  unfolding access_line
  access_line-IsWellShaped sets line w = record {
    size = length-set sets (set_index g line) _ ∙ w.size;
    valid = λ i.
        rw (cell-set sets (set_index g line) _ i (in_range sets line w))
          (elim (Bool-cases (set_index g line == i)) [
            | inl same ↦ rw same (
                update_valid (cell policy sets (set_index g line)) line
                  (w.valid (set_index g line)))
            | inr other ↦ rw other (w.valid i)
          ]);
  }

  pub access_line-Covers :
      (sets : CacheState policy) (line : ℕ) (h : Contents hardware)
      → IsWellShaped sets
      → Covers sets h
      → Covers (access_line policy g sets line).0 (touched hardware g h line)
  unfolding access_line
  access_line-Covers sets line h w c i =
      let s = set_index g line in
      let before = cell policy sets s in
      rw (cell-set sets s (policy.update before line) i (in_range sets line w))
        (elim (Bool-cases (s == i)) [
          | inl same ↦ rw same (
              subst (λ j. Guarantees (policy.update before line) (hardware.access_set (h j) line))
                ((==_iff s i).0 same) (update_guarantees before (h s) line (w.valid s) (c s)))
          | inr other ↦ rw other (c i)
        ])

  -- An access charges at least what the machine waits for the fetch.
  pub access_charge :
      (penalty : ℕ) (sets : CacheState policy) (line : ℕ) (h : Contents hardware)
      → IsWellShaped sets
      → Covers sets h
      → charge hardware g penalty h line
        ≤ (if (access_line policy g sets line).1 then 0 else penalty)
  unfolding access_line
  access_charge penalty sets line h w c =
      let s = set_index g line in
      elim (Bool-cases (policy.contains (cell policy sets s) line)) [
        | inl held ↦
            rw (held, contains_resident (cell policy sets s) (h s) line (w.valid s) (c s) held)
              (omega arith)
        | inr unknown ↦ rw unknown (ground arith)
      ]
