-- ===== src/Cache/State.antt =====
-- The abstract cache: one policy state for each set (include/Analysis/Cache/CacheState.h). The
-- geometry, the policy and the direction are the section's parameters, as they never change.
use llta.Cache.Geometry.{CacheGeometry, set_index}
use llta.Cache.Kind.{AnalysisKind}
use llta.Cache.Policy.{ReplacementPolicy}
use llta.Prelude.{
  Bool, List, [], ap, arith, false, get_or, length, refl, replicate, set, suc, true, zero, ℕ, ◌&&◌,
  ◌<◌, ◌||◌, ◌∷◌, ◌≡◌,
}

module _ (policy : ReplacementPolicy) where
  abbrev pub CacheState : Type 0
  CacheState = List policy.State

  -- `*Sets[S]`; the set index is in range (see `set_index_lem`).
  abbrev pub cell : CacheState → ℕ → policy.State
  cell sets i = get_or sets i policy.make_empty

  -- The constructor: every set is empty.
  unfoldable pub initial : CacheGeometry → CacheState
  initial g = replicate g.num_sets policy.make_empty

  -- The new state, and whether the line was present before the access.
  unfoldable pub access_line : CacheGeometry → CacheState → ℕ → CacheState × Bool
  access_line g sets line =
      let s = set_index g line in
      let before = cell sets s in
      (set sets s (policy.update before line), policy.contains before line)

  -- `barrier()`: every set is empty again, in both directions.
  unfoldable pub wipe : CacheState → CacheState
  wipe [] = []
  wipe (_ ∷ sets) = policy.make_empty ∷ wipe sets

  unfoldable pub same_sets : CacheState → CacheState → Bool
  same_sets [] [] = true
  same_sets (a ∷ xs) (b ∷ ys) = policy.equals a b && same_sets xs ys
  same_sets _ _ = false

  -- The sets that both have are joined; the flag tells whether one changed.
  unfoldable pub join_sets : AnalysisKind → CacheState → CacheState → CacheState × Bool
  join_sets kind [] other = ([], false)
  join_sets kind (a ∷ xs) [] = (a ∷ xs, false)
  join_sets kind (a ∷ xs) (b ∷ ys) =
      let (joined, changed) = policy.join kind a b in
      let (rest, more) = join_sets kind xs ys in (joined ∷ rest, changed || more)

  pub length-wipe : (sets : CacheState) → length (wipe sets) ≡ length sets
  unfolding wipe
  length-wipe [] = refl
  length-wipe (a ∷ sets) = ap suc (length-wipe sets)

  pub cell-wipe : (sets : CacheState) (i : ℕ) → cell (wipe sets) i ≡ policy.make_empty
  unfolding wipe
  cell-wipe [] i = refl
  cell-wipe (a ∷ sets) zero = refl
  cell-wipe (a ∷ sets) (suc i) = cell-wipe sets i

  pub length-join_sets :
      (kind : AnalysisKind) (xs ys : CacheState) → length (join_sets kind xs ys).0 ≡ length xs
  unfolding join_sets
  length-join_sets kind [] ys = refl
  length-join_sets kind (a ∷ xs) [] = refl
  length-join_sets kind (a ∷ xs) (b ∷ ys) = ap suc (length-join_sets kind xs ys)

  pub cell-join_sets :
      (kind : AnalysisKind) (xs ys : CacheState) (i : ℕ)
      → i < length xs
      → i < length ys
      → cell (join_sets kind xs ys).0 i ≡ (policy.join kind (cell xs i) (cell ys i)).0
  unfolding join_sets
  cell-join_sets kind [] ys i h k = elim h [ ]
  cell-join_sets kind (a ∷ xs) [] i h k = elim k [ ]
  cell-join_sets kind (a ∷ xs) (b ∷ ys) zero h k = refl
  cell-join_sets kind (a ∷ xs) (b ∷ ys) (suc i) h k =
      cell-join_sets kind xs ys i (omega arith) (omega arith)
