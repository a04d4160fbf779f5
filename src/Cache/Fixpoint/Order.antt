-- ===== src/Cache/Fixpoint/Order.antt =====
-- The order of the cache states, set by set, and its height, from an order of the states of one set
-- (include/Analysis/Cache/CacheState.h, lib/Analysis/Cache/CacheAnalysis.cpp).
use native.Mathlib.Nat.{suc-mul}
use llta.Cache.Geometry.{CacheGeometry, set_index}
use llta.Cache.Kind.{AnalysisKind}
use llta.Cache.Policy.{ReplacementPolicy}
use llta.Cache.State.{CacheState, access_line, cell, initial, join_sets, same_sets, wipe}
use llta.Prelude.{
  Bool-cases, [], arith, false, inl, inr, length, refl, replicate, set, suc, sym, zero, ℕ, ◌*◌, ◌+◌,
  ◌<◌, ◌∙◌, ◌∷◌, ◌≡◌, ◌≤◌,
}

-- An order of finite height on the states of one set, whose least element is the empty set and on
-- which the operations of the policy are monotone.
pub record SetAscends (policy : ReplacementPolicy) (kind : AnalysisKind) : Type 1 where
  pub SetLe : policy.State → policy.State → Type 0
  pub set_refl : (s : policy.State) → SetLe s s
  pub set_trans : (s t u : policy.State) → SetLe s t → SetLe t u → SetLe s u
  pub empty_least : (s : policy.State) → SetLe policy.make_empty s
  pub update_mono :
      (s t : policy.State) (line : ℕ)
      → SetLe s t
      → SetLe (policy.update s line) (policy.update t line)
  pub meet_mono :
      (s t u v : policy.State)
      → SetLe s u
      → SetLe t v
      → SetLe (policy.join kind s t).0 (policy.join kind u v).0
  pub set_height : ℕ
  pub set_rank : policy.State → ℕ
  pub set_rank_height : (s : policy.State) → set_rank s ≤ set_height
  pub set_rank_mono : (s t : policy.State) → SetLe s t → set_rank s ≤ set_rank t
  pub set_rank_grows :
      (s t : policy.State) → SetLe s t → policy.equals s t ≡ false → set_rank s < set_rank t

module _ (policy : ReplacementPolicy) (kind : AnalysisKind) (order : SetAscends policy kind) where
  open order use {
    SetLe, set_refl, set_trans, empty_least, update_mono, meet_mono, set_height, set_rank,
    set_rank_height, set_rank_mono, set_rank_grows,
  }

  -- Cache states of the same number of sets, each below its counterpart.
  abbrev pub CacheLe : CacheState policy → CacheState policy → Type 0
  CacheLe [] [] = Unit
  CacheLe (a ∷ xs) (b ∷ ys) = SetLe a b × CacheLe xs ys
  CacheLe _ _ = ⊥

  pub CacheLe-refl : (xs : CacheState policy) → CacheLe xs xs
  CacheLe-refl [] = tt
  CacheLe-refl (a ∷ xs) = (set_refl a, CacheLe-refl xs)

  pub CacheLe-trans : (xs ys zs : CacheState policy) → CacheLe xs ys → CacheLe ys zs → CacheLe xs zs
  CacheLe-trans [] [] zs h k = k
  CacheLe-trans (a ∷ xs) (b ∷ ys) (c ∷ zs) (h, hs) (k, ks) =
      (set_trans a b c h k, CacheLe-trans xs ys zs hs ks)
  CacheLe-trans [] (b ∷ ys) zs h k = absurd h
  CacheLe-trans (a ∷ xs) [] zs h k = absurd h
  CacheLe-trans (a ∷ xs) (b ∷ ys) [] h k = absurd k

  CacheLe-empty :
      (n : ℕ) (xs : CacheState policy) → length xs ≡ n → CacheLe (replicate n policy.make_empty) xs
  CacheLe-empty zero [] e = tt
  CacheLe-empty zero (a ∷ xs) e = absurd (omega arith)
  CacheLe-empty (suc n) [] e = absurd (omega arith)
  CacheLe-empty (suc n) (a ∷ xs) e = (empty_least a, CacheLe-empty n xs (omega arith))

  pub initial-CacheLe :
      (g : CacheGeometry) (xs : CacheState policy)
      → length xs ≡ g.num_sets
      → CacheLe (initial policy g) xs
  unfolding initial
  initial-CacheLe g xs e = CacheLe-empty g.num_sets xs e

  cell-SetLe :
      (xs ys : CacheState policy) (i : ℕ)
      → CacheLe xs ys
      → SetLe (cell policy xs i) (cell policy ys i)
  cell-SetLe [] [] i h = set_refl policy.make_empty
  cell-SetLe (a ∷ xs) (b ∷ ys) zero (h, hs) = h
  cell-SetLe (a ∷ xs) (b ∷ ys) (suc i) (h, hs) = cell-SetLe xs ys i hs
  cell-SetLe [] (b ∷ ys) i h = absurd h
  cell-SetLe (a ∷ xs) [] i h = absurd h

  set-CacheLe :
      (xs ys : CacheState policy) (i : ℕ) (v w : policy.State)
      → CacheLe xs ys
      → SetLe v w
      → CacheLe (set xs i v) (set ys i w)
  set-CacheLe [] [] i v w h k = tt
  set-CacheLe (a ∷ xs) (b ∷ ys) zero v w (h, hs) k = (k, hs)
  set-CacheLe (a ∷ xs) (b ∷ ys) (suc i) v w (h, hs) k = (h, set-CacheLe xs ys i v w hs k)
  set-CacheLe [] (b ∷ ys) i v w h k = absurd h
  set-CacheLe (a ∷ xs) [] i v w h k = absurd h

  pub access_line-CacheLe :
      (g : CacheGeometry) (xs ys : CacheState policy) (line : ℕ)
      → CacheLe xs ys
      → CacheLe (access_line policy g xs line).0 (access_line policy g ys line).0
  unfolding access_line
  access_line-CacheLe g xs ys line h =
      let s = set_index g line in
      set-CacheLe xs ys s (policy.update (cell policy xs s) line)
        (policy.update (cell policy ys s) line) h
        (update_mono (cell policy xs s) (cell policy ys s) line (cell-SetLe xs ys s h))

  pub wipe-CacheLe :
      (xs ys : CacheState policy) → CacheLe xs ys → CacheLe (wipe policy xs) (wipe policy ys)
  unfolding wipe
  wipe-CacheLe [] [] h = tt
  wipe-CacheLe (a ∷ xs) (b ∷ ys) (h, hs) = (set_refl policy.make_empty, wipe-CacheLe xs ys hs)
  wipe-CacheLe [] (b ∷ ys) h = absurd h
  wipe-CacheLe (a ∷ xs) [] h = absurd h

  pub join_sets-CacheLe :
      (xs ys us vs : CacheState policy)
      → length xs ≡ length ys
      → CacheLe xs us
      → CacheLe ys vs
      → CacheLe (join_sets policy kind xs ys).0 (join_sets policy kind us vs).0
  unfolding join_sets
  join_sets-CacheLe [] [] [] [] e h k = tt
  join_sets-CacheLe (a ∷ xs) (b ∷ ys) (c ∷ us) (d ∷ vs) e (h, hs) (k, ks) =
      (meet_mono a b c d h k, join_sets-CacheLe xs ys us vs (omega arith) hs ks)
  join_sets-CacheLe [] (b ∷ ys) us vs e h k = absurd (omega arith)
  join_sets-CacheLe (a ∷ xs) [] us vs e h k = absurd (omega arith)
  join_sets-CacheLe [] [] (c ∷ us) vs e h k = absurd h
  join_sets-CacheLe [] [] [] (d ∷ vs) e h k = absurd k
  join_sets-CacheLe (a ∷ xs) (b ∷ ys) [] vs e h k = absurd h
  join_sets-CacheLe (a ∷ xs) (b ∷ ys) (c ∷ us) [] e h k = absurd k

  abbrev pub cache_rank : CacheState policy → ℕ
  cache_rank [] = 0
  cache_rank (a ∷ xs) = set_rank a + cache_rank xs

  pub cache_rank_height : (xs : CacheState policy) → cache_rank xs ≤ length xs * set_height
  cache_rank_height [] = omega arith
  cache_rank_height (a ∷ xs) =
      omega (arith, set_rank_height a, cache_rank_height xs, suc-mul (length xs) set_height)

  cache_rank_mono : (xs ys : CacheState policy) → CacheLe xs ys → cache_rank xs ≤ cache_rank ys
  cache_rank_mono [] [] h = omega arith
  cache_rank_mono (a ∷ xs) (b ∷ ys) (h, hs) =
      omega (arith, set_rank_mono a b h, cache_rank_mono xs ys hs)
  cache_rank_mono [] (b ∷ ys) h = absurd h
  cache_rank_mono (a ∷ xs) [] h = absurd h

  pub cache_rank_grows :
      (xs ys : CacheState policy)
      → CacheLe xs ys
      → same_sets policy xs ys ≡ false
      → cache_rank xs < cache_rank ys
  unfolding same_sets
  cache_rank_grows [] [] h e = absurd (cc)
  cache_rank_grows (a ∷ xs) (b ∷ ys) (h, hs) e = elim (Bool-cases (policy.equals a b)) [
    | inl same ↦
        let deeper : same_sets policy xs ys ≡ false = sym (rw same refl) ∙ e in
        omega (arith, set_rank_mono a b h, cache_rank_grows xs ys hs deeper)
    | inr apart ↦ omega (arith, set_rank_grows a b h apart, cache_rank_mono xs ys hs)
  ]
  cache_rank_grows [] (b ∷ ys) h e = absurd h
  cache_rank_grows (a ∷ xs) [] h e = absurd h
