-- ===== src/Cache/Age/Form.antt =====
-- The well-formed states of the age-based policies: no line twice, and every age below the number
-- of ways (include/Analysis/Cache/ReplacementPolicy.h).
use llta.Cache.Age.{
  AgeSetState, age_all, age_younger, equals, evict, fifo_update, find, insert_miss, join,
  lru_update, merge, merge_must, missing, reset, youngest,
}
use llta.Cache.Age.Lookup.{
  Distinct, contains-find, find-age_all, find-age_younger, find-append, find-equals, find-evict,
  find-evict-none, find-merge_may, find-merge_must, find-missing, find-reset_ne, find-reset_self,
  find-youngest, is_some, keep_age, map_age, older_age, younger_age,
}
use llta.Cache.Kind.{AnalysisKind, may, must}
use llta.Prelude.{
  ==_iff, Bool-cases, Option, Option-cases, [], arith, if◌then◌else◌, inl, inr, ltb, none, refl,
  some, true, ℕ, ◌++◌, ◌+◌, ◌==◌, ◌∙◌, ◌∷◌, ◌≡◌,
}

age_all-Distinct : (s : AgeSetState) → Distinct s → Distinct (age_all s)
unfolding age_all
age_all-Distinct [] d = d
age_all-Distinct ((k, a) ∷ s) d = ground (arith, find-age_all s k, age_all-Distinct s)

age_younger-Distinct : (b : ℕ) (s : AgeSetState) → Distinct s → Distinct (age_younger b s)
unfolding age_younger
age_younger-Distinct b [] d = d
age_younger-Distinct b ((k, a) ∷ s) d =
    ground (arith, find-age_younger b s k, age_younger-Distinct b s)

evict-Distinct : (ways : ℕ) (s : AgeSetState) → Distinct s → Distinct (evict ways s)
unfolding evict
evict-Distinct ways [] d = d
evict-Distinct ways ((k, a) ∷ s) d = ground (arith, find-evict-none ways s k, evict-Distinct ways s)

reset-Distinct : (l : ℕ) (s : AgeSetState) → Distinct s → Distinct (reset l s)
unfolding reset
reset-Distinct l [] d = d
reset-Distinct l ((k, a) ∷ s) d = ground (arith, find-reset_ne l s k, reset-Distinct l s)

append-Distinct :
    (s t : AgeSetState)
    → Distinct s
    → Distinct t
    → ((m : ℕ) → is_some (find s m) ≡ true → find t m ≡ none)
    → Distinct (s ++ t)
unfolding find
append-Distinct [] t ds dt apart = dt
append-Distinct ((k, a) ∷ s) t ds dt apart = (
  ground (arith, find-append s t k, apart k),
  append-Distinct s t ds.1 dt (λ m h. apart m (ground arith)),
)

insert_miss-Distinct :
    (ways : ℕ) (s : AgeSetState) (l : ℕ)
    → Distinct s
    → find s l ≡ none
    → Distinct (insert_miss ways s l)
unfolding insert_miss find
insert_miss-Distinct ways s l d h =
    append-Distinct (evict ways (age_all s)) ((l, 0) ∷ [])
      (evict-Distinct ways (age_all s) (age_all-Distinct s d)) (refl, tt)
      (λ m p. ground (arith, find-age_all s l, find-evict-none ways (age_all s) l))

merge_must-Distinct : (s t : AgeSetState) → Distinct s → Distinct (merge_must s t)
unfolding merge_must
merge_must-Distinct [] t d = d
merge_must-Distinct ((k, a) ∷ s) t d =
    ground (arith, find-merge_must s t k, merge_must-Distinct s t)

youngest-Distinct : (s t : AgeSetState) → Distinct s → Distinct (youngest s t)
unfolding youngest
youngest-Distinct [] t d = d
youngest-Distinct ((k, a) ∷ s) t d = ground (arith, find-youngest s t k, youngest-Distinct s t)

missing-Distinct : (s t : AgeSetState) → Distinct t → Distinct (missing s t)
unfolding missing
missing-Distinct s [] d = d
missing-Distinct s ((k, a) ∷ t) d = ground (arith, find-missing s t k, missing-Distinct s t)

merge-Distinct :
    (kind : AnalysisKind) (s t : AgeSetState) → Distinct s → Distinct t → Distinct (merge kind s t)
unfolding merge
merge-Distinct must s t ds dt = merge_must-Distinct s t ds
merge-Distinct may s t ds dt =
    append-Distinct (youngest s t) (missing s t) (youngest-Distinct s t ds)
      (missing-Distinct s t dt) (λ m h. ground (arith, find-youngest s t m, find-missing s t m))

-- What is found after a miss, an LRU access, a FIFO access and a merge.
pub find-insert_miss :
    (ways : ℕ) (s : AgeSetState) (l m : ℕ)
    → Distinct s
    → find s l ≡ none
    → find (insert_miss ways s l) m
      ≡ (if l == m then some 0 else keep_age ways (map_age (λ a. a + 1) (find s m)))
unfolding insert_miss find
find-insert_miss ways s l m d h = ground (
  arith,
  find-append (evict ways (age_all s)) ((l, 0) ∷ []) m,
  find-evict ways (age_all s) m,
  find-age_all s m,
  age_all-Distinct s,
)

-- The age that an access to a line of age `bound` leaves another line with.
abbrev pub lru_age : ℕ → Option ℕ → Option ℕ → Option ℕ
lru_age ways (some bound) o = map_age (λ a. if ltb a bound then a + 1 else a) o
lru_age ways none o = keep_age ways (map_age (λ a. a + 1) o)

pub find-lru_update :
    (ways : ℕ) (s : AgeSetState) (l m : ℕ)
    → Distinct s
    → find (lru_update ways s l) m ≡ (if l == m then some 0 else lru_age ways (find s l) (find s m))
unfolding lru_update
find-lru_update ways s l m d = elim (Option-cases (find s l)) [
  | inl miss ↦ rw (miss, lru_update) (find-insert_miss ways s l m d miss)
  | inr (a, hit) ↦
      rw (hit, lru_update)
        (elim (Bool-cases (l == m)) [
          | inl same ↦
              let e : l ≡ m = (==_iff l m).0 same in
              ground (arith, find-reset_self l (age_younger a s), find-age_younger a s l)
          | inr other ↦ ground (arith, find-reset_ne l (age_younger a s) m, find-age_younger a s m)
        ])
]

abbrev pub merged_age : AnalysisKind → Option ℕ → Option ℕ → Option ℕ
merged_age must o p = older_age o p
merged_age may o p = younger_age o p

find-merge :
    (kind : AnalysisKind) (s t : AgeSetState) (m : ℕ)
    → find (merge kind s t) m ≡ merged_age kind (find s m) (find t m)
unfolding merge
find-merge must s t m = find-merge_must s t m
find-merge may s t m = find-merge_may s t m

-- A join that reports no change keeps `into`, which then finds what the merge finds.
pub find-join :
    (kind : AnalysisKind) (s t : AgeSetState) (m : ℕ)
    → Distinct s
    → Distinct t
    → find (join kind s t).0 m ≡ merged_age kind (find s m) (find t m)
unfolding join
find-join kind s t m ds dt = elim (Bool-cases (equals s (merge kind s t))) [
  | inl same ↦
      rw (same, join)
        (find-equals s (merge kind s t) m ds (merge-Distinct kind s t ds dt) same
          ∙ find-merge kind s t m)
  | inr other ↦ rw (other, join) (find-merge kind s t m)
]

pub join-Distinct :
    (kind : AnalysisKind) (s t : AgeSetState) → Distinct s → Distinct t → Distinct (join kind s t).0
unfolding join
join-Distinct kind s t ds dt = elim (Bool-cases (equals s (merge kind s t))) [
  | inl same ↦ rw (same, join) ds
  | inr other ↦ rw (other, join) (merge-Distinct kind s t ds dt)
]

pub lru_update-Distinct :
    (ways : ℕ) (s : AgeSetState) (l : ℕ) → Distinct s → Distinct (lru_update ways s l)
unfolding lru_update
lru_update-Distinct ways s l d = elim (Option-cases (find s l)) [
  | inl miss ↦ rw (miss, lru_update) (insert_miss-Distinct ways s l d miss)
  | inr (a, hit) ↦
      rw (hit, lru_update) (reset-Distinct l (age_younger a s) (age_younger-Distinct a s d))
]

pub fifo_update-Distinct :
    (ways : ℕ) (s : AgeSetState) (l : ℕ) → Distinct s → Distinct (fifo_update ways s l)
unfolding fifo_update
fifo_update-Distinct ways s l d = ground (arith, contains-find s l, insert_miss-Distinct ways s l)

-- A miss makes every line older, and a hit leaves the queue alone.
abbrev pub fifo_age : ℕ → ℕ → ℕ → Option ℕ → Option ℕ → Option ℕ
fifo_age ways l m (some _) o = o
fifo_age ways l m none o = if l == m then some 0 else keep_age ways (map_age (λ a. a + 1) o)

pub find-fifo_update :
    (ways : ℕ) (s : AgeSetState) (l m : ℕ)
    → Distinct s
    → find (fifo_update ways s l) m ≡ fifo_age ways l m (find s l) (find s m)
unfolding fifo_update
find-fifo_update ways s l m d = ground (arith, contains-find s l, find-insert_miss ways s l m)
