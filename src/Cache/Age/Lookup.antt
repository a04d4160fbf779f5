-- ===== src/Cache/Age/Lookup.antt =====
-- What a lookup finds after each operation of the age-based policies
-- (include/Analysis/Cache/ReplacementPolicy.h).
use llta.Prelude.{
  ℕ, ◌+◌, max, min, ◌≡◌, refl, ◌≢◌, Bool, true, false, Option, none, some, [], ◌∷◌, ◌++◌, ltb, ◌==◌,
  if◌then◌else◌, arith,
}
use llta.Cache.Age.{
  AgeSetState, find, contains, age_all, evict, age_younger, reset, merge_must, youngest, missing,
  sorted, sort_insert, same_lines, equals,
}

-- No line occurs twice.
abbrev pub Distinct : AgeSetState → Type 0
Distinct [] = Unit
Distinct ((key, age) ∷ rest) = (find rest key ≡ none) × Distinct rest

abbrev pub map_age : (ℕ → ℕ) → Option ℕ → Option ℕ
map_age f none = none
map_age f (some a) = some (f a)

-- An age that reaches the number of ways is evicted.
abbrev pub keep_age : ℕ → Option ℕ → Option ℕ
keep_age ways none = none
keep_age ways (some a) = if ltb a ways then some a else none

abbrev pub or_else : Option ℕ → Option ℕ → Option ℕ
or_else none o = o
or_else (some a) o = some a

abbrev pub is_some : Option ℕ → Bool
is_some none = false
is_some (some a) = true

pub contains-find : (s : AgeSetState) (m : ℕ) → contains s m ≡ is_some (find s m)
unfolding contains find
contains-find [] m = refl
contains-find ((k, a) ∷ s) m = ground (arith, contains-find s m)

pub find-age_all : (s : AgeSetState) (m : ℕ) → find (age_all s) m ≡ map_age (λ a. a + 1) (find s m)
unfolding find age_all
find-age_all [] m = refl
find-age_all ((k, a) ∷ s) m = ground (arith, find-age_all s m)

pub find-age_younger :
    (b : ℕ) (s : AgeSetState) (m : ℕ)
    → find (age_younger b s) m ≡ map_age (λ a. if ltb a b then a + 1 else a) (find s m)
unfolding find age_younger
find-age_younger b [] m = refl
find-age_younger b ((k, a) ∷ s) m = ground (arith, find-age_younger b s m)

pub find-reset_ne : (l : ℕ) (s : AgeSetState) (m : ℕ) → m ≢ l → find (reset l s) m ≡ find s m
unfolding find reset
find-reset_ne l [] m h = refl
find-reset_ne l ((k, a) ∷ s) m h = ground (arith, find-reset_ne l s m)

pub find-reset_self : (l : ℕ) (s : AgeSetState) → find (reset l s) l ≡ map_age (λ _. 0) (find s l)
unfolding find reset
find-reset_self l [] = refl
find-reset_self l ((k, a) ∷ s) = ground (arith, find-reset_self l s)

pub find-append : (s t : AgeSetState) (m : ℕ) → find (s ++ t) m ≡ or_else (find s m) (find t m)
unfolding find
find-append [] t m = refl
find-append ((k, a) ∷ s) t m = ground (arith, find-append s t m)

pub find-evict-none :
    (ways : ℕ) (s : AgeSetState) (m : ℕ) → find s m ≡ none → find (evict ways s) m ≡ none
unfolding find evict
find-evict-none ways [] m h = refl
find-evict-none ways ((k, a) ∷ s) m h = ground (arith, find-evict-none ways s m)

pub find-evict :
    (ways : ℕ) (s : AgeSetState) (m : ℕ)
    → Distinct s
    → find (evict ways s) m ≡ keep_age ways (find s m)
unfolding find evict
find-evict ways [] m d = refl
find-evict ways ((k, a) ∷ s) m d = ground (arith, find-evict ways s m, find-evict-none ways s m)

abbrev pub older_age : Option ℕ → Option ℕ → Option ℕ
older_age (some a) (some b) = some (max a b)
older_age (some a) none = none
older_age none o = none

abbrev pub younger_age : Option ℕ → Option ℕ → Option ℕ
younger_age (some a) (some b) = some (min a b)
younger_age (some a) none = some a
younger_age none o = o

pub find-merge_must :
    (s t : AgeSetState) (m : ℕ) → find (merge_must s t) m ≡ older_age (find s m) (find t m)
unfolding find merge_must
find-merge_must [] t m = refl
find-merge_must ((k, a) ∷ s) t m = ground (arith, find-merge_must s t m)

pub find-youngest :
    (s t : AgeSetState) (m : ℕ)
    → find (youngest s t) m
      ≡ elim (find s m) [ some a ↦ younger_age (some a) (find t m) | none ↦ none ]
unfolding find youngest
find-youngest [] t m = refl
find-youngest ((k, a) ∷ s) t m = ground (arith, find-youngest s t m)

pub find-missing :
    (s t : AgeSetState) (m : ℕ)
    → find (missing s t) m ≡ elim (find s m) [ some _ ↦ none | none ↦ find t m ]
unfolding find missing
find-missing s [] m = ground arith
find-missing s ((k, a) ∷ t) m = ground (arith, find-missing s t m)

pub find-merge_may :
    (s t : AgeSetState) (m : ℕ)
    → find (youngest s t ++ missing s t) m ≡ younger_age (find s m) (find t m)
find-merge_may s t m =
    ground
      (arith, find-append (youngest s t) (missing s t) m, find-youngest s t m, find-missing s t m)

-- `sorted` keeps what is found, and two states that `equals` accepts find the same.
find-sort_insert :
    (k a : ℕ) (s : AgeSetState) (m : ℕ)
    → find s k ≡ none
    → find (sort_insert (k, a) s) m ≡ (if k == m then some a else find s m)
unfolding find sort_insert
find-sort_insert k a [] m h = refl
find-sort_insert k a ((j, b) ∷ s) m h = ground (arith, find-sort_insert k a s m)

pub find-sorted : (s : AgeSetState) (m : ℕ) → Distinct s → find (sorted s) m ≡ find s m
unfolding find sorted
find-sorted [] m d = refl
find-sorted ((k, a) ∷ s) m d =
    ground (arith, find-sorted s m, find-sorted s k, find-sort_insert k a (sorted s) m)

find-same_lines : (s t : AgeSetState) (m : ℕ) → same_lines s t ≡ true → find s m ≡ find t m
unfolding find same_lines
find-same_lines [] [] m h = refl
find-same_lines [] (q ∷ t) m h = cc
find-same_lines (p ∷ s) [] m h = cc
find-same_lines ((k, a) ∷ s) ((j, b) ∷ t) m h = ground (arith, find-same_lines s t m)

pub find-equals :
    (s t : AgeSetState) (m : ℕ) → Distinct s → Distinct t → equals s t ≡ true → find s m ≡ find t m
unfolding equals
find-equals s t m ds dt h =
    ground (arith, find-sorted s m, find-sorted t m, find-same_lines (sorted s) (sorted t) m)
