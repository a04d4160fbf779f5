-- ===== src/Cache/Hardware.antt =====
-- The caches that the abstract states speak of. They are no code of the repository: they say what a
-- real set does under LRU and under FIFO replacement, and are what the analysis has to be right
-- about. A set is the list of its lines, the youngest first; a line's age is its position.
use llta.Cache.Age.Form.{fifo_age}
use llta.Cache.Age.Lookup.{is_some, keep_age, map_age}
use llta.Prelude.{
  List, Option, Option-cases, [], ap, arith, if◌then◌else◌, inl, inr, ltb, none, refl, some, suc,
  take, zero, ℕ, ◌+◌, ◌-◌, ◌<◌, ◌==◌, ◌∙◌, ◌∷◌, ◌≡◌, ◌≢◌,
}

abbrev pub HardwareSet : Type 0
HardwareSet = List ℕ

unfoldable pub age_of : HardwareSet → ℕ → Option ℕ
age_of [] m = none
age_of (x ∷ c) m = if x == m then some 0 else map_age (λ a. a + 1) (age_of c m)

unfoldable pub remove : ℕ → HardwareSet → HardwareSet
remove l [] = []
remove l (x ∷ c) = if x == l then c else x ∷ remove l c

-- LRU moves the line to the front, and the last line leaves a full set.
unfoldable pub lru_access : ℕ → HardwareSet → ℕ → HardwareSet
lru_access ways c l = take ways (l ∷ remove l c)

-- FIFO leaves a set that holds the line alone.
unfoldable pub fifo_access : ℕ → HardwareSet → ℕ → HardwareSet
fifo_access ways c l = if is_some (age_of c l) then c else take ways (l ∷ c)

age_of-cons :
    (l : ℕ) (c : HardwareSet) (m : ℕ)
    → age_of (l ∷ c) m ≡ (if l == m then some 0 else map_age (λ a. a + 1) (age_of c m))
unfolding age_of
age_of-cons l c m = refl

age_of-take : (n : ℕ) (c : HardwareSet) (m : ℕ) → age_of (take n c) m ≡ keep_age n (age_of c m)
unfolding age_of
age_of-take zero c m = ground arith
age_of-take (suc n) [] m = refl
age_of-take (suc n) (x ∷ c) m = ground (arith, age_of-take n c m)

-- Taking out a line brings the lines behind it one place forward.
abbrev closer : Option ℕ → Option ℕ → Option ℕ
closer none o = o
closer (some q) o = map_age (λ a. if ltb q a then a - 1 else a) o

age_of-remove :
    (l : ℕ) (c : HardwareSet) (m : ℕ)
    → l ≢ m
    → age_of (remove l c) m ≡ closer (age_of c l) (age_of c m)
unfolding age_of remove
age_of-remove l [] m h = refl
age_of-remove l (x ∷ c) m h = ground (arith, age_of-remove l c m)

age_of_inj : (c : HardwareSet) (l m : ℕ) (a : ℕ) → age_of c l ≡ some a → age_of c m ≡ some a → l ≡ m
unfolding age_of
age_of_inj [] l m a p q = cc
age_of_inj (x ∷ c) l m zero p q = ground arith
age_of_inj (x ∷ c) l m (suc a) p q = ground (arith, age_of_inj c l m a)

abbrev pub lru_shift : Option ℕ → Option ℕ → Option ℕ
lru_shift (some q) o = map_age (λ a. if ltb a q then a + 1 else a) o
lru_shift none o = map_age (λ a. a + 1) o

age_of-touch :
    (c : HardwareSet) (l m : ℕ)
    → age_of (l ∷ remove l c) m ≡ (if l == m then some 0 else lru_shift (age_of c l) (age_of c m))
unfolding age_of
age_of-touch c l m = elim (Option-cases (age_of c l)) [
  | inl absent ↦ ground (arith, age_of-remove l c m)
  | inr (q, held) ↦ elim (Option-cases (age_of c m)) [
    | inl gone ↦ ground (arith, age_of-remove l c m)
    | inr (a, there) ↦ ground (arith, age_of-remove l c m, age_of_inj c l m a)
  ]
]

-- The age after an LRU access: only the lines younger than the accessed one grow older.
pub age_of-lru_access :
    (ways : ℕ) (c : HardwareSet) (l m : ℕ)
    → age_of (lru_access ways c l) m
      ≡ keep_age ways (if l == m then some 0 else lru_shift (age_of c l) (age_of c m))
unfolding lru_access
age_of-lru_access ways c l m =
    age_of-take ways (l ∷ remove l c) m ∙ ap (keep_age ways) (age_of-touch c l m)

-- The age after a FIFO access: a miss makes every line older, a hit none.
pub age_of-fifo_access :
    (ways : ℕ) (c : HardwareSet) (l m : ℕ)
    → 0 < ways
    → age_of (fifo_access ways c l) m ≡ fifo_age ways l m (age_of c l) (age_of c m)
unfolding fifo_access
age_of-fifo_access ways c l m pos = ground (arith, age_of-take ways (l ∷ c) m, age_of-cons l c m)
