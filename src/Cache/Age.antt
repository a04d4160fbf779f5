-- ===== src/Cache/Age.antt =====
-- The state and the shared operations of the age-based policies, and the transfer functions of LRU
-- and FIFO (include/Analysis/Cache/ReplacementPolicy.h). A line and an age are numbers; the ages
-- stay below the number of ways, so that no increment wraps.
pub mod Lookup
pub mod Form
pub mod WellFormed
use llta.Prelude.{
  ℕ, ◌+◌, max, min, Bool, true, false, ◌&&◌, Option, none, some, List, [], ◌∷◌, ◌++◌, ltb, ◌==◌,
  if◌then◌else◌,
}
use llta.Cache.Kind.{AnalysisKind, must, may}

-- `AgeSetState::Lines`: each present line with the bound on its age.
abbrev pub AgeSetState : Type 0
AgeSetState = List (ℕ × ℕ)

abbrev pub make_empty : AgeSetState
make_empty = []

-- The constructor replaces zero ways by one.
unfoldable pub effective_ways : ℕ → ℕ
effective_ways ways = if ways == 0 then 1 else ways

unfoldable pub find : AgeSetState → ℕ → Option ℕ
find [] line = none
find ((key, age) ∷ rest) line = if key == line then some age else find rest line

unfoldable pub contains : AgeSetState → ℕ → Bool
contains [] line = false
contains ((key, age) ∷ rest) line = if key == line then true else contains rest line

-- The loop `++P.second`.
unfoldable pub age_all : AgeSetState → AgeSetState
age_all [] = []
age_all ((key, age) ∷ rest) = (key, age + 1) ∷ age_all rest

-- `erase(remove_if(P.second >= Ways))`.
unfoldable pub evict : ℕ → AgeSetState → AgeSetState
evict ways [] = []
evict ways ((key, age) ∷ rest) =
    let kept = evict ways rest in if ltb age ways then (key, age) ∷ kept else kept

unfoldable pub insert_miss : ℕ → AgeSetState → ℕ → AgeSetState
insert_miss ways lines line = evict ways (age_all lines) ++ (line, 0) ∷ []

-- The inner loop of a hit: the lines younger than `bound` age by one.
unfoldable pub age_younger : ℕ → AgeSetState → AgeSetState
age_younger bound [] = []
age_younger bound ((key, age) ∷ rest) =
    (key, if ltb age bound then age + 1 else age) ∷ age_younger bound rest

-- `P.second = 0` at the first entry of the line.
unfoldable pub reset : ℕ → AgeSetState → AgeSetState
reset line [] = []
reset line ((key, age) ∷ rest) =
    if key == line then (key, 0) ∷ rest else (key, age) ∷ reset line rest

-- `LRUPolicy::update`.
unfoldable pub lru_update : ℕ → AgeSetState → ℕ → AgeSetState
lru_update ways lines line = elim (find lines line) [
  | some age ↦ reset line (age_younger age lines)
  | none ↦ insert_miss ways lines line
]

-- `FIFOPolicy::update`.
unfoldable pub fifo_update : ℕ → AgeSetState → ℕ → AgeSetState
fifo_update ways lines line = if contains lines line then lines else insert_miss ways lines line

-- The lexicographic order of `std::pair`, by which `sorted` sorts.
unfoldable pub pair_lt : ℕ × ℕ → ℕ × ℕ → Bool
pair_lt p q = if ltb p.0 q.0 then true else ((p.0 == q.0) && ltb p.1 q.1)

unfoldable pub sort_insert : ℕ × ℕ → AgeSetState → AgeSetState
sort_insert p [] = p ∷ []
sort_insert p (q ∷ rest) = if pair_lt q p then q ∷ sort_insert p rest else p ∷ q ∷ rest

unfoldable pub sorted : AgeSetState → AgeSetState
sorted [] = []
sorted (p ∷ rest) = sort_insert p (sorted rest)

unfoldable pub same_lines : AgeSetState → AgeSetState → Bool
same_lines [] [] = true
same_lines (p ∷ xs) (q ∷ ys) = (p.0 == q.0) && (p.1 == q.1) && same_lines xs ys
same_lines _ _ = false

unfoldable pub equals : AgeSetState → AgeSetState → Bool
equals a b = same_lines (sorted a) (sorted b)

-- Must: the intersection, with the older age.
unfoldable pub merge_must : AgeSetState → AgeSetState → AgeSetState
merge_must [] other = []
merge_must ((key, age) ∷ rest) other =
    let merged = merge_must rest other in
    elim (find other key) [ some age' ↦ (key, max age age') ∷ merged | none ↦ merged ]

-- May, first loop: the younger age for a line that both hold.
unfoldable pub youngest : AgeSetState → AgeSetState → AgeSetState
youngest [] other = []
youngest ((key, age) ∷ rest) other =
    (key, elim (find other key) [ some age' ↦ min age age' | none ↦ age ]) ∷ youngest rest other

-- May, second loop: the lines of `other` that `into` does not hold.
unfoldable pub missing : AgeSetState → AgeSetState → AgeSetState
missing into [] = []
missing into ((key, age) ∷ rest) =
    let more = missing into rest in
    elim (find into key) [ some _ ↦ more | none ↦ (key, age) ∷ more ]

unfoldable pub merge : AnalysisKind → AgeSetState → AgeSetState → AgeSetState
merge must into other = merge_must into other
merge may into other = youngest into other ++ missing into other

-- The new state, and whether it changed.
unfoldable pub join : AnalysisKind → AgeSetState → AgeSetState → AgeSetState × Bool
join kind into other =
    let merged = merge kind into other in
    if equals into merged then (into, false) else (merged, true)
