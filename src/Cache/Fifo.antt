-- ===== src/Cache/Fifo.antt =====
-- The FIFO policy against a FIFO cache (`FIFOPolicy` of
-- include/Analysis/Cache/ReplacementPolicy.h).
use llta.Cache.Age.{AgeSetState, contains, fifo_update, find, lru_update}
use llta.Cache.Age.Form.{
  fifo_age, fifo_update-Distinct, find-fifo_update, find-lru_update, lru_update-Distinct,
}
use llta.Cache.Age.Lookup.{Distinct, contains-find, is_some}
use llta.Cache.Age.WellFormed.{IsWellFormed}
use llta.Cache.Hardware.{HardwareSet, age_of, age_of-fifo_access, fifo_access}
use llta.Cache.Kind.{must}
use llta.Cache.Lru.{Describes, NoOlder}
use llta.Prelude.{Option, arith, false, none, refl, some, true, ℕ, ◌-◌, ◌<◌, ◌≡◌, ◌⊎◌}

-- The state lists exactly the lines of the set, each with its age.
abbrev pub IsExact : AgeSetState → HardwareSet → Type 0
IsExact s c = (m : ℕ) → find s m ≡ age_of c m

-- From an exact state every FIFO access gives an exact state: on a straight path from a cold cache
-- the analysis follows the queue of the hardware.
pub fifo_update-IsExact :
    (ways : ℕ) (s : AgeSetState) (c : HardwareSet) (l : ℕ)
    → 0 < ways
    → Distinct s
    → IsExact s c
    → IsExact (fifo_update ways s l) (fifo_access ways c l)
fifo_update-IsExact ways s c l pos d h =
    λ m. ground (arith, find-fifo_update ways s l m d, age_of-fifo_access ways c l m pos, h l, h m)

must_step :
    (ways l m : ℕ) (sl sm cl cm : Option ℕ)
    → 0 < ways
    → ((a : ℕ) → sm ≡ some a → a < ways)
    → NoOlder cl sl
    → NoOlder cm sm
    → (is_some sl ≡ true) ⊎ (cl ≡ none)
    → NoOlder (fifo_age ways l m cl cm) (fifo_age ways l m sl sm)
must_step ways l m none sm none none pos young hl hm known = ground (arith, young 0)
must_step ways l m none none none (some p) pos young hl hm known = ground arith
must_step ways l m none (some b) none (some p) pos young hl hm known = ground (arith, young b refl)
must_step ways l m none sm (some q) cm pos young hl hm known = ground arith
must_step ways l m (some a) sm none cm pos young hl hm known = absurd hl
must_step ways l m (some a) sm (some q) cm pos young hl hm known = hm

-- A line that the must state lists, or that the hardware does not hold, is accessed soundly.
pub fifo_update-Describes :
    (ways : ℕ) (s : AgeSetState) (c : HardwareSet) (l : ℕ)
    → 0 < ways
    → IsWellFormed ways s
    → Describes must s c
    → (contains s l ≡ true) ⊎ (age_of c l ≡ none)
    → Describes must (fifo_update ways s l) (fifo_access ways c l)
fifo_update-Describes ways s c l pos w h known = λ m.
    rw (find-fifo_update ways s l m w.distinct, age_of-fifo_access ways c l m pos)
      (must_step ways l m (find s l) (find s m) (age_of c l) (age_of c m) pos (w.young m) (h l)
        (h m) (rw contains-find at known))

-- The must analysis is unsound for a join that forgot the line: where the hardware holds the line at
-- the end of the queue and the must state does not list it, the access is a hit that leaves the line
-- at the end, yet the state lists it as the youngest. The next miss evicts the line, and the state
-- still calls it a guaranteed hit.
pub fifo_update-unsound :
    (ways : ℕ) (s : AgeSetState) (c : HardwareSet) (l x : ℕ)
    → 1 < ways
    → IsWellFormed ways s
    → Describes must s c
    → contains s l ≡ false
    → age_of c l ≡ some (ways - 1)
    → age_of c x ≡ none
    → (contains (fifo_update ways (fifo_update ways s l) x) l ≡ true)
      × (age_of (fifo_access ways (fifo_access ways c l) x) l ≡ none)
fifo_update-unsound ways s c l x two w h sl cl cx = (
  ground (
    arith,
    contains-find (fifo_update ways (fifo_update ways s l) x) l,
    contains-find s l,
    h x,
    find-fifo_update ways (fifo_update ways s l) x l (fifo_update-Distinct ways s l w.distinct),
    find-fifo_update ways s l l w.distinct,
    find-fifo_update ways s l x w.distinct,
  ),
  ground (
    arith,
    age_of-fifo_access ways (fifo_access ways c l) x l,
    age_of-fifo_access ways c l l,
    age_of-fifo_access ways c l x,
  ),
)

-- An LRU may state does not cover a FIFO cache: a hit on the oldest line `y` makes `l` the oldest of
-- the state, while the queue keeps its order. The next miss on a new line drops `l` from the state,
-- and the hardware still holds it.
pub lru_may-misses-fifo :
    (ways : ℕ) (s : AgeSetState) (c : HardwareSet) (l x y : ℕ)
    → 1 < ways
    → IsWellFormed ways s
    → IsExact s c
    → age_of c y ≡ some (ways - 1)
    → age_of c l ≡ some (ways - 2)
    → age_of c x ≡ none
    → (contains (lru_update ways (lru_update ways s y) x) l ≡ false)
      × (age_of (fifo_access ways (fifo_access ways c y) x) l ≡ some (ways - 1))
lru_may-misses-fifo ways s c l x y two w h cy cl cx = (
  ground (
    arith,
    contains-find (lru_update ways (lru_update ways s y) x) l,
    find-lru_update ways (lru_update ways s y) x l (lru_update-Distinct ways s y w.distinct),
    find-lru_update ways s y l w.distinct,
    find-lru_update ways s y x w.distinct,
    h l,
    h x,
    h y,
  ),
  ground (
    arith,
    age_of-fifo_access ways (fifo_access ways c y) x l,
    age_of-fifo_access ways c y l,
    age_of-fifo_access ways c y x,
  ),
)
