-- ===== src/Cache/Lru.antt =====
-- The LRU policy against an LRU cache: what a must state and a may state say of the hardware, and
-- that every operation of the policy keeps it (`LRUPolicy` and `AgeBasedPolicy` of
-- include/Analysis/Cache/ReplacementPolicy.h).
pub mod Arrival
use llta.Cache.Age.{AgeSetState, contains, find, join, lru_update}
use llta.Cache.Age.Form.{find-join, find-lru_update, lru_age}
use llta.Cache.Age.Lookup.{Distinct, contains-find, is_some, keep_age, older_age, younger_age}
use llta.Cache.Age.WellFormed.{IsWellFormed}
use llta.Cache.Hardware.{HardwareSet, age_of, age_of-lru_access, lru_access, lru_shift}
use llta.Cache.Kind.{AnalysisKind, may, must}
use llta.Prelude.{
  Option, arith, false, if◌then◌else◌, inl, inr, none, refl, some, true, ℕ, ◌<◌, ◌==◌, ◌≡◌, ◌≤◌,
  ◌⊎◌,
}

-- A must bound on the age of a line: the line is present and not older.
abbrev pub NoOlder : Option ℕ → Option ℕ → Type 0
NoOlder age none = Unit
NoOlder none (some bound) = ⊥
NoOlder (some age) (some bound) = age ≤ bound

-- A may bound: a line that is present is listed, and not younger.
abbrev pub NoYounger : Option ℕ → Option ℕ → Type 0
NoYounger none bound = Unit
NoYounger (some age) none = ⊥
NoYounger (some age) (some bound) = bound ≤ age

-- What a state says of a set, in each direction.
abbrev pub Describes : AnalysisKind → AgeSetState → HardwareSet → Type 0
Describes must s c = (m : ℕ) → NoOlder (age_of c m) (find s m)
Describes may s c = (m : ℕ) → NoYounger (age_of c m) (find s m)

must_step :
    (ways l m : ℕ) (sl sm cl cm : Option ℕ)
    → 0 < ways
    → ((a : ℕ) → sm ≡ some a → a < ways)
    → ((a : ℕ) → sl ≡ some a → a < ways)
    → NoOlder cl sl
    → NoOlder cm sm
    → NoOlder
        (keep_age ways (if l == m then some 0 else lru_shift cl cm))
        (if l == m then some 0 else lru_age ways sl sm)
must_step ways l m none none cl cm pos ym yl hl hm = ground arith
must_step ways l m none (some b) cl none pos ym yl hl hm = absurd hm
must_step ways l m none (some b) none (some p) pos ym yl hl hm = ground (arith, ym b refl)
must_step ways l m none (some b) (some q) (some p) pos ym yl hl hm = ground (arith, ym b refl)
must_step ways l m (some a) sm none cm pos ym yl hl hm = absurd hl
must_step ways l m (some a) none (some q) cm pos ym yl hl hm = ground arith
must_step ways l m (some a) (some b) (some q) none pos ym yl hl hm = absurd hm
must_step ways l m (some a) (some b) (some q) (some p) pos ym yl hl hm =
    ground (arith, ym b refl, yl a refl)

may_step :
    (ways l m : ℕ) (sl sm cl cm : Option ℕ)
    → 0 < ways
    → NoYounger cl sl
    → NoYounger cm sm
    → NoYounger
        (keep_age ways (if l == m then some 0 else lru_shift cl cm))
        (if l == m then some 0 else lru_age ways sl sm)
may_step ways l m sl sm cl none pos hl hm = ground arith
may_step ways l m sl none cl (some p) pos hl hm = absurd hm
may_step ways l m none (some b) none (some p) pos hl hm = ground arith
may_step ways l m none (some b) (some q) (some p) pos hl hm = absurd hl
may_step ways l m (some a) (some b) none (some p) pos hl hm = ground arith
may_step ways l m (some a) (some b) (some q) (some p) pos hl hm = ground arith

-- An access keeps what the state says of an LRU set, in both directions.
pub lru_update-Describes :
    (kind : AnalysisKind) (ways : ℕ) (s : AgeSetState) (c : HardwareSet) (l : ℕ)
    → 0 < ways
    → IsWellFormed ways s
    → Describes kind s c
    → Describes kind (lru_update ways s l) (lru_access ways c l)
lru_update-Describes must ways s c l pos w h = λ m.
    rw (find-lru_update ways s l m w.distinct, age_of-lru_access ways c l m)
      (must_step ways l m (find s l) (find s m) (age_of c l) (age_of c m) pos (w.young m)
        (w.young l) (h l) (h m))
lru_update-Describes may ways s c l pos w h = λ m.
    rw (find-lru_update ways s l m w.distinct, age_of-lru_access ways c l m)
      (may_step ways l m (find s l) (find s m) (age_of c l) (age_of c m) pos (h l) (h m))

must_left : (age o p : Option ℕ) → NoOlder age o → NoOlder age (older_age o p)
must_left age none p h = tt
must_left age (some a) none h = tt
must_left none (some a) (some b) h = absurd h
must_left (some c) (some a) (some b) h = omega arith

must_right : (age o p : Option ℕ) → NoOlder age p → NoOlder age (older_age o p)
must_right age none p h = tt
must_right age (some a) none h = tt
must_right none (some a) (some b) h = absurd h
must_right (some c) (some a) (some b) h = omega arith

may_left : (age o p : Option ℕ) → NoYounger age o → NoYounger age (younger_age o p)
may_left none o p h = tt
may_left (some c) none p h = absurd h
may_left (some c) (some a) none h = h
may_left (some c) (some a) (some b) h = omega arith

may_right : (age o p : Option ℕ) → NoYounger age p → NoYounger age (younger_age o p)
may_right none o p h = tt
may_right (some c) o none h = absurd h
may_right (some c) none (some b) h = h
may_right (some c) (some a) (some b) h = omega arith

-- A join says of a set what both of its sides may have come from.
pub join-Describes :
    (kind : AnalysisKind) (s t : AgeSetState) (c : HardwareSet)
    → Distinct s
    → Distinct t
    → Describes kind s c ⊎ Describes kind t c
    → Describes kind (join kind s t).0 c
join-Describes must s t c ds dt (inl h) =
    λ m. rw (find-join must s t m ds dt) (must_left (age_of c m) (find s m) (find t m) (h m))
join-Describes must s t c ds dt (inr h) =
    λ m. rw (find-join must s t m ds dt) (must_right (age_of c m) (find s m) (find t m) (h m))
join-Describes may s t c ds dt (inl h) =
    λ m. rw (find-join may s t m ds dt) (may_left (age_of c m) (find s m) (find t m) (h m))
join-Describes may s t c ds dt (inr h) =
    λ m. rw (find-join may s t m ds dt) (may_right (age_of c m) (find s m) (find t m) (h m))

-- In a must state a line that is contained is a hit, and in a may state one that is not is a miss.
pub contains-Describes :
    (s : AgeSetState) (c : HardwareSet) (l : ℕ)
    → (Describes must s c → contains s l ≡ true → is_some (age_of c l) ≡ true)
      × (Describes may s c → contains s l ≡ false → is_some (age_of c l) ≡ false)
contains-Describes s c l =
    (λ h p. ground (arith, contains-find s l, h l), λ h p. ground (arith, contains-find s l, h l))
