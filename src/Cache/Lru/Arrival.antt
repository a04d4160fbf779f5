-- ===== src/Cache/Lru/Arrival.antt =====
-- What the LRU analysis says of a set after any accesses and joins (`LRUPolicy` and
-- `AgeBasedPolicy` of include/Analysis/Cache/ReplacementPolicy.h).
use llta.Cache.Age.{AgeSetState, contains, find, join, lru_update, make_empty}
use llta.Cache.Age.Lookup.{is_some}
use llta.Cache.Age.WellFormed.{IsWellFormed, age_sets-IsWellFormed, make_empty-IsWellFormed}
use llta.Cache.Hardware.{HardwareSet, age_of, lru_access}
use llta.Cache.Kind.{AnalysisKind, may, must}
use llta.Cache.Lru.{Describes, contains-Describes, join-Describes, lru_update-Describes}
use llta.Prelude.{[], false, inl, inr, true, ℕ, ◌<◌, ◌∷◌, ◌≡◌}

-- What a set of the hardware holds at the start: a must analysis allows for any lines, a may analysis
-- for none.
abbrev pub Begins : AnalysisKind → HardwareSet → Type 0
Begins must c = Unit
Begins may c = c ≡ []

-- The states that the policy can have of a set after a run of the hardware: it starts empty, follows
-- every access, and is joined with states of other runs, on either side.
pub data Arrives (kind : AnalysisKind) (ways : ℕ) : AgeSetState → HardwareSet → Type 0 where
  set_begins : {c : HardwareSet} → Begins kind c → Arrives kind ways make_empty c
  line_accessed :
      {s : AgeSetState} {c : HardwareSet} (l : ℕ)
      → Arrives kind ways s c
      → Arrives kind ways (lru_update ways s l) (lru_access ways c l)
  joined_left :
      {s : AgeSetState} {c : HardwareSet} (t : AgeSetState)
      → IsWellFormed ways t
      → Arrives kind ways s c
      → Arrives kind ways (join kind s t).0 c
  joined_right :
      {t : AgeSetState} {c : HardwareSet} (s : AgeSetState)
      → IsWellFormed ways s
      → Arrives kind ways t c
      → Arrives kind ways (join kind s t).0 c

Begins-Describes :
    (kind : AnalysisKind) (c : HardwareSet) → Begins kind c → Describes kind make_empty c
unfolding find age_of
Begins-Describes must c h = λ m. tt
Begins-Describes may [] h = λ m. tt
Begins-Describes may (x ∷ c) h = absurd (cc)

Arrives-Describes :
    (kind : AnalysisKind) (ways : ℕ) (s : AgeSetState) (c : HardwareSet)
    → 0 < ways
    → Arrives kind ways s c
    → IsWellFormed ways s × Describes kind s c
Arrives-Describes kind ways s c pos (set_begins h) =
    (make_empty-IsWellFormed ways, Begins-Describes kind c h)
Arrives-Describes kind ways s c pos (line_accessed {s = r} {c = d} l before) =
    let (w, says) = Arrives-Describes kind ways r d pos before in
    (
      (age_sets-IsWellFormed ways kind r r l pos w w).0,
      lru_update-Describes kind ways r d l pos w says,
    )
Arrives-Describes kind ways s c pos (joined_left {s = r} t v before) =
    let (w, says) = Arrives-Describes kind ways r c pos before in
    (
      (age_sets-IsWellFormed ways kind r t 0 pos w v).2,
      join-Describes kind r t c w.distinct v.distinct (inl says),
    )
Arrives-Describes kind ways s c pos (joined_right {t = r} t v before) =
    let (w, says) = Arrives-Describes kind ways r c pos before in
    (
      (age_sets-IsWellFormed ways kind t r 0 pos v w).2,
      join-Describes kind t r c v.distinct w.distinct (inr says),
    )

-- After any accesses and joins the analysis classifies an access rightly: a line that a must state
-- contains is in the set, so its access is a hit, and a line that a may state does not contain is not,
-- so its access is a miss.
pub lru_classifies :
    (ways : ℕ) (s : AgeSetState) (c : HardwareSet) (t : AgeSetState) (d : HardwareSet) (l m : ℕ)
    → 0 < ways
    → Arrives must ways s c
    → Arrives may ways t d
    → contains s l ≡ true
    → contains t m ≡ false
    → (is_some (age_of c l) ≡ true) × (is_some (age_of d m) ≡ false)
lru_classifies ways s c t d l m pos run_must run_may listed unlisted =
    let (_, says_must) = Arrives-Describes must ways s c pos run_must in
    let (_, says_may) = Arrives-Describes may ways t d pos run_may in
    ((contains-Describes s c l).0 says_must listed, (contains-Describes t d m).1 says_may unlisted)
