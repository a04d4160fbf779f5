-- ===== src/Cache/Policy/Unknown.antt =====
-- The adversarial policy: a set guarantees at most the line accessed last (`UnknownPolicy` of
-- include/Analysis/Cache/ReplacementPolicy.h).
use llta.Cache.Kind.{AnalysisKind, may, must}
use llta.Prelude.{Bool, Option, arith, false, if◌then◌else◌, none, some, true, ℕ, ◌==◌, ◌↔◌, ◌≡◌}

-- `UnknownSetState::Line`.
abbrev pub UnknownSetState : Type 0
UnknownSetState = Option ℕ

unfoldable pub same_line : UnknownSetState → UnknownSetState → Bool
same_line none none = true
same_line (some a) (some b) = a == b
same_line _ _ = false

unfoldable pub holds : UnknownSetState → ℕ → Bool
holds none line = false
holds (some a) line = a == line

-- The accessed line is now resident.
unfoldable pub update : UnknownSetState → ℕ → UnknownSetState
update s line = some line

-- The line that both guarantee.
unfoldable pub merged : UnknownSetState → UnknownSetState → UnknownSetState
merged (some a) (some b) = if a == b then some a else none
merged _ _ = none

-- The direction is not read: the policy is for the must analysis alone.
unfoldable pub meet : AnalysisKind → UnknownSetState → UnknownSetState → UnknownSetState × Bool
unfolding merged same_line
meet kind into other =
    let both = merged into other in if same_line both into then (into, false) else (both, true)

unfoldable pub only_must : AnalysisKind → Bool
only_must must = true
only_must may = false

-- The new state is what both sides guarantee, and the flag tells whether it differs.
pub meet_lem :
    (kind : AnalysisKind) (s t : UnknownSetState)
    → ((meet kind s t).0 ≡ merged s t) × (((meet kind s t).1 ≡ false) ↔ ((meet kind s t).0 ≡ s))
unfolding meet merged same_line
meet_lem kind none none = ground arith
meet_lem kind none (some b) = ground arith
meet_lem kind (some a) none = ground arith
meet_lem kind (some a) (some b) = ground arith
