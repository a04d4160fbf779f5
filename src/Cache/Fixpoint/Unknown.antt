-- ===== src/Cache/Fixpoint/Unknown.antt =====
-- The order of the adversarial policy: a set that guarantees nothing is below every other
-- (`UnknownPolicy` of include/Analysis/Cache/ReplacementPolicy.h).
use llta.Cache.Fixpoint.Order.{SetAscends}
use llta.Cache.Kind.{AnalysisKind}
use llta.Cache.Policy.{unknown_policy}
use llta.Cache.Policy.Unknown.{UnknownSetState, meet, meet_lem, merged, same_line, update}
use llta.Cache.State.{CacheState, same_sets}
use llta.Prelude.{
  ==_iff, Bool-cases, [], arith, false, inl, inr, none, refl, some, true, ℕ, ◌<◌, ◌==◌, ◌∙◌, ◌∷◌,
  ◌≡◌, ◌≤◌,
}

abbrev pub LineLe : UnknownSetState → UnknownSetState → Type 0
LineLe none t = Unit
LineLe (some a) none = ⊥
LineLe (some a) (some b) = a ≡ b

pub LineLe-refl : (s : UnknownSetState) → LineLe s s
LineLe-refl none = tt
LineLe-refl (some a) = refl

pub LineLe-trans : (s t u : UnknownSetState) → LineLe s t → LineLe t u → LineLe s u
LineLe-trans none t u h k = tt
LineLe-trans (some a) none u h k = absurd h
LineLe-trans (some a) (some b) none h k = absurd k
LineLe-trans (some a) (some b) (some c) h k = h ∙ k

merged-LineLe :
    (s t u v : UnknownSetState) → LineLe s u → LineLe t v → LineLe (merged s t) (merged u v)
unfolding merged
merged-LineLe none t u v h k = tt
merged-LineLe (some a) none u v h k = tt
merged-LineLe (some a) (some b) none v h k = absurd h
merged-LineLe (some a) (some b) (some c) none h k = absurd k
merged-LineLe (some a) (some b) (some c) (some d) h k = elim (Bool-cases (a == b)) [
  | inr apart ↦ rw apart tt
  | inl same ↦ let both : (c == d) ≡ true = ground arith in rw (same, both) h
]

pub meet-LineLe :
    (kind : AnalysisKind) (s t u v : UnknownSetState)
    → LineLe s u
    → LineLe t v
    → LineLe (meet kind s t).0 (meet kind u v).0
meet-LineLe kind s t u v h k =
    rw ((meet_lem kind s t).0, (meet_lem kind u v).0) (merged-LineLe s t u v h k)

abbrev pub line_rank : UnknownSetState → ℕ
line_rank none = 0
line_rank (some a) = 1

pub line_rank_height : (s : UnknownSetState) → line_rank s ≤ 1
line_rank_height none = omega arith
line_rank_height (some a) = omega arith

pub line_rank_mono : (s t : UnknownSetState) → LineLe s t → line_rank s ≤ line_rank t
line_rank_mono none t h = omega arith
line_rank_mono (some a) (some b) h = omega arith
line_rank_mono (some a) none h = absurd h

pub line_rank_grows :
    (s t : UnknownSetState) → LineLe s t → same_line s t ≡ false → line_rank s < line_rank t
unfolding same_line
line_rank_grows none none h e = absurd (cc)
line_rank_grows none (some b) h e = omega arith
line_rank_grows (some a) (some b) h e = absurd (ground (arith, (==_iff a b).1 h))
line_rank_grows (some a) none h e = absurd h

pub update-LineLe : (s t : UnknownSetState) (line : ℕ) → LineLe (update s line) (update t line)
unfolding update
update-LineLe s t line = refl

pub same_line_refl : (s : UnknownSetState) → same_line s s ≡ true
unfolding same_line
same_line_refl none = refl
same_line_refl (some a) = (==_iff a a).1 refl

pub same_sets_refl : (xs : CacheState unknown_policy) → same_sets unknown_policy xs xs ≡ true
unfolding same_sets
same_sets_refl [] = refl
same_sets_refl (a ∷ xs) = rw (same_line_refl a) (same_sets_refl xs)

abbrev pub unknown_ascends : (kind : AnalysisKind) → SetAscends unknown_policy kind
unknown_ascends kind = record {
  SetLe = LineLe;
  set_refl = LineLe-refl;
  set_trans = LineLe-trans;
  empty_least = λ s. tt;
  update_mono = λ s t line h. update-LineLe s t line;
  meet_mono = meet-LineLe kind;
  set_height = 1;
  set_rank = line_rank;
  set_rank_height = line_rank_height;
  set_rank_mono = line_rank_mono;
  set_rank_grows = line_rank_grows;
}
