-- ===== src/Cache/Policy.antt =====
-- The interface of a replacement policy and the three policies of the repository
-- (include/Analysis/Cache/ReplacementPolicy.h). A state is a value, so `clone` is the identity; the
-- name and the text form of a policy are left out.
pub mod Unknown
use llta.Cache.Age.{
  AgeSetState, contains, effective_ways, equals, fifo_update, join, lru_update, make_empty,
}
use llta.Cache.Kind.{AnalysisKind}
use llta.Cache.Policy.Unknown.{UnknownSetState, update}
use llta.Prelude.{Bool, none, true, ℕ}

-- The operations of `ReplacementPolicy` on the state of one set.
pub record ReplacementPolicy : Type 1 where
  pub State : Type 0
  pub make_empty : State
  pub equals : State → State → Bool
  pub contains : State → ℕ → Bool
  pub update : State → ℕ → State
  pub join : AnalysisKind → State → State → State × Bool
  pub supports : AnalysisKind → Bool

abbrev pub lru_policy : ℕ → ReplacementPolicy
lru_policy ways = record {
  State = AgeSetState;
  make_empty = make_empty;
  equals = equals;
  contains = contains;
  update = lru_update (effective_ways ways);
  join = join;
  supports = λ _. true;
}

abbrev pub fifo_policy : ℕ → ReplacementPolicy
fifo_policy ways = record {
  State = AgeSetState;
  make_empty = make_empty;
  equals = equals;
  contains = contains;
  update = fifo_update (effective_ways ways);
  join = join;
  supports = λ _. true;
}

abbrev pub unknown_policy : ReplacementPolicy
unknown_policy = record {
  State = UnknownSetState;
  make_empty = none;
  equals = Unknown.same_line;
  contains = Unknown.holds;
  update = Unknown.update;
  join = Unknown.meet;
  supports = Unknown.only_must;
}
