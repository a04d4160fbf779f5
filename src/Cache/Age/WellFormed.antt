-- ===== src/Cache/Age/WellFormed.antt =====
-- The invariant of the age-based states: no line occurs twice, and every age is below the number of
-- ways, so that `++P.second` never wraps (include/Analysis/Cache/ReplacementPolicy.h).
use llta.Cache.Age.{AgeSetState, fifo_update, find, join, lru_update, make_empty}
use llta.Cache.Age.Form.{
  fifo_update-Distinct, find-fifo_update, find-join, find-lru_update, join-Distinct,
  lru_update-Distinct,
}
use llta.Cache.Age.Lookup.{Distinct}
use llta.Cache.Kind.{AnalysisKind, may, must}
use llta.Prelude.{arith, some, ℕ, ◌<◌, ◌≡◌}

pub record IsWellFormed (ways : ℕ) (s : AgeSetState) : Type 0 where
  pub distinct : Distinct s
  pub young : (m a : ℕ) → find s m ≡ some a → a < ways

pub make_empty-IsWellFormed : (ways : ℕ) → IsWellFormed ways make_empty
unfolding find
make_empty-IsWellFormed ways = record { distinct = tt; young = λ m a h. cc }

pub lru_update-IsWellFormed :
    (ways : ℕ) (s : AgeSetState) (l : ℕ)
    → 0 < ways
    → IsWellFormed ways s
    → IsWellFormed ways (lru_update ways s l)
lru_update-IsWellFormed ways s l pos w = record {
  distinct = lru_update-Distinct ways s l w.distinct;
  young = λ m a h. grind (arith, find-lru_update ways s l m w.distinct, w.young);
}

pub fifo_update-IsWellFormed :
    (ways : ℕ) (s : AgeSetState) (l : ℕ)
    → 0 < ways
    → IsWellFormed ways s
    → IsWellFormed ways (fifo_update ways s l)
fifo_update-IsWellFormed ways s l pos w = record {
  distinct = fifo_update-Distinct ways s l w.distinct;
  young = λ m a h. ground (arith, find-fifo_update ways s l m w.distinct, w.young m a);
}

pub join-IsWellFormed :
    (ways : ℕ) (kind : AnalysisKind) (s t : AgeSetState)
    → IsWellFormed ways s
    → IsWellFormed ways t
    → IsWellFormed ways (join kind s t).0
join-IsWellFormed ways must s t v w = record {
  distinct = join-Distinct must s t v.distinct w.distinct;
  young = λ m a h. grind (arith, find-join must s t m v.distinct w.distinct, v.young, w.young);
}
join-IsWellFormed ways may s t v w = record {
  distinct = join-Distinct may s t v.distinct w.distinct;
  young = λ m a h. grind (arith, find-join may s t m v.distinct w.distinct, v.young, w.young);
}

-- An LRU access, a FIFO access and a join in either direction keep sets well formed: no line occurs
-- twice, and ages stay below the number of ways, which must not be zero.
pub age_sets-IsWellFormed :
    (ways : ℕ) (kind : AnalysisKind) (s t : AgeSetState) (l : ℕ)
    → 0 < ways
    → IsWellFormed ways s
    → IsWellFormed ways t
    → IsWellFormed ways (lru_update ways s l)
      × IsWellFormed ways (fifo_update ways s l)
      × IsWellFormed ways (join kind s t).0
age_sets-IsWellFormed ways kind s t l pos v w = (
  lru_update-IsWellFormed ways s l pos v,
  fifo_update-IsWellFormed ways s l pos v,
  join-IsWellFormed ways kind s t v w,
)
