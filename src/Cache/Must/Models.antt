-- ===== src/Cache/Must/Models.antt =====
-- The hardware for which the must analysis is right: LRU caches under `LRUPolicy`, and every cache
-- that keeps the line accessed last under `UnknownPolicy`
-- (include/Analysis/Cache/ReplacementPolicy.h).
use llta.Cache.Policy.Unknown
use llta.Cache.Age.{effective_ways, find, make_empty}
use llta.Cache.Age.Lookup.{is_some}
use llta.Cache.Age.WellFormed.{
  IsWellFormed, join-IsWellFormed, lru_update-IsWellFormed, make_empty-IsWellFormed,
}
use llta.Cache.Hardware.{HardwareSet, age_of, lru_access}
use llta.Cache.Kind.{must}
use llta.Cache.Lru.{Describes, contains-Describes, join-Describes, lru_update-Describes}
use llta.Cache.Machine.{Hardware}
use llta.Cache.Must.{MustModel}
use llta.Cache.Policy.{lru_policy, unknown_policy}
use llta.Cache.Policy.Unknown.{UnknownSetState}
use llta.Prelude.{==_iff, arith, none, some, subst, sym, true, ℕ, ◌<◌, ◌≡◌, ◌⊎◌}

pub effective_ways-pos : (ways : ℕ) → 0 < effective_ways ways
unfolding effective_ways
effective_ways-pos ways = ground arith

abbrev pub lru_hardware : ℕ → Hardware
lru_hardware ways = record {
  Set = HardwareSet;
  access_set = lru_access (effective_ways ways);
  resident = λ c line. is_some (age_of c line);
}

pub lru_empty : (c : HardwareSet) → Describes must make_empty c
unfolding find
lru_empty c m = tt

abbrev pub lru_model : (ways : ℕ) → MustModel (lru_policy ways) (lru_hardware ways)
lru_model ways = record {
  Valid = IsWellFormed (effective_ways ways);
  Guarantees = Describes must;
  empty_valid = make_empty-IsWellFormed (effective_ways ways);
  empty_guarantees = lru_empty;
  update_valid =
      λ s line v. lru_update-IsWellFormed (effective_ways ways) s line (effective_ways-pos ways) v;
  update_guarantees = λ s c line v h.
      lru_update-Describes must (effective_ways ways) s c line (effective_ways-pos ways) v h;
  join_valid = λ s t v w. join-IsWellFormed (effective_ways ways) must s t v w;
  join_guarantees = λ s t c v w h. join-Describes must s t c v.distinct w.distinct h;
  contains_resident = λ s c line v h p. (contains-Describes s c line).0 h p;
}

-- The line that the state holds is resident.
abbrev pub HoldsLine : (hardware : Hardware) → UnknownSetState → hardware.Set → Type 0
HoldsLine hardware none c = Unit
HoldsLine hardware (some line) c = hardware.resident c line ≡ true

module _ (hardware : Hardware)
    (keeps_accessed : (c : hardware.Set) (line : ℕ)
      → hardware.resident (hardware.access_set c line) line ≡ true) where
  pub merged-HoldsLine :
      (s t : UnknownSetState) (c : hardware.Set)
      → HoldsLine hardware s c ⊎ HoldsLine hardware t c
      → HoldsLine hardware (Unknown.merged s t) c
  unfolding Unknown.merged
  merged-HoldsLine none t c h = tt
  merged-HoldsLine (some a) none c h = tt
  merged-HoldsLine (some a) (some b) c h = ground (arith, ==_iff a b)

  pub holds-HoldsLine :
      (s : UnknownSetState) (c : hardware.Set) (line : ℕ)
      → HoldsLine hardware s c
      → Unknown.holds s line ≡ true
      → hardware.resident c line ≡ true
  unfolding Unknown.holds
  holds-HoldsLine none c line h p = cc
  holds-HoldsLine (some a) c line h p =
      subst (λ l. hardware.resident c l ≡ true) ((==_iff a line).0 p) h

  pub update-HoldsLine :
      (s : UnknownSetState) (c : hardware.Set) (line : ℕ)
      → HoldsLine hardware (Unknown.update s line) (hardware.access_set c line)
  unfolding Unknown.update
  update-HoldsLine s c line = keeps_accessed c line

  abbrev pub unknown_model : MustModel unknown_policy hardware
  unknown_model = record {
    Valid = λ _. Unit;
    Guarantees = HoldsLine hardware;
    empty_valid = tt;
    empty_guarantees = λ c. tt;
    update_valid = λ s line v. tt;
    update_guarantees = λ s c line v h. update-HoldsLine s c line;
    join_valid = λ s t v w. tt;
    join_guarantees = λ s t c v w h.
        subst (λ m. HoldsLine hardware m c) (sym (Unknown.meet_lem must s t).0)
          (merged-HoldsLine s t c h);
    contains_resident = λ s c line v h p. holds-HoldsLine s c line h p;
  }
