-- ===== src/Cache/Machine.antt =====
-- A machine with a cache, as the analysis has to be right about it. It is no code of the repository:
-- a set of the hardware is any type with an access and a test for a resident line, an instruction
-- fetch from a resident line is free and any other costs the miss penalty, and a data access may
-- leave the cache in any state and costs at most what its event says.
use llta.Cache.Event.{CacheEvent, access, barrier}
use llta.Cache.Geometry.{CacheGeometry, set_index}
use llta.Prelude.{Bool, List, [], if◌then◌else◌, ℕ, ◌+◌, ◌==◌, ◌∷◌, ◌≤◌}

pub record Hardware : Type 1 where
  pub Set : Type 0
  pub access_set : Set → ℕ → Set
  pub resident : Set → ℕ → Bool

-- The sets of the machine, by index.
abbrev pub Contents : Hardware → Type 0
Contents hardware = ℕ → hardware.Set

module _ (hardware : Hardware) (g : CacheGeometry) where
  abbrev pub touched : Contents hardware → ℕ → Contents hardware
  touched h line = λ i. if set_index g line == i then hardware.access_set (h i) line else h i

module _ (hardware : Hardware) (g : CacheGeometry) (penalty : ℕ) where
  abbrev pub charge : Contents hardware → ℕ → ℕ
  charge h line = if hardware.resident (h (set_index g line)) line then 0 else penalty

  -- The runs of the machine over a list of events that end in `final`, with the cycles they take.
  pub data Runs (final : Contents hardware) : Contents hardware → List CacheEvent → ℕ → Type 0 where
    stop : Runs final final [] 0
    fetch :
        {h : Contents hardware} {es : List CacheEvent} {cycles : ℕ} (line : ℕ)
        → Runs final (touched hardware g h line) es cycles
        → Runs final h (access line ∷ es) (charge h line + cycles)
    data_access :
        {h : Contents hardware} {es : List CacheEvent} {cycles : ℕ} (cost waited : ℕ)
        (after : Contents hardware)
        → waited ≤ cost
        → Runs final after es cycles
        → Runs final h (barrier cost ∷ es) (waited + cycles)

-- The most cycles that the events can take.
unfoldable pub worst_cost : ℕ → List CacheEvent → ℕ
worst_cost penalty [] = 0
worst_cost penalty (access _ ∷ es) = penalty + worst_cost penalty es
worst_cost penalty (barrier cost ∷ es) = cost + worst_cost penalty es
