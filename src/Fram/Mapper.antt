-- ===== src/Fram/Mapper.antt =====
-- The cache events of an instruction (`FRAMAccessMapper::mapEvents` of
-- lib/Analysis/Cache/FRAMAccessMapper.cpp).
use llta.Cache.Event.{CacheEvent, access, barrier}
use llta.Cache.Geometry.{CacheGeometry, line_id}
use llta.Prelude.{
  ==_iff, Bool, List, Option, [], arith, false, if◌then◌else◌, leb, none, refl, some, subst, suc,
  true, zero, ℕ, ◌%◌, ◌*◌, ◌++◌, ◌+◌, ◌<◌, ◌==◌, ◌^◌, ◌||◌, ◌∷◌, ◌≡◌, ◌≤◌,
}

-- The tables of the mapper, at one instruction: its words, its address, and the words of its data
-- accesses, where they are known.
pub record Fetch : Type 0 where
  pub words : Option ℕ
  pub address : Option ℕ
  pub data_words : Option ℕ

-- `Addr + 2ULL * W`.
unfoldable pub word_address : ℕ → ℕ → ℕ
word_address address w = (address + 2 * w) % 2 ^ 64

-- The loop over the words from the first argument on; the second counts the words that are left.
unfoldable pub fetch_events : CacheGeometry → ℕ → ℕ → ℕ → ℕ → List CacheEvent
fetch_events g fram_start address w zero = []
fetch_events g fram_start address w (suc left) =
    let rest = fetch_events g fram_start address (suc w) left in
    if leb fram_start (word_address address w)
    then access (line_id g (word_address address w)) ∷ rest
    else rest

unfoldable pub data_events : ℕ → Option ℕ → List CacheEvent
data_events data_access_cost none = []
data_events data_access_cost (some words) = barrier (data_access_cost * words % 2 ^ 32) ∷ []

unfoldable pub code_events : CacheGeometry → ℕ → Option ℕ → Option ℕ → List CacheEvent
code_events g fram_start (some words) (some address) = fetch_events g fram_start address 0 words
code_events g fram_start _ _ = []

-- `mapEvents(MI, Out)`.
unfoldable pub map_events : CacheGeometry → ℕ → ℕ → Fetch → List CacheEvent
map_events g fram_start data_access_cost f =
    code_events g fram_start f.words f.address ++ data_events data_access_cost f.data_words

-- The event is in the list.
abbrev pub fetches : ℕ → List CacheEvent → Bool
fetches line [] = false
fetches line (access l ∷ es) = (l == line) || fetches line es
fetches line (barrier _ ∷ es) = fetches line es

fetches-append :
    (line : ℕ) (es ds : List CacheEvent) → fetches line es ≡ true → fetches line (es ++ ds) ≡ true
fetches-append line [] ds h = absurd (cc)
fetches-append line (access l ∷ es) ds h = ground (arith, fetches-append line es ds)
fetches-append line (barrier c ∷ es) ds h = fetches-append line es ds h

fetches-fetch_events :
    (g : CacheGeometry) (fram_start address w left k : ℕ)
    → k < left
    → fram_start ≤ word_address address (w + k)
    → fetches (line_id g (word_address address (w + k))) (fetch_events g fram_start address w left)
      ≡ true
unfolding fetch_events
fetches-fetch_events g fram_start address w zero k less high = absurd (omega arith)
fetches-fetch_events g fram_start address w (suc left) zero less high =
    let e : w + 0 ≡ w = omega arith in
    let at : fram_start ≤ word_address address w =
      subst (λ (j : ℕ). fram_start ≤ word_address address j) e high in
    rw e (
      ground (
        arith,
        at,
        (==_iff (line_id g (word_address address w)) (line_id g (word_address address w))).1 refl,
      ))
fetches-fetch_events g fram_start address w (suc left) (suc k) less high =
    let e : w + suc k ≡ suc w + k = omega arith in
    let at : fram_start ≤ word_address address (suc w + k) =
      subst (λ (j : ℕ). fram_start ≤ word_address address j) e high in
    let rest = fetches-fetch_events g fram_start address (suc w) left k (omega arith) at in
    rw e (ground (arith, rest))

-- Every code word of an instruction that lies in FRAM is fetched: where the words and the address are
-- known, the events access the line of each word at or above the start of FRAM.
pub map_events-fetches :
    (g : CacheGeometry) (fram_start cost address words k : ℕ) (data_words : Option ℕ)
    → k < words
    → fram_start ≤ word_address address k
    → fetches (line_id g (word_address address k)) (
        map_events g fram_start cost
          (record { words = some words; address = some address; data_words = data_words }))
      ≡ true
unfolding map_events code_events
map_events-fetches g fram_start cost address words k data_words less high =
    fetches-append (line_id g (word_address address k)) (fetch_events g fram_start address 0 words)
      (data_events cost data_words)
      (subst
        (λ (j : ℕ).
          fetches (line_id g (word_address address j)) (fetch_events g fram_start address 0 words)
          ≡ true)
        (omega arith)
        (fetches-fetch_events g fram_start address 0 words k less
          (subst (λ (j : ℕ). fram_start ≤ word_address address j) (omega arith) high)))
