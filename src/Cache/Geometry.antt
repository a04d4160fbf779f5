-- ===== src/Cache/Geometry.antt =====
-- The cache geometry: line and set of an address (include/Analysis/Cache/CacheGeometry.h). Addresses
-- are 64-bit and the parameters 32-bit unsigned numbers, whose wrap-around is written out.
use native.Mathlib.Nat.{
  mod-lt, one-le-pow, div-add-mod, pow-le-pow_right, pow-suc, mod-eq_of_lt, mul-mod_right, mod_self,
  mul-sub,
}
use llta.Prelude.Bits.{bit_and-low, bit_and-high, bit_and-halves, bit_and_self, pow_split}
use llta.Prelude.{
  Bool, Bool-cases, ap, arith, bit_and, inl, inr, leb, ltb, ltb→lt, not, suc, true, zero, ℕ, ◌%◌,
  ◌&&◌, ◌*◌, ◌+◌, ◌-◌, ◌/◌, ◌<◌, ◌==◌, ◌^◌, ◌↔◌, ◌∙◌, ◌≡◌, ◌≤◌,
}

pub record CacheGeometry : Type 0 where
  pub num_sets : ℕ
  pub ways : ℕ
  pub line_bytes : ℕ

-- `~x` on 64 bits.
unfoldable pub complement64 : ℕ → ℕ
complement64 x = 2 ^ 64 - 1 - x

-- `x - 1` on 32 bits.
unfoldable pub pred32 : ℕ → ℕ
pred32 x = (x + 2 ^ 32 - 1) % 2 ^ 32

-- `Addr & ~(static_cast<uint64_t>(LineBytes) - 1)`; the subtraction wraps at zero bytes.
unfoldable pub line_id : CacheGeometry → ℕ → ℕ
unfolding complement64
line_id g addr = bit_and addr (complement64 ((g.line_bytes + 2 ^ 64 - 1) % 2 ^ 64))

unfoldable pub set_index : CacheGeometry → ℕ → ℕ
unfolding pred32
set_index g line = bit_and (line / g.line_bytes) (pred32 g.num_sets) % 2 ^ 32

unfoldable pub is_pow2 : ℕ → Bool
unfolding pred32
is_pow2 x = not (x == 0) && (bit_and x (pred32 x) == 0)

unfoldable pub is_valid : CacheGeometry → Bool
is_valid g = is_pow2 g.num_sets && is_pow2 g.line_bytes && leb 1 g.ways

is_pow2_halves : (n x : ℕ) → x ≤ n → 0 < x → bit_and x (x - 1) ≡ 0 → (k : ℕ) × (x ≡ 2 ^ k)
is_pow2_halves zero x h p e = absurd (omega arith)
is_pow2_halves (suc n) x h p e = elim (Bool-cases (x % 2 == 0)) [
  | inl even ↦
      let half : (x - 1) / 2 ≡ x / 2 - 1 = ground arith in
      let (k, q) =
        is_pow2_halves n (x / 2) (omega arith) (ground arith)
          (ground (arith, bit_and-halves x (x - 1), half)) in
      (suc k, ground (arith, pow-suc 2 k))
  | inr odd ↦
      let half : (x - 1) / 2 ≡ x / 2 = ground arith in
      (0, ground (arith, bit_and-halves x (x - 1), half, bit_and_self (x / 2) (x / 2)))
]

pow2_below : (k : ℕ) → k < 32 → (1 ≤ 2 ^ k) × (2 ^ k ≤ 2 ^ 31)
pow2_below k h =
    (one-le-pow k 2 (omega arith), pow-le-pow_right {n = 2} (omega arith) {j = 31} (omega arith))

-- The test accepts exactly the powers of two.
pub is_pow2_iff : (x : ℕ) → x < 2 ^ 32 → (is_pow2 x ≡ true) ↔ ((k : ℕ) × (x ≡ 2 ^ k))
unfolding is_pow2
is_pow2_iff x h = (
  λ p. is_pow2_halves x x (omega arith) (ground arith) (ground arith),
  λ (k, e).
      let low : 1 ≤ 2 ^ k = one-le-pow k 2 (omega arith) in
      let mask : (2 ^ k + 2 ^ 32 - 1) % 2 ^ 32 ≡ 2 ^ k - 1 = omega arith in
      rw (e, mask, bit_and-low (2 ^ k) k, mod_self (2 ^ k)) (ground arith),
)

-- With lines of 2^k bytes the line of an address is the address less its offset in the line: it is
-- aligned, and the address lies in the line.
pub line_id_lem :
    (g : CacheGeometry) (k addr : ℕ)
    → k < 32
    → g.line_bytes ≡ 2 ^ k
    → addr < 2 ^ 64
    → (line_id g addr % g.line_bytes ≡ 0)
      × (line_id g addr ≤ addr)
      × (addr < line_id g addr + g.line_bytes)
unfolding line_id
line_id_lem g k addr h e a =
    let (low, high) = pow2_below k h in
    let width : 64 - k + k ≡ 64 = omega arith in
    let split : 2 ^ k * 2 ^ (64 - k) ≡ 2 ^ 64 =
      pow_split (64 - k) k ∙ ap (λ (w : ℕ). 2 ^ w) width in
    let spread : 2 ^ k * (2 ^ (64 - k) - 1) ≡ 2 ^ k * 2 ^ (64 - k) - 2 ^ k =
      mul-sub (2 ^ k) (2 ^ (64 - k)) 1 ∙ omega arith in
    let mask : 2 ^ 64 - 1 - (g.line_bytes + 2 ^ 64 - 1) % 2 ^ 64 ≡ 2 ^ k * (2 ^ (64 - k) - 1) =
      omega arith in
    let line : line_id g addr ≡ addr - addr % 2 ^ k =
      ap (bit_and addr) mask ∙ bit_and-high addr (64 - k) k (rw width a) in
    let aligned : addr - addr % 2 ^ k ≡ 2 ^ k * (addr / 2 ^ k) =
      omega (arith, div-add-mod addr (2 ^ k)) in
    let inside : addr % 2 ^ k < 2 ^ k = mod-lt addr low in
    rw (line, e) (rw aligned (mul-mod_right (2 ^ k) (addr / 2 ^ k)), omega arith, omega arith)

-- The set of a line is the remainder of its number, and is one of the sets.
pub set_index_lem :
    (g : CacheGeometry) (k line : ℕ)
    → k < 32
    → g.num_sets ≡ 2 ^ k
    → (set_index g line ≡ line / g.line_bytes % g.num_sets) × (set_index g line < g.num_sets)
unfolding set_index
set_index_lem g k line h e =
    let (low, high) = pow2_below k h in
    let mask : (2 ^ k + 2 ^ 32 - 1) % 2 ^ 32 ≡ 2 ^ k - 1 = omega arith in
    let small : line / g.line_bytes % 2 ^ k < 2 ^ k = mod-lt (line / g.line_bytes) low in
    rw (e, mask, bit_and-low (line / g.line_bytes) k) (mod-eq_of_lt (omega arith), omega arith)

-- The geometry that `is_valid` accepts, with the exponents of its powers of two.
pub record IsGeometry (g : CacheGeometry) : Type 0 where
  pub set_bits : ℕ
  pub line_bits : ℕ
  pub few_sets : set_bits < 32
  pub short_lines : line_bits < 32
  pub sets_power : g.num_sets ≡ 2 ^ set_bits
  pub line_power : g.line_bytes ≡ 2 ^ line_bits
  pub some_way : 1 ≤ g.ways

exponent_below : (k x : ℕ) → x ≡ 2 ^ k → x < 2 ^ 32 → k < 32
exponent_below k x e h = elim (Bool-cases (ltb k 32)) [
  | inl small ↦ ltb→lt k 32 small
  | inr large ↦
      absurd (omega (arith, pow-le-pow_right {n = 2} (omega arith) {i = 32} {j = k} (ground arith)))
]

-- A geometry of 32-bit fields passes the check exactly when both counts are powers of two and there
-- is a way.
pub is_valid-IsGeometry :
    (g : CacheGeometry)
    → g.num_sets < 2 ^ 32
    → g.line_bytes < 2 ^ 32
    → (is_valid g ≡ true) ↔ IsGeometry g
unfolding is_valid
is_valid-IsGeometry g sets bytes = (
  λ v.
      let (j, e) = (is_pow2_iff g.num_sets sets).0 (ground arith) in
      let (k, f) = (is_pow2_iff g.line_bytes bytes).0 (ground arith) in
      record {
        set_bits = j;
        line_bits = k;
        few_sets = exponent_below j g.num_sets e sets;
        short_lines = exponent_below k g.line_bytes f bytes;
        sets_power = e;
        line_power = f;
        some_way = ground arith;
      },
  λ i.
      let s = (is_pow2_iff g.num_sets sets).1 (i.set_bits, i.sets_power) in
      let l = (is_pow2_iff g.line_bytes bytes).1 (i.line_bits, i.line_power) in ground arith,
)
