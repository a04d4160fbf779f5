-- ===== src/Fram/Words.antt =====
-- The words of an instruction, from the addresses of a function (`computeInstructionWords` of
-- lib/Utility/InstructionWords.cpp).
use llta.Prelude.{
  All, List, [], ap, arith, if◌then◌else◌, leb, ltb, refl, ℕ, ◌&&◌, ◌+◌, ◌-◌, ◌/◌, ◌==◌, ◌∙◌, ◌∷◌,
  ◌≡◌, ◌≤◌,
}

-- An instruction, here a number, with its address.
abbrev pub Resolved : Type 0
Resolved = List (ℕ × ℕ)

-- The gap to the next address in words, when it is one to `max_words`; else one.
unfoldable pub word_count : ℕ → ℕ → ℕ → ℕ
word_count max_words here next =
    let gap = (next - here) / 2 in if leb 1 gap && leb gap max_words then gap else 1

unfoldable pub compute_words : ℕ → Resolved → List (ℕ × ℕ)
compute_words max_words [] = []
compute_words max_words ((here, instr) ∷ rest) = elim rest [
  | [] ↦ (instr, 1) ∷ []
  | (next, _) ∷ _ ↦ (instr, word_count max_words here next) ∷ compute_words max_words rest
]

-- `std::sort` by address. Instructions have different addresses; for equal ones, whose order the
-- library leaves open, this keeps the order of the list.
unfoldable pub insert_by_address : ℕ × ℕ → Resolved → Resolved
insert_by_address x [] = x ∷ []
insert_by_address x (y ∷ ys) =
    let deeper = insert_by_address x ys in if ltb y.0 x.0 then y ∷ deeper else x ∷ y ∷ ys

unfoldable pub sort_by_address : Resolved → Resolved
sort_by_address [] = []
sort_by_address (x ∷ xs) = insert_by_address x (sort_by_address xs)

-- `computeInstructionWords`, over the instructions that have an address.
unfoldable pub compute_instruction_words : ℕ → Resolved → List (ℕ × ℕ)
compute_instruction_words max_words resolved = compute_words max_words (sort_by_address resolved)

word_count_bounds :
    (max_words here next : ℕ)
    → 1 ≤ max_words
    → (1 ≤ word_count max_words here next) × (word_count max_words here next ≤ max_words)
unfolding word_count
word_count_bounds max_words here next least = (ground arith, ground arith)

-- Every instruction gets one word at least and the longest fetch at most.
abbrev pub AllWithin : ℕ → List (ℕ × ℕ) → Type 0
AllWithin max_words ws = All (λ w. (1 ≤ w.1) × (w.1 ≤ max_words)) ws

compute_words_bounds :
    (max_words : ℕ) (resolved : Resolved)
    → 1 ≤ max_words
    → AllWithin max_words (compute_words max_words resolved)
unfolding compute_words
compute_words_bounds max_words [] least = tt
compute_words_bounds max_words (x ∷ []) least = ((omega arith, least), tt)
compute_words_bounds max_words ((here, instr) ∷ (next, after) ∷ rest) least = (
  word_count_bounds max_words here next least,
  compute_words_bounds max_words ((next, after) ∷ rest) least,
)

-- How often an instruction is listed with an address, and how often it is given a count.
abbrev pub times_listed : ℕ → Resolved → ℕ
times_listed i [] = 0
times_listed i (x ∷ xs) = (if x.1 == i then 1 else 0) + times_listed i xs

abbrev pub times_given : ℕ → List (ℕ × ℕ) → ℕ
times_given i [] = 0
times_given i (w ∷ ws) = (if w.0 == i then 1 else 0) + times_given i ws

compute_words-given :
    (i max_words : ℕ) (resolved : Resolved)
    → times_given i (compute_words max_words resolved) ≡ times_listed i resolved
unfolding compute_words
compute_words-given i max_words [] = refl
compute_words-given i max_words (x ∷ []) = refl
compute_words-given i max_words ((here, instr) ∷ (next, after) ∷ rest) =
    ap (λ (n : ℕ). (if instr == i then 1 else 0) + n)
      (compute_words-given i max_words ((next, after) ∷ rest))

insert_by_address-listed :
    (i : ℕ) (x : ℕ × ℕ) (xs : Resolved)
    → times_listed i (insert_by_address x xs) ≡ (if x.1 == i then 1 else 0) + times_listed i xs
unfolding insert_by_address
insert_by_address-listed i x [] = refl
insert_by_address-listed i x (y ∷ ys) = ground (arith, insert_by_address-listed i x ys)

sort_by_address-listed :
    (i : ℕ) (xs : Resolved) → times_listed i (sort_by_address xs) ≡ times_listed i xs
unfolding sort_by_address
sort_by_address-listed i [] = refl
sort_by_address-listed i (x ∷ xs) =
    omega (arith, insert_by_address-listed i x (sort_by_address xs), sort_by_address-listed i xs)

-- Where a fetch has one word at least, every instruction that has an address is given a count, as
-- often as it is listed, and no other is; a count is between one word and the longest fetch of the
-- target, whatever the gaps of the layout.
pub compute_instruction_words_bounds :
    (max_words : ℕ) (resolved : Resolved)
    → 1 ≤ max_words
    → AllWithin max_words (compute_instruction_words max_words resolved)
      × ((i : ℕ)
          → times_given i (compute_instruction_words max_words resolved) ≡ times_listed i resolved)
unfolding compute_instruction_words
compute_instruction_words_bounds max_words resolved least = (
  compute_words_bounds max_words (sort_by_address resolved) least,
  λ i.
      compute_words-given i max_words (sort_by_address resolved)
      ∙ sort_by_address-listed i resolved,
)
