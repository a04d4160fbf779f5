-- ===== src/Address/Order.antt =====
-- The order of the addresses that an alignment gives (`AdressResolverPass::alignFunction` of
-- lib/MIRPasses/AdressResolverPass.cpp).
use llta.Address.Align.{
  Alignment, Coverage, DumpInstruction, MachineCode, align_at, align_function, align_loop,
  align_step, assign, check_anchor, count_if, counted, finish_alignment, resync, same_bytes,
  search_forward, set_target, usable_anchor,
}
use llta.Ilp.{lost}
use llta.Prelude.{
  Bool, Bool-cases, List, Option, Option-cases, [], arith, get_elem?, inl, inr, length, none, refl,
  some, subst, suc, sym, zero, ℕ, ◌<◌, ◌==◌, ◌∷◌, ◌≡◌, ◌≤◌,
}

-- The entries come with larger and larger addresses.
abbrev pub IsSorted : List DumpInstruction → Type 0
IsSorted range =
    (i j : ℕ) (d e : DumpInstruction)
    → i < j
    → get_elem? range i ≡ some d
    → get_elem? range j ≡ some e
    → d.address < e.address

-- Later instructions have larger numbers and larger addresses.
abbrev pub IsAscending : List (ℕ × ℕ) → Type 0
IsAscending [] = Unit
IsAscending ((n, x) ∷ rest) =
    elim rest [ [] ↦ Unit | (m, y) ∷ _ ↦ (m < n) × (y < x) ] × IsAscending rest

-- The last address, if any, stands below every entry from the cursor on.
abbrev Below : List DumpInstruction → ℕ → ℕ → List (ℕ × ℕ) → Type 0
Below range cursor number [] = Unit
Below range cursor number ((n, x) ∷ _) =
    (n ≤ number)
    × ((j : ℕ) (e : DumpInstruction) → cursor ≤ j → get_elem? range j ≡ some e → x < e.address)

record Ordered (range : List DumpInstruction) (s : Alignment) : Type 0 where
  ascends : IsAscending s.addresses
  below : Below range s.dump_idx s.mi_idx s.addresses

search_forward-after :
    (range : List DumpInstruction) (bytes : List ℕ) (k window found : ℕ)
    → search_forward range bytes k window ≡ some found
    → k ≤ found
unfolding search_forward
search_forward-after range bytes k zero found h = ground arith
search_forward-after range bytes k (suc window) found h =
    ground (arith, search_forward-after range bytes (suc k) window found)

Below-later :
    (range : List DumpInstruction) (c d number more : ℕ) (addresses : List (ℕ × ℕ))
    → c ≤ d
    → number ≤ more
    → Below range c number addresses
    → Below range d more addresses
Below-later range c d number more [] h k b = tt
Below-later range c d number more (_ ∷ _) h k b =
    (omega (arith, b.0), λ j e le there. b.1 j e (omega arith) there)

set_target-keeps :
    (diagnose : Bool) (target : Option ℕ) (s : Alignment)
    → ((set_target diagnose target s).addresses ≡ s.addresses)
      × ((set_target diagnose target s).dump_idx ≡ s.dump_idx)
      × ((set_target diagnose target s).mi_idx ≡ s.mi_idx)
unfolding set_target
set_target-keeps diagnose none s = (refl, refl, refl)
set_target-keeps diagnose (some target) s = (refl, refl, refl)

-- The check of an anchor only moves the cursor forward.
check_anchor-keeps :
    (window : ℕ) (diagnose : Bool) (range : List DumpInstruction) (entry : DumpInstruction)
    (anchor : Option (List ℕ)) (s : Alignment)
    → ((check_anchor window diagnose range entry anchor s).addresses ≡ s.addresses)
      × ((check_anchor window diagnose range entry anchor s).mi_idx ≡ s.mi_idx)
      × (s.dump_idx ≤ (check_anchor window diagnose range entry anchor s).dump_idx)
unfolding check_anchor resync
check_anchor-keeps window diagnose range entry none s = (refl, refl, omega arith)
check_anchor-keeps window diagnose range entry (some bytes) s =
    elim (Bool-cases (same_bytes entry.bytes bytes)) [
      | inl same ↦ rw same (refl, refl, omega arith)
      | inr apart ↦ elim (Option-cases (search_forward range bytes (suc s.dump_idx) window)) [
        | inl lost ↦ rw (apart, lost, resync) (refl, refl, omega arith)
        | inr (k, found) ↦
            let after = search_forward-after range bytes (suc s.dump_idx) window k found in
            rw (apart, found, resync) (refl, refl, omega arith)
      ]
    ]

module _ (range : List DumpInstruction) (sorted : IsSorted range) where
  push-IsAscending :
      (addresses : List (ℕ × ℕ)) (c d number : ℕ) (e : DumpInstruction)
      → IsAscending addresses
      → Below range c number addresses
      → c ≤ d
      → get_elem? range d ≡ some e
      → IsAscending ((suc number, e.address) ∷ addresses)
  push-IsAscending [] c d number e up below le there = (tt, tt)
  push-IsAscending ((m, y) ∷ rest) c d number e up below le there =
      ((omega (arith, below.0), below.1 d e le there), up)

  -- The address of the entry at the cursor is a new last one.
  assign-Ordered :
      (diagnose : Bool) (s : Alignment) (c number : ℕ)
      → c ≤ s.dump_idx
      → suc number ≡ s.mi_idx
      → IsAscending s.addresses
      → Below range c number s.addresses
      → Ordered range (assign diagnose (get_elem? range s.dump_idx) s)
  unfolding assign
  assign-Ordered diagnose s c number le next up below =
      elim (Option-cases (get_elem? range s.dump_idx)) [
        | inl gone ↦
            rw (gone, assign)
              (record {
                ascends = up;
                below =
                    Below-later range c s.dump_idx number s.mi_idx s.addresses le (omega arith)
                      below;
              })
        | inr (e, there) ↦
            let t : Alignment = record s {
              addresses = (s.mi_idx, e.address) ∷ s.addresses;
              coverage = record s.coverage {
                resolved_mis = count_if diagnose s.coverage.resolved_mis;
              };
            } in
            let kept = set_target-keeps diagnose e.branch_target t in
            let longer : IsAscending ((s.mi_idx, e.address) ∷ s.addresses) =
              subst (λ (k : ℕ). IsAscending ((k, e.address) ∷ s.addresses)) next
                (push-IsAscending s.addresses c s.dump_idx number e up below le there) in
            rw (there, assign)
              (record {
                ascends = rw kept.0 longer;
                below =
                    rw (kept.0, kept.1, kept.2)
                      (omega arith, λ j d after at. sorted s.dump_idx j e d (omega arith) there at);
              })
      ]

  align_step-Ordered :
      (window : ℕ) (diagnose : Bool) (s : Alignment) (code : MachineCode)
      → Ordered range s
      → Ordered range (align_step window diagnose range s code)
  unfolding align_step align_at
  align_step-Ordered window diagnose s code h = elim (Bool-cases code.emits) [
    | inr silent ↦ rw silent h
    | inl emits ↦ elim (Option-cases (get_elem? range s.dump_idx)) [
      | inl gone ↦
          rw (emits, gone, align_at)
            (record {
              ascends = h.ascends;
              below =
                  Below-later range s.dump_idx s.dump_idx s.mi_idx (suc s.mi_idx) s.addresses
                    (omega arith) (omega arith) h.below;
            })
      | inr (entry, there) ↦
          let r : Alignment = counted diagnose s in
          let anchor = usable_anchor entry code.encoding in
          let t : Alignment = check_anchor window diagnose range entry anchor r in
          let kept = check_anchor-keeps window diagnose range entry anchor r in
          rw (emits, there, align_at)
            (assign-Ordered diagnose t s.dump_idx s.mi_idx (omega (arith, kept.2)) (sym kept.1)
              (rw kept.0 h.ascends) (rw kept.0 h.below))
    ]
  ]

  align_loop-Ordered :
      (window : ℕ) (diagnose : Bool) (s : Alignment) (codes : List MachineCode)
      → Ordered range s
      → Ordered range (align_loop window diagnose range s codes)
  unfolding align_loop
  align_loop-Ordered window diagnose s [] h = h
  align_loop-Ordered window diagnose s (code ∷ codes) h =
      align_loop-Ordered window diagnose (align_step window diagnose range s code) codes
        (align_step-Ordered window diagnose s code h)

  finish_alignment-addresses :
      (diagnose : Bool) (s : Alignment)
      → (finish_alignment diagnose range s).addresses ≡ s.addresses
  unfolding finish_alignment
  finish_alignment-addresses diagnose s = elim (Bool-cases (s.dump_idx == length range)) [
    | inl all ↦ rw all refl
    | inr left ↦ rw left refl
  ]

  -- When the disassembly is in the order of the addresses, the instructions that get an address get
  -- larger and larger ones in layout order, whatever the anchors and the re-synchronisation do.
  pub align_function-IsAscending :
      (window : ℕ) (diagnose : Bool) (coverage : Coverage) (codes : List MachineCode)
      → IsAscending (align_function window diagnose range coverage codes).addresses
  unfolding align_function
  align_function-IsAscending window diagnose coverage codes =
      let start : Alignment = record {
        dump_idx = 0;
        mi_idx = 0;
        warnings = 0;
        coverage = coverage;
        addresses = [];
        targets = [];
      } in
      let ordered =
        align_loop-Ordered window diagnose start codes (record { ascends = tt; below = tt }) in
      rw (finish_alignment-addresses diagnose (align_loop window diagnose range start codes))
        ordered.ascends
