-- ===== src/Modeling/RegIr/Sound.antt =====
-- What a register description satisfies once Validate has accepted it.
pub mod Space
use mathlib.Core.Logic.{ite}
use qemu_agent.Common.{
  ℕ, ◌+◌, ◌≤◌, ◌<◌, ◌%◌, List, [], ◌∷◌, ◌≡◌, ◌≢◌, refl, ◌⊎◌, inl, inr, All, Pairs, arith, Result,
  ok, err, leb, ltb, ◌==◌, Bool, true, false, length, map, >>=-eq-ok, Result-cases, Option, none,
  some,
}
use qemu_agent.Text.{Text, Text-discrete, to_upper}
use qemu_agent.Modeling.Types.{ℤ, pos, negsuc, Error}
use qemu_agent.Modeling.Ints.{sub_word, lt_int}
use qemu_agent.Modeling.RegIr.{
  Span, Field, Register, Irq, RegIr, has_text, check_overlap, sort_spans, field_outside, field_span,
  check_fields, validate_fields, is_width, is_access, size_of, reset_exceeds, validate_register,
  register_span, check_registers, has_index, index_of, check_irqs, is_bus, validate_ir,
  matches_symbol, matches_device, max_registers, max_fields, max_irqs, max_notes, invalid,
}
use qemu_agent.Modeling.RegIr.Spans.{Disjoint, overlap_check}

-- The texts of a list are distinct from a given one.
has_text-Distinct : (key : Text) (ks : List Text) → has_text key ks ≡ false → All (λ k. k ≢ key) ks
unfolding has_text
has_text-Distinct key [] h = tt
has_text-Distinct key (k ∷ ks) h = (ground arith, has_text-Distinct key ks (ground arith))

-- Two names that give the same C macro.
abbrev pub Clash : Text → Text → Type 0
Clash a b = to_upper a ≡ to_upper b

abbrev IsFresh : List Text → Text → Type 0
IsFresh names name = All (λ k. k ≢ to_upper name) names

module _ {A : Type 0} (name : A → Text) (key : Text) (names : List Text) where
  IsFresh-later :
      (xs : List A)
      → All (λ x. IsFresh (key ∷ names) (name x)) xs
      → All (λ x. IsFresh names (name x)) xs
  IsFresh-later [] h = tt
  IsFresh-later (x ∷ xs) h = (h.0.1, IsFresh-later xs h.1)

  fresh_first :
      (xs : List A)
      → All (λ x. IsFresh (key ∷ names) (name x)) xs
      → All (λ x. key ≢ to_upper (name x)) xs
  fresh_first [] h = tt
  fresh_first (x ∷ xs) h = (h.0.0, fresh_first xs h.1)

module _ {A : Type 0} (span : A → Span) where
  All-spans :
      (s : Span) (xs : List A) → All (Disjoint s) (map span xs) → All (λ x. Disjoint s (span x)) xs
  All-spans s [] h = tt
  All-spans s (x ∷ xs) h = (h.0, All-spans s xs h.1)

  Pairs-spans :
      (xs : List A) → Pairs Disjoint (map span xs) → Pairs (λ x y. Disjoint (span x) (span y)) xs
  Pairs-spans [] h = tt
  Pairs-spans (x ∷ xs) h = (All-spans (span x) xs h.0, Pairs-spans xs h.1)

-- Facts about one field of a register of the given width.
pub record IsField (reg_width : ℤ) (f : Field) : Type 0 where
  pub symbol : matches_symbol f.name ≡ true
  pub inside : field_outside reg_width f ≡ false

check_fields_sound :
    (w : ℤ) (names : List Text) (fs : List Field) (spans : List Span)
    → check_fields w names fs ≡ ok spans
    → All (IsField w) fs
      × (spans ≡ map field_span fs)
      × All (λ f. IsFresh names f.name) fs
      × Pairs (λ f g. ¬ Clash f.name g.name) fs
unfolding check_fields
check_fields_sound w names [] spans h = (tt, ground arith, tt, tt)
check_fields_sound w names (f ∷ fs) spans h =
    let key = to_upper f.name in
    elim (Result-cases (check_fields w (key ∷ names) fs)) [
      | inl (rest, e) ↦
          let (good, same, fresh, pairs) = check_fields_sound w (key ∷ names) fs rest e in
          (
            (record { symbol = ground arith; inside = ground arith }, good),
            ground arith,
            (
              has_text-Distinct key names (ground arith),
              IsFresh-later (λ (g : Field). g.name) key names fs fresh,
            ),
            (fresh_first (λ (g : Field). g.name) key names fs fresh, pairs),
          )
      | inr (x, e) ↦ ground arith
    ]

-- Facts about one register of a region of the given size.
pub record IsRegister (mmio_size : ℕ) (reg : Register) : Type 0 where
  pub symbol : matches_symbol reg.name ≡ true
  pub sized : is_width reg.width ≡ true
  pub accessed : is_access reg.access ≡ true
  pub aligned : reg.offset % size_of reg.width ≡ 0
  pub fits : reg.offset ≤ sub_word mmio_size (size_of reg.width)
  pub reset_fits : reset_exceeds reg.reset reg.width ≡ false
  pub few_fields : length reg.fields ≤ max_fields
  pub fields_good : All (IsField reg.width) reg.fields
  pub fields_named : Pairs (λ f g. ¬ Clash f.name g.name) reg.fields
  pub fields_apart : Pairs (λ f g. Disjoint (field_span f) (field_span g)) reg.fields

validate_register_sound :
    (mmio_size : ℕ) (reg : Register)
    → validate_register mmio_size reg ≡ ok tt
    → IsRegister mmio_size reg
unfolding validate_register validate_fields
validate_register_sound m reg h = elim (Result-cases (check_fields reg.width [] reg.fields)) [
  | inl (spans, e) ↦
      let (good, same, fresh, pairs) = check_fields_sound reg.width [] reg.fields spans e in
      let free = overlap_check spans (ground arith) in
      record {
        symbol = ground arith;
        sized = ground arith;
        accessed = ground arith;
        aligned = ground arith;
        fits = ground arith;
        reset_fits = ground arith;
        few_fields = ground arith;
        fields_good = good;
        fields_named = pairs;
        fields_apart = Pairs-spans field_span reg.fields (rw same at free);
      }
  | inr (x, e) ↦ absurd (ground arith)
]

check_registers_sound :
    (m : ℕ) (names : List Text) (regs : List Register) (spans : List Span)
    → check_registers m names regs ≡ ok spans
    → All (IsRegister m) regs
      × (spans ≡ map register_span regs)
      × All (λ r. IsFresh names r.name) regs
      × Pairs (λ r t. ¬ Clash r.name t.name) regs
unfolding check_registers
check_registers_sound m names [] spans h = (tt, ground arith, tt, tt)
check_registers_sound m names (reg ∷ regs) spans h =
    let key = to_upper reg.name in
    elim (Result-cases (check_registers m (key ∷ names) regs)) [
      | inl (rest, e) ↦
          let (good, same, fresh, pairs) = check_registers_sound m (key ∷ names) regs rest e in
          (
            (validate_register_sound m reg (ground arith), good),
            ground arith,
            (
              has_text-Distinct key names (ground arith),
              IsFresh-later (λ (r : Register). r.name) key names regs fresh,
            ),
            (fresh_first (λ (r : Register). r.name) key names regs fresh, pairs),
          )
      | inr (x, e) ↦ ground arith
    ]

-- Facts about one interrupt line.
pub record IsIrq (irq : Irq) : Type 0 where
  pub symbol : matches_symbol irq.name ≡ true
  pub numbered : (n : ℕ) × (irq.index ≡ pos n) × (n < max_irqs)

irq_number :
    (i : ℤ)
    → lt_int i (pos 0) ≡ false
    → lt_int i (pos max_irqs) ≡ true
    → (n : ℕ) × (i ≡ pos n) × (n < max_irqs)
irq_number (pos n) h k = (n, refl, ground arith)
irq_number (negsuc n) h k = cc

has_index-Distinct : (i : ℕ) (js : List ℕ) → has_index i js ≡ false → All (λ j. j ≢ i) js
unfolding has_index
has_index-Distinct i [] h = tt
has_index-Distinct i (j ∷ js) h = (ground arith, has_index-Distinct i js (ground arith))

later_irqs :
    (i : ℕ) (indices : List ℕ) (irqs : List Irq)
    → All (λ q. All (λ j. j ≢ index_of q.index) (i ∷ indices)) irqs
    → All (λ q. All (λ j. j ≢ index_of q.index) indices) irqs × All (λ q. i ≢ index_of q.index) irqs
later_irqs i indices [] h = (tt, tt)
later_irqs i indices (q ∷ qs) h =
    let (later, first) = later_irqs i indices qs h.1 in ((h.0.1, later), (h.0.0, first))

check_irqs_sound :
    (indices : List ℕ) (irqs : List Irq)
    → check_irqs indices irqs ≡ ok tt
    → All IsIrq irqs
      × All (λ q. All (λ j. j ≢ index_of q.index) indices) irqs
      × Pairs (λ p q. index_of p.index ≢ index_of q.index) irqs
unfolding check_irqs
check_irqs_sound indices [] h = (tt, tt, tt)
check_irqs_sound indices (q ∷ qs) h =
    let (good, fresh, pairs) = check_irqs_sound (index_of q.index ∷ indices) qs (ground arith) in
    let (later, first) = later_irqs (index_of q.index) indices qs fresh in
    (
      (
        record {
          symbol = ground arith;
          numbered = irq_number q.index (ground arith) (ground arith);
        },
        good,
      ),
      (has_index-Distinct (index_of q.index) indices (ground arith), later),
      (first, pairs),
    )

-- A description that code may be generated from.
pub record IsSound (r : RegIr) : Type 0 where
  pub device_named : matches_device r.device ≡ true
  pub attached : is_bus r.bus_kind ≡ true
  pub spaced : r.mmio_size ≢ 0
  pub some_registers : r.registers ≢ []
  pub few_registers : length r.registers ≤ max_registers
  pub registers_good : All (IsRegister r.mmio_size) r.registers
  pub registers_named : Pairs (λ a b. ¬ Clash a.name b.name) r.registers
  pub registers_apart : Pairs (λ a b. Disjoint (register_span a) (register_span b)) r.registers
  pub few_irqs : length r.interrupts ≤ max_irqs
  pub irqs_good : All IsIrq r.interrupts
  pub irqs_apart : Pairs (λ p q. index_of p.index ≢ index_of q.index) r.interrupts
  pub few_notes : length r.notes ≤ max_notes

-- Whatever Validate accepts has well-named, aligned registers with pairwise disjoint spans, whose
-- ends are taken at 64 bits, fields that are pairwise disjoint within their register, and interrupt
-- lines with distinct indices below 32.
pub validate_ir-IsSound : (r : RegIr) → validate_ir r ≡ ok tt → IsSound r
unfolding validate_ir
validate_ir-IsSound r h = elim (Result-cases (check_registers r.mmio_size [] r.registers)) [
  | inl (spans, e) ↦
      let (good, same, fresh, pairs) = check_registers_sound r.mmio_size [] r.registers spans e in
      let free = overlap_check spans (ground arith) in
      let (irqs, irqs_fresh, irq_pairs) = check_irqs_sound [] r.interrupts (ground arith) in
      record {
        device_named = ground arith;
        attached = ground arith;
        spaced = ground arith;
        some_registers = λ none_left. ground arith;
        few_registers = ground arith;
        registers_good = good;
        registers_named = pairs;
        registers_apart = Pairs-spans register_span r.registers (rw same at free);
        few_irqs = ground arith;
        irqs_good = irqs;
        irqs_apart = irq_pairs;
        few_notes = ground arith;
      }
  | inr (x, e) ↦ absurd (ground arith)
]
