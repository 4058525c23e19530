-- ===== src/Modeling/RegIr/Prose/Bounded.antt =====
-- What Normalize bounds and what it leaves alone, and when a description has no open question.
use mathlib.Core.List.{reverse, reverse-cons, append-eq-nil_iff}
use qemu_agent.Common.{
  ℕ, zero, suc, ◌+◌, ◌≤◌, List, [], ◌∷◌, ◌++◌, map, ◌≡◌, ◌≢◌, refl, ◌⊎◌, inl, inr, Option, Bool,
  true, false, All, arith, Bool-cases, length, take, ltb, ◌==◌, length-append, length-take-le,
  if◌then◌else◌,
}
use qemu_agent.Text.{Text, trim_space, trim_by, space_width, space_width_back}
use qemu_agent.Modeling.Types.{ℤ}
use qemu_agent.Modeling.RegIr.{Field, Register, Irq, RegIr, max_notes, max_effect_bytes}
use qemu_agent.Modeling.RegIr.Prose.{
  replace_crlf, cut_length, clamp_text, normal_fields, normal_registers, normal_irqs, limit_notes,
  normalize, lacks_reset, lacks_detail, dropped_note, register_questions, open_questions,
}

length-reverse : (s : Text) → length (reverse s) ≡ length s
length-reverse [] = refl
length-reverse (c ∷ s) =
    rw (reverse-cons c s, length-append (reverse s) (c ∷ [])) (omega (arith, length-reverse s))

zero-cases : (n : ℕ) → (n ≡ 0) ⊎ ((k : ℕ) × (n ≡ suc k))
zero-cases zero = inl refl
zero-cases (suc k) = inr (k, refl)

length-trim_by-le : (width : Text → ℕ) (k : ℕ) (s : Text) → length (trim_by width k s) ≤ length s
unfolding trim_by
length-trim_by-le width zero [] = omega arith
length-trim_by-le width (suc k) [] = omega arith
length-trim_by-le width (suc k) (c ∷ s) = ground (arith, length-trim_by-le width k s)
length-trim_by-le width zero (c ∷ s) = elim (zero-cases (width (c ∷ s))) [
  | inl none_there ↦ ground arith
  | inr (k, some_there) ↦ ground (arith, length-trim_by-le width k s)
]

length-trim_space-le : (s : Text) → length (trim_space s) ≤ length s
unfolding trim_space
length-trim_space-le s =
    let front = trim_by space_width 0 s in
    omega (
      arith,
      length-trim_by-le space_width 0 s,
      length-reverse front,
      length-trim_by-le space_width_back 0 (reverse front),
      length-reverse (trim_by space_width_back 0 (reverse front)),
    )

cut_length-le : (s : Text) (n : ℕ) → cut_length s n ≤ n
unfolding cut_length
cut_length-le s zero = omega arith
cut_length-le s (suc n) = ground (arith, cut_length-le s n)

-- A clamped text has at most the limit's bytes, and three more for the ellipsis if it was cut.
pub clamp_text-le :
    (raw : Text) (limit : ℕ)
    → length (clamp_text raw limit).0 ≤ limit + (if (clamp_text raw limit).1 then 3 else 0)
unfolding clamp_text
clamp_text-le raw limit =
    let collapsed = trim_space (replace_crlf raw) in
    let cut = take (cut_length collapsed limit) collapsed in
    ground (
      arith,
      length-append (trim_space cut) (0xE2 ∷ 0x80 ∷ 0xA6 ∷ []),
      length-trim_space-le cut,
      length-take-le (cut_length collapsed limit) collapsed,
      cut_length-le collapsed limit,
    )

bounded-le :
    (notes : List Text) (last : Text)
    → length (if ltb max_notes (length notes) then take 63 notes ++ (last ∷ []) else notes)
      ≤ max_notes
bounded-le notes last = elim (Bool-cases (ltb max_notes (length notes))) [
  | inl over ↦
      rw over (omega (arith, length-append (take 63 notes) (last ∷ []), length-take-le 63 notes))
  | inr within ↦ ground arith
]

limit_notes-le : (notes : List Text) → length (limit_notes notes) ≤ max_notes
unfolding limit_notes
limit_notes-le notes = bounded-le notes (dropped_note (length notes))

-- What the hardware is told: the bits of a field, and the place of a register with its fields.
abbrev pub field_layout : Field → ℤ × ℤ
field_layout f = (f.bit, f.width)

abbrev pub layout : Register → ℕ × ℤ × Option ℕ × List (ℤ × ℤ)
layout reg = (reg.offset, reg.width, reg.reset, map field_layout reg.fields)

abbrev pub line_of : Irq → ℤ
line_of irq = irq.index

-- `q` is `r` with its prose bounded and its hardware unchanged.
pub record IsNormal (r q : RegIr) : Type 0 where
  pub size : q.mmio_size ≡ r.mmio_size
  pub layouts : map layout q.registers ≡ map layout r.registers
  pub lines : map line_of q.interrupts ≡ map line_of r.interrupts
  pub effects : All (λ reg. length reg.effect ≤ max_effect_bytes + 3) q.registers
  pub few_notes : length q.notes ≤ max_notes

normal_fields-layout : (fs : List Field) → map field_layout (normal_fields fs) ≡ map field_layout fs
unfolding normal_fields
normal_fields-layout [] = refl
normal_fields-layout (f ∷ fs) = rw (normal_fields-layout fs)

normal_registers-layout :
    (regs : List Register) → map layout (normal_registers regs).0 ≡ map layout regs
unfolding normal_registers
normal_registers-layout [] = refl
normal_registers-layout (reg ∷ regs) =
    rw (normal_fields-layout reg.fields, normal_registers-layout regs)

normal_registers-effects :
    (regs : List Register)
    → All (λ reg. length reg.effect ≤ max_effect_bytes + 3) (normal_registers regs).0
unfolding normal_registers
normal_registers-effects [] = tt
normal_registers-effects (reg ∷ regs) =
    (ground (arith, clamp_text-le reg.effect max_effect_bytes), normal_registers-effects regs)

normal_irqs-lines : (irqs : List Irq) → map line_of (normal_irqs irqs) ≡ map line_of irqs
unfolding normal_irqs
normal_irqs-lines [] = refl
normal_irqs-lines (irq ∷ irqs) = rw (normal_irqs-lines irqs)

-- Normalize changes no size, offset, width, reset value, bit range or interrupt index; after it
-- every effect has at most 2048 bytes and an ellipsis, and there are at most 64 notes.
pub normalize-IsNormal : (r : RegIr) → IsNormal r (normalize r).0
unfolding normalize
normalize-IsNormal r = record {
  size = refl;
  layouts = normal_registers-layout r.registers;
  lines = normal_irqs-lines r.interrupts;
  effects = normal_registers-effects r.registers;
  few_notes = limit_notes-le _;
}

-- Nothing about the register is open.
abbrev pub IsSettled : Register → Type 0
IsSettled reg = (lacks_reset reg ≡ false) × (lacks_detail reg ≡ false)

asked-nil :
    (test : Bool) (question : Text) (rest : List Text)
    → ((if test then question ∷ [] else []) ++ rest) ≡ []
    → (test ≡ false) × (rest ≡ [])
asked-nil true question rest h = cc
asked-nil false question rest h = (refl, h)

register_questions-IsSettled :
    (regs : List Register) → register_questions regs ≡ [] → All IsSettled regs
unfolding register_questions
register_questions-IsSettled [] h = tt
register_questions-IsSettled (reg ∷ regs) h =
    let (reset_known, more) = asked-nil (lacks_reset reg) _ _ h in
    let (detail_known, rest) = asked-nil (lacks_detail reg) _ _ more in
    ((reset_known, detail_known), register_questions-IsSettled regs rest)

-- When OpenQuestions lists nothing, every register has its reset value if it needs one and is
-- described if it is read/write, there is an interrupt line, and there are no notes.
pub open_questions-IsSettled :
    (r : RegIr)
    → open_questions r ≡ []
    → All IsSettled r.registers × (r.interrupts ≢ []) × (r.notes ≡ [])
unfolding open_questions
open_questions-IsSettled r h =
    let (settled, more) = append-eq-nil_iff.0 h in
    let (wired, no_notes) = asked-nil (length r.interrupts == 0) _ r.notes more in
    (register_questions-IsSettled r.registers settled, λ none_left. ground arith, no_notes)
