-- ===== src/Modeling/RegIr/Prose.antt =====
-- The prose of a register description: Normalize, OpenQuestions and clampText of
-- internal/modeling/regir.go.
pub mod Bounded
use qemu_agent.Common.{
  ℕ, zero, suc, ◌+◌, ◌-◌, ◌/◌, ◌%◌, List, [], ◌∷◌, ◌++◌, Option, none, some, Bool, true, false,
  ◌||◌, ◌&&◌, not, ltb, leb, ◌==◌, if◌then◌else◌, length, take, drop, is_some,
}
use qemu_agent.Text.{Text, codes, is_empty, trim_space, to_lower, text_eq}
use qemu_agent.Modeling.RegIr.{
  Access, BusKind, Field, Register, Irq, RegIr, max_notes, max_note_bytes, max_effect_bytes,
}

-- `strings.ReplaceAll(raw, "\r\n", "\n")`
unfoldable pub replace_crlf : Text → Text
replace_crlf [] = []
replace_crlf (c ∷ []) = c ∷ []
replace_crlf (c ∷ d ∷ s) =
    let rest = replace_crlf (d ∷ s) in if c == 13 && d == 10 then rest else c ∷ rest

-- isUTF8Boundary: the byte at the index does not continue a rune.
abbrev pub is_utf8_boundary : Text → ℕ → Bool
is_utf8_boundary value index = elim (drop index value) [
  | [] ↦ true
  | c ∷ s ↦ not (leb 0x80 c && ltb c 0xC0)
]

-- The loop of clampText: the length of the cut, from the limit down.
unfoldable pub cut_length : Text → ℕ → ℕ
cut_length s zero = zero
cut_length s (suc n) =
    let shorter = cut_length s n in if is_utf8_boundary s (suc n) then suc n else shorter

-- The character … in UTF-8.
abbrev pub ellipsis : Text
ellipsis = 0xE2 ∷ 0x80 ∷ 0xA6 ∷ []

-- clampText
unfoldable pub clamp_text : Text → ℕ → Text × Bool
clamp_text raw limit =
    let collapsed = trim_space (replace_crlf raw) in
    if leb (length collapsed) limit
    then (collapsed, false)
    else (trim_space (take (cut_length collapsed limit) collapsed) ++ ellipsis, true)

-- `%d`, with a step of fuel for each digit.
unfoldable pub digits : ℕ → ℕ → Text
digits zero n = []
digits (suc k) n =
    let higher = digits k (n / 10) in
    if ltb n 10 then (b'0' + n) ∷ [] else higher ++ ((b'0' + n % 10) ∷ [])

abbrev pub decimal : ℕ → Text
decimal n = digits (suc n) n

-- `string(access)` and `Access(raw)`
abbrev pub access_text : Access → Text
access_text Access.ro = codes "ro"
access_text Access.wo = codes "wo"
access_text Access.rw = codes "rw"
access_text Access.w1c = codes "w1c"
access_text Access.rsvd = codes "rsvd"
access_text (Access.other t) = t

unfoldable pub access_of : Text → Access
access_of t =
    if text_eq t (codes "ro")
    then Access.ro
    else if text_eq t (codes "wo")
    then Access.wo
    else if text_eq t (codes "rw")
    then Access.rw
    else if text_eq t (codes "w1c")
    then Access.w1c
    else if text_eq t (codes "rsvd")
    then Access.rsvd
    else Access.other t

-- `string(busKind)` and `BusKind(raw)`
abbrev pub bus_text : BusKind → Text
bus_text BusKind.sysbus = codes "sysbus"
bus_text BusKind.pci = codes "pci"
bus_text (BusKind.other t) = t

unfoldable pub bus_of : Text → BusKind
bus_of t =
    if text_eq t (codes "sysbus")
    then BusKind.sysbus
    else if text_eq t (codes "pci")
    then BusKind.pci
    else BusKind.other t

abbrev pub normal_field : Field → Field
normal_field f = record f {
  name = trim_space f.name;
  description = (clamp_text f.description max_note_bytes).0;
}

unfoldable pub normal_fields : List Field → List Field
normal_fields [] = []
normal_fields (f ∷ fs) = normal_field f ∷ normal_fields fs

abbrev pub normal_register : Register → Register
normal_register reg = record reg {
  name = trim_space reg.name;
  access = access_of (to_lower (trim_space (access_text reg.access)));
  effect = (clamp_text reg.effect max_effect_bytes).0;
  fields = normal_fields reg.fields;
}

-- The note that a cut leaves behind.
abbrev pub cut_note : Register → Text
cut_note reg =
    codes "effect text of register "
    ++ trim_space reg.name
    ++ codes " was truncated to "
    ++ decimal max_effect_bytes
    ++ codes " bytes"

-- The loop of Normalize over the registers, with the notes that it adds.
unfoldable pub normal_registers : List Register → List Register × List Text
normal_registers [] = ([], [])
normal_registers (reg ∷ regs) =
    let (rest, added) = normal_registers regs in
    (
      normal_register reg ∷ rest,
      if (clamp_text reg.effect max_effect_bytes).1 then cut_note reg ∷ added else added,
    )

unfoldable pub normal_irqs : List Irq → List Irq
normal_irqs [] = []
normal_irqs (irq ∷ irqs) =
    record irq {
      name = trim_space irq.name;
      description = (clamp_text irq.description max_note_bytes).0;
    }
    ∷ normal_irqs irqs

-- The loop of Normalize over the notes; an empty one is dropped.
unfoldable pub normal_notes : List Text → List Text
normal_notes [] = []
normal_notes (note ∷ notes) =
    let rest = normal_notes notes in
    let trimmed = (clamp_text note max_note_bytes).0 in
    if is_empty trimmed then rest else trimmed ∷ rest

abbrev pub dropped_note : ℕ → Text
dropped_note count =
    decimal (count - max_notes + 1)
    ++ codes " further notes were dropped at the "
    ++ decimal max_notes
    ++ codes "-note limit"

-- `if len(r.Notes) > maxNotes { … }`
unfoldable pub limit_notes : List Text → List Text
limit_notes notes =
    if ltb max_notes (length notes)
    then take (max_notes - 1) notes ++ (dropped_note (length notes) ∷ [])
    else notes

-- Normalize: the new description, and the notes it returns.
unfoldable pub normalize : RegIr → RegIr × List Text
normalize r =
    let (registers, added) = normal_registers r.registers in
    (
      record r {
        device = to_lower (trim_space r.device);
        bus_kind = bus_of (to_lower (trim_space (bus_text r.bus_kind)));
        registers = registers;
        interrupts = normal_irqs r.interrupts;
        notes = limit_notes (normal_notes r.notes ++ added);
      },
      added,
    )

-- `register.Access != AccessWO && register.Access != AccessRsvd`
abbrev pub has_reset_value : Access → Bool
has_reset_value Access.wo = false
has_reset_value Access.rsvd = false
has_reset_value a = true

abbrev pub is_read_write : Access → Bool
is_read_write Access.rw = true
is_read_write a = false

-- The two tests of OpenQuestions on a register.
abbrev pub lacks_reset : Register → Bool
lacks_reset reg = not (is_some reg.reset) && has_reset_value reg.access

abbrev pub lacks_detail : Register → Bool
lacks_detail reg = is_read_write reg.access && (is_empty reg.effect && length reg.fields == 0)

unfoldable pub register_questions : List Register → List Text
register_questions [] = []
register_questions (reg ∷ regs) =
    let rest = register_questions regs in
    let details =
      (if lacks_detail reg
        then (codes "register "
            ++ reg.name
            ++ codes " is read/write with no documented fields or side effect")
          ∷ []
        else [])
      ++ rest in
    (if lacks_reset reg
      then (codes "register " ++ reg.name ++ codes " has no documented reset value") ∷ []
      else [])
    ++ details

-- OpenQuestions
unfoldable pub open_questions : RegIr → List Text
open_questions r =
    let others =
      (if length r.interrupts == 0
        then codes "no interrupt lines were identified; confirm the device is polled" ∷ []
        else [])
      ++ r.notes in
    register_questions r.registers ++ others
