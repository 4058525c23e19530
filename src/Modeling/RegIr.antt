-- ===== src/Modeling/RegIr.antt =====
-- The register description of a device and the gate that it passes, internal/modeling/regir.go.
pub mod Spans
pub mod Sound
pub mod Prose
use Prim.Native.Nat.{bit_and}
use mathlib.Core.Logic.{ite}
use qemu_agent.Common.{
  ℕ, ◌-◌, ◌/◌, ◌%◌, ◌^◌, List, [], ◌∷◌, Option, none, some, Bool, true, false, ◌||◌, ◌&&◌, not, ltb,
  leb, ◌==◌, if◌then◌else◌, length, Result, ok, ◌>>=◌, ◌>>◌, guard, refuse,
}
use qemu_agent.Text.{Text, Text-discrete, is_upper, is_lower, is_digit, matches_word, to_upper}
use qemu_agent.Modeling.Types.{ℤ, pos, negsuc, Error, wraps, err_schema_invalid}
use qemu_agent.Modeling.Ints.{to_word, add_int, lt_int, add_word, sub_word}

pub data Access : Type 0 where
  ro wo rw w1c rsvd : Access
  other : Text → Access

pub data BusKind : Type 0 where
  sysbus pci : BusKind
  other : Text → BusKind

pub record Field : Type 0 where
  pub name : Text
  pub bit : ℤ
  pub width : ℤ
  pub description : Text

pub record Register : Type 0 where
  pub name : Text
  pub offset : ℕ  -- uint64
  pub width : ℤ
  pub access : Access
  pub reset : Option ℕ  -- *uint64
  pub fields : List Field
  pub effect : Text

pub record Irq : Type 0 where
  pub name : Text
  pub index : ℤ
  pub description : Text

pub record RegIr : Type 0 where
  pub device : Text
  pub bus_kind : BusKind
  pub mmio_size : ℕ  -- uint64
  pub registers : List Register
  pub interrupts : List Irq
  pub notes : List Text

abbrev pub max_registers : ℕ
max_registers = 512

abbrev pub max_fields : ℕ
max_fields = 64

abbrev pub max_notes : ℕ
max_notes = 64

abbrev pub max_note_bytes : ℕ
max_note_bytes = 2048

abbrev pub max_effect_bytes : ℕ
max_effect_bytes = 2048

abbrev pub max_irqs : ℕ
max_irqs = 32

-- The error of every check in this file: it wraps ErrSchemaInvalid.
abbrev pub invalid : Error
invalid = wraps (err_schema_invalid ∷ [])

-- devicePattern
unfoldable pub matches_device : Text → Bool
matches_device = matches_word is_lower (λ c. is_lower c || is_digit c || c == b'_')

abbrev is_letter : ℕ → Bool
is_letter c = is_upper c || is_lower c

-- symbolPattern
unfoldable pub matches_symbol : Text → Bool
matches_symbol = matches_word is_letter (λ c. is_letter c || is_digit c || c == b'_')

-- The part of `span` that the overlap pass compares.
pub record Span : Type 0 where
  pub start : ℕ
  pub end : ℕ

-- `_, duplicate := names[key]`
unfoldable pub has_text : Text → List Text → Bool
has_text key [] = false
has_text key (k ∷ ks) = ite (Text-discrete k key) true (has_text key ks)

-- sort.Slice by start.
unfoldable pub insert_span : Span → List Span → List Span
insert_span s [] = s ∷ []
insert_span s (t ∷ ts) = if leb s.start t.start then s ∷ t ∷ ts else t ∷ insert_span s ts

unfoldable pub sort_spans : List Span → List Span
sort_spans [] = []
sort_spans (s ∷ ss) = insert_span s (sort_spans ss)

-- The loop that compares each span with the one before it.
unfoldable pub check_overlap : List Span → Result Error (Unit {0})
check_overlap [] = ok tt
check_overlap (s ∷ []) = ok tt
check_overlap (s ∷ t ∷ ts) = do refuse (ltb t.start s.end) invalid; check_overlap (t ∷ ts)

-- `field.Width < 1 || field.Bit < 0 || field.Bit+field.Width > reg.Width`
unfoldable pub field_outside : ℤ → Field → Bool
field_outside reg_width f =
    lt_int f.width (pos 1) || lt_int f.bit (pos 0) || lt_int reg_width (add_int f.bit f.width)

abbrev pub field_span : Field → Span
field_span f = record { start = to_word f.bit; end = to_word (add_int f.bit f.width) }

-- The loop of validateFields, with the names seen so far; it returns the ranges in order.
unfoldable pub check_fields : ℤ → List Text → List Field → Result Error (List Span)
check_fields reg_width names [] = ok []
check_fields reg_width names (f ∷ fs) = do
  guard (matches_symbol f.name) invalid
  refuse (field_outside reg_width f) invalid
  let key = to_upper f.name
  refuse (has_text key names) invalid
  ranges ← check_fields reg_width (key ∷ names) fs
  ok (field_span f ∷ ranges)

-- validateFields. Its early return on no fields is the empty case of the loops.
unfoldable pub validate_fields : Register → Result Error (Unit {0})
validate_fields reg = do
  refuse (ltb max_fields (length reg.fields)) invalid
  ranges ← check_fields reg.width [] reg.fields
  check_overlap (sort_spans ranges)

-- `case 8, 16, 32, 64`
abbrev pub is_width : ℤ → Bool
is_width (pos w) = w == 8 || w == 16 || w == 32 || w == 64
is_width (negsuc n) = false

abbrev pub is_access : Access → Bool
is_access (Access.other t) = false
is_access a = true

-- `uint64(reg.Width / 8)`, after the width has been checked.
abbrev pub size_of : ℤ → ℕ
size_of (pos w) = w / 8
size_of (negsuc n) = 0

-- `reg.Reset != nil && reg.Width < 64 && *reg.Reset > 1<<reg.Width - 1`
abbrev pub reset_exceeds : Option ℕ → ℤ → Bool
reset_exceeds none width = false
reset_exceeds (some value) (negsuc n) = false
reset_exceeds (some value) (pos w) = ltb w 64 && ltb (2 ^ w - 1) value

-- Register.validate
unfoldable pub validate_register : ℕ → Register → Result Error (Unit {0})
validate_register mmio_size reg = do
  guard (matches_symbol reg.name) invalid
  guard (is_width reg.width) invalid
  guard (is_access reg.access) invalid
  let size = size_of reg.width
  guard (reg.offset % size == 0) invalid
  refuse (ltb (sub_word mmio_size size) reg.offset) invalid
  refuse (reset_exceeds reg.reset reg.width) invalid
  validate_fields reg

abbrev pub register_span : Register → Span
register_span reg = record { start = reg.offset; end = add_word reg.offset (size_of reg.width) }

-- The loop of Validate over the registers, with the names seen so far.
unfoldable pub check_registers : ℕ → List Text → List Register → Result Error (List Span)
check_registers mmio_size names [] = ok []
check_registers mmio_size names (reg ∷ regs) = do
  validate_register mmio_size reg
  let key = to_upper reg.name
  refuse (has_text key names) invalid
  spans ← check_registers mmio_size (key ∷ names) regs
  ok (register_span reg ∷ spans)

-- `_, duplicate := indices[irq.Index]`, on indices that are not negative.
unfoldable pub has_index : ℕ → List ℕ → Bool
has_index i [] = false
has_index i (j ∷ js) = i == j || has_index i js

abbrev pub index_of : ℤ → ℕ
index_of (pos n) = n
index_of (negsuc n) = 0

-- The loop of Validate over the interrupts, with the indices seen so far.
unfoldable pub check_irqs : List ℕ → List Irq → Result Error (Unit {0})
check_irqs indices [] = ok tt
check_irqs indices (irq ∷ irqs) = do
  guard (matches_symbol irq.name) invalid
  refuse (lt_int irq.index (pos 0) || not (lt_int irq.index (pos max_irqs))) invalid
  let index = index_of irq.index
  refuse (has_index index indices) invalid
  check_irqs (index ∷ indices) irqs

abbrev pub is_bus : BusKind → Bool
is_bus (BusKind.other t) = false
is_bus b = true

-- RegIR.Validate
unfoldable pub validate_ir : RegIr → Result Error (Unit {0})
validate_ir r = do
  guard (matches_device r.device) invalid
  guard (is_bus r.bus_kind) invalid
  refuse (r.mmio_size == 0 || not (bit_and r.mmio_size (r.mmio_size - 1) == 0)) invalid
  refuse (length r.registers == 0) invalid
  refuse (ltb max_registers (length r.registers)) invalid
  spans ← check_registers r.mmio_size [] r.registers
  check_overlap (sort_spans spans)
  refuse (ltb max_irqs (length r.interrupts)) invalid
  check_irqs [] r.interrupts
  refuse (ltb max_notes (length r.notes)) invalid
