-- ===== src/Modeling/RegIr/Sound/Space.antt =====
-- Addresses and bits: what the checks of Validate mean for them, and where the 64-bit arithmetic
-- of two of the checks wraps.
use qemu_agent.Common.{
  ℕ, ◌+◌, ◌≤◌, ◌<◌, ◌%◌, List, [], ◌∷◌, ◌≡◌, ◌⊎◌, inl, inr, All, Pairs, arith, ok, true, false,
  none,
}
use qemu_agent.Modeling.Types.{ℤ, pos, negsuc}
use qemu_agent.Modeling.Ints.{add_int, word_mod, int_mod}
use qemu_agent.Modeling.RegIr.{
  Field, Register, RegIr, is_width, size_of, is_access, field_outside, register_span,
  matches_symbol, validate_register, validate_fields, validate_ir, check_fields, check_overlap,
  sort_spans,
}
use qemu_agent.Modeling.RegIr.Spans.{Disjoint}
use qemu_agent.Modeling.RegIr.Sound.{IsField, IsRegister, validate_ir-IsSound}

-- The four legal widths in bytes.
size_cases :
    (w : ℤ)
    → is_width w ≡ true
    → (size_of w ≡ 1) ⊎ (size_of w ≡ 2) ⊎ (size_of w ≡ 4) ⊎ (size_of w ≡ 8)
size_cases (pos n) h = ground arith
size_cases (negsuc n) h = cc

-- The byte at an address belongs to the register.
abbrev pub Holds : Register → ℕ → Type 0
Holds reg addr = (reg.offset ≤ addr) × (addr < reg.offset + size_of reg.width)

-- No address belongs to both.
abbrev pub Apart : Register → Register → Type 0
Apart a b = (addr : ℕ) → ¬ (Holds a addr × Holds b addr)

register_inside :
    (m : ℕ) (reg : Register)
    → 8 ≤ m
    → m < word_mod
    → IsRegister m reg
    → reg.offset + size_of reg.width ≤ m
register_inside m reg h k v = omega (arith, size_cases reg.width v.sized)

registers_inside :
    (m : ℕ) (regs : List Register)
    → 8 ≤ m
    → m < word_mod
    → All (IsRegister m) regs
    → All (λ reg. reg.offset + size_of reg.width ≤ m) regs
registers_inside m [] h k v = tt
registers_inside m (reg ∷ regs) h k v =
    (register_inside m reg h k v.0, registers_inside m regs h k v.1)

own_bytes :
    (m : ℕ) (a b : Register)
    → m < word_mod
    → a.offset + size_of a.width ≤ m
    → b.offset + size_of b.width ≤ m
    → Disjoint (register_span a) (register_span b)
    → Apart a b
own_bytes m a b k ha hb (inl d) addr (p, q) = omega arith
own_bytes m a b k ha hb (inr d) addr (p, q) = omega arith

module _ (m : ℕ) (k : m < word_mod) where
  own_bytes-All :
      (a : Register) (regs : List Register)
      → a.offset + size_of a.width ≤ m
      → All (λ reg. reg.offset + size_of reg.width ≤ m) regs
      → All (λ b. Disjoint (register_span a) (register_span b)) regs
      → All (Apart a) regs
  own_bytes-All a [] ha h d = tt
  own_bytes-All a (b ∷ bs) ha h d = (own_bytes m a b k ha h.0 d.0, own_bytes-All a bs ha h.1 d.1)

  own_bytes-Pairs :
      (regs : List Register)
      → All (λ reg. reg.offset + size_of reg.width ≤ m) regs
      → Pairs (λ a b. Disjoint (register_span a) (register_span b)) regs
      → Pairs Apart regs
  own_bytes-Pairs [] h d = tt
  own_bytes-Pairs (a ∷ bs) h d = (own_bytes-All a bs h.0 h.1 d.0, own_bytes-Pairs bs h.1 d.1)

-- In an accepted description whose region has at least 8 bytes, and a size that fits a uint64, every
-- register lies inside the region and no address belongs to two registers.
pub validate_ir-memory :
    (r : RegIr)
    → validate_ir r ≡ ok tt
    → 8 ≤ r.mmio_size
    → r.mmio_size < word_mod
    → All (λ reg. reg.offset + size_of reg.width ≤ r.mmio_size) r.registers
      × Pairs Apart r.registers
validate_ir-memory r h big word =
    let v = validate_ir-IsSound r h in
    let inside = registers_inside r.mmio_size r.registers big word v.registers_good in
    (inside, own_bytes-Pairs r.mmio_size word r.registers inside v.registers_apart)

-- The bound check subtracts the size from that of the region, and the difference wraps when the
-- register is larger than the region: such a register is accepted at every aligned offset.
pub validate_register-too_wide :
    (m : ℕ) (reg : Register)
    → matches_symbol reg.name ≡ true
    → is_width reg.width ≡ true
    → is_access reg.access ≡ true
    → reg.reset ≡ none
    → reg.fields ≡ []
    → reg.offset < word_mod
    → reg.offset % size_of reg.width ≡ 0
    → m < size_of reg.width
    → validate_register m reg ≡ ok tt
unfolding validate_register validate_fields check_fields sort_spans check_overlap
validate_register-too_wide m reg n w a r f o al s = elim (size_cases reg.width w) [
  | inl one ↦ ground arith
  | inr (inl two) ↦ ground arith
  | inr (inr (inl four)) ↦ ground arith
  | inr (inr (inr eight)) ↦ ground arith
]

-- An accepted field, at no negative bit and whose end fits an `int`, has at least one bit and lies
-- inside its register.
pub field_inside :
    (w b k : ℕ) (f : Field)
    → f.bit ≡ pos b
    → f.width ≡ pos k
    → b + k < int_mod
    → IsField (pos w) f
    → (1 ≤ k) × (b + k ≤ w)
unfolding field_outside add_int
field_inside w b k f hb hk small v = ground arith

-- The end of a field is computed as an `int`: one that passes the largest integer wraps to a
-- negative number, and the field is accepted in a register of any width.
pub field_outside-wraps :
    (w b k : ℕ) (f : Field)
    → f.bit ≡ pos b
    → f.width ≡ pos k
    → 1 ≤ k
    → b < int_mod
    → k < int_mod
    → int_mod ≤ b + k
    → field_outside (pos w) f ≡ false
unfolding field_outside add_int
field_outside-wraps w b k f hb hk p hb' hk' over = ground arith
