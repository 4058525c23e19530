-- ===== src/Tests/Registers.antt =====
-- Instances of the theorems on register descriptions.
use qemu_agent.Common.{◌+◌, ◌≤◌, [], ◌∷◌, ◌≡◌, refl, none, some, All, Pairs, ok, arith}
use qemu_agent.Text.{codes, to_upper}
use qemu_agent.Modeling.Ints.{add_int}
use qemu_agent.Modeling.Types.{pos}
use qemu_agent.Modeling.RegIr.{
  Access, ro, sysbus, Field, Register, RegIr, size_of, field_outside, insert_span, sort_spans,
  check_overlap, has_text, matches_device, matches_symbol, check_fields, validate_fields,
  validate_register, check_registers, has_index, check_irqs, validate_ir,
}
use qemu_agent.Modeling.RegIr.Sound.{IsField, validate_ir-IsSound}
use qemu_agent.Modeling.RegIr.Sound.Space.{Apart, validate_ir-memory}
use qemu_agent.Modeling.RegIr.Prose.{register_questions, open_questions}
use qemu_agent.Tests.Samples.{computes}

registers : Unit {0}
unfolding field_outside insert_span sort_spans check_overlap has_text matches_device matches_symbol
    check_fields validate_fields validate_register check_registers has_index check_irqs validate_ir
    add_int to_upper
registers = tt

abbrev enable : Field
enable = record { name = codes "enable"; bit = pos 0; width = pos 1; description = [] }

abbrev prescale : Field
prescale = record { name = codes "prescale"; bit = pos 4; width = pos 4; description = [] }

abbrev control : Register
control = record {
  name = codes "CTRL";
  offset = 0;
  width = pos 32;
  access = Access.rw;
  reset = some 1;
  fields = prescale ∷ enable ∷ [];
  effect = [];
}

abbrev count : Register
count = record {
  name = codes "COUNT";
  offset = 8;
  width = pos 64;
  access = ro;
  reset = none;
  fields = [];
  effect = [];
}

abbrev timer : RegIr
timer = record {
  device = codes "sp804";
  bus_kind = sysbus;
  mmio_size = 16;
  registers = count ∷ control ∷ [];
  interrupts = record { name = codes "irq"; index = pos 3; description = [] } ∷ [];
  notes = [];
}

timer_accepted : validate_ir timer ≡ ok tt
unfolding computes registers
timer_accepted = refl

validate_ir-memory_example :
    All (λ reg. reg.offset + size_of reg.width ≤ 16) (count ∷ control ∷ [])
    × Pairs Apart (count ∷ control ∷ [])
validate_ir-memory_example = validate_ir-memory timer timer_accepted (omega arith) (omega arith)

-- A 64-bit register in a region of 4 bytes, at an address far beyond it.
abbrev stray : Register
stray = record count { offset = 4096 }

prescale_good : IsField (pos 32) prescale
prescale_good = (validate_ir-IsSound timer timer_accepted).registers_good.1.0.fields_good.0

abbrev endless : Field
endless = record prescale { bit = pos 9223372036854775807 }

abbrev documented : RegIr
documented = record timer { registers = record count { reset = some 0 } ∷ control ∷ [] }

nothing_open : open_questions documented ≡ []
unfolding open_questions register_questions
nothing_open = refl
