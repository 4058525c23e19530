-- ===== src/Modeling/Ints.antt =====
-- The 64-bit integers of the program: `int` as ℤ by two's complement, `uint64` as a number below
-- 2 ^ 64.
use qemu_agent.Common.{ℕ, ◌+◌, ◌-◌, ◌%◌, Bool, true, false, ltb, if◌then◌else◌}
use qemu_agent.Modeling.Types.{ℤ, pos, negsuc}

abbrev pub word_mod : ℕ
word_mod = 18446744073709551616

abbrev pub int_mod : ℕ
int_mod = 9223372036854775808

-- `uint64(x)`
abbrev pub to_word : ℤ → ℕ
to_word (pos n) = n % word_mod
to_word (negsuc n) = word_mod - 1 - n % word_mod

-- `int(x)`
abbrev pub of_word : ℕ → ℤ
of_word w = if ltb w int_mod then pos w else negsuc (word_mod - 1 - w)

-- `a + b` on integers.
unfoldable pub add_int : ℤ → ℤ → ℤ
add_int a b = of_word ((to_word a + to_word b) % word_mod)

-- `a < b` on integers.
abbrev pub lt_int : ℤ → ℤ → Bool
lt_int (pos m) (pos n) = ltb m n
lt_int (pos m) (negsuc n) = false
lt_int (negsuc m) (pos n) = true
lt_int (negsuc m) (negsuc n) = ltb n m

-- `a + b` and `a - b` on unsigned words.
abbrev pub add_word : ℕ → ℕ → ℕ
add_word a b = (a + b) % word_mod

abbrev pub sub_word : ℕ → ℕ → ℕ
sub_word a b = (a + word_mod - b) % word_mod
