-- ===== src/Text.antt =====
-- Go strings as lists of bytes, and the parts of the package `strings` that the program calls:
-- TrimSpace, ToLower, ToUpper, ContainsAny, Contains and HasPrefix.
pub mod Laws
pub mod Order
use Prim.Native.Char.{code}
use Prim.Native.String.{String}
use mathlib.Core.List.{reverse}
use mathlib.Core.Logic.{ite}
use qemu_agent.Common.{
  ℕ, zero, suc, ◌+◌, ◌-◌, List, [], ◌∷◌, Bool, true, false, ◌&&◌, ◌||◌, ltb, leb, ◌==◌,
  if◌then◌else◌, ℕ_discrete, all, take, length,
}

abbrev pub Text : Type 0
Text = List ℕ

-- The bytes of an ASCII literal.
abbrev pub codes : String → Text
codes String.[] = []
codes (String.◌∷◌ c s) = code c ∷ codes s

unfoldable pub Text-discrete : Discrete Text
Text-discrete = hlevel ℕ_discrete

-- `s == t`
abbrev pub text_eq : Text → Text → Bool
text_eq s t = ite (Text-discrete s t) true false

abbrev pub is_empty : Text → Bool
is_empty [] = true
is_empty (c ∷ s) = false

-- unicode.IsSpace below 0x80: tab, newline, vertical tab, form feed, carriage return, space.
abbrev pub is_ascii_space : ℕ → Bool
is_ascii_space c = (leb 9 c && leb c 13) || c == 32

-- The last two bytes of the three-byte spaces: U+1680, U+2000 to U+200A, U+2028, U+2029, U+202F,
-- U+205F, U+3000.
abbrev pub is_wide_space : ℕ → ℕ → ℕ → Bool
is_wide_space a b c =
    (a == 0xE1 && b == 0x9A && c == 0x80)
    || (a == 0xE2
        && b == 0x80
        && ((leb 0x80 c && leb c 0x8A) || c == 0xA8 || c == 0xA9 || c == 0xAF))
    || (a == 0xE2 && b == 0x81 && c == 0x9F)
    || (a == 0xE3 && b == 0x80 && c == 0x80)

-- U+0085 and U+00A0.
abbrev pub is_latin_space : ℕ → ℕ → Bool
is_latin_space a b = a == 0xC2 && (b == 0x85 || b == 0xA0)

-- The number of bytes of the white space that a text begins with, 0 if it begins with none.
unfoldable pub space_width : Text → ℕ
space_width [] = 0
space_width (a ∷ []) = if is_ascii_space a then 1 else 0
space_width (a ∷ b ∷ []) = if is_ascii_space a then 1 else if is_latin_space a b then 2 else 0
space_width (a ∷ b ∷ c ∷ s) =
    if is_ascii_space a
    then 1
    else if is_latin_space a b
    then 2
    else if is_wide_space a b c
    then 3
    else 0

-- The same at the end, for a text that is read backwards.
unfoldable pub space_width_back : Text → ℕ
space_width_back [] = 0
space_width_back (a ∷ []) = if is_ascii_space a then 1 else 0
space_width_back (a ∷ b ∷ []) = if is_ascii_space a then 1 else if is_latin_space b a then 2 else 0
space_width_back (a ∷ b ∷ c ∷ s) =
    if is_ascii_space a
    then 1
    else if is_latin_space b a
    then 2
    else if is_wide_space c b a
    then 3
    else 0

-- Drops white space from the front; the number counts the bytes that are still to be dropped.
unfoldable pub trim_by : (Text → ℕ) → ℕ → Text → Text
trim_by width k [] = []
trim_by width (suc k) (c ∷ s) = trim_by width k s
trim_by width zero (c ∷ s) = elim (width (c ∷ s)) [ zero ↦ c ∷ s | suc k ↦ trim_by width k s ]

-- strings.TrimSpace
unfoldable pub trim_space : Text → Text
unfolding trim_by space_width space_width_back
trim_space s = reverse (trim_by space_width_back 0 (reverse (trim_by space_width 0 s)))

abbrev pub is_upper : ℕ → Bool
is_upper c = leb b'A' c && leb c b'Z'

abbrev pub is_lower : ℕ → Bool
is_lower c = leb b'a' c && leb c b'z'

abbrev pub is_digit : ℕ → Bool
is_digit c = leb b'0' c && leb c b'9'

abbrev pub lower_byte : ℕ → ℕ
lower_byte c = if is_upper c then c + 32 else c

abbrev pub upper_byte : ℕ → ℕ
upper_byte c = if is_lower c then c - 32 else c

-- The letters outside ASCII whose lower case is an ASCII letter: U+0130 (i) and U+212A (k). Each
-- is read with the number of its further bytes.
abbrev lower_at : Text → ℕ × ℕ
lower_at [] = (0, 0)
lower_at (a ∷ []) = (lower_byte a, 0)
lower_at (a ∷ b ∷ []) = if a == 0xC4 && b == 0xB0 then (b'i', 1) else (lower_byte a, 0)
lower_at (a ∷ b ∷ c ∷ s) =
    if a == 0xC4 && b == 0xB0
    then (b'i', 1)
    else if a == 0xE2 && b == 0x84 && c == 0xAA
    then (b'k', 2)
    else (lower_byte a, 0)

unfoldable pub lower_from : ℕ → Text → Text
lower_from k [] = []
lower_from (suc k) (c ∷ s) = lower_from k s
lower_from zero (c ∷ s) = let (d, k) = lower_at (c ∷ s) in d ∷ lower_from k s

-- strings.ToLower. The other letters outside ASCII stay as they are: their lower case lies outside
-- ASCII too, and the program compares results with ASCII words only.
unfoldable pub to_lower : Text → Text
unfolding lower_from
to_lower s = lower_from 0 s

-- strings.ToUpper, which the program applies to ASCII identifiers only.
unfoldable pub to_upper : Text → Text
to_upper [] = []
to_upper (c ∷ s) = upper_byte c ∷ to_upper s

-- strings.HasPrefix
unfoldable pub has_prefix : Text → Text → Bool
has_prefix s [] = true
has_prefix [] (p ∷ ps) = false
has_prefix (c ∷ s) (p ∷ ps) = c == p && has_prefix s ps

-- strings.Contains, for a non-empty second text.
unfoldable pub contains : Text → Text → Bool
unfolding has_prefix
contains [] p = false
contains (c ∷ s) p = has_prefix (c ∷ s) p || contains s p

-- Regular expressions of the shape `^[first][rest]*$`.
abbrev pub matches_word : (ℕ → Bool) → (ℕ → Bool) → Text → Bool
matches_word first rest [] = false
matches_word first rest (c ∷ s) = first c && all rest s

-- strings.HasSuffix
unfoldable pub has_suffix : Text → Text → Bool
has_suffix s p = has_prefix (reverse s) (reverse p)

-- strings.TrimSuffix
unfoldable pub trim_suffix : Text → Text → Text
trim_suffix s p = if has_suffix s p then take (length s - length p) s else s

-- `s < t`, byte by byte.
unfoldable pub text_lt : Text → Text → Bool
text_lt s [] = false
text_lt [] (d ∷ t) = true
text_lt (c ∷ s) (d ∷ t) = if c == d then text_lt s t else ltb c d
