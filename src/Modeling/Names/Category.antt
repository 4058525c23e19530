-- ===== src/Modeling/Names/Category.antt =====
-- Error categories: what shortCategory makes of any text.
use qemu_agent.Common.{
  ℕ, ◌≤◌, ◌≡◌, refl, [], ◌∷◌, true, All, All-take, length, length-take-le, take_of_length-le, arith,
  inl, inr, Bool-cases,
}
use qemu_agent.Text.{Text, is_empty, trim_space}
use qemu_agent.Text.Laws.{IsGraphic, trim_space_of_IsGraphic}
use qemu_agent.Modeling.Names.{is_category_byte, category_token, short_category}

-- Lower-case letters, digits and underscores.
abbrev pub IsCategoryByte : ℕ → Type 0
IsCategoryByte c = is_category_byte c ≡ true

category_token-bytes : (s : Text) → All IsCategoryByte (category_token s)
unfolding category_token
category_token-bytes [] = tt
category_token-bytes (c ∷ s) = ground (arith, category_token-bytes s)

category_token_of_bytes : (s : Text) → All IsCategoryByte s → category_token s ≡ s
unfolding category_token
category_token_of_bytes [] h = refl
category_token_of_bytes (c ∷ s) h = ground (arith, category_token_of_bytes s h.1)

bytes-IsGraphic : (s : Text) → All IsCategoryByte s → All IsGraphic s
bytes-IsGraphic [] h = tt
bytes-IsGraphic (c ∷ s) h = ((ground arith, ground arith), bytes-IsGraphic s h.1)

-- A category is a token of at most 32 lower-case letters, digits and underscores.
pub short_category_bytes :
    (raw : Text) → All IsCategoryByte (short_category raw) × (length (short_category raw) ≤ 32)
unfolding short_category
short_category_bytes raw = elim (Bool-cases (is_empty (trim_space raw))) [
  | inl none_left ↦ rw none_left (tt, omega arith)
  | inr some_left ↦ rw some_left (
    All-take IsCategoryByte 32 _ (category_token-bytes (trim_space raw)),
    length-take-le 32 (category_token (trim_space raw)),
  )
]

-- Such a token is its own category.
pub short_category_of_bytes :
    (s : Text) → All IsCategoryByte s → length s ≤ 32 → short_category s ≡ s
unfolding short_category
short_category_of_bytes [] h k = rw (trim_space_of_IsGraphic [] tt)
short_category_of_bytes (c ∷ s) h k =
    rw
      (
        trim_space_of_IsGraphic (c ∷ s) (bytes-IsGraphic (c ∷ s) h),
        category_token_of_bytes (c ∷ s) h,
      )
      (take_of_length-le 32 (c ∷ s) k)

-- Shortening a category again changes nothing, whatever text it came from.
pub short_category_idem : (raw : Text) → short_category (short_category raw) ≡ short_category raw
short_category_idem raw =
    let (bytes, short) = short_category_bytes raw in
    short_category_of_bytes (short_category raw) bytes short
