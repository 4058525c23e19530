-- ===== src/Text/Laws.antt =====
-- White space and letter case, on texts of printable ASCII bytes.
use mathlib.Core.List.{reverse, reverse-reverse, reverse-cons}
use qemu_agent.Common.{ℕ, ◌<◌, [], ◌∷◌, ◌≡◌, refl, All, All-append, arith}
use qemu_agent.Text.{Text, space_width, space_width_back, trim_by, trim_space}

-- A byte that is no white space, nor part of it.
abbrev pub IsGraphic : ℕ → Type 0
IsGraphic c = (32 < c) × (c < 128)

space_width_of_IsGraphic : (c : ℕ) (s : Text) → IsGraphic c → space_width (c ∷ s) ≡ 0
unfolding space_width
space_width_of_IsGraphic c [] h = ground arith
space_width_of_IsGraphic c (a ∷ []) h = ground arith
space_width_of_IsGraphic c (a ∷ b ∷ s) h = ground arith

space_width_back_of_IsGraphic : (c : ℕ) (s : Text) → IsGraphic c → space_width_back (c ∷ s) ≡ 0
unfolding space_width_back
space_width_back_of_IsGraphic c [] h = ground arith
space_width_back_of_IsGraphic c (a ∷ []) h = ground arith
space_width_back_of_IsGraphic c (a ∷ b ∷ s) h = ground arith

trim_by_of_IsGraphic :
    (width : Text → ℕ)
    → ((c : ℕ) (s : Text) → IsGraphic c → width (c ∷ s) ≡ 0)
    → (s : Text) → All IsGraphic s
    → trim_by width 0 s ≡ s
unfolding trim_by
trim_by_of_IsGraphic width none_at [] h = refl
trim_by_of_IsGraphic width none_at (c ∷ s) h = rw (none_at c s h.0, trim_by)

reverse-IsGraphic : (s : Text) → All IsGraphic s → All IsGraphic (reverse s)
reverse-IsGraphic [] h = tt
reverse-IsGraphic (c ∷ s) h =
    rw (reverse-cons c s)
      (All-append IsGraphic (reverse s) (c ∷ []) (reverse-IsGraphic s h.1) (h.0, tt))

pub trim_space_of_IsGraphic : (s : Text) → All IsGraphic s → trim_space s ≡ s
unfolding trim_space
trim_space_of_IsGraphic s h =
    rw
      (
        trim_by_of_IsGraphic space_width space_width_of_IsGraphic s h,
        trim_by_of_IsGraphic space_width_back space_width_back_of_IsGraphic (reverse s)
            (reverse-IsGraphic s h),
      )
      (reverse-reverse s)
