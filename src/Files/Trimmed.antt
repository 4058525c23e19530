-- ===== src/Files/Trimmed.antt =====
-- White space holds no path separator, so trimming removes none.
use mathlib.Core.List.{reverse, reverse-cons}
use qemu_agent.Common.{
  ℕ, zero, suc, [], ◌∷◌, ◌++◌, ◌≡◌, refl, ◌⊎◌, inl, inr, true, ◌&&◌, arith, take,
}
use qemu_agent.Text.{Text, space_width, space_width_back, trim_by, trim_space}
use qemu_agent.Files.Paths.{has_no_slash}

append-no_slash : (s t : Text) → has_no_slash (s ++ t) ≡ (has_no_slash s && has_no_slash t)
append-no_slash [] t = refl
append-no_slash (c ∷ s) t = ground (arith, append-no_slash s t)

reverse-no_slash : (s : Text) → has_no_slash (reverse s) ≡ has_no_slash s
reverse-no_slash [] = refl
reverse-no_slash (c ∷ s) =
    rw (reverse-cons c s, append-no_slash (reverse s) (c ∷ [])) (ground (arith, reverse-no_slash s))

space_width-no_slash : (s : Text) → has_no_slash (take (space_width s) s) ≡ true
unfolding space_width
space_width-no_slash [] = refl
space_width-no_slash (a ∷ []) = ground arith
space_width-no_slash (a ∷ b ∷ []) = ground arith
space_width-no_slash (a ∷ b ∷ c ∷ s) = ground arith

space_width_back-no_slash : (s : Text) → has_no_slash (take (space_width_back s) s) ≡ true
unfolding space_width_back
space_width_back-no_slash [] = refl
space_width_back-no_slash (a ∷ []) = ground arith
space_width_back-no_slash (a ∷ b ∷ []) = ground arith
space_width_back-no_slash (a ∷ b ∷ c ∷ s) = ground arith

zero-cases : (n : ℕ) → (n ≡ 0) ⊎ ((k : ℕ) × (n ≡ suc k))
zero-cases zero = inl refl
zero-cases (suc k) = inr (k, refl)

module _ (width : Text → ℕ) (spaces : (s : Text) → has_no_slash (take (width s) s) ≡ true) where
  trim_by-no_slash :
      (k : ℕ) (s : Text)
      → has_no_slash (take k s) ≡ true
      → has_no_slash (trim_by width k s) ≡ true
      → has_no_slash s ≡ true
  unfolding trim_by
  trim_by-no_slash k [] h e = refl
  trim_by-no_slash (suc k) (c ∷ s) h e = ground (arith, trim_by-no_slash k s)
  trim_by-no_slash zero (c ∷ s) h e = elim (zero-cases (width (c ∷ s))) [
    | inl none_there ↦ ground arith
    | inr (k, some_there) ↦ ground (arith, trim_by-no_slash k s, spaces (c ∷ s))
  ]

pub trim_space-no_slash : (s : Text) → has_no_slash (trim_space s) ≡ true → has_no_slash s ≡ true
unfolding trim_space
trim_space-no_slash s h =
    let front = trim_by space_width 0 s in
    trim_by-no_slash space_width space_width-no_slash 0 s refl (
      ground (
        arith,
        trim_by-no_slash space_width_back space_width_back-no_slash 0 (reverse front),
        reverse-no_slash front,
        reverse-no_slash (trim_by space_width_back 0 (reverse front)),
      ))
