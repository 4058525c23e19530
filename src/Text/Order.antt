-- ===== src/Text/Order.antt =====
-- The order of texts, byte by byte.
use qemu_agent.Common.{[], ◌∷◌, ◌≡◌, refl, true, false, arith}
use qemu_agent.Text.{Text, text_lt}

pub text_lt_asymm : (s t : Text) → text_lt s t ≡ true → text_lt t s ≡ false
unfolding text_lt
text_lt_asymm [] [] h = refl
text_lt_asymm [] (d ∷ t) h = refl
text_lt_asymm (c ∷ s) [] h = cc
text_lt_asymm (c ∷ s) (d ∷ t) h = ground (arith, text_lt_asymm s t)

-- `s ≤ t` and `t ≤ u` give `s ≤ u`.
pub text_lt_chain : (s t u : Text) → text_lt t s ≡ false → text_lt u t ≡ false → text_lt u s ≡ false
unfolding text_lt
text_lt_chain [] [] u h k = k
text_lt_chain [] (d ∷ t) [] h k = cc
text_lt_chain [] (d ∷ t) (e ∷ u) h k = refl
text_lt_chain (c ∷ s) [] u h k = cc
text_lt_chain (c ∷ s) (d ∷ t) [] h k = cc
text_lt_chain (c ∷ s) (d ∷ t) (e ∷ u) h k = ground (arith, text_lt_chain s t u)
