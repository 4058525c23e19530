-- ===== src/Memory/Words/Normal.antt =====
-- The canonical form of normalizeText.
use qemu_agent.Common.{
  ℕ, List, [], ◌∷◌, ◌++◌, ◌≡◌, ◌≢◌, refl, ap, subst, ◌∙◌, Bool, true, false, ◌||◌, arith, All,
  Bool-cases, inl, inr,
}
use mathlib.Core.List.{append-nil}
use qemu_agent.Memory.Words.{
  Unicode, is_invisible, is_line_space, continues, extend, fields_by, join_words, clean_runes,
  normalize_runes,
}

module _ (u : Unicode) where
  -- The rune passes the switch of normalizeText as it is.
  abbrev pub IsClean : ℕ → Type 0
  IsClean r = (is_line_space r ≡ false) × (is_invisible r || u.is_control r ≡ false)

  abbrev pub IsWordRune : ℕ → Type 0
  IsWordRune r = IsClean r × (u.is_space r ≡ false)

  -- A word is not empty, has no white space, and every rune of it passes the switch as it is.
  abbrev pub IsWord : List ℕ → Type 0
  IsWord word = (word ≢ []) × All IsWordRune word

  clean_runes-IsClean : (rs : List ℕ) → u.is_control 32 ≡ false → All IsClean (clean_runes u rs)
  unfolding clean_runes
  clean_runes-IsClean [] h = tt
  clean_runes-IsClean (r ∷ rs) h = ground (arith, clean_runes-IsClean rs h)

  clean_runes-same : (rs : List ℕ) → All IsClean rs → clean_runes u rs ≡ rs
  unfolding clean_runes
  clean_runes-same [] h = refl
  clean_runes-same (r ∷ rs) h = ground (arith, clean_runes-same rs h.1)

  extend-IsWord :
      (same : Bool) (r : ℕ) (words : List (List ℕ))
      → IsWordRune r
      → All IsWord words
      → All IsWord (extend same r words)
  extend-IsWord true r (word ∷ words) h k = (((λ e. absurd (ground arith)), (h, k.0.1)), k.1)
  extend-IsWord true r [] h k = (((λ e. absurd (ground arith)), (h, tt)), tt)
  extend-IsWord false r words h k = (((λ e. absurd (ground arith)), (h, tt)), k)

  fields_by-IsWord : (rs : List ℕ) → All IsClean rs → All IsWord (fields_by u.is_space rs)
  unfolding fields_by
  fields_by-IsWord [] h = tt
  fields_by-IsWord (r ∷ rs) h = elim (Bool-cases (u.is_space r)) [
    | inl space ↦ rw (space, fields_by) (fields_by-IsWord rs h.1)
    | inr inside ↦
        rw (inside, fields_by)
          (extend-IsWord (continues u.is_space rs) r (fields_by u.is_space rs) (h.0, inside)
            (fields_by-IsWord rs h.1))
  ]

  All-append-IsClean :
      (xs ys : List ℕ) → All IsWordRune xs → All IsClean ys → All IsClean (xs ++ ys)
  All-append-IsClean [] ys h k = k
  All-append-IsClean (x ∷ xs) ys h k = (h.0.0, All-append-IsClean xs ys h.1 k)

  join_words-IsClean :
      (words : List (List ℕ))
      → u.is_control 32 ≡ false
      → All IsWord words
      → All IsClean (join_words words)
  unfolding join_words
  join_words-IsClean [] c h = tt
  join_words-IsClean (word ∷ []) c h =
      subst (All IsClean) (append-nil word) (All-append-IsClean word [] h.0.1 tt)
  join_words-IsClean (word ∷ next ∷ words) c h =
      All-append-IsClean word (32 ∷ join_words (next ∷ words)) h.0.1
        ((ground arith, ground (arith, c)), join_words-IsClean (next ∷ words) c h.1)

  -- A word is read as one field, up to the end or the next space.
  fields_by-word :
      (word rest : List ℕ)
      → word ≢ []
      → All IsWordRune word
      → continues u.is_space rest ≡ false
      → fields_by u.is_space (word ++ rest) ≡ word ∷ fields_by u.is_space rest
  unfolding fields_by
  fields_by-word [] rest e h k = absurd (e refl)
  fields_by-word (r ∷ []) rest e h k = ground arith
  fields_by-word (r ∷ r' ∷ word) rest e h k =
      ground (arith, fields_by-word (r' ∷ word) rest (λ x. absurd (ground arith)) h.1 k)

  fields_by-join_words :
      (words : List (List ℕ))
      → u.is_space 32 ≡ true
      → All IsWord words
      → fields_by u.is_space (join_words words) ≡ words
  unfolding join_words fields_by
  fields_by-join_words [] s h = refl
  fields_by-join_words (word ∷ []) s h =
      subst (λ w. fields_by u.is_space w ≡ word ∷ []) (append-nil word)
        (fields_by-word word [] h.0.0 h.0.1 refl)
  fields_by-join_words (word ∷ next ∷ words) s h =
      fields_by-word word (32 ∷ join_words (next ∷ words)) h.0.0 h.0.1 (ground arith)
      ∙ ap (λ fields. word ∷ fields) (rw (s, fields_by) (fields_by-join_words (next ∷ words) s h.1))

  -- Normalizing twice is normalizing once, when the space is white space and no control rune.
  pub normalize_runes_idem :
      (rs : List ℕ)
      → u.is_space 32 ≡ true
      → u.is_control 32 ≡ false
      → normalize_runes u (normalize_runes u rs) ≡ normalize_runes u rs
  unfolding normalize_runes
  normalize_runes_idem rs s c =
      let words = fields_by u.is_space (clean_runes u rs) in
      let good : All IsWord words =
        fields_by-IsWord (clean_runes u rs) (clean_runes-IsClean rs c) in
      ap join_words (
        ap (fields_by u.is_space)
          (clean_runes-same (join_words words) (join_words-IsClean words c good))
        ∙ fields_by-join_words words s good)
