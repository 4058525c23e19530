-- ===== src/Memory/Words/Tokens.antt =====
-- The token lists of tokenize.
use qemu_agent.Common.{
  ℕ, ◌≤◌, List, [], ◌∷◌, ◌++◌, ◌≡◌, false, ◌||◌, arith, All, Pairs, Bool-cases, inl, inr, length,
  length-append, ltb, leb,
}
use qemu_agent.Common.Sorted.{Ordered, sort_by-Ordered, Pairs-sort_by, length-sort_by}
use qemu_agent.Text.{Text, text_eq, text_lt, is_empty}
use qemu_agent.Text.Order.{text_lt_asymm, text_lt_chain}
use qemu_agent.Memory.{one_of}
use qemu_agent.Memory.Words.{
  Unicode, add_token, flush, bigram, is_ideograph, contains_ideograph, add_ideograph_bigrams,
  add_field, add_fields, fields_by, is_separator, normalize_text, tokenize, max_tokens, stopwords,
  min_token_runes,
}

abbrev pub Differ : Text → Text → Type 0
Differ x y = text_eq x y ≡ false

Differ-sym : (x y : Text) → Differ x y → Differ y x
Differ-sym x y h = ground arith

-- The list holds no token twice and no more than the cap.
pub record IsTokenSet (tokens : List Text) : Type 0 where
  pub distinct : Pairs Differ tokens
  pub capped : length tokens ≤ max_tokens

All-add {κ} :
    (P : Text → Type κ) (token : Text) (xs : List Text)
    → All P xs
    → P token
    → All P (xs ++ token ∷ [])
All-add P token [] h k = (k, tt)
All-add P token (x ∷ xs) h k = (h.0, All-add P token xs h.1 k)

Pairs-add :
    (token : Text) (xs : List Text)
    → Pairs Differ xs
    → All (λ x. Differ x token) xs
    → Pairs Differ (xs ++ token ∷ [])
Pairs-add token [] h k = (tt, tt)
Pairs-add token (x ∷ xs) h k = (All-add (Differ x) token xs h.0 k.0, Pairs-add token xs h.1 k.1)

one_of-All :
    (token : Text) (xs : List Text) → one_of xs token ≡ false → All (λ x. Differ x token) xs
one_of-All token [] h = tt
one_of-All token (x ∷ xs) h = (ground arith, one_of-All token xs (ground arith))

add_token-IsTokenSet :
    (token : Text) (ordered : List Text)
    → IsTokenSet ordered
    → IsTokenSet (add_token token ordered).0
unfolding add_token
add_token-IsTokenSet token ordered h = elim (Bool-cases (one_of ordered token)) [
  | inl there ↦ rw (there, add_token) h
  | inr new ↦ elim (Bool-cases (leb max_tokens (length ordered))) [
    | inl full ↦ rw (new, add_token) (rw full h)
    | inr room ↦
        rw (new, add_token)
          (rw room (record {
            distinct = Pairs-add token ordered h.distinct (one_of-All token ordered new);
            capped = ground (arith, length-append ordered (token ∷ []));
          }))
  ]
]

module _ (u : Unicode) where
  flush-IsTokenSet :
      (latin : List ℕ) (ordered : List Text)
      → IsTokenSet ordered
      → IsTokenSet (flush u latin ordered).0
  unfolding flush
  flush-IsTokenSet latin ordered h =
      elim (Bool-cases (ltb (length latin) min_token_runes || one_of stopwords (u.utf8 latin))) [
        | inl skipped ↦ rw (skipped, flush) h
        | inr kept ↦ rw (kept, flush) (add_token-IsTokenSet (u.utf8 latin) ordered h)
      ]

  add_ideograph_bigrams-IsTokenSet :
      (latin rs : List ℕ) (ordered : List Text)
      → IsTokenSet ordered
      → IsTokenSet (add_ideograph_bigrams u latin rs ordered).0
  unfolding add_ideograph_bigrams
  add_ideograph_bigrams-IsTokenSet latin [] ordered h = flush-IsTokenSet latin ordered h
  add_ideograph_bigrams-IsTokenSet latin (r ∷ rs) ordered h =
      let flushed = flush u latin ordered in
      let good = flush-IsTokenSet latin ordered h in
      let added = add_token (u.utf8 (bigram u r rs)) flushed.0 in
      let better = add_token-IsTokenSet (u.utf8 (bigram u r rs)) flushed.0 good in
      elim (Bool-cases (is_ideograph u r)) [
        | inr latin_rune ↦
            rw (latin_rune, add_ideograph_bigrams)
              (add_ideograph_bigrams-IsTokenSet (latin ++ r ∷ []) rs ordered h)
        | inl ideograph ↦ elim (Bool-cases flushed.1) [
          | inr full ↦ rw (ideograph, add_ideograph_bigrams) (rw full good)
          | inl room ↦ elim (Bool-cases added.1) [
            | inr full ↦ rw (ideograph, add_ideograph_bigrams) (rw room (rw full better))
            | inl more ↦
                rw (ideograph, add_ideograph_bigrams)
                  (rw room (rw more (add_ideograph_bigrams-IsTokenSet [] rs added.0 better)))
          ]
        ]
      ]

  add_field-IsTokenSet :
      (field : List ℕ) (ordered : List Text)
      → IsTokenSet ordered
      → IsTokenSet (add_field u field ordered).0
  unfolding add_field
  add_field-IsTokenSet field ordered h = elim (Bool-cases (contains_ideograph u field)) [
    | inl some_ideograph ↦
        rw (some_ideograph, add_field) (add_ideograph_bigrams-IsTokenSet [] field ordered h)
    | inr latin ↦
        elim (Bool-cases (ltb (length field) min_token_runes || one_of stopwords (u.utf8 field))) [
          | inl skipped ↦ rw (latin, add_field) (rw skipped h)
          | inr kept ↦
              rw (latin, add_field) (rw kept (add_token-IsTokenSet (u.utf8 field) ordered h))
        ]
  ]

  add_fields-IsTokenSet :
      (fields : List (List ℕ)) (ordered : List Text)
      → IsTokenSet ordered
      → IsTokenSet (add_fields u fields ordered)
  unfolding add_fields
  add_fields-IsTokenSet [] ordered h = h
  add_fields-IsTokenSet (field ∷ fields) ordered h =
      let added = add_field u field ordered in
      let good = add_field-IsTokenSet field ordered h in
      elim (Bool-cases added.1) [
        | inr full ↦ rw (full, add_fields) good
        | inl room ↦ rw (room, add_fields) (add_fields-IsTokenSet fields added.0 good)
      ]

  -- tokenize returns at most 64 tokens, in the order of their bytes, none of them twice.
  pub tokenize-IsTokenSet :
      (text : Text) → IsTokenSet (tokenize u text) × Pairs (Ordered text_lt) (tokenize u text)
  unfolding tokenize
  tokenize-IsTokenSet text = elim (Bool-cases (is_empty (u.lower (normalize_text u text)))) [
    | inl blank ↦ rw (blank, tokenize) (record { distinct = tt; capped = omega arith }, tt)
    | inr filled ↦
        let tokens =
          add_fields u (fields_by (is_separator u) (u.runes (u.lower (normalize_text u text))))
            [] in
        let good =
          add_fields-IsTokenSet
            (fields_by (is_separator u) (u.runes (u.lower (normalize_text u text)))) []
            (record { distinct = tt; capped = omega arith }) in
        rw (filled, tokenize)
          (
            record {
              distinct = Pairs-sort_by text_lt Differ Differ-sym tokens good.distinct;
              capped = omega (arith, good.capped, length-sort_by text_lt tokens);
            },
            sort_by-Ordered text_lt text_lt_asymm text_lt_chain tokens,
          )
  ]
