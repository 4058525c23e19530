-- ===== src/Memory/Words.antt =====
-- Texts as runes: normalizeText of internal/memory/sanitizer.go and the tokens of keyword.go. The
-- packages unicode, utf8 and sha256 and strings.ToLower are a record of functions.

pub mod Normal
pub mod Tokens
use qemu_agent.Common.{
  ℕ, List, [], ◌∷◌, ◌++◌, Bool, true, false, ◌&&◌, ◌||◌, not, if◌then◌else◌, leb, ltb, ◌==◌, length,
}
use qemu_agent.Common.Sorted.{sort_by}
use qemu_agent.Text.{Text, codes, text_eq, is_empty, text_lt}
use qemu_agent.Memory.{one_of}

-- `runes` are those of strings.ToValidUTF8(raw, ""), `digest` is the hexadecimal SHA-256.
pub record Unicode : Type 0 where
  pub runes : Text → List ℕ
  pub utf8 : List ℕ → Text
  pub lower : Text → Text
  pub digest : Text → Text
  pub is_control : ℕ → Bool
  pub is_space : ℕ → Bool
  pub is_letter : ℕ → Bool
  pub is_number : ℕ → Bool
  pub is_han : ℕ → Bool
  pub is_hiragana : ℕ → Bool
  pub is_katakana : ℕ → Bool

-- isInvisible
abbrev pub is_invisible : ℕ → Bool
is_invisible r =
    r == 0xFEFF
    || r == 0xAD
    || (leb 0x200B r && leb r 0x200F)
    || (leb 0x202A r && leb r 0x202E)
    || (leb 0x2060 r && leb r 0x2064)
    || (leb 0x2066 r && leb r 0x2069)

abbrev pub is_line_space : ℕ → Bool
is_line_space r = r == 10 || r == 13 || r == 9

-- A word is continued when the next rune belongs to it.
abbrev pub continues : (ℕ → Bool) → List ℕ → Bool
continues separates [] = false
continues separates (r ∷ rs) = not (separates r)

abbrev pub extend : Bool → ℕ → List (List ℕ) → List (List ℕ)
extend true r (word ∷ words) = (r ∷ word) ∷ words
extend same r words = (r ∷ []) ∷ words

-- strings.FieldsFunc
unfoldable pub fields_by : (ℕ → Bool) → List ℕ → List (List ℕ)
fields_by separates [] = []
fields_by separates (r ∷ rs) =
    let words = fields_by separates rs in
    if separates r then words else extend (continues separates rs) r words

-- strings.Join(words, " ")
unfoldable pub join_words : List (List ℕ) → List ℕ
join_words [] = []
join_words (word ∷ []) = word
join_words (word ∷ next ∷ words) = word ++ 32 ∷ join_words (next ∷ words)

abbrev pub max_tokens : ℕ
max_tokens = 64

abbrev pub min_token_runes : ℕ
min_token_runes = 2

abbrev pub stopwords : List Text
stopwords =
    codes "the"
    ∷ codes "and"
    ∷ codes "for"
    ∷ codes "with"
    ∷ codes "that"
    ∷ codes "this"
    ∷ codes "from"
    ∷ codes "are"
    ∷ codes "was"
    ∷ codes "were"
    ∷ codes "you"
    ∷ codes "your"
    ∷ codes "not"
    ∷ codes "but"
    ∷ codes "has"
    ∷ codes "have"
    ∷ codes "had"
    ∷ codes "its"
    ∷ codes "it's"
    ∷ codes "into"
    ∷ codes "onto"
    ∷ codes "can"
    ∷ codes "will"
    ∷ codes "would"
    ∷ codes "should"
    ∷ codes "there"
    ∷ codes "then"
    ∷ codes "than"
    ∷ codes "when"
    ∷ codes "what"
    ∷ codes "which"
    ∷ codes "who"
    ∷ codes "how"
    ∷ codes "please"
    ∷ codes "about"
    ∷ codes "also"
    ∷ codes "just"
    ∷ codes "any"
    ∷ codes "all"
    ∷ []

-- `add` of tokenize: the tokens and whether there was room.
unfoldable pub add_token : Text → List Text → List Text × Bool
add_token token ordered =
    if one_of ordered token
    then (ordered, true)
    else if leb max_tokens (length ordered)
    then (ordered, false)
    else (ordered ++ token ∷ [], true)

module _ (u : Unicode) where
  unfoldable pub clean_runes : List ℕ → List ℕ
  clean_runes [] = []
  clean_runes (r ∷ rs) =
      let rest = clean_runes rs in
      if is_line_space r
      then 32 ∷ rest
      else if is_invisible r || u.is_control r
      then rest
      else r ∷ rest

  unfoldable pub normalize_runes : List ℕ → List ℕ
  normalize_runes rs = join_words (fields_by u.is_space (clean_runes rs))

  -- normalizeText
  unfoldable pub normalize_text : Text → Text
  normalize_text raw = u.utf8 (normalize_runes (u.runes raw))

  -- isSeparator
  abbrev pub is_separator : ℕ → Bool
  is_separator r = not (u.is_letter r) && not (u.is_number r) && not (r == b'_') && not (r == b'-')

  -- isIdeograph
  abbrev pub is_ideograph : ℕ → Bool
  is_ideograph r = u.is_han r || u.is_hiragana r || u.is_katakana r

  -- containsIdeograph
  abbrev pub contains_ideograph : List ℕ → Bool
  contains_ideograph [] = false
  contains_ideograph (r ∷ rs) = is_ideograph r || contains_ideograph rs

  -- `flush` of addIdeographBigrams.
  unfoldable pub flush : List ℕ → List Text → List Text × Bool
  flush latin ordered =
      if ltb (length latin) min_token_runes || one_of stopwords (u.utf8 latin)
      then (ordered, true)
      else add_token (u.utf8 latin) ordered

  -- The ideograph and the next one, if an ideograph follows.
  abbrev pub bigram : ℕ → List ℕ → List ℕ
  bigram r [] = r ∷ []
  bigram r (next ∷ rs) = if is_ideograph next then r ∷ next ∷ [] else r ∷ []

  -- addIdeographBigrams; `latin` is the run before the runes that are left.
  unfoldable pub add_ideograph_bigrams : List ℕ → List ℕ → List Text → List Text × Bool
  add_ideograph_bigrams latin [] ordered = flush latin ordered
  add_ideograph_bigrams latin (r ∷ rs) ordered = elim (is_ideograph r) [
    | false ↦ add_ideograph_bigrams (latin ++ r ∷ []) rs ordered
    | true ↦
        let (flushed, room) = flush latin ordered in
        elim room [
          | false ↦ (flushed, false)
          | true ↦
              let (added, more) = add_token (u.utf8 (bigram r rs)) flushed in
              elim more [ false ↦ (added, false) | true ↦ add_ideograph_bigrams [] rs added ]
        ]
  ]

  -- The body of tokenize's loop, for one field.
  unfoldable pub add_field : List ℕ → List Text → List Text × Bool
  add_field field ordered =
      if contains_ideograph field
      then add_ideograph_bigrams [] field ordered
      else if ltb (length field) min_token_runes || one_of stopwords (u.utf8 field)
      then (ordered, true)
      else add_token (u.utf8 field) ordered

  -- tokenize's loop; it stops when there is no more room.
  unfoldable pub add_fields : List (List ℕ) → List Text → List Text
  add_fields [] ordered = ordered
  add_fields (field ∷ fields) ordered =
      let (added, room) = add_field field ordered in
      elim room [ false ↦ added | true ↦ add_fields fields added ]

  -- tokenize, which ExtractKeywords calls.
  unfoldable pub tokenize : Text → List Text
  tokenize text =
      let normalized = u.lower (normalize_text text) in
      if is_empty normalized
      then []
      else sort_by text_lt (add_fields (fields_by is_separator (u.runes normalized)) [])
