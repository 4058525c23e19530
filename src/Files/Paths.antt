-- ===== src/Files/Paths.antt =====
-- Plain names, and joining them to a path.
use mathlib.Core.List.{reverse, reverse-cons, reverse-reverse, append-nil, append_assoc}
use qemu_agent.Common.{
  List, [], ◌∷◌, ◌++◌, ◌≡◌, refl, sym, ◌∙◌, Bool, true, ◌||◌, not, All, All-append, arith, ◌==◌,
  all, ap,
}
use qemu_agent.Text.{Text, codes, is_empty, text_eq}
use qemu_agent.Files.{FilePath, split_slash, split_all, cleaned, clean_from, clean, join}

abbrev pub has_no_slash : Text → Bool
has_no_slash = all (λ c. not (c == b'/'))

-- Not empty, and none of the two elements that Clean resolves.
abbrev pub is_ordinary : Text → Bool
is_ordinary s = not (is_empty s || (text_eq s (codes ".") || text_eq s (codes "..")))

-- A text that is one element of a path.
abbrev pub IsPlain : Text → Type 0
IsPlain s = (has_no_slash s ≡ true) × (is_ordinary s ≡ true)

abbrev pub IsOrdinary : Text → Type 0
IsOrdinary s = is_ordinary s ≡ true

pub split_slash_plain : (s : Text) → has_no_slash s ≡ true → split_slash s ≡ s ∷ []
unfolding split_slash
split_slash_plain [] h = refl
split_slash_plain (c ∷ s) h = rw (split_slash_plain s (ground arith), split_slash) (ground arith)

clean_from_ordinary :
    (done parts : FilePath) → All IsOrdinary parts → clean_from done parts ≡ reverse done ++ parts
unfolding clean_from
clean_from_ordinary done [] h = sym (append-nil (reverse done))
clean_from_ordinary done (p ∷ parts) h =
    let kept : cleaned done p ≡ p ∷ done = ground arith in
    rw kept (
      clean_from_ordinary (p ∷ done) parts h.1
      ∙ (rw (reverse-cons p done) (append_assoc (reverse done) (p ∷ []) parts)))

split_all_plain : (parts : List Text) → All IsPlain parts → split_all parts ≡ parts
unfolding split_all
split_all_plain [] h = refl
split_all_plain (p ∷ parts) h = rw (split_slash_plain p h.0.0, split_all_plain parts h.1)

pub Plain-Ordinary : (parts : List Text) → All IsPlain parts → All IsOrdinary parts
Plain-Ordinary [] h = tt
Plain-Ordinary (p ∷ parts) h = (h.0.1, Plain-Ordinary parts h.1)

pub join_plain :
    (base : FilePath) (parts : List Text)
    → All IsOrdinary base
    → All IsPlain parts
    → join base parts ≡ base ++ parts
join_plain base parts hb hp = rw (split_all_plain parts hp) (
    clean_from_ordinary [] (base ++ parts)
      (All-append IsOrdinary base parts hb (Plain-Ordinary parts hp)))

clean_from-append :
    (done parts names : List Text)
    → All IsOrdinary names
    → clean_from done (parts ++ names) ≡ clean_from done parts ++ names
unfolding clean_from
clean_from-append done [] names h = clean_from_ordinary done names h
clean_from-append done (p ∷ parts) names h = clean_from-append (cleaned done p) parts names h

-- The same below a path that is not clean.
pub join_below :
    (base names : List Text) → All IsPlain names → join base names ≡ clean base ++ names
join_below base names h =
    rw (split_all_plain names h) (clean_from-append [] base names (Plain-Ordinary names h))

clean_from-prefix :
    (done base parts : List Text)
    → All IsOrdinary base
    → clean_from done (base ++ parts) ≡ clean_from (reverse base ++ done) parts
unfolding clean_from
clean_from-prefix done [] parts h = refl
clean_from-prefix done (b ∷ base) parts h =
    let kept : cleaned done b ≡ b ∷ done = ground arith in
    let turned : reverse (b ∷ base) ++ done ≡ reverse base ++ (b ∷ done) =
      rw (reverse-cons b base) (append_assoc (reverse base) (b ∷ []) done) in
    ap (λ d. clean_from d (base ++ parts)) kept
    ∙ (clean_from-prefix (b ∷ done) base parts h.1 ∙ ap (λ d. clean_from d parts) (sym turned))

pub clean_ordinary : (p : FilePath) → All IsOrdinary p → clean p ≡ p
clean_ordinary p h = clean_from_ordinary [] p h

abbrev parent : Text
parent = b'.' ∷ b'.' ∷ []

split_parent :
    (above below name : Text)
    → IsPlain above
    → IsPlain below
    → IsPlain name
    → split_all (above ∷ below ∷ (b'.' ∷ b'.' ∷ b'/' ∷ name) ∷ [])
      ≡ above ∷ below ∷ parent ∷ name ∷ []
unfolding split_all split_slash
split_parent above below name a b n = rw (
  split_slash_plain above a.0,
  split_slash_plain below b.0,
  split_slash_plain name n.0,
  split_slash,
)

clean_parent :
    (done : FilePath) (above below name : Text)
    → IsPlain above
    → IsPlain below
    → IsPlain name
    → clean_from done (above ∷ below ∷ parent ∷ name ∷ []) ≡ reverse (name ∷ above ∷ done)
unfolding clean_from
clean_parent done above below name a b n =
    let first : cleaned done above ≡ above ∷ done = ground arith in
    let second : cleaned (above ∷ done) below ≡ below ∷ above ∷ done = ground arith in
    let third : cleaned (below ∷ above ∷ done) parent ≡ above ∷ done = ground arith in
    let fourth : cleaned (above ∷ done) name ≡ name ∷ above ∷ done = ground arith in
    ap (λ d. reverse (cleaned (cleaned (cleaned d below) parent) name)) first
    ∙ (ap (λ d. reverse (cleaned (cleaned d parent) name)) second
        ∙ (ap (λ d. reverse (cleaned d name)) third ∙ ap reverse fourth))

-- A last name that begins with `../` leaves the directory above it.
pub join_parent :
    (base : FilePath) (above below name : Text)
    → All IsOrdinary base
    → IsPlain above
    → IsPlain below
    → IsPlain name
    → join base (above ∷ below ∷ (b'.' ∷ b'.' ∷ b'/' ∷ name) ∷ []) ≡ base ++ (above ∷ name ∷ [])
join_parent base above below name h a b n = rw (split_parent above below name a b n) (
    clean_from-prefix [] base (above ∷ below ∷ parent ∷ name ∷ []) h
    ∙ (clean_parent (reverse base ++ []) above below name a b n
        ∙ simp (reverse-cons, append-nil, reverse-reverse, append_assoc)))
