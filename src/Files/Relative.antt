-- ===== src/Files/Relative.antt =====
-- What a relative path that is its own clean form consists of.
use mathlib.Core.List.{reverse, reverse-cons, reverse-append}
use qemu_agent.Common.{
  List, [], ◌∷◌, ◌++◌, ◌≡◌, ◌≢◌, refl, sym, ◌∙◌, ap, subst, inl, inr, ◌⊎◌, true, false, ◌||◌, ◌==◌,
  All, All-append, arith, Bool-cases,
}
use qemu_agent.Text.{Text, codes, text_eq, is_empty, has_prefix}
use qemu_agent.Files.{
  FilePath, split_slash, join_slash, clean_relative, clean_relative_from, cleaned_relative, climbed,
}
use qemu_agent.Files.Paths.{has_no_slash, IsPlain, IsOrdinary, split_slash_plain}

abbrev HasNoSlash : Text → Type 0
HasNoSlash s = has_no_slash s ≡ true

split_slash-cons : (s : Text) → (w : Text) × (ws : List Text) × (split_slash s ≡ w ∷ ws)
unfolding split_slash
split_slash-cons [] = ([], [], refl)
split_slash-cons (c ∷ s) =
    let (w, ws, e) = split_slash-cons s in
    elim (Bool-cases (c == b'/')) [
      | inl slash ↦ ([], w ∷ ws, rw (e, slash) refl)
      | inr plain ↦ (c ∷ w, ws, rw (e, plain) refl)
    ]

split_slash-HasNoSlash : (s : Text) → All HasNoSlash (split_slash s)
unfolding split_slash
split_slash-HasNoSlash [] = (refl, tt)
split_slash-HasNoSlash (c ∷ s) =
    let (w, ws, e) = split_slash-cons s in
    let (first, rest) : All HasNoSlash (w ∷ ws) =
      subst (All HasNoSlash) e (split_slash-HasNoSlash s) in
    elim (Bool-cases (c == b'/')) [
      | inl slash ↦ rw (e, slash) (refl, (first, rest))
      | inr plain ↦ rw (e, plain) (ground arith, rest)
    ]

split_slash-append :
    (part s : Text) → HasNoSlash part → split_slash (part ++ (b'/' ∷ s)) ≡ part ∷ split_slash s
unfolding split_slash
split_slash-append [] s h = let (w, ws, e) = split_slash-cons s in rw e refl
split_slash-append (c ∷ part) s h =
    let next = split_slash-append part s (ground arith) in rw (next, split_slash) (ground arith)

split_slash-join_slash :
    (part : Text) (parts : List Text)
    → All HasNoSlash (part ∷ parts)
    → split_slash (join_slash (part ∷ parts)) ≡ part ∷ parts
unfolding join_slash
split_slash-join_slash part [] h = split_slash_plain part h.0
split_slash-join_slash part (next ∷ parts) h =
    split_slash-append part (join_slash (next ∷ parts)) h.0
    ∙ ap (λ l. part ∷ l) (split_slash-join_slash next parts h.1)

-- The elements so far, the last one first: none of them goes up, or the first of them does.
abbrev IsCleaned : FilePath → Type 0
IsCleaned done = All IsOrdinary done ⊎ ((above : FilePath) × (done ≡ above ++ (codes ".." ∷ [])))

climbed-IsCleaned : (done : FilePath) → IsCleaned done → IsCleaned (climbed done)
climbed-IsCleaned [] h = inr ([], refl)
climbed-IsCleaned (last ∷ above) (inl h) = inl (ground arith)
climbed-IsCleaned (last ∷ above) (inr ([], e)) =
    let stays : climbed (last ∷ above) ≡ codes ".." ∷ last ∷ above = ground arith in
    inr (codes ".." ∷ [], stays ∙ ap (λ l. codes ".." ∷ l) e)
climbed-IsCleaned (last ∷ above) (inr (x ∷ xs, e)) = elim (Bool-cases (text_eq last (codes ".."))) [
  | inl goes_up ↦ inr (codes ".." ∷ x ∷ xs, rw goes_up (ap (λ l. codes ".." ∷ l) e))
  | inr named ↦ inr (xs, rw named (ground arith))
]

cleaned_relative-IsCleaned :
    (done : FilePath) (part : Text) → IsCleaned done → IsCleaned (cleaned_relative done part)
cleaned_relative-IsCleaned done part h =
    elim (Bool-cases (is_empty part || text_eq part (codes "."))) [
      | inl skipped ↦ rw skipped h
      | inr kept ↦ elim (Bool-cases (text_eq part (codes ".."))) [
        | inl goes_up ↦ rw (kept, goes_up) (climbed-IsCleaned done h)
        | inr named ↦
            rw (kept, named)
              (elim h [
                | inl ordinary ↦ inl (ground arith, ordinary)
                | inr (above, e) ↦ inr (part ∷ above, ap (λ l. part ∷ l) e)
              ])
      ]
    ]

cleaned_relative-HasNoSlash :
    (done : FilePath) (part : Text)
    → All HasNoSlash done
    → HasNoSlash part
    → All HasNoSlash (cleaned_relative done part)
cleaned_relative-HasNoSlash [] part h k = ground arith
cleaned_relative-HasNoSlash (last ∷ above) part h k = ground arith

module _ {ℓ} (P : Text → Type ℓ) where
  All-reverse : (xs : List Text) → All P xs → All P (reverse xs)
  All-reverse [] h = tt
  All-reverse (x ∷ xs) h =
      subst (All P) (sym (reverse-cons x xs))
        (All-append P (reverse xs) (x ∷ []) (All-reverse xs h.1) (h.0, tt))

clean_relative_from-IsCleaned :
    (done parts : FilePath)
    → IsCleaned done
    → (end : FilePath) × (clean_relative_from done parts ≡ reverse end) × IsCleaned end
unfolding clean_relative_from
clean_relative_from-IsCleaned done [] h = (done, refl, h)
clean_relative_from-IsCleaned done (part ∷ parts) h =
    clean_relative_from-IsCleaned (cleaned_relative done part) parts
      (cleaned_relative-IsCleaned done part h)

clean_relative_from-HasNoSlash :
    (done parts : FilePath)
    → All HasNoSlash done
    → All HasNoSlash parts
    → All HasNoSlash (clean_relative_from done parts)
unfolding clean_relative_from
clean_relative_from-HasNoSlash done [] h k = All-reverse HasNoSlash done h
clean_relative_from-HasNoSlash done (part ∷ parts) h k =
    clean_relative_from-HasNoSlash (cleaned_relative done part) parts
      (cleaned_relative-HasNoSlash done part h k.0) k.1

All-IsPlain : (parts : FilePath) → All IsOrdinary parts → All HasNoSlash parts → All IsPlain parts
All-IsPlain [] h k = tt
All-IsPlain (p ∷ parts) h k = ((k.0, h.0), All-IsPlain parts h.1 k.1)

List-cases : (xs : FilePath) → (xs ≡ []) ⊎ ((y : Text) × (ys : FilePath) × (xs ≡ y ∷ ys))
List-cases [] = inl refl
List-cases (y ∷ ys) = inr (y, ys, refl)

join_slash-parent :
    (parts : FilePath)
    → (join_slash (codes ".." ∷ parts) ≡ codes "..")
      ⊎ (has_prefix (join_slash (codes ".." ∷ parts)) (codes "../") ≡ true)
unfolding join_slash has_prefix
join_slash-parent [] = inl refl
join_slash-parent (next ∷ parts) = inr (ground arith)

cleaned-IsOrdinary :
    (end : FilePath) (s p : Text) (ps : FilePath)
    → IsCleaned end
    → reverse end ≡ p ∷ ps
    → s ≡ join_slash (p ∷ ps)
    → s ≢ codes ".."
    → has_prefix s (codes "../") ≡ false
    → All IsOrdinary (p ∷ ps)
cleaned-IsOrdinary end s p ps (inl h) e same not_up below =
    subst (All IsOrdinary) e (All-reverse IsOrdinary end h)
cleaned-IsOrdinary end s p ps (inr (above, h)) e same not_up below =
    let turned : codes ".." ∷ reverse above ≡ p ∷ ps =
      sym (reverse-append above (codes ".." ∷ [])) ∙ (ap reverse (sym h) ∙ e) in
    let whole : s ≡ join_slash (codes ".." ∷ reverse above) = same ∙ ap join_slash (sym turned) in
    absurd (elim (join_slash-parent (reverse above)) [
      | inl up ↦ not_up (whole ∙ up)
      | inr prefix ↦ ground arith
    ])

-- A relative path that is its own clean form, and is neither `.` nor goes up, is plain names joined by
-- slashes.
pub clean_relative-IsPlain :
    (s : Text)
    → s ≡ clean_relative s
    → s ≢ codes "."
    → s ≢ codes ".."
    → has_prefix s (codes "../") ≡ false
    → All IsPlain (split_slash s)
unfolding clean_relative
clean_relative-IsPlain s clean named not_up below =
    let (end, turned, shape) = clean_relative_from-IsCleaned [] (split_slash s) (inl tt) in
    let no_slash =
      clean_relative_from-HasNoSlash [] (split_slash s) tt (split_slash-HasNoSlash s) in
    elim (List-cases (clean_relative_from [] (split_slash s))) [
      | inl empty ↦ absurd (named (clean ∙ (rw (empty, clean_relative) refl)))
      | inr (p, ps, parts) ↦
          let same : s ≡ join_slash (p ∷ ps) = clean ∙ (rw (parts, clean_relative) refl) in
          let plain = subst (All HasNoSlash) parts no_slash in
          let split : split_slash s ≡ p ∷ ps =
            ap split_slash same ∙ split_slash-join_slash p ps plain in
          let ordinary =
            cleaned-IsOrdinary end s p ps shape (sym turned ∙ parts) same not_up below in
          subst (All IsPlain) (sym split) (All-IsPlain (p ∷ ps) ordinary plain)
    ]
