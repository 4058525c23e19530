-- ===== src/Memory/Vetted.antt =====
-- What the gate of normalizeMemory makes of an item, whatever the sanitizer.
use qemu_agent.Common.{
  ℕ, zero, suc, ◌≡◌, refl, sym, subst, ◌≤◌, ◌≢◌, ◌⊎◌, inl, inr, [], false, ltb, length, arith, ok,
  Result-cases, ◌&&◌,
}
use qemu_agent.Text.{Text}
use qemu_agent.Memory.{Kind, Memory, parse_kind, validate_scope}
use qemu_agent.Memory.Words.{Unicode, tokenize}
use qemu_agent.Memory.Items.{Sanitizer, SameBody, fingerprint, normalized, normalize_memory}

-- An item that passed the gate: its kind and scope are accepted, its content is what the sanitizer
-- made of some text and within the limit, it has terms, and its keywords and its fingerprint are
-- those of its content.
pub record IsVetted (u : Unicode) (sanitizer : Sanitizer) (max_bytes : ℕ) (item : Memory)
    : Type 0 where
  pub kind_accepted : (kind : Kind) × (parse_kind item.kind ≡ ok kind)
  pub scope_accepted : validate_scope item.scope ≡ ok tt
  pub sanitized : (raw : Text) × (sanitizer raw ≡ ok item.content)
  pub limited : (max_bytes ≡ 0) ⊎ (length item.content ≤ max_bytes)
  pub indexable : item.keywords ≢ []
  pub indexed : item.keywords ≡ tokenize u item.content
  pub hashed : item.fingerprint ≡ fingerprint u item.scope item.kind item.content

limit_test :
    (limit size : ℕ) → (ltb 0 limit && ltb limit size) ≡ false → (limit ≡ 0) ⊎ (size ≤ limit)
limit_test zero size h = inl refl
limit_test (suc n) size h = inr (ground arith)

module _ (u : Unicode) (sanitizer : Sanitizer) (max_bytes : ℕ) where
  pub normalize_memory-IsVetted :
      (now : ℕ) (item made : Memory)
      → normalize_memory u sanitizer max_bytes now item ≡ ok made
      → IsVetted u sanitizer max_bytes made
        × ((content : Text) × (made ≡ normalized u item content now))
  unfolding normalize_memory normalized
  normalize_memory-IsVetted now item made h = elim (Result-cases (parse_kind item.kind)) [
    | inr (e, bad) ↦ absurd (ground arith)
    | inl (kind, known) ↦ elim (Result-cases (sanitizer item.content)) [
      | inr (e, bad) ↦ absurd (ground arith)
      | inl (content, clean) ↦
          let same : made ≡ normalized u item content now = ground arith in
          (
            subst (IsVetted u sanitizer max_bytes) (sym same) (record {
              kind_accepted = (kind, known);
              scope_accepted = ground arith;
              sanitized = (item.content, clean);
              limited = limit_test max_bytes (length content) (ground arith);
              indexable = λ empty. absurd (ground arith);
              indexed = refl;
              hashed = refl;
            }),
            (content, same),
          )
    ]
  ]

  -- The gate reads neither the id nor the times nor the counter.
  pub SameBody-IsVetted :
      (item other : Memory)
      → IsVetted u sanitizer max_bytes item
      → SameBody item other
      → IsVetted u sanitizer max_bytes other
  SameBody-IsVetted item other h (kind, scope, content, keywords, hash) = record {
    kind_accepted = (h.kind_accepted.0, rw kind h.kind_accepted.1);
    scope_accepted = rw scope h.scope_accepted;
    sanitized = (h.sanitized.0, rw content h.sanitized.1);
    limited = rw content h.limited;
    indexable = rw keywords h.indexable;
    indexed = ground (arith, h.indexed);
    hashed = ground (arith, h.hashed);
  }
