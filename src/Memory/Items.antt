-- ===== src/Memory/Items.antt =====
-- What an item passes before it is stored: Fingerprint of internal/memory/fingerprint.go,
-- DefaultSanitizer of sanitizer.go and normalizeMemory of normalize.go. The regular expressions
-- are tests on texts; the store takes any sanitizer, as the interface does.
use qemu_agent.Common.{
  ℕ, List, [], ◌∷◌, ◌++◌, ◌≡◌, Bool, false, ◌&&◌, ◌||◌, if◌then◌else◌, ltb, ◌==◌, length, Result,
  ok, err, ◌>>=◌, ◌>>◌, refuse,
}
use qemu_agent.Text.{Text, codes, is_empty}
use qemu_agent.Memory.{
  Kind, Scope, Memory, MemoryError, SanitizerError, no_content, sensitive_content, prompt_control,
  content_too_long, unsafe_content, too_many_bytes, no_terms, parse_kind, validate_scope,
}
use qemu_agent.Memory.Words.{Unicode, normalize_text, tokenize}

abbrev pub Sanitizer : Type 0
Sanitizer = Text → Result SanitizerError Text

-- DefaultSanitizer, with promptControlPatterns.
pub record DefaultSanitizer : Type 0 where
  pub max_bytes : ℕ
  pub patterns : List (Text → Bool)
  pub control_patterns : List (Text → Bool)

abbrev pub any_matches : List (Text → Bool) → Text → Bool
any_matches [] value = false
any_matches (pattern ∷ patterns) value = pattern value || any_matches patterns value

abbrev pub check_content : Sanitizer → Text → Result MemoryError Text
check_content sanitizer raw = elim (sanitizer raw) [
  | err e ↦ err (unsafe_content e)
  | ok content ↦ ok content
]

abbrev pub or_unspecified : Text → Text
or_unspecified source = if is_empty source then codes "unspecified" else source

-- The two items have passed the gate alike; what it does not read may differ.
abbrev pub SameBody : Memory → Memory → Type 0
SameBody given made =
    (made.kind ≡ given.kind)
    × (made.scope ≡ given.scope)
    × (made.content ≡ given.content)
    × (made.keywords ≡ given.keywords)
    × (made.fingerprint ≡ given.fingerprint)

module _ (u : Unicode) where
  -- Sanitize, of a configured sanitizer.
  unfoldable pub sanitize : DefaultSanitizer → Sanitizer
  sanitize s raw = do
    let value = normalize_text u raw
    refuse (is_empty value) no_content
    refuse (ltb s.max_bytes (length value)) content_too_long
    refuse (any_matches s.patterns value) sensitive_content
    refuse (any_matches s.control_patterns value) prompt_control
    ok value

  -- The text that Fingerprint hashes.
  unfoldable pub canonical : Scope → Kind → Text → Text
  canonical scope kind content =
      scope.workspace_id
      ++ 0 ∷ scope.user_id
      ++ 0 ∷ scope.visibility
      ++ 0 ∷ kind
      ++ 0 ∷ u.lower (normalize_text u content)

  -- Fingerprint
  unfoldable pub fingerprint : Scope → Kind → Text → Text
  fingerprint scope kind content = u.digest (canonical scope kind content)

  -- The fields that normalizeMemory sets.
  unfoldable pub normalized : Memory → Text → ℕ → Memory
  normalized item content now = record item {
    content = content;
    source = or_unspecified (normalize_text u item.source);
    keywords = tokenize u content;
    fingerprint = fingerprint item.scope item.kind content;
    created_at = if item.created_at == 0 then now else item.created_at;
    updated_at = now;
  }

  -- normalizeMemory
  unfoldable pub normalize_memory : Sanitizer → ℕ → ℕ → Memory → Result MemoryError Memory
  normalize_memory sanitizer max_bytes now item = do
    kind ← parse_kind item.kind
    validate_scope item.scope
    content ← check_content sanitizer item.content
    refuse (ltb 0 max_bytes && ltb max_bytes (length content)) too_many_bytes
    refuse (length (tokenize u content) == 0) no_terms
    ok (normalized item content now)
