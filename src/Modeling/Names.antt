-- ===== src/Modeling/Names.antt =====
-- The textual gates of internal/modeling/type.go: stages, kinds, categories, artifact names,
-- digests and project ids.
pub mod Category
pub mod Plain
use qemu_agent.Common.{
  ℕ, [], ◌∷◌, Bool, false, ◌||◌, ◌&&◌, not, if◌then◌else◌, leb, ◌==◌, length, take, all, Result, ok,
  err, ◌>>=◌, ◌>>◌, guard, refuse,
}
use qemu_agent.Text.{
  Text, codes, is_empty, is_upper, is_lower, is_digit, lower_byte, trim_space, to_lower, has_prefix,
  contains, matches_word,
}
use qemu_agent.Modeling.Types.{
  Stage, Kind, stage_of, kind_of, kind_text, is_known, ArtifactRef, is_negative, Error, plain,
  wraps, invalid_stage, invalid_kind, unknown_stage, empty_name, path_in_name, not_plain_name,
  bad_digest, bad_address, negative_size, no_creation, err_not_found,
}

-- ParseStage
unfoldable pub parse_stage : Text → Result Error Stage
parse_stage raw =
    let candidate = stage_of (to_lower (trim_space raw)) in
    if is_known candidate then ok candidate else err (plain invalid_stage)

-- The cases of ParseKind's switch.
abbrev pub declared_kind : Kind → Result Error Kind
declared_kind (Kind.other t) = err (plain invalid_kind)
declared_kind k = ok k

-- ParseKind
unfoldable pub parse_kind : Text → Result Error Kind
parse_kind raw = declared_kind (kind_of (to_lower (trim_space raw)))

abbrev pub is_category_byte : ℕ → Bool
is_category_byte c = is_lower c || is_digit c || c == b'_'

-- The loop of shortCategory: it stops at the first byte that is not part of a token.
unfoldable pub category_token : Text → Text
category_token [] = []
category_token (c ∷ s) =
    if is_category_byte c
    then c ∷ category_token s
    else if is_upper c
    then lower_byte c ∷ category_token s
    else []

abbrev pub max_category_len : ℕ
max_category_len = 32

-- capCategory
abbrev pub cap_category : Text → Text
cap_category value = take max_category_len value

-- shortCategory
unfoldable pub short_category : Text → Text
unfolding category_token
short_category raw =
    let trimmed = trim_space raw in
    if is_empty trimmed then [] else cap_category (category_token trimmed)

abbrev pub is_alnum : ℕ → Bool
is_alnum c = is_upper c || is_lower c || is_digit c

abbrev pub is_name_byte : ℕ → Bool
is_name_byte c = is_alnum c || c == b'.' || c == b'_' || c == b'-'

-- namePattern
unfoldable pub matches_name : Text → Bool
matches_name s = matches_word is_alnum is_name_byte s && leb (length s) 64

abbrev pub is_hex : ℕ → Bool
is_hex c = is_digit c || (leb b'a' c && leb c b'f')

-- digestPattern
unfoldable pub matches_digest : Text → Bool
matches_digest s = all is_hex s && length s == 64

-- idPattern
unfoldable pub matches_id : Text → Bool
matches_id (m ∷ p ∷ d ∷ s) = m == b'm' && p == b'p' && d == b'-' && all is_hex s && length s == 16
matches_id s = false

-- `strings.ContainsAny(name, "/\\")`
abbrev pub has_separator : Text → Bool
has_separator s = not (all (λ c. not (c == 47 || c == 92)) s)

-- validateName
unfoldable pub validate_name : Text → Result Error (Unit {0})
validate_name name = do
  let trimmed = trim_space name
  refuse (is_empty trimmed) (plain empty_name)
  refuse (has_separator trimmed || contains trimmed (codes "..")) (plain path_in_name)
  guard (matches_name trimmed) (plain not_plain_name)

-- ValidateProjectID
unfoldable pub validate_project_id : Text → Result Error (Unit {0})
validate_project_id id = guard (matches_id (trim_space id)) (wraps (err_not_found ∷ []))

-- validateRef
unfoldable pub validate_ref : ArtifactRef → Result Error (Unit {0})
validate_ref ref = do
  validate_name ref.name
  guard (is_known ref.stage) (plain unknown_stage)
  _ ← parse_kind (kind_text ref.kind)
  guard (matches_digest ref.digest) (plain bad_digest)
  refuse (not (has_prefix ref.digest ref.id) || not (length ref.id == 16)) (plain bad_address)
  refuse (is_negative ref.bytes) (plain negative_size)
  refuse (ref.created == 0) (plain no_creation)
