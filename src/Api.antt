-- ===== src/Api.antt =====
-- The contract of internal/modelingapi: the fields and their checks, validate.go, and the parsers of
-- identifiers and the checks of requests, request.go, context.go. The number of runes of a text,
-- package utf8, is an argument.
pub mod Views
pub mod Requests
use qemu_agent.Common.{
  ℕ, List, [], ◌∷◌, ◌++◌, Bool, true, false, ◌&&◌, ◌||◌, not, if◌then◌else◌, ltb, leb, ◌==◌, length,
  all, drop, Result, ok, err, ◌>>=◌, ◌>>◌, guard, refuse,
}
use qemu_agent.Text.{
  Text, codes, text_eq, is_empty, trim_space, has_prefix, contains, is_lower, is_digit,
}
use qemu_agent.Files.{clean_relative}
use qemu_agent.Modeling.Types.{ℤ, is_negative}
use qemu_agent.Modeling.Ints.{lt_int}

-- The errors of a check: all are ErrorInvalidInput, with a text.
pub data ApiError : Type 0 where
  missing_field : Text → ApiError
  invalid_input : Text → ApiError
  control_char : ApiError
  too_long : ApiError

abbrev pub max_title_runes : ℕ
max_title_runes = 120

abbrev pub max_instruction_bytes : ℕ
max_instruction_bytes = 8192

abbrev pub max_sources : ℕ
max_sources = 16

abbrev pub max_source_value_bytes : ℕ
max_source_value_bytes = 1024

abbrev pub max_summary_bytes : ℕ
max_summary_bytes = 4096

abbrev pub max_page_size : ℕ
max_page_size = 100

abbrev pub max_operation_name_bytes : ℕ
max_operation_name_bytes = 64

abbrev pub max_id_bytes : ℕ
max_id_bytes = 128

-- hasControlChar: the control characters are below U+0020 and from U+007F to U+009F.
unfoldable pub has_control_char : Text → Bool
has_control_char [] = false
has_control_char (c ∷ []) = ltb c 32 || c == 127
has_control_char (c ∷ d ∷ s) =
    (ltb c 32 || c == 127 || (c == 0xC2 && leb 0x80 d && leb d 0x9F)) || has_control_char (d ∷ s)

-- `hasControlChar(s) || len(s) > max`
abbrev pub is_unbounded : ℕ → Text → Bool
is_unbounded max s = has_control_char s || ltb max (length s)

-- isLowerHex
abbrev pub is_hex_byte : ℕ → Bool
is_hex_byte c = is_digit c || (leb b'a' c && leb c b'f')

unfoldable pub is_lower_hex : Text → ℕ → Bool
is_lower_hex value size = length value == size && all is_hex_byte value

-- ParseProjectID
unfoldable pub parse_project_id : Text → Result ApiError Text
parse_project_id s = do
  let t = trim_space s
  refuse (is_empty t) (missing_field (codes "project_id"))
  guard (has_prefix t (codes "mp-")) (invalid_input (codes "project id must start with mp-"))
  guard (length (drop 3 t) == 16) (invalid_input (codes "project id must be mp-<16hex>"))
  guard (all is_hex_byte (drop 3 t)) (invalid_input (codes "project id must be lowercase hex"))
  ok t

-- ParseArtifactID
unfoldable pub parse_artifact_id : Text → Result ApiError Text
parse_artifact_id s = do
  let t = trim_space s
  refuse (is_empty t) (missing_field (codes "artifact_id"))
  guard (length t == 16) (invalid_input (codes "artifact id must be 16 hex"))
  guard (all is_hex_byte t) (invalid_input (codes "artifact id must be lowercase hex"))
  ok t

abbrev is_operation_byte : ℕ → Bool
is_operation_byte c = is_lower c || is_digit c || c == b'.' || c == b'_' || c == b'-'

-- ValidateOperationName
unfoldable pub validate_operation_name : Text → Result ApiError (Unit {0})
validate_operation_name [] = ok tt
validate_operation_name (c ∷ s) = do
  refuse (ltb max_operation_name_bytes (length (c ∷ s))) too_long
  guard (is_lower c) (invalid_input (codes "operation must start with [a-z]"))
  guard (all is_operation_byte s) (invalid_input (codes "operation contains invalid char"))

-- ValidateInstruction
abbrev pub validate_instruction : Text → Result ApiError (Unit {0})
validate_instruction instruction = refuse (ltb max_instruction_bytes (length instruction)) too_long

-- validateRelativePath
unfoldable pub validate_relative_path : Text → Result ApiError (Unit {0})
validate_relative_path value = do
  refuse (is_empty value || not (text_eq (trim_space value) value))
      (invalid_input (codes "path must be canonical"))
  refuse
      (contains value (b'\\' ∷ [])
        || has_prefix value (codes "/")
        || not (text_eq (clean_relative value) value)
        || text_eq value (codes "..")
        || has_prefix value (codes "../"))
      (invalid_input (codes "path must be a canonical relative path"))

pub record SourceRef : Type 0 where
  pub kind : Text
  pub value : Text
  pub digest : Text

-- The key by which ValidateSources finds duplicates.
abbrev pub source_key : SourceRef → Text
source_key s = s.kind ++ b'|' ∷ s.value

abbrev pub has_key : Text → List Text → Bool
has_key key [] = false
has_key key (k ∷ seen) = text_eq k key || has_key key seen

-- The checks of one source.
unfoldable pub check_source : SourceRef → Result ApiError (Unit {0})
check_source s = do
  refuse (is_empty s.kind) (missing_field (codes "source.kind"))
  refuse (ltb max_source_value_bytes (length s.kind)) too_long
  refuse (is_empty s.value) (missing_field (codes "source.value"))
  refuse (ltb max_source_value_bytes (length s.value)) too_long
  refuse (has_control_char s.kind || has_control_char s.value) control_char
  refuse (not (is_empty s.digest) && not (is_lower_hex s.digest 64))
      (invalid_input (codes "source digest must be sha256 hex"))
  if text_eq s.kind (codes "workspace_path") then validate_relative_path s.value else ok tt

-- The loop of ValidateSources, with the keys seen so far.
unfoldable pub check_sources : List Text → List SourceRef → Result ApiError (Unit {0})
check_sources seen [] = ok tt
check_sources seen (s ∷ sources) = do
  check_source s
  refuse (has_key (source_key s) seen) (invalid_input (codes "duplicate source"))
  check_sources (source_key s ∷ seen) sources

-- ValidateSources
unfoldable pub validate_sources : List SourceRef → Result ApiError (Unit {0})
validate_sources sources = do
  refuse (ltb max_sources (length sources)) too_long
  check_sources [] sources

-- ValidatePageSize
abbrev pub validate_page_size : ℤ → Result ApiError (Unit {0})
validate_page_size limit = do
  refuse (is_negative limit) (invalid_input (codes "negative page size"))
  refuse (lt_int (ℤ.pos max_page_size) limit) too_long

-- ValidateSummary
abbrev pub validate_summary : Text → Result ApiError (Unit {0})
validate_summary summary = do
  refuse (ltb max_summary_bytes (length summary)) too_long
  refuse (has_control_char summary) control_char

pub record CallContext : Type 0 where
  pub request_id : Text
  pub trace_id : Text
  pub workspace_id : Text
  pub user_id : Text
  pub session_id : Text
  pub session_key : Text
  pub channel : Text
  pub interactive : Bool
  pub idempotency_key : Text

abbrev pub is_canonical : Text → Bool
is_canonical s = text_eq (trim_space s) s

-- CallContext.Validate; the kind is ReadOnly or Mutating.
unfoldable pub validate_call : CallContext → Bool → Result ApiError (Unit {0})
validate_call c mutating = do
  refuse (is_empty (trim_space c.request_id)) (missing_field (codes "request_id"))
  refuse (is_empty (trim_space c.trace_id)) (missing_field (codes "trace_id"))
  refuse (is_empty (trim_space c.workspace_id)) (missing_field (codes "workspace_id"))
  refuse (is_empty (trim_space c.channel)) (missing_field (codes "channel"))
  refuse
      (has_control_char c.request_id
        || has_control_char c.trace_id
        || has_control_char c.workspace_id
        || has_control_char c.channel
        || has_control_char c.user_id
        || has_control_char c.session_id
        || has_control_char c.session_key
        || has_control_char c.idempotency_key)
      control_char
  refuse
      (ltb max_id_bytes (length c.request_id)
        || ltb max_id_bytes (length c.trace_id)
        || ltb max_id_bytes (length c.workspace_id)
        || ltb max_id_bytes (length c.user_id)
        || ltb max_id_bytes (length c.session_id)
        || ltb max_id_bytes (length c.session_key)
        || ltb max_id_bytes (length c.channel)
        || ltb max_id_bytes (length c.idempotency_key))
      too_long
  refuse (mutating && is_empty (trim_space c.idempotency_key))
      (missing_field (codes "idempotency_key"))
  guard
      (is_canonical c.user_id
        && is_canonical c.session_id
        && is_canonical c.session_key
        && is_canonical c.idempotency_key)
      (invalid_input (codes "identifiers must be canonical"))
  guard
      (is_canonical c.request_id
        && is_canonical c.trace_id
        && is_canonical c.workspace_id
        && is_canonical c.channel)
      (invalid_input (codes "identifiers must be canonical"))

module _ (rune_count : Text → ℕ) where
  -- ValidateTitle
  unfoldable pub validate_title : Text → Result ApiError (Unit {0})
  validate_title title = do
    let t = trim_space title
    refuse (is_empty t) (missing_field (codes "title"))
    refuse (ltb max_title_runes (rune_count t)) too_long
    refuse (has_control_char t) control_char
