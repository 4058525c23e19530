-- ===== src/Api/Views.antt =====
-- The views of internal/modelingapi/view.go, capability.go and error.go, and their checks. Codes,
-- kinds and states are texts, as they are in Go.
use qemu_agent.Common.{
  ℕ, ◌-◌, List, [], ◌∷◌, ◌++◌, Option, none, some, Bool, true, false, ◌&&◌, ◌||◌, not, ltb, ◌==◌,
  length, Result, ok, ◌>>=◌, ◌>>◌, guard, refuse,
}
use qemu_agent.Text.{Text, codes, text_eq, is_empty, has_prefix, contains, text_lt}
use qemu_agent.Modeling.Types.{ℤ, is_negative, int_eq}
use qemu_agent.Modeling.Ints.{lt_int}
use qemu_agent.Api.{
  ApiError, missing_field, invalid_input, control_char, too_long, max_summary_bytes, max_id_bytes,
  has_control_char, is_unbounded, is_lower_hex, parse_project_id, parse_artifact_id,
  validate_operation_name, validate_summary, validate_relative_path, validate_title, has_key,
}

pub record ArtifactDescriptor : Type 0 where
  pub id : Text
  pub operation : Text
  pub name : Text
  pub kind : Text
  pub bytes : ℤ
  pub digest : Text
  pub created_at : ℕ

pub record PublicError : Type 0 where
  pub code : Text
  pub message : Text
  pub retryable : Bool
  pub details : List (Text × Text)

pub record OperationDescriptor : Type 0 where
  pub name : Text
  pub display_name : Text
  pub description : Text
  pub requires_sources : Bool
  pub mutating : Bool
  pub may_block : Bool

pub record ProjectView : Type 0 where
  pub id : Text
  pub title : Text
  pub revision : ℤ
  pub status : Text
  pub current_operation : Text
  pub recommended : List OperationDescriptor
  pub artifacts : List ArtifactDescriptor
  pub evidence_count : ℤ
  pub blocked_reason : Text
  pub public_error : Option PublicError
  pub created_at : ℕ
  pub updated_at : ℕ

pub record ApplyOutcome : Type 0 where
  pub written : List Text
  pub skipped : List Text
  pub is_partial : Bool
  pub reason : Text
  pub evidence : List ArtifactDescriptor

pub record OperationResult : Type 0 where
  pub project : ProjectView
  pub operation : Text
  pub status : Text
  pub artifacts : List ArtifactDescriptor
  pub evidence : List ArtifactDescriptor
  pub summary : Text
  pub is_blocked : Bool
  pub reason : Text
  pub apply : Option ApplyOutcome

pub record ArtifactContent : Type 0 where
  pub artifact : ArtifactDescriptor
  pub data_bytes : Text
  pub offset : ℕ
  pub next : ℕ
  pub eof : Bool

pub record Capabilities : Type 0 where
  pub api_version : Text
  pub engine_name : Text
  pub engine_version : Text
  pub operations : List OperationDescriptor
  pub artifact_kinds : List Text

abbrev pub project_blocked : Text
project_blocked = codes "blocked"

abbrev pub project_completed : Text
project_completed = codes "completed"

abbrev pub project_statuses : List Text
project_statuses = codes "pending" ∷ codes "running" ∷ project_blocked ∷ project_completed ∷ []

abbrev pub operation_blocked : Text
operation_blocked = codes "blocked"

abbrev pub operation_failed : Text
operation_failed = codes "failed"

abbrev pub operation_statuses : List Text
operation_statuses = codes "succeeded" ∷ operation_blocked ∷ operation_failed ∷ []

abbrev pub awaiting_apply : Text
awaiting_apply = codes "awaiting_apply"

abbrev error_codes : List Text
error_codes =
    codes "invalid_input"
    ∷ codes "not_found"
    ∷ codes "conflict"
    ∷ codes "denied"
    ∷ codes "approval_required"
    ∷ codes "approval_declined"
    ∷ codes "unavailable"
    ∷ codes "canceled"
    ∷ codes "internal"
    ∷ []

abbrev allowed_detail_keys : List Text
allowed_detail_keys =
    codes "project_id"
    ∷ codes "operation"
    ∷ codes "current_revision"
    ∷ codes "expected_revision"
    ∷ codes "capability"
    ∷ []

-- `a == b`
abbrev pub bool_eq : Bool → Bool → Bool
bool_eq true b = b
bool_eq false b = not b

-- The loop of a check over a list.
unfoldable pub check_all {ℓ} :
    {A : Type ℓ} → (A → Result ApiError (Unit {0})) → List A → Result ApiError (Unit {0})
check_all check [] = ok tt
check_all check (x ∷ xs) = do check x; check_all check xs

-- validateArtifactDescriptor
unfoldable pub validate_artifact_descriptor : ArtifactDescriptor → Result ApiError (Unit {0})
validate_artifact_descriptor a = do
  id ← parse_artifact_id a.id
  refuse (is_empty a.name) (missing_field (codes "artifact.name"))
  refuse (is_unbounded max_id_bytes a.name) too_long
  refuse
      (contains a.name (codes "/") || contains a.name (b'\\' ∷ []) || contains a.name (codes ".."))
      (invalid_input (codes "artifact name must be a bare name"))
  refuse (is_empty a.kind) (missing_field (codes "artifact.kind"))
  refuse (is_unbounded max_id_bytes a.kind) too_long
  refuse (is_negative a.bytes) (invalid_input (codes "negative artifact bytes"))
  validate_operation_name a.operation
  refuse (is_empty a.operation) (missing_field (codes "artifact.operation"))
  guard (is_lower_hex a.digest 64) (invalid_input (codes "artifact digest must be sha256 hex"))
  guard (has_prefix a.digest a.id) (invalid_input (codes "artifact id does not match digest"))
  refuse (a.created_at == 0) (missing_field (codes "artifact.created_at"))

-- The body of ValidatePublicError's loop.
unfoldable pub check_detail : Text × Text → Result ApiError (Unit {0})
check_detail (k, v) = do
  guard (has_key k allowed_detail_keys) (invalid_input (codes "disallowed error detail key"))
  refuse (has_control_char v) control_char
  refuse (ltb max_id_bytes (length v)) too_long

-- ValidatePublicError
unfoldable pub validate_public_error : PublicError → Result ApiError (Unit {0})
validate_public_error p = do
  guard (has_key p.code error_codes) (invalid_input (codes "unknown public error code"))
  refuse (is_empty p.message) (missing_field (codes "error.message"))
  refuse (ltb max_summary_bytes (length p.message)) too_long
  refuse (has_control_char p.message) control_char
  check_all check_detail p.details

-- ValidateArtifactContent; the offsets are not negative.
unfoldable pub validate_artifact_content : ArtifactContent → Result ApiError (Unit {0})
validate_artifact_content c = do
  validate_artifact_descriptor c.artifact
  refuse (ltb c.next c.offset) (invalid_input (codes "invalid artifact content offsets"))
  guard (length c.data_bytes == c.next - c.offset)
      (invalid_input (codes "artifact content length does not match offsets"))
  refuse (lt_int c.artifact.bytes (ℤ.pos c.next))
      (invalid_input (codes "artifact content exceeds descriptor size"))
  guard (bool_eq c.eof (int_eq (ℤ.pos c.next) c.artifact.bytes))
      (invalid_input (codes "artifact content eof is inconsistent"))

-- validateApplyOutcome
unfoldable pub validate_apply_outcome : ApplyOutcome → Result ApiError (Unit {0})
validate_apply_outcome a = do
  refuse (a.is_partial && (length a.written == 0 || length a.skipped == 0))
      (invalid_input (codes "partial apply requires written and skipped paths"))
  refuse (not a.is_partial && ltb 0 (length a.written) && ltb 0 (length a.skipped))
      (invalid_input (codes "written and skipped paths imply partial apply"))
  check_all validate_relative_path (a.written ++ a.skipped)
  refuse (not (is_empty a.reason) && is_unbounded max_id_bytes a.reason)
      (invalid_input (codes "invalid apply reason"))
  check_all validate_artifact_descriptor a.evidence

-- The checks of one operation, after the one before it in the list.
unfoldable pub check_operation :
    Option OperationDescriptor → List Text → OperationDescriptor → Result ApiError (Unit {0})
check_operation before seen op = do
  validate_operation_name op.name
  refuse (has_key op.name seen) (invalid_input (codes "duplicate operation"))
  elim before [
    | none ↦ ok tt
    | some b ↦ guard (text_lt b.name op.name) (invalid_input (codes "operations must be sorted"))
  ]
  refuse (not (is_empty op.display_name) && is_unbounded max_summary_bytes op.display_name) too_long
  refuse (not (is_empty op.description) && is_unbounded max_summary_bytes op.description) too_long

unfoldable pub check_operations :
    Option OperationDescriptor → List Text → List OperationDescriptor → Result ApiError (Unit {0})
check_operations before seen [] = ok tt
check_operations before seen (op ∷ ops) = do
  check_operation before seen op
  check_operations (some op) (op.name ∷ seen) ops

-- The loop of ValidateCapabilities over the kinds.
unfoldable pub check_kind_names : Option Text → List Text → List Text → Result ApiError (Unit {0})
check_kind_names before seen [] = ok tt
check_kind_names before seen (k ∷ kinds) = do
  refuse (is_empty k) (missing_field (codes "artifact_kind"))
  refuse (is_unbounded max_id_bytes k) too_long
  refuse (has_key k seen) (invalid_input (codes "duplicate artifact kind"))
  elim before [
    | none ↦ ok tt
    | some b ↦ guard (text_lt b k) (invalid_input (codes "artifact kinds must be sorted"))
  ]
  check_kind_names (some k) (k ∷ seen) kinds

-- ValidateCapabilities
unfoldable pub validate_capabilities : Capabilities → Result ApiError (Unit {0})
validate_capabilities c = do
  refuse (is_empty c.api_version) (missing_field (codes "api_version"))
  refuse (is_unbounded max_id_bytes c.api_version) too_long
  refuse (is_empty c.engine_name) (missing_field (codes "engine_name"))
  refuse (is_unbounded max_id_bytes c.engine_name) too_long
  refuse (is_empty c.engine_version) (missing_field (codes "engine_version"))
  refuse (is_unbounded max_id_bytes c.engine_version) too_long
  check_operations none [] c.operations
  check_kind_names none [] c.artifact_kinds

module _ (rune_count : Text → ℕ) where
  -- ValidateProjectView
  unfoldable pub validate_project_view : ProjectView → Result ApiError (Unit {0})
  validate_project_view v = do
    id ← parse_project_id v.id
    validate_title rune_count v.title
    refuse (is_negative v.revision) (invalid_input (codes "negative revision"))
    refuse (is_negative v.evidence_count) (invalid_input (codes "negative evidence count"))
    refuse (not (is_empty v.blocked_reason) && not (text_eq v.status project_blocked))
        (invalid_input (codes "blocked reason requires blocked project status"))
    refuse (not (is_empty v.blocked_reason) && not (text_eq v.blocked_reason awaiting_apply))
        (invalid_input (codes "unknown blocked reason"))
    refuse (v.created_at == 0 || v.updated_at == 0 || ltb v.updated_at v.created_at)
        (invalid_input (codes "invalid project timestamps"))
    guard (has_key v.status project_statuses) (invalid_input (codes "unknown project status"))
    validate_operation_name v.current_operation
    check_all validate_artifact_descriptor v.artifacts
    check_all (λ op. validate_operation_name op.name) v.recommended
    elim v.public_error [ none ↦ ok tt | some p ↦ validate_public_error p ]

  -- ValidateOperationResult
  unfoldable pub validate_operation_result : OperationResult → Result ApiError (Unit {0})
  validate_operation_result r = do
    validate_project_view r.project
    validate_operation_name r.operation
    guard (has_key r.status operation_statuses) (invalid_input (codes "unknown operation status"))
    validate_summary r.summary
    check_all validate_artifact_descriptor r.artifacts
    check_all validate_artifact_descriptor r.evidence
    refuse (r.is_blocked && is_empty r.reason) (missing_field (codes "reason"))
    refuse (not (is_empty r.reason) && has_control_char r.reason) control_char
    guard (bool_eq r.is_blocked (text_eq r.status operation_blocked))
        (invalid_input (codes "blocked flag and status disagree"))
    elim r.apply [ none ↦ ok tt | some a ↦ validate_apply_outcome a ]
