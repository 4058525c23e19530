-- ===== src/Api/Requests.antt =====
-- The requests of internal/modelingapi/request.go with their checks, and from view.go the pages and
-- the preview of an apply.
use qemu_agent.Common.{
  ℕ, List, ◌&&◌, ◌||◌, not, if◌then◌else◌, ltb, ◌==◌, length, Result, err, ◌>>=◌, ◌>>◌, guard,
  refuse,
}
use qemu_agent.Text.{Text, codes, text_eq, is_empty}
use qemu_agent.Modeling.Types.{ℤ, is_negative, int_eq}
use qemu_agent.Modeling.Ints.{lt_int}
use qemu_agent.Api.{
  ApiError, missing_field, invalid_input, too_long, max_page_size, max_id_bytes,
  max_source_value_bytes, is_unbounded, is_lower_hex, parse_project_id, parse_artifact_id,
  validate_operation_name, validate_instruction, validate_sources, validate_relative_path,
  validate_page_size, SourceRef,
}
use qemu_agent.Api.Views.{
  ArtifactDescriptor, ProjectView, check_all, validate_artifact_descriptor, validate_project_view,
}

abbrev pub max_file_changes : ℕ
max_file_changes = 256

abbrev pub max_preview_summary_bytes : ℕ
max_preview_summary_bytes = 2048

abbrev check_revision : ℤ → Text → Result ApiError (Unit {0})
check_revision revision text = refuse (is_negative revision) (invalid_input text)

-- A cursor may be empty.
abbrev check_cursor : Text → ApiError → Result ApiError (Unit {0})
check_cursor cursor e = refuse (not (is_empty cursor) && is_unbounded max_id_bytes cursor) e

-- A token that must be given.
abbrev check_token : Text → Text → Result ApiError (Unit {0})
check_token field token = do
  refuse (is_empty token) (missing_field field)
  refuse (is_unbounded max_id_bytes token) too_long

-- ValidateListRequest and ValidateReadArtifactRequest on their limits.
abbrev check_limit : ℤ → Result ApiError (Unit {0})
check_limit limit = do
  refuse (is_negative limit) (invalid_input (codes "negative limit"))
  refuse (lt_int (ℤ.pos max_page_size) limit) too_long

pub record AdvanceRequest : Type 0 where
  pub project_id : Text
  pub operation : Text
  pub instruction : Text
  pub sources : List SourceRef
  pub expected_revision : ℤ

-- ValidateAdvanceRequest
unfoldable pub validate_advance_request : AdvanceRequest → Result ApiError (Unit {0})
validate_advance_request r = do
  id ← parse_project_id r.project_id
  validate_operation_name r.operation
  validate_instruction r.instruction
  validate_sources r.sources
  check_revision r.expected_revision (codes "negative expected_revision")

pub record ReadArtifactRequest : Type 0 where
  pub project_id : Text
  pub artifact_id : Text
  pub offset : ℤ
  pub limit : ℤ

-- ValidateReadArtifactRequest
unfoldable pub validate_read_artifact_request : ReadArtifactRequest → Result ApiError (Unit {0})
validate_read_artifact_request r = do
  project ← parse_project_id r.project_id
  artifact ← parse_artifact_id r.artifact_id
  refuse (is_negative r.offset) (invalid_input (codes "negative offset"))
  check_limit r.limit

pub record ApplyRequest : Type 0 where
  pub project_id : Text
  pub expected_revision : ℤ
  pub preview_id : Text
  pub approval_token : Text

-- ValidateApplyRequest
unfoldable pub validate_apply_request : ApplyRequest → Result ApiError (Unit {0})
validate_apply_request r = do
  id ← parse_project_id r.project_id
  check_token (codes "preview_id") r.preview_id
  check_token (codes "approval_token") r.approval_token
  check_revision r.expected_revision (codes "negative expected_revision")

pub record ResetRequest : Type 0 where
  pub project_id : Text
  pub operation : Text
  pub expected_revision : ℤ
  pub confirmation : Text

-- ValidateResetRequest
unfoldable pub validate_reset_request : ResetRequest → Result ApiError (Unit {0})
validate_reset_request r = do
  id ← parse_project_id r.project_id
  validate_operation_name r.operation
  check_revision r.expected_revision (codes "negative expected_revision")
  check_cursor r.confirmation too_long

pub record ListRequest : Type 0 where
  pub limit : ℤ
  pub cursor : Text

-- ValidateListRequest
unfoldable pub validate_list_request : ListRequest → Result ApiError (Unit {0})
validate_list_request r = do check_limit r.limit; check_cursor r.cursor too_long

pub record EvidenceRequest : Type 0 where
  pub project_id : Text
  pub limit : ℤ
  pub cursor : Text

-- ValidateEvidenceRequest
unfoldable pub validate_evidence_request : EvidenceRequest → Result ApiError (Unit {0})
validate_evidence_request r = do
  id ← parse_project_id r.project_id
  validate_page_size r.limit
  check_cursor r.cursor too_long

pub record PlanApplyRequest : Type 0 where
  pub project_id : Text
  pub expected_revision : ℤ

-- ValidatePlanApplyRequest
unfoldable pub validate_plan_apply_request : PlanApplyRequest → Result ApiError (Unit {0})
validate_plan_apply_request r = do
  id ← parse_project_id r.project_id
  check_revision r.expected_revision (codes "negative expected_revision")

pub record ProjectPage : Type 0 where
  pub projects : List ProjectView
  pub next_cursor : Text

-- ValidateProjectPage
unfoldable pub validate_project_page : (Text → ℕ) → ProjectPage → Result ApiError (Unit {0})
validate_project_page rune_count p = do
  refuse (ltb max_page_size (length p.projects)) too_long
  check_all (validate_project_view rune_count) p.projects
  check_cursor p.next_cursor (invalid_input (codes "invalid project cursor"))

pub record EvidencePage : Type 0 where
  pub evidence : List ArtifactDescriptor
  pub next_cursor : Text

-- The body of ValidateEvidencePage's loop.
abbrev check_evidence : ArtifactDescriptor → Result ApiError (Unit {0})
check_evidence a = do
  validate_artifact_descriptor a
  guard (text_eq a.kind (codes "evidence"))
      (invalid_input (codes "evidence page contains non-evidence artifact"))

-- ValidateEvidencePage
unfoldable pub validate_evidence_page : EvidencePage → Result ApiError (Unit {0})
validate_evidence_page p = do
  refuse (ltb max_page_size (length p.evidence)) too_long
  check_all check_evidence p.evidence
  check_cursor p.next_cursor (invalid_input (codes "invalid evidence cursor"))

pub record FileChange : Type 0 where
  pub path : Text
  pub kind : Text
  pub old_bytes : ℤ
  pub new_bytes : ℤ
  pub old_digest : Text
  pub new_digest : Text

pub record ApplyPreview : Type 0 where
  pub id : Text
  pub project_id : Text
  pub project_revision : ℤ
  pub diff : ArtifactDescriptor
  pub files : List FileChange
  pub summary : Text
  pub expires_at : ℕ

-- The switch on the kind of a change.
abbrev check_change_kind : FileChange → Result ApiError (Unit {0})
check_change_kind f =
    if text_eq f.kind (codes "create")
    then refuse (not (is_empty f.old_digest) || not (int_eq f.old_bytes (ℤ.pos 0)))
        (invalid_input (codes "create change has old content"))
    else if text_eq f.kind (codes "modify")
    then guard (is_lower_hex f.old_digest 64)
        (invalid_input (codes "modify change requires old digest"))
    else err (invalid_input (codes "unknown file change kind"))

-- The body of ValidateApplyPreview's loop.
unfoldable pub check_file_change : FileChange → Result ApiError (Unit {0})
check_file_change f = do
  refuse (ltb max_source_value_bytes (length f.path)) too_long
  validate_relative_path f.path
  check_change_kind f
  refuse (not (is_lower_hex f.new_digest 64) || is_negative f.old_bytes || is_negative f.new_bytes)
      (invalid_input (codes "invalid file change content"))

-- ValidateApplyPreview
unfoldable pub validate_apply_preview : ApplyPreview → Result ApiError (Unit {0})
validate_apply_preview p = do
  check_token (codes "preview_id") p.id
  project ← parse_project_id p.project_id
  check_revision p.project_revision (codes "negative preview revision")
  validate_artifact_descriptor p.diff
  refuse (ltb max_file_changes (length p.files)) too_long
  check_all check_file_change p.files
  refuse (ltb max_preview_summary_bytes (length p.summary)) too_long
  refuse (p.expires_at == 0) (missing_field (codes "expires_at"))
