-- ===== src/Workflow/Turns.antt =====
-- What a turn of internal/modelingworkflow is made with, and the review of a diff: childCall,
-- readBoundedArtifact and validateBoundedArtifact of controller.go, awaitingApplyPresentation of
-- artifact.go.
use qemu_agent.Common.{
  ℕ, List, [], ◌++◌, Option, none, some, ◌&&◌, ◌||◌, not, if◌then◌else◌, ltb, ◌==◌, length, Result,
  ok, err, ◌>>=◌, ◌>>◌, guard, refuse,
}
use qemu_agent.Text.{Text, codes, text_eq, is_empty, trim_space}
use qemu_agent.Modeling.Types.{ℤ, int_eq}
use qemu_agent.Api.{ApiError, CallContext}
use qemu_agent.Api.Views.{
  ArtifactDescriptor, PublicError, OperationDescriptor, ProjectView, OperationResult,
  ArtifactContent, validate_artifact_content,
}
use qemu_agent.Api.Requests.{AdvanceRequest}
use qemu_agent.Workflow.{
  FlowError, flow_failed, awaiting_review, failed_state, Binding, Presentation,
  project_presentation, with_operation_outputs, select_review_artifact, merge_artifacts,
}

-- modelingapi.Service, the store of bindings and the clock, as far as a turn uses them. `live` is
-- the error of the context at that moment.
pub record Services (W : Type 0) : Type 0 where
  pub live : W → Option FlowError
  pub show : CallContext → Text → W → Result FlowError ProjectView
  pub create : CallContext → Text → W → W × Result FlowError ProjectView
  pub advance : CallContext → AdvanceRequest → W → W × Result FlowError OperationResult
  pub read_artifact : CallContext → Text → Text → ℕ → W → Result FlowError ArtifactContent
  pub save_binding : Binding → ℤ → W → W × Result FlowError Binding
  pub now : W → ℕ

-- What a turn is made with: deriveIdentifier hashes its arguments, package utf8 counts runes,
-- `digest` is the hexadecimal SHA-256.
pub record Turn : Type 0 where
  pub call : CallContext
  pub max_operations : ℕ
  pub artifact_limit : ℕ
  pub operations : List OperationDescriptor
  pub derive : Text → Text → Text → Text → ℕ → Text
  pub rune_count : Text → ℕ
  pub digest : Text → Text

-- The error of a check, which no operation of a turn reads, is kept as its reason.
abbrev pub checked_by : Result ApiError (Unit {0}) → Text → Result FlowError (Unit {0})
checked_by (ok u) reason = ok tt
checked_by (err e) reason = err (flow_failed reason)

-- The outputs of the operations so far.
pub record Outputs : Type 0 where
  pub artifacts : List ArtifactDescriptor
  pub evidence : List ArtifactDescriptor

abbrev pub shown : Presentation → Outputs → Result FlowError Presentation
shown p outputs = ok (with_operation_outputs p outputs.artifacts outputs.evidence)

abbrev pub failed_with : Presentation → PublicError → Presentation
failed_with p failure = record p { state = failed_state; question = []; failure = some failure }

-- childCall
abbrev pub child_call : Turn → Text → Text → Text → ℕ → CallContext
child_call turn method project operation ordinal = record turn.call {
  request_id = turn.derive turn.call.request_id method project operation ordinal;
  idempotency_key =
      if is_empty (trim_space turn.call.idempotency_key)
      then []
      else turn.derive turn.call.idempotency_key method project operation ordinal;
}

-- validateBoundedArtifact
unfoldable pub validate_bounded_artifact :
    (Text → Text) → ArtifactContent → Text → ℕ → Result FlowError (Unit {0})
validate_bounded_artifact digest content expected limit = do
  guard (text_eq content.artifact.id expected)
      (flow_failed (codes "ReadArtifact returned a different artifact"))
  checked_by (validate_artifact_content content) (codes "invalid artifact content")
  refuse (not (content.offset == 0) || ltb limit (length content.data_bytes))
      (flow_failed (codes "artifact read exceeded bounded request"))
  refuse (content.eof && not (text_eq (digest content.data_bytes) content.artifact.digest))
      (flow_failed (codes "artifact digest verification failed"))

module _ {W : Type 0} (services : Services W) (turn : Turn) where
  -- readBoundedArtifact
  unfoldable pub read_bounded_artifact :
      Text → ArtifactDescriptor → W → Result FlowError ArtifactContent
  read_bounded_artifact project artifact w = do
    content ← services.read_artifact turn.call project artifact.id turn.artifact_limit w
    validate_bounded_artifact turn.digest content artifact.id turn.artifact_limit
    guard
        (text_eq content.artifact.digest artifact.digest
          && int_eq content.artifact.bytes artifact.bytes)
        (flow_failed (codes "artifact descriptor changed during read"))
    ok content

  -- awaitingApplyPresentation
  unfoldable pub awaiting_apply_presentation :
      ProjectView → Outputs → W → Result FlowError Presentation
  awaiting_apply_presentation view outputs w = elim (select_review_artifact view) [
    | none ↦ err (flow_failed (codes "awaiting_apply requires one unambiguous diff artifact"))
    | some diff ↦ do
      content ← read_bounded_artifact view.id diff w
      let p =
          project_presentation awaiting_review
            (codes "The modeling operation produced a diff and is awaiting review before apply.")
            (codes "Review the bounded diff and explicitly approve before applying changes.") view
      ok (record p {
        content = some content;
        artifacts = merge_artifacts [] (view.artifacts ++ outputs.artifacts);
        evidence = outputs.evidence;
      })
  ]
