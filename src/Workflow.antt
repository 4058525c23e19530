-- ===== src/Workflow.antt =====
-- The state of the modeling workflow, internal/modelingworkflow: api.go, binding.go, intent.go, the
-- bindings of conversations to projects in file_store.go, and the presentations of controller.go
-- and artifact.go. The modeling service is an interface over a world of its own; the file of a
-- binding is named by the digest of its key, and here by the key.
pub mod Bindings
pub mod Turns
pub mod Advance
pub mod Start
pub mod Input
pub mod Handle
use qemu_agent.Common.{
  ℕ, List, [], ◌∷◌, ◌++◌, Option, none, some, Bool, true, false, ◌&&◌, ◌||◌, not, if◌then◌else◌,
  ltb, ◌==◌, length, is_some, Result, ok, err, ◌>>=◌, ◌>>◌, guard, refuse,
}
use qemu_agent.Text.{Text, codes, text_eq, is_empty, trim_space}
use qemu_agent.Modeling.Types.{ℤ}
use qemu_agent.Api.{SourceRef, has_key}
use qemu_agent.Api.Views.{
  ArtifactDescriptor, PublicError, OperationDescriptor, ProjectView, OperationResult,
  ArtifactContent, Capabilities, project_blocked, project_completed, awaiting_apply,
}

pub data FlowError : Type 0 where
  of_api : PublicError → FlowError
  ended : FlowError
  version_conflict : FlowError
  flow_failed : Text → FlowError

pub data State : Type 0 where
  needs_input : State
  working : State
  awaiting_review : State
  completed : State
  failed_state : State

pub record BindingKey : Type 0 where
  pub workspace_id : Text
  pub user_id : Text
  pub conversation_id : Text

pub data AwaitingKind : Type 0 where
  awaiting_none : AwaitingKind
  awaiting_requirement : AwaitingKind
  awaiting_source : AwaitingKind
  awaiting_other : Text → AwaitingKind

pub record Binding : Type 0 where
  pub key : BindingKey
  pub version : ℤ
  pub active_project_id : Text
  pub title : Text
  pub instruction : Text
  pub sources : List SourceRef
  pub awaiting : AwaitingKind
  pub updated_at : ℕ

pub record Presentation : Type 0 where
  pub state : State
  pub summary : Text
  pub question : Text
  pub project : Option ProjectView
  pub artifacts : List ArtifactDescriptor
  pub evidence : List ArtifactDescriptor
  pub content : Option ArtifactContent
  pub failure : Option PublicError

-- projectPresentation
abbrev pub project_presentation : State → Text → Text → ProjectView → Presentation
project_presentation state summary question project = record {
  state = state;
  summary = summary;
  question = question;
  project = some project;
  artifacts = project.artifacts;
  evidence = [];
  content = none;
  failure = none;
}

-- missingProjectPresentation
abbrev pub missing_project_presentation : Presentation
missing_project_presentation = record {
  state = needs_input;
  summary = codes "There is no active modeling project.";
  question = codes "What would you like to model?";
  project = none;
  artifacts = [];
  evidence = [];
  content = none;
  failure = none;
}

-- stateFromProject
unfoldable pub state_from_project : ProjectView → State
state_from_project project =
    if text_eq project.status (codes "pending") || text_eq project.status (codes "running")
    then working
    else if text_eq project.status project_blocked
    then (if text_eq project.blocked_reason awaiting_apply
        then awaiting_review
        else if is_some project.public_error
        then failed_state
        else needs_input)
    else if text_eq project.status project_completed
    then completed
    else failed_state

-- validatePresentation
unfoldable pub validate_presentation : Presentation → Result FlowError (Unit {0})
validate_presentation p = elim p.state [
  | needs_input ↦
      refuse (is_empty (trim_space p.question))
        (flow_failed (codes "needs_input presentation requires a question"))
  | failed_state ↦
      guard (is_some p.failure) (flow_failed (codes "failed presentation requires a public error"))
  | _ ↦ guard (is_some p.project) (flow_failed (codes "project presentation is missing a project"))
]

-- readOnlyProjectPresentation
unfoldable pub read_only_presentation : ProjectView → Text → Presentation
read_only_presentation project summary =
    let p = project_presentation (state_from_project project) summary [] project in
    elim p.state [
      | needs_input ↦ record p {
        question = codes "What additional information should be provided?";
      }
      | failed_state ↦ record p { failure = project.public_error }
      | _ ↦ p
    ]

-- withOperationOutputs
abbrev pub with_operation_outputs :
    Presentation → List ArtifactDescriptor → List ArtifactDescriptor → Presentation
with_operation_outputs p artifacts evidence = record p {
  artifacts = artifacts;
  evidence = evidence;
}

-- findOperation, over the operations of the capabilities.
unfoldable pub find_operation : List OperationDescriptor → Text → Option OperationDescriptor
find_operation [] name = none
find_operation (op ∷ ops) name =
    let rest = find_operation ops name in if text_eq op.name name then some op else rest

abbrev is_diff_of : Text → ArtifactDescriptor → Bool
is_diff_of operation artifact =
    text_eq artifact.kind (codes "diff")
    && (is_empty operation || text_eq artifact.operation operation)

unfoldable pub filter_diffs : Text → List ArtifactDescriptor → List ArtifactDescriptor
filter_diffs operation [] = []
filter_diffs operation (a ∷ artifacts) =
    let rest = filter_diffs operation artifacts in if is_diff_of operation a then a ∷ rest else rest

abbrev pub only_one : List ArtifactDescriptor → Option ArtifactDescriptor
only_one (a ∷ []) = some a
only_one artifacts = none

-- selectReviewArtifact
unfoldable pub select_review_artifact : ProjectView → Option ArtifactDescriptor
select_review_artifact view =
    let found = filter_diffs view.current_operation view.artifacts in
    if length found == 0 then only_one (filter_diffs [] view.artifacts) else only_one found

-- mergeArtifactDescriptors, of the ids seen so far.
unfoldable pub merge_artifacts : List Text → List ArtifactDescriptor → List ArtifactDescriptor
merge_artifacts seen [] = []
merge_artifacts seen (a ∷ artifacts) =
    let skipped = merge_artifacts seen artifacts in
    let kept = merge_artifacts (a.id ∷ seen) artifacts in
    if has_key a.id seen then skipped else a ∷ kept
