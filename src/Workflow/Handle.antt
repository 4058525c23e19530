-- ===== src/Workflow/Handle.antt =====
-- Handle of internal/modelingworkflow/controller.go, from the interpreted intent to the presented
-- result, with readArtifact and readEvidence.
pub mod Bounded
use qemu_agent.Common.{
  List, [], ◌∷◌, Option, none, some, Bool, true, false, ◌&&◌, if◌then◌else◌, ◌==◌, length, Result,
  ok, err, ◌>>=◌, ◌>>◌, guard, refuse,
}
use qemu_agent.Text.{Text, codes, text_eq, is_empty, trim_space}
use qemu_agent.Modeling.Types.{int_eq}
use qemu_agent.Api.{CallContext, validate_call}
use qemu_agent.Api.Views.{ArtifactDescriptor, Capabilities, ProjectView, validate_capabilities}
use qemu_agent.Api.Requests.{EvidencePage, validate_evidence_page}
use qemu_agent.Workflow.{
  FlowError, flow_failed, State, needs_input, AwaitingKind, awaiting_none, Binding, BindingKey,
  Presentation, project_presentation, missing_project_presentation, read_only_presentation,
  validate_presentation,
}
use qemu_agent.Workflow.Turns.{Services, Turn, checked_by, validate_bounded_artifact}
use qemu_agent.Workflow.Start.{
  Intent, IntentKind, intent_start, intent_continue, intent_inspect, intent_provide_input,
  intent_read_artifact, intent_evidence, intent_start_new, intent_other, start,
}
use qemu_agent.Workflow.Input.{continue_project, provide_input}

pub record ConversationMsg : Type 0 where
  pub role : Text
  pub text : Text

pub record Request : Type 0 where
  pub history : List ConversationMsg
  pub text : Text
  pub has_history : Bool

pub record InterpretInput : Type 0 where
  pub text : Text
  pub history : List ConversationMsg
  pub has_history : Bool
  pub awaiting : AwaitingKind
  pub workspace_id : Text
  pub user_id : Text

-- Result of api.go.
pub record Answer : Type 0 where
  pub reply : Text
  pub state : State
  pub project : Option ProjectView
  pub artifacts : List ArtifactDescriptor
  pub evidence : List ArtifactDescriptor

-- What Handle calls besides the services of a turn: the interpreter and the presenter talk to a
-- model, which may change the world.
pub record Desk (W : Type 0) : Type 0 where
  pub services : Services W
  pub capabilities : CallContext → W → Result FlowError Capabilities
  pub load : BindingKey → W → Result FlowError (Option Binding)
  pub evidence : CallContext → Text → W → Result FlowError EvidencePage
  pub interpret : InterpretInput → W → W × Result FlowError Intent
  pub present : Presentation → W → W × Result FlowError Text

-- generateBindingKey
abbrev pub generate_binding_key : CallContext → BindingKey
generate_binding_key call = record {
  workspace_id = call.workspace_id;
  user_id = call.user_id;
  conversation_id = call.session_id;
}

-- findProjectArtifact
unfoldable pub find_artifact : List ArtifactDescriptor → Text → Option ArtifactDescriptor
find_artifact [] id = none
find_artifact (a ∷ artifacts) id =
    let rest = find_artifact artifacts id in if text_eq a.id id then some a else rest

-- The checks that Handle begins with.
unfoldable pub check_handle : CallContext → Request → Result FlowError (Unit {0})
check_handle call request = do
  refuse (is_empty (trim_space call.session_id)) (flow_failed (codes "session_id is required"))
  checked_by (validate_call call false) (codes "invalid call")
  refuse (is_empty (trim_space request.text)) (flow_failed (codes "request text is required"))

abbrev pub awaited : Option Binding → AwaitingKind
awaited none = awaiting_none
awaited (some binding) = binding.awaiting

-- The active project of a binding that was found.
abbrev pub active_project : Option Binding → Option (Binding × Text)
active_project none = none
active_project (some binding) =
    if is_empty (trim_space binding.active_project_id)
    then none
    else some (binding, binding.active_project_id)

abbrev pub existing_project : ProjectView → Presentation
existing_project project =
    project_presentation needs_input (codes "An active modeling project already exists.")
      (codes "Do you want to continue the current project or start a new one?") project

module _ {W : Type 0} (desk : Desk W) (turn : Turn) where
  -- readArtifact
  unfoldable pub read_artifact : ProjectView → Text → W → Result FlowError Presentation
  read_artifact project id w = elim (find_artifact project.artifacts id) [
    | none ↦ err (flow_failed (codes "artifact is not part of project"))
    | some descriptor ↦ do
      content ← desk.services.read_artifact turn.call project.id id turn.artifact_limit w
      validate_bounded_artifact turn.digest content id turn.artifact_limit
      guard
          (text_eq content.artifact.digest descriptor.digest
            && int_eq content.artifact.bytes descriptor.bytes)
          (flow_failed (codes "artifact descriptor changed during read"))
      ok (record (read_only_presentation project (codes "The requested artifact was read.")) {
        content = some content;
      })
  ]

  -- readEvidence
  unfoldable pub read_evidence : ProjectView → W → Result FlowError Presentation
  read_evidence project w = do
    page ← desk.evidence turn.call project.id w
    checked_by (validate_evidence_page page) (codes "invalid Evidence result")
    let summary =
        if length page.evidence == 0
        then codes "No verification evidence is available for this project."
        else codes "Verification evidence descriptors are available for review."
    ok (record (read_only_presentation project summary) { evidence = page.evidence })

  -- The active project as the service shows it, which StartNew does not ask for.
  unfoldable pub show_active :
      Option Binding → IntentKind → W → Result FlowError (Option (Binding × ProjectView))
  show_active current intent_start_new w = ok none
  show_active current kind w = elim (active_project current) [
    | none ↦ ok none
    | some (binding, id) ↦ do
      project ← desk.services.show turn.call id w
      guard (text_eq project.id id) (flow_failed (codes "binding and project identity differ"))
      ok (some (binding, project))
  ]

  -- The intents of a conversation that has a project.
  unfoldable pub handle_project :
      BindingKey → Binding → ProjectView → Intent → W → W × Result FlowError Presentation
  handle_project key binding project intent w = elim intent.kind [
    | intent_start ↦ (w, ok (existing_project project))
    | intent_start_new ↦ start desk.services turn key (some binding) true intent w
    | intent_inspect ↦ (
      w,
      ok (read_only_presentation project (codes "The active modeling project was inspected.")),
    )
    | intent_continue ↦ continue_project desk.services turn binding project w
    | intent_provide_input ↦ provide_input desk.services turn binding project intent w
    | intent_read_artifact ↦ (w, read_artifact project intent.artifact_id w)
    | intent_evidence ↦ (w, read_evidence project w)
    | intent_other t ↦ (w, err (flow_failed (codes "unsupported intent")))
  ]

  -- The intents of a conversation that has none, or starts a new one.
  unfoldable pub handle_without :
      BindingKey → Option Binding → Intent → W → W × Result FlowError Presentation
  handle_without key current intent w = elim intent.kind [
    | intent_start ↦ start desk.services turn key current false intent w
    | intent_start_new ↦ start desk.services turn key current true intent w
    | intent_provide_input ↦ start desk.services turn key current false intent w
    | intent_other t ↦ (w, err (flow_failed (codes "unsupported intent")))
    | _ ↦ (w, ok missing_project_presentation)
  ]

  -- Handle after the interpretation, up to the presentation.
  unfoldable pub handle_intent :
      BindingKey → Option Binding → Intent → W → W × Result FlowError Presentation
  handle_intent key current intent w = elim (show_active current intent.kind w) [
    | err e ↦ (w, err e)
    | ok none ↦ handle_without key current intent w
    | ok (some (binding, project)) ↦ handle_project key binding project intent w
  ]

  -- resultFromPresentation
  unfoldable pub present_result : Presentation → W → W × Result FlowError Answer
  present_result p w = elim (validate_presentation p) [
    | err e ↦ (w, err e)
    | ok u ↦
        let (w', reply) = desk.present p w in
        (
          w',
          do
            text ← reply
            ok (record {
              reply = text;
              state = p.state;
              project = p.project;
              artifacts = p.artifacts;
              evidence = p.evidence;
            }),
        )
  ]

  abbrev pub settle_presentation : W × Result FlowError Presentation → W × Result FlowError Answer
  settle_presentation (w, err e) = (w, err e)
  settle_presentation (w, ok p) = present_result p w

  abbrev pub settle_intent :
      BindingKey → Option Binding → W × Result FlowError Intent → W × Result FlowError Answer
  settle_intent key current (w, err e) = (w, err e)
  settle_intent key current (w, ok intent) =
      settle_presentation (handle_intent key current intent w)

-- What Handle reads before the interpretation: the capabilities and the binding.
unfoldable pub open_turn :
    {W : Type 0}
    → Desk W
    → CallContext
    → Request
    → W
    → Result FlowError (Capabilities × Option Binding)
open_turn desk call request w = do
  check_handle call request
  capabilities ← desk.capabilities call w
  checked_by (validate_capabilities capabilities) (codes "invalid capabilities")
  current ← desk.load (generate_binding_key call) w
  ok (capabilities, current)

-- Handle before the mapping of its error; `base` has the limits and the functions of the turn.
unfoldable pub handle_request :
    {W : Type 0} → Desk W → Turn → Request → W → W × Result FlowError Answer
handle_request desk base request w = elim (desk.services.live w) [
  | some e ↦ (w, err e)
  | none ↦ elim (open_turn desk base.call request w) [
    | err e ↦ (w, err e)
    | ok (capabilities, current) ↦
        settle_intent desk (record base { operations = capabilities.operations })
          (generate_binding_key base.call) current
          (desk.interpret
            (record {
              text = request.text;
              history = request.history;
              has_history = request.has_history;
              awaiting = awaited current;
              workspace_id = base.call.workspace_id;
              user_id = base.call.user_id;
            })
            w)
  ]
]
