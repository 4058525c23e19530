-- ===== src/Workflow/Start.antt =====
-- start.go of internal/modelingworkflow: how a turn fills the binding of its conversation and creates
-- the project.
use qemu_agent.Common.{
  ℕ, List, [], Option, none, some, Bool, true, false, ◌&&◌, ◌||◌, not, if◌then◌else◌, ◌==◌, length,
  is_some, Result, ok, err, ◌>>=◌, ◌>>◌, guard, refuse,
}
use qemu_agent.Text.{Text, codes, text_eq, is_empty, trim_space}
use qemu_agent.Modeling.Types.{ℤ}
use qemu_agent.Api.{
  SourceRef, validate_title, validate_instruction, validate_sources, validate_call,
}
use qemu_agent.Api.Views.{ProjectView, project_blocked, validate_project_view}
use qemu_agent.Workflow.{
  FlowError, flow_failed, needs_input, failed_state, Binding, BindingKey, awaiting_none,
  awaiting_requirement, awaiting_source, Presentation, project_presentation, state_from_project,
  find_operation,
}
use qemu_agent.Workflow.Bindings.{key_parts, parts_discrete}
use qemu_agent.Workflow.Turns.{Services, Turn, checked_by, child_call, failed_with}

pub data IntentKind : Type 0 where
  intent_start : IntentKind
  intent_continue : IntentKind
  intent_inspect : IntentKind
  intent_provide_input : IntentKind
  intent_read_artifact : IntentKind
  intent_evidence : IntentKind
  intent_start_new : IntentKind
  intent_other : Text → IntentKind

pub record Intent : Type 0 where
  pub kind : IntentKind
  pub title : Text
  pub instruction : Text
  pub sources : List SourceRef
  pub artifact_id : Text

abbrev pub new_binding : BindingKey → Binding
new_binding key = record {
  key = key;
  version = ℤ.pos 0;
  active_project_id = [];
  title = [];
  instruction = [];
  sources = [];
  awaiting = awaiting_none;
  updated_at = 0;
}

abbrev pub or_kept : Text → Text → Text
or_kept given kept = if is_empty (trim_space given) then kept else trim_space given

-- A title is validated when there is one.
abbrev pub check_given_title : (Text → ℕ) → Text → Result FlowError (Unit {0})
check_given_title rune_count title =
    if is_empty title
    then ok tt
    else checked_by (validate_title rune_count title) (codes "invalid title")

-- The binding that collectStartInput begins with, and the version it must have.
abbrev pub start_from : BindingKey → Option Binding → Bool → Binding
start_from key none replace = new_binding key
start_from key (some current) true = record (new_binding key) { version = current.version }
start_from key (some current) false = record current { key = key }

-- collectStartInput; `current` is none when no binding was found.
unfoldable pub collect_start_input :
    (Text → ℕ) → BindingKey → Option Binding → Bool → Intent → Result FlowError Binding
collect_start_input rune_count key current replace intent = do
  let base = start_from key current replace
  let next : Binding = record base {
    title = or_kept intent.title base.title;
    instruction = or_kept intent.instruction base.instruction;
    sources = if length intent.sources == 0 then base.sources else intent.sources;
  }
  check_given_title rune_count next.title
  checked_by (validate_instruction next.instruction) (codes "invalid instruction")
  checked_by (validate_sources next.sources) (codes "invalid sources")
  ok next

abbrev pub same_key : BindingKey → BindingKey → Bool
same_key a b = elim (parts_discrete (key_parts a) (key_parts b)) [ yes p ↦ true | no q ↦ false ]

abbrev empty_key : BindingKey
empty_key = record { workspace_id = []; user_id = []; conversation_id = [] }

-- The first phase of start.
unfoldable pub check_start : BindingKey → Option Binding → Bool → Result FlowError (Unit {0})
check_start key none replace = ok tt
check_start key (some current) replace = do
  refuse (not (same_key current.key empty_key) && not (same_key current.key key))
      (flow_failed (codes "loaded binding key does not match the call"))
  refuse (not (is_empty current.active_project_id) && not replace)
      (flow_failed (codes "start cannot replace an active project"))

-- missingRequirementQuestion
abbrev pub missing_requirement_question : Bool → Bool → Text
missing_requirement_question true true =
    codes "What should the project be called, and what QEMU component or behavior should it model?"
missing_requirement_question true false = codes "What should this modeling project be called?"
missing_requirement_question false any =
    codes "What QEMU component or behavior should this project model?"

abbrev pub intake_presentation : Bool → Bool → Presentation
intake_presentation missing_title missing_instruction = record {
  state = needs_input;
  summary = codes "More information is required before the modeling project can be created.";
  question = missing_requirement_question missing_title missing_instruction;
  project = none;
  artifacts = [];
  evidence = [];
  content = none;
  failure = none;
}

-- The presentation of a project that was just created.
unfoldable pub present_created : Bool → ProjectView → Presentation
present_created lacks_sources project =
    if lacks_sources
    then project_presentation needs_input
        (codes
          "The modeling project was created, but its first operation requires source material.")
        (codes "Which workspace source should be used?") project
    else if text_eq project.status project_blocked
    then elim project.public_error [
      | some failure ↦
          failed_with
            (project_presentation failed_state
              (codes "The modeling project was created but is blocked.") [] project)
            failure
      | none ↦
          project_presentation needs_input
            (codes "The modeling project was created but needs additional information.")
            (codes "What additional information should be provided?") project
    ]
    else project_presentation (state_from_project project)
        (codes "The modeling project was created.") [] project

module _ {W : Type 0} (services : Services W) (turn : Turn) where
  -- The fifth phase of start: the project as it is shown.
  unfoldable pub show_created : Text → Bool → W → Result FlowError Presentation
  show_created id lacks_sources w = do
    project ← services.show turn.call id w
    guard (text_eq project.id id)
        (flow_failed (codes "Show returned a different project after Create"))
    checked_by (validate_project_view turn.rune_count project)
        (codes "Show returned an invalid created project")
    ok (present_created lacks_sources project)

  -- The fourth phase of start: the binding of the new project is saved.
  unfoldable pub bind_created : Binding → ProjectView → W → W × Result FlowError Presentation
  bind_created next created w =
      let operation = find_operation turn.operations created.current_operation in
      let lacks_sources = elim operation as (λ o. Bool) [
        | none ↦ false
        | some op ↦ op.requires_sources && length next.sources == 0
      ] in
      let (w', saved) =
        services.save_binding
          (record next {
            active_project_id = created.id;
            awaiting = if lacks_sources then awaiting_source else awaiting_none;
            updated_at = services.now w;
          })
          next.version w in
      (
        w',
        elim saved [
          | err e ↦ err (
              flow_failed (
                if is_some operation
                then codes "project was created but its binding could not be saved"
                else codes "engine does not expose created operation"))
          | ok b ↦
              if is_some operation
              then show_created created.id lacks_sources w'
              else err (flow_failed (codes "engine does not expose created operation"))
        ],
      )

  -- The third phase of start, after Create.
  unfoldable pub settle_created :
      Binding → Result FlowError ProjectView → W → W × Result FlowError Presentation
  settle_created next (err e) w = (w, err e)
  settle_created next (ok created) w =
      elim (checked_by (validate_project_view turn.rune_count created)
        (codes "Create returned an invalid project")) [
          | err e ↦ (w, err e)
          | ok u ↦ bind_created next created w
        ]

  unfoldable pub create_project : Binding → W → W × Result FlowError Presentation
  create_project next w = elim (checked_by (validate_call turn.call true) (codes "invalid call")) [
    | err e ↦ (w, err e)
    | ok u ↦
        let (w', created) =
          services.create (child_call turn (codes "Create") [] [] 0) next.title w in
        settle_created next created w'
  ]

  abbrev pub settle_intake : Bool → Bool → Result FlowError Binding → Result FlowError Presentation
  settle_intake missing_title missing_instruction (err e) =
      err (flow_failed (codes "save modeling intake"))
  settle_intake missing_title missing_instruction (ok b) =
      ok (intake_presentation missing_title missing_instruction)

  -- The second phase of start: what is missing is asked for, and the binding keeps the rest.
  unfoldable pub ask_requirement : Binding → W → W × Result FlowError Presentation
  ask_requirement next w =
      let (w', saved) =
        services.save_binding
          (record next { awaiting = awaiting_requirement; updated_at = services.now w })
          next.version w in
      (w', settle_intake (is_empty next.title) (is_empty next.instruction) saved)

  -- start
  unfoldable pub start :
      BindingKey → Option Binding → Bool → Intent → W → W × Result FlowError Presentation
  start key current replace intent w = elim (services.live w) [
    | some e ↦ (w, err e)
    | none ↦
        elim (check_start key current replace
          >> collect_start_input turn.rune_count key current replace intent) [
            | err e ↦ (w, err e)
            | ok next ↦
                if is_empty next.title || is_empty next.instruction
                then ask_requirement next w
                else create_project next w
          ]
  ]
