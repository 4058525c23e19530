-- ===== src/Workflow/Advance.antt =====
-- advanceUntilBoundary of internal/modelingworkflow/continue.go: a turn runs a bounded number of
-- operations, each at the revision it has read.
pub mod Presented
pub mod Bounded
use qemu_agent.Common.{
  ℕ, zero, suc, ◌-◌, List, [], ◌∷◌, ◌++◌, Option, none, some, Bool, true, false, ◌&&◌, ◌||◌, not,
  if◌then◌else◌, ltb, ◌==◌, length, is_some, Result, ok, err, ◌>>=◌, ◌>>◌, guard, refuse,
}
use qemu_agent.Text.{Text, codes, text_eq, is_empty, trim_space}
use qemu_agent.Modeling.Types.{ℤ, int_eq}
use qemu_agent.Modeling.Ints.{lt_int}
use qemu_agent.Api.{ApiError, CallContext, SourceRef, validate_call}
use qemu_agent.Api.Views.{
  ArtifactDescriptor, PublicError, OperationDescriptor, ProjectView, OperationResult,
  ArtifactContent, project_blocked, project_completed, operation_blocked, operation_failed,
  awaiting_apply, validate_project_view, validate_operation_result, validate_artifact_content,
}
use qemu_agent.Api.Requests.{AdvanceRequest}
use qemu_agent.Workflow.{
  FlowError, of_api, ended, flow_failed, State, needs_input, working, awaiting_review, completed,
  failed_state, Binding, AwaitingKind, awaiting_source, Presentation, project_presentation,
  with_operation_outputs, find_operation, select_review_artifact, merge_artifacts,
}
use qemu_agent.Workflow.Turns.{
  Services, Turn, checked_by, Outputs, shown, failed_with, child_call, validate_bounded_artifact,
  read_bounded_artifact, awaiting_apply_presentation,
}

-- The switch on the status before an operation: a presentation if the project is at a boundary.
unfoldable pub at_boundary : ProjectView → Option Presentation
at_boundary view =
    if text_eq view.status project_completed
    then some (project_presentation completed (codes "The modeling project is complete.") [] view)
    else if text_eq view.status project_blocked
    then (let p =
          project_presentation needs_input (codes "The modeling project is blocked.")
            (codes "What additional information or approval should be provided?") view in
        some (elim view.public_error [ none ↦ p | some failure ↦ failed_with p failure ]))
    else none

-- validateAdvanceResult
unfoldable pub validate_advance_result :
    (Text → ℕ) → OperationResult → Text → Text → ℤ → Result FlowError (Unit {0})
validate_advance_result rune_count result project_id operation previous = do
  checked_by (validate_operation_result rune_count result) (codes "invalid Advance result")
  guard (text_eq result.project.id project_id)
      (flow_failed (codes "Advance returned a different project"))
  guard (text_eq result.operation operation)
      (flow_failed (codes "Advance returned another operation"))
  guard (lt_int previous result.project.revision)
      (flow_failed (codes "Advance revision did not increase"))

abbrev pub internal_failure : PublicError
internal_failure = record {
  code = codes "internal";
  message = codes "The modeling operation could not be completed.";
  retryable = false;
  details = [];
}

abbrev pub source_question : ProjectView → Presentation
source_question view =
    project_presentation needs_input (codes "The next modeling operation requires source material.")
      (codes "Which workspace source should be used?") view

-- How one round of the loop ends: the turn ends, or the loop goes on with a newer project.
pub data Round : Type 0 where
  stops : Result FlowError Presentation → Round
  goes_on : ProjectView → Outputs → Round

module _ {W : Type 0} (services : Services W) (turn : Turn) where
  -- The project that is read again after an Advance that failed.
  unfoldable pub present_failed :
      ProjectView → Outputs → PublicError → W → Result FlowError Presentation
  present_failed latest outputs failure w =
      if text_eq latest.blocked_reason awaiting_apply
      then awaiting_apply_presentation services turn latest outputs w
      else if text_eq latest.status project_blocked && not (is_some latest.public_error)
      then shown
          (project_presentation needs_input
            (codes "The modeling operation stopped at an input boundary.")
            (codes "What additional information should be provided?") latest)
          outputs
      else elim latest.public_error [
        | none ↦ err (of_api failure)
        | some public ↦
            shown (failed_with (project_presentation failed_state public.message [] latest) public)
              outputs
      ]

  -- The branch of an Advance that returned an error.
  unfoldable pub recover_advance :
      ProjectView → Outputs → FlowError → W → Result FlowError Presentation
  recover_advance view outputs (of_api failure) w = elim (services.show turn.call view.id w) [
    | err e ↦ err (of_api failure)
    | ok latest ↦
        if text_eq latest.id view.id && lt_int view.revision latest.revision
        then (do
          checked_by (validate_project_view turn.rune_count latest)
              (codes "invalid project after Advance failure")
          present_failed latest outputs failure w)
        else err (of_api failure)
  ]
  recover_advance view outputs e w = err e

  abbrev pub add_outputs : Outputs → OperationResult → Outputs
  add_outputs outputs result = record {
    artifacts = outputs.artifacts ++ result.artifacts;
    evidence = outputs.evidence ++ result.evidence;
  }

  -- The switch on the status of a valid result.
  unfoldable pub settle_result_of : OperationResult → Outputs → W → Round
  settle_result_of result outputs w =
      if text_eq result.status operation_blocked
      then (if text_eq result.reason awaiting_apply
          then stops (awaiting_apply_presentation services turn result.project outputs w)
          else stops (
              shown
                (project_presentation needs_input
                  (codes "The modeling operation is waiting at a workflow boundary.")
                  (codes "What additional information or approval should be provided?")
                  result.project)
                outputs))
      else if text_eq result.status operation_failed
      then (let failure : PublicError = elim result.project.public_error [
        | none ↦ internal_failure
        | some f ↦ f
      ] in
          stops (
            shown
              (failed_with (project_presentation failed_state failure.message [] result.project)
                failure)
              outputs))
      else goes_on result.project outputs

  -- A round after Advance.
  unfoldable pub settle_advance :
      ProjectView → Outputs → Result FlowError OperationResult → W → Round
  settle_advance view outputs (err e) w = stops (recover_advance view outputs e w)
  settle_advance view outputs (ok result) w =
      elim (validate_advance_result turn.rune_count result view.id view.current_operation
        view.revision) [
          | err e ↦ stops (err e)
          | ok u ↦ settle_result_of result (add_outputs outputs result) w
        ]

  -- A round from Advance on.
  unfoldable pub run_operation : ℕ → Binding → ProjectView → Outputs → W → W × Round
  run_operation ordinal binding view outputs w =
      let op = view.current_operation in
      let (w', advanced) =
        services.advance (child_call turn (codes "Advance") view.id op ordinal)
          (record {
            project_id = view.id;
            operation = op;
            instruction = binding.instruction;
            sources = binding.sources;
            expected_revision = view.revision;
          })
          w in
      (w', settle_advance view outputs advanced w')

  abbrev pub settle_wait :
      ProjectView → Outputs → Result FlowError Binding → Result FlowError Presentation
  settle_wait view outputs (err e) = err (flow_failed (codes "save source wait state"))
  settle_wait view outputs (ok b) = shown (source_question view) outputs

  -- The wait for sources is saved in the binding.
  unfoldable pub wait_for_sources : Binding → ProjectView → Outputs → W → W × Round
  wait_for_sources binding view outputs w =
      let (w', saved) =
        services.save_binding
          (record binding { awaiting = awaiting_source; updated_at = services.now w })
          binding.version w in
      (w', stops (settle_wait view outputs saved))

  -- The body of the loop.
  unfoldable pub advance_round : ℕ → Binding → ProjectView → Outputs → W → W × Round
  advance_round ordinal binding view outputs w = elim (services.live w) [
    | some e ↦ (w, stops (err e))
    | none ↦ elim (at_boundary view) [
      | some p ↦ (w, stops (shown p outputs))
      | none ↦
          if is_empty (trim_space view.current_operation)
          then (w, stops (err (flow_failed (codes "active project has no current operation"))))
          else elim (find_operation turn.operations view.current_operation) [
            | none ↦ (w, stops (err (flow_failed (codes "engine does not expose operation"))))
            | some op ↦
                if op.requires_sources && length binding.sources == 0
                then wait_for_sources binding view outputs w
                else run_operation ordinal binding view outputs w
          ]
    ]
  ]

  -- The loop, over the rounds that are left.
  unfoldable pub advance_rounds :
      ℕ → ℕ → Binding → ProjectView → Outputs → W → W × Result FlowError Presentation
  advance_rounds zero ordinal binding view outputs w = (
    w,
    shown
        (project_presentation working
          (codes "The modeling project paused after reaching this turn's operation limit.") [] view)
        outputs,
  )
  advance_rounds (suc n) ordinal binding view outputs w =
      let (w', round) = advance_round ordinal binding view outputs w in
      elim round [
        | stops result ↦ (w', result)
        | goes_on newer more ↦ advance_rounds n (suc ordinal) binding newer more w'
      ]

  -- advanceUntilBoundary
  unfoldable pub advance_until_boundary :
      Binding → ProjectView → W → W × Result FlowError Presentation
  advance_until_boundary binding view w = elim (services.live w) [
    | some e ↦ (w, err e)
    | none ↦
        elim (checked_by (validate_project_view turn.rune_count view)
            (codes "invalid starting project")
          >> checked_by (validate_call turn.call true) (codes "invalid call")) [
            | err e ↦ (w, err e)
            | ok u ↦
                advance_rounds (if turn.max_operations == 0 then 1 else turn.max_operations) 0
                  binding view (record { artifacts = []; evidence = [] }) w
          ]
  ]
