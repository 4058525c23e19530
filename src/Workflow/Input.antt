-- ===== src/Workflow/Input.antt =====
-- continueGuard and provideInput of internal/modelingworkflow/controller.go, for a conversation that has
-- a project: what stops a turn before its operations, and how a binding takes what was awaited.
use qemu_agent.Common.{
  [], Option, none, some, ◌&&◌, ◌||◌, not, if◌then◌else◌, ◌==◌, length, Result, ok, err, ◌>>◌,
  refuse,
}
use qemu_agent.Text.{codes, text_eq, is_empty, trim_space}
use qemu_agent.Api.{validate_instruction, validate_sources}
use qemu_agent.Api.Views.{ProjectView, project_blocked, project_completed, awaiting_apply}
use qemu_agent.Workflow.{
  FlowError, flow_failed, needs_input, completed, Binding, awaiting_none, awaiting_requirement,
  awaiting_source, awaiting_other, Presentation, project_presentation, find_operation,
}
use qemu_agent.Workflow.Turns.{Services, Turn, checked_by, failed_with, awaiting_apply_presentation}
use qemu_agent.Workflow.Advance.{source_question, advance_until_boundary}
use qemu_agent.Workflow.Start.{Intent, check_given_title}

module _ {W : Type 0} (services : Services W) (turn : Turn) where
  -- continueGuard before the sources are looked at: a presentation if the project cannot go on.
  unfoldable pub guard_status : ProjectView → W → Option (Result FlowError Presentation)
  guard_status project w =
      if text_eq project.status project_completed
      then some (
          ok (
            project_presentation completed (codes "The active modeling project is complete.") []
              project))
      else if text_eq project.status project_blocked
      then (if text_eq project.blocked_reason awaiting_apply
          then some (
              awaiting_apply_presentation services turn project
                (record { artifacts = project.artifacts; evidence = [] }) w)
          else (let p =
                project_presentation needs_input (codes "The active modeling project is blocked.")
                  (codes "What additional information should be provided?") project in
              some (ok (elim project.public_error [ none ↦ p | some f ↦ failed_with p f ]))))
      else none

  abbrev pub settle_guard : ProjectView → Result FlowError Binding → Result FlowError Presentation
  settle_guard project (err e) = err e
  settle_guard project (ok b) = ok (source_question project)

  -- continueGuard; none lets the turn go on.
  unfoldable pub continue_guard :
      Binding → ProjectView → W → W × Option (Result FlowError Presentation)
  continue_guard binding project w = elim (guard_status project w) [
    | some r ↦ (w, some r)
    | none ↦ elim (find_operation turn.operations project.current_operation) [
      | none ↦ (w, some (err (flow_failed (codes "engine does not expose operation"))))
      | some op ↦
          if not op.requires_sources || not (length binding.sources == 0)
          then (w, none)
          else (let (w', saved) =
                services.save_binding
                  (record binding { awaiting = awaiting_source; updated_at = services.now w })
                  binding.version w in
              (w', some (settle_guard project saved)))
    ]
  ]

  -- The branch IntentContinue of Handle, for a project.
  unfoldable pub continue_project : Binding → ProjectView → W → W × Result FlowError Presentation
  continue_project binding project w =
      let (w', stopped) = continue_guard binding project w in
      elim stopped [
        | some r ↦ (w', r)
        | none ↦ advance_until_boundary services turn binding project w'
      ]

  -- The switch of provideInput: the binding with what was awaited.
  unfoldable pub accept_input : Binding → Intent → Result FlowError Binding
  accept_input binding intent = elim binding.awaiting [
    | awaiting_requirement ↦ do
      refuse (is_empty intent.title && is_empty intent.instruction)
          (flow_failed (codes "requirement input is empty"))
      check_given_title turn.rune_count intent.title
      checked_by (validate_instruction intent.instruction) (codes "invalid instruction")
      ok (record binding {
        title = if is_empty intent.title then binding.title else trim_space intent.title;
        instruction =
            if is_empty intent.instruction
            then binding.instruction
            else trim_space intent.instruction;
      })
    | awaiting_source ↦ do
      checked_by (validate_sources intent.sources) (codes "invalid sources")
      refuse (length intent.sources == 0) (flow_failed (codes "source input is empty"))
      ok (record binding { sources = intent.sources })
    | awaiting_none ↦ err (flow_failed (codes "no input is currently awaited"))
    | awaiting_other t ↦ err (flow_failed (codes "unknown awaiting state"))
  ]

  unfoldable pub continue_saved :
      Result FlowError Binding → ProjectView → W → W × Result FlowError Presentation
  continue_saved (err e) project w = (w, err e)
  continue_saved (ok saved) project w = continue_project saved project w

  -- provideInput, for a project.
  unfoldable pub provide_input :
      Binding → ProjectView → Intent → W → W × Result FlowError Presentation
  provide_input binding project intent w = elim (accept_input binding intent) [
    | err e ↦ (w, err e)
    | ok updated ↦
        let (w', saved) =
          services.save_binding
            (record updated { awaiting = awaiting_none; updated_at = services.now w })
            binding.version w in
        continue_saved saved project w'
  ]
