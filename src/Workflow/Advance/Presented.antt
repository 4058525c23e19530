-- ===== src/Workflow/Advance/Presented.antt =====
-- What a turn presents, and how often it calls the service.
use qemu_agent.Common.{
  ℕ, zero, suc, ◌≡◌, refl, subst, [], Option, none, some, true, ◌&&◌, not, if◌then◌else◌, ◌⊎◌, inl,
  inr, Result, ok, err, Result-cases, Option-cases, Bool-cases, ◌==◌, length, is_some, ◌>>◌,
}
use qemu_agent.Text.{codes, text_eq, is_empty, trim_space, trim_by, space_width, space_width_back}
use qemu_agent.Modeling.Ints.{lt_int}
use qemu_agent.Api.{validate_call}
use qemu_agent.Api.Views.{
  PublicError, ProjectView, OperationResult, operation_blocked, operation_failed, awaiting_apply,
  project_blocked, project_completed, validate_project_view,
}
use qemu_agent.Workflow.{
  FlowError, of_api, ended, version_conflict, flow_failed, select_review_artifact, Presentation,
  Binding, validate_presentation, find_operation,
}
use qemu_agent.Workflow.Turns.{
  Services, Turn, Outputs, shown, checked_by, read_bounded_artifact, awaiting_apply_presentation,
}
use qemu_agent.Workflow.Advance.{
  Round, stops, goes_on, at_boundary, validate_advance_result, present_failed, recover_advance,
  add_outputs, settle_result_of, settle_advance, settle_wait, run_operation, wait_for_sources,
  advance_round, advance_rounds, advance_until_boundary,
}

-- A result that, if it is a presentation, passes the check before it is presented.
abbrev pub IsPresentable : Result FlowError Presentation → Type 0
IsPresentable (ok p) = validate_presentation p ≡ ok tt
IsPresentable (err e) = Unit

abbrev IsPresentableRound : Round → Type 0
IsPresentableRound (stops r) = IsPresentable r
IsPresentableRound (goes_on view outputs) = Unit

abbrev IsPresentableOption : Outputs → Option Presentation → Type 0
IsPresentableOption outputs none = Unit
IsPresentableOption outputs (some p) = IsPresentable (shown p outputs)

pub Round-cases :
    (r : Round)
    → ((result : Result FlowError Presentation) × (r ≡ stops result))
      ⊎ ((view : ProjectView) × (outputs : Outputs) × (r ≡ goes_on view outputs))
Round-cases (stops result) = inl (result, refl)
Round-cases (goes_on view outputs) = inr (view, outputs, refl)

module _ {W : Type 0} (services : Services W) (turn : Turn) where
  awaiting_apply-IsPresentable :
      (view : ProjectView) (outputs : Outputs) (w : W)
      → IsPresentable (awaiting_apply_presentation services turn view outputs w)
  unfolding awaiting_apply_presentation validate_presentation
  awaiting_apply-IsPresentable view outputs w = elim (Option-cases (select_review_artifact view)) [
    | inl unclear ↦ rw (unclear, awaiting_apply_presentation) tt
    | inr (diff, clear) ↦ elim (Result-cases (read_bounded_artifact services turn view.id diff w)) [
      | inr (e, bad) ↦ rw (clear, awaiting_apply_presentation) (rw bad tt)
      | inl (content, read) ↦ rw (clear, awaiting_apply_presentation) (rw read refl)
    ]
  ]

  present_failed-IsPresentable :
      (latest : ProjectView) (outputs : Outputs) (failure : PublicError) (w : W)
      → IsPresentable (present_failed services turn latest outputs failure w)
  unfolding present_failed validate_presentation trim_space trim_by space_width space_width_back
  present_failed-IsPresentable latest outputs failure w =
      elim (Bool-cases (text_eq latest.blocked_reason awaiting_apply)) [
        | inl waits ↦ rw (waits, present_failed) (awaiting_apply-IsPresentable latest outputs w)
        | inr other ↦
            elim (Bool-cases
              (text_eq latest.status project_blocked && not (is_some latest.public_error))) [
                | inl blocked ↦ rw (other, present_failed) (rw blocked refl)
                | inr moved ↦ elim (Option-cases latest.public_error) [
                  | inl quiet ↦ rw (other, present_failed) (rw (moved, quiet) tt)
                  | inr (public, told) ↦ rw (other, present_failed) (rw moved (rw told refl))
                ]
              ]
      ]

  recover_advance-IsPresentable :
      (view : ProjectView) (outputs : Outputs) (e : FlowError) (w : W)
      → IsPresentable (recover_advance services turn view outputs e w)
  unfolding recover_advance
  recover_advance-IsPresentable view outputs (of_api failure) w =
      elim (Result-cases (services.show turn.call view.id w)) [
        | inr (e, missing) ↦ rw (missing, recover_advance) tt
        | inl (latest, seen) ↦
            elim (Bool-cases (text_eq latest.id view.id && lt_int view.revision latest.revision)) [
              | inr stale ↦ rw (seen, recover_advance) (rw stale tt)
              | inl newer ↦
                  elim (Result-cases (
                    checked_by (validate_project_view turn.rune_count latest)
                      (codes "invalid project after Advance failure"))) [
                        | inr (e, bad) ↦ rw (seen, recover_advance) (rw newer (rw bad tt))
                        | inl (checked, fine) ↦
                            rw (seen, recover_advance)
                              (rw newer
                                (rw fine (present_failed-IsPresentable latest outputs failure w)))
                      ]
            ]
      ]
  recover_advance-IsPresentable view outputs ended w = tt
  recover_advance-IsPresentable view outputs version_conflict w = tt
  recover_advance-IsPresentable view outputs (flow_failed reason) w = tt

  settle_result_of-IsPresentable :
      (result : OperationResult) (outputs : Outputs) (w : W)
      → IsPresentableRound (settle_result_of services turn result outputs w)
  unfolding settle_result_of validate_presentation trim_space trim_by space_width space_width_back
  settle_result_of-IsPresentable result outputs w =
      elim (Bool-cases (text_eq result.status operation_blocked)) [
        | inl blocked ↦ elim (Bool-cases (text_eq result.reason awaiting_apply)) [
          | inl waits ↦
              rw (blocked, settle_result_of)
                (rw waits (awaiting_apply-IsPresentable result.project outputs w))
          | inr other ↦ rw (blocked, settle_result_of) (rw other refl)
        ]
        | inr moved ↦ elim (Bool-cases (text_eq result.status operation_failed)) [
          | inl failed ↦ rw (moved, settle_result_of) (rw failed refl)
          | inr fine ↦ rw (moved, settle_result_of) (rw fine tt)
        ]
      ]

  at_boundary-IsPresentable :
      (view : ProjectView) (outputs : Outputs) → IsPresentableOption outputs (at_boundary view)
  unfolding at_boundary validate_presentation trim_space trim_by space_width space_width_back
  at_boundary-IsPresentable view outputs =
      elim (Bool-cases (text_eq view.status project_completed)) [
        | inl finished ↦ rw (finished, at_boundary) refl
        | inr unfinished ↦ elim (Bool-cases (text_eq view.status project_blocked)) [
          | inr moving ↦ rw (unfinished, at_boundary) (rw moving tt)
          | inl blocked ↦ elim (Option-cases view.public_error) [
            | inl quiet ↦ rw (unfinished, at_boundary) (rw (blocked, quiet) refl)
            | inr (public, told) ↦ rw (unfinished, at_boundary) (rw (blocked, told) refl)
          ]
        ]
      ]

  settle_advance-IsPresentable :
      (view : ProjectView) (outputs : Outputs) (advanced : Result FlowError OperationResult) (w : W)
      → IsPresentableRound (settle_advance services turn view outputs advanced w)
  unfolding settle_advance
  settle_advance-IsPresentable view outputs (err e) w =
      recover_advance-IsPresentable view outputs e w
  settle_advance-IsPresentable view outputs (ok result) w =
      elim (Result-cases (
        validate_advance_result turn.rune_count result view.id view.current_operation
          view.revision)) [
            | inr (e, bad) ↦ rw (bad, settle_advance) tt
            | inl (checked, fine) ↦
                rw (fine, settle_advance)
                  (settle_result_of-IsPresentable result (add_outputs services turn outputs result)
                    w)
          ]

  settle_wait-IsPresentable :
      (view : ProjectView) (outputs : Outputs) (saved : Result FlowError Binding)
      → IsPresentable (settle_wait services turn view outputs saved)
  unfolding validate_presentation trim_space trim_by space_width space_width_back
  settle_wait-IsPresentable view outputs (err e) = tt
  settle_wait-IsPresentable view outputs (ok b) = refl

  run_operation-IsPresentable :
      (ordinal : ℕ) (binding : Binding) (view : ProjectView) (outputs : Outputs) (w : W)
      → IsPresentableRound (run_operation services turn ordinal binding view outputs w).1
  unfolding run_operation
  run_operation-IsPresentable ordinal binding view outputs w =
      settle_advance-IsPresentable view outputs _ _

  wait_for_sources-IsPresentable :
      (binding : Binding) (view : ProjectView) (outputs : Outputs) (w : W)
      → IsPresentableRound (wait_for_sources services turn binding view outputs w).1
  unfolding wait_for_sources validate_presentation trim_space trim_by space_width space_width_back
  wait_for_sources-IsPresentable binding view outputs w = settle_wait-IsPresentable view outputs _

  advance_round-IsPresentable :
      (ordinal : ℕ) (binding : Binding) (view : ProjectView) (outputs : Outputs) (w : W)
      → IsPresentableRound (advance_round services turn ordinal binding view outputs w).1
  unfolding advance_round
  advance_round-IsPresentable ordinal binding view outputs w =
      elim (Option-cases (services.live w)) [
        | inr (e, over) ↦ rw (over, advance_round) tt
        | inl live ↦ elim (Option-cases (at_boundary view)) [
          | inr (p, there) ↦
              rw (live, advance_round)
                (rw there (
                  subst (IsPresentableOption outputs) there
                    (at_boundary-IsPresentable view outputs)))
          | inl inside ↦ elim (Bool-cases (is_empty (trim_space view.current_operation))) [
            | inl blank ↦ rw (live, advance_round) (rw inside (rw blank tt))
            | inr named ↦
                elim (Option-cases (find_operation turn.operations view.current_operation)) [
                  | inl unknown ↦ rw (live, advance_round) (rw inside (rw (named, unknown) tt))
                  | inr (op, known) ↦
                      elim (Bool-cases (op.requires_sources && length binding.sources == 0)) [
                        | inl lacking ↦
                            rw (live, advance_round)
                              (rw inside (
                                rw (named, known)
                                  (rw lacking
                                    (wait_for_sources-IsPresentable binding view outputs w))))
                        | inr ready ↦
                            rw (live, advance_round)
                              (rw inside (
                                rw (named, known)
                                  (rw ready
                                    (run_operation-IsPresentable ordinal binding view outputs w))))
                      ]
                ]
          ]
        ]
      ]

  advance_rounds-IsPresentable :
      (n ordinal : ℕ) (binding : Binding) (view : ProjectView) (outputs : Outputs) (w : W)
      → IsPresentable (advance_rounds services turn n ordinal binding view outputs w).1
  unfolding advance_rounds validate_presentation
  advance_rounds-IsPresentable zero ordinal binding view outputs w = refl
  advance_rounds-IsPresentable (suc n) ordinal binding view outputs w =
      elim (Round-cases (advance_round services turn ordinal binding view outputs w).1) [
        | inl (result, stopped) ↦
            rw (stopped, advance_rounds)
              (subst IsPresentableRound stopped
                (advance_round-IsPresentable ordinal binding view outputs w))
        | inr (newer, more, going) ↦
            rw (going, advance_rounds)
              (advance_rounds-IsPresentable n (suc ordinal) binding newer more
                (advance_round services turn ordinal binding view outputs w).0)
      ]

  -- Every presentation that advanceUntilBoundary returns passes validatePresentation, whatever the
  -- service answers.
  pub advance_until_boundary-IsPresentable :
      (binding : Binding) (view : ProjectView) (w : W)
      → IsPresentable (advance_until_boundary services turn binding view w).1
  unfolding advance_until_boundary
  advance_until_boundary-IsPresentable binding view w = elim (Option-cases (services.live w)) [
    | inr (e, over) ↦ rw (over, advance_until_boundary) tt
    | inl live ↦
        elim (Result-cases (
          checked_by (validate_project_view turn.rune_count view) (codes "invalid starting project")
          >> checked_by (validate_call turn.call true) (codes "invalid call"))) [
            | inr (e, bad) ↦ rw (live, advance_until_boundary) (rw bad tt)
            | inl (checked, fine) ↦
                rw (live, advance_until_boundary)
                  (rw fine (
                    advance_rounds-IsPresentable
                      (if turn.max_operations == 0 then 1 else turn.max_operations) 0 binding view
                      (record { artifacts = []; evidence = [] }) w))
          ]
  ]
