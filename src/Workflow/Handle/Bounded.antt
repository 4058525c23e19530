-- ===== src/Workflow/Handle/Bounded.antt =====
-- How many operations a request runs, whatever its intent.
use qemu_agent.Common.{
  ℕ, ◌+◌, ◌≤◌, ◌≡◌, refl, Option, some, Bool, true, false, ◌||◌, not, if◌then◌else◌, arith, inl,
  inr, Result, ok, err, Result-cases, Option-cases, Bool-cases, ◌==◌, length, ◌>>◌,
}
use qemu_agent.Text.{Text, codes, is_empty}
use qemu_agent.Api.{CallContext, validate_call}
use qemu_agent.Api.Views.{ProjectView, validate_project_view}
use qemu_agent.Workflow.{
  FlowError, Binding, BindingKey, Presentation, find_operation, validate_presentation,
}
use qemu_agent.Workflow.Turns.{Turn, checked_by}
use qemu_agent.Workflow.Advance.Bounded.{IsCount, advance_until_boundary-bounded}
use qemu_agent.Workflow.Start.{
  Intent, IntentKind, intent_start, intent_continue, intent_inspect, intent_provide_input,
  intent_read_artifact, intent_evidence, intent_start_new, intent_other, start, check_start,
  collect_start_input, ask_requirement, create_project, settle_created, bind_created,
}
use qemu_agent.Workflow.Input.{
  guard_status, continue_guard, continue_project, continue_saved, accept_input, provide_input,
}
use qemu_agent.Workflow.Handle.{
  Desk, Request, InterpretInput, handle_project, handle_without, show_active, handle_intent,
  present_result, settle_presentation, settle_intent, open_turn, handle_request,
}

abbrev pub operation_limit : Turn → ℕ
operation_limit turn = if turn.max_operations == 0 then 1 else turn.max_operations

-- A count that only an Advance raises, by at most one.
pub record IsDeskCount {W : Type 0} (desk : Desk W) (count : W → ℕ) : Type 0 where
  pub in_turn : IsCount desk.services count
  pub same_created :
      (call : CallContext) (title : Text) (w : W)
      → count (desk.services.create call title w).0 ≤ count w
  pub same_interpreted :
      (input : InterpretInput) (w : W) → count (desk.interpret input w).0 ≤ count w
  pub same_presented : (p : Presentation) (w : W) → count (desk.present p w).0 ≤ count w

module _ {W : Type 0} (desk : Desk W) (turn : Turn) (count : W → ℕ)
    (h : IsDeskCount desk count) where
  settle_created-count :
      (next : Binding) (created : Result FlowError ProjectView) (w : W)
      → count (settle_created desk.services turn next created w).0 ≤ count w
  unfolding settle_created bind_created
  settle_created-count next (err e) w = omega arith
  settle_created-count next (ok created) w =
      elim (Result-cases (
        checked_by (validate_project_view turn.rune_count created)
          (codes "Create returned an invalid project"))) [
            | inr (e, bad) ↦ rw (bad, settle_created) (omega arith)
            | inl (u, fine) ↦ rw (fine, settle_created) (h.in_turn.same_saved _ _ w)
          ]

  create_project-count :
      (next : Binding) (w : W) → count (create_project desk.services turn next w).0 ≤ count w
  unfolding create_project
  create_project-count next w =
      elim (Result-cases (checked_by (validate_call turn.call true) (codes "invalid call"))) [
        | inr (e, bad) ↦ rw (bad, create_project) (omega arith)
        | inl (u, fine) ↦
            rw (fine, create_project)
              (omega (arith, settle_created-count next _ _, h.same_created _ next.title w))
      ]

  start-count :
      (key : BindingKey) (current : Option Binding) (replace : Bool) (intent : Intent) (w : W)
      → count (start desk.services turn key current replace intent w).0 ≤ count w
  unfolding start ask_requirement
  start-count key current replace intent w = elim (Option-cases (desk.services.live w)) [
    | inr (e, over) ↦ rw (over, start) (omega arith)
    | inl live ↦
        elim (Result-cases (
          check_start key current replace
          >> collect_start_input turn.rune_count key current replace intent)) [
            | inr (e, bad) ↦ rw (live, start) (rw bad (omega arith))
            | inl (next, fine) ↦
                elim (Bool-cases (is_empty next.title || is_empty next.instruction)) [
                  | inl missing ↦
                      rw (live, start) (rw fine (rw missing (h.in_turn.same_saved _ _ w)))
                  | inr given ↦ rw (live, start) (rw fine (rw given (create_project-count next w)))
                ]
          ]
  ]

  continue_guard-count :
      (binding : Binding) (project : ProjectView) (w : W)
      → count (continue_guard desk.services turn binding project w).0 ≤ count w
  unfolding continue_guard
  continue_guard-count binding project w =
      elim (Option-cases (guard_status desk.services turn project w)) [
        | inr (r, stopped) ↦ rw (stopped, continue_guard) (omega arith)
        | inl free ↦
            elim (Option-cases (find_operation turn.operations project.current_operation)) [
              | inl unknown ↦ rw (free, continue_guard) (rw unknown (omega arith))
              | inr (op, known) ↦
                  elim (Bool-cases (not op.requires_sources || not (length binding.sources == 0))) [
                    | inl ready ↦ rw (free, continue_guard) (rw known (rw ready (omega arith)))
                    | inr lacking ↦
                        rw (free, continue_guard)
                          (rw known (rw lacking (h.in_turn.same_saved _ _ w)))
                  ]
            ]
      ]

  continue_project-count :
      (binding : Binding) (project : ProjectView) (w : W)
      → count (continue_project desk.services turn binding project w).0
        ≤ count w + operation_limit turn
  unfolding continue_project
  continue_project-count binding project w =
      let guarded = continue_guard-count binding project w in
      elim (Option-cases (continue_guard desk.services turn binding project w).1) [
        | inr (r, stopped) ↦ rw (stopped, continue_project) (omega (arith, guarded))
        | inl free ↦
            rw (free, continue_project)
              (omega (
                arith,
                guarded,
                advance_until_boundary-bounded desk.services turn count h.in_turn binding project
                    (continue_guard desk.services turn binding project w).0,
              ))
      ]

  continue_saved-count :
      (saved : Result FlowError Binding) (project : ProjectView) (w : W)
      → count (continue_saved desk.services turn saved project w).0 ≤ count w + operation_limit turn
  unfolding continue_saved
  continue_saved-count (err e) project w = omega arith
  continue_saved-count (ok saved) project w = continue_project-count saved project w

  provide_input-count :
      (binding : Binding) (project : ProjectView) (intent : Intent) (w : W)
      → count (provide_input desk.services turn binding project intent w).0
        ≤ count w + operation_limit turn
  unfolding provide_input
  provide_input-count binding project intent w =
      elim (Result-cases (accept_input desk.services turn binding intent)) [
        | inr (e, bad) ↦ rw (bad, provide_input) (omega arith)
        | inl (updated, fine) ↦
            rw (fine, provide_input)
              (omega
                (arith, h.in_turn.same_saved _ binding.version w, continue_saved-count _ project _))
      ]

  handle_project-count :
      (key : BindingKey) (binding : Binding) (project : ProjectView) (intent : Intent) (w : W)
      → (kind : IntentKind) → intent.kind ≡ kind
      → count (handle_project desk turn key binding project intent w).0
        ≤ count w + operation_limit turn
  unfolding handle_project
  handle_project-count key binding project intent w intent_start same =
      rw (same, handle_project) (omega arith)
  handle_project-count key binding project intent w intent_start_new same =
      rw (same, handle_project) (omega (arith, start-count key (some binding) true intent w))
  handle_project-count key binding project intent w intent_inspect same =
      rw (same, handle_project) (omega arith)
  handle_project-count key binding project intent w intent_continue same =
      rw (same, handle_project) (continue_project-count binding project w)
  handle_project-count key binding project intent w intent_provide_input same =
      rw (same, handle_project) (provide_input-count binding project intent w)
  handle_project-count key binding project intent w intent_read_artifact same =
      rw (same, handle_project) (omega arith)
  handle_project-count key binding project intent w intent_evidence same =
      rw (same, handle_project) (omega arith)
  handle_project-count key binding project intent w (intent_other t) same =
      rw (same, handle_project) (omega arith)

  handle_without-count :
      (key : BindingKey) (current : Option Binding) (intent : Intent) (w : W) (kind : IntentKind)
      → intent.kind ≡ kind
      → count (handle_without desk turn key current intent w).0 ≤ count w
  unfolding handle_without
  handle_without-count key current intent w intent_start same =
      rw (same, handle_without) (start-count key current false intent w)
  handle_without-count key current intent w intent_start_new same =
      rw (same, handle_without) (start-count key current true intent w)
  handle_without-count key current intent w intent_inspect same =
      rw (same, handle_without) (omega arith)
  handle_without-count key current intent w intent_continue same =
      rw (same, handle_without) (omega arith)
  handle_without-count key current intent w intent_provide_input same =
      rw (same, handle_without) (start-count key current false intent w)
  handle_without-count key current intent w intent_read_artifact same =
      rw (same, handle_without) (omega arith)
  handle_without-count key current intent w intent_evidence same =
      rw (same, handle_without) (omega arith)
  handle_without-count key current intent w (intent_other t) same =
      rw (same, handle_without) (omega arith)

  handle_intent-count :
      (key : BindingKey) (current : Option Binding) (intent : Intent) (w : W)
      → count (handle_intent desk turn key current intent w).0 ≤ count w + operation_limit turn
  unfolding handle_intent
  handle_intent-count key current intent w =
      elim (Result-cases (show_active desk turn current intent.kind w)) [
        | inr (e, bad) ↦ rw (bad, handle_intent) (omega arith)
        | inl (active, fine) ↦ elim (Option-cases active) [
          | inl alone ↦
              rw (fine, handle_intent)
                (rw alone
                  (omega (arith, handle_without-count key current intent w intent.kind refl)))
          | inr (pair, there) ↦
              rw (fine, handle_intent)
                (rw there (handle_project-count key pair.0 pair.1 intent w intent.kind refl))
        ]
      ]

  settle_presentation-count :
      (w : W) (shown : Result FlowError Presentation)
      → count (settle_presentation desk turn (w, shown)).0 ≤ count w
  unfolding present_result
  settle_presentation-count w (err e) = omega arith
  settle_presentation-count w (ok p) = elim (Result-cases (validate_presentation p)) [
    | inr (e, bad) ↦ rw (bad, present_result) (omega arith)
    | inl (u, fine) ↦ rw (fine, present_result) (h.same_presented p w)
  ]

  settle_intent-count :
      (key : BindingKey) (current : Option Binding) (w : W) (read : Result FlowError Intent)
      → count (settle_intent desk turn key current (w, read)).0 ≤ count w + operation_limit turn
  settle_intent-count key current w (err e) = omega arith
  settle_intent-count key current w (ok intent) = omega (
    arith,
    handle_intent-count key current intent w,
    settle_presentation-count (handle_intent desk turn key current intent w).0
        (handle_intent desk turn key current intent w).1,
  )

  settle_intent-interpret :
      (key : BindingKey) (current : Option Binding) (input : InterpretInput) (w : W)
      → count (settle_intent desk turn key current (desk.interpret input w)).0
        ≤ count w + operation_limit turn
  settle_intent-interpret key current input w = omega (
    arith,
    settle_intent-count key current (desk.interpret input w).0 (desk.interpret input w).1,
    h.same_interpreted input w,
  )

-- A request asks the service for at most as many operations as the limit of a turn, which is one if
-- it is 0, whatever the intent, for any count that only an Advance raises, by at most one.
pub handle_request-bounded :
    {W : Type 0} (desk : Desk W) (turn : Turn) (count : W → ℕ)
    → IsDeskCount desk count
    → (request : Request) (w : W)
    → count (handle_request desk turn request w).0 ≤ count w + operation_limit turn
unfolding handle_request
handle_request-bounded desk turn count h request w = elim (Option-cases (desk.services.live w)) [
  | inr (e, over) ↦ rw (over, handle_request) (omega arith)
  | inl live ↦ elim (Result-cases (open_turn desk turn.call request w)) [
    | inr (e, bad) ↦ rw (live, handle_request) (rw bad (omega arith))
    | inl (opened, fine) ↦
        rw (live, handle_request)
          (rw fine (
            settle_intent-interpret desk (record turn { operations = opened.0.operations }) count h
              _ opened.1 _ w))
  ]
]
