-- ===== src/Workflow/Advance/Bounded.antt =====
-- How many operations a turn runs.
use qemu_agent.Common.{
  ℕ, zero, suc, ◌+◌, ◌≤◌, [], true, ◌&&◌, if◌then◌else◌, arith, inl, inr, Result-cases,
  Option-cases, Bool-cases, ◌==◌, length, ◌>>◌,
}
use qemu_agent.Text.{codes, is_empty, trim_space}
use qemu_agent.Modeling.Types.{ℤ}
use qemu_agent.Api.{CallContext, validate_call}
use qemu_agent.Api.Views.{ProjectView, validate_project_view}
use qemu_agent.Api.Requests.{AdvanceRequest}
use qemu_agent.Workflow.{Binding, awaiting_source, find_operation}
use qemu_agent.Workflow.Turns.{Services, Turn, Outputs, checked_by}
use qemu_agent.Workflow.Advance.{
  at_boundary, run_operation, wait_for_sources, advance_round, advance_rounds,
  advance_until_boundary,
}
use qemu_agent.Workflow.Advance.Presented.{Round-cases}

-- A count of the operations that were asked of the service: an Advance adds at most one, and saving
-- a binding none.
pub record IsCount {W : Type 0} (services : Services W) (count : W → ℕ) : Type 0 where
  pub one_more :
      (call : CallContext) (request : AdvanceRequest) (w : W)
      → count (services.advance call request w).0 ≤ suc (count w)
  pub same_saved :
      (binding : Binding) (version : ℤ) (w : W)
      → count (services.save_binding binding version w).0 ≤ count w

module _ {W : Type 0} (services : Services W) (turn : Turn) (count : W → ℕ)
    (h : IsCount services count) where
  wait_for_sources-count :
      (binding : Binding) (view : ProjectView) (outputs : Outputs) (w : W)
      → count (wait_for_sources services turn binding view outputs w).0 ≤ suc (count w)
  unfolding wait_for_sources
  wait_for_sources-count binding view outputs w = omega (
    arith,
    h.same_saved (record binding { awaiting = awaiting_source; updated_at = services.now w })
        binding.version w,
  )

  advance_round-count :
      (ordinal : ℕ) (binding : Binding) (view : ProjectView) (outputs : Outputs) (w : W)
      → count (advance_round services turn ordinal binding view outputs w).0 ≤ suc (count w)
  unfolding advance_round run_operation
  advance_round-count ordinal binding view outputs w = elim (Option-cases (services.live w)) [
    | inr (e, over) ↦ rw (over, advance_round) (omega arith)
    | inl live ↦ elim (Option-cases (at_boundary view)) [
      | inr (p, there) ↦ rw (live, advance_round) (rw there (omega arith))
      | inl inside ↦ elim (Bool-cases (is_empty (trim_space view.current_operation))) [
        | inl blank ↦ rw (live, advance_round) (rw inside (rw blank (omega arith)))
        | inr named ↦ elim (Option-cases (find_operation turn.operations view.current_operation)) [
          | inl unknown ↦ rw (live, advance_round) (rw inside (rw (named, unknown) (omega arith)))
          | inr (op, known) ↦
              elim (Bool-cases (op.requires_sources && length binding.sources == 0)) [
                | inl lacking ↦
                    rw (live, advance_round)
                      (rw inside (
                        rw (named, known)
                          (rw lacking (wait_for_sources-count binding view outputs w))))
                | inr ready ↦
                    rw (live, advance_round)
                      (rw inside (rw (named, known) (rw ready (h.one_more _ _ w))))
              ]
        ]
      ]
    ]
  ]

  advance_rounds-count :
      (n ordinal : ℕ) (binding : Binding) (view : ProjectView) (outputs : Outputs) (w : W)
      → count (advance_rounds services turn n ordinal binding view outputs w).0 ≤ count w + n
  unfolding advance_rounds
  advance_rounds-count zero ordinal binding view outputs w = omega arith
  advance_rounds-count (suc n) ordinal binding view outputs w =
      let one = advance_round-count ordinal binding view outputs w in
      elim (Round-cases (advance_round services turn ordinal binding view outputs w).1) [
        | inl (result, stopped) ↦ rw (stopped, advance_rounds) (omega (arith, one))
        | inr (newer, more, going) ↦
            rw (going, advance_rounds)
              (omega (
                arith,
                one,
                advance_rounds-count n (suc ordinal) binding newer more
                    (advance_round services turn ordinal binding view outputs w).0,
              ))
      ]

  -- A turn asks the service for at most as many operations as its limit says, and for at most one if
  -- the limit is 0, for any count that an Advance raises by at most one and saving a binding does not.
  pub advance_until_boundary-bounded :
      (binding : Binding) (view : ProjectView) (w : W)
      → count (advance_until_boundary services turn binding view w).0
        ≤ count w + (if turn.max_operations == 0 then 1 else turn.max_operations)
  unfolding advance_until_boundary
  advance_until_boundary-bounded binding view w = elim (Option-cases (services.live w)) [
    | inr (e, over) ↦ rw (over, advance_until_boundary) (omega arith)
    | inl live ↦
        elim (Result-cases (
          checked_by (validate_project_view turn.rune_count view) (codes "invalid starting project")
          >> checked_by (validate_call turn.call true) (codes "invalid call"))) [
            | inr (e, bad) ↦ rw (live, advance_until_boundary) (rw bad (omega arith))
            | inl (checked, fine) ↦
                rw (live, advance_until_boundary)
                  (rw fine (
                    advance_rounds-count
                      (if turn.max_operations == 0 then 1 else turn.max_operations) 0 binding view
                      (record { artifacts = []; evidence = [] }) w))
          ]
  ]
