-- ===== src/Security/Ran.antt =====
-- Execute, as its caller sees it: the tool has run, or nothing has changed.
use qemu_agent.Common.{
  ◌≡◌, refl, sym, subst, ◌⊎◌, inl, inr, Option, none, some, arith, Result-cases, Option-cases,
}
use qemu_agent.Text.{codes}
use qemu_agent.Security.{
  Invocation, Assessment, Approval, CallResult, SecurityError, failed, joined, Tool, AuditEvent,
}
use qemu_agent.Security.Executor.{
  Executor, Times, World, no_call_result, join_errors, validate_invocation, resolve_approval,
  audit_event, write_audit, run_tool, authorize, execute,
}

module _ {W : Type 0} (exec : Executor W) where
  -- The call has changed nothing outside the log and reports an error.
  abbrev pub IsRefused : World W → World W × CallResult × Option SecurityError → Type 0
  IsRefused w r = (r.0.outside ≡ w.outside) × ((e : SecurityError) × (r.2 ≡ some e))

  -- The tool of the call's name has run on the call's arguments; when the call reports no error, the
  -- tool has reported none.
  pub record IsRun (inv : Invocation) (w : World W)
      (r : World W × CallResult × Option SecurityError) : Type 0 where
    pub tool : Tool W
    pub listed : exec.catalog inv.tool_name ≡ some tool
    pub outside : r.0.outside ≡ (tool.execute inv.arguments w.outside).0
    pub clean : r.2 ≡ none → (tool.execute inv.arguments w.outside).2 ≡ none

  abbrev pub IsSettled : Invocation → World W → World W × CallResult × Option SecurityError → Type 0
  IsSettled inv w r = IsRefused w r ⊎ IsRun inv w r

  write_audit-outside :
      (event : AuditEvent) (w : World W) → (write_audit exec event w).0.outside ≡ w.outside
  write_audit-outside event w = elim (Option-cases (exec.audit w.writes)) [
    | inl accepted ↦ ground arith
    | inr (x, e) ↦ ground arith
  ]

  join_errors-some :
      (x : SecurityError) (e : Option SecurityError)
      → (y : SecurityError) × (join_errors (some x) e ≡ some y)
  join_errors-some x none = (x, refl)
  join_errors-some x (some y) = (joined x y, refl)

  run_tool-outside :
      (times : Times) (inv : Invocation) (tool : Tool W) (a : Assessment)
      (approval : Option Approval) (w : World W)
      → (run_tool exec times inv tool a approval w).0.outside
        ≡ (tool.execute inv.arguments w.outside).0
  unfolding run_tool
  run_tool-outside times inv tool a approval w =
      write_audit-outside _ (record w { outside = (tool.execute inv.arguments w.outside).0 })

  run_tool-failed :
      (times : Times) (inv : Invocation) (tool : Tool W) (a : Assessment)
      (approval : Option Approval) (w : World W) (x : SecurityError)
      → (tool.execute inv.arguments w.outside).2 ≡ some x
      → (y : SecurityError) × ((run_tool exec times inv tool a approval w).2 ≡ some y)
  unfolding run_tool
  run_tool-failed times inv tool a approval w x failed_it = rw failed_it (join_errors-some x _)

  run_tool-IsRun :
      (times : Times) (inv : Invocation) (tool : Tool W) (a : Assessment)
      (approval : Option Approval) (w w1 : World W)
      → exec.catalog inv.tool_name ≡ some tool
      → w1.outside ≡ w.outside
      → IsRun inv w (run_tool exec times inv tool a approval w1)
  run_tool-IsRun times inv tool a approval w w1 listed same = record {
    tool = tool;
    listed = listed;
    outside = rw (← same) (run_tool-outside times inv tool a approval w1);
    clean = λ h. rw (← same) (elim (Option-cases (tool.execute inv.arguments w1.outside).2) [
      | inl clear ↦ clear
      | inr (x, failed_it) ↦
          let (y, failed_too) = run_tool-failed times inv tool a approval w1 x failed_it in
          absurd (ground arith)
    ]);
  }

  authorize-ran :
      (times : Times) (inv : Invocation) (tool : Tool W) (a : Assessment) (w : World W)
      → exec.catalog inv.tool_name ≡ some tool
      → IsSettled inv w (authorize exec times inv tool a w)
  unfolding authorize
  authorize-ran times inv tool a w listed =
      let (approval, decision_error) = resolve_approval exec times.at_approval inv a in
      elim (Option-cases decision_error) [
        | inr (x, refused) ↦
            let event =
              audit_event exec (codes "decision") inv a approval no_call_result (some x) in
            let (w', audit_error) = write_audit exec event w in
            let ended : authorize exec times inv tool a w
                ≡ (w', no_call_result, join_errors (some x) audit_error) =
              ground arith in
            subst (IsSettled inv w) (sym ended)
              (inl (write_audit-outside event w, join_errors-some x audit_error))
        | inl clear ↦
            let event =
              audit_event exec (codes "authorized") inv a approval
                (record no_call_result { started_at = times.at_start }) none in
            let (w', audit_error) = write_audit exec event w in
            elim (Option-cases audit_error) [
              | inr (x, unlogged) ↦
                  let ended : authorize exec times inv tool a w ≡ (w', no_call_result, some x) =
                    ground arith in
                  subst (IsSettled inv w) (sym ended) (inl (write_audit-outside event w, (x, refl)))
              | inl accepted ↦
                  let ended : authorize exec times inv tool a w
                      ≡ run_tool exec times inv tool a approval w' =
                    ground arith in
                  subst (IsSettled inv w) (sym ended) (
                    inr (
                      run_tool-IsRun times inv tool a approval w w' listed
                        (write_audit-outside event w)))
            ]
      ]

  -- Execute has run the tool, or it is refused.
  pub execute-ran :
      (ctx : Option SecurityError) (times : Times) (inv : Invocation) (w : World W)
      → IsSettled inv w (execute exec ctx times inv w)
  unfolding execute
  execute-ran ctx times inv w = elim (Result-cases (validate_invocation inv)) [
    | inr (x, e) ↦ inl (ground arith, (x, ground arith))
    | inl (u, e) ↦ elim (Option-cases ctx) [
      | inr (x, ended) ↦ inl (ground arith, (x, ground arith))
      | inl live ↦ elim (Option-cases (exec.catalog inv.tool_name)) [
        | inl missing ↦ inl (ground arith, (failed (codes "tool not found"), ground arith))
        | inr (tool, listed) ↦ elim (Result-cases (exec.policy inv tool)) [
          | inr (x, e2) ↦ inl (ground arith, (x, ground arith))
          | inl (a, assessed) ↦
              let same : execute exec ctx times inv w ≡ authorize exec times inv tool a w =
                ground arith in
              subst (IsSettled inv w) (sym same) (authorize-ran times inv tool a w listed)
        ]
      ]
    ]
  ]
