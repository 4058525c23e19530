-- ===== src/Security/Executor.antt =====
-- Executor, internal/tools/security/executor.go. The catalog, the policy, the approver, the redactor and
-- the audit sink are the interfaces of the source; the sink is asked with the number of its earlier calls,
-- and an event that it accepts is appended to the log.
use qemu_agent.Common.{
  ℕ, suc, ◌+◌, List, [], ◌∷◌, ◌++◌, Option, none, some, Bool, ◌&&◌, not, ◌==◌, if◌then◌else◌,
  Result, ok, err, ◌>>◌, refuse,
}
use qemu_agent.Text.{Text, codes, text_eq, is_empty, trim_space}
use qemu_agent.Security.{
  Decision, allow, deny, ask, Invocation, Assessment, Approval, CallResult, SecurityError, denied,
  approval_declined, failed, joined, ExecutionResult, Tool, AuditEvent,
}

pub record Executor (W : Type 0) : Type 0 where
  pub catalog : Text → Option (Tool W)
  pub policy : Invocation → Tool W → Result SecurityError Assessment
  pub approver : Invocation → Assessment → ℕ → Result SecurityError Approval
  pub audit : ℕ → Option SecurityError
  pub redact_arguments : Text → Text → Text
  pub redact_output : Text → Text → Text
  pub error_text : SecurityError → Text
  pub approval_timeout : ℕ

-- The clock at each of its readings.
pub record Times : Type 0 where
  pub at_approval : ℕ
  pub at_start : ℕ
  pub at_end : ℕ

-- What tools change, and the audit log with the number of the calls of its sink.
pub record World (W : Type 0) : Type 0 where
  pub outside : W
  pub log : List AuditEvent
  pub writes : ℕ

-- errors.Join of two errors that may be nil.
abbrev pub join_errors : Option SecurityError → Option SecurityError → Option SecurityError
join_errors none b = b
join_errors (some a) none = some a
join_errors (some a) (some b) = some (joined a b)

-- validateInvocation
unfoldable pub validate_invocation : Invocation → Result SecurityError (Unit {0})
validate_invocation inv = do
  refuse (is_empty (trim_space inv.id)) (failed (codes "invocation id is empty"))
  refuse (is_empty (trim_space inv.tool_name)) (failed (codes "invocation tool name is empty"))
  refuse (is_empty (trim_space inv.arguments)) (failed (codes "invocation arguments are empty"))
  refuse (inv.requested_at == 0) (failed (codes "invocation requested time is zero"))

abbrev pub no_call_result : CallResult
no_call_result = record {
  invocation_id = [];
  output = [];
  persistent_output = [];
  decision = Decision.other [];
  rule = [];
  started_at = 0;
  finished_at = 0;
}

-- ProjectionChanged
abbrev pub is_projection_changed : CallResult → Bool
is_projection_changed r =
    not (is_empty r.persistent_output) && not (text_eq r.persistent_output r.output)

-- Normalize, of internal/tools/tool.go.
abbrev pub normalize_result : ExecutionResult → Result SecurityError ExecutionResult
normalize_result r =
    if is_empty r.model_output
    then err (failed (codes "tool model output is empty"))
    else if is_empty r.persistent_output
    then ok (record r { persistent_output = r.model_output })
    else ok r

-- What follows Execute of the tool, up to the result.
abbrev pub settle_result :
    ExecutionResult → Option SecurityError → ExecutionResult × Option SecurityError
settle_result r (some e) = (r, some e)
settle_result r none = elim (normalize_result r) [ err e ↦ (r, some e) | ok n ↦ (n, none) ]

-- `if execution.PersistentOutput == ""`
abbrev pub with_persistent : ExecutionResult → ExecutionResult
with_persistent r =
    if is_empty r.persistent_output then record r { persistent_output = r.model_output } else r

module _ {W : Type 0} (exec : Executor W) where
  -- resolveApproval: the approval travels with the error when it was declined.
  unfoldable pub resolve_approval :
      ℕ → Invocation → Assessment → Option Approval × Option SecurityError
  resolve_approval now inv a = elim a.decision [
    | allow ↦ (none, none)
    | deny ↦ (none, some (denied inv.tool_name a.rule a.reason))
    | ask ↦ (elim (exec.approver inv a (now + exec.approval_timeout)) [
      | err e ↦ (none, some e)
      | ok approval ↦
          if approval.approved
          then (some approval, none)
          else (some approval, some (approval_declined approval.reason))
    ])
    | Decision.other t ↦ (none, some (failed (codes "unsupported policy decision")))
  ]

  -- The event of writeAudit.
  abbrev pub audit_event :
      Text
      → Invocation
      → Assessment
      → Option Approval
      → CallResult
      → Option SecurityError
      → AuditEvent
  audit_event phase inv a approval r e = record {
    phase = phase;
    invocation = inv;
    arguments = exec.redact_arguments inv.tool_name inv.arguments;
    assessment = a;
    approval = approval;
    output = exec.redact_output inv.tool_name r.output;
    error = elim e [ none ↦ [] | some x ↦ exec.redact_output inv.tool_name (exec.error_text x) ];
    started_at = r.started_at;
    finished_at = r.finished_at;
    projection_changed = is_projection_changed r;
    persistent_output =
        if is_projection_changed r
        then exec.redact_output inv.tool_name r.persistent_output
        else [];
  }

  -- writeAudit
  abbrev pub write_audit : AuditEvent → World W → World W × Option SecurityError
  write_audit event w = elim (exec.audit w.writes) [
    | some e ↦ (record w { writes = suc w.writes }, some e)
    | none ↦ (record w { writes = suc w.writes; log = w.log ++ (event ∷ []) }, none)
  ]

  -- Execute from the call of the tool on.
  unfoldable pub run_tool :
      Times
      → Invocation
      → Tool W
      → Assessment
      → Option Approval
      → World W
      → World W × CallResult × Option SecurityError
  run_tool times inv tool a approval w =
      let (outside, raw, raw_error) = tool.execute inv.arguments w.outside in
      let (settled, exec_error) = settle_result raw raw_error in
      let execution = with_persistent settled in
      let result : CallResult = record {
        invocation_id = inv.id;
        output = execution.model_output;
        persistent_output = execution.persistent_output;
        decision = a.decision;
        rule = a.rule;
        started_at = times.at_start;
        finished_at = times.at_end;
      } in
      let (w', audit_error) =
        write_audit (audit_event (codes "completed") inv a approval result exec_error)
          (record w { outside = outside }) in
      (w', result, join_errors exec_error audit_error)

  -- Execute from the approval on.
  unfoldable pub authorize :
      Times
      → Invocation
      → Tool W
      → Assessment
      → World W
      → World W × CallResult × Option SecurityError
  authorize times inv tool a w =
      let (approval, decision_error) = resolve_approval times.at_approval inv a in
      elim decision_error [
        | some e ↦
            let (w', audit_error) =
              write_audit (audit_event (codes "decision") inv a approval no_call_result (some e))
                w in
            (w', no_call_result, join_errors (some e) audit_error)
        | none ↦
            let started : CallResult = record no_call_result { started_at = times.at_start } in
            let (w', audit_error) =
              write_audit (audit_event (codes "authorized") inv a approval started none) w in
            elim audit_error [
              | some e ↦ (w', no_call_result, some e)
              | none ↦ run_tool times inv tool a approval w'
            ]
      ]

  -- Execute
  unfoldable pub execute :
      Option SecurityError
      → Times
      → Invocation
      → World W
      → World W × CallResult × Option SecurityError
  execute ctx times inv w = elim (validate_invocation inv) [
    | err e ↦ (w, no_call_result, some e)
    | ok u ↦ elim ctx [
      | some e ↦ (w, no_call_result, some e)
      | none ↦ elim (exec.catalog inv.tool_name) [
        | none ↦ (w, no_call_result, some (failed (codes "tool not found")))
        | some tool ↦ elim (exec.policy inv tool) [
          | err e ↦ (w, no_call_result, some e)
          | ok a ↦ authorize times inv tool a w
        ]
      ]
    ]
  ]
