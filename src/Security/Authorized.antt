-- ===== src/Security/Authorized.antt =====
-- When a tool runs: what Execute has checked and logged by then.
use mathlib.Core.List.{append-nil}
use qemu_agent.Common.{
  suc, ◌+◌, List, [], ◌∷◌, ◌++◌, ◌≡◌, refl, ◌⊎◌, inl, inr, Option, none, some, true, false, ok,
  arith, Result-cases, Option-cases,
}
use qemu_agent.Text.{Text, codes, text_eq}
use qemu_agent.Security.{
  Decision, allow, deny, ask, Invocation, Assessment, Approval, SecurityError, Tool, AuditEvent,
}
use qemu_agent.Security.Policy.{Mode, deny_dangerous, evaluate}
use qemu_agent.Security.Executor.{
  Executor, Times, World, no_call_result, validate_invocation, resolve_approval, audit_event,
  write_audit, run_tool, authorize, execute,
}

module _ {W : Type 0} (exec : Executor W) where
  -- The call is permitted: the policy allows it, or asks and the approver, when it is asked about this
  -- call with the deadline of the timeout, answers with this approval and it approves.
  abbrev pub IsPermitted : Times → Invocation → Assessment → Option Approval → Type 0
  IsPermitted times inv a approval =
      ((a.decision ≡ allow) × (approval ≡ none))
      ⊎ ((a.decision ≡ ask)
          × ((given : Approval) × (approval ≡ some given)
              × (exec.approver inv a (times.at_approval + exec.approval_timeout) ≡ ok given)
              × (given.approved ≡ true)))

  -- What has happened when a tool was called: the catalog has it, its call is permitted, and the log has
  -- an event of the authorization, before anything that follows.
  pub record IsAuthorized (times : Times) (inv : Invocation) (w w' : World W) : Type 0 where
    pub tool : Tool W
    pub assessment : Assessment
    pub approval : Option Approval
    pub listed : exec.catalog inv.tool_name ≡ some tool
    pub assessed : exec.policy inv tool ≡ ok assessment
    pub permitted : IsPermitted times inv assessment approval
    pub later : List AuditEvent
    pub logged :
        w'.log
        ≡ (w.log
            ++ (audit_event exec
                  (codes "authorized")
                  inv
                  assessment
                  approval
                  (record no_call_result { started_at = times.at_start })
                  none
                ∷ []))
          ++ later

  resolve_approval-IsPermitted :
      (times : Times) (inv : Invocation) (a : Assessment) (approval : Option Approval)
      → resolve_approval exec times.at_approval inv a ≡ (approval, none)
      → IsPermitted times inv a approval
  unfolding resolve_approval
  resolve_approval-IsPermitted times inv a approval h = decision_case a.decision refl
    where
      decision_case : (d : Decision) → a.decision ≡ d → IsPermitted times inv a approval
      decision_case allow e = inl (e, ground arith)
      decision_case deny e = absurd (ground arith)
      decision_case ask e =
          elim (Result-cases (exec.approver inv a (times.at_approval + exec.approval_timeout))) [
            | inr (x, e2) ↦ absurd (ground arith)
            | inl (given, e2) ↦ inr (e, (given, ground arith, e2, ground arith))
          ]
      decision_case (Decision.other t) e = absurd (ground arith)

  write_audit-log :
      (event : AuditEvent) (w : World W)
      → (rest : List AuditEvent) × ((write_audit exec event w).0.log ≡ w.log ++ rest)
  write_audit-log event w = elim (Option-cases (exec.audit w.writes)) [
    | inl accepted ↦ (event ∷ [], ground arith)
    | inr (x, e) ↦ ([], ground (arith, append-nil w.log))
  ]

  run_tool-log :
      (times : Times) (inv : Invocation) (tool : Tool W) (a : Assessment)
      (approval : Option Approval) (w : World W)
      → (rest : List AuditEvent) × ((run_tool exec times inv tool a approval w).0.log
          ≡ w.log ++ rest)
  unfolding run_tool
  run_tool-log times inv tool a approval w =
      write_audit-log _ (record w { outside = (tool.execute inv.arguments w.outside).0 })

  -- Execute leaves the world as it is, or the call was authorized: the catalog has the tool, the policy
  -- allows the call or asks and the approver, asked about this call with the deadline of the timeout,
  -- approves it, and the log has got an event that says so.
  pub execute-IsAuthorized :
      (ctx : Option SecurityError) (times : Times) (inv : Invocation) (w : World W)
      → ((execute exec ctx times inv w).0.outside ≡ w.outside)
        ⊎ IsAuthorized times inv w (execute exec ctx times inv w).0
  unfolding execute authorize
  execute-IsAuthorized (some x) times inv w = inl (ground arith)
  execute-IsAuthorized none times inv w = elim (Result-cases (validate_invocation inv)) [
    | inr (x, e) ↦ inl (ground arith)
    | inl (u, e) ↦ elim (Option-cases (exec.catalog inv.tool_name)) [
      | inl missing ↦ inl (ground arith)
      | inr (tool, listed) ↦ elim (Result-cases (exec.policy inv tool)) [
        | inr (x, e2) ↦ inl (ground arith)
        | inl (a, assessed) ↦
            let (approval, decision_error) = resolve_approval exec times.at_approval inv a in
            elim (Option-cases decision_error) [
              | inr (x, refused) ↦ inl (ground arith)
              | inl clear ↦
                  let event =
                    audit_event exec (codes "authorized") inv a approval
                      (record no_call_result { started_at = times.at_start }) none in
                  elim (Option-cases (exec.audit w.writes)) [
                    | inr (x, unlogged) ↦ inl (ground arith)
                    | inl accepted ↦
                        let w1 = record w { writes = suc w.writes; log = w.log ++ (event ∷ []) } in
                        let (rest, ran) = run_tool-log times inv tool a approval w1 in
                        inr (record {
                          tool = tool;
                          assessment = a;
                          approval = approval;
                          listed = listed;
                          assessed = assessed;
                          permitted =
                              resolve_approval-IsPermitted times inv a approval (ground arith);
                          later = rest;
                          logged = ground arith;
                        })
                  ]
            ]
      ]
    ]
  ]

module _ {W : Type 0} (exec : Executor W) where
  -- Under the policy that denies dangerous tools, no call of a dangerous tool other than bash changes the
  -- world.
  pub execute-denied :
      (decoded : Text → Option Text) (bash_mode : Mode) (ctx : Option SecurityError) (times : Times)
      (inv : Invocation) (w : World W)
      → ((tool : Tool W)
          → exec.policy inv tool ≡ evaluate decoded deny_dangerous bash_mode ctx inv tool)
      → ((tool : Tool W)
          → exec.catalog inv.tool_name ≡ some tool
          → (tool.dangerous ≡ true) × (text_eq tool.name (codes "bash") ≡ false))
      → (execute exec ctx times inv w).0.outside ≡ w.outside
  unfolding evaluate
  execute-denied decoded bash_mode (some x) times inv w policy dangerous =
      elim (execute-IsAuthorized exec (some x) times inv w) [
        | inl same ↦ same
        | inr v ↦ absurd (ground (arith, policy v.tool, v.assessed))
      ]
  execute-denied decoded bash_mode none times inv w policy dangerous =
      elim (execute-IsAuthorized exec none times inv w) [
        | inl same ↦ same
        | inr v ↦
            let (is_dangerous, not_bash) = dangerous v.tool v.listed in
            let judged = policy v.tool in
            let decided = v.assessed in
            let denied_it : v.assessment.decision ≡ deny = ground arith in
            elim v.permitted [
              | inl (allowed, e) ↦ absurd (ground arith)
              | inr (asked, e) ↦ absurd (ground arith)
            ]
      ]
