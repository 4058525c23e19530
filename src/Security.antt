-- ===== src/Security.antt =====
-- Tool security, internal/tools/security: the data of types.go, errors.go, approve.go and audit.go, and
-- Executor of executor.go, over the world that tools change and the audit log.
pub mod Policy
pub mod Executor
pub mod Ran
pub mod Authorized
use qemu_agent.Common.{ℕ, List, Option, Bool, Result}
use qemu_agent.Text.{Text}

-- Decision; `other` has a text that is none of the constants.
pub data Decision : Type 0 where
  allow deny ask : Decision
  other : Text → Decision

pub record Invocation : Type 0 where
  pub id : Text
  pub trace_id : Text
  pub session_id : Text
  pub session_key : Text
  pub channel : Text
  pub interactive : Bool
  pub tool_name : Text
  pub arguments : Text
  pub requested_at : ℕ

pub record Assessment : Type 0 where
  pub decision : Decision
  pub rule : Text
  pub reason : Text
  pub summary : Text

pub record Approval : Type 0 where
  pub approved : Bool
  pub actor : Text
  pub reason : Text
  pub at_time : ℕ

-- Result
pub record CallResult : Type 0 where
  pub invocation_id : Text
  pub output : Text
  pub persistent_output : Text
  pub decision : Decision
  pub rule : Text
  pub started_at : ℕ
  pub finished_at : ℕ

-- The errors that wrap a sentinel of the package, the others by their text, and `errors.Join`.
pub data SecurityError : Type 0 where
  denied : Text → Text → Text → SecurityError
  approval_declined : Text → SecurityError
  failed : Text → SecurityError
  joined : SecurityError → SecurityError → SecurityError

-- ExecutionResult, of internal/tools/tool.go.
pub record ExecutionResult : Type 0 where
  pub model_output : Text
  pub persistent_output : Text

-- tools.Tool, which may change the world also when it fails.
pub record Tool (W : Type 0) : Type 0 where
  pub name : Text
  pub dangerous : Bool
  pub execute : Text → W → W × ExecutionResult × Option SecurityError

pub record AuditEvent : Type 0 where
  pub phase : Text
  pub invocation : Invocation
  pub arguments : Text
  pub assessment : Assessment
  pub approval : Option Approval
  pub output : Text
  pub error : Text
  pub started_at : ℕ
  pub finished_at : ℕ
  pub projection_changed : Bool
  pub persistent_output : Text
