-- ===== src/Tests/Workflows.antt =====
-- Instances of the theorems on the modeling workflow, over a service that counts its calls.
use qemu_agent.Common.{
  ℕ, suc, ◌+◌, ◌≤◌, [], ◌∷◌, ◌≡◌, refl, none, some, true, false, ok, err, arith, length, is_ok,
}
use qemu_agent.Text.{codes}
use qemu_agent.Modeling.Types.{ℤ, next_int}
use qemu_agent.Api.{
  CallContext, has_control_char, is_lower_hex, parse_project_id, parse_artifact_id,
  validate_operation_name, validate_call, validate_title,
}
use qemu_agent.Api.Views.{
  ProjectView, OperationDescriptor, OperationResult, check_all, validate_project_view,
  validate_operation_result, Capabilities, validate_capabilities, check_operations, check_operation,
  check_kind_names,
}
use qemu_agent.Workflow.{
  BindingKey, Binding, awaiting_none, flow_failed, find_operation, select_review_artifact,
  validate_presentation,
}
use qemu_agent.Workflow.Bindings.{
  BindingFiles, key_parts, parts_discrete, validate_binding_key, compare_and_save,
}
use qemu_agent.Workflow.Bindings.Once.{at_once, compare_and_save-once}
use qemu_agent.Workflow.Turns.{Services, Turn}
use qemu_agent.Workflow.Advance.{
  at_boundary, validate_advance_result, settle_result_of, settle_advance, run_operation,
  advance_round, advance_rounds, advance_until_boundary,
}
use qemu_agent.Workflow.Advance.Presented.{IsPresentable, advance_until_boundary-IsPresentable}
use qemu_agent.Workflow.Advance.Bounded.{IsCount}
use qemu_agent.Workflow.Start.{Intent, intent_continue}
use qemu_agent.Workflow.Input.{guard_status, continue_guard, continue_project}
use qemu_agent.Workflow.Handle.{
  Desk, Request, check_handle, show_active, handle_project, handle_intent, present_result,
  open_turn, handle_request,
}
use qemu_agent.Workflow.Handle.Bounded.{IsDeskCount, handle_request-bounded}
use qemu_agent.Tests.Samples.{computes}

workflow_runs : Unit {0}
unfolding has_control_char is_lower_hex parse_project_id parse_artifact_id validate_operation_name
    validate_call validate_title check_all validate_project_view validate_operation_result
    find_operation select_review_artifact validate_binding_key compare_and_save parts_discrete
    at_boundary validate_advance_result settle_result_of settle_advance run_operation advance_round
    advance_rounds advance_until_boundary next_int
workflow_runs = tt

handle_runs : Unit {0}
unfolding guard_status continue_guard continue_project check_handle show_active handle_project
    handle_intent present_result open_turn handle_request validate_capabilities check_operations
    check_operation check_kind_names validate_presentation
handle_runs = tt

abbrev talk : BindingKey
talk = record { workspace_id = codes "lab"; user_id = codes "ada"; conversation_id = codes "s1" }

abbrev bound : Binding
bound = record {
  key = talk;
  version = ℤ.pos 0;
  active_project_id = codes "mp-0123456789abcdef";
  title = codes "timer";
  instruction = codes "model a timer";
  sources = [];
  awaiting = awaiting_none;
  updated_at = 5;
}

abbrev bound_next : Binding
bound_next = record bound { version = ℤ.pos 1 }

abbrev bound_files : BindingFiles
bound_files = (key_parts talk, bound_next) ∷ []

bound_saves : compare_and_save none bound (ℤ.pos 0) true [] ≡ ok (bound_files, bound_next)
unfolding computes workflow_runs
bound_saves = refl

compare_and_save-once_example :
    is_ok (compare_and_save none bound (ℤ.pos 0) true bound_files) ≡ false
compare_and_save-once_example =
    compare_and_save-once none none bound bound (ℤ.pos 0) true true [] bound_files bound_files
      bound_next bound_saves (at_once bound_files) refl

abbrev caller : CallContext
caller = record {
  request_id = codes "r1";
  trace_id = codes "t1";
  workspace_id = codes "lab";
  user_id = codes "ada";
  session_id = codes "s1";
  session_key = [];
  channel = codes "cli";
  interactive = true;
  idempotency_key = codes "i1";
}

abbrev plan_operation : OperationDescriptor
plan_operation = record {
  name = codes "plan";
  display_name = [];
  description = [];
  requires_sources = false;
  mutating = true;
  may_block = false;
}

-- The project after n operations.
abbrev viewed : ℕ → ProjectView
viewed n = record {
  id = codes "mp-0123456789abcdef";
  title = codes "timer";
  revision = ℤ.pos n;
  status = codes "pending";
  current_operation = codes "plan";
  recommended = [];
  artifacts = [];
  evidence_count = ℤ.pos 0;
  blocked_reason = [];
  public_error = none;
  created_at = 1;
  updated_at = 2;
}

abbrev advanced : ℕ → OperationResult
advanced n = record {
  project = viewed n;
  operation = codes "plan";
  status = codes "succeeded";
  artifacts = [];
  evidence = [];
  summary = [];
  is_blocked = false;
  reason = [];
  apply = none;
}

-- Its state is the number of operations so far.
abbrev counting : Services ℕ
counting = record {
  live = λ n. none;
  show = λ call id n. ok (viewed n);
  create = λ call title n. (n, ok (viewed n));
  advance = λ call request n. (suc n, ok (advanced (suc n)));
  read_artifact = λ call project id limit n. err (flow_failed (codes "no artifact"));
  save_binding = λ binding version n. (n, ok binding);
  now = λ n. 9;
}

abbrev same_count : ℕ → ℕ
same_count n = n

counting-IsCount : IsCount counting same_count
counting-IsCount = record {
  one_more = λ call request n. omega arith;
  same_saved = λ binding version n. omega arith;
}

abbrev two_operations : Turn
two_operations = record {
  call = caller;
  max_operations = 2;
  artifact_limit = 100;
  operations = plan_operation ∷ [];
  derive = λ parent method project operation ordinal. parent;
  rune_count = length;
  digest = λ s. s;
}

two_operations_run : (advance_until_boundary counting two_operations bound (viewed 0) 0).0 ≡ 2
unfolding computes workflow_runs
two_operations_run = refl

abbrev plan_only : Capabilities
plan_only = record {
  api_version = codes "1";
  engine_name = codes "engine";
  engine_version = codes "1";
  operations = plan_operation ∷ [];
  artifact_kinds = [];
}

abbrev go_on : Intent
go_on = record {
  kind = intent_continue;
  title = [];
  instruction = [];
  sources = [];
  artifact_id = [];
}

-- The conversation is bound to the project, and every request is read as one to go on with it.
abbrev busy_desk : Desk ℕ
busy_desk = record {
  services = counting;
  capabilities = λ call n. ok plan_only;
  load = λ key n. ok (some bound);
  evidence = λ call id n. err (flow_failed (codes "no evidence"));
  interpret = λ input n. (n, ok go_on);
  present = λ p n. (n, ok (codes "done"));
}

busy_desk-IsDeskCount : IsDeskCount busy_desk same_count
busy_desk-IsDeskCount = record {
  in_turn = counting-IsCount;
  same_created = λ call title n. omega arith;
  same_interpreted = λ input n. omega arith;
  same_presented = λ p n. omega arith;
}

abbrev please : Request
please = record { history = []; text = codes "go on"; has_history = false }

handle_request_runs : (handle_request busy_desk two_operations please 0).0 ≡ 2
unfolding computes workflow_runs handle_runs
handle_request_runs = refl

handle_request-bounded_example : (handle_request busy_desk two_operations please 0).0 ≤ 0 + 2
handle_request-bounded_example =
    handle_request-bounded busy_desk two_operations same_count busy_desk-IsDeskCount please 0

advance_until_boundary-IsPresentable_example :
    IsPresentable (advance_until_boundary counting two_operations bound (viewed 0) 0).1
advance_until_boundary-IsPresentable_example =
    advance_until_boundary-IsPresentable counting two_operations bound (viewed 0) 0
