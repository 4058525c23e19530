-- ===== src/Tests/Calls.antt =====
-- Instances of the theorems on tool security, with a tool that counts its calls.
use qemu_agent.Common.{ℕ, suc, [], ◌≡◌, refl, ◌⊎◌, none, some, Bool, true, false, arith, ok}
use qemu_agent.Text.{codes, lower_from, text_eq}
use qemu_agent.Security.{Invocation, Tool}
use qemu_agent.Security.Policy.{
  Mode, ask_dangerous, deny_dangerous, contains_any, starts_any, analyze_command, analyze, evaluate,
}
use qemu_agent.Security.Executor.{
  Executor, Times, World, validate_invocation, resolve_approval, run_tool, authorize, execute,
}
use qemu_agent.Security.Authorized.{IsAuthorized, execute-IsAuthorized, execute-denied}
use qemu_agent.Tests.Samples.{computes}

calls : Unit {0}
unfolding contains_any starts_any analyze_command analyze evaluate validate_invocation
    resolve_approval run_tool authorize execute lower_from
calls = tt

abbrev counting : Tool ℕ
counting = record {
  name = codes "write";
  dangerous = true;
  execute = λ args n. (suc n, record { model_output = codes "done"; persistent_output = [] }, none);
}

-- Executes `write` under a mode, when the approver answers `answer`.
abbrev executor : Mode → Bool → Executor ℕ
executor mode answer = record {
  catalog = λ name. some counting;
  policy = λ inv tool. evaluate (λ raw. none) mode mode none inv tool;
  approver = λ inv a deadline.
      ok (record { approved = answer; actor = codes "ann"; reason = []; at_time = 20 });
  audit = λ n. none;
  redact_arguments = λ tool raw. raw;
  redact_output = λ tool raw. raw;
  error_text = λ e. [];
  approval_timeout = 60;
}

abbrev write_call : Invocation
write_call = record {
  id = codes "i1";
  trace_id = codes "t1";
  session_id = codes "s1";
  session_key = codes "cli";
  channel = codes "cli";
  interactive = true;
  tool_name = codes "write";
  arguments = codes "{}";
  requested_at = 10;
}

abbrev times : Times
times = record { at_approval = 15; at_start = 20; at_end = 30 }

abbrev quiet : World ℕ
quiet = record { outside = 0; log = []; writes = 0 }

runs_once : (execute (executor ask_dangerous true) none times write_call quiet).0.outside ≡ 1
unfolding computes calls
runs_once = refl

execute-IsAuthorized_example :
    ((execute (executor ask_dangerous true) none times write_call quiet).0.outside ≡ 0)
    ⊎ IsAuthorized
        (executor ask_dangerous true)
        times
        write_call
        quiet
        (execute (executor ask_dangerous true) none times write_call quiet).0
execute-IsAuthorized_example =
    execute-IsAuthorized (executor ask_dangerous true) none times write_call quiet

counting-dangerous :
    (tool : Tool ℕ)
    → some counting ≡ some tool
    → (tool.dangerous ≡ true) × (text_eq tool.name (codes "bash") ≡ false)
unfolding computes
counting-dangerous tool h = let same : counting ≡ tool = ground arith in rw (← same) (refl, refl)

execute-denied_example :
    (execute (executor deny_dangerous true) none times write_call quiet).0.outside ≡ 0
execute-denied_example =
    execute-denied (executor deny_dangerous true) (λ raw. none) deny_dangerous none times write_call
      quiet (λ tool. refl) counting-dangerous
