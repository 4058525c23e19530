-- ===== src/Tests/Landing.antt =====
-- Instances of the theorems on the applier: a project with two files to land, over a tree with one.
use qemu_agent.Common.{
  ℕ, List, [], ◌∷◌, ◌++◌, ◌≡◌, refl, Option, ◌&&◌, none, some, Bool, true, false, arith, ok,
  if◌then◌else◌, ◌==◌,
}
use qemu_agent.Text.{Text, text_eq, codes}
use qemu_agent.Files.{FilePath, path_eq, Files, clean_relative_from, join_slash, clean_relative}
use qemu_agent.Modeling.Types.{Stage, Status, running, Kind, ArtifactRef}
use qemu_agent.Modeling.Project.{Project}
use qemu_agent.Modeling.Store.{Store, stored, indexed}
use qemu_agent.Modeling.Store.Safe.{IsStore}
use qemu_agent.Modeling.Apply.{
  create, modify, FileChange, ApplyPlan, validate_path, validate_change, lists_path, check_changes,
  validate_plan,
}
use qemu_agent.Modeling.Applier.{
  resolved, Site, ApplyHost, find_last, walk_up, resolve, read_target, change, changes,
  read_checked, plan,
}
use qemu_agent.Modeling.Applier.Landing.{
  PendingWrite, Landing, write_all, prepare_change, prepare, commit_plan, record_outcome,
  settle_apply, land, apply,
}
use qemu_agent.Security.{allow}
use qemu_agent.Security.Executor.{
  Executor, validate_invocation, resolve_approval, run_tool, authorize, execute,
}
use qemu_agent.Modeling.Applier.Course.{IsReport, apply-IsReport}
use qemu_agent.Modeling.Applier.Tool.{
  Requested, absolute, wrote, stopped, WriteHost, resolve_above, resolve_links, resolve_path,
  write_at, execute_write, write_tool, ToolHost, run_write,
}
use qemu_agent.Modeling.Applier.Recorded.{IsLanded, apply-IsLanded}
use qemu_agent.Tests.Samples.{computes, timer_id, digest, plan_ref, created}
use qemu_agent.Tests.Runs.{runs, refs_of, counter, counter-CommitsDrafts, request}
use qemu_agent.Tests.Artifacts.{file_runs}

landings : Unit {0}
unfolding clean_relative_from join_slash clean_relative validate_path validate_change lists_path
    check_changes validate_plan find_last walk_up resolve read_target change changes read_checked
    plan resolve_above resolve_links resolve_path write_at execute_write run_write
    validate_invocation resolve_approval run_tool authorize execute write_all prepare_change prepare
    commit_plan record_outcome settle_apply land apply
landings = tt

abbrev emitted : Text → Kind → ArtifactRef
emitted name kind = record plan_ref { stage = Stage.emit; name = name; kind = kind }

abbrev waiting : Project
waiting = record created {
  current = Stage.emit;
  status = Status.blocked;
  artifacts = some (
      (
        Stage.emit,
        emitted (codes "apply-manifest.json") Kind.plan
            ∷ emitted (codes "device.diff") Kind.diff
            ∷ emitted (codes "timer.c") Kind.code
            ∷ emitted (codes "kconfig") Kind.code
            ∷ [],
      )
      ∷ []);
}

abbrev one_store : Store
one_store = stored (record { max = 2; by_id = []; files = [] }) waiting

abbrev config : FilePath
config = codes "qemu" ∷ codes "Kconfig" ∷ []

abbrev tree : Files
tree = (config, codes "config A") ∷ []

abbrev open_site : Site
open_site = record {
  eval_links = resolved;
  hidden = λ p. false;
  irregular = λ p. false;
  readable = λ p. true;
}

abbrev timer_target : FilePath
timer_target = codes "qemu" ∷ codes "hw" ∷ codes "timer.c" ∷ []

abbrev longer_config : Text
longer_config = codes "config A" ++ (10 ∷ codes "kconfig")

-- The arguments of the two writes.
abbrev encoded_write : FilePath → Text → Option Text
encoded_write target content =
    if path_eq target timer_target && text_eq content (codes "timer.c")
    then some (codes "1")
    else if path_eq target config && text_eq content longer_config
    then some (codes "2")
    else none

abbrev decoded_write : Text → Option (Requested × Text)
decoded_write args =
    if text_eq args (codes "1")
    then some (absolute timer_target, codes "timer.c")
    else some (absolute config, longer_config)

-- The write tool at the nth call: os.WriteFile stops and leaves the file empty when the test does not hold.
abbrev write_host : (ℕ → Bool) → ℕ → WriteHost
write_host allowed n = record {
  workspace = some (codes "qemu" ∷ []);
  decoded = decoded_write;
  ctx = none;
  eval_links = λ p. some p;
  made_parent = λ p. true;
  outcome = λ p content. if allowed n then wrote else stopped (some []);
}

abbrev write_executor : WriteHost → Executor Files
write_executor at = record {
  catalog = λ name. if text_eq name (codes "write") then some (write_tool at) else none;
  policy = λ inv tool. ok (record { decision = allow; rule = []; reason = []; summary = [] });
  approver =
      λ inv a deadline. ok (record { approved = false; actor = []; reason = []; at_time = 20 });
  audit = λ n. none;
  redact_arguments = λ tool raw. raw;
  redact_output = λ tool raw. raw;
  error_text = λ e. [];
  approval_timeout = 60;
}

abbrev tool_host : (ℕ → Bool) → ToolHost
tool_host allowed = record {
  executor = λ n. write_executor (write_host allowed n);
  caller = some (record {
    trace_id = codes "t1";
    session_id = codes "s1";
    session_key = codes "cli";
    channel = codes "cli";
    interactive = true;
  });
  encoded = encoded_write;
  new_id = λ n. codes "i1";
  now = λ n. 405;
  times = λ n. record { at_approval = 405; at_start = 406; at_end = 407 };
  ctx = λ n. none;
}

abbrev Anything : FilePath → Text → Type 0
Anything target content = Unit {0}

abbrev host_with : (ℕ → Bool) → ApplyHost
host_with allowed = record {
  qemu_root = some (codes "qemu" ∷ []);
  has_tools = true;
  write = run_write (tool_host allowed);
  at_plan = open_site;
  at_write = open_site;
  digest_of = λ body. digest;
  decoded = λ body. some (
      record { artifact = codes "timer.c"; path = codes "hw/timer.c"; action = create }
      ∷ record { artifact = codes "kconfig"; path = codes "Kconfig"; action = modify }
      ∷ []);
  encoded = λ made result now. some (codes "{}");
  ctx_get = none;
  ctx_open = λ n. none;
  ctx_stage = none;
  now_plan = 400;
  now_end = 410;
  wrote = true;
}

abbrev before : Landing ℕ
before = record { store = one_store; artifacts = 0; tree = tree }

abbrev change_of : Text → Text → FileChange
change_of name path = record {
  path = path;
  action = create;
  ref = emitted name Kind.code;
  base_digest = [];
}

abbrev planned : ApplyPlan
planned = record {
  project_id = timer_id;
  files =
      change_of (codes "timer.c") (codes "hw/timer.c")
      ∷ record (change_of (codes "kconfig") (codes "Kconfig")) {
        action = modify;
        base_digest = digest;
      }
      ∷ [];
  diff = emitted (codes "device.diff") Kind.diff;
}

abbrev writes : List PendingWrite
writes =
    record {
      path = codes "hw/timer.c";
      target = codes "qemu" ∷ codes "hw" ∷ codes "timer.c" ∷ [];
      content = codes "timer.c";
    }
    ∷ record {
      path = codes "Kconfig";
      target = config;
      content = codes "config A" ++ (10 ∷ codes "kconfig");
    }
    ∷ []

plans_ok :
    (allowed : ℕ → Bool)
    → plan counter (host_with allowed) one_store 0 tree timer_id request.scope
      ≡ ok (planned, waiting)
unfolding computes runs file_runs landings
plans_ok allowed = refl

prepares_ok :
    (allowed : ℕ → Bool)
    → prepare counter (host_with allowed) 0 timer_id 0 tree planned.files ≡ ok writes
unfolding computes runs file_runs landings
prepares_ok allowed = refl

abbrev first_only : ℕ → Bool
first_only n = n == 0

apply-IsReport_example :
    IsReport
      (codes "hw/timer.c" ∷ codes "Kconfig" ∷ [])
      (apply counter (host_with first_only) tree timer_id request.scope before).1
      (apply counter (host_with first_only) tree timer_id request.scope before).2
apply-IsReport_example =
    apply-IsReport counter (host_with first_only) tree timer_id request.scope before planned waiting
      writes (plans_ok first_only) (prepares_ok first_only)

abbrev elsewhere : FilePath
elsewhere = codes "etc" ∷ codes "hosts" ∷ []

abbrev always : ℕ → Bool
always n = true

one_store-IsStore : IsStore one_store
unfolding computes
one_store-IsStore = record { valid = ((refl, refl), tt); durable = λ id p h. h }

apply-IsLanded_example :
    (q : Project) × (indexed timer_id
        (apply counter (host_with always) tree timer_id request.scope before).0.store
      ≡ some q)
    × IsLanded waiting q
unfolding computes runs file_runs landings refs_of
apply-IsLanded_example =
    apply-IsLanded counter (host_with always) counter-CommitsDrafts tree timer_id request.scope
      before planned waiting (plans_ok always) one_store-IsStore refl (λ e. absurd (ground arith))
      refl refl refl

abbrev busy : Project
busy = record waiting { status = running }

abbrev busy_world : Landing ℕ
busy_world = record before { store = stored one_store busy }
