-- ===== src/Tests/Runs.antt =====
-- Instances of the theorems on runs, with an artifact store that names every draft by one digest.
use qemu_agent.Common.{
  Option, ℕ, suc, List, [], ◌∷◌, ◌≡◌, refl, inl, inr, none, some, true, false, arith, Result, ok,
  ◌>>=◌, ◌>>◌, Result-cases,
}
use qemu_agent.Text.{codes}
use qemu_agent.Modeling.Types.{
  Stage, extract, verify, Status, Kind, ArtifactRef, Error, wraps, canceled, err_build_failed,
  sentinel_in, errors_is,
}
use qemu_agent.Modeling.Names.{validate_ref}
use qemu_agent.Modeling.Classify.{classify, classify_in, errors_is_any}
use qemu_agent.Modeling.Project.{Project}
use qemu_agent.Modeling.Project.Valid.{validate_iff}
use qemu_agent.Modeling.Store.{Store, indexed, stored}
use qemu_agent.Modeling.Steps.{
  Draft, ArtifactStore, StageOutput, Runner, RunRequest, RunResult, Env, World, Registry,
  inputs_from, inputs_before, bumped, save_failed, settle, start, only_evidence, file_drafts,
}
use qemu_agent.Modeling.Pipeline.{
  write_batch, persist, persist_evidence, fail_stage, finish, conclude, run_stage, advance,
}
use qemu_agent.Modeling.Pipeline.Commits.{Committed, CommitsDrafts}
use qemu_agent.Modeling.Pipeline.Live.{IsLive, IsFailed}
use qemu_agent.Modeling.Pipeline.Outcome.{Settled, fail_stage-IsFailed, advance-Settled}
use qemu_agent.Modeling.Pipeline.Finished.{IsReported, advance-IsReported}
use qemu_agent.Modeling.Pipeline.Registered.{register_runners}
use qemu_agent.Tests.Samples.{computes, timer_id, team, ann, created, plan_ref, planning}

unfoldable pub runs : Unit {0}
unfolding sentinel_in errors_is classify classify_in errors_is_any save_failed settle start
    only_evidence file_drafts write_batch persist persist_evidence fail_stage finish conclude
    run_stage advance inputs_from inputs_before
runs = tt

abbrev pub ref_of : Draft → ArtifactRef
ref_of d = record plan_ref { stage = d.stage; name = d.name; kind = d.kind }

unfoldable pub refs_of : List Draft → Result Error (List ArtifactRef)
refs_of [] = ok []
refs_of (d ∷ ds) = do validate_ref (ref_of d); refs ← refs_of ds; ok (ref_of d ∷ refs)

-- Its state is the number of calls, its batches are the references that they will be committed as.
abbrev pub counter : ArtifactStore ℕ (List ArtifactRef)
counter = record {
  stage_drafts = λ ctx id drafts calls. (suc calls, refs_of drafts);
  commit = λ ctx batch calls. (suc calls, ok batch);
  discard = λ ctx batch calls. (suc calls, ok tt);
  read_artifact = λ ctx id ref calls. ok ref.name;
}

refs_of-Committed :
    (ds : List Draft) (refs : List ArtifactRef) → refs_of ds ≡ ok refs → Committed ds refs
unfolding refs_of
refs_of-Committed [] [] h = tt
refs_of-Committed [] (r ∷ rs) h = absurd (ground arith)
refs_of-Committed (d ∷ ds) [] h = elim (Result-cases (refs_of ds)) [
  | inl (rest, e) ↦ absurd (ground arith)
  | inr (x, e) ↦ absurd (ground arith)
]
refs_of-Committed (d ∷ ds) (r ∷ rs) h = elim (Result-cases (refs_of ds)) [
  | inl (rest, e) ↦ (ground arith, refs_of-Committed ds rs (ground arith))
  | inr (x, e) ↦ absurd (ground arith)
]

pub counter-CommitsDrafts : CommitsDrafts counter
counter-CommitsDrafts ctx id drafts calls batch refs staged committed =
    refs_of-Committed drafts refs (ground arith)

abbrev pub draft : Draft
draft = record {
  stage = Stage.plan;
  name = codes "plan.md";
  kind = Kind.plan;
  body = codes "steps";
}

abbrev pub log : Draft
log = record {
  stage = Stage.plan;
  name = codes "build.log";
  kind = Kind.evidence;
  body = codes "gcc";
}

-- Writes a plan.
abbrev pub planner : Runner
planner input =
    (record { artifacts = draft ∷ []; evidence = log ∷ []; blocked = false; reason = [] }, none)

abbrev pub registry : Registry
registry stage = elim stage [ Stage.plan ↦ some planner | _ ↦ none ]

abbrev pub calm : Env
calm = record {
  ctx_get = none;
  ctx_begin = none;
  ctx_stage = none;
  ctx_end = none;
  now_begin = 200;
  now_run = 210;
  now_end = 300;
  wrote_begin = true;
  wrote_end = true;
}

abbrev pub one_project : Store
one_project = stored (record { max = 2; by_id = []; files = [] }) created

abbrev world : World ℕ
world = record { store = one_project; artifacts = 0; events = [] }

abbrev pub request : RunRequest
request = record {
  project_id = timer_id;
  scope = record { workspace_id = team; user_id = ann };
  stage = Stage.plan;
  request = codes "a timer";
  sources = [];
}

abbrev started : Project
started = bumped planning

abbrev started_store : Store
started_store = stored one_project started

starts_ok :
    start calm registry one_project request ≡ ok (started_store, started, Stage.plan, planner)
unfolding computes runs
starts_ok = refl

advance-Settled_example : Settled (advance counter calm registry world request).0.store started.id
unfolding computes
advance-Settled_example =
    advance-Settled counter counter-CommitsDrafts calm registry world request started_store started
      Stage.plan planner starts_ok refl (ground arith) refl refl

started-IsLive : IsLive started_store started Stage.plan
unfolding computes
started-IsLive = record {
  valid = (validate_iff started).0 refl;
  live = refl;
  at_stage = refl;
  held = refl;
  room = refl;
}

abbrev running_world : World ℕ
running_world = record { store = started_store; artifacts = 0; events = [] }

abbrev broken : Error
broken = wraps (err_build_failed ∷ [])

fail_stage-IsFailed_example :
    (q : Project) × (indexed started.id
        (fail_stage counter calm running_world started Stage.plan (log ∷ []) broken).0.store
      ≡ some q)
    × IsFailed started Stage.plan broken q
fail_stage-IsFailed_example =
    fail_stage-IsFailed counter counter-CommitsDrafts calm running_world started Stage.plan
      (log ∷ []) broken started-IsLive (ground arith) refl

abbrev output : StageOutput
output = record { artifacts = draft ∷ []; evidence = log ∷ []; blocked = false; reason = [] }

abbrev pub planned : Project
planned = record started {
  current = extract;
  status = Status.pending;
  artifacts = some ((Stage.plan, ref_of draft ∷ ref_of log ∷ []) ∷ []);
  updated_at = 300;
}

abbrev late : Env
late = record calm { ctx_end = some (wraps (canceled ∷ [])) }

late_settles : settle late started Stage.plan output (ref_of draft ∷ ref_of log ∷ []) ≡ ok planned
unfolding computes runs
late_settles = refl

abbrev report : RunResult
report = record {
  project = bumped planned;
  stage = Stage.plan;
  refs = ref_of draft ∷ ref_of log ∷ [];
  blocked = false;
  reason = [];
}

runs_ok : (advance counter calm registry world request).1 ≡ ok report
unfolding computes runs refs_of
runs_ok = refl

advance-IsReported_example : IsReported (advance counter calm registry world request).0.store report
advance-IsReported_example = advance-IsReported counter calm registry world request report runs_ok

abbrev runners : List (Option (Stage × Runner))
runners = some (Stage.plan, planner) ∷ some (verify, planner) ∷ []

registers_ok : register_runners runners [] ≡ ok ((Stage.plan, planner) ∷ (verify, planner) ∷ [])
unfolding computes register_runners
registers_ok = refl
