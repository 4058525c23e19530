-- ===== src/Modeling/Steps.antt =====
-- The pieces of internal/modeling/pipeline.go that need no artifact store: the data of a run, as
-- stage.go and artifacts.go declare it, and the steps that load, settle and save a project.
use qemu_agent.Common.{
  ℕ, List, [], ◌∷◌, ◌++◌, Option, none, some, Bool, false, ◌||◌, ◌&&◌, if◌then◌else◌, Result, ok,
  err, ◌>>=◌, ◌>>◌, guard, take,
}
use qemu_agent.Text.{Text, codes, is_empty, text_eq, trim_space}
use qemu_agent.Modeling.Types.{
  Stage, stage_eq, stage_text, stage_index, stage_order, Kind, kind_eq, evidence, ArtifactRef,
  next_int, Error, plain, wraps, err_unsafe_name, unregistered_stage,
}
use qemu_agent.Modeling.StageMap.{StageMap, find, insert}
use qemu_agent.Modeling.Project.{
  Project, entries, can_advance, begin, complete, hold, fail_with, reset,
}
use qemu_agent.Modeling.Store.{Store, Scope, get_project, save, check_context}

pub record Draft : Type 0 where
  pub stage : Stage
  pub name : Text
  pub kind : Kind
  pub body : Text

-- ArtifactStore, over its state `A` and its batches `B`. A call may change the state also when it
-- fails.
pub record ArtifactStore (A B : Type 0) : Type 0 where
  pub stage_drafts : Option Error → Text → List Draft → A → A × Result Error B
  pub commit : Option Error → B → A → A × Result Error (List ArtifactRef)
  pub discard : Option Error → B → A → A × Result Error (Unit {0})
  pub read_artifact : Option Error → Text → ArtifactRef → A → Result Error Text

-- StageInput, without the tools that a runner is handed.
pub record StageInput : Type 0 where
  pub project : Project
  pub stage : Stage
  pub request : Text
  pub sources : List Text
  pub inputs : StageMap
  pub now : ℕ

-- StageOutput; the summary is rendered elsewhere.
pub record StageOutput : Type 0 where
  pub artifacts : List Draft
  pub evidence : List Draft
  pub blocked : Bool
  pub reason : Text

-- StageRunner.Run: the output, and the error if there is one.
abbrev pub Runner : Type 0
Runner = StageInput → StageOutput × Option Error

pub data EventKind : Type 0 where
  stage_started stage_completed : EventKind

pub record StageEvent : Type 0 where
  pub kind : EventKind
  pub project : Text
  pub stage : Stage
  pub success : Bool
  pub blocked : Bool
  pub reason : Text

pub record RunRequest : Type 0 where
  pub project_id : Text
  pub scope : Scope
  pub stage : Stage
  pub request : Text
  pub sources : List Text

pub record RunResult : Type 0 where
  pub project : Project
  pub stage : Stage
  pub refs : List ArtifactRef
  pub blocked : Bool
  pub reason : Text

-- The context's error when each call reads it, the clock at each call of `now`, and whether the two
-- writes of the project file succeed.
pub record Env : Type 0 where
  pub ctx_get : Option Error
  pub ctx_begin : Option Error
  pub ctx_stage : Option Error
  pub ctx_end : Option Error
  pub now_begin : ℕ
  pub now_run : ℕ
  pub now_end : ℕ
  pub wrote_begin : Bool
  pub wrote_end : Bool

-- What a call of Advance may change. Events are kept in the order of their emission.
pub record World (A : Type 0) : Type 0 where
  pub store : Store
  pub artifacts : A
  pub events : List StageEvent

-- inputsBefore: `StageOrder[:index]`, each with its references if it has any.
unfoldable pub inputs_from : List Stage → StageMap → StageMap
inputs_from [] m = []
inputs_from (s ∷ ss) m = elim (find s m) [
  | none ↦ inputs_from ss m
  | some refs ↦ insert s refs (inputs_from ss m)
]

unfoldable pub inputs_before : Project → Stage → StageMap
inputs_before p stage = elim (stage_index stage) [
  | none ↦ []
  | some index ↦ inputs_from (take index stage_order) (entries p.artifacts)
]

abbrev same_ref : ArtifactRef → ArtifactRef → Bool
same_ref a b = text_eq a.id b.id && text_eq a.name b.name && stage_eq a.stage b.stage

unfoldable pub refers : ArtifactRef → List ArtifactRef → Bool
refers ref [] = false
refers ref (candidate ∷ refs) = same_ref candidate ref || refers ref refs

unfoldable pub refers_in : ArtifactRef → StageMap → Bool
refers_in ref [] = false
refers_in ref ((stage, refs) ∷ m) = refers ref refs || refers_in ref m

-- projectReferences
unfoldable pub project_references : Project → ArtifactRef → Bool
project_references p ref = refers_in ref (entries p.artifacts) || refers ref p.evidence

-- The loops of persist and persistEvidence over the evidence drafts.
unfoldable pub only_evidence : List Draft → Result Error (Unit {0})
only_evidence [] = ok tt
only_evidence (d ∷ ds) = do
  guard (kind_eq d.kind evidence) (wraps (err_unsafe_name ∷ []))
  only_evidence ds

-- `if draft.Stage == "" { draft.Stage = stage }`
abbrev pub with_stage : Stage → Draft → Draft
with_stage stage d = if is_empty (stage_text d.stage) then record d { stage = stage } else d

-- The loop that files the drafts under the stage.
unfoldable pub file_drafts : Stage → List Draft → Result Error (List Draft)
file_drafts stage [] = ok []
file_drafts stage (d ∷ ds) = do
  let filed = with_stage stage d
  guard (stage_eq filed.stage stage) (wraps (err_unsafe_name ∷ []))
  rest ← file_drafts stage ds
  ok (filed ∷ rest)

-- The drafts that persist writes.
abbrev pub filed_output : Stage → StageOutput → Result Error (List Draft)
filed_output stage out = do
  only_evidence out.evidence
  file_drafts stage (out.artifacts ++ out.evidence)

-- The drafts that persistEvidence writes.
abbrev pub filed_evidence : Stage → List Draft → Result Error (List Draft)
filed_evidence stage drafts = do filed ← file_drafts stage drafts; only_evidence filed; ok filed

-- `Project.Revision++`
abbrev pub bumped : Project → Project
bumped p = record p { revision = next_int p.revision }

-- NewPipeline's registry.
abbrev pub Registry : Type 0
Registry = Stage → Option Runner

-- `runner, ok := p.stages[target]`
abbrev pub runner_of : Registry → Stage → Result Error Runner
runner_of registry target = elim (registry target) [
  | none ↦ err (plain unregistered_stage)
  | some r ↦ ok r
]

-- `strings.TrimSpace(string(target)) == ""`
abbrev pub target_of : RunRequest → Project → Stage
target_of req p = if is_empty (trim_space (stage_text req.stage)) then p.current else req.stage

-- `if strings.TrimSpace(reason) == "" { reason = "awaiting_human" }`
abbrev pub hold_reason : Text → Text
hold_reason reason = if is_empty (trim_space reason) then codes "awaiting_human" else reason

-- The references of a failed run, none when its evidence could not be stored.
abbrev pub or_none : Result Error (List ArtifactRef) → List ArtifactRef
or_none (ok refs) = refs
or_none (err e) = []

-- The store after fail has tried to save the failed state.
unfoldable pub save_failed : Env → Store → Project → Stage → Text → List ArtifactRef → Store
save_failed env s working stage category refs =
    elim (fail_with (bumped working) stage category refs env.now_end) [
      | err e ↦ s
      | ok failed ↦ elim (save s none failed env.wrote_end) [ err e ↦ s | ok (s', saved) ↦ s' ]
    ]

-- Steps 10 and 11: Hold or Complete.
unfoldable pub settle :
    Env → Project → Stage → StageOutput → List ArtifactRef → Result Error Project
settle env working stage out refs =
    if out.blocked
    then hold working stage refs (hold_reason out.reason) env.now_end
    else complete working stage refs env.now_end

-- Steps 1 to 3: load, check, and persist "running".
unfoldable pub start :
    Env → Registry → Store → RunRequest → Result Error (Store × Project × Stage × Runner)
start env registry s req = do
  check_context env.ctx_get
  project ← get_project s env.ctx_get req.project_id req.scope
  let target = target_of req project
  can_advance project target
  runner ← runner_of registry target
  working ← begin project target env.now_begin
  (s', started) ← save s env.ctx_begin (bumped working) env.wrote_begin
  ok (s', started, target, runner)

-- Reset
unfoldable pub reset_project : Env → Store → Text → Stage → Scope → Result Error (Store × Project)
reset_project env s id stage scope = do
  project ← get_project s env.ctx_get id scope
  working ← reset project stage env.now_begin
  save s env.ctx_begin (bumped working) env.wrote_begin
