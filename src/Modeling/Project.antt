-- ===== src/Modeling/Project.antt =====
-- A project and its state machine, internal/modeling/type.go. A method on `*Project` returns the
-- new project; where the source returns an error it has not changed its receiver.
pub mod Valid
pub mod Frame
pub mod Reach
pub mod Shape
use qemu_agent.Common.{
  ℕ, suc, ◌+◌, List, [], ◌∷◌, ◌++◌, Option, none, some, Bool, true, false, ◌||◌, ◌&&◌, ltb,
  if◌then◌else◌, ◌==◌, drop, Result, ok, err, ◌>>=◌, ◌>>◌, guard, refuse,
}
use qemu_agent.Text.{Text, is_empty, text_eq, trim_space}
use qemu_agent.Modeling.Types.{
  Stage, stage_eq, stage_index, is_known, index_ge, next_stage, stage_order, verify, Status,
  status_eq, pending, running, blocked, done, kind_eq, evidence, ArtifactRef, ℤ, int_eq,
  is_negative, next_int, Error, plain, wraps, unknown_stage, unknown_current, already_running,
  not_done, skips_stage, moves_back, no_timestamp, not_running, wrong_stage, not_evidence,
  empty_category, applying_while_running, nothing_to_apply, empty_title, empty_workspace,
  unknown_status, negative_revision, no_timestamps, misfiled_artifact, non_category_error,
  err_conflict,
}
use qemu_agent.Modeling.Names.{short_category, validate_ref, validate_project_id}
use qemu_agent.Modeling.StageMap.{StageMap, find, insert, delete, or_nil}

-- `artifacts` is nil (`none`) or a map; a nil slice is the empty list.
pub record Project : Type 0 where
  pub id : Text
  pub title : Text
  pub workspace_id : Text
  pub user_id : Text
  pub current : Stage
  pub status : Status
  pub artifacts : Option StageMap
  pub evidence : List ArtifactRef
  pub last_error : Text
  pub revision : ℤ
  pub created_at : ℕ
  pub updated_at : ℕ

-- The entries of a map that may be nil.
abbrev pub entries : Option StageMap → StageMap
entries none = []
entries (some m) = m

-- `p.Artifacts[stage]`
abbrev pub artifacts_of : Project → Stage → List ArtifactRef
artifacts_of p s = or_nil (find s (entries p.artifacts))

-- The switch of CanAdvance, over the positions of the current and of the wanted stage.
unfoldable pub advance_switch : Status → ℕ → ℕ → Result Error (Unit {0})
advance_switch status current target =
    if status_eq status running
    then err (plain already_running)
    else if target == current
    then ok tt
    else if target == current + 1
    then (if status_eq status done then ok tt else err (plain not_done))
    else if ltb (current + 1) target
    then err (plain skips_stage)
    else err (plain moves_back)

-- CanAdvance
unfoldable pub can_advance : Project → Stage → Result Error (Unit {0})
can_advance p to = elim (stage_index to) [
  | none ↦ err (plain unknown_stage)
  | some target ↦ elim (stage_index p.current) [
    | none ↦ err (plain unknown_current)
    | some current ↦ advance_switch p.status current target
  ]
]

-- Begin
unfoldable pub begin : Project → Stage → ℕ → Result Error Project
begin p stage now = do
  can_advance p stage
  refuse (now == 0) (plain no_timestamp)
  ok (record p { current = stage; status = running; last_error = []; updated_at = now })

-- The loop of record over the references.
unfoldable pub check_refs : Stage → List ArtifactRef → Result Error (Unit {0})
check_refs stage [] = ok tt
check_refs stage (ref ∷ refs) = do
  guard (stage_eq ref.stage stage) (plain wrong_stage)
  validate_ref ref
  check_refs stage refs

-- collectEvidence
unfoldable pub collect_evidence : List ArtifactRef → List ArtifactRef
collect_evidence [] = []
collect_evidence (ref ∷ refs) =
    let rest = collect_evidence refs in if kind_eq ref.kind evidence then ref ∷ rest else rest

-- `StageOrder[index+1:]`, empty at index -1.
unfoldable pub stages_after : Stage → List Stage
stages_after s = elim (stage_index s) [ none ↦ [] | some i ↦ drop (suc i) stage_order ]

-- The loop of clearAfter.
unfoldable pub clear_stages : List Stage → StageMap → List ArtifactRef → StageMap × List ArtifactRef
clear_stages [] m ev = (m, ev)
clear_stages (later ∷ rest) m ev =
    clear_stages rest (delete later m) (if stage_eq later verify then [] else ev)

-- clearAfter: nothing happens on an unknown stage or a nil map.
unfoldable pub clear_after : Stage → Project → Project
clear_after stage p = elim (stage_index stage) [
  | none ↦ p
  | some index ↦ elim p.artifacts [
    | none ↦ p
    | some m ↦
        let (m', ev) = clear_stages (stages_after stage) m p.evidence in
        record p { artifacts = some m'; evidence = ev }
  ]
]

-- `p.Status != StatusRunning || p.Current != stage`
abbrev pub is_running_stage : Project → Stage → Bool
is_running_stage p stage = status_eq p.status running && stage_eq p.current stage

-- The updates of record, once its checks have passed.
unfoldable pub recorded : Project → Stage → List ArtifactRef → ℕ → Project
recorded p stage refs now =
    let filed = record p { artifacts = some (insert stage refs (entries p.artifacts)) } in
    let cleared = clear_after stage filed in
    record cleared {
      evidence = if stage_eq stage verify then collect_evidence refs else cleared.evidence;
      last_error = [];
      updated_at = now;
    }

-- record
unfoldable pub record_refs : Project → Stage → List ArtifactRef → ℕ → Result Error Project
record_refs p stage refs now = do
  guard (is_running_stage p stage) (plain not_running)
  refuse (now == 0) (plain no_timestamp)
  check_refs stage refs
  ok (recorded p stage refs now)

-- The end of Complete: the next stage, or the last one again when every stage is finished.
unfoldable pub move_on : Stage → Project → Project
move_on stage p = elim (next_stage stage) [
  | some next ↦ record p { current = next; status = pending }
  | none ↦ record p { current = stage; status = done }
]

-- Complete
unfoldable pub complete : Project → Stage → List ArtifactRef → ℕ → Result Error Project
complete p stage refs now = do q ← record_refs p stage refs now; ok (move_on stage q)

-- Hold
unfoldable pub hold : Project → Stage → List ArtifactRef → Text → ℕ → Result Error Project
hold p stage refs reason now = do
  q ← record_refs p stage refs now
  ok (record q { current = stage; status = blocked; last_error = short_category reason })

-- Block
unfoldable pub block : Project → Stage → Text → ℕ → Result Error Project
block p stage reason now = do
  guard (is_running_stage p stage) (plain not_running)
  refuse (now == 0) (plain no_timestamp)
  ok (record p { status = blocked; last_error = short_category reason; updated_at = now })

-- Fail
unfoldable pub fail : Project → Stage → Text → ℕ → Result Error Project
fail p stage kind now = do
  guard (is_running_stage p stage) (plain not_running)
  refuse (now == 0) (plain no_timestamp)
  let category = short_category kind
  refuse (is_empty category) (plain empty_category)
  ok (record p { status = blocked; last_error = category; updated_at = now })

-- The loop that FailWith and appendEvidence share.
unfoldable pub check_evidence : Stage → List ArtifactRef → Result Error (Unit {0})
check_evidence stage [] = ok tt
check_evidence stage (ref ∷ refs) = do
  guard (stage_eq ref.stage stage) (plain wrong_stage)
  guard (kind_eq ref.kind evidence) (plain not_evidence)
  validate_ref ref
  check_evidence stage refs

-- `p.Artifacts[stage] = append(p.Artifacts[stage], refs...)`, skipped when there is none to append.
unfoldable pub append_refs : Stage → List ArtifactRef → Project → Project
append_refs stage [] p = p
append_refs stage (ref ∷ refs) p = record p {
  artifacts = some (insert stage (artifacts_of p stage ++ (ref ∷ refs)) (entries p.artifacts));
}

-- FailWith
unfoldable pub fail_with : Project → Stage → Text → List ArtifactRef → ℕ → Result Error Project
fail_with p stage kind refs now = do
  check_evidence stage refs
  q ← fail p stage kind now
  ok (append_refs stage refs q)

-- appendEvidence
unfoldable pub append_evidence : Project → Stage → List ArtifactRef → Result Error Project
append_evidence p stage refs = do check_evidence stage refs; ok (append_refs stage refs p)

abbrev pub has_none : List ArtifactRef → Bool
has_none [] = true
has_none (ref ∷ refs) = false

-- Applied
unfoldable pub applied : Project → Stage → List ArtifactRef → ℕ → Result Error Project
applied p stage refs now = do
  refuse (status_eq p.status running) (plain applying_while_running)
  refuse (has_none (artifacts_of p stage)) (plain nothing_to_apply)
  refuse (now == 0) (plain no_timestamp)
  q ← append_evidence p stage refs
  let moved = if index_ge (stage_index stage) (stage_index q.current) then move_on stage q else q
  ok (record moved { last_error = []; updated_at = now })

-- ApplyFailed
unfoldable pub apply_failed : Project → Stage → Text → List ArtifactRef → ℕ → Result Error Project
apply_failed p stage kind refs now = do
  let category = short_category kind
  refuse (is_empty category) (plain empty_category)
  refuse (now == 0) (plain no_timestamp)
  q ← append_evidence p stage refs
  ok (record q { current = stage; status = blocked; last_error = category; updated_at = now })

-- `if p.Artifacts != nil { delete(p.Artifacts, stage) }`
abbrev pub delete_stage : Stage → Option StageMap → Option StageMap
delete_stage stage none = none
delete_stage stage (some m) = some (delete stage m)

-- Reset
unfoldable pub reset : Project → Stage → ℕ → Result Error Project
reset p stage now = do
  guard (is_known stage) (plain unknown_stage)
  refuse (now == 0) (plain no_timestamp)
  let cleared = clear_after stage (record p { artifacts = delete_stage stage p.artifacts })
  ok (record cleared { current = stage; status = pending; last_error = []; updated_at = now })

-- CanReplaceFrom
unfoldable pub can_replace_from : Project → Project → Result Error (Unit {0})
can_replace_from p old = do
  guard (text_eq p.id old.id) (wraps (err_conflict ∷ []))
  guard (text_eq p.workspace_id old.workspace_id) (wraps (err_conflict ∷ []))
  guard (text_eq p.user_id old.user_id) (wraps (err_conflict ∷ []))
  guard (p.created_at == old.created_at) (wraps (err_conflict ∷ []))
  guard (int_eq p.revision (next_int old.revision)) (wraps (err_conflict ∷ []))

abbrev pub is_declared_status : Status → Bool
is_declared_status (Status.other t) = false
is_declared_status s = true

-- The inner loop of Validate over the references of one stage.
unfoldable pub check_filed : Stage → List ArtifactRef → Result Error (Unit {0})
check_filed stage [] = ok tt
check_filed stage (ref ∷ refs) = do
  guard (stage_eq ref.stage stage) (plain misfiled_artifact)
  validate_ref ref
  check_filed stage refs

-- The loop of Validate over the map.
unfoldable pub check_entries : StageMap → Result Error (Unit {0})
check_entries [] = ok tt
check_entries ((stage, refs) ∷ m) = do
  guard (is_known stage) (plain unknown_stage)
  check_filed stage refs
  check_entries m

-- The loop of Validate over the evidence.
unfoldable pub check_proofs : List ArtifactRef → Result Error (Unit {0})
check_proofs [] = ok tt
check_proofs (ref ∷ refs) = do
  validate_ref ref
  guard (kind_eq ref.kind evidence) (plain not_evidence)
  check_proofs refs

-- Validate
unfoldable pub validate : Project → Result Error (Unit {0})
validate p = do
  validate_project_id p.id
  refuse (is_empty (trim_space p.title)) (plain empty_title)
  refuse (is_empty (trim_space p.workspace_id)) (plain empty_workspace)
  guard (is_known p.current) (plain unknown_stage)
  guard (is_declared_status p.status) (plain unknown_status)
  refuse (is_negative p.revision) (plain negative_revision)
  refuse (p.created_at == 0 || p.updated_at == 0) (plain no_timestamps)
  check_entries (entries p.artifacts)
  check_proofs p.evidence
  guard (text_eq p.last_error (short_category p.last_error)) (plain non_category_error)
