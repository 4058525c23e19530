-- ===== src/Modeling/Project/Frame.antt =====
-- What no operation of a stage run changes.
use qemu_agent.Common.{
  ℕ, List, [], ◌∷◌, ◌≡◌, ◌≢◌, inl, inr, some, arith, ok, >>=-eq-ok, Option-cases,
}
use qemu_agent.Text.{Text}
use qemu_agent.Modeling.Types.{Stage, ArtifactRef, stage_index, next_stage, running}
use qemu_agent.Modeling.StageMap.{insert}
use qemu_agent.Modeling.Project.{
  Project, entries, clear_after, recorded, record_refs, move_on, complete, hold, fail, append_refs,
  applied, append_evidence, fail_with, begin, check_evidence,
}

-- The same project at the same revision.
pub record SameRun (p q : Project) : Type 0 where
  pub id : q.id ≡ p.id
  pub workspace : q.workspace_id ≡ p.workspace_id
  pub user : q.user_id ≡ p.user_id
  pub created : q.created_at ≡ p.created_at
  pub revision : q.revision ≡ p.revision

SameRun-trans : (p q r : Project) → SameRun p q → SameRun q r → SameRun p r
SameRun-trans p q r h k = ground arith

clear_after-SameRun : (s : Stage) (p : Project) → SameRun p (clear_after s p)
unfolding clear_after
clear_after-SameRun s p = elim (Option-cases (stage_index s)) [
  | inl unknown ↦ ground arith
  | inr (i, at_i) ↦ elim (Option-cases p.artifacts) [
    | inl no_map ↦ ground arith
    | inr (m, is_map) ↦ ground arith
  ]
]

record_refs-SameRun :
    (p q : Project) (s : Stage) (refs : List ArtifactRef) (now : ℕ)
    → record_refs p s refs now ≡ ok q
    → SameRun p q
unfolding record_refs recorded
record_refs-SameRun p q s refs now h = ground (
  arith,
  clear_after-SameRun s (record p { artifacts = some (insert s refs (entries p.artifacts)) }),
)

move_on-SameRun :
    (s : Stage) (p : Project) → SameRun p (move_on s p) × ((move_on s p).status ≢ running)
unfolding move_on
move_on-SameRun s p = elim (Option-cases (next_stage s)) [
  | inl last ↦ ground arith
  | inr (t, moves) ↦ ground arith
]

pub complete-SameRun :
    (p q : Project) (s : Stage) (refs : List ArtifactRef) (now : ℕ)
    → complete p s refs now ≡ ok q
    → SameRun p q × (q.status ≢ running)
unfolding complete
complete-SameRun p q s refs now h =
    let (r, recorded_ok, moved) = >>=-eq-ok (record_refs p s refs now) _ h in
    ground (arith, move_on-SameRun s r, record_refs-SameRun p r s refs now recorded_ok)

pub hold-SameRun :
    (p q : Project) (s : Stage) (refs : List ArtifactRef) (reason : Text) (now : ℕ)
    → hold p s refs reason now ≡ ok q
    → SameRun p q × (q.status ≢ running)
unfolding hold
hold-SameRun p q s refs reason now h =
    let (r, recorded_ok, moved) = >>=-eq-ok (record_refs p s refs now) _ h in
    ground (arith, record_refs-SameRun p r s refs now recorded_ok)

pub append_refs-SameRun :
    (s : Stage) (refs : List ArtifactRef) (p : Project)
    → SameRun p (append_refs s refs p)
      × ((append_refs s refs p).status ≡ p.status)
      × ((append_refs s refs p).current ≡ p.current)
      × ((append_refs s refs p).last_error ≡ p.last_error)
unfolding append_refs
append_refs-SameRun s [] p = ground arith
append_refs-SameRun s (ref ∷ refs) p = ground arith

fail-SameRun :
    (p q : Project) (s : Stage) (kind : Text) (now : ℕ) → fail p s kind now ≡ ok q → SameRun p q
unfolding fail
fail-SameRun p q s kind now h = ground arith

pub fail_with-SameRun :
    (p q : Project) (s : Stage) (kind : Text) (refs : List ArtifactRef) (now : ℕ)
    → fail_with p s kind refs now ≡ ok q
    → SameRun p q
unfolding fail_with
fail_with-SameRun p q s kind refs now h =
    let (_, checked, rest) = >>=-eq-ok (check_evidence s refs) _ h in
    let (r, failed, same) = >>=-eq-ok (fail p s kind now) _ rest in
    ground (arith, fail-SameRun p r s kind now failed, append_refs-SameRun s refs r)

pub begin-SameRun :
    (p q : Project) (s : Stage) (now : ℕ)
    → begin p s now ≡ ok q
    → SameRun p q × (q.status ≡ running) × (q.current ≡ s)
unfolding begin
begin-SameRun p q s now h = ground arith

pub applied-SameRun :
    (p q : Project) (s : Stage) (refs : List ArtifactRef) (now : ℕ)
    → applied p s refs now ≡ ok q
    → SameRun p q
unfolding applied append_evidence
applied-SameRun p q s refs now h =
    let kept = append_refs-SameRun s refs p in
    let moved = move_on-SameRun s (append_refs s refs p) in ground arith
