-- ===== src/Modeling/Project/Reach/Final.antt =====
-- Where reachable projects stop, and which stages they may run next.
use qemu_agent.Common.{
  ℕ, ◌≤◌, List, [], ◌∷◌, ◌≡◌, ◌≢◌, ◌↔◌, refl, true, none, some, arith, ok, err, inl, inr, >>=-eq-ok,
  Option-cases, Result-cases,
}
use qemu_agent.Text.{Text}
use qemu_agent.Modeling.Types.{
  Stage, is_known, ArtifactRef, done, running, blocked, verify, next_stage, stage_index, plain,
  already_running,
}
use qemu_agent.Modeling.Project.{
  Project, can_advance, advance_switch, begin, record_refs, move_on, complete, hold, block, fail,
  fail_with, append_refs, append_evidence, applied, apply_failed, reset, check_evidence,
  artifacts_of,
}
use qemu_agent.Modeling.Project.Valid.{IsValid}
use qemu_agent.Modeling.Project.Valid.Kept.{record_refs-IsValid}
use qemu_agent.Modeling.Project.Valid.Landed.{artifacts-known}
use qemu_agent.Modeling.Project.Reach.{
  Step, begins, completes, holds, blocks, fails, applies, apply_fails, resets, counts, Reach,
  created, next, Declares, Reach-IsValid,
}

-- A project is finished on the last stage only.
abbrev pub IsFinal : Project → Type 0
IsFinal p = p.status ≡ done → p.current ≡ verify

next_stage-none : (s : Stage) → is_known s ≡ true → next_stage s ≡ none → s ≡ verify
unfolding next_stage stage_index
next_stage-none s known h = ground arith

move_on-IsFinal : (s : Stage) (p : Project) → is_known s ≡ true → IsFinal (move_on s p)
unfolding move_on
move_on-IsFinal s p known = elim (Option-cases (next_stage s)) [
  | inl last ↦ ground (arith, next_stage-none s known last)
  | inr (t, moves) ↦ ground arith
]

-- Appending references moves nothing else.
append_refs-moves :
    (s : Stage) (refs : List ArtifactRef) (p : Project)
    → ((append_refs s refs p).status ≡ p.status) × ((append_refs s refs p).current ≡ p.current)
unfolding append_refs
append_refs-moves s [] p = (refl, refl)
append_refs-moves s (ref ∷ refs) p = (refl, refl)

append_evidence-moves :
    (p q : Project) (s : Stage) (refs : List ArtifactRef)
    → append_evidence p s refs ≡ ok q
    → (q.status ≡ p.status) × (q.current ≡ p.current)
unfolding append_evidence
append_evidence-moves p q s refs h = ground (arith, append_refs-moves s refs p)

complete-IsFinal :
    (p q : Project) (s : Stage) (refs : List ArtifactRef) (now : ℕ)
    → IsValid p
    → complete p s refs now ≡ ok q
    → IsFinal q
unfolding complete
complete-IsFinal p q s refs now v h =
    let (r, recorded_ok, moved) = >>=-eq-ok (record_refs p s refs now) _ h in
    let (vr, known) = record_refs-IsValid p r s refs now v recorded_ok in
    ground (arith, move_on-IsFinal s r known)

applied-IsFinal :
    (p q : Project) (s : Stage) (refs : List ArtifactRef) (now : ℕ)
    → IsValid p
    → IsFinal p
    → applied p s refs now ≡ ok q
    → IsFinal q
unfolding applied
applied-IsFinal p q s refs now v f h = elim (Result-cases (append_evidence p s refs)) [
  | inl (r, e) ↦ ground (
    arith,
    append_evidence-moves p r s refs e,
    move_on-IsFinal s r,
    artifacts-known p s (artifacts_of p s) v refl,
  )
  | inr (e, refused) ↦ ground arith
]

fail-blocks :
    (p q : Project) (s : Stage) (kind : Text) (now : ℕ)
    → fail p s kind now ≡ ok q
    → q.status ≡ blocked
unfolding fail
fail-blocks p q s kind now h = ground arith

fail_with-blocks :
    (p q : Project) (s : Stage) (kind : Text) (refs : List ArtifactRef) (now : ℕ)
    → fail_with p s kind refs now ≡ ok q
    → q.status ≡ blocked
unfolding fail_with
fail_with-blocks p q s kind refs now h =
    let (_, checked, rest) = >>=-eq-ok (check_evidence s refs) _ h in
    let (r, failed, same) = >>=-eq-ok (fail p s kind now) _ rest in
    ground (arith, fail-blocks p r s kind now failed, append_refs-moves s refs r)

Step-IsFinal : {p q : Project} → Step p q → IsValid p → IsFinal p → IsFinal q
unfolding begin hold block fail_with fail apply_failed reset
Step-IsFinal (begins {p} stage now h) v f = ground arith
Step-IsFinal (completes {p} {q} stage refs now h) v f = complete-IsFinal p q stage refs now v h
Step-IsFinal (holds {p} stage refs reason now h) v f = ground arith
Step-IsFinal (blocks {p} stage reason now h) v f = ground arith
Step-IsFinal (fails {p} {q} stage kind refs now h) v f =
    ground (arith, fail_with-blocks p q stage kind refs now h)
Step-IsFinal (applies {p} {q} stage refs now h) v f = applied-IsFinal p q stage refs now v f h
Step-IsFinal (apply_fails stage kind refs now h) v f = ground arith
Step-IsFinal (resets stage now h) v f = ground arith
Step-IsFinal (counts h) v f = f

pub Reach-IsFinal : {p : Project} (r : Reach p) → Declares r → IsFinal p
Reach-IsFinal (created id title workspace_id user_id now h) _ = λ e. cc
Reach-IsFinal (next r s) (before, last) =
    Step-IsFinal s (Reach-IsValid r before) (Reach-IsFinal r before)

stage_index-injective :
    (s t : Stage) (i : ℕ) → stage_index s ≡ some i → stage_index t ≡ some i → s ≡ t
unfolding stage_index
stage_index-injective s t i h k = ground arith

stage_index-le : (s : Stage) (i : ℕ) → stage_index s ≡ some i → i ≤ 4
unfolding stage_index
stage_index-le s i h = ground arith

verify_index : stage_index verify ≡ some 4
unfolding stage_index
verify_index = refl

advances :
    (p : Project) (to : Stage)
    → IsFinal p
    → can_advance p to ≡ ok tt
    → (p.status ≢ running) × (to ≡ p.current)
unfolding can_advance advance_switch
advances p to final h = elim (Option-cases (stage_index to)) [
  | inl unknown ↦ ground arith
  | inr (i, at_i) ↦ elim (Option-cases (stage_index p.current)) [
    | inl unknown ↦ ground arith
    | inr (j, at_j) ↦
        ground
          (arith, stage_index-le to i at_i, stage_index-injective to p.current i at_i, verify_index)
  ]
]

redo :
    (p : Project) → is_known p.current ≡ true → p.status ≢ running → can_advance p p.current ≡ ok tt
unfolding can_advance advance_switch
redo p known idle = elim (Option-cases (stage_index p.current)) [
  | inl unknown ↦ ground arith
  | inr (i, at_i) ↦ ground arith
]

-- For a project that the methods can produce, CanAdvance accepts a stage exactly when nothing is
-- running and the stage is the current one, when every ApplyFailed among the calls names a declared
-- stage.
pub Reach-can_advance :
    (p : Project) (to : Stage)
    → (r : Reach p) → Declares r
    → (can_advance p to ≡ ok tt) ↔ ((p.status ≢ running) × (to ≡ p.current))
Reach-can_advance p to r declared =
    let v = Reach-IsValid r declared in
    (advances p to (Reach-IsFinal r declared), λ (idle, same). rw same (redo p v.staged idle))

-- While a stage of a project on a declared stage is running, CanAdvance refuses every declared
-- stage, the running one too.
pub running-can_advance :
    (p : Project) (to : Stage)
    → p.status ≡ running
    → is_known to ≡ true
    → is_known p.current ≡ true
    → can_advance p to ≡ err (plain already_running)
unfolding can_advance advance_switch
running-can_advance p to runs known current_known = ground arith
