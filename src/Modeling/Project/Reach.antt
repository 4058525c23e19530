-- ===== src/Modeling/Project/Reach.antt =====
-- The projects that the package can produce: a fresh one, and whatever its methods make of it.
pub mod Final
use qemu_agent.Common.{
  ℕ, List, [], ◌∷◌, ◌≡◌, ◌≢◌, ◌↔◌, refl, true, false, Option, none, some, arith, Result, ok, err,
  ◌⊎◌, inl, inr, >>=-eq-ok, Option-cases, ◌>>=◌, Result-cases,
}
use qemu_agent.Text.{Text}
use qemu_agent.Modeling.Types.{
  Stage, is_known, ArtifactRef, Error, Status, done, running, pending, verify, next_stage,
  stage_index, next_int, pos, is_negative, first_stage,
}
use qemu_agent.Modeling.Project.{
  Project, can_advance, advance_switch, begin, record_refs, recorded, clear_after, move_on,
  complete, hold, block, fail, fail_with, append_refs, append_evidence, applied, apply_failed,
  reset, validate,
}
use qemu_agent.Modeling.Project.Valid.{IsValid, validate_iff}
use qemu_agent.Modeling.Project.Valid.Kept.{
  begin-IsValid, complete-IsValid, hold-IsValid, block-IsValid, fail_with-IsValid,
  record_refs-IsValid,
}
use qemu_agent.Modeling.Project.Valid.Landed.{applied-IsValid, apply_failed-IsValid, reset-IsValid}

-- The project that FileProjectStore.Create writes.
abbrev pub fresh : Text → Text → Text → Text → ℕ → Project
fresh id title workspace_id user_id now = record {
  id = id;
  title = title;
  workspace_id = workspace_id;
  user_id = user_id;
  current = first_stage;
  status = pending;
  artifacts = none;
  evidence = [];
  last_error = [];
  revision = pos 1;
  created_at = now;
  updated_at = now;
}

pub data Step : Project → Project → Type 0 where
  begins : {p q : Project} (stage : Stage) (now : ℕ) → begin p stage now ≡ ok q → Step p q
  completes :
      {p q : Project} (stage : Stage) (refs : List ArtifactRef) (now : ℕ)
      → complete p stage refs now ≡ ok q
      → Step p q
  holds :
      {p q : Project} (stage : Stage) (refs : List ArtifactRef) (reason : Text) (now : ℕ)
      → hold p stage refs reason now ≡ ok q
      → Step p q
  blocks :
      {p q : Project} (stage : Stage) (reason : Text) (now : ℕ)
      → block p stage reason now ≡ ok q
      → Step p q
  fails :
      {p q : Project} (stage : Stage) (kind : Text) (refs : List ArtifactRef) (now : ℕ)
      → fail_with p stage kind refs now ≡ ok q
      → Step p q
  applies :
      {p q : Project} (stage : Stage) (refs : List ArtifactRef) (now : ℕ)
      → applied p stage refs now ≡ ok q
      → Step p q
  apply_fails :
      {p q : Project} (stage : Stage) (kind : Text) (refs : List ArtifactRef) (now : ℕ)
      → apply_failed p stage kind refs now ≡ ok q
      → Step p q
  resets : {p q : Project} (stage : Stage) (now : ℕ) → reset p stage now ≡ ok q → Step p q
  -- `Revision++`, below the largest integer.
  counts :
      {p : Project}
      → is_negative (next_int p.revision) ≡ false
      → Step p (record p { revision = next_int p.revision })

pub data Reach : Project → Type 0 where
  created :
      (id title workspace_id user_id : Text) (now : ℕ)
      → validate (fresh id title workspace_id user_id now) ≡ ok tt
      → Reach (fresh id title workspace_id user_id now)
  next : {p q : Project} → Reach p → Step p q → Reach q

-- ApplyFailed takes any stage; here it is a declared one.
abbrev pub StepDeclares : {p q : Project} → Step p q → Type 0
StepDeclares (begins stage now h) = Unit
StepDeclares (completes stage refs now h) = Unit
StepDeclares (holds stage refs reason now h) = Unit
StepDeclares (blocks stage reason now h) = Unit
StepDeclares (fails stage kind refs now h) = Unit
StepDeclares (applies stage refs now h) = Unit
StepDeclares (apply_fails stage kind refs now h) = is_known stage ≡ true
StepDeclares (resets stage now h) = Unit
StepDeclares (counts h) = Unit

-- Every ApplyFailed on the way names a declared stage.
abbrev pub Declares : {p : Project} → Reach p → Type 0
Declares (created id title workspace_id user_id now h) = Unit
Declares (next r s) = Declares r × StepDeclares s

pub Step-IsValid : {p q : Project} (s : Step p q) → StepDeclares s → IsValid p → IsValid q
Step-IsValid (begins stage now h) _ v = begin-IsValid _ _ stage now v h
Step-IsValid (completes stage refs now h) _ v = complete-IsValid _ _ stage refs now v h
Step-IsValid (holds stage refs reason now h) _ v = hold-IsValid _ _ stage refs reason now v h
Step-IsValid (blocks stage reason now h) _ v = block-IsValid _ _ stage reason now v h
Step-IsValid (fails stage kind refs now h) _ v = fail_with-IsValid _ _ stage kind refs now v h
Step-IsValid (applies stage refs now h) _ v = applied-IsValid _ _ stage refs now v h
Step-IsValid (apply_fails stage kind refs now h) known v =
    apply_failed-IsValid _ _ stage kind refs now v known h
Step-IsValid (resets stage now h) _ v = reset-IsValid _ _ stage now v h
Step-IsValid (counts h) _ v = record {
  named = v.named;
  titled = v.titled;
  placed = v.placed;
  staged = v.staged;
  declared = v.declared;
  counted = h;
  created = v.created;
  updated = v.updated;
  filed = v.filed;
  proved = v.proved;
  categorized = v.categorized;
}

pub Reach-IsValid : {p : Project} (r : Reach p) → Declares r → IsValid p
Reach-IsValid (created id title workspace_id user_id now h) _ = (validate_iff _).0 h
Reach-IsValid (next r s) (before, last) = Step-IsValid s last (Reach-IsValid r before)

-- Every project made from a created one by the methods of Project passes Validate, when every
-- ApplyFailed among the calls names a declared stage, which it does not check.
pub Reach-validate : (p : Project) (r : Reach p) → Declares r → validate p ≡ ok tt
Reach-validate p r declared = (validate_iff p).1 (Reach-IsValid r declared)
