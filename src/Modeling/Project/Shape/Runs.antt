-- ===== src/Modeling/Project/Shape/Runs.antt =====
-- The references and the evidence after each operation on a project.
use mathlib.Core.List.{append-nil}
use qemu_agent.Common.{
  ℕ, List, [], ◌∷◌, ◌++◌, ◌≡◌, ◌∙◌, true, arith, ok, inl, inr, >>=-eq-ok, Option-cases,
  if◌then◌else◌, ◌&&◌, ◌||◌, not, is_some,
}
use qemu_agent.Text.{Text}
use qemu_agent.Modeling.Types.{
  Stage-discrete, Stage, stage_eq, is_known, ArtifactRef, verify, next_stage, blocked,
}
use qemu_agent.Modeling.Names.{short_category}
use qemu_agent.Common.Assoc.{get-put, get-remove}
use qemu_agent.Modeling.Project.{
  Project, entries, artifacts_of, record_refs, complete, hold, move_on, reset, delete_stage,
  append_refs, fail_with, fail, check_evidence,
}
use qemu_agent.Modeling.Project.Shape.{
  is_later, after_record, evidence_after, recorded-artifacts, recorded-evidence, clear_after-find,
  clear_after-evidence, find-nil, is_later-irreflexive, not_verify-later,
}

-- Where Complete and Hold leave the references: `s` has exactly the new ones, every later stage has
-- none, every earlier stage keeps its own, and the evidence is that of `s` if `s` is verify.
pub record Recorded (p q : Project) (s : Stage) (refs : List ArtifactRef) : Type 0 where
  pub replaced : (t : Stage) → artifacts_of q t ≡ after_record p s refs t
  pub proved : q.evidence ≡ evidence_after s refs

record_refs-Recorded :
    (p q : Project) (s : Stage) (refs : List ArtifactRef) (now : ℕ)
    → is_known p.current ≡ true
    → record_refs p s refs now ≡ ok q
    → Recorded p q s refs
unfolding record_refs
record_refs-Recorded p q s refs now known h = record {
  replaced = λ t. ground (arith, recorded-artifacts p s t refs now);
  proved = ground (arith, recorded-evidence p s refs now);
}

move_on-keeps :
    (s : Stage) (p : Project)
    → ((move_on s p).artifacts ≡ p.artifacts) × ((move_on s p).evidence ≡ p.evidence)
unfolding move_on
move_on-keeps s p = elim (Option-cases (next_stage s)) [
  | inl last ↦ ground arith
  | inr (t, moves) ↦ ground arith
]

Recorded-moved :
    (p r q : Project) (s : Stage) (refs : List ArtifactRef)
    → Recorded p r s refs
    → q.artifacts ≡ r.artifacts
    → q.evidence ≡ r.evidence
    → Recorded p q s refs
Recorded-moved p r q s refs h same_map same_evidence = record {
  replaced = λ t. ground (arith, h.replaced t);
  proved = same_evidence ∙ h.proved;
}

-- A completed stage replaces its references, drops those of every later stage and keeps those of
-- the earlier ones; the evidence is that of a completed verify stage, and empty after any other.
pub complete-Recorded :
    (p q : Project) (s : Stage) (refs : List ArtifactRef) (now : ℕ)
    → is_known p.current ≡ true
    → complete p s refs now ≡ ok q
    → Recorded p q s refs
unfolding complete
complete-Recorded p q s refs now known h =
    let (r, recorded_ok, moved) = >>=-eq-ok (record_refs p s refs now) _ h in
    Recorded-moved p r q s refs (record_refs-Recorded p r s refs now known recorded_ok)
      (ground (arith, move_on-keeps s r)) (ground (arith, move_on-keeps s r))

-- A held stage records its references as a completed one does, and stays blocked on that stage.
pub hold-Recorded :
    (p q : Project) (s : Stage) (refs : List ArtifactRef) (reason : Text) (now : ℕ)
    → is_known p.current ≡ true
    → hold p s refs reason now ≡ ok q
    → Recorded p q s refs
      × (q.status ≡ blocked)
      × (q.current ≡ s)
      × (q.last_error ≡ short_category reason)
unfolding hold
hold-Recorded p q s refs reason now known h =
    let (r, recorded_ok, moved) = >>=-eq-ok (record_refs p s refs now) _ h in
    (
      Recorded-moved p r q s refs (record_refs-Recorded p r s refs now known recorded_ok)
          (ground arith) (ground arith),
      ground arith,
      ground arith,
      ground arith,
    )

-- Reset empties its stage and every later one and keeps the earlier ones.
pub reset-artifacts :
    (p q : Project) (s t : Stage) (now : ℕ)
    → reset p s now ≡ ok q
    → artifacts_of q t ≡ (if stage_eq s t || is_later t s then [] else artifacts_of p t)
unfolding reset
reset-artifacts p q s t now h = elim (Option-cases p.artifacts) [
  | inl no_map ↦ ground (
    arith,
    clear_after-find s t (record p { artifacts = delete_stage s p.artifacts }),
    find-nil t,
  )
  | inr (m, is_map) ↦ ground (
    arith,
    clear_after-find s t (record p { artifacts = delete_stage s p.artifacts }),
    get-remove Stage-discrete s t m,
  )
]

-- Reset drops the evidence only when it rewinds to a stage before verify: a reset of verify itself
-- keeps the evidence whose references it has dropped.
pub reset-evidence :
    (p q : Project) (s : Stage) (now : ℕ)
    → reset p s now ≡ ok q
    → q.evidence ≡ (if is_some p.artifacts && not (stage_eq s verify) then [] else p.evidence)
unfolding reset
reset-evidence p q s now h = elim (Option-cases p.artifacts) [
  | inl no_map ↦
      ground (arith, clear_after-evidence s (record p { artifacts = delete_stage s p.artifacts }))
  | inr (m, is_map) ↦ ground (
    arith,
    clear_after-evidence s (record p { artifacts = delete_stage s p.artifacts }),
    not_verify-later s,
    is_later-irreflexive verify,
  )
]

append_refs-artifacts :
    (s t : Stage) (refs : List ArtifactRef) (p : Project)
    → artifacts_of (append_refs s refs p) t
      ≡ (if stage_eq s t then artifacts_of p t ++ refs else artifacts_of p t)
unfolding append_refs
append_refs-artifacts s t [] p = ground (arith, append-nil (artifacts_of p t))
append_refs-artifacts s t (ref ∷ refs) p =
    ground
      (arith, get-put Stage-discrete s t (artifacts_of p s ++ (ref ∷ refs)) (entries p.artifacts))

fail-keeps :
    (p q : Project) (s : Stage) (kind : Text) (now : ℕ)
    → fail p s kind now ≡ ok q
    → q.artifacts ≡ p.artifacts
unfolding fail
fail-keeps p q s kind now h = ground arith

-- A failed stage keeps every reference it had, and appends the evidence of the failure to its own.
pub fail_with-artifacts :
    (p q : Project) (s t : Stage) (kind : Text) (refs : List ArtifactRef) (now : ℕ)
    → fail_with p s kind refs now ≡ ok q
    → artifacts_of q t ≡ (if stage_eq s t then artifacts_of p t ++ refs else artifacts_of p t)
unfolding fail_with
fail_with-artifacts p q s t kind refs now h =
    let (_, checked, rest) = >>=-eq-ok (check_evidence s refs) _ h in
    let (r, failed, same) = >>=-eq-ok (fail p s kind now) _ rest in
    ground (arith, append_refs-artifacts s t refs r, fail-keeps p r s kind now failed)
