-- ===== src/Modeling/Project/Shape.antt =====
-- What the operations on a project do to the references of every stage.
pub mod Runs
use mathlib.Core.Logic.{ite}
use qemu_agent.Common.{
  ℕ, List, [], ◌∷◌, ◌++◌, ◌≡◌, refl, ◌∙◌, Bool, true, false, Option, none, some, arith, Result, ok,
  err, ◌⊎◌, inl, inr, >>=-eq-ok, Option-cases, ltb, if◌then◌else◌, ap, ◌&&◌, Bool-cases, ◌>>=◌,
  is_some,
}
use qemu_agent.Text.{Text}
use qemu_agent.Modeling.Types.{
  Stage, Stage-discrete, stage_eq, is_known, ArtifactRef, stage_index, verify, extract, infer, emit,
  next_stage,
}
use qemu_agent.Modeling.StageMap.{StageMap, find, insert, delete, or_nil}
use qemu_agent.Common.Assoc.{get, get-put, get-remove}
use qemu_agent.Modeling.Project.{
  Project, entries, artifacts_of, stages_after, clear_stages, clear_after, recorded,
  collect_evidence,
}

-- `stageIndex(t) > stageIndex(s)` for two declared stages.
abbrev pub is_later : Stage → Stage → Bool
is_later t s = elim (stage_index t) [
  | none ↦ false
  | some i ↦ elim (stage_index s) [ none ↦ false | some j ↦ ltb j i ]
]

abbrev pub stage_in : Stage → List Stage → Bool
stage_in t [] = false
stage_in t (s ∷ ss) = if stage_eq s t then true else stage_in t ss

pub stages_after-later : (s t : Stage) → stage_in t (stages_after s) ≡ is_later t s
unfolding stages_after stage_index
stages_after-later s t = ground arith

pub find-clear_stages :
    (t : Stage) (ss : List Stage) (m : StageMap) (ev : List ArtifactRef)
    → find t (clear_stages ss m ev).0 ≡ (if stage_in t ss then none else find t m)
unfolding clear_stages
find-clear_stages t [] m ev = refl
find-clear_stages t (s ∷ ss) m ev = ground (
  arith,
  find-clear_stages t ss (delete s m) (if stage_eq s verify then [] else ev),
  get-remove Stage-discrete s t m,
)

-- The evidence goes with the stage verify.
pub evidence-clear_stages :
    (ss : List Stage) (m : StageMap) (ev : List ArtifactRef)
    → (clear_stages ss m ev).1 ≡ (if stage_in verify ss then [] else ev)
unfolding clear_stages
evidence-clear_stages [] m ev = refl
evidence-clear_stages (s ∷ ss) m ev =
    ground (arith, evidence-clear_stages ss (delete s m) (if stage_eq s verify then [] else ev))

pub find-nil : (t : Stage) → find t [] ≡ none
unfolding get
find-nil t = refl

pub clear_after-find :
    (s t : Stage) (p : Project)
    → is_known s ≡ true
    → find t (entries (clear_after s p).artifacts)
      ≡ (if is_later t s then none else find t (entries p.artifacts))
unfolding clear_after
clear_after-find s t p known = elim (Option-cases (stage_index s)) [
  | inl unknown ↦ ground arith
  | inr (i, at_i) ↦ elim (Option-cases p.artifacts) [
    | inl no_map ↦ ground (arith, find-nil t)
    | inr (m, is_map) ↦
        ground (arith, find-clear_stages t (stages_after s) m p.evidence, stages_after-later s t)
  ]
]

pub clear_after-evidence :
    (s : Stage) (p : Project)
    → (clear_after s p).evidence
      ≡ (if is_some p.artifacts && is_later verify s then [] else p.evidence)
unfolding clear_after
clear_after-evidence s p = elim (Option-cases (stage_index s)) [
  | inl unknown ↦ ground arith
  | inr (i, at_i) ↦ elim (Option-cases p.artifacts) [
    | inl no_map ↦ ground arith
    | inr (m, is_map) ↦
        ground
          (arith, evidence-clear_stages (stages_after s) m p.evidence, stages_after-later s verify)
  ]
]

-- What the stage `t` holds after stage `s` was recorded with `refs`.
abbrev pub after_record : Project → Stage → List ArtifactRef → Stage → List ArtifactRef
after_record p s refs t =
    if stage_eq s t then refs else if is_later t s then [] else artifacts_of p t

pub is_later-irreflexive : (s : Stage) → is_later s s ≡ false
is_later-irreflexive s = elim (Option-cases (stage_index s)) [
  | inl unknown ↦ ground arith
  | inr (i, at_i) ↦ ground arith
]

pub recorded-artifacts :
    (p : Project) (s t : Stage) (refs : List ArtifactRef) (now : ℕ)
    → is_known s ≡ true
    → artifacts_of (recorded p s refs now) t ≡ after_record p s refs t
unfolding recorded
recorded-artifacts p s t refs now known = ground (
  arith,
  clear_after-find s t (record p { artifacts = some (insert s refs (entries p.artifacts)) }) known,
  get-put Stage-discrete s t refs (entries p.artifacts),
  is_later-irreflexive s,
)

-- The evidence of a project after stage `s` was recorded with `refs`.
abbrev pub evidence_after : Stage → List ArtifactRef → List ArtifactRef
evidence_after s refs = if stage_eq s verify then collect_evidence refs else []

pub not_verify-later :
    (s : Stage) → is_known s ≡ true → (stage_eq s verify ≡ true) ⊎ (is_later verify s ≡ true)
unfolding stage_index
not_verify-later s known = ground arith

pub recorded-evidence :
    (p : Project) (s : Stage) (refs : List ArtifactRef) (now : ℕ)
    → is_known s ≡ true
    → (recorded p s refs now).evidence ≡ evidence_after s refs
unfolding recorded
recorded-evidence p s refs now known = elim (not_verify-later s known) [
  | inl last ↦ ground arith
  | inr later ↦ ground (
    arith,
    clear_after-evidence s (record p { artifacts = some (insert s refs (entries p.artifacts)) }),
  )
]
