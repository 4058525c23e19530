-- ===== src/Modeling/Project/Valid/Landed.antt =====
-- Applied, ApplyFailed and Reset keep a project valid.
use qemu_agent.Common.{
  ℕ, List, [], ◌∷◌, ◌≡◌, refl, true, false, Option, none, some, All, arith, ok, inl, inr,
  Bool-cases, Result-cases,
}
use qemu_agent.Text.{Text}
use qemu_agent.Modeling.Types.{Stage-discrete, Stage, is_known, ArtifactRef}
use qemu_agent.Modeling.StageMap.{StageMap}
use qemu_agent.Common.Assoc.{All-remove}
use qemu_agent.Modeling.Project.{
  Project, entries, artifacts_of, has_none, append_evidence, applied, apply_failed, delete_stage,
  reset,
}
use qemu_agent.Modeling.Project.Valid.{IsEntry, IsValid}
use qemu_agent.Modeling.Project.Valid.Kept.{
  find-is_known, append_evidence-IsValid, clear_after-IsValid, empty-IsCategory, move_on-IsValid,
  short_category-IsCategory,
}

pub artifacts-known :
    (p : Project) (s : Stage) (refs : List ArtifactRef)
    → IsValid p
    → artifacts_of p s ≡ refs
    → has_none refs ≡ false
    → is_known s ≡ true
artifacts-known p s [] v e h = cc
artifacts-known p s (ref ∷ refs) v e h = find-is_known s (entries p.artifacts) ref refs v.filed e

pub applied-IsValid :
    (p q : Project) (stage : Stage) (refs : List ArtifactRef) (now : ℕ)
    → IsValid p
    → applied p stage refs now ≡ ok q
    → IsValid q
unfolding applied
applied-IsValid p q stage refs now v h = elim (Bool-cases (has_none (artifacts_of p stage))) [
  | inl nothing ↦ ground arith
  | inr some_refs ↦
      let known = artifacts-known p stage (artifacts_of p stage) v refl some_refs in
      elim (Result-cases (append_evidence p stage refs)) [
        | inl (r, e) ↦ ground (
          arith,
          append_evidence-IsValid p r stage refs v known e,
          move_on-IsValid stage r known,
          empty-IsCategory,
        )
        | inr (e, refused) ↦ ground arith
      ]
]

pub apply_failed-IsValid :
    (p q : Project) (stage : Stage) (kind : Text) (refs : List ArtifactRef) (now : ℕ)
    → IsValid p
    → is_known stage ≡ true
    → apply_failed p stage kind refs now ≡ ok q
    → IsValid q
unfolding apply_failed
apply_failed-IsValid p q stage kind refs now v known h =
    elim (Result-cases (append_evidence p stage refs)) [
      | inl (r, e) ↦
          ground (
            arith,
            append_evidence-IsValid p r stage refs v known e,
            short_category-IsCategory kind,
          )
      | inr (e, refused) ↦ ground arith
    ]

delete_stage-entries :
    (s : Stage) (o : Option StageMap)
    → All IsEntry (entries o)
    → All IsEntry (entries (delete_stage s o))
delete_stage-entries s none h = tt
delete_stage-entries s (some m) h = All-remove Stage-discrete IsEntry s m h

pub reset-IsValid :
    (p q : Project) (stage : Stage) (now : ℕ) → IsValid p → reset p stage now ≡ ok q → IsValid q
unfolding reset
reset-IsValid p q stage now v h = ground (
  arith,
  clear_after-IsValid stage (record p { artifacts = delete_stage stage p.artifacts }),
  delete_stage-entries stage p.artifacts v.filed,
  empty-IsCategory,
)
