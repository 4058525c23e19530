-- ===== src/Modeling/Pipeline/Inputs.antt =====
-- What a stage is handed: the references of the stages before its own, and no other.
use qemu_agent.Common.{
  ℕ, List, [], ◌∷◌, ◌≡◌, refl, inl, inr, none, some, arith, Option-cases, if◌then◌else◌, take,
}
use qemu_agent.Common.Assoc.{get, get-put}
use qemu_agent.Modeling.Types.{Stage, Stage-discrete, stage_index, stage_order}
use qemu_agent.Modeling.StageMap.{StageMap, find}
use qemu_agent.Modeling.Project.{Project, entries}
use qemu_agent.Modeling.Project.Shape.{is_later, stage_in, find-nil}
use qemu_agent.Modeling.Steps.{inputs_from, inputs_before}

inputs_from-find :
    (t : Stage) (ss : List Stage) (m : StageMap)
    → find t (inputs_from ss m) ≡ (if stage_in t ss then find t m else none)
unfolding inputs_from get
inputs_from-find t [] m = refl
inputs_from-find t (s ∷ ss) m = elim (Option-cases (find s m)) [
  | inl absent ↦ ground (arith, inputs_from-find t ss m)
  | inr (refs, there) ↦
      ground (arith, inputs_from-find t ss m, get-put Stage-discrete s t refs (inputs_from ss m))
]

stages_before-later :
    (s t : Stage) (i : ℕ) → stage_index s ≡ some i → stage_in t (take i stage_order) ≡ is_later s t
unfolding stage_index
stages_before-later s t i h = ground arith

-- The inputs of a declared stage are exactly the project's references of the stages before it.
pub inputs_before-find :
    (p : Project) (s t : Stage)
    → find t (inputs_before p s) ≡ (if is_later s t then find t (entries p.artifacts) else none)
unfolding inputs_before
inputs_before-find p s t = elim (Option-cases (stage_index s)) [
  | inl unknown ↦ ground (arith, find-nil t)
  | inr (i, at_i) ↦ ground (
    arith,
    inputs_from-find t (take i stage_order) (entries p.artifacts),
    stages_before-later s t i at_i,
  )
]
