-- ===== src/Modeling/Project/Valid.antt =====
-- What Validate accepts, as a record of facts.

pub mod Kept
pub mod Landed
use qemu_agent.Common.{List, [], ◌∷◌, ◌≡◌, ◌≢◌, refl, ◌↔◌, true, false, All, arith, ok}
use qemu_agent.Text.{Text, trim_space, is_empty}
use qemu_agent.Modeling.Types.{Stage, is_known, Kind, ArtifactRef, is_negative}
use qemu_agent.Modeling.Names.{short_category, validate_ref, validate_project_id}
use qemu_agent.Modeling.StageMap.{StageMap}
use qemu_agent.Modeling.Project.{
  Project, entries, is_declared_status, check_filed, check_entries, check_proofs, validate,
  check_refs, check_evidence,
}

-- A reference that passes validateRef.
abbrev pub IsRef : ArtifactRef → Type 0
IsRef ref = validate_ref ref ≡ ok tt

abbrev pub IsFiled : Stage → ArtifactRef → Type 0
IsFiled stage ref = (ref.stage ≡ stage) × IsRef ref

abbrev pub IsEntry : Stage × List ArtifactRef → Type 0
IsEntry (stage, refs) = (is_known stage ≡ true) × All (IsFiled stage) refs

abbrev pub IsProof : ArtifactRef → Type 0
IsProof ref = IsRef ref × (ref.kind ≡ Kind.evidence)

abbrev pub IsCategory : Text → Type 0
IsCategory text = text ≡ short_category text

pub record IsValid (p : Project) : Type 0 where
  pub named : validate_project_id p.id ≡ ok tt
  pub titled : is_empty (trim_space p.title) ≡ false
  pub placed : is_empty (trim_space p.workspace_id) ≡ false
  pub staged : is_known p.current ≡ true
  pub declared : is_declared_status p.status ≡ true
  pub counted : is_negative p.revision ≡ false
  pub created : p.created_at ≢ 0
  pub updated : p.updated_at ≢ 0
  pub filed : All IsEntry (entries p.artifacts)
  pub proved : All IsProof p.evidence
  pub categorized : IsCategory p.last_error

pub check_filed_iff :
    (stage : Stage) (refs : List ArtifactRef)
    → (check_filed stage refs ≡ ok tt) ↔ All (IsFiled stage) refs
unfolding check_filed
check_filed_iff stage [] = (λ _. tt, λ _. refl)
check_filed_iff stage (ref ∷ refs) = ground (arith, check_filed_iff stage refs)

pub check_entries_iff : (m : StageMap) → (check_entries m ≡ ok tt) ↔ All IsEntry m
unfolding check_entries
check_entries_iff [] = (λ _. tt, λ _. refl)
check_entries_iff ((stage, refs) ∷ m) =
    ground (arith, check_filed_iff stage refs, check_entries_iff m)

pub check_proofs_iff : (refs : List ArtifactRef) → (check_proofs refs ≡ ok tt) ↔ All IsProof refs
unfolding check_proofs
check_proofs_iff [] = (λ _. tt, λ _. refl)
check_proofs_iff (ref ∷ refs) = ground (arith, check_proofs_iff refs)

pub check_refs_iff :
    (stage : Stage) (refs : List ArtifactRef)
    → (check_refs stage refs ≡ ok tt) ↔ All (IsFiled stage) refs
unfolding check_refs
check_refs_iff stage [] = (λ _. tt, λ _. refl)
check_refs_iff stage (ref ∷ refs) = ground (arith, check_refs_iff stage refs)

abbrev pub IsFiledProof : Stage → ArtifactRef → Type 0
IsFiledProof stage ref = IsFiled stage ref × (ref.kind ≡ Kind.evidence)

pub check_evidence_iff :
    (stage : Stage) (refs : List ArtifactRef)
    → (check_evidence stage refs ≡ ok tt) ↔ All (IsFiledProof stage) refs
unfolding check_evidence
check_evidence_iff stage [] = (λ _. tt, λ _. refl)
check_evidence_iff stage (ref ∷ refs) = ground (arith, check_evidence_iff stage refs)

validate_sound : (p : Project) → validate p ≡ ok tt → IsValid p
unfolding validate
validate_sound p h =
    ground (arith, check_entries_iff (entries p.artifacts), check_proofs_iff p.evidence)

validate_complete : (p : Project) → IsValid p → validate p ≡ ok tt
unfolding validate
validate_complete p v =
    ground (arith, check_entries_iff (entries p.artifacts), check_proofs_iff p.evidence)

-- Validate accepts a project exactly when the project is valid.
pub validate_iff : (p : Project) → (validate p ≡ ok tt) ↔ IsValid p
validate_iff p = (validate_sound p, validate_complete p)
