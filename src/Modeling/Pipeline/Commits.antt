-- ===== src/Modeling/Pipeline/Commits.antt =====
-- What the pipeline relies on from the artifact store, and what follows for its own batches.
use qemu_agent.Common.{
  List, [], ◌∷◌, ◌≡◌, refl, inl, inr, Option, All, arith, Result, ok, err, Result-cases, >>=-eq-ok,
}
use qemu_agent.Text.{Text}
use qemu_agent.Modeling.Types.{Stage, Kind, ArtifactRef, Error}
use qemu_agent.Modeling.Project.{Project}
use qemu_agent.Modeling.Project.Valid.{IsRef, IsFiled, IsFiledProof}
use qemu_agent.Modeling.Steps.{
  Draft, ArtifactStore, StageOutput, only_evidence, file_drafts, or_none, filed_output,
  filed_evidence,
}
use qemu_agent.Modeling.Pipeline.{write_batch, write_checked, persist, persist_evidence}

-- One valid reference for each draft, with the draft's stage and kind.
abbrev pub Committed : List Draft → List ArtifactRef → Type 0
Committed [] [] = Unit
Committed [] (r ∷ rs) = ⊥
Committed (d ∷ ds) [] = ⊥
Committed (d ∷ ds) (r ∷ rs) = ((r.stage ≡ d.stage) × (r.kind ≡ d.kind) × IsRef r) × Committed ds rs

-- A batch that Stage made of some drafts is committed as those drafts.
abbrev pub CommitsDrafts : {A B : Type 0} → ArtifactStore A B → Type 0
CommitsDrafts {A} {B} ops =
    (ctx : Option Error) (id : Text) (drafts : List Draft) (a : A) (batch : B)
    (refs : List ArtifactRef)
    → (ops.stage_drafts ctx id drafts a).1 ≡ ok batch
    → (ops.commit ctx batch (ops.stage_drafts ctx id drafts a).0).1 ≡ ok refs
    → Committed drafts refs

abbrev IsFor : Stage → Draft → Type 0
IsFor stage d = d.stage ≡ stage

abbrev IsEvidence : Draft → Type 0
IsEvidence d = d.kind ≡ Kind.evidence

file_drafts-IsFor :
    (stage : Stage) (ds filed : List Draft)
    → file_drafts stage ds ≡ ok filed
    → All (IsFor stage) filed
unfolding file_drafts
file_drafts-IsFor stage [] filed h = ground arith
file_drafts-IsFor stage (d ∷ ds) filed h = elim (Result-cases (file_drafts stage ds)) [
  | inl (rest, e) ↦ ground (arith, file_drafts-IsFor stage ds rest e)
  | inr (x, e) ↦ absurd (ground arith)
]

only_evidence-IsEvidence : (ds : List Draft) → only_evidence ds ≡ ok tt → All IsEvidence ds
unfolding only_evidence
only_evidence-IsEvidence [] h = tt
only_evidence-IsEvidence (d ∷ ds) h = (ground arith, only_evidence-IsEvidence ds (ground arith))

Committed-IsFiled :
    (stage : Stage) (ds : List Draft) (refs : List ArtifactRef)
    → Committed ds refs
    → All (IsFor stage) ds
    → All (IsFiled stage) refs
Committed-IsFiled stage [] [] c h = tt
Committed-IsFiled stage [] (r ∷ rs) c h = absurd c
Committed-IsFiled stage (d ∷ ds) [] c h = absurd c
Committed-IsFiled stage (d ∷ ds) (r ∷ rs) c h =
    (ground arith, Committed-IsFiled stage ds rs c.1 h.1)

pub Committed-IsFiledProof :
    (stage : Stage) (ds : List Draft) (refs : List ArtifactRef)
    → Committed ds refs
    → All (IsFor stage) ds
    → All IsEvidence ds
    → All (IsFiledProof stage) refs
Committed-IsFiledProof stage [] [] c h k = tt
Committed-IsFiledProof stage [] (r ∷ rs) c h k = absurd c
Committed-IsFiledProof stage (d ∷ ds) [] c h k = absurd c
Committed-IsFiledProof stage (d ∷ ds) (r ∷ rs) c h k =
    (ground arith, Committed-IsFiledProof stage ds rs c.1 h.1 k.1)

module _ {A B : Type 0} (ops : ArtifactStore A B) (law : CommitsDrafts ops) where
  pub write_batch-Committed :
      (ctx : Option Error) (id : Text) (drafts : List Draft) (a : A) (refs : List ArtifactRef)
      → (write_batch ops ctx id drafts a).1 ≡ ok refs
      → Committed drafts refs
  unfolding write_batch
  write_batch-Committed ctx id drafts a refs h =
      elim (Result-cases (ops.stage_drafts ctx id drafts a).1) [
        | inl (batch, e) ↦
            let a1 = (ops.stage_drafts ctx id drafts a).0 in
            elim (Result-cases (ops.commit ctx batch a1).1) [
              | inl (rs, e2) ↦
                  let same : rs ≡ refs = ground arith in
                  rw (← same) (law ctx id drafts a batch rs e e2)
              | inr (x, e2) ↦ absurd (ground arith)
            ]
        | inr (x, e) ↦ absurd (ground arith)
      ]

  write_checked-Committed :
      (ctx : Option Error) (id : Text) (r : Result Error (List Draft)) (a : A)
      (refs : List ArtifactRef)
      → (write_checked ops ctx id r a).1 ≡ ok refs
      → (ds : List Draft) × (r ≡ ok ds) × Committed ds refs
  write_checked-Committed ctx id (err e) a refs h = absurd (ground arith)
  write_checked-Committed ctx id (ok []) a [] h = ([], refl, tt)
  write_checked-Committed ctx id (ok []) a (r ∷ rs) h = absurd (ground arith)
  write_checked-Committed ctx id (ok (d ∷ ds)) a refs h =
      (d ∷ ds, refl, write_batch-Committed ctx id (d ∷ ds) a refs h)

  -- What persist commits are valid references of the stage.
  pub persist-IsFiled :
      (ctx : Option Error) (p : Project) (stage : Stage) (out : StageOutput) (a : A)
      (refs : List ArtifactRef)
      → (persist ops ctx p stage out a).1 ≡ ok refs
      → All (IsFiled stage) refs
  unfolding persist
  persist-IsFiled ctx p stage out a refs h =
      let (ds, filed, committed) =
        write_checked-Committed ctx p.id (filed_output stage out) a refs h in
      let (_, proofs, rest) = >>=-eq-ok (only_evidence out.evidence) _ filed in
      Committed-IsFiled stage ds refs committed (file_drafts-IsFor stage _ ds rest)

  -- What persistEvidence commits is evidence of the stage.
  pub persist_evidence-IsFiledProof :
      (ctx : Option Error) (p : Project) (stage : Stage) (drafts : List Draft) (a : A)
      → All (IsFiledProof stage) (or_none (persist_evidence ops ctx p stage drafts a).1)
  unfolding persist_evidence
  persist_evidence-IsFiledProof ctx p stage drafts a =
      elim (Result-cases (persist_evidence ops ctx p stage drafts a).1) [
        | inl (refs, e) ↦
            let (ds, filed, committed) =
              write_checked-Committed ctx p.id (filed_evidence stage drafts) a refs e in
            let (fs, for_stage, rest) = >>=-eq-ok (file_drafts stage drafts) _ filed in
            let (_, proofs, same) = >>=-eq-ok (only_evidence fs) _ rest in
            let same_list : fs ≡ ds = ground arith in
            rw e (
              Committed-IsFiledProof stage ds refs committed
                (rw same_list at (file_drafts-IsFor stage drafts fs for_stage))
                (rw same_list at (only_evidence-IsEvidence fs proofs)))
        | inr (x, e) ↦ rw e tt
      ]
