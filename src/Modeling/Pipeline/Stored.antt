-- ===== src/Modeling/Pipeline/Stored.antt =====
-- The stage transaction over the artifact store on files: the references of a finished run.
use qemu_agent.Common.{
  List, [], ◌∷◌, ◌≡◌, ◌∙◌, subst, inl, inr, Option, none, some, true, All, arith, Result, ok, err,
  Result-cases, Bool-cases,
}
use qemu_agent.Text.{Text}
use qemu_agent.Files.{FilePath}
use qemu_agent.Files.Paths.{IsOrdinary}
use qemu_agent.Modeling.Types.{Stage, ArtifactRef, Error}
use qemu_agent.Modeling.Names.{validate_ref, validate_project_id}
use qemu_agent.Modeling.Project.{Project}
use qemu_agent.Modeling.Project.Frame.{complete-SameRun, hold-SameRun}
use qemu_agent.Modeling.Store.{save}
use qemu_agent.Modeling.Store.Safe.{save-stored}
use qemu_agent.Modeling.Artifacts.{
  Host, Disk, stage_drafts, commit, open_artifact, final_path, file_store,
}
use qemu_agent.Modeling.Artifacts.Staged.{stage_drafts-opens, open_batch-facts}
use qemu_agent.Modeling.Artifacts.Committed.{IsStored, commit-stores, commit-refs}
use qemu_agent.Modeling.Steps.{
  Draft, StageOutput, RunRequest, RunResult, Env, World, Registry, bumped, settle, start,
  filed_output, hold_reason,
}
use qemu_agent.Modeling.Pipeline.Finished.{advance-IsReported}
use qemu_agent.Modeling.Project.Valid.{validate_iff}
use qemu_agent.Modeling.Pipeline.{
  write_batch, write_checked, persist, fail_stage, finish, conclude, run_stage, advance,
}

-- Opening the reference gives a body with its digest.
abbrev pub IsReadable : Host → Text → Disk → ArtifactRef → Type 0
IsReadable host id disk ref =
    (body : Text) × (open_artifact host none id ref disk ≡ ok body)
    × (host.digest_of body ≡ ref.digest)

module _ (host : Host) (root : All IsOrdinary host.root) where
  -- What the references of a project name is on disk, and passes the checks of a reference.
  pub record AreStored (id : Text) (disk : Disk) (refs : List ArtifactRef) : Type 0 where
    pub stored : All (IsStored host id disk.files) refs
    pub checked : All (λ ref. validate_ref ref ≡ ok tt) refs

  write_batch-AreStored :
      (ctx : Option Error) (id : Text) (ds : List Draft) (disk : Disk) (refs : List ArtifactRef)
      → (write_batch (file_store host) ctx id ds disk).1 ≡ ok refs
      → AreStored id (write_batch (file_store host) ctx id ds disk).0 refs
  unfolding write_batch
  write_batch-AreStored ctx id ds disk refs h =
      elim (Result-cases (stage_drafts host ctx id ds disk).1) [
        | inr (x, e) ↦ absurd (ground arith)
        | inl (batch, e) ↦
            let staged = (stage_drafts host ctx id ds disk).0 in
            elim (Result-cases (commit host ctx batch staged).1) [
              | inr (x, e2) ↦ absurd (ground arith)
              | inl (rs, e2) ↦
                  let (opened, _) = stage_drafts-opens host ctx id ds disk batch e in
                  let (_, plain_id, own, _) = open_batch-facts host id ds disk batch opened in
                  let (_, kept) = commit-stores host batch root plain_id ctx staged rs e2 in
                  let (same, valid) = commit-refs host batch ctx staged rs e2 in
                  let result : refs ≡ rs = ground arith in
                  let final : (write_batch (file_store host) ctx id ds disk).0
                      ≡ (commit host ctx batch staged).0 =
                    ground arith in
                  let own_refs : refs ≡ batch.refs = result ∙ same in
                  record {
                    stored =
                        rw (final, result)
                          (subst
                            (λ i. All (IsStored host i (commit host ctx batch staged).0.files) rs)
                            own kept);
                    checked = rw own_refs valid;
                  }
            ]
      ]

  write_checked-AreStored :
      (ctx : Option Error) (id : Text) (r : Result Error (List Draft)) (disk : Disk)
      (refs : List ArtifactRef)
      → (write_checked (file_store host) ctx id r disk).1 ≡ ok refs
      → AreStored id (write_checked (file_store host) ctx id r disk).0 refs
  write_checked-AreStored ctx id (err e) disk refs h = absurd (ground arith)
  write_checked-AreStored ctx id (ok []) disk [] h = record { stored = tt; checked = tt }
  write_checked-AreStored ctx id (ok []) disk (r ∷ rs) h = absurd (ground arith)
  write_checked-AreStored ctx id (ok (d ∷ ds)) disk refs h =
      write_batch-AreStored ctx id (d ∷ ds) disk refs h

  settle-id :
      (env : Env) (p q : Project) (stage : Stage) (out : StageOutput) (refs : List ArtifactRef)
      → settle env p stage out refs ≡ ok q
      → q.id ≡ p.id
  unfolding settle
  settle-id env p q stage out refs h = elim (Bool-cases out.blocked) [
    | inl waits ↦
        (hold-SameRun p q stage refs (hold_reason out.reason) env.now_end
          (rw (waits, settle) at h)).0.id
    | inr goes ↦ (complete-SameRun p q stage refs env.now_end (rw (goes, settle) at h)).0.id
  ]

  finish-AreStored :
      (env : Env) (w : World Disk) (p : Project) (stage : Stage) (out : StageOutput)
      (refs : List ArtifactRef) (r : RunResult)
      → AreStored p.id w.artifacts refs
      → (finish (file_store host) env w p stage out refs).1 ≡ ok r
      → AreStored r.project.id (finish (file_store host) env w p stage out refs).0.artifacts r.refs
  unfolding finish fail_stage
  finish-AreStored env w p stage out refs r kept h =
      elim (Result-cases (settle env p stage out refs)) [
        | inr (x, e) ↦ absurd (ground arith)
        | inl (moved, e) ↦
            elim (Result-cases (save w.store env.ctx_end (bumped moved) env.wrote_end)) [
              | inr (x, e2) ↦ absurd (ground arith)
              | inl ((s', saved), e2) ↦
                  let (stores, same, valid, _) =
                    save-stored w.store s' env.ctx_end (bumped moved) saved env.wrote_end e2 in
                  let same_id : r.project.id ≡ p.id =
                    ground (arith, settle-id env p moved stage out refs e) in
                  let same_refs : r.refs ≡ refs = ground arith in
                  let same_disk : (finish (file_store host) env w p stage out refs).0.artifacts
                      ≡ w.artifacts =
                    ground arith in
                  rw (same_id, same_refs, same_disk) kept
            ]
      ]

  conclude-AreStored :
      (env : Env) (w : World Disk) (p : Project) (stage : Stage) (out : StageOutput)
      (failure : Option Error) (r : RunResult)
      → (conclude (file_store host) env w p stage out failure).1 ≡ ok r
      → AreStored r.project.id
          (conclude (file_store host) env w p stage out failure).0.artifacts
          r.refs
  unfolding conclude fail_stage persist
  conclude-AreStored env w p stage out (some e) r h = absurd (ground arith)
  conclude-AreStored env w p stage out none r h =
      elim (Result-cases (persist (file_store host) env.ctx_stage p stage out w.artifacts).1) [
        | inl (refs, e) ↦
            let w' = record w {
              artifacts = (persist (file_store host) env.ctx_stage p stage out w.artifacts).0;
            } in
            let kept : AreStored p.id w'.artifacts refs =
              write_checked-AreStored env.ctx_stage p.id (filed_output stage out) w.artifacts refs
                e in
            rw (e, conclude)
              (finish-AreStored env w' p stage out refs r kept (rw (e, conclude) at h))
        | inr (x, e) ↦ absurd (ground arith)
      ]

  advance-AreStored :
      (env : Env) (registry : Registry) (w : World Disk) (req : RunRequest) (r : RunResult)
      → (advance (file_store host) env registry w req).1 ≡ ok r
      → AreStored r.project.id (advance (file_store host) env registry w req).0.artifacts r.refs
  unfolding advance run_stage
  advance-AreStored env registry w req r h = elim (Result-cases (start env registry w.store req)) [
    | inr (x, e) ↦ absurd (ground arith)
    | inl ((s', p, stage, runner), e) ↦
        let w' = record w { store = s'; events = _ } in
        rw (e, advance, run_stage)
          (conclude-AreStored env w' p stage _ _ r (rw (e, advance, run_stage) at h))
  ]

  open_stored :
      (id : Text) (disk : Disk) (ref : ArtifactRef)
      → ((p : FilePath) → host.readable p ≡ true)
      → validate_project_id id ≡ ok tt
      → validate_ref ref ≡ ok tt
      → IsStored host id disk.files ref
      → IsReadable host id disk ref
  unfolding open_artifact
  open_stored id disk ref readable named valid (body, there, right) =
      (body, ground (arith, readable (final_path host id ref)), right)

  open_all :
      (id : Text) (disk : Disk) (refs : List ArtifactRef)
      → ((p : FilePath) → host.readable p ≡ true)
      → validate_project_id id ≡ ok tt
      → All (λ ref. validate_ref ref ≡ ok tt) refs
      → All (IsStored host id disk.files) refs
      → All (IsReadable host id disk) refs
  open_all id disk [] readable named valid kept = tt
  open_all id disk (ref ∷ refs) readable named valid kept = (
    open_stored id disk ref readable named valid.0 kept.0,
    open_all id disk refs readable named valid.1 kept.1,
  )

  -- When a run over the artifact store on files returns no error, every reference of its result
  -- opens with a body that has the reference's digest, provided the store's root is clean and its
  -- files can be read.
  pub advance-IsReadable :
      (env : Env) (registry : Registry) (w : World Disk) (req : RunRequest) (r : RunResult)
      → ((p : FilePath) → host.readable p ≡ true)
      → (advance (file_store host) env registry w req).1 ≡ ok r
      → All
          (IsReadable host r.project.id (advance (file_store host) env registry w req).0.artifacts)
          r.refs
  advance-IsReadable env registry w req r readable h =
      let kept = advance-AreStored env registry w req r h in
      let reported = advance-IsReported (file_store host) env registry w req r h in
      let valid = (validate_iff r.project).0 reported.valid in
      open_all r.project.id (advance (file_store host) env registry w req).0.artifacts r.refs
        readable valid.named kept.checked kept.stored
