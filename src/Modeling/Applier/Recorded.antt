-- ===== src/Modeling/Applier/Recorded.antt =====
-- What a landing leaves in the project store.
use qemu_agent.Common.{
  ℕ, List, [], ◌∷◌, ◌++◌, ◌≡◌, ◌≢◌, refl, sym, ◌∙◌, ap, subst, none, some, true, false, inl, inr,
  ok, All, arith, Result-cases, Option-cases, >>=-eq-ok,
}
use qemu_agent.Common.Assoc.{All-get}
use qemu_agent.Text.{Text, Text-discrete, trim_space}
use qemu_agent.Files.{Files}
use qemu_agent.Modeling.Types.{
  Stage, stage_index, next_stage, stage_at, verify, Status, running, status_eq, Kind, ArtifactRef,
  next_int, is_negative,
}
use qemu_agent.Modeling.Project.{Project, applied, artifacts_of, has_none, append_evidence, move_on}
use qemu_agent.Modeling.Project.Frame.{applied-SameRun, append_refs-SameRun}
use qemu_agent.Modeling.Project.Valid.{IsValid, IsFiledProof, check_evidence_iff, validate_iff}
use qemu_agent.Modeling.Project.Valid.Landed.{applied-IsValid}
use qemu_agent.Modeling.Store.{Store, Scope, indexed, stored, save, get_project}
use qemu_agent.Modeling.Store.Safe.{IsStore, IsIndexed, save-succeeds, stored-indexed}
use qemu_agent.Modeling.Store.Access.{get_project-visible}
use qemu_agent.Modeling.Steps.{ArtifactStore, bumped, or_none}
use qemu_agent.Modeling.Pipeline.Commits.{
  CommitsDrafts, Committed-IsFiledProof, write_batch-Committed,
}
use qemu_agent.Modeling.Pipeline.Live.{bumped-IsValid}
use qemu_agent.Modeling.Apply.{ApplyPlan, ApplyResult}
use qemu_agent.Modeling.Applier.{
  ApplyHost, find_last, find_artifact, artifact_apply_manifest, artifact_apply_plan, available,
  plan,
}
use qemu_agent.Modeling.Applier.Landing.{
  PendingWrite, Landing, write_all, commit_plan, record_outcome, settle_apply, land, apply,
  no_result,
}
use qemu_agent.Modeling.Applier.Course.{refused_early, landed, apply-Course}

-- What Applied makes of a project that waits at its emit stage.
applied-succeeds :
    (p : Project) (refs : List ArtifactRef) (now : ℕ)
    → status_eq p.status running ≡ false
    → has_none (artifacts_of p Stage.emit) ≡ false
    → now ≢ 0
    → All (IsFiledProof Stage.emit) refs
    → (q : Project) × (applied p Stage.emit refs now ≡ ok q)
      × (q.last_error ≡ [])
      × (p.current ≡ Stage.emit → (q.current ≡ verify) × (q.status ≡ Status.pending))
unfolding applied append_evidence move_on stage_index next_stage stage_at
applied-succeeds p refs now idle some_refs t h =
    let checked = (check_evidence_iff Stage.emit refs).1 h in
    let kept = append_refs-SameRun Stage.emit refs p in
    elim (Result-cases (applied p Stage.emit refs now)) [
      | inl (q, e) ↦ (q, e, ground arith, λ here. ground arith)
      | inr (x, e) ↦ absurd (ground arith)
    ]

find_last-some :
    (name : Text) (refs : List ArtifactRef) (ref : ArtifactRef)
    → find_last name refs ≡ some ref
    → has_none refs ≡ false
unfolding find_last
find_last-some name [] ref h = absurd (ground arith)
find_last-some name (r ∷ refs) ref h = refl

find_artifact-some :
    (p : Project) (stage : Stage) (name : Text) (ref : ArtifactRef)
    → find_artifact p stage name ≡ ok ref
    → has_none (artifacts_of p stage) ≡ false
find_artifact-some p stage name ref h =
    find_last-some name (artifacts_of p stage) ref (ground arith)

-- What a project looks like after its files have landed.
pub record IsLanded (p q : Project) : Type 0 where
  pub followed : q.revision ≡ next_int p.revision
  pub settled : q.last_error ≡ []
  pub moved : p.current ≡ Stage.emit → (q.current ≡ verify) × (q.status ≡ Status.pending)

module _ {A B : Type 0} (ops : ArtifactStore A B) (host : ApplyHost) where
  plan-held :
      (w : Landing A) (seen : Files) (id : Text) (scope : Scope) (made : ApplyPlan) (p : Project)
      → plan ops host w.store w.artifacts seen id scope ≡ ok (made, p)
      → (get_project w.store host.ctx_get id scope ≡ ok p)
        × (has_none (artifacts_of p Stage.emit) ≡ false)
  unfolding plan find_last
  plan-held w seen id scope made p h =
      let (u, ready, h1) = >>=-eq-ok (available host) _ h in
      let (q, got, h2) = >>=-eq-ok (get_project w.store host.ctx_get id scope) _ h1 in
      let (manifest, found, h3) =
        >>=-eq-ok (find_artifact q Stage.emit artifact_apply_manifest) _ h2 in
      let same : q ≡ p = ground arith in
      let some_refs = find_artifact-some q Stage.emit artifact_apply_manifest manifest found in
      (rw (← same) got, rw (← same) some_refs)

  commit_plan-proofs :
      CommitsDrafts ops
      → (p : Project) (made : ApplyPlan) (r : ApplyResult) (a : A)
      → All (IsFiledProof Stage.emit) (or_none (commit_plan ops host p made r a).1)
  unfolding commit_plan
  commit_plan-proofs law p made r a = elim (Result-cases (commit_plan ops host p made r a).1) [
    | inr (x, e) ↦ rw e tt
    | inl (refs, e) ↦ elim (Option-cases (host.encoded made r host.now_plan)) [
      | inl unencoded ↦ absurd (ground arith)
      | inr (text, encoded) ↦
          let drafts =
            record {
              stage = Stage.emit;
              name = artifact_apply_plan;
              kind = Kind.evidence;
              body = text ++ (10 ∷ []);
            }
            ∷ [] in
          let committed =
            write_batch-Committed ops law host.ctx_stage p.id drafts a refs (ground arith) in
          rw e (Committed-IsFiledProof Stage.emit drafts refs committed (refl, tt) (refl, tt))
    ]
  ]

  record_outcome-IsLanded :
      (p : Project) (refs : List ArtifactRef) (r : ApplyResult) (s : Store)
      → r.partial ≡ false
      → host.wrote ≡ true
      → host.now_end ≢ 0
      → IsValid p
      → indexed p.id s ≡ some p
      → is_negative (next_int p.revision) ≡ false
      → status_eq p.status running ≡ false
      → has_none (artifacts_of p Stage.emit) ≡ false
      → All (IsFiledProof Stage.emit) refs
      → (q : Project) × (indexed p.id (record_outcome ops host p refs r s) ≡ some q) × IsLanded p q
  unfolding record_outcome
  record_outcome-IsLanded p refs r s whole wrote t valid held room idle some_refs h =
      let (q, made, settled, moved) =
        applied-succeeds (bumped p) refs host.now_end idle some_refs t h in
      let same = applied-SameRun (bumped p) q Stage.emit refs host.now_end made in
      let good =
        applied-IsValid (bumped p) q Stage.emit refs host.now_end (bumped-IsValid p room valid)
          made in
      let saved : save s none q true ≡ ok (stored s q, q) =
        save-succeeds s q p (ground (arith, same.id)) same.id same.workspace same.user same.created
          same.revision ((validate_iff q).1 good) in
      (
        q,
        ground (arith, stored-indexed s q, same.id),
        record { followed = same.revision; settled = settled; moved = moved },
      )

  land-recorded :
      (p : Project) (made : ApplyPlan) (writes : List PendingWrite) (w : Landing A)
      → (land ops host p made writes w).2 ≡ none
      → (r : ApplyResult) × (final : ApplyResult) × (final.partial ≡ false)
        × ((land ops host p made writes w).0.store
            ≡ record_outcome ops host p
                (or_none (commit_plan ops host p made r w.artifacts).1)
                final
                w.store)
  unfolding land settle_apply
  land-recorded p made writes w h =
      let (tree, written, skipped) = write_all host.write 0 writes w.tree in
      let r = record (no_result made.project_id) { written = written; skipped = skipped } in
      let refs = or_none (commit_plan ops host p made r w.artifacts).1 in
      (r, record r { evidence = refs }, refl, ground arith)

  -- When Apply returns no error for a project that is not running, the project is stored at its
  -- next revision without an error, and one that waited at emit waits at verify, provided the store
  -- is well formed, the artifact store keeps its promise, the clock is set, the revision can grow
  -- and the state is written.
  pub apply-IsLanded :
      CommitsDrafts ops
      → (seen : Files) (id : Text) (scope : Scope) (w : Landing A) (made : ApplyPlan) (p : Project)
      → plan ops host w.store w.artifacts seen id scope ≡ ok (made, p)
      → IsStore w.store
      → host.wrote ≡ true
      → host.now_end ≢ 0
      → is_negative (next_int p.revision) ≡ false
      → status_eq p.status running ≡ false
      → (apply ops host seen id scope w).2 ≡ none
      → (q : Project) × (indexed p.id (apply ops host seen id scope w).0.store ≡ some q)
        × IsLanded p q
  apply-IsLanded law seen id scope w made p planned good wrote t room idle h =
      elim (apply-Course ops host seen id scope w) [
        | refused_early e same empty failed ↦ absurd (ground arith)
        | landed p' made' writes planned' prepared same ↦
            let same_p : p ≡ p' = ground arith in
            let (got, some_refs) = plan-held w seen id scope made' p' planned' in
            let (found, _, _, _) = get_project-visible w.store host.ctx_get id scope p' got in
            let (own_id, checked) =
              All-get Text-discrete IsIndexed (trim_space id) p' w.store.by_id good.valid found in
            let held = ap (λ i. indexed i w.store) own_id ∙ found in
            let (r, final, whole, store) = land-recorded p' made' writes w (rw same at h) in
            let refs = or_none (commit_plan ops host p' made' r w.artifacts).1 in
            let proofs = commit_plan-proofs law p' made' r w.artifacts in
            let (q, stored_q, lands) =
              record_outcome-IsLanded p' refs final w.store whole wrote t
                ((validate_iff p').0 checked) held
                (ap (λ x. is_negative (next_int x.revision)) (sym same_p) ∙ room)
                (ap (λ x. status_eq x.status running) (sym same_p) ∙ idle) some_refs proofs in
            (
              q,
              ap (λ l. indexed p.id l.0.store) same
                  ∙ ap (indexed p.id) store
                  ∙ ap (λ x. indexed x.id (record_outcome ops host p' refs final w.store)) same_p
                  ∙ stored_q,
              subst (λ x. IsLanded x q) (sym same_p) lands,
            )
      ]

  -- Apply lands the files of a project that is running a stage, returns no error, and leaves the
  -- project stored as running.
  pub apply-running :
      (seen : Files) (id : Text) (scope : Scope) (w : Landing A) (made : ApplyPlan) (p : Project)
      → plan ops host w.store w.artifacts seen id scope ≡ ok (made, p)
      → p.status ≡ running
      → (apply ops host seen id scope w).2 ≡ none
      → (apply ops host seen id scope w).0.store ≡ w.store
  unfolding record_outcome applied
  apply-running seen id scope w made p planned busy h =
      elim (apply-Course ops host seen id scope w) [
        | refused_early e same empty failed ↦ absurd (ground arith)
        | landed p' made' writes planned' prepared same ↦
            let same_p : p' ≡ p = ground arith in
            let (r, final, whole, store) = land-recorded p' made' writes w (rw same at h) in
            ground arith
      ]
