-- ===== src/Modeling/Applier/Landing.antt =====
-- Apply of FileApplier, internal/modeling/applier.go: what is prepared is written, one file at a time,
-- until the write tool refuses one.
use qemu_agent.Common.{
  ℕ, suc, List, [], ◌∷◌, ◌++◌, map, Option, none, some, Bool, true, false, ◌&&◌, if◌then◌else◌,
  Result, ok, err, ◌>>=◌, ◌>>◌,
}
use qemu_agent.Text.{Text, trim_space}
use qemu_agent.Files.{FilePath, Files}
use qemu_agent.Modeling.Types.{Stage, Kind, ArtifactRef, Error, plain, io_failed}
use qemu_agent.Modeling.Project.{Project, applied, apply_failed}
use qemu_agent.Modeling.Store.{Store, Scope, save}
use qemu_agent.Modeling.Classify.{classify}
use qemu_agent.Modeling.Steps.{ArtifactStore, bumped, or_none}
use qemu_agent.Modeling.Apply.{
  FileChange, ApplyPlan, ApplyResult, apply_partial, rejected, validate_change,
}
use qemu_agent.Modeling.Pipeline.{write_batch}
use qemu_agent.Modeling.Applier.{
  ApplyHost, WriteTool, artifact_apply_plan, resolve, read_target, read_checked, compose, plan,
}

-- pendingWrite
pub record PendingWrite : Type 0 where
  pub path : Text
  pub target : FilePath
  pub content : Text

-- What a call of Apply may change; `tree` is the QEMU tree when the writes are prepared.
pub record Landing (A : Type 0) : Type 0 where
  pub store : Store
  pub artifacts : A
  pub tree : Files

-- The write loop: the tree that it leaves, the written paths and the skipped ones.
unfoldable pub write_all : WriteTool → ℕ → List PendingWrite → Files → Files × List Text × List Text
write_all write n [] tree = (tree, [], [])
write_all write n (w ∷ ws) tree =
    let (tree', done) = write n w.target w.content tree in
    let (last, written, skipped) = write_all write (suc n) ws tree' in
    if done then (last, w.path ∷ written, skipped) else (tree', [], map PendingWrite.path (w ∷ ws))

-- `writeErr != nil`: the path of the refused write is the first of the skipped ones.
abbrev pub was_refused : List Text → Bool
was_refused [] = false
was_refused (path ∷ skipped) = true

abbrev pub wrote_none : List Text → Bool
wrote_none [] = true
wrote_none (path ∷ written) = false

-- A result that says only which project it is about.
abbrev pub no_result : Text → ApplyResult
no_result id = record {
  project_id = id;
  written = [];
  skipped = [];
  partial = false;
  reason = [];
  evidence = [];
}

module _ {A B : Type 0} (ops : ArtifactStore A B) (host : ApplyHost) where
  -- The body of the loop of prepare.
  unfoldable pub prepare_change : ℕ → Text → A → Files → FileChange → Result Error PendingWrite
  prepare_change n id artifacts tree c = do
    validate_change c
    target ← resolve host.qemu_root host.at_write c.path
    body ← read_checked ops host (suc n) id c.ref artifacts
    existing ← read_target host.at_write tree target
    content ← compose host c.action c.base_digest body existing
    ok (record { path = c.path; target = target; content = content })

  -- prepare
  unfoldable pub prepare : ℕ → Text → A → Files → List FileChange → Result Error (List PendingWrite)
  prepare n id artifacts tree [] = ok []
  prepare n id artifacts tree (c ∷ cs) = do
    write ← prepare_change n id artifacts tree c
    writes ← prepare (suc n) id artifacts tree cs
    ok (write ∷ writes)

  -- commitPlan
  unfoldable pub commit_plan :
      Project → ApplyPlan → ApplyResult → A → A × Result Error (List ArtifactRef)
  commit_plan p made result artifacts = elim (host.encoded made result host.now_plan) [
    | none ↦ (artifacts, err (plain io_failed))
    | some encoded ↦
        write_batch ops host.ctx_stage p.id
          (record {
            stage = Stage.emit;
            name = artifact_apply_plan;
            kind = Kind.evidence;
            body = encoded ++ (10 ∷ []);
          }
            ∷ [])
          artifacts
  ]

  -- record: a failure is logged, and leaves the store.
  unfoldable pub record_outcome : Project → List ArtifactRef → ApplyResult → Store → Store
  record_outcome p refs result store =
      let moved =
        if result.partial
        then apply_failed (bumped p) Stage.emit (classify apply_partial) refs host.now_end
        else applied (bumped p) Stage.emit refs host.now_end in
      elim (do working ← moved; save store none working host.wrote) [
        | err e ↦ store
        | ok (store', saved) ↦ store'
      ]

  -- What follows the write loop when something was written.
  unfoldable pub settle_apply :
      Project
      → ApplyPlan
      → List Text
      → List Text
      → Landing A
      → Landing A × ApplyResult × Option Error
  settle_apply p made written skipped w =
      let partial = was_refused skipped in
      let result = record (no_result made.project_id) {
        written = written;
        skipped = skipped;
        partial = partial;
        reason = if partial then classify apply_partial else [];
      } in
      let (artifacts, committed) = commit_plan p made result w.artifacts in
      let refs = or_none committed in
      let final = record result { evidence = refs } in
      (
        record w { artifacts = artifacts; store = record_outcome p refs final w.store },
        final,
        if partial then some apply_partial else none,
      )

  -- The steps of Apply after prepare.
  unfoldable pub land :
      Project → ApplyPlan → List PendingWrite → Landing A → Landing A × ApplyResult × Option Error
  land p made pending w =
      let (tree, written, skipped) = write_all host.write 0 pending w.tree in
      let moved = record w { tree = tree } in
      let kept = record (no_result made.project_id) { skipped = skipped } in
      if was_refused skipped && wrote_none written
      then (moved, kept, some rejected)
      else settle_apply p made written skipped moved

  -- Apply; `seen` is the tree as the plan reads it.
  unfoldable pub apply : Files → Text → Scope → Landing A → Landing A × ApplyResult × Option Error
  apply seen id scope w = elim (plan ops host w.store w.artifacts seen id scope) [
    | err e ↦ (w, no_result (trim_space id), some e)
    | ok (made, p) ↦ elim (prepare 0 made.project_id w.artifacts w.tree made.files) [
      | err e ↦ (w, no_result made.project_id, some e)
      | ok pending ↦ land p made pending w
    ]
  ]
