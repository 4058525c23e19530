-- ===== src/Modeling/Pipeline/Finished.antt =====
-- What a run that returns no error has stored.
use qemu_agent.Common.{
  List, ◌≡◌, ◌≢◌, inl, inr, Option, none, some, arith, ok, Result-cases, Bool-cases,
}
use qemu_agent.Modeling.Types.{Stage, ArtifactRef, Error, running}
use qemu_agent.Modeling.Project.{Project, validate}
use qemu_agent.Modeling.Project.Frame.{complete-SameRun, hold-SameRun}
use qemu_agent.Modeling.Store.{Store, indexed, save}
use qemu_agent.Modeling.Store.Safe.{save-stored, stored-indexed}
use qemu_agent.Modeling.Steps.{
  ArtifactStore, StageOutput, RunRequest, RunResult, Env, World, Registry, bumped, settle, start,
  hold_reason,
}
use qemu_agent.Modeling.Pipeline.{persist, fail_stage, finish, conclude, run_stage, advance}

settle-stops :
    (env : Env) (p q : Project) (stage : Stage) (out : StageOutput) (refs : List ArtifactRef)
    → settle env p stage out refs ≡ ok q
    → q.status ≢ running
unfolding settle
settle-stops env p q stage out refs h = elim (Bool-cases out.blocked) [
  | inl waits ↦
      (hold-SameRun p q stage refs (hold_reason out.reason) env.now_end (rw (waits, settle) at h)).1
  | inr goes ↦ (complete-SameRun p q stage refs env.now_end (rw (goes, settle) at h)).1
]

-- What the result of a run says is what the store holds: a valid project that no stage is running.
pub record IsReported (s : Store) (r : RunResult) : Type 0 where
  pub held : indexed r.project.id s ≡ some r.project
  pub valid : validate r.project ≡ ok tt
  pub stopped : r.project.status ≢ running
  pub reason_kept : r.reason ≡ r.project.last_error

module _ {A B : Type 0} (ops : ArtifactStore A B) where
  finish-IsReported :
      (env : Env) (w : World A) (p : Project) (stage : Stage) (out : StageOutput)
      (refs : List ArtifactRef) (r : RunResult)
      → (finish ops env w p stage out refs).1 ≡ ok r
      → IsReported (finish ops env w p stage out refs).0.store r
  unfolding finish fail_stage
  finish-IsReported env w p stage out refs r h = elim (Result-cases (settle env p stage out refs)) [
    | inr (x, e) ↦ absurd (ground arith)
    | inl (moved, e) ↦ elim (Result-cases (save w.store env.ctx_end (bumped moved) env.wrote_end)) [
      | inr (x, e2) ↦ absurd (ground arith)
      | inl ((s', saved), e2) ↦
          let (stores, same, valid, _) =
            save-stored w.store s' env.ctx_end (bumped moved) saved env.wrote_end e2 in
          ground (
            arith,
            stored-indexed w.store (bumped moved),
            settle-stops env p moved stage out refs e,
          )
    ]
  ]

  conclude-IsReported :
      (env : Env) (w : World A) (p : Project) (stage : Stage) (out : StageOutput)
      (failure : Option Error) (r : RunResult)
      → (conclude ops env w p stage out failure).1 ≡ ok r
      → IsReported (conclude ops env w p stage out failure).0.store r
  unfolding conclude fail_stage
  conclude-IsReported env w p stage out (some e) r h = absurd (ground arith)
  conclude-IsReported env w p stage out none r h =
      elim (Result-cases (persist ops env.ctx_stage p stage out w.artifacts).1) [
        | inl (refs, e) ↦
            let w' = record w {
              artifacts = (persist ops env.ctx_stage p stage out w.artifacts).0;
            } in
            rw (e, conclude) (finish-IsReported env w' p stage out refs r (rw (e, conclude) at h))
        | inr (x, e) ↦ absurd (ground arith)
      ]

  -- A run that returns no error reports the project exactly as stored: valid, not running, with its
  -- last error as the reason.
  pub advance-IsReported :
      (env : Env) (registry : Registry) (w : World A) (req : RunRequest) (r : RunResult)
      → (advance ops env registry w req).1 ≡ ok r
      → IsReported (advance ops env registry w req).0.store r
  unfolding advance run_stage
  advance-IsReported env registry w req r h = elim (Result-cases (start env registry w.store req)) [
    | inr (x, e) ↦ absurd (ground arith)
    | inl ((s', p, stage, runner), e) ↦
        let w' = record w { store = s'; events = _ } in
        rw (e, advance, run_stage)
          (conclude-IsReported env w' p stage _ _ r (rw (e, advance, run_stage) at h))
  ]
