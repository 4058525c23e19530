-- ===== src/Modeling/Pipeline/Outcome.antt =====
-- Where a stage run leaves the stored project.
use qemu_agent.Common.{
  List, [], ◌≡◌, ◌≢◌, refl, inl, inr, Option, none, some, true, false, arith, ok, err, Result-cases,
  Bool-cases,
}
use qemu_agent.Text.{Text}
use qemu_agent.Modeling.Types.{Stage, running, ArtifactRef, Error, next_int, is_negative}
use qemu_agent.Modeling.Project.{Project, complete, hold}
use qemu_agent.Modeling.Project.Valid.{IsValid}
use qemu_agent.Modeling.Project.Valid.Kept.{complete-IsValid, hold-IsValid}
use qemu_agent.Modeling.Project.Frame.{SameRun, complete-SameRun, hold-SameRun}
use qemu_agent.Modeling.Store.{Store, indexed, save}
use qemu_agent.Modeling.Store.Safe.{stored-indexed}
use qemu_agent.Modeling.Steps.{
  Draft, ArtifactStore, StageOutput, Runner, RunRequest, Env, World, Registry, bumped, or_none,
  settle, hold_reason, start,
}
use qemu_agent.Modeling.Pipeline.{
  persist, persist_evidence, fail_stage, finish, conclude, run_stage, advance,
}
use qemu_agent.Modeling.Pipeline.Commits.{CommitsDrafts, persist_evidence-IsFiledProof}
use qemu_agent.Modeling.Pipeline.Live.{
  IsLive, save_next, IsFailed, save_failed-IsFailed, start-IsLive,
}

-- The stored project `id` is there, and no stage of it is running.
abbrev pub Settled : Store → Text → Type 0
Settled s id = (q : Project) × (indexed id s ≡ some q) × (q.status ≢ running)

module _ {A B : Type 0} (ops : ArtifactStore A B) (law : CommitsDrafts ops) where
  -- The failure path of a live run stores the project blocked on its stage at the next revision with
  -- the category of the cause as its last error, when the clock is set, the write succeeds, and the
  -- artifact store commits a batch of drafts as one valid reference for each, with its stage and kind.
  pub fail_stage-IsFailed :
      (env : Env) (w : World A) (p : Project) (stage : Stage) (drafts : List Draft) (cause : Error)
      → IsLive w.store p stage
      → env.now_end ≢ 0
      → env.wrote_end ≡ true
      → (q : Project) × (indexed p.id (fail_stage ops env w p stage drafts cause).0.store ≡ some q)
        × IsFailed p stage cause q
  unfolding fail_stage
  fail_stage-IsFailed env w p stage drafts cause v t wrote =
      save_failed-IsFailed env w.store p stage cause
        (or_none (persist_evidence ops none p stage drafts w.artifacts).1) v t wrote
        (persist_evidence-IsFiledProof ops law none p stage drafts w.artifacts)

  fail_stage-Settled :
      (env : Env) (w : World A) (p : Project) (stage : Stage) (drafts : List Draft) (cause : Error)
      → IsLive w.store p stage
      → env.now_end ≢ 0
      → env.wrote_end ≡ true
      → Settled (fail_stage ops env w p stage drafts cause).0.store p.id
  fail_stage-Settled env w p stage drafts cause v t wrote =
      let (q, held, failed) = fail_stage-IsFailed env w p stage drafts cause v t wrote in
      (q, held, ground (arith, failed.parked))

  settle-SameRun :
      (env : Env) (p q : Project) (stage : Stage) (out : StageOutput) (refs : List ArtifactRef)
      → IsValid p
      → settle env p stage out refs ≡ ok q
      → SameRun p q × (q.status ≢ running) × IsValid q
  unfolding settle
  settle-SameRun env p q stage out refs v h = elim (Bool-cases out.blocked) [
    | inl waits ↦
        let held : hold p stage refs (hold_reason out.reason) env.now_end ≡ ok q =
          rw (waits, settle) at h in
        let (same, stopped) =
          hold-SameRun p q stage refs (hold_reason out.reason) env.now_end held in
        (same, stopped, hold-IsValid p q stage refs (hold_reason out.reason) env.now_end v held)
    | inr goes ↦
        let completed : complete p stage refs env.now_end ≡ ok q = rw (goes, settle) at h in
        let (same, stopped) = complete-SameRun p q stage refs env.now_end completed in
        (same, stopped, complete-IsValid p q stage refs env.now_end v completed)
  ]

  finish-Settled :
      (env : Env) (w : World A) (p : Project) (stage : Stage) (out : StageOutput)
      (refs : List ArtifactRef)
      → IsLive w.store p stage
      → env.now_end ≢ 0
      → env.wrote_end ≡ true
      → env.ctx_end ≡ none
      → Settled (finish ops env w p stage out refs).0.store p.id
  unfolding finish
  finish-Settled env w p stage out refs v t wrote calm =
      elim (Result-cases (settle env p stage out refs)) [
        | inl (moved, e) ↦
            let (same, stopped, valid) = settle-SameRun env p moved stage out refs v.valid e in
            let saved = save_next w.store p moved v.held same v.room valid in
            (bumped moved, ground (arith, stored-indexed w.store (bumped moved)), stopped)
        | inr (x, e) ↦ rw (e, finish) (fail_stage-Settled env w p stage [] x v t wrote)
      ]

  conclude-Settled :
      (env : Env) (w : World A) (p : Project) (stage : Stage) (out : StageOutput)
      (failure : Option Error)
      → IsLive w.store p stage
      → env.now_end ≢ 0
      → env.wrote_end ≡ true
      → env.ctx_end ≡ none
      → Settled (conclude ops env w p stage out failure).0.store p.id
  unfolding conclude
  conclude-Settled env w p stage out (some e) v t wrote calm =
      fail_stage-Settled env w p stage out.evidence e v t wrote
  conclude-Settled env w p stage out none v t wrote calm =
      let w' = record w { artifacts = (persist ops env.ctx_stage p stage out w.artifacts).0 } in
      elim (Result-cases (persist ops env.ctx_stage p stage out w.artifacts).1) [
        | inl (refs, e) ↦ rw (e, conclude) (finish-Settled env w' p stage out refs v t wrote calm)
        | inr (x, e) ↦ rw (e, conclude) (fail_stage-Settled env w' p stage [] x v t wrote)
      ]

module _ {A B : Type 0} (ops : ArtifactStore A B) (law : CommitsDrafts ops) where
  run_stage-Settled :
      (env : Env) (w : World A) (req : RunRequest) (p : Project) (stage : Stage) (runner : Runner)
      → IsLive w.store p stage
      → env.now_end ≢ 0
      → env.wrote_end ≡ true
      → env.ctx_end ≡ none
      → Settled (run_stage ops env w req p stage runner).0.store p.id
  unfolding run_stage
  run_stage-Settled env w req p stage runner v t wrote calm =
      conclude-Settled ops law env (record w { events = _ }) p stage _ _ v t wrote calm

  -- Once Advance has persisted the running state, it always leaves the project stored with a status
  -- other than running, whatever the stage runner does, provided that the artifact store commits a
  -- batch of drafts as one valid reference for each, with its stage and kind, the last save's context
  -- is live, the write succeeds, the clock is set and the revision can grow.
  pub advance-Settled :
      (env : Env) (registry : Registry) (w : World A) (req : RunRequest) (s1 : Store) (p : Project)
      (stage : Stage) (runner : Runner)
      → start env registry w.store req ≡ ok (s1, p, stage, runner)
      → is_negative (next_int p.revision) ≡ false
      → env.now_end ≢ 0
      → env.wrote_end ≡ true
      → env.ctx_end ≡ none
      → Settled (advance ops env registry w req).0.store p.id
  unfolding advance
  advance-Settled env registry w req s1 p stage runner h room t wrote calm =
      let live = start-IsLive env registry w.store s1 req p stage runner h room in
      rw (h, advance)
        (run_stage-Settled env (record w { store = s1 }) req p stage runner live t wrote calm)

module _ {A B : Type 0} (ops : ArtifactStore A B) where
  -- When a stage has committed its artifacts and its end is accepted, but the context has an error
  -- at the last save, the run returns that error and the project stays stored as running.
  pub finish-canceled_late :
      (env : Env) (w : World A) (p moved : Project) (stage : Stage) (out : StageOutput)
      (refs : List ArtifactRef) (cause : Error)
      → IsLive w.store p stage
      → settle env p stage out refs ≡ ok moved
      → env.ctx_end ≡ some cause
      → (finish ops env w p stage out refs ≡ (w, err cause))
        × (indexed p.id w.store ≡ some p)
        × (p.status ≡ running)
  unfolding finish save
  finish-canceled_late env w p moved stage out refs cause v moves late =
      (rw (moves, finish, late, save) refl, v.held, v.live)
