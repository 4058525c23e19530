-- ===== src/Modeling/Pipeline.antt =====
-- The stage transaction of internal/modeling/pipeline.go. The artifact store is the interface that
-- the source declares, and so is a stage runner; the project store is that of Modeling/Store.
-- What happens outside is in `Env`: the context at each store call, the clock, the disk.
pub mod Commits
pub mod Registered
pub mod Live
pub mod Outcome
pub mod Inputs
pub mod Finished
pub mod Stored
use mathlib.Core.Logic.{ite}
use qemu_agent.Common.{
  ℕ, List, [], ◌∷◌, ◌++◌, Option, none, some, Bool, true, false, ◌||◌, ◌&&◌, not, if◌then◌else◌,
  is_some, Result, ok, err, ◌>>=◌, ◌>>◌, guard, refuse, take,
}
use qemu_agent.Text.{Text, codes, is_empty, text_eq, trim_space}
use qemu_agent.Modeling.Types.{
  Stage, stage_eq, stage_text, stage_index, stage_order, Kind, kind_eq, evidence, ArtifactRef,
  next_int, Error, plain, wraps, err_unsafe_name, err_not_found, unregistered_stage,
}
use qemu_agent.Modeling.StageMap.{StageMap, find, insert}
use qemu_agent.Modeling.Project.{
  Project, entries, can_advance, begin, complete, hold, fail_with, reset,
}
use qemu_agent.Modeling.Store.{Store, Scope, get_project, save, check_context, not_found}
use qemu_agent.Modeling.Classify.{classify}
use qemu_agent.Modeling.Steps.{
  ArtifactStore, Draft, Env, EventKind, Registry, RunRequest, RunResult, Runner, StageEvent,
  StageInput, StageOutput, World, bumped, file_drafts, filed_evidence, filed_output, hold_reason,
  inputs_before, inputs_from, only_evidence, or_none, project_references, refers, refers_in,
  reset_project, runner_of, save_failed, settle, stage_completed, stage_started, start, target_of,
  with_stage,
}

module _ {A B : Type 0} (ops : ArtifactStore A B) where
  -- Stage, then Commit, and Discard when Commit fails.
  unfoldable pub write_batch :
      Option Error → Text → List Draft → A → A × Result Error (List ArtifactRef)
  write_batch ctx id drafts a =
      let (a1, staged) = ops.stage_drafts ctx id drafts a in
      elim staged [
        | err e ↦ (a1, err e)
        | ok batch ↦
            let (a2, committed) = ops.commit ctx batch a1 in
            elim committed [
              | err e ↦ let (a3, dropped) = ops.discard ctx batch a2 in (a3, err e)
              | ok refs ↦ (a2, ok refs)
            ]
      ]

  abbrev pub write_checked :
      Option Error → Text → Result Error (List Draft) → A → A × Result Error (List ArtifactRef)
  write_checked ctx id (err e) a = (a, err e)
  write_checked ctx id (ok []) a = (a, ok [])
  write_checked ctx id (ok (d ∷ ds)) a = write_batch ctx id (d ∷ ds) a

  -- persist
  unfoldable pub persist :
      Option Error → Project → Stage → StageOutput → A → A × Result Error (List ArtifactRef)
  persist ctx p stage out a = write_checked ctx p.id (filed_output stage out) a

  -- persistEvidence
  unfoldable pub persist_evidence :
      Option Error → Project → Stage → List Draft → A → A × Result Error (List ArtifactRef)
  persist_evidence ctx p stage drafts a = write_checked ctx p.id (filed_evidence stage drafts) a

  -- fail. The error that it returns wraps the cause.
  unfoldable pub fail_stage :
      Env → World A → Project → Stage → List Draft → Error → World A × Result Error RunResult
  fail_stage env w working stage drafts cause =
      let category = classify cause in
      let (a, refs) = persist_evidence none working stage drafts w.artifacts in
      (
        record {
          store = save_failed env w.store working stage category (or_none refs);
          artifacts = a;
          events =
              w.events
              ++ (record {
                kind = stage_completed;
                project = working.id;
                stage = stage;
                success = false;
                blocked = false;
                reason = category;
              }
                  ∷ []);
        },
        err cause,
      )

  -- Steps 10 to 12, once the artifacts are committed.
  unfoldable pub finish :
      Env
      → World A
      → Project
      → Stage
      → StageOutput
      → List ArtifactRef
      → World A × Result Error RunResult
  finish env w working stage out refs = elim (settle env working stage out refs) [
    | err e ↦ fail_stage env w working stage [] e
    | ok moved ↦ elim (save w.store env.ctx_end (bumped moved) env.wrote_end) [
      | err e ↦ (w, err e)
      | ok (s', saved) ↦ (
        record {
          store = s';
          artifacts = w.artifacts;
          events =
              w.events
              ++ (record {
                kind = stage_completed;
                project = saved.id;
                stage = stage;
                success = true;
                blocked = out.blocked;
                reason = saved.last_error;
              }
                  ∷ []);
        },
        ok (record {
          project = saved;
          stage = stage;
          refs = refs;
          blocked = out.blocked;
          reason = saved.last_error;
        }),
      )
    ]
  ]

  -- Steps 7 to 12.
  unfoldable pub conclude :
      Env
      → World A
      → Project
      → Stage
      → StageOutput
      → Option Error
      → World A × Result Error RunResult
  conclude env w working stage out (some e) = fail_stage env w working stage out.evidence e
  conclude env w working stage out none =
      let (a, committed) = persist env.ctx_stage working stage out w.artifacts in
      let w' = record w { artifacts = a } in
      elim committed [
        | err e ↦ fail_stage env w' working stage [] e
        | ok refs ↦ finish env w' working stage out refs
      ]

  -- Steps 5 and 6: the event, and the run of the stage.
  unfoldable pub run_stage :
      Env → World A → RunRequest → Project → Stage → Runner → World A × Result Error RunResult
  run_stage env w req working stage runner =
      let started = record w {
        events =
            w.events
            ++ (record {
              kind = stage_started;
              project = working.id;
              stage = stage;
              success = false;
              blocked = false;
              reason = [];
            }
                ∷ []);
      } in
      let (out, failure) = runner (record {
        project = working;
        stage = stage;
        request = req.request;
        sources = req.sources;
        inputs = inputs_before working stage;
        now = env.now_run;
      }) in
      conclude env started working stage out failure

  -- Advance.
  unfoldable pub advance : Env → Registry → World A → RunRequest → World A × Result Error RunResult
  advance env registry w req = elim (start env registry w.store req) [
    | err e ↦ (w, err e)
    | ok (s', working, stage, runner) ↦
        run_stage env (record w { store = s' }) req working stage runner
  ]

  -- Read
  unfoldable pub read : Env → Store → A → Text → ArtifactRef → Scope → Result Error Text
  read env s a id ref scope = do
    project ← get_project s env.ctx_get id scope
    guard (project_references project ref) not_found
    ops.read_artifact env.ctx_stage project.id ref a
