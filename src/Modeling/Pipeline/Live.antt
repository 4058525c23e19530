-- ===== src/Modeling/Pipeline/Live.antt =====
-- Projects that are stored as running a stage: how a run starts one and how it records a failure.
use qemu_agent.Common.{
  ℕ, List, ◌≡◌, ◌≢◌, inl, inr, none, some, true, false, All, arith, ok, Result-cases,
}
use qemu_agent.Text.{Text, is_empty}
use qemu_agent.Modeling.Types.{Stage, running, blocked, ArtifactRef, Error, next_int, is_negative}
use qemu_agent.Modeling.Names.{short_category}
use qemu_agent.Modeling.Classify.{classify, classify-IsStored}
use qemu_agent.Modeling.Project.{Project, can_advance, begin, fail, fail_with, append_refs}
use qemu_agent.Modeling.Project.Valid.{IsValid, IsFiledProof, check_evidence_iff, validate_iff}
use qemu_agent.Modeling.Project.Valid.Kept.{fail_with-IsValid}
use qemu_agent.Modeling.Project.Frame.{
  SameRun, fail_with-SameRun, begin-SameRun, append_refs-SameRun,
}
use qemu_agent.Modeling.Store.{Store, indexed, stored, save, get_project}
use qemu_agent.Modeling.Store.Safe.{save-succeeds, stored-indexed, save-stored}
use qemu_agent.Modeling.Steps.{
  Runner, RunRequest, Env, Registry, bumped, target_of, save_failed, start,
}

-- A project that is stored as running a stage, below the largest revision.
pub record IsLive (s : Store) (p : Project) (stage : Stage) : Type 0 where
  pub valid : IsValid p
  pub live : p.status ≡ running
  pub at_stage : p.current ≡ stage
  pub held : indexed p.id s ≡ some p
  pub room : is_negative (next_int p.revision) ≡ false

pub bumped-IsValid :
    (p : Project) → is_negative (next_int p.revision) ≡ false → IsValid p → IsValid (bumped p)
bumped-IsValid p h v = record {
  named = v.named;
  titled = v.titled;
  placed = v.placed;
  staged = v.staged;
  declared = v.declared;
  counted = h;
  created = v.created;
  updated = v.updated;
  filed = v.filed;
  proved = v.proved;
  categorized = v.categorized;
}

-- Saving the next revision of a stored project.
pub save_next :
    (s : Store) (p q : Project)
    → indexed p.id s ≡ some p
    → SameRun p q
    → is_negative (next_int p.revision) ≡ false
    → IsValid q
    → save s none (bumped q) true ≡ ok (stored s (bumped q), bumped q)
save_next s p q held same room v =
    let v' = bumped-IsValid q (ground arith) v in
    save-succeeds s (bumped q) p (ground arith) same.id same.workspace same.user same.created
      (ground arith) ((validate_iff (bumped q)).1 v')

fail_with-succeeds :
    (p : Project) (stage : Stage) (kind : Text) (refs : List ArtifactRef) (now : ℕ)
    → p.status ≡ running
    → p.current ≡ stage
    → now ≢ 0
    → is_empty (short_category kind) ≡ false
    → All (IsFiledProof stage) refs
    → fail_with p stage kind refs now
      ≡ ok (
          append_refs stage refs
            (record p { status = blocked; last_error = short_category kind; updated_at = now }))
unfolding fail_with fail
fail_with-succeeds p stage kind refs now live at_stage t c h =
    ground (arith, (check_evidence_iff stage refs).1 h)

-- What a stored project looks like after its stage has failed.
pub record IsFailed (p : Project) (stage : Stage) (cause : Error) (q : Project) : Type 0 where
  pub parked : q.status ≡ blocked
  pub kept : q.current ≡ stage
  pub category : q.last_error ≡ classify cause
  pub followed : q.revision ≡ next_int p.revision

pub save_failed-IsFailed :
    (env : Env) (s : Store) (p : Project) (stage : Stage) (cause : Error) (refs : List ArtifactRef)
    → IsLive s p stage
    → env.now_end ≢ 0
    → env.wrote_end ≡ true
    → All (IsFiledProof stage) refs
    → (q : Project) × (indexed p.id (save_failed env s p stage (classify cause) refs) ≡ some q)
      × IsFailed p stage cause q
unfolding save_failed
save_failed-IsFailed env s p stage cause refs v t w h =
    let (_, (full, same)) = classify-IsStored cause in
    let failed = append_refs stage refs (record (bumped p) {
      status = blocked;
      last_error = short_category (classify cause);
      updated_at = env.now_end;
    }) in
    let ran : fail_with (bumped p) stage (classify cause) refs env.now_end ≡ ok failed =
      fail_with-succeeds (bumped p) stage (classify cause) refs env.now_end v.live v.at_stage t
        (ground arith) h in
    let kept = fail_with-SameRun (bumped p) failed stage (classify cause) refs env.now_end ran in
    let valid =
      fail_with-IsValid (bumped p) failed stage (classify cause) refs env.now_end
        (bumped-IsValid p v.room v.valid) ran in
    let saved : save s none failed true ≡ ok (stored s failed, failed) =
      save-succeeds s failed p (ground (arith, v.held)) kept.id kept.workspace kept.user
        kept.created kept.revision ((validate_iff failed).1 valid) in
    (
      failed,
      ground (arith, stored-indexed s failed),
      ground (
        arith,
        append_refs-SameRun stage refs (record (bumped p) {
          status = blocked;
          last_error = short_category (classify cause);
          updated_at = env.now_end;
        }),
      ),
    )

-- What a start that succeeded has done: the stored project was begun on the target, and saved.
pub start-ran :
    (env : Env) (registry : Registry) (s s1 : Store) (req : RunRequest) (p : Project)
    (stage : Stage) (runner : Runner)
    → start env registry s req ≡ ok (s1, p, stage, runner)
    → (project : Project) × (working : Project) × (get_project s env.ctx_get req.project_id
          req.scope
        ≡ ok project)
      × (can_advance project stage ≡ ok tt)
      × (registry stage ≡ some runner)
      × (begin project stage env.now_begin ≡ ok working)
      × (save s env.ctx_begin (bumped working) env.wrote_begin ≡ ok (s1, p))
unfolding start
start-ran env registry s s1 req p stage runner h =
    elim (Result-cases (get_project s env.ctx_get req.project_id req.scope)) [
      | inr (x, e) ↦ absurd (ground arith)
      | inl (project, got) ↦
          elim (Result-cases (begin project (target_of req project) env.now_begin)) [
            | inr (x, e) ↦ absurd (ground arith)
            | inl (working, begun) ↦
                elim (Result-cases (save s env.ctx_begin (bumped working) env.wrote_begin)) [
                  | inr (x, e) ↦ absurd (ground arith)
                  | inl ((s', started), saved) ↦
                      let same : stage ≡ target_of req project = ground arith in
                      (
                        project,
                        working,
                        got,
                        ground arith,
                        ground arith,
                        ground arith,
                        ground arith,
                      )
                ]
          ]
    ]

pub start-IsLive :
    (env : Env) (registry : Registry) (s s1 : Store) (req : RunRequest) (p : Project)
    (stage : Stage) (runner : Runner)
    → start env registry s req ≡ ok (s1, p, stage, runner)
    → is_negative (next_int p.revision) ≡ false
    → IsLive s1 p stage
start-IsLive env registry s s1 req p stage runner h room =
    let (project, working, got, allowed, listed, begun, saved) =
      start-ran env registry s s1 req p stage runner h in
    let (stores, same, valid, _) =
      save-stored s s1 env.ctx_begin (bumped working) p env.wrote_begin saved in
    let (kept, live, here) = begin-SameRun project working stage env.now_begin begun in
    record {
      valid = (validate_iff p).0 (rw same valid);
      live = rw same live;
      at_stage = rw same here;
      held = rw (stores, same) (stored-indexed s (bumped working));
      room = room;
    }
