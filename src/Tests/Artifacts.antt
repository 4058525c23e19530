-- ===== src/Tests/Artifacts.antt =====
-- Instances of the theorems on the artifact store on files, and of the run over it.
use qemu_agent.Common.{List, [], ◌∷◌, ◌++◌, ◌≡◌, refl, none, some, true, false, All, arith, ok}
use qemu_agent.Text.{Text, codes}
use qemu_agent.Files.{
  FilePath, FilePath-discrete, split_slash, split_all, clean_from, last_element, base_name,
  is_under, read_file, rename_file, remove_all, bytes_under,
}
use qemu_agent.Files.Paths.{IsPlain, IsOrdinary}
use qemu_agent.Modeling.Types.{Stage, ArtifactRef}
use qemu_agent.Modeling.Steps.{RunResult, bumped}
use qemu_agent.Modeling.Artifacts.{
  Host, Batch, Disk, is_seen, draft_ref, check_drafts, batch_bytes, project_bytes, open_batch,
  write_drafts, stage_drafts, check_each, check_batch, final_path, place, place_all, manifest_lines,
  commit, discard, open_artifact, file_store,
}
use qemu_agent.Modeling.Artifacts.Committed.{commit-keeps}
use qemu_agent.Modeling.Artifacts.Staged.{file_store-CommitsDrafts}
use qemu_agent.Modeling.Artifacts.Kept.{stage_drafts-keeps}
use qemu_agent.Modeling.Artifacts.Forged.{escaping, discard_escapes}
use qemu_agent.Modeling.Pipeline.Commits.{CommitsDrafts}
use qemu_agent.Tests.Runs.{runs, draft, log, registry, calm, one_project, request, planned}
use qemu_agent.Modeling.Steps.{World}
use qemu_agent.Modeling.Pipeline.{advance}
use qemu_agent.Modeling.Pipeline.Stored.{IsReadable, advance-IsReadable}
use qemu_agent.Tests.Samples.{computes, timer_id, digest, plan_ref}

unfoldable pub file_runs : Unit {0}
unfolding FilePath-discrete split_slash split_all clean_from last_element base_name is_under
    rename_file remove_all bytes_under is_seen check_drafts batch_bytes project_bytes open_batch
    write_drafts stage_drafts check_each check_batch place place_all manifest_lines commit discard
    open_artifact
file_runs = tt

abbrev pub host : Host
host = record {
  root = codes "art" ∷ [];
  max_artifact_bytes = 64;
  max_project_bytes = 128;
  digest_of = λ body. digest;
  new_batch_id = λ n. codes "b0";
  now = λ n. 150;
  made = λ p. true;
  wrote = λ p. true;
  readable = λ p. true;
  irregular = λ p. false;
  found = λ p. true;
  renamed = λ p. true;
  removed = λ p. true;
  encoded = λ entry. entry.artifact.id;
  opened = true;
  torn = none;
  synced = true;
  measured = true;
}

abbrev pub fresh_disk : Disk
fresh_disk = record { files = []; calls = 0 }

abbrev ref : ArtifactRef
ref = draft_ref host 150 draft

abbrev staging : List Text
staging = codes "art" ∷ timer_id ∷ codes "staging" ∷ codes "b0" ∷ []

abbrev batch : Batch
batch = record { project_id = timer_id; id = codes "b0"; dir = staging; refs = ref ∷ [] }

abbrev staged : Disk
staged = record fresh_disk {
  files = (staging ++ (codes "plan" ∷ codes "plan.md" ∷ []), codes "steps") ∷ [];
  calls = 1;
}

stages_ok : stage_drafts host none timer_id (draft ∷ []) fresh_disk ≡ (staged, ok batch)
unfolding computes file_runs
stages_ok = refl

abbrev old_file : FilePath
old_file = codes "art" ∷ timer_id ∷ codes "plan" ∷ codes "0000000000000000-old.md" ∷ []

abbrev with_old : Disk
with_old = record staged { files = (old_file, codes "old") ∷ staged.files }

root-IsOrdinary : All IsOrdinary host.root
unfolding computes
root-IsOrdinary = (refl, tt)

batch-IsPlain : IsPlain batch.id
unfolding computes
batch-IsPlain = (refl, refl)

stage_drafts-keeps_example :
    read_file old_file (stage_drafts host none timer_id (draft ∷ []) with_old).0.files
    ≡ read_file old_file with_old.files
unfolding computes file_runs
stage_drafts-keeps_example =
    stage_drafts-keeps host none timer_id (draft ∷ []) with_old old_file root-IsOrdinary refl

commit-keeps_example :
    read_file old_file (commit host none batch with_old).0.files ≡ some (codes "old")
unfolding computes file_runs
commit-keeps_example =
    commit-keeps host batch root-IsOrdinary batch-IsPlain none with_old old_file (codes "old") refl
      refl (λ same. absurd (ground arith))

file_store-CommitsDrafts_example : CommitsDrafts (file_store host)
file_store-CommitsDrafts_example = file_store-CommitsDrafts host

abbrev forged : Batch
forged = escaping host timer_id Stage.plan (ref ∷ [])

abbrev committed : Disk
committed = record fresh_disk { files = (final_path host timer_id plan_ref, codes "steps") ∷ [] }

discard_escapes_example :
    ((discard host none forged committed).1 ≡ ok tt)
    × (read_file (final_path host timer_id plan_ref) (discard host none forged committed).0.files
        ≡ none)
unfolding computes file_runs
discard_escapes_example =
    discard_escapes host timer_id Stage.plan (ref ∷ []) root-IsOrdinary refl refl committed plan_ref
      (λ e. absurd (ground arith)) refl refl refl refl

abbrev file_world : World Disk
file_world = record { store = one_project; artifacts = fresh_disk; events = [] }

abbrev made_refs : List ArtifactRef
made_refs = ref ∷ draft_ref host 150 log ∷ []

abbrev report : RunResult
report = record {
  project = bumped (record planned { artifacts = some ((Stage.plan, made_refs) ∷ []) });
  stage = Stage.plan;
  refs = made_refs;
  blocked = false;
  reason = [];
}

runs_on_files : (advance (file_store host) calm registry file_world request).1 ≡ ok report
unfolding computes runs file_runs
runs_on_files = refl

advance-IsReadable_example :
    All
      (IsReadable host timer_id
        (advance (file_store host) calm registry file_world request).0.artifacts)
      made_refs
advance-IsReadable_example =
    advance-IsReadable host root-IsOrdinary calm registry file_world request report (λ p. refl)
      runs_on_files
