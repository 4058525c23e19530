-- ===== src/Modeling/Artifacts/Kept.antt =====
-- The files that Stage writes, and the staging directory of its batch.
use mathlib.Core.List.{append_assoc}
use qemu_agent.Common.{
  ℕ, List, [], ◌∷◌, ◌++◌, ◌≡◌, refl, ◌∙◌, inl, inr, Option, false, All, All-append, arith, ok,
  Result-cases,
}
use qemu_agent.Common.Assoc.{get-put}
use qemu_agent.Text.{Text, codes, trim_space}
use qemu_agent.Files.{FilePath, FilePath-discrete, Files, join, read_file, write_file, is_under}
use qemu_agent.Files.Paths.{IsPlain, IsOrdinary, join_plain}
use qemu_agent.Files.Tree.{is_under-append}
use qemu_agent.Modeling.Types.{stage_text, ArtifactRef, Error}
use qemu_agent.Modeling.Names.{validate_project_id}
use qemu_agent.Modeling.Names.Plain.{
  validate_name-IsPlain, is_known-IsPlain, validate_project_id-IsPlain,
}
use qemu_agent.Modeling.Steps.{Draft}
use qemu_agent.Modeling.Artifacts.{
  Host, Batch, Disk, check_drafts, draft_key, open_batch, check_request, write_drafts, staged_path,
  stage_drafts,
}
use qemu_agent.Modeling.Artifacts.Committed.{staging-IsPlain}

abbrev IsPlainDraft : Draft → Type 0
IsPlainDraft d = IsPlain (stage_text d.stage) × IsPlain d.name

check_drafts-IsPlainDraft :
    (host : Host) (now : ℕ) (seen : List Text) (ds : List Draft) (refs : List ArtifactRef)
    → check_drafts host now seen ds ≡ ok refs
    → All IsPlainDraft ds
unfolding check_drafts
check_drafts-IsPlainDraft host now seen [] refs h = tt
check_drafts-IsPlainDraft host now seen (d ∷ ds) refs h =
    elim (Result-cases (check_drafts host now (draft_key d ∷ seen) ds)) [
      | inl (rest, e) ↦ (
        (is_known-IsPlain d.stage (ground arith), validate_name-IsPlain d.name (ground arith)),
        check_drafts-IsPlainDraft host now (draft_key d ∷ seen) ds rest e,
      )
      | inr (x, e) ↦ absurd (ground arith)
    ]

staged_path_lem :
    (dir : FilePath) (d : Draft)
    → All IsOrdinary dir
    → IsPlainDraft d
    → staged_path dir d.stage d.name ≡ dir ++ (stage_text d.stage ∷ d.name ∷ [])
staged_path_lem dir d h plain =
    let below = join_plain dir (stage_text d.stage ∷ []) h (plain.0, tt) in
    rw below (
      join_plain (dir ++ (stage_text d.stage ∷ [])) (d.name ∷ [])
        (All-append IsOrdinary dir _ h (plain.0.1, tt)) (plain.1, tt)
      ∙ append_assoc dir (stage_text d.stage ∷ []) (d.name ∷ []))

write_drafts-keeps :
    (host : Host) (dir : FilePath) (ds : List Draft) (files : Files) (p : FilePath)
    → All IsOrdinary dir
    → All IsPlainDraft ds
    → is_under dir p ≡ false
    → read_file p (write_drafts host dir ds files).0 ≡ read_file p files
unfolding write_drafts
write_drafts-keeps host dir [] files p h plain outside = refl
write_drafts-keeps host dir (d ∷ ds) files p h plain outside =
    let target = staged_path dir d.stage d.name in
    ground (
      arith,
      write_drafts-keeps host dir ds (write_file target d.body files) p h plain.1 outside,
      staged_path_lem dir d h plain.0,
      is_under-append dir (stage_text d.stage ∷ d.name ∷ []),
      get-put FilePath-discrete target p d.body files,
    )

open_batch-dir :
    (host : Host) (id : Text) (ds : List Draft) (disk : Disk) (b : Batch)
    → All IsOrdinary host.root
    → validate_project_id id ≡ ok tt
    → open_batch host id ds disk ≡ ok b
    → (b.dir ≡ host.root ++ (id ∷ codes "staging" ∷ trim_space (host.new_batch_id disk.calls) ∷ []))
      × All IsOrdinary b.dir
      × All IsPlainDraft ds
unfolding open_batch
open_batch-dir host id ds disk b root named h =
    elim (Result-cases (check_drafts host (host.now disk.calls) [] ds)) [
      | inr (x, e) ↦ absurd (ground arith)
      | inl (refs, e) ↦
          let batch_id = trim_space (host.new_batch_id disk.calls) in
          let plain_id = validate_name-IsPlain batch_id (ground arith) in
          let plain_project = validate_project_id-IsPlain id named in
          let opened : b.dir ≡ join host.root (id ∷ codes "staging" ∷ batch_id ∷ []) =
            ground arith in
          let joined =
            join_plain host.root (id ∷ codes "staging" ∷ batch_id ∷ []) root
              (plain_project, (staging-IsPlain, (plain_id, tt))) in
          let dir = opened ∙ joined in
          (
            dir,
            rw dir (
                All-append IsOrdinary host.root _ root
                  (plain_project.1, (staging-IsPlain.1, (plain_id.1, tt)))),
            check_drafts-IsPlainDraft host (host.now disk.calls) [] ds refs e,
          )
    ]

-- Stage changes no file outside the staging directory of the batch that it opens, and no file at all
-- when it opens none; what it changes there it changes also when a write fails.
pub stage_drafts-keeps :
    (host : Host) (ctx : Option Error) (id : Text) (ds : List Draft) (disk : Disk) (p : FilePath)
    → All IsOrdinary host.root
    → is_under
        (host.root ++ (id ∷ codes "staging" ∷ trim_space (host.new_batch_id disk.calls) ∷ []))
        p
      ≡ false
    → read_file p (stage_drafts host ctx id ds disk).0.files ≡ read_file p disk.files
unfolding stage_drafts
stage_drafts-keeps host ctx id ds disk p root outside =
    elim (Result-cases (check_request ctx id ds)) [
      | inr (x, e) ↦ ground arith
      | inl (u, e) ↦ elim (Result-cases (open_batch host id ds disk)) [
        | inr (x, e2) ↦ ground arith
        | inl (b, e2) ↦
            let (dir, ordinary, plain) = open_batch-dir host id ds disk b root (ground arith) e2 in
            ground (arith, write_drafts-keeps host b.dir ds disk.files p ordinary plain)
      ]
    ]
