-- ===== src/Modeling/Artifacts/Staged.antt =====
-- What Stage makes of its drafts, and the budget of the project.
use qemu_agent.Common.{
  ℕ, ◌+◌, ◌≤◌, List, [], ◌∷◌, ◌≡◌, inl, inr, Option, All, arith, ok, Result-cases,
}
use qemu_agent.Text.{Text, codes, trim_space}
use qemu_agent.Files.{FilePath, Files, join, write_file}
use qemu_agent.Files.Paths.{IsPlain}
use qemu_agent.Files.Tree.{bytes_under-write}
use qemu_agent.Modeling.Types.{ArtifactRef, Error}
use qemu_agent.Modeling.Names.{validate_ref, validate_project_id}
use qemu_agent.Modeling.Names.Plain.{validate_name-IsPlain}
use qemu_agent.Modeling.Steps.{Draft}
use qemu_agent.Modeling.Pipeline.Commits.{Committed, CommitsDrafts}
use qemu_agent.Modeling.Artifacts.{
  Host, Batch, Disk, check_drafts, draft_key, batch_bytes, project_bytes, open_batch, write_drafts,
  staged_path, stage_drafts, file_store,
}
use qemu_agent.Modeling.Artifacts.Committed.{commit-refs}

-- The references are those of the drafts, in their order.
abbrev pub IsDrafted : List Draft → List ArtifactRef → Type 0
IsDrafted [] [] = Unit
IsDrafted [] (r ∷ rs) = ⊥
IsDrafted (d ∷ ds) [] = ⊥
IsDrafted (d ∷ ds) (r ∷ rs) =
    ((r.stage ≡ d.stage) × (r.kind ≡ d.kind) × (r.name ≡ d.name)) × IsDrafted ds rs

check_drafts-IsDrafted :
    (host : Host) (now : ℕ) (seen : List Text) (ds : List Draft) (refs : List ArtifactRef)
    → check_drafts host now seen ds ≡ ok refs
    → IsDrafted ds refs
unfolding check_drafts
check_drafts-IsDrafted host now seen [] [] h = tt
check_drafts-IsDrafted host now seen [] (r ∷ rs) h = absurd (ground arith)
check_drafts-IsDrafted host now seen (d ∷ ds) [] h =
    elim (Result-cases (check_drafts host now (draft_key d ∷ seen) ds)) [
      | inl (rest, e) ↦ absurd (ground arith)
      | inr (x, e) ↦ absurd (ground arith)
    ]
check_drafts-IsDrafted host now seen (d ∷ ds) (r ∷ rs) h =
    elim (Result-cases (check_drafts host now (draft_key d ∷ seen) ds)) [
      | inl (rest, e) ↦
          (ground arith, check_drafts-IsDrafted host now (draft_key d ∷ seen) ds rs (ground arith))
      | inr (x, e) ↦ absurd (ground arith)
    ]

write_drafts-bytes :
    (host : Host) (id : Text) (dir : FilePath) (ds : List Draft) (files : Files)
    → project_bytes host id (write_drafts host dir ds files).0
      ≤ batch_bytes ds + project_bytes host id files
unfolding write_drafts project_bytes batch_bytes
write_drafts-bytes host id dir [] files = omega arith
write_drafts-bytes host id dir (d ∷ ds) files =
    let target = staged_path dir d.stage d.name in
    ground (
      arith,
      write_drafts-bytes host id dir ds (write_file target d.body files),
      bytes_under-write (join host.root (id ∷ []))
          (join host.root (id ∷ codes "manifest.jsonl" ∷ [])) target d.body files,
    )

pub open_batch-facts :
    (host : Host) (id : Text) (ds : List Draft) (disk : Disk) (b : Batch)
    → open_batch host id ds disk ≡ ok b
    → IsDrafted ds b.refs
      × IsPlain b.id
      × (b.project_id ≡ id)
      × (project_bytes host id disk.files + batch_bytes ds ≤ host.max_project_bytes)
unfolding open_batch
open_batch-facts host id ds disk b h =
    elim (Result-cases (check_drafts host (host.now disk.calls) [] ds)) [
      | inr (x, e) ↦ absurd (ground arith)
      | inl (refs, e) ↦
          let batch_id = trim_space (host.new_batch_id disk.calls) in
          let same_id : b.id ≡ batch_id = ground arith in
          let same_refs : b.refs ≡ refs = ground arith in
          (
            rw same_refs (check_drafts-IsDrafted host (host.now disk.calls) [] ds refs e),
            rw same_id (validate_name-IsPlain batch_id (ground arith)),
            ground arith,
            ground arith,
          )
    ]

pub stage_drafts-opens :
    (host : Host) (ctx : Option Error) (id : Text) (ds : List Draft) (disk : Disk) (b : Batch)
    → (stage_drafts host ctx id ds disk).1 ≡ ok b
    → (open_batch host id ds disk ≡ ok b) × (validate_project_id id ≡ ok tt)
unfolding stage_drafts
stage_drafts-opens host ctx id ds disk b h = elim (Result-cases (open_batch host id ds disk)) [
  | inr (x, e) ↦ absurd (ground arith)
  | inl (opened, e) ↦ (ground arith, ground arith)
]

-- After a Stage that succeeds the project holds no more bytes than its limit, what it held before
-- and its staged files included.
pub stage_drafts-within :
    (host : Host) (ctx : Option Error) (id : Text) (ds : List Draft) (disk : Disk) (b : Batch)
    → (stage_drafts host ctx id ds disk).1 ≡ ok b
    → project_bytes host id (stage_drafts host ctx id ds disk).0.files ≤ host.max_project_bytes
unfolding stage_drafts
stage_drafts-within host ctx id ds disk b h = elim (Result-cases (open_batch host id ds disk)) [
  | inr (x, e) ↦ absurd (ground arith)
  | inl (opened, e) ↦
      let (_, _, _, budget) = open_batch-facts host id ds disk opened e in
      ground (arith, write_drafts-bytes host id opened.dir ds disk.files)
]

Committed-Drafted :
    (ds : List Draft) (refs : List ArtifactRef)
    → IsDrafted ds refs
    → All (λ ref. validate_ref ref ≡ ok tt) refs
    → Committed ds refs
Committed-Drafted [] [] d v = tt
Committed-Drafted [] (r ∷ rs) d v = absurd d
Committed-Drafted (x ∷ ds) [] d v = absurd d
Committed-Drafted (x ∷ ds) (r ∷ rs) d v = ((d.0.0, d.0.1, v.0), Committed-Drafted ds rs d.1 v.1)

-- The artifact store on files implements what the pipeline relies on: a batch that Stage made of
-- some drafts commits as one valid reference for each of them, with its stage and kind.
pub file_store-CommitsDrafts : (host : Host) → CommitsDrafts (file_store host)
file_store-CommitsDrafts host ctx id ds disk b refs staged committed =
    let (opened, _) = stage_drafts-opens host ctx id ds disk b staged in
    let (drafted, _, _, _) = open_batch-facts host id ds disk b opened in
    let (same, valid) =
      commit-refs host b ctx (stage_drafts host ctx id ds disk).0 refs committed in
    rw same (Committed-Drafted ds b.refs drafted valid)
