-- ===== src/Modeling/Artifacts/Committed.antt =====
-- What Commit does to the files, inside and outside the staging directory.
use qemu_agent.Common.{
  ℕ_discrete, subst, List, [], ◌∷◌, ◌++◌, ◌≡◌, ◌≢◌, refl, sym, ◌∙◌, inl, inr, Option, some, true,
  false, All, All-append, arith, ok, ◌>>◌, Option-cases, Result-cases,
}
use mathlib.Core.List.{append_assoc}
use qemu_agent.Text.{Text, Text-discrete, codes, text_eq}
use qemu_agent.Common.Assoc.{get-put}
use qemu_agent.Files.{
  FilePath, FilePath-discrete, Files, clean, join, read_file, write_file, remove_all, is_under,
}
use qemu_agent.Files.Paths.{IsPlain, IsOrdinary, join_plain, join_below}
use qemu_agent.Files.Tree.{
  read_file-remove_all, read_file-rename_file, is_under-append, is_under_base,
}
use qemu_agent.Modeling.Types.{Stage, stage_text, stage_index, is_known, ArtifactRef, Error}
use qemu_agent.Modeling.Names.{validate_ref}
use qemu_agent.Modeling.Names.Plain.{validate_ref-IsFileRef, validate_project_id-IsPlain}
use qemu_agent.Modeling.Store.{check_context}
use qemu_agent.Modeling.Artifacts.{
  Host, Batch, Disk, check_each, check_batch, final_path, place, place_all, manifest_path,
  append_manifest, commit,
}

-- A batch that checkBatch accepts, with an id that is one element of a path.
pub record IsBatch (host : Host) (b : Batch) : Type 0 where
  pub root : All IsOrdinary host.root
  pub project : IsPlain b.project_id
  pub dir : clean b.dir ≡ host.root ++ (b.project_id ∷ codes "staging" ∷ b.id ∷ [])
  pub refs : All (λ ref. validate_ref ref ≡ ok tt) b.refs

check_each-valid :
    (refs : List ArtifactRef) → check_each refs ≡ ok tt → All (λ ref. validate_ref ref ≡ ok tt) refs
unfolding check_each
check_each-valid [] h = tt
check_each-valid (ref ∷ refs) h = (ground arith, check_each-valid refs (ground arith))

pub staging-IsPlain : IsPlain (codes "staging")
unfolding Text-discrete ℕ_discrete
staging-IsPlain = (refl, refl)

pub check_batch-IsBatch :
    (host : Host) (b : Batch)
    → All IsOrdinary host.root
    → IsPlain b.id
    → check_batch host b ≡ ok tt
    → IsBatch host b
unfolding check_batch
check_batch-IsBatch host b r i h =
    let project = validate_project_id-IsPlain b.project_id (ground arith) in
    let joined =
      join_plain host.root (b.project_id ∷ codes "staging" ∷ b.id ∷ []) r
        (project, (staging-IsPlain, (i, tt))) in
    let same : clean b.dir ≡ join host.root (b.project_id ∷ codes "staging" ∷ b.id ∷ []) =
      ground arith in
    record {
      root = r;
      project = project;
      dir = same ∙ joined;
      refs = check_each-valid b.refs (ground arith);
    }

pub final_path_lem :
    (host : Host) (id : Text) (ref : ArtifactRef)
    → All IsOrdinary host.root
    → IsPlain id
    → validate_ref ref ≡ ok tt
    → final_path host id ref
      ≡ host.root ++ (id ∷ stage_text ref.stage ∷ (ref.id ++ (b'-' ∷ ref.name)) ∷ [])
final_path_lem host id ref r p h =
    let v = validate_ref-IsFileRef ref h in
    let dir = join_plain host.root (id ∷ stage_text ref.stage ∷ []) r (p, (v.plain_stage, tt)) in
    let file =
      join_plain (host.root ++ (id ∷ stage_text ref.stage ∷ []))
        ((ref.id ++ (b'-' ∷ ref.name)) ∷ [])
        (All-append IsOrdinary host.root _ r (p.1, (v.plain_stage.1, tt))) (v.plain_file, tt) in
    rw dir (file ∙ append_assoc host.root (id ∷ stage_text ref.stage ∷ []) _)

no_stage_is_staging :
    (s : Stage) → is_known s ≡ true → text_eq (codes "staging") (stage_text s) ≡ false
unfolding stage_index Text-discrete ℕ_discrete
no_stage_is_staging Stage.plan h = refl
no_stage_is_staging Stage.extract h = refl
no_stage_is_staging Stage.infer h = refl
no_stage_is_staging Stage.emit h = refl
no_stage_is_staging Stage.verify h = refl
no_stage_is_staging (Stage.other t) h = ground arith

validate_ref-known : (ref : ArtifactRef) → validate_ref ref ≡ ok tt → is_known ref.stage ≡ true
unfolding validate_ref
validate_ref-known ref h = ground arith

pub final_path-outside :
    (host : Host) (b : Batch) (ref : ArtifactRef)
    → IsBatch host b
    → validate_ref ref ≡ ok tt
    → is_under (clean b.dir) (final_path host b.project_id ref) ≡ false
unfolding is_under
final_path-outside host b ref v h =
    let known : is_known ref.stage ≡ true = validate_ref-known ref h in
    rw (v.dir, final_path_lem host b.project_id ref v.root v.project h)
      (is_under_base host.root (b.project_id ∷ codes "staging" ∷ b.id ∷ [])
          (b.project_id ∷ stage_text ref.stage ∷ (ref.id ++ (b'-' ∷ ref.name)) ∷ [])
        ∙ (ground (arith, no_stage_is_staging ref.stage known)))

pub manifest_name-IsPlain : IsPlain (codes "manifest.jsonl")
unfolding Text-discrete ℕ_discrete
manifest_name-IsPlain = (refl, refl)

no_stage_is_manifest :
    (s : Stage) → is_known s ≡ true → text_eq (codes "manifest.jsonl") (stage_text s) ≡ false
unfolding stage_index Text-discrete ℕ_discrete
no_stage_is_manifest Stage.plan h = refl
no_stage_is_manifest Stage.extract h = refl
no_stage_is_manifest Stage.infer h = refl
no_stage_is_manifest Stage.emit h = refl
no_stage_is_manifest Stage.verify h = refl
no_stage_is_manifest (Stage.other t) h = ground arith

is_under_self : (p : FilePath) → is_under p p ≡ true
unfolding is_under
is_under_self [] = refl
is_under_self (d ∷ p) = ground (arith, is_under_self p)

-- The file of a reference is not the manifest.
final_path-unlogged :
    (host : Host) (id : Text) (ref : ArtifactRef)
    → All IsOrdinary host.root
    → IsPlain id
    → validate_ref ref ≡ ok tt
    → manifest_path host id ≢ final_path host id ref
unfolding is_under
final_path-unlogged host id ref r p h same =
    let known : is_known ref.stage ≡ true = validate_ref-known ref h in
    let logged =
      join_plain host.root (id ∷ codes "manifest.jsonl" ∷ []) r (p, (manifest_name-IsPlain, tt)) in
    let apart : is_under (manifest_path host id) (final_path host id ref) ≡ false =
      rw (logged, final_path_lem host id ref r p h)
        (is_under_base host.root (id ∷ codes "manifest.jsonl" ∷ [])
            (id ∷ stage_text ref.stage ∷ (ref.id ++ (b'-' ∷ ref.name)) ∷ [])
          ∙ (ground (arith, no_stage_is_manifest ref.stage known))) in
    let own : is_under (manifest_path host id) (manifest_path host id) ≡ true =
      is_under_self (manifest_path host id) in
    absurd (ground arith)

written-elsewhere :
    (path p : FilePath) (content : Text) (files : Files)
    → path ≢ p
    → read_file p (write_file path content files) ≡ read_file p files
written-elsewhere path p content files other =
    ground (arith, get-put FilePath-discrete path p content files)

-- Appending to the manifest changes no other file.
append_manifest-keeps :
    (host : Host) (b : Batch) (disk : Disk) (p : FilePath)
    → manifest_path host b.project_id ≢ p
    → read_file p (append_manifest host b disk).files ≡ read_file p disk.files
append_manifest-keeps host b disk p other =
    written-elsewhere (manifest_path host b.project_id) p _ disk.files other

-- The file of a reference is there, with the content that its digest names.
abbrev pub IsStored : Host → Text → Files → ArtifactRef → Type 0
IsStored host id files ref =
    (body : Text) × (read_file (final_path host id ref) files ≡ some body)
    × (host.digest_of body ≡ ref.digest)

source-under :
    (b : Batch) (ref : ArtifactRef)
    → validate_ref ref ≡ ok tt
    → is_under (clean b.dir) (join b.dir (stage_text ref.stage ∷ ref.name ∷ [])) ≡ true
source-under b ref h =
    let v = validate_ref-IsFileRef ref h in
    rw (join_below b.dir (stage_text ref.stage ∷ ref.name ∷ []) (v.plain_stage, (v.plain_name, tt)))
      (is_under-append (clean b.dir) (stage_text ref.stage ∷ ref.name ∷ []))

module _ (host : Host) (b : Batch) (v : IsBatch host b) where
  place-keeps :
      (ref : ArtifactRef) (files : Files) (p : FilePath) (body : Text)
      → validate_ref ref ≡ ok tt
      → read_file p files ≡ some body
      → is_under (clean b.dir) p ≡ false
      → read_file p (place host b ref files).0 ≡ some body
  unfolding place
  place-keeps ref files p body h there outside =
      let target = final_path host b.project_id ref in
      let source = join b.dir (stage_text ref.stage ∷ ref.name ∷ []) in
      elim (Option-cases (read_file target files)) [
        | inr (old, found) ↦ ground arith
        | inl absent ↦ elim (Option-cases (read_file source files)) [
          | inl missing ↦ ground arith
          | inr (staged, ready) ↦ ground (
            arith,
            read_file-rename_file source target p files staged ready,
            source-under b ref h,
          )
        ]
      ]

  place-stores :
      (ref : ArtifactRef) (files : Files)
      → (place host b ref files).1 ≡ ok tt
      → IsStored host b.project_id (place host b ref files).0 ref
  unfolding place
  place-stores ref files h =
      let target = final_path host b.project_id ref in
      let source = join b.dir (stage_text ref.stage ∷ ref.name ∷ []) in
      elim (Option-cases (read_file target files)) [
        | inr (old, found) ↦ (old, ground arith, ground arith)
        | inl absent ↦ elim (Option-cases (read_file source files)) [
          | inl missing ↦ absurd (ground arith)
          | inr (staged, ready) ↦ (
            staged,
            ground (arith, read_file-rename_file source target target files staged ready),
            ground arith,
          )
        ]
      ]

  place_all-keeps :
      (refs : List ArtifactRef) (files : Files) (p : FilePath) (body : Text)
      → All (λ ref. validate_ref ref ≡ ok tt) refs
      → read_file p files ≡ some body
      → is_under (clean b.dir) p ≡ false
      → read_file p (place_all host b refs files).0 ≡ some body
  unfolding place_all
  place_all-keeps [] files p body h there outside = there
  place_all-keeps (ref ∷ refs) files p body h there outside =
      let kept = place-keeps ref files p body h.0 there outside in
      elim (Result-cases (place host b ref files).1) [
        | inr (x, e) ↦ ground arith
        | inl (u, e) ↦
            ground (arith, place_all-keeps refs (place host b ref files).0 p body h.1 kept outside)
      ]

  place_all-stores :
      (refs : List ArtifactRef) (files : Files)
      → All (λ ref. validate_ref ref ≡ ok tt) refs
      → (place_all host b refs files).1 ≡ ok tt
      → All (IsStored host b.project_id (place_all host b refs files).0) refs
  unfolding place_all
  place_all-stores [] files h placed = tt
  place_all-stores (ref ∷ refs) files h placed = elim (Result-cases (place host b ref files).1) [
    | inr (x, e) ↦ absurd (ground arith)
    | inl (u, e) ↦
        let files' = (place host b ref files).0 in
        let (body, there, right) = place-stores ref files (ground arith) in
        let kept =
          place_all-keeps refs files' (final_path host b.project_id ref) body h.1 there
            (final_path-outside host b ref v h.0) in
        let rest = place_all-stores refs files' h.1 (rw (e, place_all) at placed) in
        let same : (place_all host b (ref ∷ refs) files).0 ≡ (place_all host b refs files').0 =
          ground arith in
        subst (λ fs. All (IsStored host b.project_id fs) (ref ∷ refs)) (sym same)
          ((body, kept, right), rest)
  ]

  removed-stores :
      (refs : List ArtifactRef) (files : Files)
      → All (λ ref. validate_ref ref ≡ ok tt) refs
      → All (IsStored host b.project_id files) refs
      → All (IsStored host b.project_id (remove_all (clean b.dir) files)) refs
  removed-stores [] files h s = tt
  removed-stores (ref ∷ refs) files h ((body, there, right), rest) =
      let target = final_path host b.project_id ref in
      let kept : read_file target (remove_all (clean b.dir) files) ≡ some body = ground (
        arith,
        read_file-remove_all (clean b.dir) target files,
        final_path-outside host b ref v h.0,
      ) in
      ((body, kept, right), removed-stores refs files h.1 rest)

module _ (host : Host) (b : Batch) (v : IsBatch host b) where
  logged-stores :
      (disk : Disk) (refs : List ArtifactRef)
      → All (λ ref. validate_ref ref ≡ ok tt) refs
      → All (IsStored host b.project_id disk.files) refs
      → All (IsStored host b.project_id (append_manifest host b disk).files) refs
  logged-stores disk [] h s = tt
  logged-stores disk (ref ∷ refs) h ((body, there, right), rest) =
      let target = final_path host b.project_id ref in
      let apart = final_path-unlogged host b.project_id ref v.root v.project h.0 in
      (
        (body, append_manifest-keeps host b disk target apart ∙ there, right),
        logged-stores disk refs h.1 rest,
      )

pub commit-refs :
    (host : Host) (b : Batch) (ctx : Option Error) (disk : Disk) (refs : List ArtifactRef)
    → (commit host ctx b disk).1 ≡ ok refs
    → (refs ≡ b.refs) × All (λ ref. validate_ref ref ≡ ok tt) b.refs
unfolding commit check_batch
commit-refs host b ctx disk refs h = elim (Result-cases (check_context ctx >> check_batch host b)) [
  | inr (x, e) ↦ absurd (ground arith)
  | inl (u, e) ↦ elim (Result-cases (place_all host b b.refs disk.files).1) [
    | inr (x, e2) ↦ absurd (ground arith)
    | inl (w, e2) ↦ (ground arith, check_each-valid b.refs (ground arith))
  ]
]

module _ (host : Host) (b : Batch) (root : All IsOrdinary host.root) (id : IsPlain b.id) where
  -- A Commit that succeeds returns the references of its batch, and each of them is stored under its
  -- final path with the content that its digest names.
  pub commit-stores :
      (ctx : Option Error) (disk : Disk) (refs : List ArtifactRef)
      → (commit host ctx b disk).1 ≡ ok refs
      → (refs ≡ b.refs) × All (IsStored host b.project_id (commit host ctx b disk).0.files) refs
  unfolding commit
  commit-stores ctx disk refs h = elim (Result-cases (check_context ctx >> check_batch host b)) [
    | inr (x, e) ↦ absurd (ground arith)
    | inl (u, e) ↦ elim (Result-cases (place_all host b b.refs disk.files).1) [
      | inr (x, e2) ↦ absurd (ground arith)
      | inl (w, e2) ↦
          let v = check_batch-IsBatch host b root id (ground arith) in
          let files = (place_all host b b.refs disk.files).0 in
          let placed = place_all-stores host b v b.refs disk.files v.refs (ground arith) in
          let same : refs ≡ b.refs = ground arith in
          let logged = append_manifest host b (record disk { files = files }) in
          let end : (commit host ctx b disk).0.files ≡ remove_all (clean b.dir) logged.files =
            ground arith in
          (
            same,
            rw (same, end)
                (removed-stores host b v b.refs logged.files v.refs
                  (logged-stores host b v (record disk { files = files }) b.refs v.refs placed)),
          )
    ]
  ]

  -- Whether it succeeds or fails, Commit neither changes nor removes a file outside the staging
  -- directory of its batch, other than the project's manifest, when the store's root is clean and the
  -- batch's id is one element of a path.
  pub commit-keeps :
      (ctx : Option Error) (disk : Disk) (p : FilePath) (body : Text)
      → read_file p disk.files ≡ some body
      → is_under (clean b.dir) p ≡ false
      → manifest_path host b.project_id ≢ p
      → read_file p (commit host ctx b disk).0.files ≡ some body
  unfolding commit
  commit-keeps ctx disk p body there outside unlogged =
      elim (Result-cases (check_context ctx >> check_batch host b)) [
        | inr (x, e) ↦ ground arith
        | inl (u, e) ↦
            let v = check_batch-IsBatch host b root id (ground arith) in
            let files = (place_all host b b.refs disk.files).0 in
            let placed = record disk { files = files } in
            let kept = place_all-keeps host b v b.refs disk.files p body v.refs there outside in
            let still = append_manifest-keeps host b placed p unlogged ∙ kept in
            let cleared =
              read_file-remove_all (clean b.dir) p (append_manifest host b placed).files in
            ground arith
      ]
