-- ===== src/Modeling/Artifacts/Forged.antt =====
-- What checkBatch accepts besides the batches of Stage.
use mathlib.Core.List.{append_assoc}
use qemu_agent.Common.{
  List, [], ◌∷◌, ◌++◌, ◌≡◌, ◌≢◌, sym, ◌∙◌, none, true, All, All-append, arith, ok, length,
}
use qemu_agent.Text.{Text, codes}
use qemu_agent.Files.{clean, read_file}
use qemu_agent.Files.Paths.{IsOrdinary, join_parent, clean_ordinary}
use qemu_agent.Files.Tree.{read_file-remove_all, is_under-append}
use qemu_agent.Modeling.Types.{Stage, stage_text, is_known, ArtifactRef}
use qemu_agent.Modeling.Names.{validate_ref, validate_project_id}
use qemu_agent.Modeling.Names.Plain.{validate_project_id-IsPlain, is_known-IsPlain}
use qemu_agent.Modeling.Artifacts.{Host, Batch, Disk, check_each, check_batch, final_path, discard}
use qemu_agent.Modeling.Artifacts.Committed.{staging-IsPlain, final_path_lem}

-- A batch whose id climbs out of the staging directory, into that of a stage.
abbrev pub escaping : Host → Text → Stage → List ArtifactRef → Batch
escaping host id stage refs = record {
  project_id = id;
  id = b'.' ∷ b'.' ∷ b'/' ∷ stage_text stage;
  dir = host.root ++ (id ∷ stage_text stage ∷ []);
  refs = refs;
}

module _ (host : Host) (id : Text) (stage : Stage) (refs : List ArtifactRef)
    (root : All IsOrdinary host.root) (valid_id : validate_project_id id ≡ ok tt)
    (known : is_known stage ≡ true) where
  escaping_dir : clean (escaping host id stage refs).dir ≡ host.root ++ (id ∷ stage_text stage ∷ [])
  escaping_dir = clean_ordinary (host.root ++ (id ∷ stage_text stage ∷ [])) (
      All-append IsOrdinary host.root _ root
        ((validate_project_id-IsPlain id valid_id).1, ((is_known-IsPlain stage known).1, tt)))

  check_batch_escapes :
      length refs ≢ 0
      → check_each refs ≡ ok tt
      → check_batch host (escaping host id stage refs) ≡ ok tt
  unfolding check_batch
  check_batch_escapes some_refs checked =
      let project = validate_project_id-IsPlain id valid_id in
      let name = is_known-IsPlain stage known in
      ground (
        arith,
        escaping_dir,
        join_parent host.root id (codes "staging") (stage_text stage) root project staging-IsPlain
            name,
      )

  -- A batch whose id is `../` and a declared stage passes checkBatch when its references are valid,
  -- and Discard of it then removes the committed artifacts of that stage.
  pub discard_escapes :
      (disk : Disk) (ref : ArtifactRef)
      → length refs ≢ 0
      → check_each refs ≡ ok tt
      → host.removed (host.root ++ (id ∷ stage_text stage ∷ [])) ≡ true
      → validate_ref ref ≡ ok tt
      → ref.stage ≡ stage
      → ((discard host none (escaping host id stage refs) disk).1 ≡ ok tt)
        × (read_file
              (final_path host id ref)
              (discard host none (escaping host id stage refs) disk).0.files
            ≡ none)
  unfolding discard
  discard_escapes disk ref some_refs checked removable valid at_stage =
      let passes = check_batch_escapes some_refs checked in
      let project = validate_project_id-IsPlain id valid_id in
      let dir = host.root ++ (id ∷ stage_text stage ∷ []) in
      let file = (ref.id ++ (b'-' ∷ ref.name)) ∷ [] in
      let place : final_path host id ref ≡ dir ++ file =
        final_path_lem host id ref root project valid
        ∙ (rw at_stage (sym (append_assoc host.root (id ∷ stage_text stage ∷ []) file))) in
      let gone = read_file-remove_all dir (dir ++ file) disk.files in
      ground (arith, escaping_dir, is_under-append dir file)
