-- ===== src/Modeling/Artifacts.antt =====
-- FileArtifactStore, internal/modeling/artifacts.go, over the files of Files. What the host answers
-- is in `Host`: the random batch ids and the clock, by the number of the call, the digest function,
-- and whether each call of the operating system succeeds. A manifest line is the JSON of its entry, which is in `Host` too.
pub mod Staged
pub mod Committed
pub mod Forged
pub mod Kept
use qemu_agent.Common.{
  ℕ, suc, ◌+◌, List, [], ◌∷◌, ◌++◌, Option, none, some, Bool, true, false, ◌||◌, ◌&&◌, not, ltb,
  leb, ◌==◌, if◌then◌else◌, length, take, Result, ok, err, ◌>>=◌, ◌>>◌, guard, refuse, is_ok,
  is_some,
}
use qemu_agent.Text.{Text, codes, text_eq, trim_space}
use qemu_agent.Files.{
  FilePath, path_eq, clean, join, base_name, Files, read_file, write_file, rename_file, remove_all,
  bytes_under,
}
use qemu_agent.Modeling.Types.{
  Stage, stage_text, is_known, Kind, kind_text, ArtifactRef, pos, Error, plain, wraps,
  err_unsafe_name, err_too_large, err_tampered, err_id_collision, err_empty_artifac, err_not_found,
  unknown_stage, staged_twice, empty_artifact, unusable_batch, io_failed, not_regular,
}
use qemu_agent.Modeling.Names.{parse_kind, validate_name, validate_project_id, validate_ref}
use qemu_agent.Modeling.Store.{check_context}
use qemu_agent.Modeling.Steps.{Draft, ArtifactStore}

-- manifestEntry
pub record ManifestEntry : Type 0 where
  pub batch : Text
  pub at_time : ℕ
  pub artifact : ArtifactRef

-- The options of the store, and the host that it runs on. `encoded` is the JSON of a manifest entry;
-- `torn` is how many bytes of the manifest are written when encoding or writing it fails.
pub record Host : Type 0 where
  pub root : FilePath
  pub max_artifact_bytes : ℕ
  pub max_project_bytes : ℕ
  pub digest_of : Text → Text
  pub new_batch_id : ℕ → Text
  pub now : ℕ → ℕ
  pub made : FilePath → Bool
  pub wrote : FilePath → Bool
  pub readable : FilePath → Bool
  pub irregular : FilePath → Bool
  pub found : FilePath → Bool
  pub renamed : FilePath → Bool
  pub removed : FilePath → Bool
  pub encoded : ManifestEntry → Text
  pub opened : Bool
  pub torn : Option ℕ
  pub synced : Bool
  pub measured : Bool

-- Batch; `dir` has the elements of its path as they are written.
pub record Batch : Type 0 where
  pub project_id : Text
  pub id : Text
  pub dir : List Text
  pub refs : List ArtifactRef

-- `calls` counts the answers that the clock and the id source have given.
pub record Disk : Type 0 where
  pub files : Files
  pub calls : ℕ

abbrev pub unsafe_name : Error
unsafe_name = wraps (err_unsafe_name ∷ [])

abbrev pub too_large : Error
too_large = wraps (err_too_large ∷ [])

abbrev pub io_error : Error
io_error = plain io_failed

-- `string(draft.Stage) + "/" + draft.Name`
abbrev pub draft_key : Draft → Text
draft_key d = stage_text d.stage ++ (b'/' ∷ d.name)

-- `_, exists := seen[key]`
unfoldable pub is_seen : Text → List Text → Bool
is_seen key [] = false
is_seen key (k ∷ seen) = text_eq k key || is_seen key seen

-- The reference that a draft will be committed as.
abbrev pub draft_ref : Host → ℕ → Draft → ArtifactRef
draft_ref host now d = record {
  id = take 16 (host.digest_of d.body);
  stage = d.stage;
  name = d.name;
  kind = d.kind;
  bytes = pos (length d.body);
  digest = host.digest_of d.body;
  created = now;
}

-- The first phase of Stage, with the keys seen so far.
unfoldable pub check_drafts : Host → ℕ → List Text → List Draft → Result Error (List ArtifactRef)
check_drafts host now seen [] = ok []
check_drafts host now seen (d ∷ ds) = do
  guard (is_ok (validate_name d.name)) unsafe_name
  guard (text_eq (base_name d.name) d.name) unsafe_name
  guard (is_known d.stage) (plain unknown_stage)
  _ ← parse_kind (kind_text d.kind)
  refuse (is_seen (draft_key d) seen) (plain staged_twice)
  refuse (length d.body == 0) (plain empty_artifact)
  refuse (ltb host.max_artifact_bytes (length d.body)) too_large
  refs ← check_drafts host now (draft_key d ∷ seen) ds
  ok (draft_ref host now d ∷ refs)

-- `batchBytes`
unfoldable pub batch_bytes : List Draft → ℕ
batch_bytes [] = 0
batch_bytes (d ∷ ds) = length d.body + batch_bytes ds

-- The manifest of a project.
abbrev pub manifest_path : Host → Text → FilePath
manifest_path host id = join host.root (id ∷ codes "manifest.jsonl" ∷ [])

-- projectBytes
unfoldable pub project_bytes : Host → Text → Files → ℕ
project_bytes host id files = bytes_under (join host.root (id ∷ [])) (manifest_path host id) files

-- The batch id, after `used+batchBytes > s.maxProjectBytes` and the checks on it.
unfoldable pub open_batch : Host → Text → List Draft → Disk → Result Error Batch
open_batch host id drafts disk = do
  refs ← check_drafts host (host.now disk.calls) [] drafts
  guard host.measured io_error
  refuse (ltb host.max_project_bytes (project_bytes host id disk.files + batch_bytes drafts))
      too_large
  let batch_id = trim_space (host.new_batch_id disk.calls)
  guard (is_ok (validate_name batch_id)) (plain unusable_batch)
  let dir = join host.root (id ∷ codes "staging" ∷ batch_id ∷ [])
  guard (host.made dir) io_error
  ok (record { project_id = id; id = batch_id; dir = dir; refs = refs })

-- The file that a draft is staged in.
abbrev pub staged_path : List Text → Stage → Text → FilePath
staged_path dir stage name = join (join dir (stage_text stage ∷ [])) (name ∷ [])

-- The second phase of Stage: the files written before a failure stay.
unfoldable pub write_drafts : Host → FilePath → List Draft → Files → Files × Result Error (Unit {0})
write_drafts host dir [] files = (files, ok tt)
write_drafts host dir (d ∷ ds) files =
    let target = staged_path dir d.stage d.name in
    let rest = write_drafts host dir ds (write_file target d.body files) in
    if host.made (join dir (stage_text d.stage ∷ [])) && host.wrote target
    then rest
    else (files, err io_error)

-- The checks of Stage before its first phase.
abbrev pub check_request : Option Error → Text → List Draft → Result Error (Unit {0})
check_request ctx id drafts = do
  check_context ctx
  validate_project_id id
  refuse (length drafts == 0) (wraps (err_empty_artifac ∷ []))

-- Stage
unfoldable pub stage_drafts :
    Host → Option Error → Text → List Draft → Disk → Disk × Result Error Batch
stage_drafts host ctx id drafts disk =
    let used = record disk { calls = suc disk.calls } in
    elim (do check_request ctx id drafts; open_batch host id drafts disk) [
      | err e ↦ (used, err e)
      | ok batch ↦
          let (files, written) = write_drafts host batch.dir drafts disk.files in
          (record used { files = files }, written >> ok batch)
    ]

-- The loop of checkBatch over the references.
unfoldable pub check_each : List ArtifactRef → Result Error (Unit {0})
check_each [] = ok tt
check_each (ref ∷ refs) = do validate_ref ref; check_each refs

-- checkBatch
unfoldable pub check_batch : Host → Batch → Result Error (Unit {0})
check_batch host batch = do
  validate_project_id batch.project_id
  refuse (length batch.refs == 0) (wraps (err_empty_artifac ∷ []))
  guard
      (path_eq (clean batch.dir)
        (join host.root (batch.project_id ∷ codes "staging" ∷ batch.id ∷ [])))
      unsafe_name
  check_each batch.refs

-- Where a reference is stored for good.
abbrev pub final_path : Host → Text → ArtifactRef → FilePath
final_path host id ref =
    join (join host.root (id ∷ stage_text ref.stage ∷ [])) ((ref.id ++ (b'-' ∷ ref.name)) ∷ [])

-- The case of Commit that finds no file at the target.
abbrev pub move_staged :
    Host → ArtifactRef → FilePath → FilePath → Files → Files × Result Error (Unit {0})
move_staged host ref source target files = elim (read_file source files) [
  | none ↦ (files, err io_error)
  | some body ↦
      if not (host.readable source)
      then (files, err io_error)
      else if not (text_eq (host.digest_of body) ref.digest)
      then (files, err (wraps (err_tampered ∷ [])))
      else if host.renamed target
      then (rename_file source target files, ok tt)
      else (files, err io_error)
]

-- The case that finds one.
abbrev pub compare_committed : Host → ArtifactRef → FilePath → Text → Result Error (Unit {0})
compare_committed host ref target body = do
  guard (host.readable target) io_error
  guard (text_eq (host.digest_of body) ref.digest) (wraps (err_id_collision ∷ []))

-- The body of Commit's loop.
unfoldable pub place : Host → Batch → ArtifactRef → Files → Files × Result Error (Unit {0})
place host batch ref files =
    let target = final_path host batch.project_id ref in
    let source = join batch.dir (stage_text ref.stage ∷ ref.name ∷ []) in
    if not (host.made (join host.root (batch.project_id ∷ stage_text ref.stage ∷ [])))
    then (files, err io_error)
    else elim (read_file target files) [
      | some body ↦ (files, compare_committed host ref target body)
      | none ↦
          if host.irregular target
          then (files, err (plain not_regular))
          else if host.found target
          then move_staged host ref source target files
          else (files, err io_error)
    ]

-- The loop of Commit: what was moved before a failure stays.
unfoldable pub place_all : Host → Batch → List ArtifactRef → Files → Files × Result Error (Unit {0})
place_all host batch [] files = (files, ok tt)
place_all host batch (ref ∷ refs) files =
    let (files', placed) = place host batch ref files in
    let rest = place_all host batch refs files' in
    elim placed [ err e ↦ (files', err e) | ok u ↦ rest ]

-- The buffer of appendManifest.
unfoldable pub manifest_lines : (ManifestEntry → Text) → Text → ℕ → List ArtifactRef → Text
manifest_lines encoded batch at_time [] = []
manifest_lines encoded batch at_time (ref ∷ refs) =
    encoded (record { batch = batch; at_time = at_time; artifact = ref })
    ++ (10 ∷ manifest_lines encoded batch at_time refs)

-- What appendManifest leaves on disk, once the file is open.
abbrev pub append_manifest : Host → Batch → Disk → Disk
append_manifest host batch disk =
    let path = manifest_path host batch.project_id in
    let lines = manifest_lines host.encoded batch.id (host.now disk.calls) batch.refs in
    let written : Text = elim host.torn [ none ↦ lines | some n ↦ take n lines ] in
    let before : Text = elim (read_file path disk.files) [ none ↦ [] | some text ↦ text ] in
    record disk { files = write_file path (before ++ written) disk.files; calls = suc disk.calls }

-- What follows the loop of Commit.
abbrev pub conclude_commit : Host → Batch → Disk → Disk × Result Error (List ArtifactRef)
conclude_commit host batch disk =
    let logged = append_manifest host batch disk in
    if not host.opened
    then (disk, err io_error)
    else if is_some host.torn || not host.synced
    then (logged, err io_error)
    else if host.removed (clean batch.dir)
    then (record logged { files = remove_all (clean batch.dir) logged.files }, ok batch.refs)
    else (logged, err io_error)

-- Commit
unfoldable pub commit : Host → Option Error → Batch → Disk → Disk × Result Error (List ArtifactRef)
commit host ctx batch disk = elim (do check_context ctx; check_batch host batch) [
  | err e ↦ (disk, err e)
  | ok u ↦
      let (files, placed) = place_all host batch batch.refs disk.files in
      let moved = record disk { files = files } in
      elim placed [ err e ↦ (moved, err e) | ok u ↦ conclude_commit host batch moved ]
]

-- Discard
unfoldable pub discard : Host → Option Error → Batch → Disk → Disk × Result Error (Unit {0})
discard host ctx batch disk = elim (do check_context ctx; check_batch host batch) [
  | err e ↦ (disk, err e)
  | ok u ↦
      if host.removed (clean batch.dir)
      then (record disk { files = remove_all (clean batch.dir) disk.files }, ok tt)
      else (disk, err io_error)
]

-- Open, and the reading of what it returns.
unfoldable pub open_artifact : Host → Option Error → Text → ArtifactRef → Disk → Result Error Text
open_artifact host ctx id ref disk = do
  check_context ctx
  validate_project_id id
  validate_ref ref
  elim (read_file (final_path host id ref) disk.files) [
    | none ↦ err (wraps (err_not_found ∷ []))
    | some body ↦
        (guard (host.readable (final_path host id ref)) io_error
          >> (guard (text_eq (host.digest_of body) ref.digest) (wraps (err_tampered ∷ []))
              >> ok body))
  ]

-- The store as the pipeline sees it.
abbrev pub file_store : Host → ArtifactStore Disk Batch
file_store host = record {
  stage_drafts = stage_drafts host;
  commit = commit host;
  discard = discard host;
  read_artifact = open_artifact host;
}
