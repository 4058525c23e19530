-- ===== src/Modeling/Applier.antt =====
-- FileApplier, internal/modeling/applier.go, over the files of the QEMU tree. `Site` is what the file
-- system answers about its paths, once while the plan is made and once while the writes are prepared.
pub mod Landing
pub mod Prepared
pub mod Course
pub mod Tool
pub mod Kept
pub mod Wired
pub mod Recorded
use mathlib.Core.List.{reverse}
use qemu_agent.Common.{
  ℕ, suc, ◌+◌, ◌*◌, ◌^◌, List, [], ◌∷◌, ◌++◌, map, Option, none, some, Bool, true, false, ◌||◌,
  ◌&&◌, not, ltb, ◌==◌, if◌then◌else◌, length, Result, ok, err, ◌>>=◌, ◌>>◌, guard, refuse,
}
use qemu_agent.Text.{Text, codes, text_eq, is_empty, trim_space}
use qemu_agent.Files.{FilePath, path_eq, join, is_under, Files, read_file}
use qemu_agent.Modeling.Types.{
  Stage, Kind, ArtifactRef, Error, wraps, err_schema_invalid, err_tampered, err_too_large,
}
use qemu_agent.Modeling.Project.{Project, artifacts_of, applied, apply_failed}
use qemu_agent.Modeling.Store.{Store, Scope, get_project, save}
use qemu_agent.Modeling.Classify.{classify}
use qemu_agent.Modeling.Steps.{Draft, ArtifactStore, bumped, or_none}
use qemu_agent.Modeling.Apply.{
  ApplyAction, create, modify, FileChange, ApplyPlan, ApplyResult, rejected, unavailable,
  apply_partial, validate_path, validate_change, validate_plan,
}
use qemu_agent.Modeling.Pipeline.{write_batch}

-- applyEntry, of internal/modeling/stage_emit.go.
pub record ApplyEntry : Type 0 where
  pub artifact : Text
  pub path : Text
  pub action : ApplyAction

-- What filepath.EvalSymlinks answers.
pub data Resolved : Type 0 where
  resolved : FilePath → Resolved
  missing unresolvable : Resolved

-- Lstat's answer about a path with no regular file is `irregular`, or an error that is not a missing
-- file (`hidden`); `readable` says that a regular file can be read.
pub record Site : Type 0 where
  pub eval_links : FilePath → Resolved
  pub hidden : FilePath → Bool
  pub irregular : FilePath → Bool
  pub readable : FilePath → Bool

-- The write tool at its nth call: the tree that it leaves, and whether it reports no error.
abbrev pub WriteTool : Type 0
WriteTool = ℕ → FilePath → Text → Files → Files × Bool

-- The applier with its tree (none when none is configured), and what one call of Apply meets: the
-- context's error at each call that reads it, the clock, and whether the state file is written.
-- `decoded` and `encoded` are the JSON of the manifest and of the record that Apply leaves.
pub record ApplyHost : Type 0 where
  pub qemu_root : Option FilePath
  pub has_tools : Bool
  pub write : WriteTool
  pub at_plan : Site
  pub at_write : Site
  pub digest_of : Text → Text
  pub decoded : Text → Option (List ApplyEntry)
  pub encoded : ApplyPlan → ApplyResult → ℕ → Option Text
  pub ctx_get : Option Error
  pub ctx_open : ℕ → Option Error
  pub ctx_stage : Option Error
  pub now_plan : ℕ
  pub now_end : ℕ
  pub wrote : Bool

-- maxApplyFileBytes
abbrev pub max_apply_file_bytes : ℕ
max_apply_file_bytes = 8 * 2 ^ 20

abbrev pub artifact_apply_plan : Text
artifact_apply_plan = codes "apply-plan.json"

abbrev pub artifact_apply_manifest : Text
artifact_apply_manifest = codes "apply-manifest.json"

abbrev pub artifact_device_diff : Text
artifact_device_diff = codes "device.diff"

-- The loop of findArtifact: the last match wins.
unfoldable pub find_last : Text → List ArtifactRef → Option ArtifactRef
find_last name [] = none
find_last name (ref ∷ refs) = elim (find_last name refs) [
  | some found ↦ some found
  | none ↦ if text_eq ref.name name then some ref else none
]

-- findArtifact; the error is that of the caller.
abbrev pub find_artifact : Project → Stage → Text → Result Error ArtifactRef
find_artifact p stage name = elim (find_last name (artifacts_of p stage)) [
  | none ↦ err rejected
  | some ref ↦ ok ref
]

-- within
abbrev pub within : FilePath → FilePath → Bool
within root path = path_eq path root || (not (path_eq root []) && is_under root path)

-- The loop of resolve, over the elements of the ancestor with the last one first.
unfoldable pub walk_up : Site → FilePath → FilePath → List Text → Result Error FilePath
walk_up site root target [] = err rejected
walk_up site root target (last ∷ above) =
    let rest = walk_up site root target above in
    elim (site.eval_links (reverse above)) [
      | missing ↦ rest
      | unresolvable ↦ err rejected
      | resolved place ↦
          if not (within root place) && not (path_eq place root) then err rejected else ok target
    ]

-- resolve
unfoldable pub resolve : Option FilePath → Site → Text → Result Error FilePath
resolve none site rel = err unavailable
resolve (some qemu_root) site rel = elim (site.eval_links qemu_root) [
  | missing ↦ err unavailable
  | unresolvable ↦ err unavailable
  | resolved root ↦
      let target = join root (rel ∷ []) in
      if not (within root target) then err rejected else walk_up site root target (reverse target)
]

-- readTarget: `none` is an absent target.
unfoldable pub read_target : Site → Files → FilePath → Result Error (Option Text)
read_target site tree target = do
  refuse (site.hidden target) rejected
  elim (read_file target tree) [
    | none ↦ if site.irregular target then err rejected else ok none
    | some body ↦
        if ltb max_apply_file_bytes (length body)
        then err rejected
        else if site.readable target
        then ok (some body)
        else err rejected
  ]

-- The switch of change on the action: the base digest.
abbrev pub base_of : ApplyHost → ApplyAction → Option Text → Result Error Text
base_of host create none = ok []
base_of host create (some body) = err rejected
base_of host modify none = err rejected
base_of host modify (some body) = ok (host.digest_of body)
base_of host (ApplyAction.other t) found = ok []

-- change
unfoldable pub change : ApplyHost → Files → Project → ApplyEntry → Result Error FileChange
change host tree p entry = do
  ref ← find_artifact p Stage.emit entry.artifact
  validate_path entry.path
  target ← resolve host.qemu_root host.at_plan entry.path
  existing ← read_target host.at_plan tree target
  base ← base_of host entry.action existing
  let made : FileChange = record {
    path = entry.path;
    action = entry.action;
    ref = ref;
    base_digest = base;
  }
  validate_change made
  ok made

unfoldable pub changes :
    ApplyHost → Files → Project → List ApplyEntry → Result Error (List FileChange)
changes host tree p [] = ok []
changes host tree p (entry ∷ entries) = do
  made ← change host tree p entry
  rest ← changes host tree p entries
  ok (made ∷ rest)

-- decodeManifest
abbrev pub decode_manifest : ApplyHost → Text → Result Error (List ApplyEntry)
decode_manifest host body = elim (host.decoded body) [
  | none ↦ err (wraps (err_schema_invalid ∷ []))
  | some entries ↦ if length entries == 0 then err (wraps (err_schema_invalid ∷ [])) else ok entries
]

-- available
abbrev pub available : ApplyHost → Result Error (Unit {0})
available host = elim host.qemu_root [
  | none ↦ err unavailable
  | some root ↦ guard host.has_tools unavailable
]

-- readAllLimited
abbrev pub read_all_limited : Text → Result Error Text
read_all_limited body =
    if ltb max_apply_file_bytes (length body) then err (wraps (err_too_large ∷ [])) else ok body

-- read, at the nth call of Open.
unfoldable pub read_checked :
    {A B : Type 0} → ArtifactStore A B → ApplyHost → ℕ → Text → ArtifactRef → A → Result Error Text
read_checked ops host n id ref artifacts = do
  body ← ops.read_artifact (host.ctx_open n) id ref artifacts
  _ ← read_all_limited body
  guard (text_eq (host.digest_of body) ref.digest) (wraps (err_tampered ∷ []))
  ok body

-- What compose puts between a file that does not end its last line and the artifact.
abbrev pub missing_newline : Text → Text
missing_newline body = elim (reverse body) [
  | [] ↦ []
  | last ∷ above ↦ if last == 10 then [] else 10 ∷ []
]

-- compose, of the change's action and base digest.
abbrev pub compose : ApplyHost → ApplyAction → Text → Text → Option Text → Result Error Text
compose host create base artifact none = ok artifact
compose host create base artifact (some body) = err rejected
compose host modify base artifact none = err rejected
compose host modify base artifact (some body) =
    if text_eq (host.digest_of body) base
    then ok (body ++ (missing_newline body ++ artifact))
    else err rejected
compose host (ApplyAction.other t) base artifact found = err rejected

-- plan, and the error of Plan.
unfoldable pub plan :
    {A B : Type 0}
    → ArtifactStore A B
    → ApplyHost
    → Store
    → A
    → Files
    → Text
    → Scope
    → Result Error (ApplyPlan × Project)
plan ops host store artifacts tree id scope = do
  available host
  p ← get_project store host.ctx_get id scope
  manifest ← find_artifact p Stage.emit artifact_apply_manifest
  diff ← find_artifact p Stage.emit artifact_device_diff
  body ← read_checked ops host 0 p.id manifest artifacts
  entries ← decode_manifest host body
  files ← changes host tree p entries
  let made : ApplyPlan = record { project_id = p.id; files = files; diff = diff }
  validate_plan made
  ok (made, p)
