-- ===== src/Modeling/Apply.antt =====
-- The value layer of a landing, internal/modeling/apply.go: what an apply plan says, and the checks on
-- it. The path functions are those of Files.
pub mod Safe
use qemu_agent.Common.{
  ℕ, List, [], ◌∷◌, Bool, true, false, ◌||◌, ◌&&◌, not, length, ◌==◌, if◌then◌else◌, Result, ok,
  err, ◌>>=◌, ◌>>◌, guard, refuse,
}
use qemu_agent.Text.{Text, codes, text_eq, is_empty, trim_space, has_prefix, contains}
use qemu_agent.Files.{clean_relative}
use qemu_agent.Modeling.Types.{
  Kind, kind_text, ArtifactRef, Error, wraps, err_apply_rejected, err_apply_unavailable,
  err_apply_partial,
}
use qemu_agent.Modeling.Names.{validate_project_id, validate_ref, matches_digest}

-- ApplyAction; `other` has a text that is neither constant.
pub data ApplyAction : Type 0 where
  create modify : ApplyAction
  other : Text → ApplyAction

pub record FileChange : Type 0 where
  pub path : Text
  pub action : ApplyAction
  pub ref : ArtifactRef
  pub base_digest : Text

pub record ApplyPlan : Type 0 where
  pub project_id : Text
  pub files : List FileChange
  pub diff : ArtifactRef

pub record ApplyResult : Type 0 where
  pub project_id : Text
  pub written : List Text
  pub skipped : List Text
  pub partial : Bool
  pub reason : Text
  pub evidence : List ArtifactRef

abbrev pub rejected : Error
rejected = wraps (err_apply_rejected ∷ [])

abbrev pub unavailable : Error
unavailable = wraps (err_apply_unavailable ∷ [])

abbrev pub apply_partial : Error
apply_partial = wraps (err_apply_partial ∷ [])

-- validatePath
unfoldable pub validate_path : Text → Result Error (Unit {0})
validate_path path = do
  let cleaned = trim_space path
  refuse (is_empty cleaned) rejected
  refuse (contains cleaned (b'\\' ∷ [])) rejected
  refuse (has_prefix cleaned (codes "/")) rejected
  guard (text_eq cleaned (clean_relative cleaned)) rejected
  refuse (text_eq cleaned (codes "..") || has_prefix cleaned (codes "../")) rejected

-- The switch of FileChange.Validate.
abbrev pub check_base : ApplyAction → Text → Result Error (Unit {0})
check_base create digest = guard (is_empty digest) rejected
check_base modify digest = guard (matches_digest digest) rejected
check_base (other t) digest = err rejected

abbrev pub is_evidence : Kind → Bool
is_evidence Kind.evidence = true
is_evidence k = false

abbrev pub is_diff : Kind → Bool
is_diff Kind.diff = true
is_diff k = false

-- FileChange.Validate
unfoldable pub validate_change : FileChange → Result Error (Unit {0})
validate_change c = do
  validate_path c.path
  check_base c.action c.base_digest
  validate_ref c.ref
  refuse (is_evidence c.ref.kind) rejected

-- `_, duplicate := seen[change.Path]`
unfoldable pub lists_path : Text → List Text → Bool
lists_path path [] = false
lists_path path (p ∷ seen) = text_eq p path || lists_path path seen

-- The loop of ApplyPlan.Validate, with the paths seen so far.
unfoldable pub check_changes : List Text → List FileChange → Result Error (Unit {0})
check_changes seen [] = ok tt
check_changes seen (c ∷ cs) = do
  validate_change c
  refuse (lists_path c.path seen) rejected
  check_changes (c.path ∷ seen) cs

-- ApplyPlan.Validate
unfoldable pub validate_plan : ApplyPlan → Result Error (Unit {0})
validate_plan p = do
  validate_project_id p.project_id
  refuse (length p.files == 0) rejected
  check_changes [] p.files
  validate_ref p.diff
  guard (is_diff p.diff.kind) rejected
