-- ===== src/Workflow/Bindings.antt =====
-- FileStore of internal/modelingworkflow/file_store.go: the binding of a conversation is replaced
-- only at the version that was read. The lock makes each method one step.
pub mod Once
use qemu_agent.Common.{
  zero, suc, ap, List, [], ◌∷◌, ◌≡◌, refl, Option, none, some, Bool, false, ◌&&◌, ◌||◌, arith,
  Result, ok, err, ◌>>=◌, ◌>>◌, guard, refuse, inl, inr, Result-cases, is_ok,
}
use qemu_agent.Common.Assoc.{get, put, remove, get-put}
use qemu_agent.Text.{Text, Text-discrete, codes, text_eq, is_empty, trim_space}
use qemu_agent.Modeling.Types.{ℤ, int_eq, is_negative, next_int}
use qemu_agent.Workflow.{Binding, BindingKey, FlowError, version_conflict, flow_failed}

-- The key as one list; two keys are equal when their parts are.
abbrev pub key_parts : BindingKey → List Text
key_parts key = key.workspace_id ∷ key.user_id ∷ key.conversation_id ∷ []

unfoldable pub parts_discrete : Discrete (List Text)
parts_discrete = hlevel Text-discrete

abbrev pub BindingFiles : Type 0
BindingFiles = List (List Text × Binding)

abbrev pub binding_at : BindingKey → BindingFiles → Option Binding
binding_at key files = get parts_discrete (key_parts key) files

abbrev is_canonical_part : Text → Bool
is_canonical_part s = text_eq (trim_space s) s

-- validateBindingKey
unfoldable pub validate_binding_key : BindingKey → Result FlowError (Unit {0})
validate_binding_key key = do
  refuse (is_empty (trim_space key.workspace_id) || is_empty (trim_space key.conversation_id))
      (flow_failed (codes "binding workspace and conversation are required"))
  guard
      (is_canonical_part key.workspace_id
        && is_canonical_part key.user_id
        && is_canonical_part key.conversation_id)
      (flow_failed (codes "binding key must be canonical"))

abbrev pub check_live : Option FlowError → Result FlowError (Unit {0})
check_live none = ok tt
check_live (some e) = err e

-- Load
unfoldable pub load_binding :
    Option FlowError → BindingKey → BindingFiles → Result FlowError (Option Binding)
load_binding ctx key files = do check_live ctx; validate_binding_key key; ok (binding_at key files)

-- `(!found && expected != 0) || (found && current.Version != expected)` is false.
abbrev pub is_current : Option Binding → ℤ → Bool
is_current none expected = int_eq expected (ℤ.pos 0)
is_current (some current) expected = int_eq current.version expected

-- CompareAndSave after its checks.
abbrev pub finish_save :
    Binding → ℤ → Bool → BindingFiles → Result FlowError (BindingFiles × Binding)
finish_save binding expected written files = do
  guard written (flow_failed (codes "write binding"))
  let next = record binding { version = next_int expected }
  ok (put parts_discrete (key_parts binding.key) next files, next)

-- CompareAndSave; `written` says whether the file is written.
unfoldable pub compare_and_save :
    Option FlowError → Binding → ℤ → Bool → BindingFiles → Result FlowError (BindingFiles × Binding)
compare_and_save ctx binding expected written files = do
  check_live ctx
  validate_binding_key binding.key
  refuse (is_negative expected)
      (flow_failed (codes "expected binding version must not be negative"))
  guard (is_current (binding_at binding.key files) expected) version_conflict
  finish_save binding expected written files

-- Delete; `removed` says whether the file is removed.
unfoldable pub delete_binding :
    Option FlowError → BindingKey → ℤ → Bool → BindingFiles → Result FlowError BindingFiles
delete_binding ctx key expected removed files = do
  check_live ctx
  validate_binding_key key
  elim (binding_at key files) [
    | none ↦ err (flow_failed (codes "file does not exist"))
    | some current ↦ do
      guard (int_eq current.version expected) version_conflict
      guard removed (flow_failed (codes "delete binding"))
      ok (remove parts_discrete (key_parts key) files)
  ]
