-- ===== src/Memory.antt =====
-- The items of the knowledge store, internal/memory/types.go, and the checks of normalize.go that
-- read no content. A time is a number, 0 is Go's zero time; Kind and Visibility are texts, as they
-- are in Go.
pub mod Words
pub mod Items
pub mod Index
pub mod Reload
pub mod Vetted
pub mod Recall
pub mod Review
pub mod Approval
pub mod Hidden
use qemu_agent.Common.{
  ℕ, List, [], ◌∷◌, Option, none, some, Bool, true, false, ◌&&◌, ◌||◌, not, if◌then◌else◌, leb,
  ◌==◌, length, all, Result, ok, err, ◌>>=◌, ◌>>◌, guard, refuse,
}
use qemu_agent.Text.{
  Text, codes, text_eq, is_empty, trim_space, to_lower, is_upper, is_lower, is_digit,
}

abbrev pub Kind : Type 0
Kind = Text

abbrev pub Visibility : Type 0
Visibility = Text

abbrev pub visibility_private : Visibility
visibility_private = codes "private"

abbrev pub visibility_workspace : Visibility
visibility_workspace = codes "workspace"

pub record Scope : Type 0 where
  pub workspace_id : Text
  pub user_id : Text
  pub visibility : Visibility

pub record Memory : Type 0 where
  pub id : Text
  pub kind : Kind
  pub scope : Scope
  pub content : Text
  pub keywords : List Text
  pub source : Text
  pub fingerprint : Text
  pub created_at : ℕ
  pub updated_at : ℕ
  pub last_used_at : ℕ
  pub use_count : ℕ

pub record Query : Type 0 where
  pub text : Text
  pub workspace_id : Text
  pub user_id : Text
  pub kinds : List Kind
  pub top_k : ℕ
  pub require_all_terms : Bool
  pub now : ℕ

-- The errors of a sanitizer.
pub data SanitizerError : Type 0 where
  no_content : SanitizerError
  sensitive_content : SanitizerError
  prompt_control : SanitizerError
  content_too_long : SanitizerError
  other_refusal : Text → SanitizerError

-- The errors; `failed` is one of the operating system or of the context, `duplicate_of` comes with
-- the stored item that the caller gets.
pub data MemoryError : Type 0 where
  invalid_kind : MemoryError
  invalid_visibility : MemoryError
  no_workspace : MemoryError
  no_owner : MemoryError
  unsafe_content : SanitizerError → MemoryError
  too_many_bytes : MemoryError
  no_terms : MemoryError
  bad_top_k : MemoryError
  not_found : MemoryError
  duplicate_of : Memory → MemoryError
  store_full : MemoryError
  unusable_new_id : MemoryError
  ids_collide : MemoryError
  unusable_file : Text → MemoryError
  stored_twice : Text → MemoryError
  failed : Text → MemoryError

-- A switch that lists the accepted texts.
abbrev pub one_of : List Text → Text → Bool
one_of [] t = false
one_of (x ∷ xs) t = text_eq x t || one_of xs t

abbrev kinds_declared : List Kind
kinds_declared = codes "fact" ∷ codes "preference" ∷ codes "decision" ∷ codes "constraint" ∷ []

abbrev visibilities_declared : List Visibility
visibilities_declared = visibility_private ∷ visibility_workspace ∷ []

-- ParseKind
unfoldable pub parse_kind : Text → Result MemoryError Kind
parse_kind raw =
    let kind = to_lower (trim_space raw) in
    if one_of kinds_declared kind then ok kind else err invalid_kind

-- ParseVisibility
unfoldable pub parse_visibility : Text → Result MemoryError Visibility
parse_visibility raw =
    let value = to_lower (trim_space raw) in
    if one_of visibilities_declared value then ok value else err invalid_visibility

-- visibleTo
unfoldable pub visible_to : Scope → Text → Text → Bool
visible_to scope workspace_id user_id =
    if is_empty scope.workspace_id
      || is_empty workspace_id
      || not (text_eq scope.workspace_id workspace_id)
    then false
    else if text_eq scope.visibility visibility_workspace
    then true
    else text_eq scope.visibility visibility_private
      && not (is_empty scope.user_id)
      && not (is_empty user_id)
      && text_eq scope.user_id user_id

-- writableBy
unfoldable pub writable_by : Scope → Scope → Bool
writable_by scope requested =
    if is_empty scope.workspace_id || not (text_eq scope.workspace_id requested.workspace_id)
    then false
    else if text_eq scope.visibility visibility_private
    then not (is_empty scope.user_id) && text_eq scope.user_id requested.user_id
    else text_eq scope.visibility visibility_workspace

-- kindAllowed
unfoldable pub kind_allowed : Kind → List Kind → Bool
kind_allowed kind [] = true
kind_allowed kind (k ∷ ks) = one_of (k ∷ ks) kind

-- validateScope
unfoldable pub validate_scope : Scope → Result MemoryError (Unit {0})
validate_scope scope = do
  refuse (is_empty (trim_space scope.workspace_id)) no_workspace
  value ← parse_visibility scope.visibility
  refuse (text_eq scope.visibility visibility_private && is_empty (trim_space scope.user_id))
      no_owner

abbrev is_id_byte : ℕ → Bool
is_id_byte c = is_upper c || is_lower c || is_digit c || c == b'_' || c == b'-'

-- validateID, with idPattern.
unfoldable pub validate_id : Text → Result MemoryError (Unit {0})
validate_id id = guard (leb 1 (length id) && leb (length id) 64 && all is_id_byte id) not_found

-- The loop of validateQuery.
unfoldable pub check_kinds : List Kind → Result MemoryError (Unit {0})
check_kinds [] = ok tt
check_kinds (k ∷ ks) = do kind ← parse_kind k; check_kinds ks

-- validateQuery
unfoldable pub validate_query : Query → Result MemoryError (Unit {0})
validate_query query = do
  refuse (is_empty (trim_space query.workspace_id)) no_workspace
  refuse (query.top_k == 0) bad_top_k
  check_kinds query.kinds

-- `if err := ctx.Err(); err != nil { return err }`
abbrev pub check_context : Option Text → Result MemoryError (Unit {0})
check_context none = ok tt
check_context (some e) = err (failed e)
