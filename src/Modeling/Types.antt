-- ===== src/Modeling/Types.antt =====
-- The value types of internal/modeling/type.go, and the errors of the package.
-- A Go string type with constants is a data type with one constructor for each constant; `other`
-- carries a text that is none of them.
use qemu_agent.Common.{
  ℕ, zero, suc, List, [], ◌∷◌, Option, none, some, Bool, true, false, if◌then◌else◌, ℕ_discrete,
  leb, is_some,
}
use mathlib.Core.Logic.{ite}
use qemu_agent.Text.{Text, Text-discrete, codes}

pub data Stage : Type 0 where
  plan extract infer emit verify : Stage
  other : Text → Stage

unfoldable pub Stage-discrete : Discrete Stage
Stage-discrete = hlevel ℕ_discrete

abbrev pub stage_eq : Stage → Stage → Bool
stage_eq s t = ite (Stage-discrete s t) true false

pub data Status : Type 0 where
  pending running blocked done : Status
  other : Text → Status

unfoldable pub Status-discrete : Discrete Status
Status-discrete = hlevel ℕ_discrete

abbrev pub status_eq : Status → Status → Bool
status_eq s t = ite (Status-discrete s t) true false

pub data Kind : Type 0 where
  plan regir code diff evidence : Kind
  other : Text → Kind

unfoldable pub Kind-discrete : Discrete Kind
Kind-discrete = hlevel ℕ_discrete

abbrev pub kind_eq : Kind → Kind → Bool
kind_eq s t = ite (Kind-discrete s t) true false

-- An `int` or `int64`: `negsuc n` is -(n + 1).
pub data ℤ : Type 0 where
  pos : ℕ → ℤ
  negsuc : ℕ → ℤ

unfoldable pub ℤ-discrete : Discrete ℤ
ℤ-discrete = hlevel ℕ_discrete

abbrev pub int_eq : ℤ → ℤ → Bool
int_eq a b = ite (ℤ-discrete a b) true false

abbrev pub is_negative : ℤ → Bool
is_negative (pos n) = false
is_negative (negsuc n) = true

abbrev pub max_int : ℕ
max_int = 9223372036854775807

-- `n + 1` at 64 bits: the largest value wraps to the smallest.
unfoldable pub next_int : ℤ → ℤ
next_int (pos n) = if leb max_int n then negsuc max_int else pos (suc n)
next_int (negsuc zero) = pos 0
next_int (negsuc (suc n)) = negsuc n

-- ArtifactRef. A time is a number, 0 the zero time.
pub record ArtifactRef : Type 0 where
  pub id : Text
  pub stage : Stage
  pub name : Text
  pub kind : Kind
  pub bytes : ℤ
  pub digest : Text
  pub created : ℕ

-- The sentinel errors that `errors.Is` looks for, those of the package `context` included.
pub data Sentinel : Type 0 where
  canceled deadline_exceeded : Sentinel
  err_tool_denied err_schema_invalid err_build_failed err_model_failed : Sentinel
  err_stage_unavailable err_conflict : Sentinel
  err_apply_partial err_apply_rejected err_apply_unavailable : Sentinel
  err_disabled err_unsafe_name err_too_large err_tampered err_id_collision err_empty_artifac :
      Sentinel
  err_not_found err_capacity : Sentinel

unfoldable pub Sentinel-discrete : Discrete Sentinel
Sentinel-discrete = hlevel

-- The errors that wrap no sentinel, one constructor for each message.
pub data Message : Type 0 where
  invalid_stage invalid_kind unknown_stage unknown_current already_running not_done : Message
  skips_stage moves_back no_timestamp not_running wrong_stage not_evidence : Message
  empty_category applying_while_running nothing_to_apply : Message
  empty_title empty_workspace unknown_status negative_revision no_timestamps : Message
  misfiled_artifact non_category_error : Message
  empty_name path_in_name not_plain_name bad_digest bad_address negative_size no_creation : Message
  unusable_id colliding_id write_failed delete_failed unregistered_stage nil_runner
        registered_twice :
      Message
  staged_twice empty_artifact unusable_batch io_failed not_regular : Message
  foreign : Text → Message

-- An error with its message, or one that wraps sentinels (`%w`).
pub data Error : Type 0 where
  plain : Message → Error
  wraps : List Sentinel → Error

unfoldable pub sentinel_in : Sentinel → List Sentinel → Bool
sentinel_in s [] = false
sentinel_in s (t ∷ ts) = ite (Sentinel-discrete t s) true (sentinel_in s ts)

-- `errors.Is`
unfoldable pub errors_is : Error → Sentinel → Bool
unfolding sentinel_in
errors_is (plain m) s = false
errors_is (wraps ss) s = sentinel_in s ss

-- StageOrder
abbrev pub stage_order : List Stage
stage_order = plan ∷ extract ∷ infer ∷ emit ∷ verify ∷ []

-- The loop of stageIndex: the position of the first match.
unfoldable pub index_from : ℕ → List Stage → Stage → Option ℕ
index_from i [] s = none
index_from i (c ∷ cs) s = ite (Stage-discrete c s) (some i) (index_from (suc i) cs s)

-- stageIndex; `none` is its -1.
unfoldable pub stage_index : Stage → Option ℕ
unfolding index_from Stage-discrete ℕ_discrete
stage_index s = index_from 0 stage_order s

abbrev pub is_known : Stage → Bool
is_known s = is_some (stage_index s)

-- `a >= b` on indices, of which -1 is the least.
abbrev pub index_ge : Option ℕ → Option ℕ → Bool
index_ge a none = true
index_ge none (some j) = false
index_ge (some i) (some j) = leb j i

-- `StageOrder[i]`
unfoldable pub stage_at : ℕ → List Stage → Option Stage
stage_at i [] = none
stage_at zero (s ∷ ss) = some s
stage_at (suc i) (s ∷ ss) = stage_at i ss

-- FirstStage and LastStage
abbrev pub first_stage : Stage
first_stage = plan

abbrev pub last_stage : Stage
last_stage = verify

-- NextStage: `none` is its `ok == false`.
unfoldable pub next_stage : Stage → Option Stage
unfolding stage_index stage_at
next_stage s = elim (stage_index s) [ none ↦ none | some i ↦ stage_at (suc i) stage_order ]

-- `Stage(raw)`
unfoldable pub stage_of : Text → Stage
unfolding Text-discrete ℕ_discrete
stage_of t = ite (Text-discrete t (codes "plan")) plan (
    ite (Text-discrete t (codes "extract")) extract (
      ite (Text-discrete t (codes "infer")) infer (
        ite (Text-discrete t (codes "emit")) emit
          (ite (Text-discrete t (codes "verify")) verify (other t)))))

-- `string(stage)`
abbrev pub stage_text : Stage → Text
stage_text plan = codes "plan"
stage_text extract = codes "extract"
stage_text infer = codes "infer"
stage_text emit = codes "emit"
stage_text verify = codes "verify"
stage_text (other t) = t

-- `Kind(raw)`
unfoldable pub kind_of : Text → Kind
unfolding Text-discrete ℕ_discrete
kind_of t = ite (Text-discrete t (codes "plan")) plan (
    ite (Text-discrete t (codes "regir")) regir (
      ite (Text-discrete t (codes "code")) code (
        ite (Text-discrete t (codes "diff")) diff
          (ite (Text-discrete t (codes "evidence")) evidence (other t)))))

-- `string(kind)`
abbrev pub kind_text : Kind → Text
kind_text plan = codes "plan"
kind_text regir = codes "regir"
kind_text code = codes "code"
kind_text diff = codes "diff"
kind_text evidence = codes "evidence"
kind_text (other t) = t
