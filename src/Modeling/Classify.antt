-- ===== src/Modeling/Classify.antt =====
-- classify of internal/modeling/pipeline.go: every failure is one of a closed set of categories.
use qemu_agent.Common.{
  ◌≡◌, refl, List, [], ◌∷◌, Option, none, some, Bool, true, false, ◌||◌, All, arith, if◌then◌else◌,
  Bool-cases, ◌⊎◌, inl, inr, length, leb, not, all, ◌&&◌, subst, sym,
}
use qemu_agent.Text.{Text, codes, is_empty}
use qemu_agent.Modeling.Types.{
  Sentinel, canceled, deadline_exceeded, err_tool_denied, err_schema_invalid, err_build_failed,
  err_model_failed, err_stage_unavailable, err_conflict, err_apply_partial, err_apply_rejected,
  err_apply_unavailable, err_disabled, err_unsafe_name, err_too_large, err_tampered,
  err_id_collision, err_empty_artifac, err_not_found, Error, errors_is,
}
use qemu_agent.Modeling.Names.{short_category, is_category_byte}
use qemu_agent.Modeling.Names.Category.{IsCategoryByte, short_category_of_bytes}

-- The cases of the switch, in their order.
abbrev pub category_table : List (List Sentinel × Text)
category_table =
    (canceled ∷ [], codes "canceled")
    ∷ (deadline_exceeded ∷ [], codes "stage_timeout")
    ∷ (err_tool_denied ∷ [], codes "tool_denied")
    ∷ (err_schema_invalid ∷ [], codes "schema_invalid")
    ∷ (err_build_failed ∷ [], codes "build_failed")
    ∷ (err_model_failed ∷ [], codes "model_failed")
    ∷ (err_stage_unavailable ∷ [], codes "stage_unavailable")
    ∷ (err_conflict ∷ [], codes "conflict")
    ∷ (err_apply_partial ∷ [], codes "apply_partial")
    ∷ (err_apply_rejected ∷ [], codes "apply_rejected")
    ∷ (err_apply_unavailable ∷ [], codes "apply_unavailable")
    ∷ (err_disabled ∷ [], codes "disabled")
    ∷ (
      err_unsafe_name ∷ err_too_large ∷ err_tampered ∷ err_id_collision ∷ err_empty_artifac ∷ [],
      codes "artifact_rejected",
    )
    ∷ (err_not_found ∷ [], codes "not_found")
    ∷ []

abbrev pub default_category : Text
default_category = codes "stage_failed"

-- `errors.Is(err, a), errors.Is(err, b), …`
unfoldable pub errors_is_any : Error → List Sentinel → Bool
errors_is_any e [] = false
errors_is_any e (s ∷ ss) = errors_is e s || errors_is_any e ss

unfoldable pub classify_in : List (List Sentinel × Text) → Error → Text
classify_in [] e = default_category
classify_in ((ss, category) ∷ table) e =
    let rest = classify_in table e in if errors_is_any e ss then category else rest

-- classify of an error that is not nil.
unfoldable pub classify : Error → Text
classify e = classify_in category_table e

-- Category, of an error that may be nil.
unfoldable pub category_of : Option Error → Text
category_of none = []
category_of (some e) = classify e

-- A stored category: not empty, and its own short form.
abbrev pub IsStored : Text → Type 0
IsStored c = (is_empty c ≡ false) × (short_category c ≡ c)

-- A token of at most 32 category bytes.
abbrev is_token : Text → Bool
is_token s = not (is_empty s) && (all is_category_byte s && leb (length s) 32)

all-bytes : (s : Text) → all is_category_byte s ≡ true → All IsCategoryByte s
all-bytes [] h = tt
all-bytes (c ∷ s) h = (ground arith, all-bytes s (ground arith))

is_token-IsStored : (s : Text) → is_token s ≡ true → IsStored s
is_token-IsStored s h =
    (ground arith, short_category_of_bytes s (all-bytes s (ground arith)) (ground arith))

-- The default category, or that of a row of the table.
abbrev pub IsListed : Text → List (List Sentinel × Text) → Type 0
IsListed c [] = c ≡ default_category
IsListed c (row ∷ table) = (c ≡ row.1) ⊎ IsListed c table

classify_in-IsListed :
    (table : List (List Sentinel × Text)) (e : Error) → IsListed (classify_in table e) table
unfolding classify_in
classify_in-IsListed [] e = refl
classify_in-IsListed ((ss, category) ∷ table) e = elim (Bool-cases (errors_is_any e ss)) [
  | inl hit ↦ rw (hit, classify_in) (inl refl)
  | inr miss ↦
      let same : classify_in ((ss, category) ∷ table) e ≡ classify_in table e =
        rw (miss, classify_in) in
      inr (subst (λ c. IsListed c table) (sym same) (classify_in-IsListed table e))
]

IsListed-IsStored :
    (table : List (List Sentinel × Text)) (c : Text)
    → all (λ row. is_token row.1) table ≡ true
    → IsListed c table
    → IsStored c
IsListed-IsStored [] c h l = rw l (is_token-IsStored default_category refl)
IsListed-IsStored (row ∷ table) c h (inl same) = rw same (is_token-IsStored row.1 (ground arith))
IsListed-IsStored (row ∷ table) c h (inr later) = IsListed-IsStored table c (ground arith) later

-- Whatever an error says, its category is one of the listed constants, is not empty and is
-- unchanged by shortCategory.
pub classify-IsStored : (e : Error) → IsListed (classify e) category_table × IsStored (classify e)
unfolding classify
classify-IsStored e =
    let listed = classify_in-IsListed category_table e in
    (listed, IsListed-IsStored category_table (classify_in category_table e) refl listed)
