-- ===== src/Memory/Index/Duplicate.antt =====
-- The item that comes with the error ErrDuplicate.
use qemu_agent.Common.{
  ℕ, zero, suc, ◌≡◌, inl, inr, Option, some, Bool, true, false, arith, err, Result-cases,
  Option-cases, Bool-cases, ◌&&◌, refuse,
}
use qemu_agent.Text.{Text, text_eq, is_empty, trim_space}
use qemu_agent.Memory.{
  Scope, Memory, MemoryError, duplicate_of, no_owner, visibility_private, parse_kind,
  parse_visibility, validate_scope, validate_id,
}
use qemu_agent.Memory.Words.{Unicode}
use qemu_agent.Memory.Items.{Sanitizer, normalize_memory}
use qemu_agent.Memory.Index.{
  Items, FileStore, item_at, item_or_zero, hashed, generate_id, admit_new, admit_update, admit,
  admit_item, save_item, settle_save,
}
use qemu_agent.Memory.Index.Sound.{IsStore}

hashed-known :
    (s : FileStore) (hash id : Text)
    → IsStore s
    → hashed hash s ≡ some id
    → item_at (item_or_zero id s.by_id).id s.by_id ≡ some (item_or_zero id s.by_id)
hashed-known s hash id h there = elim (Option-cases (item_at id s.by_id)) [
  | inl missing ↦ absurd (ground (arith, h.found hash id there))
  | inr (item, here) ↦ ground (arith, h.named id item here)
]

generate_id-errors :
    (n i : ℕ) (new_id : ℕ → Text) (items : Items) (m : Memory)
    → generate_id n i new_id items ≡ err (duplicate_of m)
    → ⊥
unfolding generate_id
generate_id-errors zero i new_id items m h = cc
generate_id-errors (suc n) i new_id items m h =
    elim (Result-cases (validate_id (trim_space (new_id i)))) [
      | inr (e, bad) ↦ ground arith
      | inl (checked, usable) ↦ elim (Option-cases (item_at (trim_space (new_id i)) items)) [
        | inl unused ↦ ground arith
        | inr (item, taken) ↦ generate_id-errors n (suc i) new_id items m (ground arith)
      ]
    ]

refuse-errors : (test : Bool) (e x : MemoryError) → refuse test e ≡ err x → e ≡ x
refuse-errors true e x h = ground arith
refuse-errors false e x h = cc

parse_kind-errors : (raw : Text) (m : Memory) → parse_kind raw ≡ err (duplicate_of m) → ⊥
unfolding parse_kind
parse_kind-errors raw m h = ground arith

parse_visibility-errors :
    (raw : Text) (m : Memory) → parse_visibility raw ≡ err (duplicate_of m) → ⊥
unfolding parse_visibility
parse_visibility-errors raw m h = ground arith

validate_scope-errors :
    (scope : Scope) (m : Memory) → validate_scope scope ≡ err (duplicate_of m) → ⊥
unfolding validate_scope
validate_scope-errors scope m h = elim (Bool-cases (is_empty (trim_space scope.workspace_id))) [
  | inl nowhere ↦ absurd (ground arith)
  | inr somewhere ↦ elim (Result-cases (parse_visibility scope.visibility)) [
    | inr (e, bad) ↦ absurd (ground (arith, parse_visibility-errors scope.visibility m))
    | inl (value, known) ↦
        let clash : no_owner ≡ duplicate_of m =
          refuse-errors
            (text_eq scope.visibility visibility_private && is_empty (trim_space scope.user_id))
            no_owner (duplicate_of m) (rw (somewhere, known) at h) in
        absurd (ground arith)
  ]
]

normalize_memory-errors :
    (u : Unicode) (sanitizer : Sanitizer) (max_bytes now : ℕ) (item m : Memory)
    → normalize_memory u sanitizer max_bytes now item ≡ err (duplicate_of m)
    → ⊥
unfolding normalize_memory
normalize_memory-errors u sanitizer max_bytes now item m h =
    ground (arith, parse_kind-errors item.kind m, validate_scope-errors item.scope m)

admit-known :
    (s : FileStore) (new_id : ℕ → Text) (id : Text) (scope : Scope) (item m : Memory)
    → IsStore s
    → admit s new_id id scope item ≡ err (duplicate_of m)
    → item_at m.id s.by_id ≡ some m
unfolding admit_new admit_update
admit-known s new_id id scope item m h refused = elim (Option-cases (hashed item.fingerprint s)) [
  | inr (other, taken) ↦ let known = hashed-known s item.fingerprint other h taken in ground arith
  | inl free ↦ ground (arith, generate_id-errors 8 0 new_id s.by_id m)
]

-- The item that comes with ErrDuplicate is stored, in a consistent index.
pub save_item-known :
    (u : Unicode) (sanitizer : Sanitizer) (ctx : Option Text) (now : ℕ) (new_id : ℕ → Text)
    → (wrote : Option Text) (item m : Memory) (s : FileStore) → IsStore s
    → (save_item u sanitizer ctx now new_id wrote item s).1 ≡ err (duplicate_of m)
    → item_at m.id s.by_id ≡ some m
unfolding save_item settle_save admit_item
save_item-known u sanitizer ctx now new_id wrote item m s h refused =
    elim (Result-cases (normalize_memory u sanitizer s.max_bytes now item)) [
      | inr (e, bad) ↦
          absurd (ground (arith, normalize_memory-errors u sanitizer s.max_bytes now item m))
      | inl (given, normal) ↦
          admit-known s new_id (trim_space item.id) item.scope given m h (ground arith)
    ]
