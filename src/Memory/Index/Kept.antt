-- ===== src/Memory/Index/Kept.antt =====
-- What Delete and Touch leave of the index of memories.
use qemu_agent.Common.{
  ℕ, ◌≡◌, sym, subst, ◌⊎◌, inl, inr, Option, some, true, arith, ok, err, Result-cases, Option-cases,
  Bool-cases, ◌>>◌,
}
use qemu_agent.Text.{Text, trim_space}
use qemu_agent.Memory.{
  Scope, Memory, MemoryError, not_found, failed, validate_id, writable_by, check_context,
}
use qemu_agent.Memory.Index.{FileStore, item_at, delete_item, touch_one, touched}
use qemu_agent.Memory.Index.Sound.{IsStore, forgotten, forgotten-IsStore, refreshed}

-- A Delete either leaves the store as it is, with an error, or it takes out the item under the
-- trimmed id, which the caller may write.
pub delete_item-cases :
    (ctx : Option Text) (id : Text) (scope : Scope) (removed : Option Text)
    → (s : FileStore)
    → ((e : MemoryError) × (delete_item ctx id scope removed s ≡ (s, err e)))
      ⊎ ((item : Memory) × (item_at (trim_space id) s.by_id ≡ some item)
          × (writable_by item.scope scope ≡ true)
          × (delete_item ctx id scope removed s ≡ (forgotten (trim_space id) item s, ok tt)))
unfolding delete_item
delete_item-cases ctx id scope removed s =
    elim (Result-cases (check_context ctx >> validate_id (trim_space id))) [
      | inr (e, bad) ↦ inl (e, ground arith)
      | inl (u, fine) ↦ elim (Option-cases (item_at (trim_space id) s.by_id)) [
        | inl missing ↦ inl (not_found, ground arith)
        | inr (item, there) ↦ elim (Bool-cases (writable_by item.scope scope)) [
          | inr foreign ↦ inl (not_found, ground arith)
          | inl own ↦ elim (Option-cases removed) [
            | inr (e, broken) ↦ inl (failed e, ground arith)
            | inl gone ↦ inr (item, there, own, ground arith)
          ]
        ]
      ]
    ]

pub delete_item-IsStore :
    (ctx : Option Text) (id : Text) (scope : Scope) (removed : Option Text)
    → (s : FileStore) → IsStore s
    → IsStore (delete_item ctx id scope removed s).0
delete_item-IsStore ctx id scope removed s h = elim (delete_item-cases ctx id scope removed s) [
  | inl (e, refused) ↦ subst (λ r. IsStore r.0) (sym refused) h
  | inr (item, there, own, gone) ↦
      subst (λ r. IsStore r.0) (sym gone) (forgotten-IsStore (trim_space id) item s h there)
]

pub touch_one-cases :
    (now : ℕ) (wrote : Text → Option Text) (id : Text) (s : FileStore)
    → (touch_one now wrote id s ≡ s)
      ⊎ ((item : Memory) × (item_at (trim_space id) s.by_id ≡ some item)
          × (touch_one now wrote id s ≡ refreshed (touched now item) s))
unfolding touch_one
touch_one-cases now wrote id s = elim (Option-cases (item_at (trim_space id) s.by_id)) [
  | inl missing ↦ inl (ground arith)
  | inr (item, there) ↦ elim (Option-cases (wrote item.id)) [
    | inr (e, broken) ↦ inl (ground arith)
    | inl written ↦ inr (item, there, ground arith)
  ]
]
