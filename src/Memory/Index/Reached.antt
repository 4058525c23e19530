-- ===== src/Memory/Index/Reached.antt =====
-- The stores of memories that the methods reach.
use qemu_agent.Common.{
  ℕ, ◌≡◌, refl, sym, subst, inl, inr, Option, none, some, List, [], ◌∷◌, arith, ok, ◌==◌,
  if◌then◌else◌,
}
use qemu_agent.Common.Assoc.{put, get-put, get-remove}
use qemu_agent.Text.{Text, Text-discrete, trim_space, is_empty}
use qemu_agent.Memory.{Scope, Memory, validate_id}
use qemu_agent.Memory.Words.{Unicode}
use qemu_agent.Memory.Items.{Sanitizer}
use qemu_agent.Memory.Vetted.{IsVetted, normalize_memory-IsVetted, SameBody-IsVetted}
use qemu_agent.Memory.Index.{
  Items, FileStore, item_at, save_item, stored, detach_update, delete_item, touch, touch_one,
  touch_all, touched,
}
use qemu_agent.Memory.Index.Sound.{IsStore, refreshed-IsStore}
use qemu_agent.Memory.Index.Saved.{Admitted, as_new, as_update, save_item-IsStore, save_item-cases}
use qemu_agent.Memory.Index.Kept.{delete_item-cases, delete_item-IsStore, touch_one-cases}

module _ (u : Unicode) (sanitizer : Sanitizer) where
  -- Every item passed the gate and has a usable id.
  abbrev pub AllVetted : ℕ → Items → Type 0
  AllVetted max_bytes items =
      (id : Text) (item : Memory)
      → item_at id items ≡ some item
      → IsVetted u sanitizer max_bytes item × (validate_id id ≡ ok tt)

  pub put-AllVetted :
      (max_bytes : ℕ) (item : Memory) (items : Items)
      → AllVetted max_bytes items
      → IsVetted u sanitizer max_bytes item
      → validate_id item.id ≡ ok tt
      → AllVetted max_bytes (put Text-discrete item.id item items)
  put-AllVetted max_bytes item items h vetted usable id other e = elim (Text-discrete item.id id) [
    | yes same ↦
        let here : other ≡ item = ground (arith, get-put Text-discrete item.id id item items) in
        (subst (IsVetted u sanitizer max_bytes) (sym here) vetted, ground arith)
    | no apart ↦ h id other (ground (arith, get-put Text-discrete item.id id item items))
  ]

  Admitted-usable :
      (s : FileStore) (id : Text) (scope : Scope) (item : Memory)
      → AllVetted s.max_bytes s.by_id
      → Admitted s id scope item
      → validate_id item.id ≡ ok tt
  Admitted-usable s id scope item h (as_new fresh new unused usable room) = usable
  Admitted-usable s id scope item h (as_update previous named same there may free) =
      rw same (h id previous there).1

  -- The store as the methods keep it.
  pub record IsHeld (s : FileStore) : Type 0 where
    pub whole : IsStore s
    pub vetted : AllVetted s.max_bytes s.by_id

  stored-AllVetted :
      (id : Text) (made : Memory) (s : FileStore)
      → AllVetted s.max_bytes (put Text-discrete made.id made s.by_id)
      → let t = stored (is_empty id) made (detach_update id s) in AllVetted t.max_bytes t.by_id
  stored-AllVetted id made s h =
      let items : (detach_update id s).by_id ≡ s.by_id = ground arith in
      let limit : (detach_update id s).max_bytes ≡ s.max_bytes = ground arith in
      subst (λ n. AllVetted n (put Text-discrete made.id made (detach_update id s).by_id))
        (sym limit)
        (subst (λ m. AllVetted s.max_bytes (put Text-discrete made.id made m)) (sym items) h)

  pub save_item-IsHeld :
      (ctx : Option Text) (now : ℕ) (new_id : ℕ → Text) (wrote : Option Text)
      → (item : Memory) (s : FileStore) → IsHeld s
      → IsHeld (save_item u sanitizer ctx now new_id wrote item s).0
  save_item-IsHeld ctx now new_id wrote item s h = record {
    whole = save_item-IsStore u sanitizer ctx now new_id wrote item s h.whole;
    vetted = elim (save_item-cases u sanitizer ctx now new_id wrote item s h.whole) [
      | inl (e, failed, same) ↦
          subst (AllVetted _) same.same_items
            (subst (λ n. AllVetted n s.by_id) same.same_limits.1 h.vetted)
      | inr (made, done) ↦
          let (vetted, rest) =
            normalize_memory-IsVetted u sanitizer s.max_bytes now item done.given done.normal in
          subst (λ r. AllVetted r.0.max_bytes r.0.by_id) (sym done.result)
            (stored-AllVetted (trim_space item.id) made s (
              put-AllVetted s.max_bytes made s.by_id h.vetted
                (SameBody-IsVetted u sanitizer s.max_bytes done.given made vetted done.body)
                (Admitted-usable s (trim_space item.id) item.scope made h.vetted done.may)))
    ];
  }

  pub delete_item-IsHeld :
      (ctx : Option Text) (id : Text) (scope : Scope) (removed : Option Text)
      → (s : FileStore) → IsHeld s
      → IsHeld (delete_item ctx id scope removed s).0
  delete_item-IsHeld ctx id scope removed s h = record {
    whole = delete_item-IsStore ctx id scope removed s h.whole;
    vetted = elim (delete_item-cases ctx id scope removed s) [
      | inl (e, refused) ↦ subst (λ r. AllVetted r.0.max_bytes r.0.by_id) (sym refused) h.vetted
      | inr (item, there, own, gone) ↦
          subst (λ r. AllVetted r.0.max_bytes r.0.by_id) (sym gone)
            (λ j m e.
              h.vetted j m (ground (arith, get-remove Text-discrete (trim_space id) j s.by_id)))
    ];
  }

  touch_one-IsHeld :
      (now : ℕ) (wrote : Text → Option Text) (id : Text) (s : FileStore)
      → IsHeld s
      → IsHeld (touch_one now wrote id s)
  touch_one-IsHeld now wrote id s h = elim (touch_one-cases now wrote id s) [
    | inl same ↦ subst IsHeld (sym same) h
    | inr (item, there, changed) ↦
        let (vetted, usable) = h.vetted (trim_space id) item there in
        let (named, hash) = h.whole.named (trim_space id) item there in
        subst IsHeld (sym changed) (record {
          whole =
              refreshed-IsStore (trim_space id) item (touched now item) s h.whole there refl refl;
          vetted =
              put-AllVetted s.max_bytes (touched now item) s.by_id h.vetted
                (SameBody-IsVetted u sanitizer s.max_bytes item (touched now item) vetted
                  (refl, refl, refl, refl, refl))
                (rw named usable);
        })
  ]

  touch_all-IsHeld :
      (now : ℕ) (ids : List (Text × (Text → Option Text))) (s : FileStore)
      → IsHeld s
      → IsHeld (touch_all now ids s).0
  unfolding touch_all
  touch_all-IsHeld now [] s h = h
  touch_all-IsHeld now ((id, wrote) ∷ ids) s h =
      touch_all-IsHeld now ids (touch_one now wrote id s) (touch_one-IsHeld now wrote id s h)

  pub touch-IsHeld :
      (ctx : Option Text) (ids : List (Text × (Text → Option Text)))
      → (now clock : ℕ) (s : FileStore) → IsHeld s
      → IsHeld (touch ctx ids now clock s).0
  unfolding touch
  touch-IsHeld none ids now clock s h = touch_all-IsHeld (if now == 0 then clock else now) ids s h
  touch-IsHeld (some e) ids now clock s h = h
