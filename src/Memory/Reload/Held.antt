-- ===== src/Memory/Reload/Held.antt =====
-- The stores of memories that opening a directory and any calls of the methods reach.
use qemu_agent.Common.{
  ℕ, suc, ◌+◌, ◌≤◌, ◌≡◌, refl, sym, subst, inl, inr, Option, none, List, [], ◌∷◌, arith, ok,
  Result-cases, length,
}
use qemu_agent.Common.Assoc.{get, length-put_new}
use qemu_agent.Common.Sorted.{sort_by}
use qemu_agent.Text.{Text, Text-discrete}
use qemu_agent.Memory.{Scope, Memory, validate_id}
use qemu_agent.Memory.Words.{Unicode}
use qemu_agent.Memory.Items.{Sanitizer, normalize_memory, normalized}
use qemu_agent.Memory.Vetted.{IsVetted, normalize_memory-IsVetted, SameBody-IsVetted}
use qemu_agent.Memory.Index.{Items, FileStore, item_at, hashed, len, save_item, delete_item, touch}
use qemu_agent.Memory.Index.Sound.{IsStore, put_new-IsStore}
use qemu_agent.Memory.Index.Reached.{
  put-AllVetted, IsHeld, save_item-IsHeld, delete_item-IsHeld, touch-IsHeld,
}
use qemu_agent.Memory.Reload.{
  ItemFile, item_files, earlier_name, empty_store, with_item, read_item, load_item, load_items,
  load_existing,
}

empty_store-IsStore :
    (max_items max_bytes : ℕ) (files : Items) → IsStore (empty_store max_items max_bytes files)
unfolding get
empty_store-IsStore max_items max_bytes files = record {
  named = λ id item e. ground arith;
  found = λ hash id e. ground arith;
  listed = λ id. ground arith;
  within = omega arith;
}

with_item-IsStore :
    (item : Memory) (s : FileStore)
    → IsStore s
    → hashed item.fingerprint s ≡ none
    → item_at item.id s.by_id ≡ none
    → suc (len s) ≤ s.max_items
    → IsStore (with_item item s)
with_item-IsStore item s h fresh unused room =
    let t = put_new-IsStore item s h fresh unused room in
    record { named = t.named; found = t.found; listed = t.listed; within = t.within }

module _ (u : Unicode) (sanitizer : Sanitizer) where
  read_item-IsVetted :
      (max_bytes : ℕ) (entry : ItemFile) (item : Memory)
      → read_item u sanitizer max_bytes entry ≡ ok item
      → IsVetted u sanitizer max_bytes item × (validate_id item.id ≡ ok tt)
  unfolding read_item normalized
  read_item-IsVetted max_bytes entry item h = elim (Result-cases entry.decoded) [
    | inr (e, bad) ↦ absurd (ground arith)
    | inl (raw, decoded) ↦
        elim (Result-cases (normalize_memory u sanitizer max_bytes raw.updated_at raw)) [
          | inr (e, bad) ↦ absurd (ground arith)
          | inl (made, normal) ↦
              let (vetted, (content, same)) =
                normalize_memory-IsVetted u sanitizer max_bytes raw.updated_at raw made normal in
              let kept : item
                  ≡ record made { created_at = raw.created_at; updated_at = raw.updated_at } =
                ground arith in
              (
                subst (IsVetted u sanitizer max_bytes) (sym kept) (
                    SameBody-IsVetted u sanitizer max_bytes made
                      (record made { created_at = raw.created_at; updated_at = raw.updated_at })
                      vetted (refl, refl, refl, refl, refl)),
                ground arith,
              )
        ]
  ]

  -- One file more, of a store that has room.
  record IsLoaded (s t : FileStore) : Type 0 where
    held : IsHeld u sanitizer t
    grown : len t ≤ suc (len s)
    same_limit : t.max_items ≡ s.max_items

  load_item-IsLoaded :
      (entry : ItemFile) (s t : FileStore)
      → IsHeld u sanitizer s
      → suc (len s) ≤ s.max_items
      → load_item u sanitizer entry s ≡ ok t
      → IsLoaded s t
  unfolding load_item
  load_item-IsLoaded entry s t h room loaded =
      elim (Result-cases (read_item u sanitizer s.max_bytes entry)) [
        | inr (e, bad) ↦ absurd (ground arith)
        | inl (item, read) ↦
            let (vetted, usable) = read_item-IsVetted s.max_bytes entry item read in
            let same : t ≡ with_item item s = ground arith in
            subst (IsLoaded s) (sym same) (record {
              held = record {
                whole = with_item-IsStore item s h.whole (ground arith) (ground arith) room;
                vetted = put-AllVetted u sanitizer s.max_bytes item s.by_id h.vetted vetted usable;
              };
              grown = length-put_new Text-discrete item.id item s.by_id;
              same_limit = refl;
            })
      ]

  load_items-IsHeld :
      (entries : List ItemFile) (s t : FileStore)
      → IsHeld u sanitizer s
      → len s + length entries ≤ s.max_items
      → load_items u sanitizer entries s ≡ ok t
      → IsHeld u sanitizer t
  unfolding load_items
  load_items-IsHeld [] s t h room loaded = subst (IsHeld u sanitizer) (ground arith) h
  load_items-IsHeld (entry ∷ entries) s t h room loaded =
      elim (Result-cases (load_item u sanitizer entry s)) [
        | inr (e, bad) ↦ absurd (ground arith)
        | inl (next, one) ↦
            let l = load_item-IsLoaded entry s next h (omega arith) one in
            load_items-IsHeld entries next t l.held (omega (arith, l.grown, l.same_limit))
              (ground arith)
      ]

  load_existing-IsHeld :
      (entries : List ItemFile) (max_items max_bytes : ℕ) (files : Items) (t : FileStore)
      → load_existing u sanitizer entries (empty_store max_items max_bytes files) ≡ ok t
      → IsHeld u sanitizer t
  unfolding load_existing get
  load_existing-IsHeld entries max_items max_bytes files t loaded =
      load_items-IsHeld (sort_by earlier_name (item_files entries))
        (empty_store max_items max_bytes files) t
        (record {
          whole = empty_store-IsStore max_items max_bytes files;
          vetted = λ id item e. absurd (ground arith);
        })
        (ground arith) (ground arith)

  -- The stores that opening a directory and then any calls of Save, Delete and Touch reach,
  -- whatever the operating system answers; every call has a context and a time of its own.
  pub data Held : FileStore → Type 0 where
    opened :
        (entries : List ItemFile) (max_items max_bytes : ℕ) (files : Items) (s : FileStore)
        → load_existing u sanitizer entries (empty_store max_items max_bytes files) ≡ ok s
        → Held s
    saved :
        (ctx : Option Text) (now : ℕ) (new_id : ℕ → Text) (wrote : Option Text)
        → (item : Memory) (s : FileStore) → Held s
        → Held (save_item u sanitizer ctx now new_id wrote item s).0
    deleted :
        (ctx : Option Text) (id : Text) (scope : Scope) (removed : Option Text)
        → (s : FileStore) → Held s
        → Held (delete_item ctx id scope removed s).0
    touched :
        (ctx : Option Text) (ids : List (Text × (Text → Option Text)))
        → (now clock : ℕ) (s : FileStore) → Held s
        → Held (touch ctx ids now clock s).0

  -- Every store of memories that opening a directory and then any calls of Save, Delete and Touch
  -- reach, failed ones included, has a consistent index of at most the limit, in which no two items
  -- have one fingerprint, and every item passed the gate, with the keywords and the fingerprint of
  -- its content.
  pub Held-IsHeld : (s : FileStore) → Held s → IsHeld u sanitizer s
  Held-IsHeld s (opened entries max_items max_bytes files made loaded) =
      load_existing-IsHeld entries max_items max_bytes files made loaded
  Held-IsHeld s (saved ctx now new_id wrote item before h) =
      save_item-IsHeld u sanitizer ctx now new_id wrote item before (Held-IsHeld before h)
  Held-IsHeld s (deleted ctx id scope removed before h) =
      delete_item-IsHeld u sanitizer ctx id scope removed before (Held-IsHeld before h)
  Held-IsHeld s (touched ctx ids now clock before h) =
      touch-IsHeld u sanitizer ctx ids now clock before (Held-IsHeld before h)
