-- ===== src/Memory/Index/Saved.antt =====
-- What the methods of the store of memories leave of its index, whether they succeed or fail.
use qemu_agent.Common.{
  ℕ, zero, suc, ◌≤◌, ◌⊎◌, ◌≡◌, ◌≢◌, refl, sym, subst, inl, inr, Option, none, some, true, false,
  arith, ok, err, Result, Result-cases, Option-cases, Bool-cases,
}
use qemu_agent.Common.Assoc.{remove, get-put, get-remove}
use qemu_agent.Text.{Text, Text-discrete, is_empty, trim_space}
use qemu_agent.Memory.{Scope, Memory, MemoryError, validate_id, writable_by, failed}
use qemu_agent.Memory.Words.{Unicode}
use qemu_agent.Memory.Items.{Sanitizer, normalize_memory, SameBody}
use qemu_agent.Memory.Index.{
  Items, FileStore, item_at, hashed, len, updated, detach, reattach, stored, admit, admit_new,
  admit_update, generate_id, settle_save, admit_item, save_item, detach_update, reattach_update,
  other_of,
}
use qemu_agent.Memory.Index.Sound.{IsStore, put_new-IsStore, put_update-IsStore}

-- The two stores answer every call alike: their hash indices are equal as maps.
pub record SameIndex (s t : FileStore) : Type 0 where
  pub same_limits : (s.max_items ≡ t.max_items) × (s.max_bytes ≡ t.max_bytes)
  pub same_items : s.by_id ≡ t.by_id
  pub same_hashes : (h : Text) → hashed h s ≡ hashed h t
  pub same_order : s.ordered ≡ t.ordered
  pub same_files : s.files ≡ t.files

abbrev pub SameIndex-refl : (s : FileStore) → SameIndex s s
SameIndex-refl s = record {
  same_limits = (refl, refl);
  same_items = refl;
  same_hashes = λ h. refl;
  same_order = refl;
  same_files = refl;
}

SameIndex-IsStore : (s t : FileStore) → SameIndex s t → IsStore s → IsStore t
SameIndex-IsStore s t same h = record {
  named = λ id m e. ground (arith, h.named id m, same.same_hashes m.fingerprint, same.same_items);
  found = λ hash id e. ground (arith, h.found hash id, same.same_hashes hash, same.same_items);
  listed = λ id. ground (arith, h.listed id, same.same_order, same.same_items);
  within = ground (arith, h.within, same.same_limits.0, same.same_items);
}

reattach-SameIndex :
    (id : Text) (s : FileStore) → IsStore s → SameIndex s (reattach id (detach id s))
reattach-SameIndex id s h = elim (Option-cases (item_at id s.by_id)) [
  | inl missing ↦ record {
    same_limits = (ground arith, ground arith);
    same_items = ground arith;
    same_hashes = λ hash. ground arith;
    same_order = ground arith;
    same_files = ground arith;
  }
  | inr (previous, there) ↦ record {
    same_limits = (ground arith, ground arith);
    same_items = ground arith;
    same_hashes = λ hash. ground (
      arith,
      get-put Text-discrete previous.fingerprint hash previous.id
          (remove Text-discrete previous.fingerprint s.by_hash),
      get-remove Text-discrete previous.fingerprint hash s.by_hash,
      h.named id previous,
    );
    same_order = ground arith;
    same_files = ground arith;
  }
]

restored-SameIndex :
    (id : Text) (s : FileStore) → IsStore s → SameIndex s (reattach_update id (detach_update id s))
restored-SameIndex id s h = elim (Bool-cases (is_empty id)) [
  | inl fresh ↦ rw fresh (SameIndex-refl s)
  | inr named ↦ rw named (reattach-SameIndex id s h)
]

generate_id-unused :
    (n i : ℕ) (new_id : ℕ → Text) (items : Items) (id : Text)
    → generate_id n i new_id items ≡ ok id
    → (item_at id items ≡ none) × (validate_id id ≡ ok tt)
unfolding generate_id
generate_id-unused zero i new_id items id h = cc
generate_id-unused (suc n) i new_id items id h =
    elim (Result-cases (validate_id (trim_space (new_id i)))) [
      | inr (e, bad) ↦ absurd (ground arith)
      | inl (checked, usable) ↦ elim (Option-cases (item_at (trim_space (new_id i)) items)) [
        | inl unused ↦ ground arith
        | inr (item, taken) ↦ generate_id-unused n (suc i) new_id items id (ground arith)
      ]
    ]

-- What may be written under `id`: a new item at an unused place below the limit, or an item in the
-- place of one that the caller may write. Its fingerprint is new, or that of the item in its place.
pub data Admitted (s : FileStore) (id : Text) (scope : Scope) (item : Memory) : Type 0 where
  as_new :
      is_empty id ≡ true
      → hashed item.fingerprint s ≡ none
      → item_at item.id s.by_id ≡ none
      → validate_id item.id ≡ ok tt
      → suc (len s) ≤ s.max_items
      → Admitted s id scope item
  as_update :
      (previous : Memory)
      → is_empty id ≡ false
      → item.id ≡ id
      → item_at id s.by_id ≡ some previous
      → writable_by previous.scope scope ≡ true
      → (hashed item.fingerprint s ≡ none) ⊎ (hashed item.fingerprint s ≡ some id)
      → Admitted s id scope item

other_of-none :
    (id : Text) (found : Option Text)
    → other_of id found ≡ none
    → (found ≡ none) ⊎ (found ≡ some id)
other_of-none id none h = inl refl
other_of-none id (some other) h = inr (ground arith)

admit_new-Admitted :
    (s : FileStore) (new_id : ℕ → Text) (id : Text) (scope : Scope) (item made : Memory)
    → is_empty id ≡ true
    → admit_new s new_id item ≡ ok made
    → SameBody item made × Admitted s id scope made
unfolding admit_new
admit_new-Admitted s new_id id scope item made fresh h =
    elim (Option-cases (hashed item.fingerprint s)) [
      | inr (other, taken) ↦ absurd (ground arith)
      | inl free ↦ elim (Result-cases (generate_id 8 0 new_id s.by_id)) [
        | inr (e, bad) ↦ absurd (ground arith)
        | inl (new, generated) ↦
            let (unused, usable) = generate_id-unused 8 0 new_id s.by_id new generated in
            let same : made ≡ record item { id = new } = ground arith in
            (
              subst (SameBody item) (sym same) (refl, refl, refl, refl, refl),
              as_new fresh (ground arith) (ground arith) (ground arith) (ground arith),
            )
      ]
    ]

admit_update-Admitted :
    (s : FileStore) (id : Text) (scope : Scope) (item made : Memory)
    → is_empty id ≡ false
    → admit_update s id scope item ≡ ok made
    → SameBody item made × Admitted s id scope made
unfolding admit_update
admit_update-Admitted s id scope item made named h = elim (Option-cases (item_at id s.by_id)) [
  | inl missing ↦ absurd (ground arith)
  | inr (previous, there) ↦
      let free : other_of id (hashed item.fingerprint s) ≡ none = ground arith in
      let same : made ≡ record (updated previous item) { id = id } = ground arith in
      (
        subst (SameBody item) (sym same) (refl, refl, refl, refl, refl),
        as_update previous named (ground arith) there (ground arith)
            (ground (arith, other_of-none id (hashed item.fingerprint s) free)),
      )
]

admit-Admitted :
    (s : FileStore) (new_id : ℕ → Text) (id : Text) (scope : Scope) (item made : Memory)
    → admit s new_id id scope item ≡ ok made
    → SameBody item made × Admitted s id scope made
admit-Admitted s new_id id scope item made h = elim (Bool-cases (is_empty id)) [
  | inl fresh ↦ admit_new-Admitted s new_id id scope item made fresh (ground arith)
  | inr named ↦ admit_update-Admitted s id scope item made named (ground arith)
]

stored-IsStore :
    (s : FileStore) (id : Text) (scope : Scope) (item : Memory)
    → IsStore s
    → Admitted s id scope item
    → IsStore (stored (is_empty id) item (detach_update id s))
stored-IsStore s id scope item h (as_new fresh new unused usable room) =
    rw fresh (put_new-IsStore item s h new unused room)
stored-IsStore s id scope item h (as_update previous named same there may free) = rw named (
    subst (λ j. IsStore (stored false item (detach j s))) same
      (put_update-IsStore previous item s h (rw same there) (rw same free)))

module _ (u : Unicode) (sanitizer : Sanitizer) (ctx : Option Text) (now : ℕ) (new_id : ℕ → Text)
    (wrote : Option Text) (item : Memory) (s : FileStore) where
  abbrev pub saved : FileStore × Result MemoryError Memory
  saved = save_item u sanitizer ctx now new_id wrote item s

  -- What a Save that stores `made` has checked and done.
  pub record IsSaved (made : Memory) : Type 0 where
    pub given : Memory
    pub normal : normalize_memory u sanitizer s.max_bytes now item ≡ ok given
    pub body : SameBody given made
    pub may : Admitted s (trim_space item.id) item.scope made
    pub result : saved ≡ (
      stored (is_empty (trim_space item.id)) made (detach_update (trim_space item.id) s),
      ok made,
    )

  settle_save-IsSaved :
      (made : Memory)
      → admit_item u sanitizer ctx now new_id item s ≡ ok made
      → wrote ≡ none
      → IsSaved made
  unfolding admit_item save_item settle_save
  settle_save-IsSaved made h written =
      elim (Result-cases (normalize_memory u sanitizer s.max_bytes now item)) [
        | inr (e, bad) ↦ absurd (ground arith)
        | inl (given, normal) ↦
            let (body, admitted) =
              admit-Admitted s new_id (trim_space item.id) item.scope given made (ground arith) in
            record {
              given = given;
              normal = normal;
              body = body;
              may = admitted;
              result = rw (h, save_item) (rw (written, settle_save) refl);
            }
      ]

  -- A Save returns an error and leaves a consistent index as it was, or it stores an item.
  pub save_item-cases :
      IsStore s
      → ((e : MemoryError) × (saved.1 ≡ err e) × SameIndex s saved.0)
        ⊎ ((made : Memory) × IsSaved made)
  unfolding save_item settle_save
  save_item-cases h = elim (Result-cases (admit_item u sanitizer ctx now new_id item s)) [
    | inr (e, refused) ↦
        inl (e, rw (refused, save_item) refl, rw (refused, save_item) (SameIndex-refl s))
    | inl (made, admitted) ↦ elim (Option-cases wrote) [
      | inl written ↦ inr (made, settle_save-IsSaved made admitted written)
      | inr (e, broken) ↦ inl (
        failed e,
        rw (admitted, save_item) (rw (broken, settle_save) refl),
        rw (admitted, save_item)
            (rw (broken, settle_save) (restored-SameIndex (trim_space item.id) s h)),
      )
    ]
  ]

  pub save_item-IsStore : IsStore s → IsStore saved.0
  save_item-IsStore h = elim (save_item-cases h) [
    | inl (e, reason, same) ↦ SameIndex-IsStore s saved.0 same h
    | inr (made, done) ↦
        subst (λ r. IsStore r.0) (sym done.result)
          (stored-IsStore s (trim_space item.id) item.scope made h done.may)
  ]

  -- A Save that returns an error leaves a consistent index as it was, also when the write of an
  -- update fails: the hash entry that was taken out before is back.
  pub save_item-refused : IsStore s → (e : MemoryError) → saved.1 ≡ err e → SameIndex s saved.0
  save_item-refused h e reason = elim (save_item-cases h) [
    | inl (x, why, same) ↦ same
    | inr (made, done) ↦ absurd (ground (arith, done.result))
  ]

  -- A Save that succeeds on a consistent index stores what it returns, in the index and on disk: a new
  -- item under an unused id within the limit, or an item in the place of one that the caller may
  -- write, and its fingerprint is new or that of the item in its place. No other item changes.
  pub save_item-saved :
      (made : Memory)
      → saved.1 ≡ ok made
      → IsStore s
      → Admitted s (trim_space item.id) item.scope made
        × (item_at made.id saved.0.by_id ≡ some made)
        × (item_at made.id saved.0.files ≡ some made)
        × ((j : Text) → made.id ≢ j → item_at j saved.0.by_id ≡ item_at j s.by_id)
  save_item-saved made h whole = elim (save_item-cases whole) [
    | inl (e, reason, same) ↦ absurd (ground arith)
    | inr (other, done) ↦
        let here : other ≡ made = ground (arith, done.result) in
        let files : (detach_update (trim_space item.id) s).files ≡ s.files = ground arith in
        let items : (detach_update (trim_space item.id) s).by_id ≡ s.by_id = ground arith in
        (
          subst (Admitted s (trim_space item.id) item.scope) here done.may,
          ground (arith, done.result, get-put Text-discrete made.id made.id made s.by_id),
          ground (arith, done.result, get-put Text-discrete made.id made.id made s.files),
          λ j apart. ground (arith, done.result, get-put Text-discrete made.id j made s.by_id),
        )
  ]
