-- ===== src/Memory/Index/Sound.antt =====
-- The invariant of the index of memories.
use qemu_agent.Common.{
  ℕ, suc, ◌+◌, ◌-◌, ◌≤◌, ◌⊎◌, List, [], ◌∷◌, ◌++◌, ◌≡◌, Option, none, some, true, false,
  if◌then◌else◌, arith,
}
use qemu_agent.Common.Assoc.{
  put, remove, get-put, get-remove, length-put_new, length-put_old, length-remove,
}
use qemu_agent.Text.{Text, Text-discrete, text_eq}
use qemu_agent.Memory.{Memory}
use qemu_agent.Memory.Index.{FileStore, item_at, hashed, len, detach, stored, remove_id}

-- How often a list of ids has an id.
abbrev pub count : Text → List Text → ℕ
count id [] = 0
count id (x ∷ xs) = if text_eq x id then suc (count id xs) else count id xs

abbrev pub occupied : Option Memory → ℕ
occupied none = 0
occupied (some item) = 1

abbrev pub fingerprint_of : Option Memory → Option Text
fingerprint_of none = none
fingerprint_of (some item) = some item.fingerprint

-- The files on disk are the items of the index.
abbrev pub Mirrored : FileStore → Type 0
Mirrored s = (id : Text) → item_at id s.files ≡ item_at id s.by_id

-- The index is consistent: an item stands under its id, the hash index leads from the fingerprint
-- of every item to its id and from nothing else to an id, the ids in order are those of the items,
-- each once, and there are no more items than the limit.
pub record IsStore (s : FileStore) : Type 0 where
  pub named :
      (id : Text) (item : Memory)
      → item_at id s.by_id ≡ some item
      → (item.id ≡ id) × (hashed item.fingerprint s ≡ some id)
  pub found : (h id : Text) → hashed h s ≡ some id → fingerprint_of (item_at id s.by_id) ≡ some h
  pub listed : (id : Text) → count id s.ordered ≡ occupied (item_at id s.by_id)
  pub within : len s ≤ s.max_items

count-append : (id : Text) (xs ys : List Text) → count id (xs ++ ys) ≡ count id xs + count id ys
count-append id [] ys = omega arith
count-append id (x ∷ xs) ys = ground (arith, count-append id xs ys)

pub put_new-IsStore :
    (item : Memory) (s : FileStore)
    → IsStore s
    → hashed item.fingerprint s ≡ none
    → item_at item.id s.by_id ≡ none
    → suc (len s) ≤ s.max_items
    → IsStore (stored true item s)
put_new-IsStore item s h fresh unused room = record {
  named = λ id m e. ground (
    arith,
    get-put Text-discrete item.id id item s.by_id,
    get-put Text-discrete item.fingerprint m.fingerprint item.id s.by_hash,
    h.named id m,
  );
  found = λ hash id e. ground (
    arith,
    get-put Text-discrete item.id id item s.by_id,
    get-put Text-discrete item.fingerprint hash item.id s.by_hash,
    h.found hash id,
  );
  listed = λ id. ground (
    arith,
    get-put Text-discrete item.id id item s.by_id,
    count-append id s.ordered (item.id ∷ []),
    h.listed id,
  );
  within = omega (arith, length-put_new Text-discrete item.id item s.by_id);
}

pub put_update-IsStore :
    (previous item : Memory) (s : FileStore)
    → IsStore s
    → item_at item.id s.by_id ≡ some previous
    → (hashed item.fingerprint s ≡ none) ⊎ (hashed item.fingerprint s ≡ some item.id)
    → IsStore (stored false item (detach item.id s))
put_update-IsStore previous item s h there free = record {
  named = λ id m e. ground (
    arith,
    get-put Text-discrete item.id id item s.by_id,
    get-put Text-discrete item.fingerprint m.fingerprint item.id
        (remove Text-discrete previous.fingerprint s.by_hash),
    get-remove Text-discrete previous.fingerprint m.fingerprint s.by_hash,
    h.named id m,
    h.named item.id previous,
  );
  found = λ hash id e. ground (
    arith,
    get-put Text-discrete item.id id item s.by_id,
    get-put Text-discrete item.fingerprint hash item.id
        (remove Text-discrete previous.fingerprint s.by_hash),
    get-remove Text-discrete previous.fingerprint hash s.by_hash,
    h.found hash id,
  );
  listed = λ id. ground (arith, get-put Text-discrete item.id id item s.by_id, h.listed id);
  within = ground (arith, length-put_old Text-discrete item.id item previous s.by_id, h.within);
}

count-remove_id :
    (id j : Text) (ids : List Text)
    → count j (remove_id ids id) ≡ (if text_eq id j then count j ids - 1 else count j ids)
unfolding remove_id
count-remove_id id j [] = ground arith
count-remove_id id j (x ∷ xs) = ground (arith, count-remove_id id j xs)

-- The store without the item.
abbrev pub forgotten : Text → Memory → FileStore → FileStore
forgotten id item s = record s {
  by_id = remove Text-discrete id s.by_id;
  by_hash = remove Text-discrete item.fingerprint s.by_hash;
  ordered = remove_id s.ordered id;
  files = remove Text-discrete id s.files;
}

pub forgotten-IsStore :
    (id : Text) (item : Memory) (s : FileStore)
    → IsStore s
    → item_at id s.by_id ≡ some item
    → IsStore (forgotten id item s)
forgotten-IsStore id item s h there = record {
  named = λ j m e. ground (
    arith,
    get-remove Text-discrete id j s.by_id,
    get-remove Text-discrete item.fingerprint m.fingerprint s.by_hash,
    h.named j m,
    h.named id item,
  );
  found = λ hash j e. ground (
    arith,
    get-remove Text-discrete id j s.by_id,
    get-remove Text-discrete item.fingerprint hash s.by_hash,
    h.found hash j,
  );
  listed = λ j. ground (
    arith,
    get-remove Text-discrete id j s.by_id,
    count-remove_id id j s.ordered,
    h.listed id,
    h.listed j,
  );
  within = omega (arith, length-remove Text-discrete id s.by_id, h.within);
}

-- The store with the same item changed in what the index does not read.
abbrev pub refreshed : Memory → FileStore → FileStore
refreshed item s = record s {
  by_id = put Text-discrete item.id item s.by_id;
  files = put Text-discrete item.id item s.files;
}

pub refreshed-IsStore :
    (id : Text) (previous item : Memory) (s : FileStore)
    → IsStore s
    → item_at id s.by_id ≡ some previous
    → item.id ≡ previous.id
    → item.fingerprint ≡ previous.fingerprint
    → IsStore (refreshed item s)
refreshed-IsStore id previous item s h there same same_hash = record {
  named = λ j m e.
      ground
        (arith, get-put Text-discrete item.id j item s.by_id, h.named j m, h.named id previous);
  found = λ hash j e.
      ground
        (arith, get-put Text-discrete item.id j item s.by_id, h.found hash j, h.named id previous);
  listed = λ j.
      ground (arith, get-put Text-discrete item.id j item s.by_id, h.listed j, h.named id previous);
  within = ground (
    arith,
    length-put_old Text-discrete item.id item previous s.by_id,
    h.named id previous,
    h.within,
  );
}
