-- ===== src/Memory/Index.antt =====
-- FileStore, internal/memory/store.go: the index in memory and the files of the directory. The lock
-- makes each method one step; what the operating system answers is an argument, none when it
-- succeeds, and `files` holds the items on disk by the stem of their file's name.
pub mod Sound
pub mod Saved
pub mod Kept
pub mod Duplicate
pub mod Reached
use qemu_agent.Common.{
  ℕ, zero, suc, ◌+◌, ◌^◌, ◌%◌, List, [], ◌∷◌, ◌++◌, Option, none, some, Bool, true, false, ◌||◌,
  ◌&&◌, not, if◌then◌else◌, ltb, ◌==◌, length, take, is_some, Result, ok, err, ◌>>=◌, ◌>>◌, guard,
  refuse,
}
use qemu_agent.Common.Assoc.{get, put, remove}
use qemu_agent.Common.Sorted.{sort_by}
use qemu_agent.Text.{
  Text, Text-discrete, codes, text_eq, is_empty, trim_space, text_lt, has_suffix, trim_suffix,
}
use qemu_agent.Memory.{
  Scope, Memory, Query, MemoryError, no_workspace, not_found, duplicate_of, store_full,
  unusable_new_id, ids_collide, failed, visible_to, writable_by, kind_allowed, validate_id,
  check_context,
}
use qemu_agent.Memory.Words.{Unicode}
use qemu_agent.Memory.Items.{Sanitizer, normalize_memory}

abbrev pub Items : Type 0
Items = List (Text × Memory)

pub record FileStore : Type 0 where
  pub max_items : ℕ
  pub max_bytes : ℕ
  pub by_id : Items
  pub by_hash : List (Text × Text)
  pub ordered : List Text
  pub files : Items

-- Go's zero value.
abbrev pub no_memory : Memory
no_memory = record {
  id = [];
  kind = [];
  scope = record { workspace_id = []; user_id = []; visibility = [] };
  content = [];
  keywords = [];
  source = [];
  fingerprint = [];
  created_at = 0;
  updated_at = 0;
  last_used_at = 0;
  use_count = 0;
}

abbrev pub item_at : Text → Items → Option Memory
item_at id items = get Text-discrete id items

-- `items[id]`
abbrev pub item_or_zero : Text → Items → Memory
item_or_zero id items = elim (item_at id items) [ none ↦ no_memory | some item ↦ item ]

abbrev pub hashed : Text → FileStore → Option Text
hashed fingerprint s = get Text-discrete fingerprint s.by_hash

-- Len
abbrev pub len : FileStore → ℕ
len s = length s.by_id

-- generateID: the loop over the rounds left. `new_id i` is the answer of the i-th call of newID.
unfoldable pub generate_id : ℕ → ℕ → (ℕ → Text) → Items → Result MemoryError Text
generate_id zero i new_id items = err ids_collide
generate_id (suc n) i new_id items =
    let candidate = trim_space (new_id i) in
    let again = generate_id n (suc i) new_id items in
    elim (validate_id candidate) [
      | err e ↦ err unusable_new_id
      | ok u ↦ elim (item_at candidate items) [ none ↦ ok candidate | some item ↦ again ]
    ]

-- The branch of Save for an empty id.
unfoldable pub admit_new : FileStore → (ℕ → Text) → Memory → Result MemoryError Memory
admit_new s new_id item = elim (hashed item.fingerprint s) [
  | some existing ↦ err (duplicate_of (item_or_zero existing s.by_id))
  | none ↦ do
    guard (ltb (len s) s.max_items) store_full
    id ← generate_id 8 0 new_id s.by_id
    ok (record item { id = id })
]

-- What an update keeps of the item that is there.
abbrev pub updated : Memory → Memory → Memory
updated previous item = record item {
  id = previous.id;
  created_at = previous.created_at;
  use_count = previous.use_count;
  last_used_at = previous.last_used_at;
}

-- `exists && existingID != requestedID`
abbrev pub other_of : Text → Option Text → Option Text
other_of id none = none
other_of id (some existing) = if text_eq existing id then none else some existing

-- The branch of Save for an id; `scope` is the caller's.
unfoldable pub admit_update : FileStore → Text → Scope → Memory → Result MemoryError Memory
admit_update s id scope item = elim (item_at id s.by_id) [
  | none ↦ err not_found
  | some previous ↦
      if not (writable_by previous.scope scope)
      then err not_found
      else elim (other_of id (hashed item.fingerprint s)) [
        | some existing ↦ err (duplicate_of (item_or_zero existing s.by_id))
        | none ↦ ok (record (updated previous item) { id = id })
      ]
]

abbrev pub admit : FileStore → (ℕ → Text) → Text → Scope → Memory → Result MemoryError Memory
admit s new_id id scope item =
    if is_empty id then admit_new s new_id item else admit_update s id scope item

-- `delete(s.byHash, previous.Fingerprint)` in the branch for an id.
abbrev pub detach : Text → FileStore → FileStore
detach id s = elim (item_at id s.by_id) [
  | none ↦ s
  | some previous ↦ record s { by_hash = remove Text-discrete previous.fingerprint s.by_hash }
]

-- The hash entry that is put back when the write fails.
abbrev pub reattach : Text → FileStore → FileStore
reattach id s = elim (item_at id s.by_id) [
  | none ↦ s
  | some previous ↦ record s {
    by_hash = put Text-discrete previous.fingerprint previous.id s.by_hash;
  }
]

-- The item on disk and in the index.
abbrev pub stored : Bool → Memory → FileStore → FileStore
stored is_new item s = record s {
  by_id = put Text-discrete item.id item s.by_id;
  by_hash = put Text-discrete item.fingerprint item.id s.by_hash;
  ordered = if is_new then s.ordered ++ item.id ∷ [] else s.ordered;
  files = put Text-discrete item.id item s.files;
}

abbrev pub detach_update : Text → FileStore → FileStore
detach_update id s = if is_empty id then s else detach id s

abbrev pub reattach_update : Text → FileStore → FileStore
reattach_update id s = if is_empty id then s else reattach id s

-- Save from writeItem on, whose error is `wrote`.
unfoldable pub settle_save :
    Text → Option Text → Memory → FileStore → FileStore × Result MemoryError Memory
settle_save id wrote item s = elim wrote [
  | some e ↦ (reattach_update id (detach_update id s), err (failed e))
  | none ↦ (stored (is_empty id) item (detach_update id s), ok item)
]

-- Get
unfoldable pub get_item : FileStore → Option Text → Text → Scope → Result MemoryError Memory
get_item s ctx id scope = do
  check_context ctx
  validate_id (trim_space id)
  elim (item_at (trim_space id) s.by_id) [
    | none ↦ err not_found
    | some item ↦
        if visible_to item.scope scope.workspace_id scope.user_id then ok item else err not_found
  ]

abbrev pub selected : Query → Memory → Bool
selected query item =
    visible_to item.scope query.workspace_id query.user_id && kind_allowed item.kind query.kinds

-- The loop of List and of Search over the ids in order.
unfoldable pub select_items : Query → Items → List Text → List Memory
select_items query items [] = []
select_items query items (id ∷ ids) =
    let item = item_or_zero id items in
    let rest = select_items query items ids in if selected query item then item ∷ rest else rest

-- The order of List: the last updated first, then by id.
abbrev pub newer : Memory → Memory → Bool
newer x y =
    if not (x.updated_at == y.updated_at) then ltb y.updated_at x.updated_at else text_lt x.id y.id

-- List
unfoldable pub list_items : FileStore → Option Text → Query → Result MemoryError (List Memory)
list_items s ctx query = do
  check_context ctx
  refuse (is_empty (trim_space query.workspace_id)) no_workspace
  let items = sort_by newer (select_items query s.by_id s.ordered)
  ok (if ltb 0 query.top_k && ltb query.top_k (length items) then take query.top_k items else items)

-- removeID
unfoldable pub remove_id : List Text → Text → List Text
remove_id [] id = []
remove_id (candidate ∷ ids) id = if text_eq candidate id then ids else candidate ∷ remove_id ids id

-- Delete; `removed` is the error of os.Remove but for a file that is not there.
unfoldable pub delete_item :
    Option Text → Text → Scope → Option Text → FileStore → FileStore × Result MemoryError (Unit {0})
delete_item ctx id scope removed s =
    let trimmed = trim_space id in
    elim (check_context ctx >> validate_id trimmed) [
      | err e ↦ (s, err e)
      | ok u ↦ elim (item_at trimmed s.by_id) [
        | none ↦ (s, err not_found)
        | some item ↦
            if not (writable_by item.scope scope) then (s, err not_found) else elim removed [
              | some e ↦ (s, err (failed e))
              | none ↦ (
                record s {
                  by_id = remove Text-discrete trimmed s.by_id;
                  by_hash = remove Text-discrete item.fingerprint s.by_hash;
                  ordered = remove_id s.ordered trimmed;
                  files = remove Text-discrete trimmed s.files;
                },
                ok tt,
              )
            ]
      ]
    ]

-- The item as Touch writes it; the counter is a uint64.
abbrev pub touched : ℕ → Memory → Memory
touched now item = record item { use_count = (item.use_count + 1) % 2 ^ 64; last_used_at = now }

-- The body of Touch's loop; `wrote` is the error of writeItem.
unfoldable pub touch_one : ℕ → (Text → Option Text) → Text → FileStore → FileStore
touch_one now wrote id s = elim (item_at (trim_space id) s.by_id) [
  | none ↦ s
  | some item ↦ elim (wrote item.id) [
    | some e ↦ s
    | none ↦ record s {
      by_id = put Text-discrete item.id (touched now item) s.by_id;
      files = put Text-discrete item.id (touched now item) s.files;
    }
  ]
]

-- The errors that Touch joins.
abbrev pub touch_error : (Text → Option Text) → Text → FileStore → List Text
touch_error wrote id s = elim (item_at (trim_space id) s.by_id) [
  | none ↦ []
  | some item ↦ elim (wrote item.id) [ some e ↦ e ∷ [] | none ↦ [] ]
]

unfoldable pub touch_all :
    ℕ → List (Text × (Text → Option Text)) → FileStore → FileStore × List Text
touch_all now [] s = (s, [])
touch_all now ((id, wrote) ∷ ids) s =
    let (s', errors) = touch_all now ids (touch_one now wrote id s) in
    (s', touch_error wrote id s ++ errors)

-- Touch; each id comes with what writing its item answers at that moment, `clock` is s.now.
unfoldable pub touch :
    Option Text → List (Text × (Text → Option Text)) → ℕ → ℕ → FileStore → FileStore × List Text
touch ctx ids now clock s = elim ctx [
  | some e ↦ (s, e ∷ [])
  | none ↦ touch_all (if now == 0 then clock else now) ids s
]

module _ (u : Unicode) (sanitizer : Sanitizer) where
  -- Save up to writeItem: the item that is to be written.
  unfoldable pub admit_item :
      Option Text → ℕ → (ℕ → Text) → Memory → FileStore → Result MemoryError Memory
  admit_item ctx now new_id item s = do
    check_context ctx
    made ← normalize_memory u sanitizer s.max_bytes now item
    admit s new_id (trim_space item.id) item.scope made

  -- Save
  unfoldable pub save_item :
      Option Text
      → ℕ
      → (ℕ → Text)
      → Option Text
      → Memory
      → FileStore
      → FileStore × Result MemoryError Memory
  save_item ctx now new_id wrote item s = elim (admit_item ctx now new_id item s) [
    | err e ↦ (s, err e)
    | ok made ↦ settle_save (trim_space item.id) wrote made s
  ]
