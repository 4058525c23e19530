-- ===== src/Memory/Reload.antt =====
-- loadExisting and readItem of internal/memory/store.go, which make the index of the files when the
-- store is opened.
pub mod Held
use qemu_agent.Common.{
  ℕ, List, [], ◌∷◌, ◌++◌, Option, none, some, Bool, true, false, ◌||◌, not, if◌then◌else◌, ltb,
  length, Result, ok, err, ◌>>=◌, ◌>>◌, guard, refuse,
}
use qemu_agent.Common.Assoc.{get, put}
use qemu_agent.Common.Sorted.{sort_by}
use qemu_agent.Text.{Text, Text-discrete, codes, text_eq, text_lt, has_suffix, trim_suffix}
use qemu_agent.Memory.{
  Memory, MemoryError, store_full, unusable_file, stored_twice, duplicate_of, validate_id,
}
use qemu_agent.Memory.Words.{Unicode}
use qemu_agent.Memory.Items.{Sanitizer, normalize_memory}
use qemu_agent.Memory.Index.{Items, FileStore, item_at, item_or_zero, hashed}

-- An entry of the directory; `decoded` is what reading and decoding its file gives.
pub record ItemFile : Type 0 where
  pub name : Text
  pub is_dir : Bool
  pub decoded : Result MemoryError Memory

abbrev pub item_suffix : Text
item_suffix = codes ".json"

-- The entries that loadExisting reads.
unfoldable pub item_files : List ItemFile → List ItemFile
item_files [] = []
item_files (entry ∷ entries) =
    let rest = item_files entries in
    if entry.is_dir || not (has_suffix entry.name item_suffix) then rest else entry ∷ rest

-- `sort.Strings(names)`, on the entries.
abbrev pub earlier_name : ItemFile → ItemFile → Bool
earlier_name x y = text_lt x.name y.name

-- The store that OpenFileStore begins with.
abbrev pub empty_store : ℕ → ℕ → Items → FileStore
empty_store max_items max_bytes files = record {
  max_items = max_items;
  max_bytes = max_bytes;
  by_id = [];
  by_hash = [];
  ordered = [];
  files = files;
}

-- The store with one more item in the index.
abbrev pub with_item : Memory → FileStore → FileStore
with_item item s = record s {
  by_id = put Text-discrete item.id item s.by_id;
  by_hash = put Text-discrete item.fingerprint item.id s.by_hash;
  ordered = s.ordered ++ item.id ∷ [];
}

module _ (u : Unicode) (sanitizer : Sanitizer) where
  -- readItem
  unfoldable pub read_item : ℕ → ItemFile → Result MemoryError Memory
  read_item max_bytes entry = do
    item ← entry.decoded
    guard (text_eq item.id (trim_suffix entry.name item_suffix)) (unusable_file entry.name)
    validate_id item.id
    made ← normalize_memory u sanitizer max_bytes item.updated_at item
    ok (record made { created_at = item.created_at; updated_at = item.updated_at })

  -- The body of loadExisting's loop.
  unfoldable pub load_item : ItemFile → FileStore → Result MemoryError FileStore
  load_item entry s = do
    item ← read_item s.max_bytes entry
    elim (item_at item.id s.by_id) [
      | some other ↦ err (stored_twice item.id)
      | none ↦ elim (hashed item.fingerprint s) [
        | some id ↦ err (duplicate_of (item_or_zero id s.by_id))
        | none ↦ ok (with_item item s)
      ]
    ]

  unfoldable pub load_items : List ItemFile → FileStore → Result MemoryError FileStore
  load_items [] s = ok s
  load_items (entry ∷ entries) s = do loaded ← load_item entry s; load_items entries loaded

  -- loadExisting
  unfoldable pub load_existing : List ItemFile → FileStore → Result MemoryError FileStore
  load_existing entries s =
      let names = sort_by earlier_name (item_files entries) in
      do refuse (ltb s.max_items (length names)) store_full; load_items names s
