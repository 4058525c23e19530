-- ===== src/Modeling/Store.antt =====
-- FileProjectStore, internal/modeling/store.go: the index in memory and the files on disk. What the
-- operating system answers is an argument: `wrote` says whether atomicWriteFile succeeded, `ctx` is
-- the error of the context. The lock makes each method one step.
pub mod Safe
pub mod Access
pub mod History
use qemu_agent.Common.{
  ℕ, zero, suc, List, [], ◌∷◌, Option, none, some, Bool, true, false, ◌||◌, ◌&&◌, not, ltb,
  if◌then◌else◌, ◌==◌, length, take, is_some, Result, ok, err, ◌>>=◌, ◌>>◌, guard, refuse,
}
use qemu_agent.Common.Assoc.{get, put, remove}
use qemu_agent.Text.{
  Text, Text-discrete, codes, is_empty, text_eq, trim_space, has_suffix, trim_suffix, text_lt,
}
use qemu_agent.Modeling.Types.{
  Stage, stage_eq, Status, status_eq, Error, plain, wraps, err_not_found, err_capacity, empty_title,
  empty_workspace, unusable_id, colliding_id, write_failed, delete_failed,
}
use qemu_agent.Modeling.Names.{validate_project_id}
use qemu_agent.Modeling.Project.{Project, can_replace_from, validate}
use qemu_agent.Modeling.Project.Reach.{fresh}

pub record Scope : Type 0 where
  pub workspace_id : Text
  pub user_id : Text

-- Query; an absent filter is Go's empty value, and so is a limit of 0.
pub record Query : Type 0 where
  pub workspace_id : Text
  pub user_id : Text
  pub stage : Option Stage
  pub status : Option Status
  pub limit : ℕ

abbrev pub Index : Type 0
Index = List (Text × Project)

-- `files` holds the projects that the files on disk decode to, by the stem of the file's name.
pub record Store : Type 0 where
  pub max : ℕ
  pub by_id : Index
  pub files : Index

abbrev pub indexed : Text → Store → Option Project
indexed id s = get Text-discrete id s.by_id

-- The error of a project that is not there, or not visible.
abbrev pub not_found : Error
not_found = wraps (err_not_found ∷ [])

-- `if err := ctx.Err(); err != nil { return err }`
abbrev pub check_context : Option Error → Result Error (Unit {0})
check_context none = ok tt
check_context (some e) = err e

-- visibleTo
unfoldable pub visible_to : Project → Scope → Bool
visible_to p scope =
    if is_empty p.workspace_id
      || is_empty scope.workspace_id
      || not (text_eq p.workspace_id scope.workspace_id)
    then false
    else if is_empty p.user_id
    then true
    else not (is_empty scope.user_id) && text_eq p.user_id scope.user_id

-- generateID: the loop over the rounds left. `new_id i` is the answer of the i-th call of NewID.
unfoldable pub generate_id : ℕ → ℕ → (ℕ → Text) → Index → Result Error Text
generate_id zero i new_id m = err (plain colliding_id)
generate_id (suc n) i new_id m =
    let candidate = trim_space (new_id i) in
    let again = generate_id n (suc i) new_id m in
    elim (validate_project_id candidate) [
      | err e ↦ err (plain unusable_id)
      | ok u ↦ elim (get Text-discrete candidate m) [ none ↦ ok candidate | some p ↦ again ]
    ]

-- writeProject and the update of the index.
abbrev pub stored : Store → Project → Store
stored s p = record s {
  by_id = put Text-discrete p.id p s.by_id;
  files = put Text-discrete p.id p s.files;
}

-- Create
unfoldable pub create :
    Store
    → Option Error
    → Text
    → Text
    → Text
    → ℕ
    → (ℕ → Text)
    → Bool
    → Result Error (Store × Project)
create s ctx title workspace_id user_id now new_id wrote = do
  check_context ctx
  refuse (is_empty (trim_space title)) (plain empty_title)
  refuse (is_empty (trim_space workspace_id)) (plain empty_workspace)
  guard (ltb (length s.by_id) s.max) (wraps (err_capacity ∷ []))
  id ← generate_id 8 0 new_id s.by_id
  let p = fresh id (trim_space title) workspace_id user_id now
  validate p
  guard wrote (plain write_failed)
  ok (stored s p, p)

-- Get
unfoldable pub get_project : Store → Option Error → Text → Scope → Result Error Project
get_project s ctx id scope = do
  check_context ctx
  let trimmed = trim_space id
  validate_project_id trimmed
  elim (indexed trimmed s) [
    | none ↦ err not_found
    | some p ↦ if visible_to p scope then ok p else err not_found
  ]

abbrev pub is_stage : Option Stage → Stage → Bool
is_stage none s = true
is_stage (some t) s = stage_eq s t

abbrev pub is_status : Option Status → Status → Bool
is_status none s = true
is_status (some t) s = status_eq s t

-- The scope of a query.
abbrev pub query_scope : Query → Scope
query_scope q = record { workspace_id = q.workspace_id; user_id = q.user_id }

-- The tests of List's loop.
abbrev pub selected : Query → Project → Bool
selected q p =
    visible_to p (query_scope q) && is_stage q.stage p.current && is_status q.status p.status

unfoldable pub select : Query → Index → List Project
select q [] = []
select q ((id, p) ∷ m) = let rest = select q m in if selected q p then p ∷ rest else rest

-- The order of List: newest update first, then by id.
abbrev pub listed_before : Project → Project → Bool
listed_before p q =
    if not (p.updated_at == q.updated_at) then ltb q.updated_at p.updated_at else text_lt p.id q.id

-- sort.SliceStable by that order.
unfoldable pub insert_project : Project → List Project → List Project
insert_project p [] = p ∷ []
insert_project p (q ∷ qs) = if listed_before q p then q ∷ insert_project p qs else p ∷ q ∷ qs

unfoldable pub sort_projects : List Project → List Project
sort_projects [] = []
sort_projects (p ∷ ps) = insert_project p (sort_projects ps)

-- List
unfoldable pub list_projects : Store → Option Error → Query → Result Error (List Project)
list_projects s ctx q = do
  check_context ctx
  refuse (is_empty (trim_space q.workspace_id)) (plain empty_workspace)
  let projects = sort_projects (select q s.by_id)
  ok (if ltb 0 q.limit && ltb q.limit (length projects) then take q.limit projects else projects)

-- The scope that Save looks its predecessor up by.
abbrev pub own_scope : Project → Scope
own_scope p = record { workspace_id = p.workspace_id; user_id = p.user_id }

-- Save
unfoldable pub save : Store → Option Error → Project → Bool → Result Error (Store × Project)
save s ctx p wrote = do
  check_context ctx
  validate p
  elim (indexed p.id s) [
    | none ↦ err not_found
    | some previous ↦
        if visible_to previous (own_scope p)
        then (do can_replace_from p previous; guard wrote (plain write_failed); ok (stored s p, p))
        else err not_found
  ]

-- Delete; `removed` says that os.Remove succeeded or found no file.
unfoldable pub delete_project : Store → Option Error → Text → Scope → Bool → Result Error Store
delete_project s ctx id scope removed = do
  check_context ctx
  let trimmed = trim_space id
  validate_project_id trimmed
  elim (indexed trimmed s) [
    | none ↦ err not_found
    | some p ↦
        if visible_to p scope
        then (do
          guard removed (plain delete_failed)
          ok (record s {
            by_id = remove Text-discrete trimmed s.by_id;
            files = remove Text-discrete trimmed s.files;
          }))
        else err not_found
  ]

-- An entry of the directory.
pub record DirEntry : Type 0 where
  pub name : Text
  pub is_dir : Bool

abbrev pub json_suffix : Text
json_suffix = codes ".json"

-- readProject, of the files on disk that can be read and decoded.
unfoldable pub read_project : Index → DirEntry → Option Project
read_project disk e =
    let stem = trim_suffix e.name json_suffix in
    elim (get Text-discrete stem disk) [
      | none ↦ none
      | some p ↦
          if text_eq p.id stem then (elim (validate p) [ ok u ↦ some p | err x ↦ none ]) else none
    ]

-- `sort.Strings(names)`, on the entries.
unfoldable pub insert_entry : DirEntry → List DirEntry → List DirEntry
insert_entry e [] = e ∷ []
insert_entry e (f ∷ fs) = if text_lt f.name e.name then f ∷ insert_entry e fs else e ∷ f ∷ fs

unfoldable pub candidates : List DirEntry → List DirEntry
candidates [] = []
candidates (e ∷ es) =
    let rest = candidates es in
    if e.is_dir || not (has_suffix e.name json_suffix) then rest else insert_entry e rest

-- The loop of loadExisting.
unfoldable pub load_entries : Index → Index → List DirEntry → Index
load_entries disk m [] = m
load_entries disk m (e ∷ es) =
    load_entries disk
      (elim (read_project disk e) [
        | none ↦ m
        | some p ↦ if is_some (get Text-discrete p.id m) then m else put Text-discrete p.id p m
      ])
      es

-- loadExisting
unfoldable pub load_existing : Index → List DirEntry → Index
load_existing disk entries = load_entries disk [] (candidates entries)
