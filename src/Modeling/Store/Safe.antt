-- ===== src/Modeling/Store/Safe.antt =====
-- What the store keeps true of its index and files, and what Save promises to two writers.
use mathlib.Core.Logic.{ite}
use qemu_agent.Common.{
  ℕ, zero, suc, ◌≤◌, ◌<◌, List, [], ◌∷◌, ◌≡◌, ◌≢◌, refl, inl, inr, Option, none, some, Bool, true,
  false, All, arith, ok, length, Option-cases, Bool-cases, Result-cases, is_some,
}
use qemu_agent.Common.Assoc.{
  get, put, remove, get-put, get-remove, length-put_new, All-put, All-remove,
}
use qemu_agent.Text.{trim_suffix, Text, Text-discrete, trim_space, is_empty}
use qemu_agent.Modeling.Types.{ℤ, pos, negsuc, next_int, Error}
use qemu_agent.Modeling.Project.{Project, can_replace_from, validate}
use qemu_agent.Modeling.Project.Reach.{fresh}
use qemu_agent.Modeling.Project.Valid.{validate_iff}
use qemu_agent.Modeling.Store.{
  Scope, Store, Index, indexed, stored, visible_to, generate_id, create, save, delete_project,
  DirEntry, read_project, load_entries, load_existing, candidates, json_suffix,
}

-- Every indexed project is filed under its own id and passes Validate.
abbrev pub IsIndexed : Text × Project → Type 0
IsIndexed (id, p) = (p.id ≡ id) × (validate p ≡ ok tt)

-- A well-formed store: its index holds valid projects under their ids, and each of them is on disk
-- as it stands in the index.
pub record IsStore (s : Store) : Type 0 where
  pub valid : All IsIndexed s.by_id
  pub durable :
      (id : Text) (p : Project) → indexed id s ≡ some p → get Text-discrete id s.files ≡ some p

stored-IsStore : (s : Store) (p : Project) → validate p ≡ ok tt → IsStore s → IsStore (stored s p)
stored-IsStore s p h v = record {
  valid = All-put Text-discrete IsIndexed p.id p s.by_id (refl, h) v.valid;
  durable = λ id q e. ground (
    arith,
    get-put Text-discrete p.id id p s.by_id,
    get-put Text-discrete p.id id p s.files,
    v.durable id q,
  );
}

generate_id-new :
    (n i : ℕ) (new_id : ℕ → Text) (m : Index) (id : Text)
    → generate_id n i new_id m ≡ ok id
    → get Text-discrete id m ≡ none
unfolding generate_id
generate_id-new zero i new_id m id h = cc
generate_id-new (suc n) i new_id m id h = ground (arith, generate_id-new n (suc i) new_id m id)

create-stored :
    (s t : Store) (ctx : Option Error) (title workspace_id user_id : Text) (now : ℕ)
    (new_id : ℕ → Text) (wrote : Bool) (p : Project)
    → create s ctx title workspace_id user_id now new_id wrote ≡ ok (t, p)
    → (t ≡ stored s p) × (validate p ≡ ok tt) × (length s.by_id < s.max)
unfolding create
create-stored s t ctx title workspace_id user_id now new_id wrote p h = ground arith

pub save-stored :
    (s t : Store) (ctx : Option Error) (p q : Project) (wrote : Bool)
    → save s ctx p wrote ≡ ok (t, q)
    → (t ≡ stored s p)
      × (q ≡ p)
      × (validate p ≡ ok tt)
      × ((old : Project) × (indexed p.id s ≡ some old) × (can_replace_from p old ≡ ok tt))
unfolding save
save-stored s t ctx p q wrote h = elim (Option-cases (indexed p.id s)) [
  | inl missing ↦ absurd (ground arith)
  | inr (old, found) ↦ (ground arith, ground arith, ground arith, (old, found, ground arith))
]

create-fresh :
    (s t : Store) (ctx : Option Error) (title workspace_id user_id : Text) (now : ℕ)
    (new_id : ℕ → Text) (wrote : Bool) (p : Project)
    → create s ctx title workspace_id user_id now new_id wrote ≡ ok (t, p)
    → (indexed p.id s ≡ none) × (p ≡ fresh p.id (trim_space title) workspace_id user_id now)
unfolding create
create-fresh s t ctx title workspace_id user_id now new_id wrote p h =
    elim (Result-cases (generate_id 8 0 new_id s.by_id)) [
      | inl (id, e) ↦
          let shape : p ≡ fresh id (trim_space title) workspace_id user_id now = ground arith in
          (rw shape (generate_id-new 8 0 new_id s.by_id id e), rw shape refl)
      | inr (x, e) ↦ absurd (ground arith)
    ]

-- A project that Create makes is a fresh one with the trimmed title, under an id that no project had;
-- it is stored, and the store then holds at most `max` projects.
pub create-new :
    (s t : Store) (ctx : Option Error) (title workspace_id user_id : Text) (now : ℕ)
    (new_id : ℕ → Text) (wrote : Bool) (p : Project)
    → create s ctx title workspace_id user_id now new_id wrote ≡ ok (t, p)
    → (indexed p.id s ≡ none)
      × (p ≡ fresh p.id (trim_space title) workspace_id user_id now)
      × (indexed p.id t ≡ some p)
      × (length t.by_id ≤ s.max)
create-new s t ctx title workspace_id user_id now new_id wrote p h =
    let (same, valid, room) =
      create-stored s t ctx title workspace_id user_id now new_id wrote p h in
    let (fresh_id, shape) = create-fresh s t ctx title workspace_id user_id now new_id wrote p h in
    (
      fresh_id,
      shape,
      ground (arith, get-put Text-discrete p.id p.id p s.by_id),
      ground (arith, length-put_new Text-discrete p.id p s.by_id),
    )

-- Every successful Create keeps the store well-formed.
pub create-IsStore :
    (s t : Store) (ctx : Option Error) (title workspace_id user_id : Text) (now : ℕ)
    (new_id : ℕ → Text) (wrote : Bool) (p : Project)
    → IsStore s
    → create s ctx title workspace_id user_id now new_id wrote ≡ ok (t, p)
    → IsStore t
create-IsStore s t ctx title workspace_id user_id now new_id wrote p v h =
    let (same, valid, room) =
      create-stored s t ctx title workspace_id user_id now new_id wrote p h in
    rw same (stored-IsStore s p valid v)

pub save-IsStore :
    (s t : Store) (ctx : Option Error) (p q : Project) (wrote : Bool)
    → IsStore s
    → save s ctx p wrote ≡ ok (t, q)
    → IsStore t
save-IsStore s t ctx p q wrote v h =
    let (same, _, valid, _) = save-stored s t ctx p q wrote h in
    rw same (stored-IsStore s p valid v)

removed-IsStore :
    (s : Store) (id : Text)
    → IsStore s
    → IsStore (record s {
      by_id = remove Text-discrete id s.by_id;
      files = remove Text-discrete id s.files;
    })
removed-IsStore s id v = record {
  valid = All-remove Text-discrete IsIndexed id s.by_id v.valid;
  durable = λ j q e. ground (
    arith,
    get-remove Text-discrete id j s.by_id,
    get-remove Text-discrete id j s.files,
    v.durable j q,
  );
}

pub delete_project-IsStore :
    (s t : Store) (ctx : Option Error) (id : Text) (scope : Scope) (removed : Bool)
    → IsStore s
    → delete_project s ctx id scope removed ≡ ok t
    → IsStore t
unfolding delete_project
delete_project-IsStore s t ctx id scope removed v h =
    elim (Option-cases (indexed (trim_space id) s)) [
      | inl missing ↦ absurd (ground arith)
      | inr (p, found) ↦
          let same : t ≡ record s {
            by_id = remove Text-discrete (trim_space id) s.by_id;
            files = remove Text-discrete (trim_space id) s.files;
          } =
            ground arith in
          rw same (removed-IsStore s (trim_space id) v)
    ]

-- A successful save advances the stored revision by one, stores and returns that project, and
-- changes no other.
pub save-advances :
    (s t : Store) (ctx : Option Error) (p q : Project) (wrote : Bool)
    → save s ctx p wrote ≡ ok (t, q)
    → (q ≡ p)
      × ((old : Project) × (indexed p.id s ≡ some old) × (p.revision ≡ next_int old.revision))
      × ((id : Text) → indexed id t ≡ ite (Text-discrete p.id id) (some p) (indexed id s))
unfolding can_replace_from
save-advances s t ctx p q wrote h =
    let (same, kept, _, (old, found, follows)) = save-stored s t ctx p q wrote h in
    (
      kept,
      (old, found, ground arith),
      λ id. ground (arith, get-put Text-discrete p.id id p s.by_id),
    )

next_int-moves : (n : ℤ) → n ≢ next_int n
unfolding next_int
next_int-moves (pos n) = ground arith
next_int-moves (negsuc zero) = ground arith
next_int-moves (negsuc (suc n)) = ground arith

-- After a successful save, every other save of that project at the same revision is refused.
pub save-once :
    (s t u : Store) (ctx ctx' : Option Error) (p q r x : Project) (wrote wrote' : Bool)
    → save s ctx p wrote ≡ ok (t, r)
    → q.id ≡ p.id
    → q.revision ≡ p.revision
    → save t ctx' q wrote' ≢ ok (u, x)
save-once s t u ctx ctx' p q r x wrote wrote' first same_id same_revision second =
    let (_, _, index) = save-advances s t ctx p r wrote first in
    let (_, (old, found, follows), _) = save-advances t u ctx' q x wrote' second in
    ground (arith, index q.id, next_int-moves p.revision)

-- An entry of the index that is loaded: a valid project under its id, and on disk under that name.
abbrev pub IsLoaded : Index → Text × Project → Type 0
IsLoaded disk (id, p) = IsIndexed (id, p) × (get Text-discrete id disk ≡ some p)

read_project-IsLoaded :
    (disk : Index) (e : DirEntry) (p : Project)
    → read_project disk e ≡ some p
    → IsLoaded disk (p.id, p)
unfolding read_project
read_project-IsLoaded disk e p h =
    elim (Option-cases (get Text-discrete (trim_suffix e.name json_suffix) disk)) [
      | inl missing ↦ absurd (ground arith)
      | inr (q, found) ↦ ((refl, ground arith), ground arith)
    ]

load_entries-IsLoaded :
    (disk : Index) (es : List DirEntry) (m : Index)
    → All (IsLoaded disk) m
    → All (IsLoaded disk) (load_entries disk m es)
unfolding load_entries
load_entries-IsLoaded disk [] m h = h
load_entries-IsLoaded disk (e ∷ es) m h = elim (Option-cases (read_project disk e)) [
  | inl skipped ↦ rw (skipped, load_entries) (load_entries-IsLoaded disk es m h)
  | inr (p, decoded) ↦ elim (Bool-cases (is_some (get Text-discrete p.id m))) [
    | inl twice ↦ rw (decoded, load_entries, twice) (load_entries-IsLoaded disk es m h)
    | inr once ↦
        rw (decoded, load_entries, once)
          (load_entries-IsLoaded disk es (put Text-discrete p.id p m) (
            All-put Text-discrete (IsLoaded disk) p.id p m (read_project-IsLoaded disk e p decoded)
              h))
  ]
]

-- Whatever the directory holds, the index that is rebuilt at startup has only valid projects, each
-- under its own id and on disk in the file of that name.
pub load_existing-IsLoaded :
    (disk : Index) (entries : List DirEntry) → All (IsLoaded disk) (load_existing disk entries)
unfolding load_existing
load_existing-IsLoaded disk entries = load_entries-IsLoaded disk (candidates entries) [] tt

pub IsLoaded-IsIndexed : (disk m : Index) → All (IsLoaded disk) m → All IsIndexed m
IsLoaded-IsIndexed disk [] h = tt
IsLoaded-IsIndexed disk (x ∷ m) h = (h.0.0, IsLoaded-IsIndexed disk m h.1)

placed-nonempty : (t : Text) → is_empty (trim_space t) ≡ false → is_empty t ≡ false
unfolding trim_space
placed-nonempty [] h = cc
placed-nonempty (c ∷ t) h = refl

-- Save succeeds when the stored project is the same one at the revision before.
pub save-succeeds :
    (s : Store) (p old : Project)
    → indexed p.id s ≡ some old
    → p.id ≡ old.id
    → p.workspace_id ≡ old.workspace_id
    → p.user_id ≡ old.user_id
    → p.created_at ≡ old.created_at
    → p.revision ≡ next_int old.revision
    → validate p ≡ ok tt
    → save s none p true ≡ ok (stored s p, p)
unfolding save can_replace_from visible_to
save-succeeds s p old found i w u c r v =
    let valid = (validate_iff p).0 v in ground (arith, placed-nonempty p.workspace_id valid.placed)

pub stored-indexed : (s : Store) (p : Project) → indexed p.id (stored s p) ≡ some p
stored-indexed s p = ground (arith, get-put Text-discrete p.id p.id p s.by_id)
