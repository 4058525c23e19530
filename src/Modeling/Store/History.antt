-- ===== src/Modeling/Store/History.antt =====
-- The stores that a process can hold: the one it has loaded, and whatever its methods make of it.
use qemu_agent.Common.{ℕ, ◌≡◌, List, Option, Bool, ok}
use qemu_agent.Text.{Text}
use qemu_agent.Modeling.Types.{Error}
use qemu_agent.Modeling.Project.{Project}
use qemu_agent.Modeling.Store.{
  Store, Index, Scope, create, save, delete_project, DirEntry, load_existing,
}

-- The store that OpenFileProjectStore returns: the files stay as they are on disk.
abbrev pub loaded : ℕ → Index → List DirEntry → Store
loaded max disk found = record { max = max; by_id = load_existing disk found; files = disk }

-- One successful call; a call that fails leaves the store as it is.
pub data Change : Store → Store → Type 0 where
  creates :
      {s t : Store} {p : Project} (ctx : Option Error) (title workspace_id user_id : Text) (now : ℕ)
      (new_id : ℕ → Text) (wrote : Bool)
      → create s ctx title workspace_id user_id now new_id wrote ≡ ok (t, p)
      → Change s t
  saves :
      {s t : Store} {q : Project} (ctx : Option Error) (p : Project) (wrote : Bool)
      → save s ctx p wrote ≡ ok (t, q)
      → Change s t
  deletes :
      {s t : Store} (ctx : Option Error) (id : Text) (scope : Scope) (removed : Bool)
      → delete_project s ctx id scope removed ≡ ok t
      → Change s t

pub data Held : Store → Type 0 where
  loads : (max : ℕ) (disk : Index) (found : List DirEntry) → Held (loaded max disk found)
  changes : {s t : Store} → Held s → Change s t → Held t
