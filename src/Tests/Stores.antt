-- ===== src/Tests/Stores.antt =====
-- Instances of the theorems on the project store.
use qemu_agent.Common.{ℕ, [], ◌∷◌, ◌≡◌, ◌≢◌, refl, none, some, true, false, ok}
use qemu_agent.Text.{Text, Text-discrete, codes, trim_space}
use qemu_agent.Modeling.Types.{running, next_int}
use qemu_agent.Modeling.Project.{Project}
use qemu_agent.Modeling.Store.{
  Store, Scope, Query, indexed, stored, visible_to, create, get_project, save, delete_project,
  list_projects, DirEntry, Index,
}
use qemu_agent.Modeling.Store.Safe.{save-advances, save-once}
use mathlib.Core.Logic.{ite}
use qemu_agent.Tests.Samples.{computes, timer_id, team, ann, created, planning}

abbrev no_projects : Store
no_projects = record { max = 2; by_id = []; files = [] }

abbrev one_project : Store
one_project = stored no_projects created

abbrev ids : ℕ → Text
ids i = timer_id

creates_ok :
    create no_projects none (codes " timer ") team ann 100 ids true ≡ ok (one_project, created)
unfolding computes
creates_ok = refl

abbrev started : Project
started = record planning { revision = next_int created.revision }

abbrev started_store : Store
started_store = stored one_project started

saves_ok : save one_project none started true ≡ ok (started_store, started)
unfolding computes
saves_ok = refl

save-advances_example :
    (started ≡ started)
    × ((old : Project) × (indexed timer_id one_project ≡ some old)
        × (started.revision ≡ next_int old.revision))
    × ((id : Text)
        → indexed id started_store
          ≡ ite (Text-discrete timer_id id) (some started) (indexed id one_project))
save-advances_example = save-advances one_project started_store none started started true saves_ok

abbrev rival : Project
rival = record started { title = codes "other timer" }

save-once_example : save started_store none rival true ≢ ok (stored started_store rival, rival)
save-once_example =
    save-once one_project started_store (stored started_store rival) none none started rival started
      rival true true saves_ok refl refl

abbrev team_scope : Scope
team_scope = record { workspace_id = team; user_id = ann }

deletes_ok :
    delete_project started_store none timer_id team_scope true
    ≡ ok (record { max = 2; by_id = []; files = [] })
unfolding computes
deletes_ok = refl

abbrev entry : DirEntry
entry = record { name = codes "mp-0123456789abcdef.json"; is_dir = false }

abbrev stray : DirEntry
stray = record { name = codes "mp-copy.json"; is_dir = false }

-- A directory with the file of a project, and a copy of it under another name.
abbrev disk : Index
disk = (timer_id, created) ∷ (codes "mp-copy", created) ∷ []

abbrev opened : Store
opened = record { max = 2; by_id = (timer_id, created) ∷ []; files = disk }

abbrev left : Store
left = record { max = 2; by_id = []; files = (codes "mp-copy", created) ∷ [] }

abbrev other_scope : Scope
other_scope = record { workspace_id = team; user_id = codes "bob" }

holds_created : indexed (trim_space timer_id) one_project ≡ some created
unfolding computes
holds_created = refl

hides_created : visible_to created other_scope ≡ false
unfolding computes
hides_created = refl

gets_ok : get_project one_project none timer_id team_scope ≡ ok created
unfolding computes
gets_ok = refl

abbrev query : Query
query = record {
  workspace_id = team;
  user_id = ann;
  stage = none;
  status = some running;
  limit = 1;
}

lists_ok : list_projects started_store none query ≡ ok (started ∷ [])
unfolding computes
lists_ok = refl
