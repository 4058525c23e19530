-- ===== src/Modeling/Store/Access.antt =====
-- Who sees which project, and the order of a listing.
use qemu_agent.Common.{
  ◌≤◌, List, [], ◌∷◌, ◌≡◌, ◌⊎◌, inl, inr, Option, some, true, false, All, All-take, Pairs,
  Pairs-take, length-take-le, arith, ok, length, take, Option-cases, Bool-cases, ltb, ◌&&◌,
}
use qemu_agent.Common.Assoc.{remove, get-remove}
use qemu_agent.Text.{Text, Text-discrete, trim_space, is_empty}
use qemu_agent.Text.Order.{text_lt_asymm, text_lt_chain}
use qemu_agent.Modeling.Types.{Error}
use qemu_agent.Modeling.Project.{Project}
use qemu_agent.Modeling.Store.{
  Scope, Query, Store, Index, indexed, visible_to, get_project, list_projects, select, selected,
  insert_project, sort_projects, listed_before,
}

-- The store without the project `id`.
abbrev pub without : Text → Store → Store
without id s = record s { by_id = remove Text-discrete id s.by_id }

-- Get answers a project that the scope does not see exactly as one that does not exist.
pub get_project-hidden :
    (s : Store) (ctx : Option Error) (id : Text) (scope : Scope) (p : Project)
    → indexed (trim_space id) s ≡ some p
    → visible_to p scope ≡ false
    → get_project s ctx id scope ≡ get_project (without (trim_space id) s) ctx id scope
unfolding get_project
get_project-hidden s ctx id scope p found hidden =
    ground (arith, get-remove Text-discrete (trim_space id) (trim_space id) s.by_id)

-- What Get returns is stored and visible: the scope names the project's workspace and, if it has an
-- owner, the owner; neither name is empty.
pub get_project-visible :
    (s : Store) (ctx : Option Error) (id : Text) (scope : Scope) (p : Project)
    → get_project s ctx id scope ≡ ok p
    → (indexed (trim_space id) s ≡ some p)
      × (scope.workspace_id ≡ p.workspace_id)
      × (is_empty scope.workspace_id ≡ false)
      × ((p.user_id ≡ []) ⊎ (scope.user_id ≡ p.user_id))
unfolding get_project visible_to
get_project-visible s ctx id scope p h = elim (Option-cases (indexed (trim_space id) s)) [
  | inl missing ↦ absurd (ground arith)
  | inr (q, found) ↦ (ground arith, ground arith, ground arith, ground arith)
]

select-selected : (q : Query) (m : Index) → All (λ p. selected q p ≡ true) (select q m)
unfolding select
select-selected q [] = tt
select-selected q ((id, p) ∷ m) = elim (Bool-cases (selected q p)) [
  | inl chosen ↦ rw (chosen, select) (chosen, select-selected q m)
  | inr passed ↦ rw (passed, select) (select-selected q m)
]

All-insert_project :
    (P : Project → Type 0) (p : Project) (ps : List Project)
    → P p
    → All P ps
    → All P (insert_project p ps)
unfolding insert_project
All-insert_project P p [] h k = (h, tt)
All-insert_project P p (q ∷ qs) h k = ground (arith, All-insert_project P p qs h k.1)

All-sort_projects : (P : Project → Type 0) (ps : List Project) → All P ps → All P (sort_projects ps)
unfolding sort_projects
All-sort_projects P [] h = tt
All-sort_projects P (p ∷ ps) h =
    All-insert_project P p (sort_projects ps) h.0 (All-sort_projects P ps h.1)

-- `p` may stand before `q`.
abbrev pub Ordered : Project → Project → Type 0
Ordered p q = listed_before q p ≡ false

listed_before_asymm : (p q : Project) → listed_before p q ≡ true → Ordered p q
listed_before_asymm p q h = ground (arith, text_lt_asymm p.id q.id)

Ordered-trans : (p q r : Project) → Ordered p q → Ordered q r → Ordered p r
Ordered-trans p q r h k = ground (arith, text_lt_chain p.id q.id r.id)

Ordered-All :
    (p q : Project) (rs : List Project) → Ordered p q → All (Ordered q) rs → All (Ordered p) rs
Ordered-All p q [] h k = tt
Ordered-All p q (r ∷ rs) h k = (Ordered-trans p q r h k.0, Ordered-All p q rs h k.1)

insert_project-Ordered :
    (p : Project) (ps : List Project) → Pairs Ordered ps → Pairs Ordered (insert_project p ps)
unfolding insert_project
insert_project-Ordered p [] h = (tt, tt)
insert_project-Ordered p (q ∷ qs) h = elim (Bool-cases (listed_before q p)) [
  | inl later ↦
      rw (later, insert_project)
        (
          All-insert_project (Ordered q) p qs (listed_before_asymm q p later) h.0,
          insert_project-Ordered p qs h.1,
        )
  | inr first ↦ rw (first, insert_project) ((first, Ordered-All p q qs first h.0), h)
]

sort_projects-Ordered : (ps : List Project) → Pairs Ordered (sort_projects ps)
unfolding sort_projects
sort_projects-Ordered [] = tt
sort_projects-Ordered (p ∷ ps) =
    insert_project-Ordered p (sort_projects ps) (sort_projects-Ordered ps)

-- What is wanted of a listing: only projects that the query selects, which its scope sees, ordered
-- by last update and then by id, and no more than the limit if there is one.
pub record IsListing (q : Query) (ps : List Project) : Type 0 where
  pub chosen : All (λ p. selected q p ≡ true) ps
  pub ordered : Pairs Ordered ps
  pub limited : (q.limit ≡ 0) ⊎ (length ps ≤ q.limit)

-- A List that succeeds returns only projects that the query selects and its scope sees, ordered by
-- last update and then by id, and no more than the limit if there is one.
pub list_projects-IsListing :
    (s : Store) (ctx : Option Error) (q : Query) (ps : List Project)
    → list_projects s ctx q ≡ ok ps
    → IsListing q ps
unfolding list_projects
list_projects-IsListing s ctx q ps h =
    let all = sort_projects (select q s.by_id) in
    let chosen =
      All-sort_projects (λ p. selected q p ≡ true) (select q s.by_id) (select-selected q s.by_id) in
    let ordered = sort_projects-Ordered (select q s.by_id) in
    elim (Bool-cases (ltb 0 q.limit && ltb q.limit (length all))) [
      | inl cut ↦
          let same : ps ≡ take q.limit all = ground arith in
          rw same (record {
            chosen = All-take (λ p. selected q p ≡ true) q.limit all chosen;
            ordered = Pairs-take Ordered q.limit all ordered;
            limited = inr (length-take-le q.limit all);
          })
      | inr whole ↦
          let same : ps ≡ all = ground arith in
          rw same (record { chosen = chosen; ordered = ordered; limited = ground arith })
    ]
