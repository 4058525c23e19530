-- ===== src/Memory/Review.antt =====
-- CandidateStore, internal/memory/candidate.go: the proposals that wait for a reviewer. The lock
-- makes each method one step. `wrote` is what writing an item's file answers, none when it
-- succeeds; Go's maps have no order, and a list stands for one of them.
pub mod Settled
pub mod Reached
pub mod Overdue
use qemu_agent.Common.{
  ℕ, suc, ◌+◌, List, [], ◌∷◌, Option, none, some, Bool, true, false, ◌&&◌, ◌||◌, not, if◌then◌else◌,
  ltb, ◌==◌, length, is_some, Result, ok, err, ◌>>=◌, ◌>>◌, guard, refuse,
}
use qemu_agent.Common.Assoc.{get, put}
use qemu_agent.Common.Sorted.{sort_by}
use qemu_agent.Text.{Text, Text-discrete, text_eq, text_lt, is_empty, trim_space}
use qemu_agent.Memory.{
  Kind, Scope, MemoryError, no_workspace, not_found, too_many_bytes, parse_kind, validate_scope,
  validate_id, check_context, visible_to, writable_by,
}
use qemu_agent.Memory.Words.{Unicode, normalize_text}
use qemu_agent.Memory.Items.{Sanitizer, check_content, fingerprint}

-- A status of a file may be any text.
pub data CandidateStatus : Type 0 where
  candidate_pending : CandidateStatus
  candidate_approved : CandidateStatus
  candidate_rejected : CandidateStatus
  candidate_expired : CandidateStatus
  candidate_other : Text → CandidateStatus

pub record Candidate : Type 0 where
  pub id : Text
  pub kind : Kind
  pub scope : Scope
  pub content : Text
  pub source : Text
  pub status : CandidateStatus
  pub created_at : ℕ
  pub updated_at : ℕ
  pub expires_at : ℕ
  pub memory_id : Text

pub data CandidateError : Type 0 where
  of_memory : MemoryError → CandidateError
  proposed_already : Candidate → CandidateError
  queue_full : CandidateError
  unusable_candidate_id : CandidateError
  candidate_id_taken : CandidateError
  bad_resolution : CandidateError
  resolved_already : Candidate → CandidateError
  candidate_not_written : CandidateError

abbrev pub Proposals : Type 0
Proposals = List (Text × Candidate)

pub record CandidateStore : Type 0 where
  pub max_items : ℕ
  pub max_bytes : ℕ
  pub ttl : ℕ
  pub by_id : Proposals

abbrev pub candidate_at : Text → Proposals → Option Candidate
candidate_at id items = get Text-discrete id items

abbrev pub is_pending : CandidateStatus → Bool
is_pending candidate_pending = true
is_pending status = false

-- `item.Status != CandidatePending || now.Before(item.ExpiresAt)` is false.
abbrev pub is_overdue : ℕ → Candidate → Bool
is_overdue now item = is_pending item.status && not (ltb now item.expires_at)

-- The body of expireLocked's loop.
abbrev pub expire_one : ℕ → (Text → Bool) → Candidate → Candidate
expire_one now wrote item =
    if is_overdue now item && wrote item.id
    then record item { status = candidate_expired; updated_at = now }
    else item

-- expireLocked; `wrote id` says whether the file of the item is written.
unfoldable pub expire : ℕ → (Text → Bool) → Proposals → Proposals
expire now wrote [] = []
expire now wrote ((id, item) ∷ items) = (id, expire_one now wrote item) ∷ expire now wrote items

-- pendingCountLocked
unfoldable pub pending_count : Proposals → ℕ
pending_count [] = 0
pending_count ((id, item) ∷ items) =
    if is_pending item.status then suc (pending_count items) else pending_count items

abbrev pub with_proposals : Proposals → CandidateStore → CandidateStore
with_proposals items s = record s { by_id = items }

-- An error of the checks that candidates share with memories.
abbrev pub lift_error : {A : Type 0} → Result MemoryError A → Result CandidateError A
lift_error (ok a) = ok a
lift_error (err e) = err (of_memory e)

-- The checks that every method but Add begins with, for an id.
abbrev pub check_id : Option Text → Text → Result CandidateError (Unit {0})
check_id ctx id = lift_error (check_context ctx >> validate_id id)

-- Get
unfoldable pub get_candidate :
    Option Text
    → Text
    → Scope
    → ℕ
    → (Text → Bool)
    → CandidateStore
    → CandidateStore × Result CandidateError Candidate
get_candidate ctx id scope now wrote s = elim (check_id ctx (trim_space id)) [
  | err e ↦ (s, err e)
  | ok u ↦
      let items = expire now wrote s.by_id in
      (
        with_proposals items s,
        elim (candidate_at (trim_space id) items) [
          | none ↦ err (of_memory not_found)
          | some item ↦ if writable_by item.scope scope then ok item else err (of_memory not_found)
        ],
      )
]

abbrev pub older : Candidate → Candidate → Bool
older x y =
    if not (x.created_at == y.created_at) then ltb x.created_at y.created_at else text_lt x.id y.id

-- The loop of ListPending.
unfoldable pub select_pending : Text → Text → Proposals → List Candidate
select_pending workspace_id user_id [] = []
select_pending workspace_id user_id ((id, item) ∷ items) =
    let rest = select_pending workspace_id user_id items in
    if not (is_pending item.status) || not (visible_to item.scope workspace_id user_id)
    then rest
    else item ∷ rest

-- ListPending
unfoldable pub list_pending :
    Option Text
    → Text
    → Text
    → ℕ
    → (Text → Bool)
    → CandidateStore
    → CandidateStore × Result CandidateError (List Candidate)
list_pending ctx workspace_id user_id now wrote s =
    elim (lift_error
      (check_context ctx >> refuse (is_empty (trim_space workspace_id)) no_workspace)) [
        | err e ↦ (s, err e)
        | ok u ↦
            let items = expire now wrote s.by_id in
            (with_proposals items s, ok (sort_by older (select_pending workspace_id user_id items)))
      ]

abbrev is_resolution : CandidateStatus → Bool
is_resolution candidate_approved = true
is_resolution candidate_rejected = true
is_resolution status = false

-- The checks of Resolve before the lock.
unfoldable pub check_resolution :
    Option Text → Text → CandidateStatus → Result CandidateError (Unit {0})
check_resolution ctx id status = do
  lift_error (check_context ctx)
  guard (is_resolution status) bad_resolution
  lift_error (validate_id id)

abbrev pub resolved : CandidateStatus → Text → ℕ → Candidate → Candidate
resolved status memory_id later item = record item {
  status = status;
  memory_id = memory_id;
  updated_at = later;
}

-- Resolve after the expiry; `later` is its second reading of the clock.
unfoldable pub resolve_found :
    Text
    → Scope
    → CandidateStatus
    → Text
    → ℕ
    → Bool
    → CandidateStore
    → CandidateStore × Result CandidateError Candidate
resolve_found id scope status memory_id later written s = elim (candidate_at id s.by_id) [
  | none ↦ (s, err (of_memory not_found))
  | some item ↦
      if not (writable_by item.scope scope)
      then (s, err (of_memory not_found))
      else if not (is_pending item.status)
      then (s, err (resolved_already item))
      else if not written
      then (s, err candidate_not_written)
      else (
        with_proposals (put Text-discrete item.id (resolved status memory_id later item) s.by_id) s,
        ok (resolved status memory_id later item),
      )
]

-- Resolve
unfoldable pub resolve_candidate :
    Option Text
    → Text
    → Scope
    → CandidateStatus
    → Text
    → ℕ
    → ℕ
    → (Text → Bool)
    → Bool
    → CandidateStore
    → CandidateStore × Result CandidateError Candidate
resolve_candidate ctx id scope status memory_id now later wrote written s =
    elim (check_resolution ctx (trim_space id) status) [
      | err e ↦ (s, err e)
      | ok u ↦
          resolve_found (trim_space id) scope status memory_id later written
            (with_proposals (expire now wrote s.by_id) s)
    ]

module _ (u : Unicode) (sanitizer : Sanitizer) where
  -- The pending proposal of the same fingerprint that Add finds first.
  unfoldable pub find_same : Text → Proposals → Option Candidate
  find_same hash [] = none
  find_same hash ((id, item) ∷ items) =
      let rest = find_same hash items in
      if is_pending item.status && text_eq (fingerprint u item.scope item.kind item.content) hash
      then some item
      else rest

  -- The checks of Add before the lock, with the content.
  unfoldable pub check_proposal : Option Text → ℕ → Candidate → Result MemoryError Text
  check_proposal ctx max_bytes item = do
    check_context ctx
    kind ← parse_kind item.kind
    validate_scope item.scope
    content ← check_content sanitizer item.content
    refuse (ltb max_bytes (length content)) too_many_bytes
    ok content

  abbrev pub proposed : Candidate → Text → Text → ℕ → ℕ → Candidate
  proposed item id content now ttl = record item {
    id = id;
    content = content;
    source = normalize_text u item.source;
    status = candidate_pending;
    created_at = now;
    updated_at = now;
    expires_at = now + ttl;
  }

  -- Add after the expiry.
  unfoldable pub admit_candidate :
      Candidate → Text → ℕ → Text → Bool → CandidateStore → Result CandidateError Candidate
  admit_candidate item content now new_id written s = do
    elim (find_same (fingerprint u item.scope item.kind content) s.by_id) [
      | some existing ↦ err (proposed_already existing)
      | none ↦ ok tt
    ]
    guard (ltb (pending_count s.by_id) s.max_items) queue_full
    elim (validate_id new_id) [ err e ↦ err unusable_candidate_id | ok v ↦ ok tt ]
    refuse (is_some (candidate_at new_id s.by_id)) candidate_id_taken
    guard written candidate_not_written
    ok (proposed item new_id content now s.ttl)

  -- Add; `new_id` is the answer of newID.
  unfoldable pub add_candidate :
      Option Text
      → Candidate
      → ℕ
      → Text
      → (Text → Bool)
      → Bool
      → CandidateStore
      → CandidateStore × Result CandidateError Candidate
  add_candidate ctx item now new_id wrote written s = elim (check_proposal ctx s.max_bytes item) [
    | err e ↦ (s, err (of_memory e))
    | ok content ↦
        let expired = with_proposals (expire now wrote s.by_id) s in
        elim (admit_candidate item content now (trim_space new_id) written expired) [
          | err e ↦ (expired, err e)
          | ok made ↦
              (with_proposals (put Text-discrete made.id made expired.by_id) expired, ok made)
        ]
  ]
