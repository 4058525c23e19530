-- ===== src/Memory/Approval.antt =====
-- approveCandidate and rejectCandidate of internal/app/commands_knowledge.go: a proposal is saved as
-- a memory first and marked afterwards. The text of a reply is what it tells, as a value; the two
-- stores lie side by side.
pub mod Stored
use qemu_agent.Common.{
  ℕ, List, [], ◌∷◌, Option, none, some, Bool, true, false, not, if◌then◌else◌, Result, ok, err, ◌≡◌,
  refl, sym, subst, arith, Result-cases, Option-cases, ◌⊎◌, inl, inr, is_ok,
}
use qemu_agent.Text.{Text, codes, is_empty, trim_space}
use qemu_agent.Memory.{
  Scope, Memory, MemoryError, not_found, duplicate_of, unsafe_content, sensitive_content,
  prompt_control, visibility_private,
}
use qemu_agent.Memory.Words.{Unicode}
use qemu_agent.Memory.Items.{Sanitizer}
use qemu_agent.Memory.Index.{FileStore, no_memory, item_at, save_item}
use qemu_agent.Memory.Review.{
  CandidateStatus, candidate_approved, candidate_rejected, candidate_expired, Candidate,
  CandidateStore, CandidateError, of_memory, resolved_already, get_candidate, resolve_candidate,
}

-- The replies and the errors of the two commands.
pub data Approval : Type 0 where
  approved_already : Text → Text → Approval
  approved_as : Text → Text → Approval
  rejected : Text → Approval

pub data CommandError : Type 0 where
  does_not_exist : CommandError
  was_rejected : CommandError
  was_expired : CommandError
  not_safe_to_keep : CommandError
  already_resolved : CommandError
  of_get : CandidateError → CommandError
  of_save : MemoryError → CommandError
  of_resolve : CandidateError → CommandError

pub record Knowledge : Type 0 where
  pub memories : FileStore
  pub candidates : CandidateStore

-- The caller of a command.
pub record Caller : Type 0 where
  pub workspace_id : Text
  pub user_id : Text

-- What the clocks, the id generator and the file system answer during a command.
pub record Answers : Type 0 where
  pub get_now : ℕ
  pub get_wrote : Text → Bool
  pub save_now : ℕ
  pub new_id : ℕ → Text
  pub save_wrote : Option Text
  pub resolve_now : ℕ
  pub resolve_later : ℕ
  pub resolve_wrote : Text → Bool
  pub resolve_written : Bool

-- readScope
abbrev pub read_scope : Caller → Scope
read_scope cc = record {
  workspace_id = cc.workspace_id;
  user_id = cc.user_id;
  visibility = visibility_private;
}

-- notFoundOr
abbrev pub not_found_or : CandidateError → CommandError
not_found_or (of_memory not_found) = does_not_exist
not_found_or e = of_get e

-- The memory that an approval saves.
abbrev pub proposed_memory : Candidate → Memory
proposed_memory candidate = record no_memory {
  kind = candidate.kind;
  scope = candidate.scope;
  content = candidate.content;
  source = codes "approved-candidate";
}

-- The switch on the error of Save: the memory to name, or the error of the command.
unfoldable pub settle_saved : Result MemoryError Memory → Result CommandError Memory
settle_saved (ok saved) = ok saved
settle_saved (err (duplicate_of existing)) = ok existing
settle_saved (err (unsafe_content sensitive_content)) = err not_safe_to_keep
settle_saved (err (unsafe_content prompt_control)) = err not_safe_to_keep
settle_saved (err e) = err (of_save e)

module _ (u : Unicode) (sanitizer : Sanitizer) (ctx : Option Text) (cc : Caller) where
  -- approveCandidate from Resolve on.
  unfoldable pub mark_approved :
      Answers → Text → Memory → Knowledge → Knowledge × Result CommandError Approval
  mark_approved answers id saved k =
      let (candidates, resolved) =
        resolve_candidate ctx id (read_scope cc) candidate_approved saved.id answers.resolve_now
          answers.resolve_later answers.resolve_wrote answers.resolve_written k.candidates in
      (
        record k { candidates = candidates },
        elim resolved [ err e ↦ err (of_resolve e) | ok item ↦ ok (approved_as id saved.id) ],
      )

  -- approveCandidate from Save on.
  unfoldable pub save_approved :
      Answers → Candidate → Knowledge → Knowledge × Result CommandError Approval
  save_approved answers candidate k =
      let (memories, saved) =
        save_item u sanitizer ctx answers.save_now answers.new_id answers.save_wrote
          (proposed_memory candidate) k.memories in
      let k' = record k { memories = memories } in
      elim (settle_saved saved) [
        | err e ↦ (k', err e)
        | ok memory ↦ mark_approved answers candidate.id memory k'
      ]

  -- The switch on the status of the proposal.
  unfoldable pub approve_found :
      Answers → Candidate → Knowledge → Knowledge × Result CommandError Approval
  approve_found answers candidate k = elim candidate.status [
    | candidate_approved ↦ (k, ok (approved_already candidate.id candidate.memory_id))
    | candidate_rejected ↦ (k, err was_rejected)
    | candidate_expired ↦ (k, err was_expired)
    | _ ↦ save_approved answers candidate k
  ]

  -- approveCandidate
  unfoldable pub approve_candidate :
      Answers → Text → Knowledge → Knowledge × Result CommandError Approval
  approve_candidate answers id k =
      let (candidates, got) =
        get_candidate ctx id (read_scope cc) answers.get_now answers.get_wrote k.candidates in
      let k' = record k { candidates = candidates } in
      elim got [
        | err e ↦ (k', err (not_found_or e))
        | ok candidate ↦ approve_found answers candidate k'
      ]

  -- The error of rejectCandidate; `item` of an answer that comes with the error is the one resolved
  -- before.
  unfoldable pub reject_error : CandidateError → CommandError
  reject_error (of_memory not_found) = does_not_exist
  reject_error (resolved_already item) =
      if is_empty item.id then of_resolve (resolved_already item) else already_resolved
  reject_error e = of_resolve e

  -- rejectCandidate
  unfoldable pub reject_candidate :
      Answers → Text → Knowledge → Knowledge × Result CommandError Approval
  reject_candidate answers id k =
      let (candidates, resolved) =
        resolve_candidate ctx id (read_scope cc) candidate_rejected [] answers.resolve_now
          answers.resolve_later answers.resolve_wrote answers.resolve_written k.candidates in
      (
        record k { candidates = candidates },
        elim resolved [ err e ↦ err (reject_error e) | ok item ↦ ok (rejected item.id) ],
      )
