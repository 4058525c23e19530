-- ===== src/Memory/Approval/Stored.antt =====
-- The two stores after an approval.
use qemu_agent.Common.{◌≡◌, ◌∙◌, sym, inl, inr, Option, some, arith, ok, Result-cases}
use qemu_agent.Text.{Text, trim_space}
use qemu_agent.Memory.{Memory, duplicate_of}
use qemu_agent.Memory.Words.{Unicode}
use qemu_agent.Memory.Items.{Sanitizer}
use qemu_agent.Memory.Index.{FileStore, item_at, save_item}
use qemu_agent.Memory.Index.Sound.{IsStore}
use qemu_agent.Memory.Index.Saved.{save_item-saved, save_item-refused}
use qemu_agent.Memory.Index.Duplicate.{save_item-known}
use qemu_agent.Memory.Review.{
  candidate_approved, Candidate, candidate_at, get_candidate, resolve_candidate,
}
use qemu_agent.Memory.Review.Settled.{Filed, get_candidate-Keeps}
use qemu_agent.Memory.Review.Reached.{resolve_candidate-stores}
use qemu_agent.Memory.Approval.{
  approved_as, Knowledge, Caller, Answers, read_scope, proposed_memory, settle_saved, mark_approved,
  save_approved, approve_found, approve_candidate,
}

module _ (u : Unicode) (sanitizer : Sanitizer) (ctx : Option Text) (cc : Caller) where
  -- After a Save whose error does not stop the command, the memory it names is stored.
  settle_saved-known :
      (answers : Answers) (item : Memory) (s : FileStore) (m : Memory)
      → IsStore s
      → let saved =
          save_item u sanitizer ctx answers.save_now answers.new_id answers.save_wrote item s in
        settle_saved saved.1 ≡ ok m → item_at m.id saved.0.by_id ≡ some m
  unfolding settle_saved
  settle_saved-known answers item s m h told =
      let saved =
        save_item u sanitizer ctx answers.save_now answers.new_id answers.save_wrote item s in
      elim (Result-cases saved.1) [
        | inl (made, fine) ↦
            let (may, here, file, rest) =
              save_item-saved u sanitizer ctx answers.save_now answers.new_id answers.save_wrote
                item s made fine h in
            ground arith
        | inr (duplicate_of existing, refused) ↦
            let same =
              save_item-refused u sanitizer ctx answers.save_now answers.new_id answers.save_wrote
                item s h (duplicate_of existing) refused in
            let known =
              save_item-known u sanitizer ctx answers.save_now answers.new_id answers.save_wrote
                item existing s h refused in
            ground (arith, same.same_items)
        | inr (e, refused) ↦ absurd (ground arith)
      ]

  -- What an approval leaves: the memory it names is stored, and the proposal is approved as it.
  pub record IsApproved (id memory_id : Text) (k : Knowledge) : Type 0 where
    pub memory : Memory
    pub known : item_at memory.id k.memories.by_id ≡ some memory
    pub named : memory.id ≡ memory_id
    pub candidate : Candidate
    pub filed : candidate_at (trim_space id) k.candidates.by_id ≡ some candidate
    pub marked : candidate.status ≡ candidate_approved
    pub linked : candidate.memory_id ≡ memory_id

  mark_approved-IsApproved :
      (answers : Answers) (id : Text) (m : Memory) (k k' : Knowledge) (cid mid : Text)
      → Filed k.candidates.by_id
      → item_at m.id k.memories.by_id ≡ some m
      → mark_approved u sanitizer ctx cc answers id m k ≡ (k', ok (approved_as cid mid))
      → IsApproved cid mid k'
  unfolding mark_approved
  mark_approved-IsApproved answers id m k k' cid mid f known h =
      let r =
        resolve_candidate ctx id (read_scope cc) candidate_approved m.id answers.resolve_now
          answers.resolve_later answers.resolve_wrote answers.resolve_written k.candidates in
      elim (Result-cases r.1) [
        | inr (e, refused) ↦ absurd (ground arith)
        | inl (item, fine) ↦
            let same_id : cid ≡ id = ground arith in
            let same_memory : mid ≡ m.id = ground arith in
            let same_k : k' ≡ record k { candidates = r.0 } = ground arith in
            let (there, marked, linked, final) =
              resolve_candidate-stores u sanitizer ctx id (read_scope cc) candidate_approved m.id
                answers.resolve_now answers.resolve_later answers.resolve_wrote
                answers.resolve_written k.candidates r.0 item f (ground arith) in
            record {
              memory = m;
              known = ground arith;
              named = sym same_memory;
              candidate = item;
              filed = ground arith;
              marked = marked;
              linked = linked ∙ sym same_memory;
            }
      ]

  save_approved-IsApproved :
      (answers : Answers) (item : Candidate) (k k' : Knowledge) (cid mid : Text)
      → IsStore k.memories
      → Filed k.candidates.by_id
      → save_approved u sanitizer ctx cc answers item k ≡ (k', ok (approved_as cid mid))
      → IsApproved cid mid k'
  unfolding save_approved
  save_approved-IsApproved answers item k k' cid mid whole f h =
      let saved =
        save_item u sanitizer ctx answers.save_now answers.new_id answers.save_wrote
          (proposed_memory item) k.memories in
      elim (Result-cases (settle_saved saved.1)) [
        | inr (e, stopped) ↦ absurd (ground arith)
        | inl (m, told) ↦
            mark_approved-IsApproved answers item.id m (record k { memories = saved.0 }) k' cid mid
              f (settle_saved-known answers (proposed_memory item) k.memories m whole told)
              (ground arith)
      ]

  -- An approval that says as which memory it approved a proposal has that memory in the store, saved
  -- by it or there before, and the proposal is approved as that memory, when the index of memories is
  -- consistent and the proposals stand under their ids.
  pub approve_candidate-IsApproved :
      (answers : Answers) (id : Text) (k k' : Knowledge) (cid mid : Text)
      → IsStore k.memories
      → Filed k.candidates.by_id
      → approve_candidate u sanitizer ctx cc answers id k ≡ (k', ok (approved_as cid mid))
      → IsApproved cid mid k'
  unfolding approve_candidate approve_found
  approve_candidate-IsApproved answers id k k' cid mid whole f h =
      let r = get_candidate ctx id (read_scope cc) answers.get_now answers.get_wrote k.candidates in
      let kept =
        get_candidate-Keeps ctx id (read_scope cc) answers.get_now answers.get_wrote k.candidates in
      elim (Result-cases r.1) [
        | inr (e, missing) ↦ absurd (ground arith)
        | inl (item, found) ↦
            save_approved-IsApproved answers item (record k { candidates = r.0 }) k' cid mid whole
              (kept.filed f) (ground arith)
      ]
