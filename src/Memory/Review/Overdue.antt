-- ===== src/Memory/Review/Overdue.antt =====
-- Proposals that are past their time.
use qemu_agent.Common.{ℕ, ◌≡◌, none, some, Bool, true, false, arith, ok}
use qemu_agent.Text.{Text, trim_space}
use qemu_agent.Memory.{Scope, writable_by, validate_id}
use qemu_agent.Memory.Review.{
  candidate_approved, Candidate, CandidateStore, candidate_at, is_overdue, check_resolution,
  resolved, resolve_found, resolve_candidate,
}
use qemu_agent.Memory.Review.Settled.{expire-unwritten}

-- Resolve approves a proposal that is past its time, when the write of its expiry fails and that of
-- its approval does not.
pub resolve_candidate-overdue :
    (id memory_id : Text) (scope : Scope) (now later : ℕ) (wrote : Text → Bool)
    → (s : CandidateStore) (item : Candidate) → validate_id (trim_space id) ≡ ok tt
    → candidate_at (trim_space id) s.by_id ≡ some item
    → is_overdue now item ≡ true
    → writable_by item.scope scope ≡ true
    → wrote item.id ≡ false
    → (resolve_candidate none id scope candidate_approved memory_id now later wrote true s).1
      ≡ ok (resolved candidate_approved memory_id later item)
unfolding resolve_candidate resolve_found check_resolution
resolve_candidate-overdue id memory_id scope now later wrote s item usable there late own failed =
    let still = expire-unwritten now wrote (trim_space id) item s.by_id there failed in ground arith
