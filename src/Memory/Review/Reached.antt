-- ===== src/Memory/Review/Reached.antt =====
-- The calls of the store of candidates, one after another.
use qemu_agent.Common.{
  ℕ, ◌≡◌, refl, ap, subst, inl, inr, Option, some, Bool, false, ltb, arith, ok, ◌>>◌, Result-cases,
  Option-cases, Bool-cases, refuse, is_ok,
}
use qemu_agent.Common.Assoc.{put, get-put, All-put, All-get}
use qemu_agent.Text.{Text, Text-discrete, trim_space, is_empty}
use qemu_agent.Memory.{Scope, check_context, no_workspace}
use qemu_agent.Memory.Words.{Unicode}
use qemu_agent.Memory.Items.{Sanitizer}
use qemu_agent.Memory.Review.{
  CandidateStatus, Candidate, CandidateStore, candidate_at, is_pending, expire, pending_count,
  with_proposals, get_candidate, list_pending, check_resolution, resolved, resolve_candidate,
  check_proposal, admit_candidate, add_candidate,
}
use qemu_agent.Memory.Review.Settled.{
  IsFiled, Filed, Keeps, Keeps-refl, Keeps-trans, expire-Keeps, put-pending_count,
  get_candidate-Keeps, resolve_candidate-Keeps, resolve_found-cases, with_resolved, expire-Filed,
  expire-settled,
}

list_pending-Keeps :
    (ctx : Option Text) (workspace_id user_id : Text) (now : ℕ) (wrote : Text → Bool)
    → (s : CandidateStore) → Keeps s (list_pending ctx workspace_id user_id now wrote s).0
unfolding list_pending
list_pending-Keeps ctx workspace_id user_id now wrote s =
    elim (Result-cases
      (check_context ctx >> refuse (is_empty (trim_space workspace_id)) no_workspace)) [
        | inr (e, bad) ↦ rw (bad, list_pending) (Keeps-refl s)
        | inl (checked, fine) ↦ rw (fine, list_pending) (expire-Keeps now wrote s)
      ]

module _ (u : Unicode) (sanitizer : Sanitizer) where
  admit_candidate-Keeps :
      (item : Candidate) (content : Text) (now : ℕ) (new_id : Text) (written : Bool)
      → (s : CandidateStore) (made : Candidate)
      → admit_candidate u sanitizer item content now new_id written s ≡ ok made
      → Keeps s (with_proposals (put Text-discrete made.id made s.by_id) s)
  unfolding admit_candidate
  admit_candidate-Keeps item content now new_id written s made h =
      elim (Bool-cases (ltb (pending_count s.by_id) s.max_items)) [
        | inr full ↦ absurd (ground arith)
        | inl room ↦ elim (Option-cases (candidate_at made.id s.by_id)) [
          | inr (other, taken) ↦ absurd (ground arith)
          | inl unused ↦ record {
            filed = λ f. All-put Text-discrete IsFiled made.id made s.by_id refl f;
            bounded = λ b. ground (arith, put-pending_count made.id made s.by_id);
            settled = λ f id other there closed.
                ground (arith, get-put Text-discrete made.id id made s.by_id);
          }
        ]
      ]

  add_candidate-Keeps :
      (ctx : Option Text) (item : Candidate) (now : ℕ) (new_id : Text) (wrote : Text → Bool)
      → (written : Bool) (s : CandidateStore)
      → Keeps s (add_candidate u sanitizer ctx item now new_id wrote written s).0
  unfolding add_candidate
  add_candidate-Keeps ctx item now new_id wrote written s =
      let expired = with_proposals (expire now wrote s.by_id) s in
      elim (Result-cases (check_proposal u sanitizer ctx s.max_bytes item)) [
        | inr (e, bad) ↦ rw (bad, add_candidate) (Keeps-refl s)
        | inl (content, fine) ↦
            elim (Result-cases
              (admit_candidate u sanitizer item content now (trim_space new_id) written expired)) [
                | inr (e, refused) ↦
                    rw (fine, add_candidate) (rw refused (expire-Keeps now wrote s))
                | inl (made, admitted) ↦
                    rw (fine, add_candidate)
                      (rw admitted (
                        Keeps-trans s expired
                          (with_proposals (put Text-discrete made.id made expired.by_id) expired)
                          (expire-Keeps now wrote s)
                          (admit_candidate-Keeps item content now (trim_space new_id) written
                            expired made admitted)))
              ]
      ]

  -- A call of a method, with a context, a clock and writes of its own.
  pub data Step (s : CandidateStore) : CandidateStore → Type 0 where
    got :
        (ctx : Option Text) (id : Text) (scope : Scope) (now : ℕ) (wrote : Text → Bool)
        → Step s (get_candidate ctx id scope now wrote s).0
    listed :
        (ctx : Option Text) (workspace_id user_id : Text) (now : ℕ) (wrote : Text → Bool)
        → Step s (list_pending ctx workspace_id user_id now wrote s).0
    closed :
        (ctx : Option Text) (id : Text) (scope : Scope) (status : CandidateStatus)
        → (memory_id : Text) (now later : ℕ) (wrote : Text → Bool) (written : Bool)
        → Step s (resolve_candidate ctx id scope status memory_id now later wrote written s).0
    added :
        (ctx : Option Text) (item : Candidate) (now : ℕ) (new_id : Text)
        → (wrote : Text → Bool) (written : Bool)
        → Step s (add_candidate u sanitizer ctx item now new_id wrote written s).0

  pub data Steps (s : CandidateStore) : CandidateStore → Type 0 where
    begun : Steps s s
    went : (t v : CandidateStore) → Steps s t → Step t v → Steps s v

  Step-Keeps : (s t : CandidateStore) → Step s t → Keeps s t
  Step-Keeps s t (got ctx id scope now wrote) = get_candidate-Keeps ctx id scope now wrote s
  Step-Keeps s t (listed ctx workspace_id user_id now wrote) =
      list_pending-Keeps ctx workspace_id user_id now wrote s
  Step-Keeps s t (closed ctx id scope status memory_id now later wrote written) =
      resolve_candidate-Keeps ctx id scope status memory_id now later wrote written s
  Step-Keeps s t (added ctx item now new_id wrote written) =
      add_candidate-Keeps ctx item now new_id wrote written s

  -- Over any calls of the store of candidates the proposals stay under their ids, at most the limit
  -- of them is pending if so at first, and a proposal that is not pending stays exactly as it is.
  pub Steps-Keeps : (s t : CandidateStore) → Steps s t → Keeps s t
  Steps-Keeps s t begun = Keeps-refl s
  Steps-Keeps s t (went before after steps step) =
      Keeps-trans s before t (Steps-Keeps s before steps) (Step-Keeps before t step)

  -- What a Resolve that succeeds has stored under the trimmed id.
  pub resolve_candidate-stores :
      (ctx : Option Text) (id : Text) (scope : Scope) (status : CandidateStatus)
      → (memory_id : Text) (now later : ℕ) (wrote : Text → Bool) (written : Bool)
      → (s t : CandidateStore) (item : Candidate) → Filed s.by_id
      → resolve_candidate ctx id scope status memory_id now later wrote written s ≡ (t, ok item)
      → (candidate_at (trim_space id) t.by_id ≡ some item)
        × (item.status ≡ status)
        × (item.memory_id ≡ memory_id)
        × (is_pending status ≡ false)
  unfolding resolve_candidate check_resolution
  resolve_candidate-stores ctx id scope status memory_id now later wrote written s t item f h =
      elim (Result-cases (check_resolution ctx (trim_space id) status)) [
        | inr (e, bad) ↦ absurd (ground arith)
        | inl (checked, fine) ↦
            let expired = with_proposals (expire now wrote s.by_id) s in
            elim (resolve_found-cases (trim_space id) scope status memory_id later written
              expired) [
                | inl (e, refused) ↦ absurd (ground arith)
                | inr (found, there, own, waits, stored) ↦
                    let named : found.id ≡ trim_space id =
                      All-get Text-discrete IsFiled (trim_space id) found expired.by_id
                        (expire-Filed now wrote s.by_id f) there in
                    let final : is_pending status ≡ false = ground arith in
                    let same : item ≡ resolved status memory_id later found = ground arith in
                    let after : t ≡ with_resolved status memory_id later found expired =
                      ground arith in
                    (
                      ground (
                        arith,
                        get-put Text-discrete found.id (trim_space id)
                            (resolved status memory_id later found) expired.by_id,
                      ),
                      ground arith,
                      ground arith,
                      final,
                    )
              ]
      ]

  settled-refuses :
      (ctx : Option Text) (id : Text) (scope : Scope) (status : CandidateStatus)
      → (memory_id : Text) (now later : ℕ) (wrote : Text → Bool) (written : Bool)
      → (s : CandidateStore) (item : Candidate) → candidate_at (trim_space id) s.by_id ≡ some item
      → is_pending item.status ≡ false
      → is_ok (resolve_candidate ctx id scope status memory_id now later wrote written s).1 ≡ false
  unfolding resolve_candidate
  settled-refuses ctx id scope status memory_id now later wrote written s item there final =
      elim (Result-cases (check_resolution ctx (trim_space id) status)) [
        | inr (e, bad) ↦ rw (bad, resolve_candidate) refl
        | inl (checked, fine) ↦
            let expired = with_proposals (expire now wrote s.by_id) s in
            let still = expire-settled now wrote (trim_space id) item s.by_id there final in
            rw (fine, resolve_candidate)
              (elim (resolve_found-cases (trim_space id) scope status memory_id later written
                expired) [
                  | inl (e, refused) ↦ ap (λ r. is_ok r.1) refused
                  | inr (found, here, own, waits, stored) ↦ absurd (ground arith)
                ])
      ]

  -- After a Resolve that succeeded, no other Resolve of the same proposal succeeds, whatever calls
  -- come between, when the proposals stand under their ids.
  pub resolve_candidate-once :
      (ctx : Option Text) (id : Text) (scope : Scope) (status : CandidateStatus)
      → (memory_id : Text) (now later : ℕ) (wrote : Text → Bool) (written : Bool)
      → (s t v : CandidateStore) (item : Candidate) → Filed s.by_id
      → resolve_candidate ctx id scope status memory_id now later wrote written s ≡ (t, ok item)
      → Steps t v
      → (ctx' : Option Text) (scope' : Scope) (status' : CandidateStatus)
      → (memory_id' : Text) (now' later' : ℕ) (wrote' : Text → Bool) (written' : Bool)
      → is_ok (resolve_candidate ctx' id scope' status' memory_id' now' later' wrote' written' v).1
        ≡ false
  resolve_candidate-once ctx id scope status memory_id now later wrote written s t v item f h steps
        ctx' scope' status' memory_id' now' later' wrote' written' =
      let (there, same, linked, final) =
        resolve_candidate-stores ctx id scope status memory_id now later wrote written s t item f
          h in
      let kept = resolve_candidate-Keeps ctx id scope status memory_id now later wrote written s in
      let closed_item : is_pending item.status ≡ false = rw same final in
      let filed : Filed t.by_id = subst (λ r. Filed r.0.by_id) h (kept.filed f) in
      settled-refuses ctx' id scope' status' memory_id' now' later' wrote' written' v item
        ((Steps-Keeps t v steps).settled filed (trim_space id) item there closed_item) closed_item
