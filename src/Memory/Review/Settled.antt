-- ===== src/Memory/Review/Settled.antt =====
-- The life of a proposal over the calls of the store of candidates.
use qemu_agent.Common.{
  ℕ, suc, ◌≤◌, ◌≡◌, refl, sym, subst, ◌⊎◌, inl, inr, [], ◌∷◌, Option, some, Bool, true, false,
  arith, All, ok, err, Result-cases, Option-cases, Bool-cases,
}
use qemu_agent.Common.Assoc.{get, put, get-put, All-put, All-get}
use qemu_agent.Text.{Text, Text-discrete, trim_space}
use qemu_agent.Memory.{Scope, not_found, writable_by}
use qemu_agent.Memory.Review.{
  CandidateStatus, Candidate, CandidateError, of_memory, resolved_already, candidate_not_written,
  Proposals, CandidateStore, candidate_at, is_pending, expire, pending_count, with_proposals,
  get_candidate, check_id, check_resolution, resolved, resolve_found, resolve_candidate,
}

-- Every proposal stands under its id.
abbrev pub IsFiled : Text × Candidate → Type 0
IsFiled (id, item) = item.id ≡ id

abbrev pub Filed : Proposals → Type 0
Filed items = All IsFiled items

pub expire-Filed :
    (now : ℕ) (wrote : Text → Bool) (items : Proposals)
    → Filed items
    → Filed (expire now wrote items)
unfolding expire
expire-Filed now wrote [] h = tt
expire-Filed now wrote ((id, item) ∷ items) h =
    (ground (arith, h.0), expire-Filed now wrote items h.1)

pub expire-pending_count :
    (now : ℕ) (wrote : Text → Bool) (items : Proposals)
    → pending_count (expire now wrote items) ≤ pending_count items
unfolding expire pending_count
expire-pending_count now wrote [] = omega arith
expire-pending_count now wrote ((id, item) ∷ items) =
    ground (arith, expire-pending_count now wrote items)

-- A proposal that is not pending stays as it is when others expire.
pub expire-settled :
    (now : ℕ) (wrote : Text → Bool) (id : Text) (item : Candidate) (items : Proposals)
    → candidate_at id items ≡ some item
    → is_pending item.status ≡ false
    → candidate_at id (expire now wrote items) ≡ some item
unfolding expire get
expire-settled now wrote id item [] h settled = cc
expire-settled now wrote id item ((j, other) ∷ items) h settled = elim (Text-discrete j id) [
  | yes same ↦ ground arith
  | no apart ↦ ground (arith, expire-settled now wrote id item items)
]

pub expire-unwritten :
    (now : ℕ) (wrote : Text → Bool) (id : Text) (item : Candidate) (items : Proposals)
    → candidate_at id items ≡ some item
    → wrote item.id ≡ false
    → candidate_at id (expire now wrote items) ≡ some item
unfolding expire get
expire-unwritten now wrote id item [] h failed = cc
expire-unwritten now wrote id item ((j, other) ∷ items) h failed = elim (Text-discrete j id) [
  | yes same ↦ ground arith
  | no apart ↦ ground (arith, expire-unwritten now wrote id item items)
]

pub put-pending_count :
    (id : Text) (item : Candidate) (items : Proposals)
    → pending_count (put Text-discrete id item items) ≤ suc (pending_count items)
unfolding put pending_count
put-pending_count id item [] = ground arith
put-pending_count id item ((j, other) ∷ items) = ground (arith, put-pending_count id item items)

put_settled-pending_count :
    (id : Text) (item : Candidate) (items : Proposals)
    → is_pending item.status ≡ false
    → pending_count (put Text-discrete id item items) ≤ pending_count items
unfolding put pending_count
put_settled-pending_count id item [] h = ground arith
put_settled-pending_count id item ((j, other) ∷ items) h =
    ground (arith, put_settled-pending_count id item items)

-- What a step keeps: ids, the limit of pending proposals, and every proposal that is not pending.
pub record Keeps (s t : CandidateStore) : Type 0 where
  pub filed : Filed s.by_id → Filed t.by_id
  pub bounded : pending_count s.by_id ≤ s.max_items → pending_count t.by_id ≤ t.max_items
  pub settled :
      Filed s.by_id
      → (id : Text) (item : Candidate) → candidate_at id s.by_id ≡ some item
      → is_pending item.status ≡ false
      → candidate_at id t.by_id ≡ some item

pub Keeps-refl : (s : CandidateStore) → Keeps s s
Keeps-refl s = record { filed = λ h. h; bounded = λ h. h; settled = λ f id item h k. h }

pub expire-Keeps :
    (now : ℕ) (wrote : Text → Bool) (s : CandidateStore)
    → Keeps s (with_proposals (expire now wrote s.by_id) s)
expire-Keeps now wrote s = record {
  filed = expire-Filed now wrote s.by_id;
  bounded = λ h. omega (arith, expire-pending_count now wrote s.by_id);
  settled = λ f id item h k. expire-settled now wrote id item s.by_id h k;
}

pub Keeps-trans : (s t v : CandidateStore) → Keeps s t → Keeps t v → Keeps s v
Keeps-trans s t v first next = record {
  filed = λ h. next.filed (first.filed h);
  bounded = λ h. next.bounded (first.bounded h);
  settled = λ f id item h k. next.settled (first.filed f) id item (first.settled f id item h k) k;
}

-- The proposal that a Resolve found, in its new state.
abbrev pub with_resolved : CandidateStatus → Text → ℕ → Candidate → CandidateStore → CandidateStore
with_resolved status memory_id later item s =
    with_proposals (put Text-discrete item.id (resolved status memory_id later item) s.by_id) s

pub resolve_found-cases :
    (id : Text) (scope : Scope) (status : CandidateStatus) (memory_id : Text) (later : ℕ)
    → (written : Bool) (s : CandidateStore)
    → ((e : CandidateError) × (resolve_found id scope status memory_id later written s
          ≡ (s, err e)))
      ⊎ ((item : Candidate) × (candidate_at id s.by_id ≡ some item)
          × (writable_by item.scope scope ≡ true)
          × (is_pending item.status ≡ true)
          × (resolve_found id scope status memory_id later written s ≡ (
            with_resolved status memory_id later item s,
            ok (resolved status memory_id later item),
          )))
unfolding resolve_found
resolve_found-cases id scope status memory_id later written s =
    elim (Option-cases (candidate_at id s.by_id)) [
      | inl missing ↦ inl (of_memory not_found, ground arith)
      | inr (item, there) ↦ elim (Bool-cases (writable_by item.scope scope)) [
        | inr foreign ↦ inl (of_memory not_found, ground arith)
        | inl own ↦ elim (Bool-cases (is_pending item.status)) [
          | inr settled ↦ inl (resolved_already item, ground arith)
          | inl waits ↦ elim (Bool-cases written) [
            | inr failed ↦ inl (candidate_not_written, ground arith)
            | inl done ↦ inr (item, there, own, waits, ground arith)
          ]
        ]
      ]
    ]

with_resolved-Keeps :
    (id : Text) (status : CandidateStatus) (memory_id : Text) (later : ℕ) (item : Candidate)
    → (s : CandidateStore) → candidate_at id s.by_id ≡ some item
    → is_pending item.status ≡ true
    → is_pending status ≡ false
    → Keeps s (with_resolved status memory_id later item s)
with_resolved-Keeps id status memory_id later item s there waits final =
    let item' = resolved status memory_id later item in
    record {
      filed = λ h. All-put Text-discrete IsFiled item.id item' s.by_id refl h;
      bounded = λ h. omega (arith, put_settled-pending_count item.id item' s.by_id final);
      settled = λ f j other here closed.
          let named : item.id ≡ id = All-get Text-discrete IsFiled id item s.by_id f there in
          ground (arith, get-put Text-discrete item.id j item' s.by_id);
    }

resolve_found-Keeps :
    (id : Text) (scope : Scope) (status : CandidateStatus) (memory_id : Text) (later : ℕ)
    → (written : Bool) (s : CandidateStore) → is_pending status ≡ false
    → Keeps s (resolve_found id scope status memory_id later written s).0
resolve_found-Keeps id scope status memory_id later written s final =
    elim (resolve_found-cases id scope status memory_id later written s) [
      | inl (e, refused) ↦ subst (λ r. Keeps s r.0) (sym refused) (Keeps-refl s)
      | inr (item, there, own, waits, done) ↦
          subst (λ r. Keeps s r.0) (sym done)
            (with_resolved-Keeps id status memory_id later item s there waits final)
    ]

pub resolve_candidate-Keeps :
    (ctx : Option Text) (id : Text) (scope : Scope) (status : CandidateStatus)
    → (memory_id : Text) (now later : ℕ) (wrote : Text → Bool) (written : Bool)
    → (s : CandidateStore)
    → Keeps s (resolve_candidate ctx id scope status memory_id now later wrote written s).0
unfolding resolve_candidate check_resolution
resolve_candidate-Keeps ctx id scope status memory_id now later wrote written s =
    elim (Result-cases (check_resolution ctx (trim_space id) status)) [
      | inr (e, bad) ↦ rw (bad, resolve_candidate) (Keeps-refl s)
      | inl (checked, fine) ↦
          let expired = with_proposals (expire now wrote s.by_id) s in
          rw (fine, resolve_candidate)
            (Keeps-trans s expired
              (resolve_found (trim_space id) scope status memory_id later written expired).0
              (expire-Keeps now wrote s)
              (resolve_found-Keeps (trim_space id) scope status memory_id later written expired
                (ground arith)))
    ]

pub get_candidate-Keeps :
    (ctx : Option Text) (id : Text) (scope : Scope) (now : ℕ) (wrote : Text → Bool)
    → (s : CandidateStore) → Keeps s (get_candidate ctx id scope now wrote s).0
unfolding get_candidate
get_candidate-Keeps ctx id scope now wrote s = elim (Result-cases (check_id ctx (trim_space id))) [
  | inr (e, bad) ↦ rw (bad, get_candidate) (Keeps-refl s)
  | inl (checked, fine) ↦ rw (fine, get_candidate) (expire-Keeps now wrote s)
]
