-- ===== src/Modeling/Project/Valid/Kept.antt =====
-- The operations of a stage run keep a project valid.
use qemu_agent.Common.{
  ℕ, List, [], ◌∷◌, ◌≡◌, ◌≢◌, sym, true, some, All, All-append, arith, ok, inl, inr, >>=-eq-ok,
  Option-cases,
}
use qemu_agent.Text.{Text}
use qemu_agent.Modeling.Types.{
  Stage-discrete, Stage, is_known, stage_index, ArtifactRef, next_stage,
}
use qemu_agent.Modeling.Names.{short_category}
use qemu_agent.Modeling.Names.Category.{short_category_idem, short_category_of_bytes}
use qemu_agent.Modeling.StageMap.{StageMap, find, insert, delete, or_nil}
use qemu_agent.Common.Assoc.{get, All-put, All-remove}
use qemu_agent.Modeling.Project.{
  Project, entries, artifacts_of, can_advance, begin, collect_evidence, clear_stages, clear_after,
  stages_after, recorded, record_refs, move_on, complete, hold, block, fail, append_refs, fail_with,
  check_evidence, append_evidence,
}
use qemu_agent.Modeling.Project.Valid.{
  IsFiled, IsEntry, IsProof, IsCategory, IsValid, IsFiledProof, check_refs_iff, check_evidence_iff,
}

pub empty-IsCategory : IsCategory []
empty-IsCategory = sym (short_category_of_bytes [] tt (omega arith))

pub short_category-IsCategory : (raw : Text) → IsCategory (short_category raw)
short_category-IsCategory raw = sym (short_category_idem raw)

clear_stages-entries :
    (ss : List Stage) (m : StageMap) (ev : List ArtifactRef)
    → All IsEntry m
    → All IsEntry (clear_stages ss m ev).0
unfolding clear_stages
clear_stages-entries [] m ev h = h
clear_stages-entries (s ∷ ss) m ev h =
    clear_stages-entries ss (delete s m) _ (All-remove Stage-discrete IsEntry s m h)

clear_stages-proofs :
    (ss : List Stage) (m : StageMap) (ev : List ArtifactRef)
    → All IsProof ev
    → All IsProof (clear_stages ss m ev).1
unfolding clear_stages
clear_stages-proofs [] m ev h = h
clear_stages-proofs (s ∷ ss) m ev h = clear_stages-proofs ss (delete s m) _ (ground arith)

pub clear_after-IsValid : (s : Stage) (p : Project) → IsValid p → IsValid (clear_after s p)
unfolding clear_after
clear_after-IsValid s p v = elim (Option-cases (stage_index s)) [
  | inl unknown ↦ rw (unknown, clear_after) v
  | inr (i, at_i) ↦ elim (Option-cases p.artifacts) [
    | inl no_map ↦ rw (at_i, clear_after, no_map) v
    | inr (m, is_map) ↦ ground (
      arith,
      clear_stages-entries (stages_after s) m p.evidence,
      clear_stages-proofs (stages_after s) m p.evidence,
    )
  ]
]

collect_evidence-IsProof :
    (stage : Stage) (refs : List ArtifactRef)
    → All (IsFiled stage) refs
    → All IsProof (collect_evidence refs)
unfolding collect_evidence
collect_evidence-IsProof stage [] h = tt
collect_evidence-IsProof stage (ref ∷ refs) h =
    ground (arith, collect_evidence-IsProof stage refs h.1)

find-All : (s : Stage) (m : StageMap) → All IsEntry m → All (IsFiled s) (or_nil (find s m))
unfolding get
find-All s [] h = tt
find-All s ((t, refs) ∷ m) h = ground (arith, find-All s m h.1)

pub find-is_known :
    (s : Stage) (m : StageMap) (ref : ArtifactRef) (refs : List ArtifactRef)
    → All IsEntry m
    → or_nil (find s m) ≡ ref ∷ refs
    → is_known s ≡ true
unfolding get
find-is_known s [] ref refs h e = cc
find-is_known s ((t, old) ∷ m) ref refs h e = ground (arith, find-is_known s m ref refs h.1)

recorded-IsValid :
    (p : Project) (stage : Stage) (refs : List ArtifactRef) (now : ℕ)
    → IsValid p
    → is_known stage ≡ true
    → All (IsFiled stage) refs
    → now ≢ 0
    → IsValid (recorded p stage refs now)
unfolding recorded
recorded-IsValid p stage refs now v known h t = ground (
  arith,
  clear_after-IsValid stage
      (record p { artifacts = some (insert stage refs (entries p.artifacts)) }),
  All-put Stage-discrete IsEntry stage refs (entries p.artifacts) (known, h) v.filed,
  collect_evidence-IsProof stage refs h,
  empty-IsCategory,
)

next_stage-known : (s t : Stage) → next_stage s ≡ some t → is_known t ≡ true
unfolding next_stage stage_index
next_stage-known s t h = ground arith

pub move_on-IsValid :
    (stage : Stage) (p : Project) → is_known stage ≡ true → IsValid p → IsValid (move_on stage p)
unfolding move_on
move_on-IsValid stage p known v = elim (Option-cases (next_stage stage)) [
  | inl last ↦ ground arith
  | inr (next, moves) ↦ ground (arith, next_stage-known stage next)
]

-- A stage that can be advanced to is a declared one.
can_advance-known :
    (p : Project) (stage : Stage) → can_advance p stage ≡ ok tt → is_known stage ≡ true
unfolding can_advance
can_advance-known p stage h = ground arith

pub begin-IsValid :
    (p q : Project) (stage : Stage) (now : ℕ) → IsValid p → begin p stage now ≡ ok q → IsValid q
unfolding begin
begin-IsValid p q stage now v h = ground (arith, can_advance-known p stage, empty-IsCategory)

pub record_refs-IsValid :
    (p q : Project) (stage : Stage) (refs : List ArtifactRef) (now : ℕ)
    → IsValid p
    → record_refs p stage refs now ≡ ok q
    → IsValid q × (is_known stage ≡ true)
unfolding record_refs
record_refs-IsValid p q stage refs now v h =
    ground (arith, recorded-IsValid p stage refs now v, check_refs_iff stage refs)

pub complete-IsValid :
    (p q : Project) (stage : Stage) (refs : List ArtifactRef) (now : ℕ)
    → IsValid p
    → complete p stage refs now ≡ ok q
    → IsValid q
unfolding complete
complete-IsValid p q stage refs now v h =
    let (r, recorded_ok, moved) = >>=-eq-ok (record_refs p stage refs now) _ h in
    let (vr, known) = record_refs-IsValid p r stage refs now v recorded_ok in
    ground (arith, move_on-IsValid stage r known vr)

pub hold-IsValid :
    (p q : Project) (stage : Stage) (refs : List ArtifactRef) (reason : Text) (now : ℕ)
    → IsValid p
    → hold p stage refs reason now ≡ ok q
    → IsValid q
unfolding hold
hold-IsValid p q stage refs reason now v h =
    let (r, recorded_ok, held) = >>=-eq-ok (record_refs p stage refs now) _ h in
    let (vr, known) = record_refs-IsValid p r stage refs now v recorded_ok in
    ground (arith, short_category-IsCategory reason)

pub block-IsValid :
    (p q : Project) (stage : Stage) (reason : Text) (now : ℕ)
    → IsValid p
    → block p stage reason now ≡ ok q
    → IsValid q
unfolding block
block-IsValid p q stage reason now v h = ground (arith, short_category-IsCategory reason)

pub fail-IsValid :
    (p q : Project) (stage : Stage) (kind : Text) (now : ℕ)
    → IsValid p
    → fail p stage kind now ≡ ok q
    → IsValid q × (is_known stage ≡ true)
unfolding fail
fail-IsValid p q stage kind now v h = ground (arith, short_category-IsCategory kind)

forget-kind :
    (stage : Stage) (refs : List ArtifactRef)
    → All (IsFiledProof stage) refs
    → All (IsFiled stage) refs
forget-kind stage [] h = tt
forget-kind stage (ref ∷ refs) h = (h.0.0, forget-kind stage refs h.1)

append_refs-IsValid :
    (stage : Stage) (refs : List ArtifactRef) (p : Project)
    → is_known stage ≡ true
    → All (IsFiledProof stage) refs
    → IsValid p
    → IsValid (append_refs stage refs p)
unfolding append_refs
append_refs-IsValid stage [] p known h v = v
append_refs-IsValid stage (ref ∷ refs) p known h v =
    let old = find-All stage (entries p.artifacts) v.filed in
    let new = forget-kind stage (ref ∷ refs) h in
    let both = All-append (IsFiled stage) (artifacts_of p stage) (ref ∷ refs) old new in
    record {
      named = v.named;
      titled = v.titled;
      placed = v.placed;
      staged = v.staged;
      declared = v.declared;
      counted = v.counted;
      created = v.created;
      updated = v.updated;
      filed = All-put Stage-discrete IsEntry stage _ (entries p.artifacts) (known, both) v.filed;
      proved = v.proved;
      categorized = v.categorized;
    }

pub fail_with-IsValid :
    (p q : Project) (stage : Stage) (kind : Text) (refs : List ArtifactRef) (now : ℕ)
    → IsValid p
    → fail_with p stage kind refs now ≡ ok q
    → IsValid q
unfolding fail_with
fail_with-IsValid p q stage kind refs now v h =
    let (_, checked, rest) = >>=-eq-ok (check_evidence stage refs) _ h in
    let (r, failed, same) = >>=-eq-ok (fail p stage kind now) _ rest in
    let (vr, known) = fail-IsValid p r stage kind now v failed in
    ground
      (arith, append_refs-IsValid stage refs r known ((check_evidence_iff stage refs).0 checked) vr)

pub append_evidence-IsValid :
    (p q : Project) (stage : Stage) (refs : List ArtifactRef)
    → IsValid p
    → is_known stage ≡ true
    → append_evidence p stage refs ≡ ok q
    → IsValid q
unfolding append_evidence
append_evidence-IsValid p q stage refs v known h =
    let (_, checked, same) = >>=-eq-ok (check_evidence stage refs) _ h in
    ground
      (arith, append_refs-IsValid stage refs p known ((check_evidence_iff stage refs).0 checked) v)
