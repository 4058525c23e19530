-- ===== src/Modeling/RegIr/Spans.antt =====
-- Sorting the spans and comparing neighbours finds every overlap.
use qemu_agent.Common.{
  ◌≤◌, List, [], ◌∷◌, ◌≡◌, ◌⊎◌, inl, inr, All, Pairs, arith, ok, leb, Bool-cases,
}
use qemu_agent.Modeling.RegIr.{Span, insert_span, sort_spans, check_overlap}

-- One span ends where the other starts, or before; the end of a register is taken at 64 bits, as in the
-- source.
abbrev pub Disjoint : Span → Span → Type 0
Disjoint s t = (s.end ≤ t.start) ⊎ (t.end ≤ s.start)

abbrev Before : Span → Span → Type 0
Before s t = s.start ≤ t.start

All-insert_span :
    (P : Span → Type 0) (s : Span) (ss : List Span) → P s → All P ss → All P (insert_span s ss)
unfolding insert_span
All-insert_span P s [] p h = (p, tt)
All-insert_span P s (t ∷ ts) p h = ground (arith, All-insert_span P s ts p h.1)

All-insert_span_inv :
    (P : Span → Type 0) (s : Span) (ss : List Span) → All P (insert_span s ss) → P s × All P ss
unfolding insert_span
All-insert_span_inv P s [] h = h
All-insert_span_inv P s (t ∷ ts) h = ground (arith, All-insert_span_inv P s ts)

Before-trans : (s t : Span) (ss : List Span) → Before s t → All (Before t) ss → All (Before s) ss
Before-trans s t [] h k = tt
Before-trans s t (u ∷ us) h k = (omega arith, Before-trans s t us h k.1)

insert_span-Before : (s : Span) (ss : List Span) → Pairs Before ss → Pairs Before (insert_span s ss)
unfolding insert_span
insert_span-Before s [] h = (tt, tt)
insert_span-Before s (t ∷ ts) h = elim (Bool-cases (leb s.start t.start)) [
  | inl first ↦ rw first ((ground arith, Before-trans s t ts (ground arith) h.0), h)
  | inr later ↦
      rw later (All-insert_span (Before t) s ts (ground arith) h.0, insert_span-Before s ts h.1)
]

sort_spans-Before : (ss : List Span) → Pairs Before (sort_spans ss)
unfolding sort_spans
sort_spans-Before [] = tt
sort_spans-Before (s ∷ ss) = insert_span-Before s (sort_spans ss) (sort_spans-Before ss)

apart : (s t : Span) (ss : List Span) → s.end ≤ t.start → All (Before t) ss → All (Disjoint s) ss
apart s t [] h k = tt
apart s t (u ∷ us) h k = (inl (omega arith), apart s t us h k.1)

check_overlap-Disjoint :
    (ss : List Span) → Pairs Before ss → check_overlap ss ≡ ok tt → Pairs Disjoint ss
unfolding check_overlap
check_overlap-Disjoint [] b h = tt
check_overlap-Disjoint (s ∷ []) b h = (tt, tt)
check_overlap-Disjoint (s ∷ t ∷ ts) b h =
    let free : s.end ≤ t.start = ground arith in
    ((inl free, apart s t ts free b.1.0), check_overlap-Disjoint (t ∷ ts) b.1 (ground arith))

Disjoint-sym : (s t : Span) → Disjoint s t → Disjoint t s
Disjoint-sym s t (inl h) = inr h
Disjoint-sym s t (inr h) = inl h

insert_span-Disjoint :
    (s : Span) (ss : List Span)
    → Pairs Disjoint (insert_span s ss)
    → All (Disjoint s) ss × Pairs Disjoint ss
unfolding insert_span
insert_span-Disjoint s [] h = (tt, tt)
insert_span-Disjoint s (t ∷ ts) h = elim (Bool-cases (leb s.start t.start)) [
  | inl first ↦ rw (first, insert_span) at h
  | inr later ↦
      let (away, rest) = rw (later, insert_span) at h in
      let (met, others) = All-insert_span_inv (Disjoint t) s ts away in
      let (free, pairs) = insert_span-Disjoint s ts rest in
      ((Disjoint-sym t s met, free), (others, pairs))
]

All-sort_spans_inv : (P : Span → Type 0) (ss : List Span) → All P (sort_spans ss) → All P ss
unfolding sort_spans
All-sort_spans_inv P [] h = tt
All-sort_spans_inv P (s ∷ ss) h =
    let (here, rest) = All-insert_span_inv P s (sort_spans ss) h in
    (here, All-sort_spans_inv P ss rest)

sort_spans-Disjoint : (ss : List Span) → Pairs Disjoint (sort_spans ss) → Pairs Disjoint ss
unfolding sort_spans
sort_spans-Disjoint [] h = tt
sort_spans-Disjoint (s ∷ ss) h =
    let (free, pairs) = insert_span-Disjoint s (sort_spans ss) h in
    (All-sort_spans_inv (Disjoint s) ss free, sort_spans-Disjoint ss pairs)

pub overlap_check : (ss : List Span) → check_overlap (sort_spans ss) ≡ ok tt → Pairs Disjoint ss
overlap_check ss h =
    sort_spans-Disjoint ss (check_overlap-Disjoint (sort_spans ss) (sort_spans-Before ss) h)
