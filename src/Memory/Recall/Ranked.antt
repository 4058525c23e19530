-- ===== src/Memory/Recall/Ranked.antt =====
-- The results of Search and of List.
use qemu_agent.Common.{
  ℕ, zero, suc, ◌≤◌, ◌≡◌, ◌≢◌, ◌⊎◌, refl, sym, subst, inl, inr, Option, some, Bool, true, false,
  List, [], ◌∷◌, arith, ok, Option-cases, Bool-cases, length, take, ltb, ◌&&◌, ◌==◌, All, All-take,
  Pairs, Pairs-take, length-take-le, if◌then◌else◌,
}
use qemu_agent.Common.Sorted.{sort_by, Ordered, All-sort_by, sort_by-Ordered}
use qemu_agent.Text.{Text}
use qemu_agent.Text.Order.{text_lt_asymm, text_lt_chain}
use qemu_agent.Memory.{Memory, Query, visible_to}
use qemu_agent.Memory.Words.{Unicode, tokenize}
use qemu_agent.Memory.Index.{
  Items, FileStore, item_at, item_or_zero, select_items, selected, newer, list_items,
}
use qemu_agent.Memory.Recall.{Match, Weight, better, score_item, score_items, search_items}

newer_asymm : (x y : Memory) → newer x y ≡ true → Ordered newer x y
newer_asymm x y h = ground (arith, text_lt_asymm x.id y.id)

newer_chain : (x y z : Memory) → Ordered newer x y → Ordered newer y z → Ordered newer x z
newer_chain x y z h k = ground (arith, text_lt_chain x.id y.id z.id)

better_asymm : (x y : Match) → better x y ≡ true → Ordered better x y
better_asymm x y h = ground (arith, text_lt_asymm x.memory.id y.memory.id)

better_chain : (x y z : Match) → Ordered better x y → Ordered better y z → Ordered better x z
better_chain x y z h k = ground (arith, text_lt_chain x.memory.id y.memory.id z.memory.id)

-- The item stands in the index under one of the ids, and the query selects it.
abbrev pub IsCandidate : Query → Items → Memory → Type 0
IsCandidate query items item =
    (selected query item ≡ true) × ((id : Text) × (item_at id items ≡ some item))

All-keep {κ} :
    {A : Type 0} (P : A → Type κ) (test : Bool) (x : A) (xs : List A)
    → (test ≡ true → P x)
    → All P xs
    → All P (if test then x ∷ xs else xs)
All-keep P true x xs h k = (h refl, k)
All-keep P false x xs h k = k

All-skip {κ} :
    {A : Type 0} (P : A → Type κ) (test : Bool) (x : A) (xs : List A)
    → (test ≡ false → P x)
    → All P xs
    → All P (if test then xs else x ∷ xs)
All-skip P true x xs h k = k
All-skip P false x xs h k = (h refl, k)

selected-there :
    (query : Query) (items : Items) (id : Text)
    → selected query (item_or_zero id items) ≡ true
    → item_at id items ≡ some (item_or_zero id items)
unfolding visible_to
selected-there query items id h = elim (Option-cases (item_at id items)) [
  | inl missing ↦ absurd (ground arith)
  | inr (item, there) ↦ ground arith
]

select_items-IsCandidate :
    (query : Query) (items : Items) (ids : List Text)
    → All (IsCandidate query items) (select_items query items ids)
unfolding select_items
select_items-IsCandidate query items [] = tt
select_items-IsCandidate query items (id ∷ ids) =
    All-keep (IsCandidate query items) (selected query (item_or_zero id items))
      (item_or_zero id items) (select_items query items ids)
      (λ chosen. (chosen, (id, selected-there query items id chosen)))
      (select_items-IsCandidate query items ids)

-- A listing holds items of the index that the query selects, the last updated first and then by id,
-- and no more than the limit if there is one.
pub record IsItemListing (query : Query) (s : FileStore) (items : List Memory) : Type 0 where
  pub chosen : All (IsCandidate query s.by_id) items
  pub ordered : Pairs (Ordered newer) items
  pub limited : (query.top_k ≡ 0) ⊎ (length items ≤ query.top_k)

within_limit : (k n : ℕ) → (ltb 0 k && ltb k n) ≡ false → (k ≡ 0) ⊎ (n ≤ k)
within_limit zero n h = inl refl
within_limit (suc k) n h = inr (ground arith)

-- A List that succeeds returns items of the index that the query selects, which its workspace and
-- user see, the last updated first and then by id, and no more than the limit if there is one.
pub list_items-IsItemListing :
    (s : FileStore) (ctx : Option Text) (query : Query) (items : List Memory)
    → list_items s ctx query ≡ ok items
    → IsItemListing query s items
unfolding list_items
list_items-IsItemListing s ctx query items h =
    let found = select_items query s.by_id s.ordered in
    let all = sort_by newer found in
    let chosen =
      All-sort_by newer (IsCandidate query s.by_id) found
        (select_items-IsCandidate query s.by_id s.ordered) in
    let ordered = sort_by-Ordered newer newer_asymm newer_chain found in
    elim (Bool-cases (ltb 0 query.top_k && ltb query.top_k (length all))) [
      | inl cut ↦
          let cut_all : items ≡ take query.top_k all = ground arith in
          subst (IsItemListing query s) (sym cut_all) (record {
            chosen = All-take (IsCandidate query s.by_id) query.top_k all chosen;
            ordered = Pairs-take (Ordered newer) query.top_k all ordered;
            limited = inr (length-take-le query.top_k all);
          })
      | inr whole ↦
          let kept_all : items ≡ all = ground arith in
          subst (IsItemListing query s) (sym kept_all) (record {
            chosen = chosen;
            ordered = ordered;
            limited = within_limit query.top_k (length all) whole;
          })
    ]

module _ (weight : Weight) (tokens : List Text) (now : ℕ) (require_all : Bool) where
  -- The match has the score and the terms of its item, and the score is not 0.
  abbrev pub IsScored : Match → Type 0
  IsScored m =
      (score_item weight tokens m.memory now require_all ≡ (m.score, m.terms)) × (m.score ≢ 0)

  score_items-IsScored :
      (P : Memory → Type 0) (items : List Memory)
      → All P items
      → All (λ m. P m.memory × IsScored m) (score_items weight tokens now require_all items)
  unfolding score_items
  score_items-IsScored P [] h = tt
  score_items-IsScored P (item ∷ items) h =
      let (score, terms) = score_item weight tokens item now require_all in
      All-skip (λ m. P m.memory × IsScored m) (score == 0)
        (record { memory = item; score = score; terms = terms })
        (score_items weight tokens now require_all items)
        (λ relevant. (h.0, (refl, λ zero_score. absurd (ground arith))))
        (score_items-IsScored P items h.1)

-- The results of a search: items of the index that the query selects, each with the score and the
-- terms that the ranker gives it, which is not 0, the best first, no more than asked for.
pub record IsRanking (weight : Weight) (u : Unicode) (query : Query) (now : ℕ) (s : FileStore)
    (matches : List Match) : Type 0 where
  pub relevant :
      All
        (λ m.
          IsCandidate query s.by_id m.memory
          × IsScored weight (tokenize u query.text) now query.require_all_terms m)
        matches
  pub ordered : Pairs (Ordered better) matches
  pub limited : length matches ≤ query.top_k

-- A Search that succeeds returns items of the index that the query selects, which its workspace and
-- user see, each with the score of the ranker, which is not 0, the best first, then the last
-- updated and then by id, and no more than the query asks for.
pub search_items-IsRanking :
    (weight : Weight) (u : Unicode) (s : FileStore) (ctx : Option Text) (query : Query)
    → (clock : ℕ) (matches : List Match) → search_items weight u s ctx query clock ≡ ok matches
    → IsRanking weight u query (if query.now == 0 then clock else query.now) s matches
unfolding search_items
search_items-IsRanking weight u s ctx query clock matches h =
    let now = if query.now == 0 then clock else query.now in
    let tokens = tokenize u query.text in
    let found = select_items query s.by_id s.ordered in
    let scored = score_items weight tokens now query.require_all_terms found in
    let all = sort_by better scored in
    let P : Match → Type 0 = λ m.
      IsCandidate query s.by_id m.memory × IsScored weight tokens now query.require_all_terms m in
    let relevant : All P all = All-sort_by better P scored (
      score_items-IsScored weight tokens now query.require_all_terms (IsCandidate query s.by_id)
        found (select_items-IsCandidate query s.by_id s.ordered)) in
    let ordered = sort_by-Ordered better better_asymm better_chain scored in
    elim (Bool-cases (length tokens == 0)) [
      | inl blank ↦
          let nothing : matches ≡ [] = ground arith in
          subst (IsRanking weight u query now s) (sym nothing)
            (record { relevant = tt; ordered = tt; limited = omega arith })
      | inr asked ↦ elim (Bool-cases (ltb query.top_k (length all))) [
        | inl cut ↦
            let cut_all : matches ≡ take query.top_k all = ground arith in
            subst (IsRanking weight u query now s) (sym cut_all) (record {
              relevant = All-take P query.top_k all relevant;
              ordered = Pairs-take (Ordered better) query.top_k all ordered;
              limited = length-take-le query.top_k all;
            })
        | inr fits ↦
            let kept_all : matches ≡ all = ground arith in
            subst (IsRanking weight u query now s) (sym kept_all)
              (record { relevant = relevant; ordered = ordered; limited = ground arith })
      ]
    ]
