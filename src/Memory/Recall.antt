-- ===== src/Memory/Recall.antt =====
-- Retrieval: Search and sortMatches of internal/memory/search.go and Ranker of ranker.go. A score is
-- the bits of a float64 that is not negative, whose order is that of the numbers; the floating point
-- arithmetic, and the half life in it, is an argument.
pub mod Ranked
use qemu_agent.Common.{
  ℕ, List, [], ◌∷◌, Option, none, some, Bool, true, false, ◌&&◌, ◌||◌, not, if◌then◌else◌, ltb,
  ◌==◌, length, take, Result, ok, err, ◌>>=◌, ◌>>◌,
}
use qemu_agent.Common.Sorted.{sort_by}
use qemu_agent.Text.{Text, text_lt}
use qemu_agent.Memory.{Memory, Query, MemoryError, one_of, check_context, validate_query}
use qemu_agent.Memory.Words.{Unicode, tokenize}
use qemu_agent.Memory.Index.{FileStore, select_items}

pub record Match : Type 0 where
  pub memory : Memory
  pub score : ℕ
  pub terms : List Text

-- The arithmetic of Score: the numbers of matched and of queried terms, the item and the time.
abbrev pub Weight : Type 0
Weight = ℕ → ℕ → Memory → ℕ → ℕ

-- intersect, of the query's tokens and an item's keywords.
unfoldable pub intersect : List Text → List Text → List Text
intersect query [] = []
intersect query (keyword ∷ keywords) =
    let matched = intersect query keywords in
    if one_of query keyword then keyword ∷ matched else matched

-- The order of sortMatches.
abbrev pub better : Match → Match → Bool
better x y =
    if not (x.score == y.score)
    then ltb y.score x.score
    else if not (x.memory.updated_at == y.memory.updated_at)
    then ltb y.memory.updated_at x.memory.updated_at
    else text_lt x.memory.id y.memory.id

module _ (weight : Weight) where
  -- Score, of a ranker with a half life.
  unfoldable pub score_item : List Text → Memory → ℕ → Bool → ℕ × List Text
  score_item query item now require_all =
      let matched = intersect query item.keywords in
      if length query == 0
        || length matched == 0
        || (require_all && ltb (length matched) (length query))
      then (0, [])
      else (weight (length matched) (length query) item now, matched)

  -- The loop of Search over the candidates.
  unfoldable pub score_items : List Text → ℕ → Bool → List Memory → List Match
  score_items query now require_all [] = []
  score_items query now require_all (item ∷ items) =
      let (score, terms) = score_item query item now require_all in
      let rest = score_items query now require_all items in
      if score == 0 then rest else record { memory = item; score = score; terms = terms } ∷ rest

  -- Search; `clock` is s.now.
  unfoldable pub search_items :
      Unicode → FileStore → Option Text → Query → ℕ → Result MemoryError (List Match)
  search_items u s ctx query clock = do
    check_context ctx
    validate_query query
    let tokens = tokenize u query.text
    let now = if query.now == 0 then clock else query.now
    let candidates = select_items query s.by_id s.ordered
    let matches = sort_by better (score_items tokens now query.require_all_terms candidates)
    ok (
        if length tokens == 0
        then []
        else if ltb query.top_k (length matches)
        then take query.top_k matches
        else matches)
