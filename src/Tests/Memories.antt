-- ===== src/Tests/Memories.antt =====
-- Instances of the theorems on memories and proposals, over ASCII texts.
use qemu_agent.Common.{
  Pairs, ℕ, [], ◌∷◌, ◌≡◌, ◌≢◌, refl, is_ok, none, some, Bool, true, false, ◌||◌, ltb, ◌==◌, ok, err,
  arith,
}
use qemu_agent.Common.Sorted.{insert_by, sort_by, Ordered}
use qemu_agent.Text.{
  is_empty, trim_space, Text, codes, to_lower, is_ascii_space, is_upper, is_lower, is_digit,
  text_lt, trim_space,
}
use qemu_agent.Memory.{
  Scope, Memory, Query, failed, visibility_private, parse_kind, parse_visibility, validate_scope,
  validate_id, visible_to, writable_by, kind_allowed, check_kinds, validate_query,
}
use qemu_agent.Memory.Words.{
  Unicode, fields_by, join_words, add_token, clean_runes, normalize_runes, normalize_text, flush,
  add_ideograph_bigrams, add_field, add_fields, tokenize,
}
use qemu_agent.Memory.Words.Tokens.{IsTokenSet, tokenize-IsTokenSet}
use qemu_agent.Memory.Items.{
  Sanitizer, sanitize, canonical, fingerprint, normalized, normalize_memory,
}
use qemu_agent.Memory.Index.{
  FileStore, no_memory, item_at, item_or_zero, generate_id, admit_new, admit_update, settle_save,
  admit_item, save_item, delete_item, select_items, list_items,
}
use qemu_agent.Memory.Index.Saved.{SameIndex, save_item-refused, save_item-saved, Admitted}
use qemu_agent.Memory.Index.Reached.{IsHeld}
use qemu_agent.Memory.Reload.{empty_store, item_files, load_items, load_existing}
use qemu_agent.Memory.Reload.Held.{Held, opened, saved, Held-IsHeld}
use qemu_agent.Memory.Recall.{score_item, score_items, search_items, intersect, Match, Weight}
use qemu_agent.Memory.Recall.Ranked.{IsRanking, search_items-IsRanking}
use qemu_agent.Memory.Hidden.{validate_scope-hidden}
use qemu_agent.Memory.Review.{
  candidate_pending, candidate_approved, candidate_rejected, Candidate, CandidateStore,
  candidate_at, expire, pending_count, get_candidate, check_resolution, resolve_found,
  resolve_candidate, resolved, find_same, check_proposal, admit_candidate, add_candidate,
}
use qemu_agent.Memory.Review.Settled.{Filed, Keeps}
use qemu_agent.Memory.Review.Reached.{begun, went, closed, Steps-Keeps, resolve_candidate-once}
use qemu_agent.Memory.Review.Overdue.{resolve_candidate-overdue}
use qemu_agent.Memory.Approval.{
  approved_as, Knowledge, Caller, Answers, settle_saved, mark_approved, save_approved,
  approve_found, approve_candidate,
}
use qemu_agent.Memory.Approval.Stored.{IsApproved, approve_candidate-IsApproved}
use qemu_agent.Tests.Samples.{computes}

memory_runs : Unit {0}
unfolding parse_kind parse_visibility validate_scope validate_id visible_to writable_by kind_allowed
    check_kinds validate_query fields_by join_words add_token clean_runes normalize_runes
    normalize_text flush add_ideograph_bigrams add_field add_fields tokenize sanitize canonical
    fingerprint normalized normalize_memory generate_id admit_new admit_update settle_save
    admit_item save_item delete_item select_items list_items insert_by sort_by item_files load_items
    load_existing score_item score_items search_items intersect text_lt
memory_runs = tt

abbrev ascii : Unicode
ascii = record {
  runes = λ s. s;
  utf8 = λ rs. rs;
  lower = to_lower;
  digest = λ s. s;
  is_control = λ r. ltb r 32 || r == 127;
  is_space = is_ascii_space;
  is_letter = λ r. is_upper r || is_lower r;
  is_number = is_digit;
  is_han = λ r. false;
  is_hiragana = λ r. false;
  is_katakana = λ r. false;
}

abbrev cleaner : Sanitizer
cleaner = sanitize ascii (record { max_bytes = 200; patterns = []; control_patterns = [] })

abbrev board : Scope
board = record {
  workspace_id = codes "lab";
  user_id = codes "ada";
  visibility = visibility_private;
}

abbrev reset_fact : Memory
reset_fact = record no_memory {
  kind = codes "fact";
  scope = board;
  content = codes "the reset value is 0x10";
}

abbrev blank_store : FileStore
blank_store = empty_store 4 200 []

blank_loads : load_existing ascii cleaner [] blank_store ≡ ok blank_store
unfolding computes memory_runs
blank_loads = refl

abbrev first_id : ℕ → Text
first_id i = codes "m1"

abbrev one_memory : FileStore
one_memory = (save_item ascii cleaner none 5 first_id none reset_fact blank_store).0

one_memory-Held : Held ascii cleaner one_memory
one_memory-Held =
    saved none 5 first_id none reset_fact blank_store (opened [] 4 200 [] blank_store blank_loads)

Held-IsHeld_example : IsHeld ascii cleaner one_memory
Held-IsHeld_example = Held-IsHeld ascii cleaner one_memory one_memory-Held

abbrev changed_fact : Memory
changed_fact = record reset_fact { id = codes "m1"; content = codes "the reset value is 0x20" }

change_fails :
    (save_item ascii cleaner none 6 first_id (some (codes "disk full")) changed_fact one_memory).1
    ≡ err (failed (codes "disk full"))
unfolding computes memory_runs
change_fails = refl

save_item-refused_example :
    SameIndex one_memory
      (save_item ascii cleaner none 6 first_id (some (codes "disk full")) changed_fact one_memory).0
save_item-refused_example =
    save_item-refused ascii cleaner none 6 first_id (some (codes "disk full")) changed_fact
      one_memory (Held-IsHeld ascii cleaner one_memory one_memory-Held).whole
      (failed (codes "disk full")) change_fails

abbrev changed_store : FileStore
changed_store = (save_item ascii cleaner none 6 first_id none changed_fact one_memory).0

abbrev changed_made : Memory
changed_made = item_or_zero (codes "m1") changed_store.by_id

change_saves :
    (save_item ascii cleaner none 6 first_id none changed_fact one_memory).1 ≡ ok changed_made
unfolding computes memory_runs
change_saves = refl

save_item-saved_example :
    Admitted one_memory (trim_space changed_fact.id) board changed_made
    × (item_at changed_made.id changed_store.by_id ≡ some changed_made)
    × (item_at changed_made.id changed_store.files ≡ some changed_made)
    × ((j : Text)
        → changed_made.id ≢ j
        → item_at j changed_store.by_id ≡ item_at j one_memory.by_id)
save_item-saved_example =
    save_item-saved ascii cleaner none 6 first_id none changed_fact one_memory changed_made
      change_saves (Held-IsHeld ascii cleaner one_memory one_memory-Held).whole

abbrev reset_query : Query
reset_query = record {
  text = codes "Reset address";
  workspace_id = codes "lab";
  user_id = codes "ada";
  kinds = [];
  top_k = 3;
  require_all_terms = false;
  now = 9;
}

abbrev matched_terms : Weight
matched_terms matched queried item now = matched

abbrev reset_match : Match
reset_match = record {
  memory = item_or_zero (codes "m1") one_memory.by_id;
  score = 1;
  terms = codes "reset" ∷ [];
}

reset_found : search_items matched_terms ascii one_memory none reset_query 0 ≡ ok (reset_match ∷ [])
unfolding computes memory_runs
reset_found = refl

search_items-IsRanking_example :
    IsRanking matched_terms ascii reset_query 9 one_memory (reset_match ∷ [])
search_items-IsRanking_example =
    search_items-IsRanking matched_terms ascii one_memory none reset_query 0 (reset_match ∷ [])
      reset_found

abbrev spaced_scope : Scope
spaced_scope = record board { user_id = []; visibility = codes " Private" }

spaced_read : parse_visibility (codes " Private") ≡ ok visibility_private
unfolding computes memory_runs
spaced_read = refl

board_named : is_empty (trim_space board.workspace_id) ≡ false
unfolding computes
board_named = refl

validate_scope-hidden_example :
    (validate_scope spaced_scope ≡ ok tt)
    × ((workspace_id user_id : Text) → visible_to spaced_scope workspace_id user_id ≡ false)
    × ((requested : Scope) → writable_by spaced_scope requested ≡ false)
validate_scope-hidden_example =
    validate_scope-hidden spaced_scope visibility_private board_named spaced_read
      (λ same. absurd (ground arith)) (λ same. absurd (ground arith))

review_runs : Unit {0}
unfolding expire pending_count get_candidate check_resolution resolve_found resolve_candidate
    find_same check_proposal admit_candidate add_candidate settle_saved mark_approved save_approved
    approve_found approve_candidate
review_runs = tt

abbrev proposal : Candidate
proposal = record {
  id = [];
  kind = codes "fact";
  scope = board;
  content = codes "the fifo depth is 16";
  source = codes "turn";
  status = candidate_pending;
  created_at = 0;
  updated_at = 0;
  expires_at = 0;
  memory_id = [];
}

abbrev no_proposals : CandidateStore
no_proposals = record { max_items = 2; max_bytes = 200; ttl = 10; by_id = [] }

abbrev all_written : Text → Bool
all_written id = true

abbrev one_proposal : CandidateStore
one_proposal =
    (add_candidate ascii cleaner none proposal 5 (codes "c1") all_written true no_proposals).0

abbrev waiting : Candidate
waiting = record proposal { id = codes "c1"; created_at = 5; updated_at = 5; expires_at = 15 }

one_proposal-Filed : Filed one_proposal.by_id
unfolding computes memory_runs review_runs
one_proposal-Filed = (refl, tt)

abbrev rejected_proposal : CandidateStore
rejected_proposal =
    (resolve_candidate none (codes "c1") board candidate_rejected [] 6 7 all_written true
      one_proposal).0

rejects_ok :
    resolve_candidate none
      (codes "c1")
      board
      candidate_rejected
      []
      6
      7
      all_written
      true
      one_proposal
    ≡ (rejected_proposal, ok (resolved candidate_rejected [] 7 waiting))
unfolding computes memory_runs review_runs
rejects_ok = refl

resolve_candidate-once_example :
    is_ok
      (resolve_candidate none
        (codes "c1")
        board
        candidate_approved
        (codes "m1")
        8
        9
        all_written
        true
        rejected_proposal).1
    ≡ false
resolve_candidate-once_example =
    resolve_candidate-once ascii cleaner none (codes "c1") board candidate_rejected [] 6 7
      all_written true one_proposal rejected_proposal rejected_proposal
      (resolved candidate_rejected [] 7 waiting) one_proposal-Filed rejects_ok begun none board
      candidate_approved (codes "m1") 8 9 all_written true

Steps-Keeps_example : Keeps one_proposal rejected_proposal
Steps-Keeps_example = Steps-Keeps ascii cleaner one_proposal rejected_proposal (
    went one_proposal rejected_proposal begun
      (closed none (codes "c1") board candidate_rejected [] 6 7 all_written true))

abbrev none_written : Text → Bool
none_written id = false

waiting_usable : validate_id (trim_space (codes "c1")) ≡ ok tt
unfolding computes memory_runs
waiting_usable = refl

waiting_there : candidate_at (trim_space (codes "c1")) one_proposal.by_id ≡ some waiting
unfolding computes memory_runs review_runs
waiting_there = refl

waiting_own : writable_by board board ≡ true
unfolding computes memory_runs
waiting_own = refl

approves_overdue :
    (resolve_candidate none
      (codes "c1")
      board
      candidate_approved
      (codes "m1")
      99
      99
      none_written
      true
      one_proposal).1
    ≡ ok (resolved candidate_approved (codes "m1") 99 waiting)
approves_overdue =
    resolve_candidate-overdue (codes "c1") (codes "m1") board 99 99 none_written one_proposal
      waiting waiting_usable waiting_there refl waiting_own refl

abbrev knowledge : Knowledge
knowledge = record { memories = blank_store; candidates = one_proposal }

abbrev answers : Answers
answers = record {
  get_now = 6;
  get_wrote = all_written;
  save_now = 7;
  new_id = first_id;
  save_wrote = none;
  resolve_now = 8;
  resolve_later = 9;
  resolve_wrote = all_written;
  resolve_written = true;
}

abbrev ada : Caller
ada = record { workspace_id = codes "lab"; user_id = codes "ada" }

abbrev approved_knowledge : Knowledge
approved_knowledge = (approve_candidate ascii cleaner none ada answers (codes "c1") knowledge).0

approves_ok :
    approve_candidate ascii cleaner none ada answers (codes "c1") knowledge
    ≡ (approved_knowledge, ok (approved_as (codes "c1") (codes "m1")))
unfolding computes memory_runs review_runs
approves_ok = refl

blank_store-Held : Held ascii cleaner blank_store
blank_store-Held = opened [] 4 200 [] blank_store blank_loads

approve_candidate-IsApproved_example :
    IsApproved ascii cleaner none ada (codes "c1") (codes "m1") approved_knowledge
approve_candidate-IsApproved_example =
    approve_candidate-IsApproved ascii cleaner none ada answers (codes "c1") knowledge
      approved_knowledge (codes "c1") (codes "m1")
      (Held-IsHeld ascii cleaner blank_store blank_store-Held).whole one_proposal-Filed approves_ok

tokenize-IsTokenSet_example :
    IsTokenSet (tokenize ascii (codes "reset value reset"))
    × Pairs (Ordered text_lt) (tokenize ascii (codes "reset value reset"))
tokenize-IsTokenSet_example = tokenize-IsTokenSet ascii (codes "reset value reset")

tokenize_words :
    tokenize ascii (codes "Reset the value, reset") ≡ codes "reset" ∷ codes "value" ∷ []
unfolding computes memory_runs
tokenize_words = refl
