-- ===== src/Reference/Recall.antt =====
-- `Recall`, `recallSnapshot` and `GetReceiptStatus` of internal/reference/server.go.
pub mod Returned
pub mod Sources
pub mod Disclosed
pub mod Isolation
pub mod Status
use memory.Prelude.{
  ℕ, ◌+◌, Bool, true, false, not, ◌&&◌, ◌||◌, Option, none, some, List, [], ◌∷◌, ◌++◌, map, ltb,
  nat_eq, if◌then◌else◌, length, contains,
}
use memory.Prelude.Map.{get, put}
use memory.Prelude.Int.{to_nat}
use memory.Prelude.Sort.{sort}
use memory.Text.Bytes.{Str, Str-eq, str_eq, str_lt, bytes}
use memory.Text.Strings.{fields, contains_str}
use memory.Labels.{LabelSet, labels_eq}
use memory.Requests.{Time, RecallRequest, validate_recall}
use memory.Projection.{fit_projected_text}
use memory.Reference.Types.{
  Operation, Space, SpaceClass, ViewDefinition, Receipt, ProcessingState, Cursor, CallAuthorization,
}
use memory.Reference.State.{
  Server, Call, Context, Outcome, text, unauthorized, not_found, invalid_argument,
  stale_consistency_token, increment, pure, fail, refuse, check_context, check_available,
  check_valid, ◌>>=◌, ◌>>◌,
}
use memory.Reference.Authorize.{Readings, authorize}
use memory.Reference.Remember.{ids_of, receipt_of}

pub record Candidate : Type 0 where
  pub receipt : Receipt
  pub class : SpaceClass
  pub score : ℕ

pub record Fragment : Type 0 where
  pub fragment_id : Str
  pub text : Str
  pub evidence_refs : List Str
  pub class : SpaceClass

pub record RecallResponse : Type 0 where
  pub fragments : List Fragment
  pub consistency_token : Str
  pub truncated : Bool

-- `s.spaces[id].Class`, the empty class where there is no Space.
abbrev pub class_of : Option Space → SpaceClass
class_of none = SpaceClass.other []
class_of (some space) = space.class

-- The checks of a consistency token against the View.
unfoldable pub check_token : Option Cursor → ViewDefinition → LabelSet → Call (Unit {0})
check_token none view labels s =
    fail stale_consistency_token (text "consistency token is stale or unknown") false s
check_token (some at) view labels s =
    (do
      refuse (not (str_eq at.generation s.generation)) stale_consistency_token
          (text "consistency token is stale or unknown") false
      refuse (not (contains view.read_space_ids at.space_id) || not (labels_eq labels at.labels))
          unauthorized (text "consistency token partition is not readable") false)
      s

-- The inner loop: the receipts of one Space in the partition `labels`, oldest first.
unfoldable pub space_sources :
    Context → LabelSet → SpaceClass → List Str → Call (Context × List Candidate)
space_sources ctx labels class [] s = pure (ctx, []) s
space_sources ctx labels class (id ∷ ids) s =
    (do
      ctx' ← check_context ctx true
      (rest_ctx, rest) ← space_sources ctx' labels class ids
      let stored = receipt_of (get s.receipts id)
      pure (
        rest_ctx,
        if labels_eq stored.labels labels
            then record { receipt = stored; class = class; score = 0 } ∷ rest
            else rest,
      ))
      s

-- `s.candidateReads[spaceID].Add(1)`, which panics where there is no counter.
unfoldable pub count_read : Str → Call (Unit {0})
count_read space_id s = elim (get s.candidate_reads space_id) [
  | none ↦ (Outcome.panic, s)
  | some n ↦ pure tt (record s { candidate_reads = put s.candidate_reads space_id (increment n) })
]

-- The outer loop, over the readable Spaces.
unfoldable pub view_sources : Context → LabelSet → List Str → Call (Context × List Candidate)
unfolding count_read
view_sources ctx labels [] s = pure (ctx, []) s
view_sources ctx labels (space_id ∷ ids) s =
    (do
      ctx' ← check_context ctx true
      count_read space_id
      (ctx'', sources) ←
          space_sources ctx' labels (class_of (get s.spaces space_id))
            (ids_of (get s.receipts_by_space space_id))
      (rest_ctx, rest) ← view_sources ctx'' labels ids
      pure (rest_ctx, sources ++ rest))
      s

unfoldable pub recall_snapshot :
    Context → Readings → CallAuthorization → Str → Call (Context × List Candidate)
recall_snapshot ctx at auth min_token s =
    (do
      (view, labels) ← authorize at auth Operation.recall
      (if str_eq min_token [] then pure tt else check_token (get s.tokens min_token) view labels)
      view_sources ctx labels view.read_space_ids)
      s

-- `to_lower` is `strings.ToLower`.
unfoldable pub query_terms : (Str → Str) → Str → List Str
query_terms to_lower query = some_fields (fields (to_lower query))
  where
    some_fields : List Str → List Str
    some_fields [] = to_lower query ∷ []
    some_fields (t ∷ ts) = t ∷ ts

unfoldable pub count_terms : Str → List Str → ℕ
count_terms lower [] = 0
count_terms lower (t ∷ ts) = (if contains_str lower t then 1 else 0) + count_terms lower ts

unfoldable pub lexical_score : (Str → Str) → Str → List Str → ℕ
lexical_score to_lower value terms = count_terms (to_lower value) terms

-- The scoring loop keeps the sources that some term hits.
unfoldable pub score_sources :
    (Str → Str) → Context → List Str → List Candidate → Call (Context × List Candidate)
score_sources to_lower ctx terms [] s = pure (ctx, []) s
score_sources to_lower ctx terms (c ∷ cs) s =
    (do
      ctx' ← check_context ctx true
      (rest_ctx, rest) ← score_sources to_lower ctx' terms cs
      let score = lexical_score to_lower c.receipt.text terms
      pure (rest_ctx, if nat_eq score 0 then rest else record c { score = score } ∷ rest))
      s

-- Higher scores first, then later commits, then identifiers in order.
unfoldable pub ranks_before : Candidate → Candidate → Bool
ranks_before a b =
    if not (nat_eq a.score b.score)
    then ltb b.score a.score
    else if not (nat_eq a.receipt.commit_sequence b.receipt.commit_sequence)
    then ltb b.receipt.commit_sequence a.receipt.commit_sequence
    else str_lt a.receipt.id b.receipt.id

abbrev pub texts : List Fragment → List Str
texts = map (λ f. f.text)

abbrev pub fragment_of : Candidate → Str → Fragment
fragment_of c value = record {
  fragment_id = bytes "fragment:" ++ c.receipt.id;
  text = value;
  evidence_refs = c.receipt.id ∷ [];
  class = c.class;
}

abbrev pub is_last : List Candidate → Bool
is_last [] = true
is_last (c ∷ cs) = false

-- The loop that fills the response: the fragments so far, and whether something was left out.
unfoldable pub project :
    Context → ℕ → ℕ → List Candidate → List Fragment → Bool → Call (List Fragment × Bool)
project ctx max_fragments max_bytes [] fragments truncated s = pure (fragments, truncated) s
project ctx max_fragments max_bytes (c ∷ cs) fragments truncated s =
    let (kept, cut, fits) = fit_projected_text (texts fragments) c.receipt.text max_bytes in
    let fragments' = fragments ++ fragment_of c kept ∷ [] in
    let truncated' =
      truncated || cut || (not (is_last cs) && nat_eq (length fragments') max_fragments) in
    (do
      ctx' ← check_context ctx true
      let rest = project ctx' max_fragments max_bytes cs fragments' truncated'
      if nat_eq (length fragments) max_fragments
          then pure (fragments, true)
          else if not fits
          then pure (fragments, true)
          else if cut
          then pure (fragments', truncated')
          else rest)
      s

unfoldable pub recall :
    (Str → Str) → Context → Readings → CallAuthorization → RecallRequest → Call RecallResponse
recall to_lower ctx at auth request = do
  ctx1 ← check_context ctx false
  check_available
  check_valid (validate_recall request)
  (ctx2, sources) ← recall_snapshot ctx1 at auth request.min_consistency_token
  (ctx3, candidates) ← score_sources to_lower ctx2 (query_terms to_lower request.query) sources
  ctx4 ← check_context ctx3 true
  (fragments, truncated) ←
      project ctx4 (to_nat request.budget.max_fragments) (to_nat request.budget.max_bytes)
        (sort ranks_before candidates) [] false
  pure (record {
    fragments = fragments;
    consistency_token = request.min_consistency_token;
    truncated = truncated;
  })

pub record ReceiptStatus : Type 0 where
  pub receipt_id : Str
  pub state : ProcessingState
  pub accepted_at : Time

-- `!ok || !slices.Contains(view.ReadSpaceIDs, stored.spaceID) || …`
unfoldable pub status_of : Option Receipt → ViewDefinition → LabelSet → Call ReceiptStatus
status_of none view labels = fail not_found (text "receipt not found") false
status_of (some stored) view labels = do
  refuse
      (not (contains view.read_space_ids stored.space_id) || not (labels_eq stored.labels labels))
      not_found (text "receipt not found") false
  pure (record {
    receipt_id = stored.id;
    state = stored.processing_state;
    accepted_at = stored.received_at;
  })

unfoldable pub get_receipt_status :
    Context → Readings → CallAuthorization → Str → Call ReceiptStatus
get_receipt_status ctx at auth receipt_id = do
  _ ← check_context ctx false
  check_available
  refuse (str_eq receipt_id []) invalid_argument (text "receipt_id is required") false
  (view, labels) ← authorize at auth Operation.receipt_status
  λ s. status_of (get s.receipts receipt_id) view labels s

unfoldable pub set_available : Bool → Server → Server
set_available b s = record s { available = b }

unfoldable pub candidate_read_count : Server → Str → ℕ
candidate_read_count s space_id = elim (get s.candidate_reads space_id) [ none ↦ 0 | some n ↦ n ]
