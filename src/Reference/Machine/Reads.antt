-- ===== src/Reference/Machine/Reads.antt =====
-- Recall and the status of a receipt write nothing but the counters.
use memory.Prelude.{
  ℕ, refl, Bool, true, false, Option, none, some, List, [], ◌∷◌, ◌++◌, Option-cases, inl, inr,
  if◌then◌else◌, nat_eq, not, ◌||◌, ◌&&◌, length,
}
use memory.Prelude.Map.{get}
use memory.Prelude.Sort.{sort}
use memory.Prelude.Int.{to_nat}
use memory.Text.Bytes.{Str, Str-eq, str_eq}
use memory.Labels.{LabelSet}
use memory.Projection.{fit_projected_text}
use memory.Requests.{RecallRequest, validate_recall}
use memory.Reference.Types.{
  Operation, SpaceClass, Cursor, Receipt, ViewDefinition, CallAuthorization,
}
use memory.Reference.State.{
  Server, Call, Context, pure, check_context, check_available, check_valid, refuse,
}
use memory.Reference.Authorize.{Readings, authorize}
use memory.Reference.Recall.{
  Candidate, Fragment, space_sources, view_sources, count_read, check_token, recall_snapshot,
  score_sources, project, recall, get_receipt_status, status_of, query_terms, class_of,
  ranks_before, texts, fragment_of, is_last,
}
use memory.Reference.Remember.{ids_of}
use memory.Reference.Machine.Frames.{
  SameStore-refl, Keeps, Keeps-bind, Keeps-pure, Keeps-fail, Keeps-refuse, Keeps-check_context,
  Keeps-check_available, Keeps-check_valid, Keeps-get, Keeps-authorize,
}

space_sources-Keeps :
    (ctx : Context) (labels : LabelSet) (class : SpaceClass) (ids : List Str)
    → Keeps (space_sources ctx labels class ids)
unfolding space_sources
space_sources-Keeps ctx labels class [] = Keeps-get (λ s. pure (ctx, [])) (λ s. Keeps-pure _)
space_sources-Keeps ctx labels class (id ∷ ids) = Keeps-get _ λ s.
    Keeps-bind (check_context ctx true) _ (Keeps-check_context ctx true) λ ctx'.
      Keeps-bind (space_sources ctx' labels class ids) _ (space_sources-Keeps ctx' labels class ids)
        λ r. Keeps-pure _

pub count_read-Keeps : (space_id : Str) → Keeps (count_read space_id)
unfolding count_read
count_read-Keeps space_id = record {
  at = λ s. elim (Option-cases (get s.candidate_reads space_id)) [
    | inl e ↦ rw (e, count_read) (SameStore-refl s)
    | inr (n, e) ↦
        rw (e, count_read)
          (record {
            authority = record { spaces = refl; views = refl; grants = refl; capabilities = refl };
            receipts = refl;
            receipts_by_space = refl;
            idempotency = refl;
            tokens = refl;
            next_id = refl;
            sequence = refl;
            generation = refl;
          })
  ];
}

view_sources-Keeps :
    (ctx : Context) (labels : LabelSet) (ids : List Str) → Keeps (view_sources ctx labels ids)
unfolding view_sources
view_sources-Keeps ctx labels [] = Keeps-get (λ s. pure (ctx, [])) (λ s. Keeps-pure _)
view_sources-Keeps ctx labels (space_id ∷ ids) = Keeps-get _ λ s.
    Keeps-bind (check_context ctx true) _ (Keeps-check_context ctx true) λ ctx'.
      Keeps-bind (count_read space_id) _ (count_read-Keeps space_id) λ _.
        Keeps-bind
          (space_sources ctx' labels (class_of (get s.spaces space_id))
            (ids_of (get s.receipts_by_space space_id)))
          _ (space_sources-Keeps ctx' labels _ _)
          λ r.
            Keeps-bind (view_sources r.0 labels ids) _ (view_sources-Keeps r.0 labels ids)
              λ q. Keeps-pure _

pub check_token-Keeps :
    (o : Option Cursor) (view : ViewDefinition) (labels : LabelSet)
    → Keeps (check_token o view labels)
unfolding check_token
check_token-Keeps none view labels = Keeps-get (λ s. _) (λ s. Keeps-fail _ _ _)
check_token-Keeps (some at) view labels = Keeps-get _ λ s.
    Keeps-bind (refuse (not (str_eq at.generation s.generation)) _ _ _) _ (Keeps-refuse _ _ _ _)
      λ _. Keeps-refuse _ _ _ _

recall_snapshot-Keeps :
    (ctx : Context) (at : Readings) (auth : CallAuthorization) (min_token : Str)
    → Keeps (recall_snapshot ctx at auth min_token)
unfolding recall_snapshot
recall_snapshot-Keeps ctx at auth min_token = Keeps-get _ λ s.
    Keeps-bind (authorize at auth Operation.recall) _ (Keeps-authorize at auth Operation.recall)
      λ v.
        Keeps-bind
          (if str_eq min_token [] then pure tt else check_token (get s.tokens min_token) v.0 v.1) _
          (token v s (str_eq min_token [])) λ _. view_sources-Keeps ctx v.1 v.0.read_space_ids
  where
    token :
        (v : ViewDefinition × LabelSet) (s : Server) (b : Bool)
        → Keeps (if b then pure tt else check_token (get s.tokens min_token) v.0 v.1)
    token v s true = Keeps-pure tt
    token v s false = check_token-Keeps (get s.tokens min_token) v.0 v.1

score_sources-Keeps :
    (to_lower : Str → Str) (ctx : Context) (terms : List Str) (cs : List Candidate)
    → Keeps (score_sources to_lower ctx terms cs)
unfolding score_sources
score_sources-Keeps to_lower ctx terms [] = Keeps-get (λ s. pure (ctx, [])) (λ s. Keeps-pure _)
score_sources-Keeps to_lower ctx terms (c ∷ cs) = Keeps-get _ λ s.
    Keeps-bind (check_context ctx true) _ (Keeps-check_context ctx true) λ ctx'.
      Keeps-bind (score_sources to_lower ctx' terms cs) _
        (score_sources-Keeps to_lower ctx' terms cs) λ r. Keeps-pure _

pub Keeps-if :
    {A : Type 0} (b : Bool) (m n : Call A) → Keeps m → Keeps n → Keeps (if b then m else n)
Keeps-if true m n km kn = km
Keeps-if false m n km kn = kn

project-Keeps :
    (ctx : Context) (max_fragments max_bytes : ℕ) (cs : List Candidate) (fragments : List Fragment)
    (truncated : Bool)
    → Keeps (project ctx max_fragments max_bytes cs fragments truncated)
unfolding project
project-Keeps ctx max_fragments max_bytes [] fragments truncated =
    Keeps-get (λ s. pure (fragments, truncated)) (λ s. Keeps-pure _)
project-Keeps ctx max_fragments max_bytes (c ∷ cs) fragments truncated = Keeps-get _ λ s.
    Keeps-bind (check_context ctx true) _ (Keeps-check_context ctx true) λ ctx'.
      let fit = fit_projected_text (texts fragments) c.receipt.text max_bytes in
      let fragments' = fragments ++ fragment_of c fit.0 ∷ [] in
      let truncated' =
        truncated || fit.1 || (not (is_last cs) && nat_eq (length fragments') max_fragments) in
      let rest = project ctx' max_fragments max_bytes cs fragments' truncated' in
      Keeps-if (nat_eq (length fragments) max_fragments) (pure (fragments, true)) _ (Keeps-pure _) (
        Keeps-if (not fit.2) (pure (fragments, true)) _ (Keeps-pure _) (
          Keeps-if fit.1 (pure (fragments', truncated')) rest (Keeps-pure _)
            (project-Keeps ctx' max_fragments max_bytes cs fragments' truncated')))

-- A Recall, whatever its outcome, leaves the Spaces, Views, grants, capabilities, receipts,
-- idempotency entries, consistency tokens and the counters of Remember as they were.
pub recall-SameStore :
    (to_lower : Str → Str) (ctx : Context) (at : Readings) (auth : CallAuthorization)
    (request : RecallRequest)
    → Keeps (recall to_lower ctx at auth request)
unfolding recall
recall-SameStore to_lower ctx at auth request =
    Keeps-bind (check_context ctx false) _ (Keeps-check_context ctx false) λ ctx1.
      Keeps-bind check_available _ Keeps-check_available λ _.
        Keeps-bind (check_valid (validate_recall request)) _
          (Keeps-check_valid (validate_recall request))
          λ _.
            Keeps-bind (recall_snapshot ctx1 at auth request.min_consistency_token) _
              (recall_snapshot-Keeps ctx1 at auth _)
              λ r.
                Keeps-bind (score_sources to_lower r.0 (query_terms to_lower request.query) r.1) _
                  (score_sources-Keeps to_lower r.0 _ r.1)
                  λ q. Keeps-bind (check_context q.0 true) _ (Keeps-check_context q.0 true) λ ctx4.
                    Keeps-bind
                      (project ctx4 (to_nat request.budget.max_fragments)
                        (to_nat request.budget.max_bytes) (sort ranks_before q.1) [] false)
                      _ (project-Keeps ctx4 _ _ _ [] false) λ p. Keeps-pure _

status_of-Keeps :
    (o : Option Receipt) (view : ViewDefinition) (labels : LabelSet)
    → Keeps (status_of o view labels)
unfolding status_of
status_of-Keeps none view labels = Keeps-fail _ _ _
status_of-Keeps (some stored) view labels =
    Keeps-bind (refuse _ _ _ _) _ (Keeps-refuse _ _ _ _) λ _. Keeps-pure _

pub get_receipt_status-SameStore :
    (ctx : Context) (at : Readings) (auth : CallAuthorization) (receipt_id : Str)
    → Keeps (get_receipt_status ctx at auth receipt_id)
unfolding get_receipt_status
get_receipt_status-SameStore ctx at auth receipt_id =
    Keeps-bind (check_context ctx false) _ (Keeps-check_context ctx false) λ _.
      Keeps-bind check_available _ Keeps-check_available λ _.
        Keeps-bind (refuse (str_eq receipt_id []) _ _ _) _ (Keeps-refuse _ _ _ _) λ _.
          Keeps-bind (authorize at auth Operation.receipt_status) _
            (Keeps-authorize at auth Operation.receipt_status)
            λ v.
              Keeps-get (λ s. status_of (get s.receipts receipt_id) v.0 v.1)
                (λ s. status_of-Keeps _ v.0 v.1)
