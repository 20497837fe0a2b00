-- ===== src/Reference/Recall/Isolation.antt =====
-- A Recall from its checks to its response, by what the response discloses.
use memory.Prelude.{ℕ, ◌≡◌, arith, true, false, List, [], All, if◌then◌else◌}
use memory.Prelude.Map.{get}
use memory.Prelude.Int.{to_nat}
use memory.Prelude.Result.{Result}
use memory.Prelude.Sort.{sort}
use memory.Text.Bytes.{Str, Str-eq, str_eq}
use memory.Labels.{LabelSet}
use memory.Requests.{RecallRequest, validate_recall}
use memory.Reference.Types.{Operation, ViewDefinition, CallAuthorization}
use memory.Reference.State.{Server, Context, check_context, check_available, check_valid, pure}
use memory.Reference.Authorize.{Readings, authorization, authorize}
use memory.Reference.Recall.{
  Candidate, RecallResponse, check_token, view_sources, recall_snapshot, query_terms, score_sources,
  ranks_before, project, recall,
}
use memory.Reference.Gates.{
  check_context-Gate, check_available-Gate, check_valid-Gate, authorize-Gate,
}
use memory.Reference.Machine.Frames.{SameStore, SameStore-refl, Keeps-pure}
use memory.Reference.Machine.Reads.{check_token-Keeps, Keeps-if}
use memory.Reference.Recall.Returned.{
  Returned, Returned-bind, Returned-Gate, Returned-map, Keeps-Returned,
}
use memory.Reference.Recall.Sources.{Readable, view_sources-Readable}
use memory.Reference.Recall.Disclosed.{
  Disclosed, All-sort, score_sources-Readable, Within, project-Within,
}

-- The candidates of a snapshot, with the View and the partition of the call.
abbrev Snapshot : Server → Readings → CallAuthorization → List Candidate → Type 0
Snapshot s at auth cs =
    (v : ViewDefinition × LabelSet) × (authorization s at auth Operation.recall ≡ Result.ok v)
    × All (Readable s v.1 v.0.read_space_ids) cs

recall_snapshot-Snapshot :
    (ctx : Context) (at : Readings) (auth : CallAuthorization) (token : Str) (s : Server)
    → Returned (λ r _. Snapshot s at auth r.1) (recall_snapshot ctx at auth token s)
unfolding recall_snapshot
recall_snapshot-Snapshot ctx at auth token s =
    Returned-Gate Q (authorize at auth Operation.recall) _ _ s
      (authorize-Gate at auth Operation.recall s)
      λ v granted.
        let checked =
          Keeps-if (str_eq token []) (pure tt) (check_token (get s.tokens token) v.0 v.1)
            (Keeps-pure tt) (check_token-Keeps (get s.tokens token) v.0 v.1) in
        Returned-bind
          (if str_eq token [] then pure tt else check_token (get s.tokens token) v.0 v.1) _ s
          (λ _ u. SameStore s u) Q
          (Keeps-Returned
            (if str_eq token [] then pure tt else check_token (get s.tokens token) v.0 v.1) s s
            checked (SameStore-refl s))
          λ _ u same.
            Returned-map (λ r w. SameStore s w × All (Readable s v.1 v.0.read_space_ids) r.1) Q
              (view_sources ctx v.1 v.0.read_space_ids u) (λ r w h. (v, granted, h.1))
              (view_sources-Readable s v.1 ctx v.0.read_space_ids u same)
  where
    Q : Context × List Candidate → Server → Type 0
    Q r u = Snapshot s at auth r.1

-- A Recall that returns a response was authorized in some View and partition. The response has at
-- most the requested number of fragments. Each is the text of a receipt as `fit_projected_text`
-- fits it, after the texts of the fragments before it, to the bytes of the budget, and its
-- projection beside those texts is within the budget; the receipt is listed under a Space which
-- the View reads and has exactly the labels of the partition, and the fragment names that receipt
-- as its evidence and has the class of that Space.
pub recall-Disclosed :
    (to_lower : Str → Str) (ctx : Context) (at : Readings) (auth : CallAuthorization)
    (request : RecallRequest) (s : Server)
    → Returned
        (λ response _. Disclosed s at auth request response)
        (recall to_lower ctx at auth request s)
unfolding recall Within
recall-Disclosed to_lower ctx at auth request s =
    Returned-Gate Q (check_context ctx false) _ _ s (check_context-Gate ctx false s) λ ctx1 _.
      Returned-Gate Q check_available _ _ s (check_available-Gate s) λ _ _.
        Returned-Gate Q (check_valid (validate_recall request)) _ _ s
          (check_valid-Gate (validate_recall request) s)
          λ _ _.
            Returned-bind (recall_snapshot ctx1 at auth request.min_consistency_token) _ s
              (λ r _. Snapshot s at auth r.1) Q
              (recall_snapshot-Snapshot ctx1 at auth request.min_consistency_token s)
              λ r t found.
                let v = found.0 in
                Returned-bind (score_sources to_lower r.0 (query_terms to_lower request.query) r.1)
                  _ t (λ q _. All (Readable s v.1 v.0.read_space_ids) q.1) Q
                  (score_sources-Readable s v.1 v.0.read_space_ids to_lower r.0
                    (query_terms to_lower request.query) r.1 t found.2)
                  λ q u scored.
                    Returned-Gate Q (check_context q.0 true) _ _ u (check_context-Gate q.0 true u)
                      λ ctx4 _.
                        Returned-bind
                          (project ctx4 max_fragments max_bytes (sort ranks_before q.1) [] false) _
                          u (Within s v.1 v.0.read_space_ids max_fragments max_bytes) Q
                          (project-Within s v.1 v.0.read_space_ids max_fragments max_bytes ctx4
                            (sort ranks_before q.1) [] false u
                            (All-sort (Readable s v.1 v.0.read_space_ids) ranks_before q.1 scored)
                            tt (omega arith))
                          λ p w h. record {
                            view = v.0;
                            labels = v.1;
                            granted = found.1;
                            excerpts = h.0;
                            count = h.1;
                          }
  where
    Q : RecallResponse → Server → Type 0
    Q response t = Disclosed s at auth request response

    max_fragments : ℕ
    max_fragments = to_nat request.budget.max_fragments

    max_bytes : ℕ
    max_bytes = to_nat request.budget.max_bytes
