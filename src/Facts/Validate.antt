-- ===== src/Facts/Validate.antt =====
-- The `Validate` methods of api/memory/facts/v1alpha1/validate.go.
use memory.Prelude.{
  ℕ, ◌*◌, Bool, true, false, not, ◌&&◌, ◌||◌, Option, none, some, List, [], ◌∷◌, ltb, leb, nat_eq,
  length, contains,
}
use memory.Prelude.Int.{lt_bound, gt_bound}
use memory.Prelude.Result.{Result, ok, err, ◌>>◌, refuse}
use memory.Text.Bytes.{Str, Str-eq, str_eq}
use memory.Text.Utf8.{valid_string}
use memory.Text.Strings.{trim_space, contains_any}
use memory.Labels.{LabelError, LabelResult, canonical_label_set}
use memory.Requests.{Time, SourceContext, ValidationError, validate_remember}
use memory.Facts.{
  Role, Transition, Source, Condition, Mutation, SubmitEvidenceRequest, IngestionPolicy, Budget,
  ReadRequest, HistoryRequest,
}

pub data FactError : Type 0 where
  source_identity source_fact_key source_role too_many_mutations wrong_subject : FactError
  repeated_target unconfirmed_edit bad_reference bad_text target_of_establish : FactError
  edit_without_target bad_transition zero_time reversed_interval change_without_time : FactError
  open_exception too_many_conditions bad_condition bad_budget bad_query : FactError
  zero_as_of too_many_context_values bad_context bad_history bad_policy : FactError
  bad_evidence : ValidationError → FactError
  bad_labels : LabelError → FactError

abbrev pub Check : Type 0
Check = Result FactError (Unit {0})

-- Carriage return, newline and NUL.
forbidden : Str
forbidden = 13 ∷ 10 ∷ 0 ∷ []

unfoldable pub bounded : Str → ℕ → Bool → Bool
unfolding forbidden
bounded s n required =
    valid_string s
    && leb (length s) n
    && (not required || not (str_eq s []))
    && str_eq (trim_space s) s
    && not (contains_any s forbidden)

unfoldable pub check_identity : List Str → Check
check_identity [] = ok tt
check_identity (v ∷ vs) = do refuse (not (bounded v 256 true)) source_identity; check_identity vs

unfoldable pub known_role : Role → Bool
known_role (Role.other s) = false
known_role _ = true

unfoldable pub validate_source : Source → Check
validate_source s = do
  check_identity (s.producer ∷ s.event_id ∷ s.revision ∷ s.fragment ∷ s.subject ∷ [])
  refuse (not (bounded s.fact_key 128 false)) source_fact_key
  refuse (not (known_role s.role)) source_role

-- `time.Time{}`, the first instant of the year 1; the year 0 has 366 days.
abbrev pub zero_instant : Time
zero_instant = 366 * 86400 * 1000000000

-- `t != nil && t.IsZero()`
abbrev pub is_zero_time : Option Time → Bool
is_zero_time none = false
is_zero_time (some t) = nat_eq t zero_instant

abbrev pub is_nil_time : Option Time → Bool
is_nil_time none = true
is_nil_time (some t) = false

-- `from != nil && until != nil && !until.After(*from)`
abbrev pub reversed : Option Time → Option Time → Bool
reversed (some from) (some until) = not (ltb from until)
reversed _ _ = false

unfoldable pub check_target : Mutation → Transition → Check
check_target m Transition.establish =
    refuse (not (str_eq m.target_record_id []) || not (nat_eq m.expected_revision 0))
      target_of_establish
check_target m (Transition.other s) = err bad_transition
check_target m _ =
    refuse (str_eq m.target_record_id [] || nat_eq m.expected_revision 0) edit_without_target

unfoldable pub check_interval : Mutation → Transition → Check
check_interval m Transition.change = refuse (is_nil_time m.valid_from) change_without_time
check_interval m Transition.exception =
    refuse (is_nil_time m.valid_from || is_nil_time m.valid_until || str_eq m.key []) open_exception
check_interval m _ = ok tt

-- The loop over the conditions, with the keys it has seen.
unfoldable pub check_conditions : List Condition → List Str → Check
check_conditions [] seen = ok tt
check_conditions (c ∷ cs) seen = do
  refuse (not (bounded c.key 128 true) || not (bounded c.value 256 true) || contains seen c.key)
      bad_condition
  check_conditions cs (c.key ∷ seen)

unfoldable pub validate_mutation : Mutation → Check
validate_mutation m = do
  refuse
      (not (bounded m.subject 256 true)
        || not (bounded m.key 128 false)
        || not (bounded m.target_record_id 256 false))
      bad_reference
  refuse (not (valid_string m.text) || str_eq (trim_space m.text) [] || ltb 32768 (length m.text))
      bad_text
  check_target m m.transition
  refuse (is_zero_time m.valid_from || is_zero_time m.valid_until) zero_time
  refuse (reversed m.valid_from m.valid_until) reversed_interval
  check_interval m m.transition
  refuse (ltb 8 (length m.conditions)) too_many_conditions
  check_conditions m.conditions []

abbrev pub is_establish : Transition → Bool
is_establish Transition.establish = true
is_establish _ = false

abbrev pub is_confirmation : Role → Bool
is_confirmation Role.structured_confirmation = true
is_confirmation _ = false

-- The loop over the mutations, with the targets it has seen.
unfoldable pub check_mutations : Source → List Mutation → List Str → Check
check_mutations source [] targets = ok tt
check_mutations source (m ∷ ms) targets = do
  validate_mutation m
  refuse (not (str_eq m.subject source.subject)) wrong_subject
  refuse (not (str_eq m.target_record_id []) && contains targets m.target_record_id) repeated_target
  refuse (not (is_establish m.transition) && not (is_confirmation source.role)) unconfirmed_edit
  check_mutations source ms (m.target_record_id ∷ targets)

-- The zero `SourceContext`.
abbrev pub no_context : SourceContext
no_context = record {
  actor_ref = [];
  session_ref = [];
  workspace_ref = [];
  task_ref = [];
  tool_call_ref = [];
  source_type = [];
  extension_labels = [];
}

abbrev pub evidence_error : Option ValidationError → Check
evidence_error none = ok tt
evidence_error (some e) = err (bad_evidence e)

unfoldable pub safely_validate_evidence : SubmitEvidenceRequest → Check
safely_validate_evidence r = do
  validate_source r.source
  evidence_error (
      validate_remember (record {
        text = r.text;
        source_context = no_context;
        occurred_at = r.occurred_at;
        idempotency_key = r.idempotency_key;
      }))

abbrev pub max_mutations : ℕ
max_mutations = 8

unfoldable pub validate_submit : SubmitEvidenceRequest → Check
validate_submit r = do
  safely_validate_evidence r
  refuse (ltb max_mutations (length r.mutations)) too_many_mutations
  check_mutations r.source r.mutations []

unfoldable pub validate_budget : Budget → Check
validate_budget b =
    refuse
      (lt_bound b.max_facts 1
        || gt_bound b.max_facts 64
        || lt_bound b.max_bytes 512
        || gt_bound b.max_bytes 1048576)
      bad_budget

unfoldable pub check_context : List (Str × Str) → Check
check_context [] = ok tt
check_context ((k, v) ∷ rest) = do
  refuse (not (bounded k 128 true) || not (bounded v 256 true)) bad_context
  check_context rest

unfoldable pub validate_read : ReadRequest → Check
validate_read r = do
  refuse
      (not (bounded r.subject 256 true)
        || not (bounded r.key 128 false)
        || not (valid_string r.query)
        || ltb 4096 (length r.query))
      bad_query
  refuse (is_zero_time r.as_of) zero_as_of
  refuse (ltb 8 (length r.context)) too_many_context_values
  check_context r.context
  validate_budget r.budget

unfoldable pub validate_history : HistoryRequest → Check
validate_history r = do
  refuse (not (bounded r.subject 256 true) || not (bounded r.record_id 256 true)) bad_history
  validate_budget r.budget

abbrev pub labels_error : LabelResult → Check
labels_error (LabelResult.ok ls) = ok tt
labels_error (LabelResult.err e) = err (bad_labels e)

unfoldable pub validate_policy : IngestionPolicy → Check
validate_policy p = do
  refuse
      (not (bounded p.scope.space_id 256 true)
        || not (bounded p.producer 256 true)
        || not (bounded p.subject 256 true)
        || not (bounded p.reason 512 false))
      bad_policy
  labels_error (canonical_label_set p.scope.labels)
