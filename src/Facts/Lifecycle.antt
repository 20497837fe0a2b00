-- ===== src/Facts/Lifecycle.antt =====
-- One edit of a fact: `applyFactMutation` of internal/appliance/facts_lifecycle.go, with its guards in the order of the
-- code. A mutation has passed `Validate`, so that a change and an exception have their times; the code reads those
-- without a test. A revision number does not reach the end of its type. Conditions that are empty
-- are nil by then, as `SubmitEvidence` copies them, so the two need not be told apart.
use memory.Prelude.{
  Bool, true, false, not, ◌&&◌, ◌||◌, Option, none, some, List, [], ◌∷◌, nat_eq, if◌then◌else◌,
}
use memory.Prelude.Result.{Result, ok, err, ◌>>=◌, ◌>>◌, refuse}
use memory.Appliance.{AuthorizedView}
use memory.Text.Bytes.{Str, str_eq, bytes, Str-eq}
use memory.Requests.{Time}
use memory.Facts.{Role, Transition, Source, Condition, Mutation}
use memory.Facts.Store.{
  Adoption, HistoricalState, Metadata, Fact, SemanticRecord, SemanticRevision, FactStore, FactError,
  target_absent, target_stale, target_differs, conditions_differ, not_pending, not_confirmed,
  onset_not_after, corrected_onset, exception_only_corrected, exception_not_finite, no_metadata,
  is_active, is_confirmed, is_pending, is_present, before, conditions_eq, find_record,
  find_revision, head_fact, read_fact_revision,
}
use memory.Facts.Timeline.{fact_timeline}

abbrev pub is_establish : Transition → Bool
is_establish Transition.establish = true
is_establish _ = false

abbrev pub is_change : Transition → Bool
is_change Transition.change = true
is_change _ = false

abbrev pub is_exception : Transition → Bool
is_exception Transition.exception = true
is_exception _ = false

abbrev pub is_correct : Transition → Bool
is_correct Transition.correct = true
is_correct _ = false

abbrev pub is_confirm : Transition → Bool
is_confirm Transition.confirm = true
is_confirm _ = false

abbrev pub is_deny : Transition → Bool
is_deny Transition.deny = true
is_deny _ = false

unfoldable pub transition_name : Transition → Str
transition_name Transition.establish = bytes "establish"
transition_name Transition.change = bytes "change"
transition_name Transition.exception = bytes "exception"
transition_name Transition.correct = bytes "correct"
transition_name Transition.confirm = bytes "confirm"
transition_name Transition.deny = bytes "deny"
transition_name (Transition.other name) = name

abbrev pub is_authoritative : Role → Bool
is_authoritative Role.structured_confirmation = true
is_authoritative Role.observation = true
is_authoritative _ = false

unfoldable pub base_metadata : Source → Mutation → Metadata
base_metadata source m = record {
  subject = m.subject;
  key = m.key;
  adoption =
      if is_deny m.transition
      then Adoption.denied
      else if is_authoritative source.role
      then Adoption.confirmed
      else Adoption.pending;
  valid_from = m.valid_from;
  valid_until = m.valid_until;
  conditions = m.conditions;
  transition = m.transition;
  related_record_id = [];
}

abbrev pub same_time : Option Time → Option Time → Bool
same_time (some t) (some u) = nat_eq t u
same_time _ _ = false

-- A change or an exception that does not follow the onset of its target.
unfoldable pub too_early : Mutation → Option Time → Bool
too_early m onset =
    is_present onset
    && (before m.valid_from onset || is_change m.transition && same_time m.valid_from onset)

abbrev pub is_changed : HistoricalState → Bool
is_changed HistoricalState.changed = true
is_changed _ = false

abbrev pub later_or : Option Fact → Fact → Option Fact
later_or (some later) h = some later
later_or none h = if is_changed h.historical_state then some h else none

-- The last fact but the current one that was changed.
unfoldable pub preceding_changed : List Fact → Option Fact
preceding_changed [] = none
preceding_changed (h ∷ []) = none
preceding_changed (h ∷ g ∷ hs) = later_or (preceding_changed (g ∷ hs)) h

abbrev pub not_after : Option Time → Option Fact → Bool
not_after from none = false
not_after none (some previous) = true
not_after (some t) (some previous) =
    is_present previous.metadata.valid_from && not (before previous.metadata.valid_from (some t))

-- The checks of the target that read the prior revision, and the metadata that they settle.
unfoldable pub check_prior : FactStore → Mutation → Fact → Metadata → Result FactError Metadata
check_prior s m prior meta = do
  refuse (not (str_eq prior.metadata.subject m.subject) || not (str_eq prior.metadata.key m.key))
      target_differs
  refuse (not (conditions_eq prior.metadata.conditions m.conditions)) conditions_differ
  refuse
      (is_confirm m.transition
        && (not (is_pending prior.metadata.adoption) || not (str_eq prior.text m.text)))
      not_pending
  refuse
      ((is_change m.transition || is_exception m.transition)
        && not (is_confirmed prior.metadata.adoption))
      not_confirmed
  refuse
      ((is_change m.transition || is_exception m.transition)
        && too_early m prior.metadata.valid_from)
      onset_not_after
  refuse
      (is_correct m.transition
        && str_eq prior.metadata.related_record_id []
        && not_after m.valid_from (preceding_changed (fact_timeline s m.target_record_id)))
      corrected_onset
  let from = if is_confirm m.transition then prior.metadata.valid_from else meta.valid_from
  let until = if is_confirm m.transition then prior.metadata.valid_until else meta.valid_until
  let is_related = not (str_eq prior.metadata.related_record_id [])
  refuse (is_related && not (is_deny m.transition) && not (is_correct m.transition))
      exception_only_corrected
  refuse (is_related && (not (is_present from) || not (is_present until))) exception_not_finite
  ok (record meta {
    valid_from = from;
    valid_until = until;
    related_record_id =
        if is_related then prior.metadata.related_record_id else meta.related_record_id;
  })

abbrev pub require_record : Option SemanticRecord → Result FactError SemanticRecord
require_record none = err target_absent
require_record (some r) = ok r

-- The metadata of the edit, and the evidence of the revision that it edits.
unfoldable pub check_target :
    FactStore → AuthorizedView → Mutation → Metadata → Result FactError (Metadata × List Str)
check_target s view m meta = if str_eq m.target_record_id [] then ok (meta, []) else do
  r ← require_record (find_record m.target_record_id s.records)
  refuse
      (not (str_eq r.space_id view.write_space_id)
        || not (str_eq r.label_set_digest view.label_set_digest)
        || not (is_active r.status)
        || not (nat_eq r.current_revision m.expected_revision))
      target_stale
  prior ← read_fact_revision s m.target_record_id r.current_revision
  settled ← check_prior s m prior meta
  ok (settled, prior.evidence)

-- `r.space_id=? AND r.label_set_digest=? AND r.subject=? AND r.fact_key=? AND r.status='active'`
unfoldable pub in_scope : AuthorizedView → Str → Str → SemanticRecord → Bool
in_scope view subject key r =
    str_eq r.space_id view.write_space_id
    && str_eq r.label_set_digest view.label_set_digest
    && str_eq r.subject subject
    && str_eq r.fact_key key
    && is_active r.status

-- A row of a query, if its revision is there; the metadata is parsed.
abbrev pub test_row :
    (Metadata → Bool) → Option SemanticRevision → Result FactError Bool → Result FactError Bool
test_row test none rest = rest
test_row test (some v) rest = elim v.fact [
  | none ↦ err no_metadata
  | some other ↦ rest >>= λ conflict. ok (test other || conflict)
]

-- Whether the current revision of a record in question passes a test.
unfoldable pub scan_heads :
    (SemanticRecord → Bool)
    → (Metadata → Bool)
    → List SemanticRevision
    → List SemanticRecord
    → Result FactError Bool
scan_heads joined test revisions [] = ok false
scan_heads joined test revisions (r ∷ rs) =
    let rest = scan_heads joined test revisions rs in
    if joined r
    then test_row test (find_revision r.record_id r.current_revision revisions) rest
    else rest

unfoldable pub any_head :
    (SemanticRecord → Bool) → (Metadata → Bool) → List SemanticRevision → List SemanticRecord → Bool
any_head joined test revisions [] = false
any_head joined test revisions (r ∷ rs) =
    joined r && elim (head_fact revisions r) [ none ↦ false | some other ↦ test other ]
    || any_head joined test revisions rs

-- An unrelated fact under the same conditions.
unfoldable pub same_assertion : List Condition → Metadata → Bool
same_assertion conditions other =
    str_eq other.related_record_id [] && conditions_eq other.conditions conditions

-- `confirmedFactConflict`
unfoldable pub confirmed_fact_conflict : FactStore → AuthorizedView → Metadata → Str → Bool
confirmed_fact_conflict s view meta id =
    any_head (λ r. in_scope view meta.subject meta.key r && not (str_eq r.record_id id))
      (λ other. is_confirmed other.adoption && same_assertion meta.conditions other) s.revisions
      s.records

-- A confirmed exception to the same fact, in an interval that meets that of `meta`.
unfoldable pub overlaps : Metadata → Metadata → Bool
overlaps meta other =
    str_eq other.related_record_id meta.related_record_id
    && is_confirmed other.adoption
    && before meta.valid_from other.valid_until
    && before other.valid_from meta.valid_until

unfoldable pub establish_conflict : FactStore → AuthorizedView → Mutation → Result FactError Bool
establish_conflict s view m =
    scan_heads (in_scope view m.subject m.key) (same_assertion m.conditions) s.revisions s.records

unfoldable pub exception_conflict :
    FactStore → AuthorizedView → Mutation → Metadata → Result FactError Bool
exception_conflict s view m meta =
    scan_heads (λ r. in_scope view m.subject m.key r && not (str_eq r.record_id m.target_record_id))
      (overlaps meta) s.revisions s.records
