-- ===== src/Tests/Values.antt =====
-- The theorems on texts, labels, projections, budgets, facts and proposals at concrete values.
use mathlib.Core.List.{Perm, Nodup, flatten}
use mathlib.Core.List.Perm
use memory.Prelude.{
  ℕ, ◌≡◌, ◌≢◌, ◌↔◌, ◌≤◌, ◌<◌, ◌⊎◌, refl, true, false, none, some, [], ◌∷◌, contains, length, take,
  All, Distinct, arith,
}
use memory.Prelude.Int.{pos}
use memory.Prelude.Result.{ok}
use memory.Prelude.Sort.{sort, insert, IsSorted}
use memory.Text.Bytes.{Str, Str-eq, bytes, str_eq, str_lt}
use memory.Text.Utf8.{runes, runes_from, decode_rune, encode, valid_from}
use memory.Text.Utf8.Roundtrip.{runes-encode}
use memory.Text.Strings.{trim_space, contains_any, segments_from, drop_space, is_space, is_control}
use memory.Text.Json.{string_size, escaped_from, escaped_size}
use memory.Labels.{
  LabelSet, LabelResult, canonical_label_set, check_labels, well_formed, has_control,
  has_adjacent_duplicate, max_labels_per_set,
}
use memory.Labels.Canonical.{
  AreLabels, canonical_label_set-ok, canonical_label_set-accepts, canonical_label_set-perm,
}
use memory.Projection.{projected_size, fit_projected_text}
use memory.Projection.Sizes.{projected_size-take-le}
use memory.Projection.Fit.{IsLongest, fit_projected_text-outcome}
use memory.Requests.{
  min_recall_projection_bytes, validate_budget, validate_remember, validate_source_context,
  check_scalars, check_extension_labels, check_occurred_at, source_context_size, scalars,
}
use memory.Requests.Bounds.{validate_budget_iff}
use memory.Facts.{Role, Transition, Source, Mutation, SubmitEvidenceRequest}
use memory.Facts.Validate.{
  validate_submit, max_mutations, safely_validate_evidence, validate_source, check_identity,
  known_role, bounded, check_mutations, validate_mutation, check_target, check_interval,
  check_conditions,
}
use memory.Facts.Accepted
use memory.Facts.Accepted.{Sound, validate_submit-Sound}
use memory.Steward.{
  Operation, Proposal, ProposalOp, validate_shape, validate_batch_shape, is_batch, check_ops,
  validate_proposal_mutation, check_operation, check_content, check_evidence,
  validate_lexicon_terms, check_terms,
}
use memory.Steward.Shape.{WellShaped, validate_shape-WellShaped}

abbrev labels : LabelSet
labels = bytes "b" ∷ bytes "a" ∷ []

abbrev canonical : LabelSet
canonical = bytes "a" ∷ bytes "b" ∷ []

accepted : canonical_label_set labels ≡ LabelResult.ok canonical
unfolding canonical_label_set check_labels well_formed has_control has_adjacent_duplicate sort
    insert str_lt str_eq trim_space segments_from drop_space decode_rune is_space is_control
    runes_from valid_from flatten
accepted = refl

canonical_label_set-ok_example :
    Perm canonical labels
    × IsSorted str_lt canonical
    × Nodup canonical
    × AreLabels canonical
    × (length canonical ≤ max_labels_per_set)
canonical_label_set-ok_example = canonical_label_set-ok labels canonical accepted

canonical_label_set-accepts_example :
    canonical_label_set canonical ≡ LabelResult.ok (sort str_lt canonical)
canonical_label_set-accepts_example =
    canonical_label_set-accepts canonical (canonical_label_set-ok labels canonical accepted).4
      (canonical_label_set-ok labels canonical accepted).3
      (canonical_label_set-ok labels canonical accepted).2

canonical_label_set-perm_example : canonical_label_set canonical ≡ LabelResult.ok canonical
canonical_label_set-perm_example =
    canonical_label_set-perm labels canonical canonical
      (Perm.symm (canonical_label_set-ok labels canonical accepted).0) accepted

runes-encode_example : runes_from 0 (encode (233 ∷ 8364 ∷ [])) ≡ 233 ∷ 8364 ∷ []
runes-encode_example = runes-encode (233 ∷ 8364 ∷ []) (refl, (refl, tt))

projected_size-take-le_example :
    projected_size (bytes "tea" ∷ []) (encode (take 1 (233 ∷ 8364 ∷ [])))
    ≤ projected_size (bytes "tea" ∷ []) (encode (take 2 (233 ∷ 8364 ∷ [])))
projected_size-take-le_example =
    projected_size-take-le (bytes "tea" ∷ []) (233 ∷ 8364 ∷ []) 1 2 (refl, (refl, tt)) (omega arith)

fit_projected_text-outcome_example :
    ((fit_projected_text (bytes "tea" ∷ []) (bytes "coffee") 27 ≡ (bytes "coffee", false, true))
      × (projected_size (bytes "tea" ∷ []) (bytes "coffee") ≤ 27))
    ⊎ ((best : Str) × (fit_projected_text (bytes "tea" ∷ []) (bytes "coffee") 27
          ≡ (best, true, true))
        × (best ≢ [])
        × (27 < projected_size (bytes "tea" ∷ []) (bytes "coffee"))
        × (projected_size (bytes "tea" ∷ []) best ≤ 27)
        × IsLongest (bytes "tea" ∷ []) (runes (bytes "coffee")) 27 best)
    ⊎ ((fit_projected_text (bytes "tea" ∷ []) (bytes "coffee") 27 ≡ ([], true, false))
        × (27 < projected_size (bytes "tea" ∷ []) (bytes "coffee"))
        × ((j : ℕ)
            → 0 < j
            → j ≤ length (runes (bytes "coffee"))
            → 27 < projected_size (bytes "tea" ∷ []) (encode (take j (runes (bytes "coffee"))))))
fit_projected_text-outcome_example =
    fit_projected_text-outcome (bytes "tea" ∷ []) (bytes "coffee") 27

validate_budget_iff_example :
    (validate_budget (record { max_fragments = pos 64; max_bytes = pos 16; deadline_ms = pos 1 })
      ≡ none)
    ↔ (((k : ℕ) × (pos 64 ≡ pos k) × (1 ≤ k) × (k ≤ 64))
        × ((k : ℕ) × (pos 16 ≡ pos k) × (min_recall_projection_bytes ≤ k) × (k ≤ 65536))
        × ((k : ℕ) × (pos 1 ≡ pos k) × (1 ≤ k) × (k ≤ 30000)))
validate_budget_iff_example = validate_budget_iff (pos 64) (pos 16) (pos 1)

abbrev source : Source
source = record {
  producer = bytes "host";
  event_id = bytes "e";
  revision = bytes "1";
  fragment = bytes "f";
  subject = bytes "user";
  fact_key = [];
  role = Role.structured_confirmation;
}

abbrev change : Mutation
change = record {
  transition = Transition.change;
  target_record_id = bytes "rec";
  expected_revision = 2;
  subject = bytes "user";
  key = [];
  text = bytes "tea";
  valid_from = some 5;
  valid_until = some 9;
  conditions = record { key = bytes "at"; value = bytes "home" } ∷ [];
}

abbrev evidence : SubmitEvidenceRequest
evidence = record {
  source = source;
  text = bytes "now tea";
  occurred_at = none;
  idempotency_key = bytes "k";
  mutations = change ∷ [];
}

evidence_valid : validate_submit evidence ≡ ok tt
unfolding validate_submit safely_validate_evidence validate_source check_identity known_role bounded
    check_mutations validate_mutation check_target check_interval check_conditions contains str_eq
    trim_space segments_from drop_space decode_rune is_space contains_any valid_from flatten
    validate_remember validate_source_context check_scalars check_extension_labels check_occurred_at
    source_context_size scalars string_size escaped_from escaped_size
evidence_valid = refl

validate_submit-Sound_example :
    (length evidence.mutations ≤ max_mutations)
    × All (Sound evidence.source) evidence.mutations
    × Distinct (Accepted.targets evidence.mutations)
validate_submit-Sound_example = validate_submit-Sound evidence evidence_valid

abbrev merge : ProposalOp
merge = record {
  operation = Operation.merge;
  target_record_id = bytes "rec";
  expected_revision = 2;
  kind = bytes "habit";
  text = bytes "tea";
  evidence_refs = bytes "receipt-1" ∷ bytes "receipt-2" ∷ [];
}

abbrev add : ProposalOp
add = record merge { operation = Operation.add; target_record_id = []; expected_revision = 0 }

abbrev proposal : Proposal
proposal = record {
  operation = Operation.other [];
  target_record_id = [];
  expected_revision = 0;
  kind = [];
  text = [];
  evidence_refs = [];
  lexicon_terms = bytes "tea" ∷ [];
  policy = bytes "bounded_batch";
  ops = merge ∷ add ∷ [];
}

proposal_valid : validate_shape proposal ≡ ok tt
unfolding validate_shape validate_batch_shape is_batch check_ops validate_proposal_mutation
    check_operation check_content check_evidence validate_lexicon_terms check_terms contains str_eq
    trim_space segments_from drop_space decode_rune is_space contains_any valid_from flatten
proposal_valid = refl

validate_shape-WellShaped_example : WellShaped proposal
validate_shape-WellShaped_example = validate_shape-WellShaped proposal proposal_valid
