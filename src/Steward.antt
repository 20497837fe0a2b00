-- ===== src/Steward.antt =====
-- The Steward contract of api/memory/steward/v1alpha1/types.go: profiles and proposals, and their
-- checks.
pub mod Shape
pub mod Jobs
use memory.Prelude.{
  ℕ, ◌≡◌, refl, Bool, true, false, not, ◌&&◌, ◌||◌, List, [], ◌∷◌, ltb, leb, nat_eq, if◌then◌else◌,
  length, contains,
}
use memory.Prelude.Int.{ℤ, lt_bound, gt_bound}
use memory.Prelude.Result.{Result, ok, err, ◌>>=◌, ◌>>◌, refuse}
use memory.Text.Bytes.{Str, Str-eq, str_eq, bytes}
use memory.Text.Utf8.{valid_string}
use memory.Text.Strings.{trim_space, contains_any}

abbrev pub max_record_text_bytes : ℕ
max_record_text_bytes = 32768

abbrev pub max_record_kind_bytes : ℕ
max_record_kind_bytes = 64

abbrev pub max_proposal_evidence : ℕ
max_proposal_evidence = 32

abbrev pub max_lexicon_terms : ℕ
max_lexicon_terms = 16

abbrev pub max_proposal_ops : ℕ
max_proposal_ops = 8

abbrev pub policy_bounded_batch : Str
policy_bounded_batch = bytes "bounded_batch"

pub record ProfileSpec : Type 0 where
  pub profile_id : Str
  pub version : ℕ
  pub system_prompt : Str
  pub max_context_records : ℤ
  pub max_input_bytes : ℤ
  pub max_output_bytes : ℤ

pub data Operation : Type 0 where
  add merge supersede ignore : Operation
  other : Str → Operation

pub record ProposalOp : Type 0 where
  pub operation : Operation
  pub target_record_id : Str
  pub expected_revision : ℕ
  pub kind : Str
  pub text : Str
  pub evidence_refs : List Str

pub record Proposal : Type 0 where
  pub operation : Operation
  pub target_record_id : Str
  pub expected_revision : ℕ
  pub kind : Str
  pub text : Str
  pub evidence_refs : List Str
  pub lexicon_terms : List Str
  pub policy : Str
  pub ops : List ProposalOp

pub data ShapeError : Type 0 where
  bad_profile_id bad_system_prompt bad_context_records bad_input_bytes : ShapeError
  bad_output_bytes policy_without_ops ops_without_policy mixed_shapes bad_op_count : ShapeError
  repeated_target ignore_with_fields add_with_target edit_without_target bad_operation : ShapeError
  bad_kind bad_text bad_evidence_count empty_evidence repeated_evidence : ShapeError
  too_many_terms bad_term repeated_term : ShapeError

abbrev pub Check : Type 0
Check = Result ShapeError (Unit {0})

-- Carriage return, newline and tab.
abbrev pub line_breaks : Str
line_breaks = 13 ∷ 10 ∷ 9 ∷ []

unfoldable pub bounded_reference : Str → ℕ → Bool
bounded_reference value limit =
    valid_string value
    && not (str_eq value [])
    && str_eq (trim_space value) value
    && leb (length value) limit
    && not (contains_any value line_breaks)

unfoldable pub validate_profile : ProfileSpec → Check
validate_profile p = do
  refuse (not (bounded_reference p.profile_id 128) || nat_eq p.version 0) bad_profile_id
  refuse
      (not (valid_string p.system_prompt)
        || str_eq (trim_space p.system_prompt) []
        || ltb 32768 (length p.system_prompt))
      bad_system_prompt
  refuse (lt_bound p.max_context_records 0 || gt_bound p.max_context_records 64) bad_context_records
  refuse (lt_bound p.max_input_bytes 131072 || gt_bound p.max_input_bytes 1048576) bad_input_bytes
  refuse (lt_bound p.max_output_bytes 1024 || gt_bound p.max_output_bytes 131072) bad_output_bytes

abbrev pub is_nil {ℓ} : {A : Type ℓ} → List A → Bool
is_nil [] = true
is_nil (x ∷ xs) = false

unfoldable pub is_batch : Proposal → Bool
is_batch p = not (is_nil p.ops)

-- The single mutation of a proposal.
abbrev pub single_op : Proposal → ProposalOp
single_op p = record {
  operation = p.operation;
  target_record_id = p.target_record_id;
  expected_revision = p.expected_revision;
  kind = p.kind;
  text = p.text;
  evidence_refs = p.evidence_refs;
}

unfoldable pub batch_ops : Proposal → List ProposalOp
batch_ops p = if is_batch p then p.ops else single_op p ∷ []

-- The loop over the evidence, with the references it has seen.
unfoldable pub check_evidence : List Str → List Str → Check
check_evidence [] seen = ok tt
check_evidence (id ∷ ids) seen = do
  refuse (str_eq id []) empty_evidence
  refuse (contains seen id) repeated_evidence
  check_evidence ids (id ∷ seen)

unfoldable pub check_operation : ProposalOp → Operation → Check
check_operation op Operation.ignore =
    refuse
      (not (str_eq op.target_record_id [])
        || not (nat_eq op.expected_revision 0)
        || not (str_eq op.kind [])
        || not (str_eq op.text [])
        || not (is_nil op.evidence_refs))
      ignore_with_fields
check_operation op Operation.add =
    refuse (not (str_eq op.target_record_id []) || not (nat_eq op.expected_revision 0))
      add_with_target
check_operation op (Operation.other s) = err bad_operation
check_operation op _ =
    refuse (str_eq op.target_record_id [] || nat_eq op.expected_revision 0) edit_without_target

-- The checks of what an operation writes, which IGNORE skips.
unfoldable pub check_content : ProposalOp → Operation → Check
check_content op Operation.ignore = ok tt
check_content op _ = do
  refuse
      (not (valid_string op.kind)
        || str_eq op.kind []
        || not (str_eq (trim_space op.kind) op.kind)
        || ltb max_record_kind_bytes (length op.kind)
        || contains_any op.kind line_breaks)
      bad_kind
  refuse
      (not (valid_string op.text)
        || str_eq (trim_space op.text) []
        || ltb max_record_text_bytes (length op.text))
      bad_text
  refuse (is_nil op.evidence_refs || ltb max_proposal_evidence (length op.evidence_refs))
      bad_evidence_count
  check_evidence op.evidence_refs []

unfoldable pub validate_proposal_mutation : ProposalOp → Check
validate_proposal_mutation op = do check_operation op op.operation; check_content op op.operation

-- The loop over the terms, with the terms it has seen.
unfoldable pub check_terms : List Str → List Str → Check
check_terms [] seen = ok tt
check_terms (term ∷ terms) seen = do
  refuse
      (not (valid_string term)
        || not (str_eq (trim_space term) term)
        || str_eq term []
        || ltb 128 (length term)
        || contains_any term (13 ∷ 10 ∷ 9 ∷ 32 ∷ []))
      bad_term
  refuse (contains seen term) repeated_term
  check_terms terms (term ∷ seen)

unfoldable pub validate_lexicon_terms : List Str → Check
validate_lexicon_terms terms = do
  refuse (ltb max_lexicon_terms (length terms)) too_many_terms
  check_terms terms []

-- The loop over the operations of a batch, with the targets it has seen.
unfoldable pub check_ops : List ProposalOp → List Str → Check
check_ops [] targets = ok tt
check_ops (op ∷ ops) targets = do
  validate_proposal_mutation op
  refuse (not (str_eq op.target_record_id []) && contains targets op.target_record_id)
      repeated_target
  check_ops ops (if str_eq op.target_record_id [] then targets else op.target_record_id ∷ targets)

abbrev pub is_empty_operation : Operation → Bool
is_empty_operation (Operation.other s) = str_eq s []
is_empty_operation _ = false

unfoldable pub validate_batch_shape : Proposal → Check
validate_batch_shape p = do
  refuse (not (str_eq p.policy policy_bounded_batch)) ops_without_policy
  refuse
      (not (is_empty_operation p.operation)
        || not (str_eq p.target_record_id [])
        || not (nat_eq p.expected_revision 0)
        || not (str_eq p.kind [])
        || not (str_eq p.text [])
        || not (is_nil p.evidence_refs))
      mixed_shapes
  refuse (is_nil p.ops || ltb max_proposal_ops (length p.ops)) bad_op_count
  check_ops p.ops []
  validate_lexicon_terms p.lexicon_terms

unfoldable pub validate_shape : Proposal → Check
validate_shape p = if is_batch p then validate_batch_shape p else do
  refuse (not (str_eq p.policy [])) policy_without_ops
  validate_proposal_mutation (single_op p)
  validate_lexicon_terms p.lexicon_terms
