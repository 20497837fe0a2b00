-- ===== src/Steward/Shape.antt =====
-- What a proposal that passes `ValidateShape` satisfies.
use memory.Prelude.{
  ◌≤◌, ◌≡◌, ◌≢◌, refl, ap, arith, Bool, true, false, not, ◌&&◌, ◌||◌, List, [], ◌∷◌, inl, inr,
  Bool-cases, All, Distinct, contains, length, ltb, nat_eq, if◌then◌else◌,
}
use memory.Prelude.Unique.{Fresh, Fresh-nil, Fresh-cons}
use memory.Prelude.Result.{ok, refuse, >>=-from-ok, refuse-eq-ok}
use memory.Text.Bytes.{Str, Str-eq, str_eq, str_eq_iff}
use memory.Text.Utf8.{valid_string}
use memory.Text.Strings.{trim_space, contains_any}
use memory.Steward.{
  Operation, Proposal, ProposalOp, empty_evidence, repeated_evidence, bad_kind, bad_text,
  bad_evidence_count, repeated_target, bad_term, repeated_term, too_many_terms, ops_without_policy,
  mixed_shapes, bad_op_count, policy_without_ops, max_record_text_bytes, max_record_kind_bytes,
  max_proposal_evidence, max_proposal_ops, max_lexicon_terms, policy_bounded_batch, line_breaks,
  is_nil, is_batch, is_empty_operation, single_op, batch_ops, check_evidence, check_operation,
  check_content, validate_proposal_mutation, check_terms, validate_lexicon_terms, check_ops,
  validate_batch_shape, validate_shape,
}

-- What a mutation writes is bounded and rests on distinct evidence.
pub record Written (op : ProposalOp) : Type 0 where
  pub kind_valid : valid_string op.kind ≡ true
  pub kind_there : op.kind ≢ []
  pub kind_trimmed : trim_space op.kind ≡ op.kind
  pub kind_le : length op.kind ≤ max_record_kind_bytes
  pub text_valid : valid_string op.text ≡ true
  pub text_visible : trim_space op.text ≢ []
  pub text_le : length op.text ≤ max_record_text_bytes
  pub evidenced : op.evidence_refs ≢ []
  pub evidence_le : length op.evidence_refs ≤ max_proposal_evidence
  pub evidence_distinct : Distinct op.evidence_refs

-- The fields fit the operation: IGNORE carries none, ADD has no target and
-- no revision, MERGE and SUPERSEDE name
-- the revision that they replace.
abbrev pub Fits : ProposalOp → Operation → Type 0
Fits op Operation.ignore =
    (op.target_record_id ≡ [])
    × (op.expected_revision ≡ 0)
    × (op.kind ≡ [])
    × (op.text ≡ [])
    × (op.evidence_refs ≡ [])
Fits op Operation.add = (op.target_record_id ≡ []) × (op.expected_revision ≡ 0) × Written op
Fits op Operation.merge = (op.target_record_id ≢ []) × (op.expected_revision ≢ 0) × Written op
Fits op Operation.supersede = (op.target_record_id ≢ []) × (op.expected_revision ≢ 0) × Written op
Fits op (Operation.other s) = ⊥

abbrev pub targets : List ProposalOp → List Str
targets [] = []
targets (op ∷ ops) =
    if str_eq op.target_record_id [] then targets ops else op.target_record_id ∷ targets ops

check_evidence-Fresh : (ids seen : List Str) → check_evidence ids seen ≡ ok tt → Fresh ids seen
unfolding check_evidence
check_evidence-Fresh [] seen h = Fresh-nil seen
check_evidence-Fresh (id ∷ ids) seen h =
    >>=-from-ok (refuse (str_eq id []) empty_evidence) _ h λ _ _ h1.
      >>=-from-ok (refuse (contains seen id) repeated_evidence) _ h1 λ _ new h2.
        Fresh-cons id ids seen (refuse-eq-ok (contains seen id) repeated_evidence new)
          (check_evidence-Fresh ids (id ∷ seen) h2)

check_terms-Fresh : (terms seen : List Str) → check_terms terms seen ≡ ok tt → Fresh terms seen
unfolding check_terms
check_terms-Fresh [] seen h = Fresh-nil seen
check_terms-Fresh (t ∷ ts) seen h =
    >>=-from-ok
      (refuse
        (not (valid_string t)
          || not (str_eq (trim_space t) t)
          || str_eq t []
          || ltb 128 (length t)
          || contains_any t (13 ∷ 10 ∷ 9 ∷ 32 ∷ []))
        bad_term)
      _ h
      λ _ _ h1. >>=-from-ok (refuse (contains seen t) repeated_term) _ h1 λ _ new h2.
        Fresh-cons t ts seen (refuse-eq-ok (contains seen t) repeated_term new)
          (check_terms-Fresh ts (t ∷ seen) h2)

nil_lem : {A : Type 0} (xs : List A) → is_nil xs ≡ false → xs ≢ []
nil_lem xs h e = cc (ap is_nil e, h)

is_nil_lem : {A : Type 0} (xs : List A) → is_nil xs ≡ true → xs ≡ []
is_nil_lem [] h = refl
is_nil_lem (x ∷ xs) h = absurd (cc (h))

-- The content checks of an operation that is not IGNORE.
content-Written : (op : ProposalOp) → check_content op Operation.add ≡ ok tt → Written op
unfolding check_content
content-Written op h =
    >>=-from-ok
      (refuse
        (not (valid_string op.kind)
          || str_eq op.kind []
          || not (str_eq (trim_space op.kind) op.kind)
          || ltb max_record_kind_bytes (length op.kind)
          || contains_any op.kind line_breaks)
        bad_kind)
      _ h
      λ _ kind h1.
        >>=-from-ok
          (refuse
            (not (valid_string op.text)
              || str_eq (trim_space op.text) []
              || ltb max_record_text_bytes (length op.text))
            bad_text)
          _ h1
          λ _ body h2.
            >>=-from-ok
              (refuse
                (is_nil op.evidence_refs || ltb max_proposal_evidence (length op.evidence_refs))
                bad_evidence_count)
              _ h2
              λ _ count h3. record {
                kind_valid = ground (arith, kind);
                kind_there = λ e. ground (arith, kind, (str_eq_iff op.kind []).1 e);
                kind_trimmed = (str_eq_iff (trim_space op.kind) op.kind).0 (ground (arith, kind));
                kind_le = ground (arith, kind);
                text_valid = ground (arith, body);
                text_visible = λ e. ground (arith, body, (str_eq_iff (trim_space op.text) []).1 e);
                text_le = ground (arith, body);
                evidenced = nil_lem op.evidence_refs (ground (arith, count));
                evidence_le = ground (arith, count);
                evidence_distinct = (check_evidence-Fresh op.evidence_refs [] h3).0;
              }

mutation-Fits :
    (op : ProposalOp) (o : Operation)
    → check_operation op o ≡ ok tt
    → check_content op o ≡ ok tt
    → Fits op o
unfolding check_operation check_content
mutation-Fits op Operation.ignore h c = (
  ground (arith, str_eq_iff op.target_record_id []),
  ground arith,
  ground (arith, str_eq_iff op.kind []),
  ground (arith, str_eq_iff op.text []),
  is_nil_lem op.evidence_refs (ground arith),
)
mutation-Fits op Operation.add h c =
    (ground (arith, str_eq_iff op.target_record_id []), ground arith, content-Written op c)
mutation-Fits op Operation.merge h c =
    (ground (arith, str_eq_iff op.target_record_id []), ground arith, content-Written op c)
mutation-Fits op Operation.supersede h c =
    (ground (arith, str_eq_iff op.target_record_id []), ground arith, content-Written op c)
mutation-Fits op (Operation.other s) h c = absurd (cc (h))

-- An operation that is accepted on its own.
abbrev pub Accepted : ProposalOp → Type 0
Accepted op = Fits op op.operation

validate-Accepted : (op : ProposalOp) → validate_proposal_mutation op ≡ ok tt → Accepted op
unfolding validate_proposal_mutation
validate-Accepted op h =
    >>=-from-ok (check_operation op op.operation) _ h
      λ _ fits content. mutation-Fits op op.operation fits content

check_ops-Accepted :
    (ops : List ProposalOp) (seen : List Str)
    → check_ops ops seen ≡ ok tt
    → All Accepted ops × Fresh (targets ops) seen
unfolding check_ops
check_ops-Accepted [] seen h = (tt, Fresh-nil seen)
check_ops-Accepted (op ∷ ops) seen h = >>=-from-ok (validate_proposal_mutation op) _ h λ _ valid h1.
    >>=-from-ok
      (refuse (not (str_eq op.target_record_id []) && contains seen op.target_record_id)
        repeated_target)
      _ h1
      λ _ new h2.
        let rest = check_ops-Accepted ops _ h2 in
        (
          (validate-Accepted op valid, rest.0),
          fresh (str_eq op.target_record_id [])
              (refuse-eq-ok
                (not (str_eq op.target_record_id []) && contains seen op.target_record_id)
                repeated_target new)
              rest.1,
        )
  where
    fresh :
        (b : Bool)
        → not b && contains seen op.target_record_id ≡ false
        → Fresh (targets ops) (if b then seen else op.target_record_id ∷ seen)
        → Fresh (if b then targets ops else op.target_record_id ∷ targets ops) seen
    fresh true new rest = rest
    fresh false new rest = Fresh-cons op.target_record_id (targets ops) seen new rest

-- A proposal that is within bounds, whichever of its two shapes it has.
pub record WellShaped (p : Proposal) : Type 0 where
  pub some_ops : batch_ops p ≢ []
  pub ops_le : length (batch_ops p) ≤ max_proposal_ops
  pub accepted : All Accepted (batch_ops p)
  pub targets_distinct : Distinct (targets (batch_ops p))
  pub terms_le : length p.lexicon_terms ≤ max_lexicon_terms
  pub terms_distinct : Distinct p.lexicon_terms

validate_lexicon_terms-bounds :
    (terms : List Str)
    → validate_lexicon_terms terms ≡ ok tt
    → (length terms ≤ max_lexicon_terms) × Distinct terms
unfolding validate_lexicon_terms
validate_lexicon_terms-bounds terms h =
    >>=-from-ok (refuse (ltb max_lexicon_terms (length terms)) too_many_terms) _ h
      λ _ count h1. (ground (arith, count), (check_terms-Fresh terms [] h1).0)

batch-WellShaped :
    (p : Proposal) → is_batch p ≡ true → validate_batch_shape p ≡ ok tt → WellShaped p
unfolding validate_batch_shape batch_ops
batch-WellShaped p b h =
    >>=-from-ok (refuse (not (str_eq p.policy policy_bounded_batch)) ops_without_policy) _ h
      λ _ _ h1.
        >>=-from-ok
          (refuse
            (not (is_empty_operation p.operation)
              || not (str_eq p.target_record_id [])
              || not (nat_eq p.expected_revision 0)
              || not (str_eq p.kind [])
              || not (str_eq p.text [])
              || not (is_nil p.evidence_refs))
            mixed_shapes)
          _ h1
          λ _ _ h2.
            >>=-from-ok (refuse (is_nil p.ops || ltb max_proposal_ops (length p.ops)) bad_op_count)
              _ h2
              λ _ count h3. >>=-from-ok (check_ops p.ops []) _ h3 λ _ checked h4.
                let ops = check_ops-Accepted p.ops [] checked in
                let terms = validate_lexicon_terms-bounds p.lexicon_terms h4 in
                record {
                  some_ops = rw b (nil_lem p.ops (ground (arith, count)));
                  ops_le = rw b (ground (arith, count));
                  accepted = rw b ops.0;
                  targets_distinct = rw b ops.1.0;
                  terms_le = terms.0;
                  terms_distinct = terms.1;
                }

one_target : (op : ProposalOp) → Distinct (targets (op ∷ []))
unfolding contains
one_target op = one (str_eq op.target_record_id [])
  where
    one : (b : Bool) → Distinct (if b then [] else op.target_record_id ∷ [])
    one true = tt
    one false = (refl, tt)

single-WellShaped :
    (p : Proposal)
    → is_batch p ≡ false
    → validate_proposal_mutation (single_op p) ≡ ok tt
    → validate_lexicon_terms p.lexicon_terms ≡ ok tt
    → WellShaped p
unfolding batch_ops
single-WellShaped p b valid counted =
    let terms = validate_lexicon_terms-bounds p.lexicon_terms counted in
    record {
      some_ops = rw b (λ e. cc (e));
      ops_le = rw b (ground arith);
      accepted = rw b (validate-Accepted (single_op p) valid, tt);
      targets_distinct = rw b (one_target (single_op p));
      terms_le = terms.0;
      terms_distinct = terms.1;
    }

-- A proposal that is accepted, in either of its two shapes, has between one and eight operations,
-- no two of which name the same target record; IGNORE carries no field, ADD names no target and
-- no revision, MERGE and SUPERSEDE name a target and a revision, all but IGNORE write a bounded
-- kind without spaces around it and a bounded text, neither of them blank, with between one and
-- 32 distinct pieces of evidence; and it has at most 16 lexicon terms, all distinct.
pub validate_shape-WellShaped : (p : Proposal) → validate_shape p ≡ ok tt → WellShaped p
unfolding validate_shape
validate_shape-WellShaped p h = elim (Bool-cases (is_batch p)) [
  | inl b ↦ batch-WellShaped p b (rw b at h)
  | inr b ↦
      >>=-from-ok (refuse (not (str_eq p.policy [])) policy_without_ops) _ (rw b at h) λ _ _ h1.
        >>=-from-ok (validate_proposal_mutation (single_op p)) _ h1
          λ _ valid h2. single-WellShaped p b valid h2
]
