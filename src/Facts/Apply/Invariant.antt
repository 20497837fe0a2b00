-- ===== src/Facts/Apply/Invariant.antt =====
-- `applyFactMutation` on the current facts of a scope, by the kinds of edits.
use memory.Prelude.{
  ◌+◌, ◌≡◌, sym, ap, ◌∙◌, true, false, Option, ◌++◌, inl, inr, arith, if◌then◌else◌, Bool-cases,
  some-injective,
}
use memory.Prelude.Result.{ok}
use memory.Appliance.{AuthorizedView}
use memory.Text.Bytes.{Str, str_eq, str_eq_iff, bytes}
use memory.Facts.{Source, Mutation}
use memory.Facts.Store.{RecordStatus, Fact, FactStore}
use memory.Facts.Lifecycle.{is_establish, is_exception, is_deny, base_metadata}
use memory.Facts.Apply.{relate, new_record, apply_fact_mutation}
use memory.Facts.Apply.Heads.{head}
use memory.Facts.Apply.Written.{new-Written, edited-Written}
use memory.Facts.Apply.Guards.{Passed, apply_fact_mutation-Passed, check_target-Target}
use memory.Facts.Apply.Unforked.{Current, IsFactStore, Written-IsFactStore}
use memory.Facts.Apply.Scoped.{
  IsTargeted, InScope, no_fork_new, no_fork_edit, no-Overlap_other, relate-same, relate-related,
  relate-plain, establish-plain, check_target-new, InScope-new, base_metadata-same,
}

module _ (random : Option Str) (s : FactStore) (view : AuthorizedView) (source : Source)
    (receipt : Str) (m : Mutation) (fact : Fact) (s' : FactStore)
    (passed : Passed random s view source receipt m fact s') (valid : IsFactStore s)
    (targeted : IsTargeted m) where
  -- A fact that is established.
  established : is_establish m.transition ≡ true → IsFactStore s'
  established new =
      let same =
        check_target-new s view m (base_metadata source m) passed.settled passed.evidence
          (targeted.creates new) passed.checked in
      let (a, b, c, d) = base_metadata-same source m in
      let (suffix, w) =
        new-Written random s s' view receipt m (relate m passed.settled) passed.evidence fact
          passed.wrote (ground (arith, new)) in
      let scope =
        InScope-new view m suffix passed.settled (ap (λ x. x.subject) same ∙ a)
          (ap (λ x. x.key) same ∙ b) (ap (λ x. x.conditions) same ∙ c) in
      Written-IsFactStore s s' (bytes "record-" ++ suffix) (new_record view m suffix)
        (relate m passed.settled) valid w
        (scope.row_subject ∙ sym scope.subject, scope.row_key ∙ sym scope.key)
        λ j q n has clash. elim clash [
          | inl f ↦
              no_fork_new random s view source receipt m fact s' passed (new_record view m suffix)
                scope j q has new f
          | inr o ↦ absurd (
              o.exceptional (
                ap (λ x. x.related_record_id)
                  (relate-plain m passed.settled (establish-plain m new) ∙ same)
                ∙ d))
        ]

  -- An exception to a fact.
  excepted : is_establish m.transition ≡ false → is_exception m.transition ≡ true → IsFactStore s'
  excepted old ex =
      let t =
        check_target-Target s view m (base_metadata source m) passed.settled passed.evidence
          (targeted.edits old) passed.checked in
      let (a, b, c, d) = base_metadata-same source m in
      let (suffix, w) =
        new-Written random s s' view receipt m (relate m passed.settled) passed.evidence fact
          passed.wrote (ground (arith, ex)) in
      let scope =
        InScope-new view m suffix passed.settled (t.agreed.subject ∙ a) (t.agreed.key ∙ b)
          (t.agreed.conditions ∙ c) in
      Written-IsFactStore s s' (bytes "record-" ++ suffix) (new_record view m suffix)
        (relate m passed.settled) valid w
        (scope.row_subject ∙ sym scope.subject, scope.row_key ∙ sym scope.key)
        λ j q n has clash. elim clash [
          | inl f ↦
              absurd (targeted.edits old (sym (relate-related m passed.settled ex) ∙ f.plain_left))
          | inr o ↦ elim (Bool-cases (str_eq m.target_record_id j)) [
            | inl same ↦ absurd (
                o.exceptional (
                  o.related
                  ∙ ap (λ (x : Current). x.1.related_record_id)
                      (some-injective (
                        sym has
                        ∙ ap (head s) (sym ((str_eq_iff m.target_record_id j).0 same))
                        ∙ t.has))
                  ∙ t.agreed.plain ex))
            | inr other ↦
                no-Overlap_other random s view source receipt m fact s' passed
                  (new_record view m suffix) scope j q has
                  (λ e. cc (other, (str_eq_iff m.target_record_id j).1 e)) o
          ]
        ]

  -- Another edit of a fact.
  edited : is_establish m.transition ≡ false → is_exception m.transition ≡ false → IsFactStore s'
  edited old plain =
      let t =
        check_target-Target s view m (base_metadata source m) passed.settled passed.evidence
          (targeted.edits old) passed.checked in
      let (a, b, c, d) = base_metadata-same source m in
      let (x, y, z) = relate-same m passed.settled in
      let (columns_subject, columns_key) =
        valid.columns m.target_record_id (t.row, t.prior) t.has in
      let row = record t.row {
        current_revision = m.expected_revision + 1;
        status = if is_deny m.transition then RecordStatus.invalidated else RecordStatus.active;
      } in
      let w =
        edited-Written random s s' view receipt m (relate m passed.settled) passed.evidence fact
          t.row passed.wrote (ground (arith, old, plain)) t.found in
      let scope : InScope view m row (relate m passed.settled) = record {
        space = t.space;
        labels = t.labels;
        row_subject = columns_subject ∙ t.agreed.same_subject;
        row_key = columns_key ∙ t.agreed.same_key;
        subject = x ∙ t.agreed.subject ∙ a;
        key = y ∙ t.agreed.key ∙ b;
        conditions = z ∙ t.agreed.conditions ∙ c;
      } in
      Written-IsFactStore s s' m.target_record_id row (relate m passed.settled) valid w
        (scope.row_subject ∙ sym scope.subject, scope.row_key ∙ sym scope.key)
        λ j q n has clash. elim clash [
          | inl f ↦
              no_fork_edit random s view source receipt m fact s' passed row scope j q has old n f
          | inr o ↦
              no-Overlap_other random s view source receipt m fact s' passed row scope j q has n o
        ]

-- An edit of a fact that succeeds keeps the store well-formed, if the mutation names a target
-- exactly when it does not establish a fact: where before it no two active records of one Space,
-- partition, subject and key had current facts that are both confirmed and clash, none have after
-- it. Two clash if the key is not empty and both are no exceptions under the same conditions, or
-- if both are exceptions to one fact in intervals that meet. Likewise, where the subject and the
-- key of every record agree with its current metadata, they do so afterwards.
pub apply_fact_mutation-IsFactStore :
    (random : Option Str) (s : FactStore) (view : AuthorizedView) (source : Source) (receipt : Str)
    (m : Mutation) (fact : Fact) (s' : FactStore)
    → IsTargeted m
    → IsFactStore s
    → apply_fact_mutation random s view source receipt m ≡ ok (fact, s')
    → IsFactStore s'
apply_fact_mutation-IsFactStore random s view source receipt m fact s' targeted valid h =
    let passed = apply_fact_mutation-Passed random s view source receipt m fact s' h in
    elim (Bool-cases (is_establish m.transition)) [
      | inl new ↦ established random s view source receipt m fact s' passed valid targeted new
      | inr old ↦ elim (Bool-cases (is_exception m.transition)) [
        | inl ex ↦ excepted random s view source receipt m fact s' passed valid targeted old ex
        | inr plain ↦ edited random s view source receipt m fact s' passed valid targeted old plain
      ]
    ]
