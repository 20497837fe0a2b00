-- ===== src/Facts/Apply/Scoped.antt =====
-- The guards of `applyFactMutation` against facts that clash, and the metadata that an edit writes in its scope.
use memory.Prelude.{
  ◌≡◌, ◌≢◌, refl, sym, ap, ◌∙◌, subst, true, false, not, ◌&&◌, Option, none, some, List, [], inl,
  inr, arith, Bool-cases, some-injective,
}
use memory.Prelude.Result.{ok, ok-injective}
use memory.Appliance.{AuthorizedView}
use memory.Text.Bytes.{Str, str_eq, str_eq_iff}
use memory.Facts.{Source, Mutation}
use memory.Facts.Store.{
  Metadata, Fact, SemanticRecord, FactStore, find_record, head_fact, is_confirmed, conditions_eq,
}
use memory.Facts.Lifecycle.{
  is_establish, is_exception, base_metadata, check_target, in_scope, same_assertion, overlaps,
  confirmed_fact_conflict, establish_conflict, exception_conflict,
}
use memory.Facts.Apply.{relate, new_record}
use memory.Facts.Apply.Heads.{
  head, head_of, with_fact, str_eq_other, conditions_eq_refl, find_record-id, any_head-false,
  scan_heads-false,
}
use memory.Facts.Apply.Guards.{Passed}
use memory.Facts.Apply.Unforked.{Current, Rivals, Forks, Overlap}

-- A record and its metadata, from the current fact.
head-from {ℓ} :
    {P : Type ℓ} (s : FactStore) (j : Str) (q : Current)
    → head s j ≡ some q
    → (find_record j s.records ≡ some q.0 → head_fact s.revisions q.0 ≡ some q.1 → P)
    → P
unfolding head
head-from {P} s j q e k = go (find_record j s.records) e k
  where
    with_fact-from :
        (r : SemanticRecord) (o : Option Metadata)
        → with_fact r o ≡ some q
        → (r ≡ q.0) × (o ≡ some q.1)
    with_fact-from r none e = absurd (cc (e))
    with_fact-from r (some m) e =
        (ap (λ x. x.0) (some-injective e), ap (λ (x : Current). some x.1) (some-injective e))

    go :
        (o : Option SemanticRecord)
        → head_of s.revisions o ≡ some q
        → (o ≡ some q.0 → head_fact s.revisions q.0 ≡ some q.1 → P)
        → P
    go none e k = absurd (cc (e))
    go (some r) e k =
        let (same, has) = with_fact-from r (head_fact s.revisions r) e in
        k (ap some same) (subst (λ x. head_fact s.revisions x ≡ some q.1) same has)

-- The edit names a target unless it establishes a fact, as a validated mutation does.
pub record IsTargeted (m : Mutation) : Type 0 where
  pub edits : is_establish m.transition ≡ false → m.target_record_id ≢ []
  pub creates : is_establish m.transition ≡ true → m.target_record_id ≡ []

-- The record that is written lies in the scope of the call, and its metadata is that of the mutation.
pub record InScope (view : AuthorizedView) (m : Mutation) (row : SemanticRecord) (meta : Metadata)
    : Type 0 where
  pub space : row.space_id ≡ view.write_space_id
  pub labels : row.label_set_digest ≡ view.label_set_digest
  pub row_subject : row.subject ≡ m.subject
  pub row_key : row.fact_key ≡ m.key
  pub subject : meta.subject ≡ m.subject
  pub key : meta.key ≡ m.key
  pub conditions : meta.conditions ≡ m.conditions

module _ (view : AuthorizedView) (m : Mutation) (row : SemanticRecord) (meta : Metadata)
    (scope : InScope view m row meta) where
  in_scope-Rivals : (q : Current) → Rivals (row, meta) q → in_scope view m.subject m.key q.0 ≡ true
  unfolding in_scope
  in_scope-Rivals q r = ground (
    arith,
    (str_eq_iff q.0.space_id view.write_space_id).1 (sym r.space ∙ scope.space),
    (str_eq_iff q.0.label_set_digest view.label_set_digest).1 (sym r.labels ∙ scope.labels),
    (str_eq_iff q.0.subject m.subject).1 (sym r.subject ∙ scope.row_subject),
    (str_eq_iff q.0.fact_key m.key).1 (sym r.key ∙ scope.row_key),
    r.active_right,
  )

  same_assertion-Forks :
      (q : Current) → Forks (row, meta) q → same_assertion m.conditions q.1 ≡ true
  unfolding same_assertion
  same_assertion-Forks q f = ground (
    arith,
    (str_eq_iff q.1.related_record_id []).1 f.plain_right,
    ap (λ cs. conditions_eq cs m.conditions) (sym f.conditions ∙ scope.conditions)
        ∙ conditions_eq_refl m.conditions,
  )

  overlaps-Overlap : (q : Current) → Overlap (row, meta) q → overlaps meta q.1 ≡ true
  unfolding overlaps
  overlaps-Overlap q o = ground (
    arith,
    (str_eq_iff q.1.related_record_id meta.related_record_id).1 (sym o.related),
    o.rivals.confirmed_right,
    o.begins_left,
    o.begins_right,
  )

module _ (random : Option Str) (s : FactStore) (view : AuthorizedView) (source : Source)
    (receipt : Str) (m : Mutation) (fact : Fact) (s' : FactStore)
    (passed : Passed random s view source receipt m fact s') (row : SemanticRecord)
    (scope : InScope view m row (relate m passed.settled)) (j : Str) (q : Current)
    (has : head s j ≡ some q) where
  pub no_fork_new : is_establish m.transition ≡ true → Forks (row, relate m passed.settled) q → ⊥
  no_fork_new new f = head-from s j q has λ found current. cc (
    same_assertion-Forks view m row (relate m passed.settled) scope q f,
    scan_heads-false (in_scope view m.subject m.key) (same_assertion m.conditions) s.revisions
        s.records j q.0 q.1
        (unfold establish_conflict in
          passed.no_same_key new (str_eq_other m.key [] (λ e. f.keyed (scope.row_key ∙ e))))
        found current (in_scope-Rivals view m row (relate m passed.settled) scope q f.rivals),
  )

  pub no_fork_edit :
      is_establish m.transition ≡ false
      → m.target_record_id ≢ j
      → Forks (row, relate m passed.settled) q
      → ⊥
  no_fork_edit old n f = head-from s j q has λ found current. cc (
    both q.1 f.rivals.confirmed_right
        (same_assertion-Forks view m row (relate m passed.settled) scope q f),
    any_head-false
        (λ r.
          in_scope view (relate m passed.settled).subject (relate m passed.settled).key r
          && not (str_eq r.record_id m.target_record_id))
        (λ other.
          is_confirmed other.adoption && same_assertion (relate m passed.settled).conditions other)
        s.revisions s.records j q.0 q.1
        (unfold confirmed_fact_conflict in
          passed.no_fork f.rivals.confirmed_left
            ((str_eq_iff (relate m passed.settled).related_record_id []).1 f.plain_left)
            (str_eq_other m.key [] (λ e. f.keyed (scope.row_key ∙ e))) old)
        found current
        (joined q.0 (in_scope-Rivals view m row (relate m passed.settled) scope q f.rivals)
          (find_record-id j s.records q.0 found)),
  )
    where
      both :
          (other : Metadata)
          → is_confirmed other.adoption ≡ true
          → same_assertion m.conditions other ≡ true
          → (is_confirmed other.adoption
              && same_assertion (relate m passed.settled).conditions other)
            ≡ true
      both other c e = ground (arith, c, ap (λ cs. same_assertion cs other) scope.conditions ∙ e)

      joined :
          (r : SemanticRecord)
          → in_scope view m.subject m.key r ≡ true
          → r.record_id ≡ j
          → (in_scope view (relate m passed.settled).subject (relate m passed.settled).key r
              && not (str_eq r.record_id m.target_record_id))
            ≡ true
      joined r e own = ground (
        arith,
        ap (λ a. in_scope view a (relate m passed.settled).key r) scope.subject
            ∙ ap (λ k. in_scope view m.subject k r) scope.key
            ∙ e,
        str_eq_other r.record_id m.target_record_id (λ h. n (sym h ∙ own)),
      )

  pub no-Overlap_other : m.target_record_id ≢ j → Overlap (row, relate m passed.settled) q → ⊥
  no-Overlap_other n o = head-from s j q has λ found current. cc (
    overlaps-Overlap view m row (relate m passed.settled) scope q o,
    scan_heads-false
        (λ r. in_scope view m.subject m.key r && not (str_eq r.record_id m.target_record_id))
        (overlaps (relate m passed.settled)) s.revisions s.records j q.0 q.1
        (unfold exception_conflict in
          passed.no_overlap
            (str_eq_other (relate m passed.settled).related_record_id [] o.exceptional)
            o.rivals.confirmed_left)
        found current
        (joined q.0 (in_scope-Rivals view m row (relate m passed.settled) scope q o.rivals)
          (find_record-id j s.records q.0 found)),
  )
    where
      joined :
          (r : SemanticRecord)
          → in_scope view m.subject m.key r ≡ true
          → r.record_id ≡ j
          → (in_scope view m.subject m.key r && not (str_eq r.record_id m.target_record_id)) ≡ true
      joined r e own =
          ground (arith, e, str_eq_other r.record_id m.target_record_id (λ h. n (sym h ∙ own)))

pub relate-same :
    (m : Mutation) (meta : Metadata)
    → ((relate m meta).subject ≡ meta.subject)
      × ((relate m meta).key ≡ meta.key)
      × ((relate m meta).conditions ≡ meta.conditions)
relate-same m meta = elim (Bool-cases (is_exception m.transition)) [
  | inl e ↦ rw e (refl, refl, refl)
  | inr e ↦ rw e (refl, refl, refl)
]

pub relate-related :
    (m : Mutation) (meta : Metadata)
    → is_exception m.transition ≡ true
    → (relate m meta).related_record_id ≡ m.target_record_id
relate-related m meta e = rw e refl

pub relate-plain :
    (m : Mutation) (meta : Metadata) → is_exception m.transition ≡ false → relate m meta ≡ meta
relate-plain m meta e = rw e refl

pub establish-plain :
    (m : Mutation) → is_establish m.transition ≡ true → is_exception m.transition ≡ false
establish-plain m e = ground (arith, e)

pub check_target-new :
    (s : FactStore) (view : AuthorizedView) (m : Mutation) (meta settled : Metadata)
    (evidence : List Str)
    → m.target_record_id ≡ []
    → check_target s view m meta ≡ ok (settled, evidence)
    → settled ≡ meta
unfolding check_target
check_target-new s view m meta settled evidence none_named h =
    ap (λ (p : Metadata × List Str). p.0)
      (sym (ok-injective (rw ((str_eq_iff m.target_record_id []).1 none_named) at h)))

pub InScope-new :
    (view : AuthorizedView) (m : Mutation) (suffix : Str) (settled : Metadata)
    → settled.subject ≡ m.subject
    → settled.key ≡ m.key
    → settled.conditions ≡ m.conditions
    → InScope view m (new_record view m suffix) (relate m settled)
unfolding new_record
InScope-new view m suffix settled a b c =
    let (x, y, z) = relate-same m settled in
    record {
      space = refl;
      labels = refl;
      row_subject = refl;
      row_key = refl;
      subject = x ∙ a;
      key = y ∙ b;
      conditions = z ∙ c;
    }

pub base_metadata-same :
    (source : Source) (m : Mutation)
    → ((base_metadata source m).subject ≡ m.subject)
      × ((base_metadata source m).key ≡ m.key)
      × ((base_metadata source m).conditions ≡ m.conditions)
      × ((base_metadata source m).related_record_id ≡ [])
unfolding base_metadata
base_metadata-same source m = (refl, refl, refl, refl)
