-- ===== src/Facts/Apply/Guards.antt =====
-- What an edit that is accepted has passed.
use memory.Prelude.{
  ◌≡◌, ◌≢◌, ap, ◌∙◌, subst, true, false, not, ◌&&◌, ◌||◌, Option, none, some, List, [], arith,
  if◌then◌else◌, nat_eq, nat_eq_iff,
}
use memory.Prelude.Result.{ok, refuse, >>=-from-ok, refuse-eq-ok, ok-injective}
use memory.Appliance.{AuthorizedView}
use memory.Text.Bytes.{Str, str_eq, str_eq_iff}
use memory.Facts.{Source, Mutation}
use memory.Facts.Store.{
  Metadata, Fact, SemanticRecord, SemanticRevision, FactStore, key_exists, target_stale,
  find_record, find_revision, head_fact, revision_fact, read_row, fact_of, read_fact_revision,
  is_active, is_confirmed,
}
use memory.Facts.Lifecycle.{
  is_establish, is_exception, base_metadata, check_prior, check_target, require_record,
  confirmed_fact_conflict, establish_conflict, exception_conflict,
}
use memory.Facts.Apply.{check_conflicts, relate, write_fact, apply_fact_mutation}
use memory.Facts.Apply.Heads.{head, with_fact, find_record-id, str_eq_other}

read_row-head :
    (o : Option SemanticRevision) {f : Fact} → read_row o ≡ ok f → revision_fact o ≡ some f.metadata
read_row-head none {f} h = absurd (cc (h))
read_row-head (some v) {f} h = fact_of-head v v.fact h
  where
    fact_of-head :
        (v : SemanticRevision) (m : Option Metadata) → fact_of v m ≡ ok f → m ≡ some f.metadata
    fact_of-head v none h = absurd (cc (h))
    fact_of-head v (some m) h = ap (λ (x : Fact). some x.metadata) (ok-injective h)

head_fact-read :
    (s : FactStore) (id : Str) (r : SemanticRecord) (prior : Fact)
    → r.record_id ≡ id
    → read_fact_revision s id r.current_revision ≡ ok prior
    → head_fact s.revisions r ≡ some prior.metadata
unfolding head_fact read_fact_revision
head_fact-read s id r prior own read =
    ap (λ t. revision_fact (find_revision t r.current_revision s.revisions)) own
    ∙ read_row-head (find_revision id r.current_revision s.revisions) {f = prior} read

-- What the checks of the prior revision settle.
pub record Settled (m : Mutation) (prior meta settled : Metadata) : Type 0 where
  pub same_subject : prior.subject ≡ m.subject
  pub same_key : prior.key ≡ m.key
  pub subject : settled.subject ≡ meta.subject
  pub key : settled.key ≡ meta.key
  pub conditions : settled.conditions ≡ meta.conditions
  pub plain : is_exception m.transition ≡ true → prior.related_record_id ≡ []

check_prior-Settled :
    (s : FactStore) (m : Mutation) (prior : Fact) (meta settled : Metadata)
    → check_prior s m prior meta ≡ ok settled
    → Settled m prior.metadata meta settled
unfolding check_prior
check_prior-Settled s m prior meta settled h = record {
  same_subject = (str_eq_iff prior.metadata.subject m.subject).0 (ground (arith, h));
  same_key = (str_eq_iff prior.metadata.key m.key).0 (ground (arith, h));
  subject = ground (arith, h);
  key = ground (arith, h);
  conditions = ground (arith, h);
  plain = λ e. (str_eq_iff prior.metadata.related_record_id []).0 (ground (arith, h, e));
}

-- The guards that an accepted edit has passed, and what it wrote.
pub record Passed (random : Option Str) (s : FactStore) (view : AuthorizedView) (source : Source)
    (receipt : Str) (m : Mutation) (fact : Fact) (s' : FactStore) : Type 0 where
  pub settled : Metadata
  pub evidence : List Str
  pub checked : check_target s view m (base_metadata source m) ≡ ok (settled, evidence)
  pub no_same_key :
      is_establish m.transition ≡ true
      → str_eq m.key [] ≡ false
      → establish_conflict s view m ≡ ok false
  pub no_fork :
      is_confirmed (relate m settled).adoption ≡ true
      → str_eq (relate m settled).related_record_id [] ≡ true
      → str_eq m.key [] ≡ false
      → is_establish m.transition ≡ false
      → confirmed_fact_conflict s view (relate m settled) m.target_record_id ≡ false
  pub no_overlap :
      str_eq (relate m settled).related_record_id [] ≡ false
      → is_confirmed (relate m settled).adoption ≡ true
      → exception_conflict s view m (relate m settled) ≡ ok false
  pub wrote : write_fact random s view receipt m (relate m settled) evidence ≡ ok (fact, s')

pub apply_fact_mutation-Passed :
    (random : Option Str) (s : FactStore) (view : AuthorizedView) (source : Source) (receipt : Str)
    (m : Mutation) (fact : Fact) (s' : FactStore)
    → apply_fact_mutation random s view source receipt m ≡ ok (fact, s')
    → Passed random s view source receipt m fact s'
unfolding apply_fact_mutation
apply_fact_mutation-Passed random s view source receipt m fact s' h =
    >>=-from-ok (check_target s view m (base_metadata source m)) _ h
      λ (settled, evidence) checked h1.
        >>=-from-ok
          (if is_establish m.transition && not (str_eq m.key [])
            then establish_conflict s view m
            else ok false)
          _ h1
          λ exists scanned h2. >>=-from-ok (refuse exists key_exists) _ h2 λ _ absent h3.
            >>=-from-ok (check_conflicts s view m (relate m settled)) _ h3 λ _ clear h4. record {
              settled = settled;
              evidence = evidence;
              checked = checked;
              no_same_key =
                  λ e k. ground (arith, scanned, refuse-eq-ok exists key_exists absent, e, k);
              no_fork = λ a b c d. no_fork (relate m settled) clear a b c d;
              no_overlap = λ a b. no_overlap (relate m settled) clear a b;
              wrote = h4;
            }
  where
    no_fork :
        (meta : Metadata) {u : Unit {0}}
        → check_conflicts s view m meta ≡ ok u
        → is_confirmed meta.adoption ≡ true
        → str_eq meta.related_record_id [] ≡ true
        → str_eq m.key [] ≡ false
        → is_establish m.transition ≡ false
        → confirmed_fact_conflict s view meta m.target_record_id ≡ false
    no_fork meta h a b c d = unfold check_conflicts in ground (arith, h, a, b, c, d)

    no_overlap :
        (meta : Metadata) {u : Unit {0}}
        → check_conflicts s view m meta ≡ ok u
        → str_eq meta.related_record_id [] ≡ false
        → is_confirmed meta.adoption ≡ true
        → exception_conflict s view m meta ≡ ok false
    no_overlap meta h a b = unfold check_conflicts in ground (arith, h, a, b)

-- The target of an edit: a record of the call's scope whose current fact has the subject and the key of the edit.
pub record Target (s : FactStore) (view : AuthorizedView) (m : Mutation) (meta settled : Metadata)
    : Type 0 where
  pub row : SemanticRecord
  pub found : find_record m.target_record_id s.records ≡ some row
  pub space : row.space_id ≡ view.write_space_id
  pub labels : row.label_set_digest ≡ view.label_set_digest
  pub current : row.current_revision ≡ m.expected_revision
  pub prior : Metadata
  pub has : head s m.target_record_id ≡ some (row, prior)
  pub agreed : Settled m prior meta settled

pub check_target-Target :
    (s : FactStore) (view : AuthorizedView) (m : Mutation) (meta settled : Metadata)
    (evidence : List Str)
    → m.target_record_id ≢ []
    → check_target s view m meta ≡ ok (settled, evidence)
    → Target s view m meta settled
unfolding check_target
check_target-Target s view m meta settled evidence there h =
    >>=-from-ok (require_record (find_record m.target_record_id s.records)) _
      (rw (str_eq_other m.target_record_id [] there) at h)
      λ r found h1.
        >>=-from-ok
          (refuse
            (not (str_eq r.space_id view.write_space_id)
              || not (str_eq r.label_set_digest view.label_set_digest)
              || not (is_active r.status)
              || not (nat_eq r.current_revision m.expected_revision))
            target_stale)
          _ h1
          λ _ fresh h2.
            >>=-from-ok (read_fact_revision s m.target_record_id r.current_revision) _ h2
              λ prior read h3. >>=-from-ok (check_prior s m prior meta) _ h3 λ settled' checked h4.
                record {
                  row = r;
                  found = require_record-eq (find_record m.target_record_id s.records) r found;
                  space = (str_eq_iff r.space_id view.write_space_id).0 (ground (arith, fresh));
                  labels =
                      (str_eq_iff r.label_set_digest view.label_set_digest).0
                        (ground (arith, fresh));
                  current =
                      (nat_eq_iff r.current_revision m.expected_revision).0 (ground (arith, fresh));
                  prior = prior.metadata;
                  has =
                      has r prior
                        (require_record-eq (find_record m.target_record_id s.records) r found) read;
                  agreed =
                      subst (Settled m prior.metadata meta)
                        (ap (λ (p : Metadata × List Str). p.0) (ok-injective h4))
                        (check_prior-Settled s m prior meta settled' checked);
                }
  where
    require_record-eq :
        (o : Option SemanticRecord) (r : SemanticRecord) → require_record o ≡ ok r → o ≡ some r
    require_record-eq none r h = absurd (cc (h))
    require_record-eq (some x) r h = ap some (ok-injective h)

    has :
        (r : SemanticRecord) (prior : Fact)
        → find_record m.target_record_id s.records ≡ some r
        → read_fact_revision s m.target_record_id r.current_revision ≡ ok prior
        → head s m.target_record_id ≡ some (r, prior.metadata)
    has r prior found read =
        unfold head in
        rw found (
          ap (with_fact r) (
            head_fact-read s m.target_record_id r prior
              (find_record-id m.target_record_id s.records r found) read))
