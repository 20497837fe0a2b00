-- ===== src/Facts/Apply/Written.antt =====
-- What an edit writes, by the current facts: that of one record is replaced, and the others stay.
use memory.Prelude.{
  ℕ, ◌+◌, ◌≡◌, ◌≢◌, refl, sym, ap, ◌∙◌, subst, true, false, Option, none, some, List, ◌∷◌, ◌++◌,
  arith, if◌then◌else◌,
}
use memory.Prelude.Result.{ok, >>=-from-ok, ok-injective}
use memory.Appliance.{AuthorizedView}
use memory.Text.Bytes.{Str, bytes, Str-eq}
use memory.Facts.{Mutation}
use memory.Facts.Store.{
  RecordStatus, Metadata, Fact, SemanticRecord, SemanticRevision, FactStore, find_record,
  read_fact_revision,
}
use memory.Facts.Lifecycle.{is_deny}
use memory.Facts.Apply.{
  is_new, insert_record, insert_revision, require_suffix, new_record, write_new_record,
  write_record, write_fact,
}
use memory.Facts.Apply.Heads.{
  with_fact, head_of, head, str_eq_refl, str_eq_other, find_record-id, find_record-update_record,
  head_fact-other, head_fact-same,
}

-- The current fact of `id` is replaced, and the others stay.
pub record Written (s s' : FactStore) (id : Str) (row : SemanticRecord) (meta : Metadata)
    : Type 0 where
  pub now : head s' id ≡ some (row, meta)
  pub others : (j : Str) → id ≢ j → head s' j ≡ head s j

head_of-other :
    (v : SemanticRevision) (vs : List SemanticRevision) (o : Option SemanticRecord) (j : Str)
    → ((r : SemanticRecord) → o ≡ some r → r.record_id ≡ j)
    → v.record_id ≢ j
    → head_of (v ∷ vs) o ≡ head_of vs o
head_of-other v vs none j own n = refl
head_of-other v vs (some r) j own n =
    ap (with_fact r) (head_fact-other v vs r (λ e. n (e ∙ own r refl)))

-- The rows that an edit leaves.
record Rows (s s' : FactStore) (id : Str) (revision : ℕ) (rows : List SemanticRecord)
    (meta : Metadata) : Type 0 where
  v : SemanticRevision
  records : s'.records ≡ rows
  revisions : s'.revisions ≡ v ∷ s.revisions
  same_id : v.record_id ≡ id
  same_revision : v.revision ≡ revision
  same_fact : v.fact ≡ some meta

Rows-Written :
    (s s' : FactStore) (id : Str) (revision : ℕ) (rows : List SemanticRecord) (meta : Metadata)
    (row : SemanticRecord)
    → Rows s s' id revision rows meta
    → find_record id rows ≡ some row
    → row.current_revision ≡ revision
    → ((j : Str) → id ≢ j → find_record j rows ≡ find_record j s.records)
    → Written s s' id row meta
unfolding head
Rows-Written s s' id revision rows meta row left found current others = record {
  now = now;
  others = λ j n. rw (left.records) (
      rw (left.revisions) (
        rw (others j n) (
          head_of-other left.v s.revisions (find_record j s.records) j
            (λ r e. find_record-id j s.records r e) (λ e. n (sym left.same_id ∙ e)))));
}
  where
    now : head_of s'.revisions (find_record id s'.records) ≡ some (row, meta)
    now = rw (left.records) (
        rw (left.revisions) (
          rw found (
            rw
              (head_fact-same left.v s.revisions row
                (left.same_id ∙ sym (find_record-id id rows row found))
                (left.same_revision ∙ sym current))
              (rw (left.same_fact) refl))))

insert_revision-eq :
    (v : SemanticRevision) (vs : List SemanticRevision) {ws : List SemanticRevision}
    → insert_revision v vs ≡ ok ws
    → ws ≡ v ∷ vs
unfolding insert_revision
insert_revision-eq v vs h = ground arith

insert_record-eq :
    (r : SemanticRecord) (rs : List SemanticRecord) {ws : List SemanticRecord}
    → insert_record r rs ≡ ok ws
    → ws ≡ r ∷ rs
unfolding insert_record
insert_record-eq r rs h = ground arith

write_fact-from {ℓ} :
    {P : Type ℓ} (random : Option Str) (s : FactStore) (view : AuthorizedView) (receipt : Str)
    (m : Mutation) (meta : Metadata) (evidence : List Str) {fact : Fact} {s' : FactStore}
    → write_fact random s view receipt m meta evidence ≡ ok (fact, s')
    → ((id : Str) (revision : ℕ) (rows : List SemanticRecord)
        → write_record random s view m ≡ ok (id, revision, rows)
        → Rows s s' id revision rows meta
        → P)
    → P
unfolding write_fact
write_fact-from random s view receipt m meta evidence h k =
    >>=-from-ok (write_record random s view m) _ h λ (id, revision, rows) wrote h1.
      >>=-from-ok (insert_revision _ s.revisions) _ h1 λ revisions inserted h2.
        >>=-from-ok (read_fact_revision _ id revision) _ h2 λ _ _ h3.
          let same = ap (λ (p : Fact × FactStore). p.1) (ok-injective h3) in
          k id revision rows wrote (record {
            v = _;
            records = ap (λ t. t.records) (sym same);
            revisions =
                ap (λ t. t.revisions) (sym same) ∙ insert_revision-eq _ s.revisions inserted;
            same_id = refl;
            same_revision = refl;
            same_fact = refl;
          })

module _ (view : AuthorizedView) (m : Mutation) (suffix : Str) (rs : List SemanticRecord) where
  found_new :
      find_record (bytes "record-" ++ suffix) (new_record view m suffix ∷ rs)
      ≡ some (new_record view m suffix)
  unfolding find_record new_record
  found_new = rw (str_eq_refl (bytes "record-" ++ suffix)) refl

  found_old :
      (j : Str)
      → bytes "record-" ++ suffix ≢ j
      → find_record j (new_record view m suffix ∷ rs) ≡ find_record j rs
  unfolding find_record new_record
  found_old j n = rw (str_eq_other (bytes "record-" ++ suffix) j n) refl

current_new :
    (view : AuthorizedView) (m : Mutation) (suffix : Str)
    → (new_record view m suffix).current_revision ≡ 1
unfolding new_record
current_new view m suffix = refl

-- A new record.
pub new-Written :
    (random : Option Str) (s s' : FactStore) (view : AuthorizedView) (receipt : Str) (m : Mutation)
    (meta : Metadata) (evidence : List Str) (fact : Fact)
    → write_fact random s view receipt m meta evidence ≡ ok (fact, s')
    → is_new m.transition ≡ true
    → (suffix : Str) × Written s s' (bytes "record-" ++ suffix) (new_record view m suffix) meta
unfolding write_record write_new_record
new-Written random s s' view receipt m meta evidence fact h new =
    write_fact-from random s view receipt m meta evidence h λ id revision rows wrote left.
      >>=-from-ok (require_suffix random) _ (rw new at wrote) λ suffix _ h1.
        >>=-from-ok (insert_record (new_record view m suffix) s.records) _ h1 λ rows' inserted h2.
          let grown = insert_record-eq (new_record view m suffix) s.records inserted in
          (
            suffix,
            Rows-Written s s' (bytes "record-" ++ suffix) 1 rows' meta (new_record view m suffix)
                (subst (λ p. Rows s s' p.0 p.1 p.2 meta) (sym (ok-injective h2)) left)
                (rw grown (found_new view m suffix s.records)) (current_new view m suffix)
                (λ j n. rw grown (found_old view m suffix s.records j n)),
          )

-- An edited record.
pub edited-Written :
    (random : Option Str) (s s' : FactStore) (view : AuthorizedView) (receipt : Str) (m : Mutation)
    (meta : Metadata) (evidence : List Str) (fact : Fact) (r : SemanticRecord)
    → write_fact random s view receipt m meta evidence ≡ ok (fact, s')
    → is_new m.transition ≡ false
    → find_record m.target_record_id s.records ≡ some r
    → Written s s' m.target_record_id
        (record r {
          current_revision = m.expected_revision + 1;
          status = if is_deny m.transition then RecordStatus.invalidated else RecordStatus.active;
        })
        meta
unfolding write_record
edited-Written random s s' view receipt m meta evidence fact r h old found =
    write_fact-from random s view receipt m meta evidence h λ id revision rows wrote left.
      Rows-Written s s' m.target_record_id (m.expected_revision + 1) _ meta _
        (subst (λ p. Rows s s' p.0 p.1 p.2 meta) (sym (ok-injective (rw old at wrote))) left)
        (find_record-update_record m.target_record_id m.target_record_id _ _ s.records
          ∙ rw (str_eq_refl m.target_record_id) (rw found refl))
        refl
        (λ j n.
          find_record-update_record m.target_record_id j _ _ s.records
          ∙ rw (str_eq_other m.target_record_id j n) refl)
