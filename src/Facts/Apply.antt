-- ===== src/Facts/Apply.antt =====
-- What an edit that passes its guards writes: the rest of `applyFactMutation` of internal/appliance/facts_lifecycle.go.
pub mod Heads
pub mod Written
pub mod Guards
pub mod Unforked
pub mod Scoped
pub mod Invariant
use memory.Prelude.{
  ℕ, ◌+◌, ◌≡◌, refl, Bool, true, false, not, ◌&&◌, ◌||◌, Option, none, some, List, [], ◌∷◌, ◌++◌,
  if◌then◌else◌, contains, map,
}
use memory.Prelude.Result.{Result, ok, err, ◌>>=◌, ◌>>◌, refuse}
use memory.Appliance.{AuthorizedView}
use memory.Text.Bytes.{Str, str_eq, bytes, Str-eq}
use memory.Facts.{Transition, Source, Mutation}
use memory.Facts.Store.{
  RecordStatus, Metadata, Fact, SemanticRecord, SemanticRevision, IndexRow, MemoryChange, FactStore,
  FactError, key_exists, would_fork, overlapping, row_exists, no_random, is_confirmed, is_denied,
  find_record, find_revision, read_fact_revision,
}
use memory.Facts.Lifecycle.{
  is_establish, is_exception, is_confirm, is_deny, transition_name, base_metadata, check_target,
  confirmed_fact_conflict, establish_conflict, exception_conflict,
}

abbrev is_there {ℓ} : {A : Type ℓ} → Option A → Bool
is_there none = false
is_there (some a) = true

-- `INSERT INTO semantic_records`
unfoldable pub insert_record :
    SemanticRecord → List SemanticRecord → Result FactError (List SemanticRecord)
insert_record r rs = do refuse (is_there (find_record r.record_id rs)) row_exists; ok (r ∷ rs)

-- `UPDATE semantic_records SET current_revision=?, status=? WHERE record_id=?`
unfoldable pub update_record : Str → ℕ → RecordStatus → List SemanticRecord → List SemanticRecord
update_record id revision status [] = []
update_record id revision status (r ∷ rs) =
    (if str_eq r.record_id id then record r { current_revision = revision; status = status } else r)
    ∷ update_record id revision status rs

-- `INSERT INTO semantic_revisions`, with the rows of its evidence.
unfoldable pub insert_revision :
    SemanticRevision → List SemanticRevision → Result FactError (List SemanticRevision)
insert_revision v vs = do
  refuse (is_there (find_revision v.record_id v.revision vs)) row_exists
  ok (v ∷ vs)

-- `DELETE FROM … WHERE record_id=?` in the index of a Space.
unfoldable pub delete_indexed : Str → Str → List IndexRow → List IndexRow
delete_indexed space id [] = []
delete_indexed space id (x ∷ xs) =
    let rest = delete_indexed space id xs in
    if str_eq x.space_id space && str_eq x.record_id id then rest else x ∷ rest

-- The receipt of the edit, and the evidence that a confirmation adopts.
unfoldable pub join_evidence : List Str → List Str → List Str
join_evidence evidence [] = evidence
join_evidence evidence (e ∷ es) =
    join_evidence (if contains evidence e then evidence else evidence ++ e ∷ []) es

abbrev pub require_suffix : Option Str → Result FactError Str
require_suffix none = err no_random
require_suffix (some suffix) = ok suffix

abbrev pub is_new : Transition → Bool
is_new transition = is_establish transition || is_exception transition

-- The row of a new record.
unfoldable pub new_record : AuthorizedView → Mutation → Str → SemanticRecord
new_record view m suffix = record {
  record_id = bytes "record-" ++ suffix;
  space_id = view.write_space_id;
  label_set_digest = view.label_set_digest;
  status = RecordStatus.active;
  current_revision = 1;
  subject = m.subject;
  fact_key = m.key;
}

unfoldable pub write_new_record :
    Option Str
    → FactStore
    → AuthorizedView
    → Mutation
    → Result FactError (Str × ℕ × List SemanticRecord)
write_new_record random s view m = do
  suffix ← require_suffix random
  rows ← insert_record (new_record view m suffix) s.records
  ok (bytes "record-" ++ suffix, 1, rows)

-- The identifier, the revision and the records of the edit.
unfoldable pub write_record :
    Option Str
    → FactStore
    → AuthorizedView
    → Mutation
    → Result FactError (Str × ℕ × List SemanticRecord)
write_record random s view m =
    if is_new m.transition
    then write_new_record random s view m
    else ok (
      m.target_record_id,
      m.expected_revision + 1,
      update_record m.target_record_id (m.expected_revision + 1)
          (if is_deny m.transition then RecordStatus.invalidated else RecordStatus.active)
          s.records,
    )

-- The rows after the guards.
unfoldable pub write_fact :
    Option Str
    → FactStore
    → AuthorizedView
    → Str
    → Mutation
    → Metadata
    → List Str
    → Result FactError (Fact × FactStore)
write_fact random s view receipt m meta prior_evidence = do
  (id, revision, rows) ← write_record random s view m
  revisions ←
      insert_revision
        (record {
          record_id = id;
          revision = revision;
          space_id = view.write_space_id;
          text = m.text;
          fact = some meta;
          evidence =
              join_evidence (receipt ∷ []) (if is_confirm m.transition then prior_evidence else []);
        })
        s.revisions
  let kept = delete_indexed view.write_space_id id s.indexed
  let s' = record s {
    records = rows;
    revisions = revisions;
    indexed =
        if is_denied meta.adoption
        then kept
        else record {
          space_id = view.write_space_id;
          record_id = id;
          revision = revision;
          text = m.text;
        }
          ∷ kept;
    changes =
        s.changes
        ++ record {
          space_id = view.write_space_id;
          label_set_digest = view.label_set_digest;
          kind = bytes "fact_" ++ transition_name m.transition;
          receipt_id = receipt;
          record_id = id;
        }
          ∷ [];
  }
  fact ← read_fact_revision s' id revision
  ok (fact, s')

-- The guards against ambiguity, for the metadata of the edit.
unfoldable pub check_conflicts :
    FactStore → AuthorizedView → Mutation → Metadata → Result FactError (Unit {0})
check_conflicts s view m meta = do
  refuse
      (is_confirmed meta.adoption
        && str_eq meta.related_record_id []
        && not (str_eq m.key [])
        && not (is_establish m.transition)
        && confirmed_fact_conflict s view meta m.target_record_id)
      would_fork
  clash ←
      if not (str_eq meta.related_record_id []) && is_confirmed meta.adoption
      then exception_conflict s view m meta
      else ok false
  refuse clash overlapping

-- An exception is related to its target.
abbrev pub relate : Mutation → Metadata → Metadata
relate m meta =
    if is_exception m.transition
    then record meta { related_record_id = m.target_record_id }
    else meta

-- `applyFactMutation`
unfoldable pub apply_fact_mutation :
    Option Str
    → FactStore
    → AuthorizedView
    → Source
    → Str
    → Mutation
    → Result FactError (Fact × FactStore)
apply_fact_mutation random s view source receipt m = do
  (settled, prior_evidence) ← check_target s view m (base_metadata source m)
  exists ←
      if is_establish m.transition && not (str_eq m.key [])
      then establish_conflict s view m
      else ok false
  refuse exists key_exists
  let meta = relate m settled
  check_conflicts s view m meta
  write_fact random s view receipt m meta prior_evidence
