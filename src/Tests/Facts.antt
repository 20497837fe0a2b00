-- ===== src/Tests/Facts.antt =====
-- The history of a fact that changed, of one that was denied, and an edit of an empty store.
use memory.Prelude.{ℕ, ◌≡◌, refl, false, none, some, List, [], ◌∷◌, ◌++◌, map, contains}
use memory.Prelude.Result.{ok}
use memory.Prelude.Sort.{sort, insert}
use memory.Appliance.{AuthorizedView}
use memory.Text.Bytes.{Str-eq, str_eq, bytes}
use memory.Reference.Types.{SpaceClass}
use memory.Facts.{Role, Transition, Source, Mutation}
use memory.Facts.Store.{
  Adoption, RecordStatus, HistoricalState, Metadata, Fact, SemanticRevision, FactStore, find_record,
  find_revision, read_fact_revision,
}
use memory.Facts.Timeline.{
  scan_rows, earlier, history_rows, update_at, resolve, resolve_history, fact_at, close_interval,
  close_intervals, fact_timeline,
}
use memory.Facts.Timeline.Denied.{fact_timeline-AreDenied}
use memory.Facts.Timeline.Denied.{AreDenied}
use memory.Facts.Lifecycle.{
  transition_name, base_metadata, check_target, scan_heads, any_head, confirmed_fact_conflict,
  establish_conflict,
}
use memory.Facts.Apply.{
  insert_record, insert_revision, delete_indexed, join_evidence, new_record, write_new_record,
  write_record, write_fact, check_conflicts, apply_fact_mutation,
}
use memory.Facts.Apply.Heads.{head}
use memory.Facts.Apply.Unforked.{IsFactStore}
use memory.Facts.Apply.Invariant.{apply_fact_mutation-IsFactStore}
use memory.Facts.Apply.Scoped.{IsTargeted}

abbrev confirmed_at : ℕ → Transition → Metadata
confirmed_at from transition = record {
  subject = bytes "ann";
  key = bytes "diet";
  adoption = Adoption.confirmed;
  valid_from = some from;
  valid_until = none;
  conditions = [];
  transition = transition;
  related_record_id = [];
}

abbrev revision_of : ℕ → Metadata → SemanticRevision
revision_of n m = record {
  record_id = bytes "r";
  revision = n;
  space_id = bytes "s";
  text = bytes "t";
  fact = some m;
  evidence = bytes "e" ∷ [];
}

abbrev store_of : List SemanticRevision → FactStore
store_of revisions = record {
  records = [];
  revisions = revisions;
  indexed = [];
  changes = [];
  forgotten = [];
}

abbrev changed_store : FactStore
changed_store = store_of (
    revision_of 2 (confirmed_at 20 Transition.change)
    ∷ revision_of 1 (confirmed_at 10 Transition.establish)
    ∷ [])

abbrev fact_of_row : ℕ → Metadata → HistoricalState → Fact
fact_of_row n m state = record {
  record_id = bytes "r";
  revision = n;
  space_id = bytes "s";
  text = bytes "t";
  metadata = m;
  evidence = [];
  historical_state = state;
}

changed_history :
    fact_timeline changed_store (bytes "r")
    ≡ fact_of_row 1
        (record (confirmed_at 10 Transition.establish) { valid_until = some 20 })
        HistoricalState.changed
      ∷ fact_of_row 2 (confirmed_at 20 Transition.change) HistoricalState.unmarked
      ∷ []
unfolding fact_timeline resolve_history resolve history_rows scan_rows sort insert earlier
    close_intervals close_interval update_at fact_at contains str_eq
changed_history = refl

not_forgotten : contains changed_store.forgotten (bytes "r") ≡ false
unfolding contains
not_forgotten = refl

abbrev denied_store : FactStore
denied_store = store_of (
    revision_of 2 (confirmed_at 20 Transition.deny)
    ∷ revision_of 1 (confirmed_at 10 Transition.establish)
    ∷ [])

denied_transitions :
    map (λ f. f.metadata.transition) (history_rows (bytes "r") denied_store.revisions)
    ≡ (Transition.establish ∷ []) ++ Transition.deny ∷ []
unfolding history_rows scan_rows sort insert earlier str_eq
denied_transitions = refl

fact_timeline-AreDenied_example :
    AreDenied 1
      (history_rows (bytes "r") denied_store.revisions)
      (fact_timeline denied_store (bytes "r"))
fact_timeline-AreDenied_example =
    fact_timeline-AreDenied denied_store (bytes "r") not_forgotten (Transition.establish ∷ []) []
      denied_transitions (tt, tt)

abbrev owner_view : AuthorizedView
owner_view = record {
  id = bytes "v";
  version = 1;
  read_space_ids = bytes "s" ∷ [];
  write_space_id = bytes "s";
  max_disclosure_class = SpaceClass.private;
  labels = [];
  label_set_encoded = [];
  label_set_digest = bytes "d";
}

abbrev host_source : Source
host_source = record {
  producer = bytes "host";
  event_id = bytes "1";
  revision = [];
  fragment = [];
  subject = bytes "ann";
  fact_key = [];
  role = Role.structured_confirmation;
}

abbrev new_diet : Mutation
new_diet = record {
  transition = Transition.establish;
  target_record_id = [];
  expected_revision = 0;
  subject = bytes "ann";
  key = bytes "diet";
  text = bytes "vegan";
  valid_from = some 10;
  valid_until = none;
  conditions = [];
}

abbrev diet_fact : Fact
diet_fact = record {
  record_id = bytes "record-x";
  revision = 1;
  space_id = bytes "s";
  text = bytes "vegan";
  metadata = confirmed_at 10 Transition.establish;
  evidence = bytes "e" ∷ [];
  historical_state = HistoricalState.unmarked;
}

abbrev diet_store : FactStore
diet_store = record {
  records =
      record {
        record_id = bytes "record-x";
        space_id = bytes "s";
        label_set_digest = bytes "d";
        status = RecordStatus.active;
        current_revision = 1;
        subject = bytes "ann";
        fact_key = bytes "diet";
      }
      ∷ [];
  revisions =
      record {
        record_id = bytes "record-x";
        revision = 1;
        space_id = bytes "s";
        text = bytes "vegan";
        fact = some (confirmed_at 10 Transition.establish);
        evidence = bytes "e" ∷ [];
      }
      ∷ [];
  indexed =
      record {
        space_id = bytes "s";
        record_id = bytes "record-x";
        revision = 1;
        text = bytes "vegan";
      }
      ∷ [];
  changes =
      record {
        space_id = bytes "s";
        label_set_digest = bytes "d";
        kind = bytes "fact_establish";
        receipt_id = bytes "e";
        record_id = bytes "record-x";
      }
      ∷ [];
  forgotten = [];
}

established :
    apply_fact_mutation (some (bytes "x")) (store_of []) owner_view host_source (bytes "e") new_diet
    ≡ ok (diet_fact, diet_store)
unfolding apply_fact_mutation check_target base_metadata establish_conflict scan_heads
    check_conflicts confirmed_fact_conflict any_head write_fact write_record write_new_record
    new_record insert_record insert_revision find_record find_revision delete_indexed join_evidence
    read_fact_revision transition_name str_eq
established = refl

empty-IsFactStore : IsFactStore (store_of [])
unfolding head find_record
empty-IsFactStore = record {
  columns = λ id p h. absurd (cc (h));
  apart = λ a b p q n h k c. absurd (cc (h));
}

new_diet-IsTargeted : IsTargeted new_diet
new_diet-IsTargeted = record { edits = λ e. absurd (cc (e)); creates = λ e. refl }

apply_fact_mutation-IsFactStore_example : IsFactStore diet_store
apply_fact_mutation-IsFactStore_example =
    apply_fact_mutation-IsFactStore (some (bytes "x")) (store_of []) owner_view host_source
      (bytes "e") new_diet diet_fact diet_store new_diet-IsTargeted empty-IsFactStore established
