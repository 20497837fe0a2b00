-- ===== src/Facts/Store.antt =====
-- The facts that the appliance stores, and one edit of them: internal/appliance/facts_lifecycle.go, on the rows of the
-- tables `semantic_records`, `semantic_revisions` with `semantic_evidence`, `memory_changes` and the text index. A
-- transaction that fails leaves the rows as they were; that the database itself fails is left out, but for a primary
-- key that is there already. The columns for times, kinds, reasons and encoded labels are left out, and of a piece of
-- evidence its identifier is kept. An empty `fact_json` is no metadata.
use memory.Prelude.{
  ℕ, Bool, true, false, ◌&&◌, Option, none, some, List, [], ◌∷◌, ltb, nat_eq, if◌then◌else◌,
}
use memory.Prelude.Result.{Result, ok, err}
use memory.Text.Bytes.{Str, str_eq, Str-eq}
use memory.Requests.{Time}
use memory.Facts.{Transition, Condition}

pub data Adoption : Type 0 where
  pending confirmed denied : Adoption

pub data RecordStatus : Type 0 where
  active invalidated : RecordStatus

pub data HistoricalState : Type 0 where
  unmarked corrected changed denied : HistoricalState

pub record Metadata : Type 0 where
  pub subject : Str
  pub key : Str
  pub adoption : Adoption
  pub valid_from : Option Time
  pub valid_until : Option Time
  pub conditions : List Condition
  pub transition : Transition
  pub related_record_id : Str

pub record Fact : Type 0 where
  pub record_id : Str
  pub revision : ℕ
  pub space_id : Str
  pub text : Str
  pub metadata : Metadata
  pub evidence : List Str
  pub historical_state : HistoricalState

-- A row of `semantic_records`.
pub record SemanticRecord : Type 0 where
  pub record_id : Str
  pub space_id : Str
  pub label_set_digest : Str
  pub status : RecordStatus
  pub current_revision : ℕ
  pub subject : Str
  pub fact_key : Str

-- A row of `semantic_revisions`, with its evidence in the order of the ordinals.
pub record SemanticRevision : Type 0 where
  pub record_id : Str
  pub revision : ℕ
  pub space_id : Str
  pub text : Str
  pub fact : Option Metadata
  pub evidence : List Str

-- A row of the index of a Space.
pub record IndexRow : Type 0 where
  pub space_id : Str
  pub record_id : Str
  pub revision : ℕ
  pub text : Str

-- A row of `memory_changes`; its sequence number is its place, counted from 1.
pub record MemoryChange : Type 0 where
  pub space_id : Str
  pub label_set_digest : Str
  pub kind : Str
  pub receipt_id : Str
  pub record_id : Str

-- `forgotten` lists the records under a deletion barrier.
pub record FactStore : Type 0 where
  pub records : List SemanticRecord
  pub revisions : List SemanticRevision
  pub indexed : List IndexRow
  pub changes : List MemoryChange
  pub forgotten : List Str

pub data FactError : Type 0 where
  target_absent target_stale target_differs conditions_differ not_pending not_confirmed
        onset_not_after corrected_onset exception_only_corrected exception_not_finite key_exists
        would_fork overlapping no_metadata no_row row_exists no_random :
      FactError

abbrev pub is_active : RecordStatus → Bool
is_active RecordStatus.active = true
is_active RecordStatus.invalidated = false

abbrev pub is_confirmed : Adoption → Bool
is_confirmed Adoption.confirmed = true
is_confirmed _ = false

abbrev pub is_pending : Adoption → Bool
is_pending Adoption.pending = true
is_pending _ = false

abbrev pub is_denied : Adoption → Bool
is_denied Adoption.denied = true
is_denied _ = false

abbrev pub is_present : Option Time → Bool
is_present none = false
is_present (some t) = true

-- `t.Before(u)` where both are there.
abbrev pub before : Option Time → Option Time → Bool
before (some t) (some u) = ltb t u
before _ _ = false

-- `slices.Equal` on conditions.
unfoldable pub conditions_eq : List Condition → List Condition → Bool
conditions_eq [] [] = true
conditions_eq [] (d ∷ ds) = false
conditions_eq (c ∷ cs) [] = false
conditions_eq (c ∷ cs) (d ∷ ds) =
    (str_eq c.key d.key && str_eq c.value d.value) && conditions_eq cs ds

-- `SELECT … FROM semantic_records WHERE record_id = ?`
unfoldable pub find_record : Str → List SemanticRecord → Option SemanticRecord
find_record id [] = none
find_record id (r ∷ rs) = if str_eq r.record_id id then some r else find_record id rs

-- `SELECT … FROM semantic_revisions WHERE record_id = ? AND revision = ?`
unfoldable pub find_revision : Str → ℕ → List SemanticRevision → Option SemanticRevision
find_revision id n [] = none
find_revision id n (r ∷ rs) =
    if str_eq r.record_id id && nat_eq r.revision n then some r else find_revision id n rs

abbrev pub revision_fact : Option SemanticRevision → Option Metadata
revision_fact none = none
revision_fact (some r) = r.fact

-- The metadata that a record's current revision joins to.
unfoldable pub head_fact : List SemanticRevision → SemanticRecord → Option Metadata
head_fact revisions r = revision_fact (find_revision r.record_id r.current_revision revisions)

abbrev pub fact_of : SemanticRevision → Option Metadata → Result FactError Fact
fact_of r none = err no_metadata
fact_of r (some m) = ok (record {
  record_id = r.record_id;
  revision = r.revision;
  space_id = r.space_id;
  text = r.text;
  metadata = m;
  evidence = r.evidence;
  historical_state = unmarked;
})

abbrev pub read_row : Option SemanticRevision → Result FactError Fact
read_row none = err no_row
read_row (some r) = fact_of r r.fact

-- `readFactRevision`
unfoldable pub read_fact_revision : FactStore → Str → ℕ → Result FactError Fact
read_fact_revision s id n = read_row (find_revision id n s.revisions)
