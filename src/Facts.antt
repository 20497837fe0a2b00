-- ===== src/Facts.antt =====
-- The facts contract: the data of api/memory/facts/v1alpha1/types.go and, in the children, the
-- checks of api/memory/facts/v1alpha1/validate.go.
pub mod Validate
pub mod Accepted
pub mod Store
pub mod Timeline
pub mod Lifecycle
pub mod Apply
use memory.Prelude.{ℕ, Bool, Option, List}
use memory.Prelude.Int.{ℤ}
use memory.Text.Bytes.{Str}
use memory.Labels.{LabelSet}
use memory.Requests.{Time}

pub data Role : Type 0 where
  user_quote structured_confirmation observation inference : Role
  other : Str → Role

pub data Transition : Type 0 where
  establish change exception correct confirm deny : Transition
  other : Str → Transition

pub record Source : Type 0 where
  pub producer : Str
  pub event_id : Str
  pub revision : Str
  pub fragment : Str
  pub subject : Str
  pub fact_key : Str
  pub role : Role

pub record Condition : Type 0 where
  pub key : Str
  pub value : Str

pub record Mutation : Type 0 where
  pub transition : Transition
  pub target_record_id : Str
  pub expected_revision : ℕ
  pub subject : Str
  pub key : Str
  pub text : Str
  pub valid_from : Option Time
  pub valid_until : Option Time
  pub conditions : List Condition

pub record SubmitEvidenceRequest : Type 0 where
  pub source : Source
  pub text : Str
  pub occurred_at : Option Time
  pub idempotency_key : Str
  pub mutations : List Mutation

pub record Scope : Type 0 where
  pub space_id : Str
  pub labels : LabelSet

pub record IngestionPolicy : Type 0 where
  pub scope : Scope
  pub producer : Str
  pub subject : Str
  pub is_denied : Bool
  pub reason : Str

pub record Budget : Type 0 where
  pub max_facts : ℤ
  pub max_bytes : ℤ

-- The context is the list of the entries of a Go map.
pub record ReadRequest : Type 0 where
  pub subject : Str
  pub key : Str
  pub query : Str
  pub as_of : Option Time
  pub context : List (Str × Str)
  pub budget : Budget

pub record HistoryRequest : Type 0 where
  pub subject : Str
  pub record_id : Str
  pub after_revision : ℕ
  pub budget : Budget
