-- ===== src/Reference/Types.antt =====
-- The stored data of internal/reference/config.go and server.go, with the enumerations of
-- api/memory/v1alpha1/types.go. A Go string type with named constants is a data type with one
-- constructor for each constant and `other` for any other string.
use memory.Prelude.{ℕ, ◌≡◌, ◌↔◌, Bool, true, false, Option, List, arith, Eq, contains}
use memory.Text.Bytes.{Str, str_eq, str_eq_iff}
use memory.Labels.{LabelSet}
use memory.Requests.{Time, SourceContext}

pub data Audience : Type 0 where
  private shared : Audience
  other : Str → Audience

abbrev pub audience_eq : Audience → Audience → Bool
audience_eq Audience.private Audience.private = true
audience_eq Audience.shared Audience.shared = true
audience_eq (Audience.other a) (Audience.other b) = str_eq a b
audience_eq _ _ = false

pub audience_eq_iff : (a b : Audience) → (audience_eq a b ≡ true) ↔ (a ≡ b)
audience_eq_iff (Audience.other a) (Audience.other b) = ground (arith, str_eq_iff a b)
audience_eq_iff Audience.private Audience.private = ground arith
audience_eq_iff Audience.private Audience.shared = ground arith
audience_eq_iff Audience.private (Audience.other b) = ground arith
audience_eq_iff Audience.shared Audience.private = ground arith
audience_eq_iff Audience.shared Audience.shared = ground arith
audience_eq_iff Audience.shared (Audience.other b) = ground arith
audience_eq_iff (Audience.other a) Audience.private = ground arith
audience_eq_iff (Audience.other a) Audience.shared = ground arith

instance abbrev pub Audience-eq : Eq Audience
Audience-eq = record { equals = audience_eq; equals_iff = audience_eq_iff }

pub data SpaceClass : Type 0 where
  private shared : SpaceClass
  other : Str → SpaceClass

abbrev pub is_private : SpaceClass → Bool
is_private SpaceClass.private = true
is_private _ = false

abbrev pub class_eq : SpaceClass → SpaceClass → Bool
class_eq SpaceClass.private SpaceClass.private = true
class_eq SpaceClass.shared SpaceClass.shared = true
class_eq (SpaceClass.other a) (SpaceClass.other b) = str_eq a b
class_eq _ _ = false

pub class_eq_iff : (a b : SpaceClass) → (class_eq a b ≡ true) ↔ (a ≡ b)
class_eq_iff (SpaceClass.other a) (SpaceClass.other b) = ground (arith, str_eq_iff a b)
class_eq_iff SpaceClass.private SpaceClass.private = ground arith
class_eq_iff SpaceClass.private SpaceClass.shared = ground arith
class_eq_iff SpaceClass.private (SpaceClass.other b) = ground arith
class_eq_iff SpaceClass.shared SpaceClass.private = ground arith
class_eq_iff SpaceClass.shared SpaceClass.shared = ground arith
class_eq_iff SpaceClass.shared (SpaceClass.other b) = ground arith
class_eq_iff (SpaceClass.other a) SpaceClass.private = ground arith
class_eq_iff (SpaceClass.other a) SpaceClass.shared = ground arith

pub data Operation : Type 0 where
  remember recall receipt_status : Operation
  other : Str → Operation

abbrev pub operation_code : Operation → ℕ
operation_code Operation.remember = 0
operation_code Operation.recall = 1
operation_code Operation.receipt_status = 2
operation_code (Operation.other s) = 3

abbrev pub operation_eq : Operation → Operation → Bool
operation_eq Operation.remember Operation.remember = true
operation_eq Operation.recall Operation.recall = true
operation_eq Operation.receipt_status Operation.receipt_status = true
operation_eq (Operation.other a) (Operation.other b) = str_eq a b
operation_eq _ _ = false

pub operation_eq_iff : (a b : Operation) → (operation_eq a b ≡ true) ↔ (a ≡ b)
operation_eq_iff (Operation.other a) (Operation.other b) = ground (arith, str_eq_iff a b)
operation_eq_iff Operation.remember b = ground arith
operation_eq_iff Operation.recall b = ground arith
operation_eq_iff Operation.receipt_status b = ground arith
operation_eq_iff a b = ground arith

instance abbrev pub Operation-eq : Eq Operation
Operation-eq = record { equals = operation_eq; equals_iff = operation_eq_iff }

-- `containsOperation` and `containsAudience`.
abbrev pub contains_operation : List Operation → Operation → Bool
contains_operation = contains

abbrev pub contains_audience : List Audience → Audience → Bool
contains_audience = contains

abbrev pub valid_operation : Operation → Bool
valid_operation (Operation.other s) = false
valid_operation _ = true

abbrev pub valid_audience : Audience → Bool
valid_audience (Audience.other s) = false
valid_audience _ = true

pub record Realm : Type 0 where
  pub id : Str

pub record Identity : Type 0 where
  pub id : Str
  pub realm_id : Str

pub record Space : Type 0 where
  pub id : Str
  pub realm_id : Str
  pub identity_id : Str
  pub class : SpaceClass

pub record ViewDefinition : Type 0 where
  pub id : Str
  pub realm_id : Str
  pub read_space_ids : List Str
  pub write_space_id : Str
  pub max_disclosure_class : SpaceClass
  pub recall_policy_ref : Str
  pub version : ℕ

pub record Grant : Type 0 where
  pub id : Str
  pub principal_ref : Str
  pub actor_ref : Str
  pub view_ref : Str
  pub allowed_operations : List Operation
  pub allowed_audiences : List Audience
  pub expires_at : Time
  pub revoked : Bool
  pub version : ℕ

pub record CapabilityState : Type 0 where
  pub grant_id : Str
  pub principal_ref : Str
  pub view_version : ℕ
  pub actor_ref : Str
  pub audience : Audience
  pub operations : List Operation
  pub labels : LabelSet
  pub expires_at : Time

pub data ProcessingState : Type 0 where
  accepted processing organized failed : ProcessingState
  other : Str → ProcessingState

pub record Receipt : Type 0 where
  pub id : Str
  pub space_id : Str
  pub text : Str
  pub source_context : SourceContext
  pub occurred_at : Option Time
  pub received_at : Time
  pub idempotency_key : Str
  pub request_digest : Str
  pub commit_sequence : ℕ
  pub consistency_token : Str
  pub processing_state : ProcessingState
  pub labels : LabelSet

pub record IdempotencyEntry : Type 0 where
  pub request_digest : Str
  pub receipt_id : Str

pub record Cursor : Type 0 where
  pub generation : Str
  pub space_id : Str
  pub labels : LabelSet
  pub sequence : ℕ

-- `CallAuthorization` of api/memory/v1alpha1/types.go.
pub record CallAuthorization : Type 0 where
  pub capability : Str
  pub actor_ref : Str
  pub audience : Audience
