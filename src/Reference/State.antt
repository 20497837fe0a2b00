-- ===== src/Reference/State.antt =====
-- The `Server` of internal/reference/server.go, service errors, and the calls of the data plane
-- as functions on the server. Each call holds the server's lock where it reads or writes, so calls
-- are modelled one after another.
use memory.Prelude.{
  ℕ, zero, suc, ◌+◌, ◌%◌, ◌^◌, ◌/◌, Bool, true, false, not, Option, none, some, List, [], ◌∷◌, Eq,
  ltb, pair_eq, pair_eq_iff, if◌then◌else◌,
}
use memory.Prelude.Map.{Map, empty}
use memory.Text.Bytes.{Str, Str-eq, bytes}
use memory.Text.Decimal.{identifier}
use memory.Text.Base64.{base64_url}
use memory.Requests.{ValidationError}
use memory.Reference.Types.{
  Realm, Identity, Space, ViewDefinition, Grant, CapabilityState, Receipt, IdempotencyEntry, Cursor,
}
use Prim.Native.String.{String}

-- `idempotencyIdentity`: a Space and a key.
abbrev pub EffectId : Type 0
EffectId = Str × Str

instance abbrev pub EffectId-eq : Eq EffectId
EffectId-eq = record { equals = pair_eq; equals_iff = pair_eq_iff }

pub record Server : Type 0 where
  pub generation : Str
  pub next_id : ℕ
  pub request_id : ℕ
  pub sequence : ℕ
  pub realms : Map Str Realm
  pub identities : Map Str Identity
  pub spaces : Map Str Space
  pub views : Map Str ViewDefinition
  pub grants : Map Str Grant
  pub capabilities : Map Str CapabilityState
  pub issuer_credentials : Map Str Str
  pub receipts : Map Str Receipt
  pub receipts_by_space : Map Str (List Str)
  pub idempotency : Map EffectId IdempotencyEntry
  pub tokens : Map Str Cursor
  pub candidate_reads : Map Str ℕ
  pub available : Bool

abbrev hex_digit : ℕ → ℕ
hex_digit n = if ltb n 10 then 48 + n else 87 + n

-- `hex.EncodeToString`
unfoldable pub hex : Str → Str
hex [] = []
hex (b ∷ rest) = hex_digit (b / 16) ∷ hex_digit (b % 16) ∷ hex rest

-- `New`, given the 16 bytes that the random source yields, or `none` if it fails.
unfoldable pub new : Option Str → Option Server
new none = none
new (some generation_bytes) = some (record {
  generation = hex generation_bytes;
  next_id = 0;
  request_id = 0;
  sequence = 0;
  realms = empty;
  identities = empty;
  spaces = empty;
  views = empty;
  grants = empty;
  capabilities = empty;
  issuer_credentials = empty;
  receipts = empty;
  receipts_by_space = empty;
  idempotency = empty;
  tokens = empty;
  candidate_reads = empty;
  available = true;
})

-- `n++` on a uint64.
abbrev pub increment : ℕ → ℕ
increment n = (n + 1) % 2 ^ 64

pub data ErrorCode : Type 0 where
  invalid_argument unauthorized incompatible not_found conflict deadline : ErrorCode
  unavailable unknown_outcome stale_consistency_token internal : ErrorCode

pub data Message : Type 0 where
  text : String → Message
  invalid : ValidationError → Message

pub record ServiceError : Type 0 where
  pub code : ErrorCode
  pub message : Message
  pub retryable : Bool
  pub request_id : Str

-- A call returns a value or a service error, or it panics.
pub data Outcome (A : Type 0) : Type 0 where
  ok : A → Outcome A
  err : ServiceError → Outcome A
  panic : Outcome A

abbrev pub Call : Type 0 → Type 0
Call A = Server → Outcome A × Server

-- What follows a call that returned.
abbrev pub after_call : {A B : Type 0} → Outcome A × Server → (A → Call B) → Outcome B × Server
after_call (Outcome.ok a, s) f = f a s
after_call (Outcome.err e, s) f = (Outcome.err e, s)
after_call (Outcome.panic, s) f = (Outcome.panic, s)

infixl 5 ◌>>=◌ ◌>>◌
abbrev pub ◌>>=◌ : {A B : Type 0} → Call A → (A → Call B) → Call B
◌>>=◌ m f s = after_call (m s) f

abbrev pub ◌>>◌ : {B : Type 0} → Call (Unit {0}) → Call B → Call B
m >> k = m >>= λ _. k

abbrev pub pure : {A : Type 0} → A → Call A
pure a s = (Outcome.ok a, s)

-- `return …, s.serviceError(code, message, retryable)`: the error carries a new request number.
unfoldable pub fail : {A : Type 0} → ErrorCode → Message → Bool → Call A
fail code message retryable s =
    let n = increment s.request_id in
    (
      Outcome.err (record {
        code = code;
        message = message;
        retryable = retryable;
        request_id = identifier (bytes "request") n;
      }),
      record s { request_id = n },
    )

-- The server after a call that only reported an error.
abbrev pub failed : Server → Server
failed s = record s { request_id = increment s.request_id }

-- `if b { return …, s.serviceError(…) }`
abbrev pub refuse : Bool → ErrorCode → Message → Bool → Call (Unit {0})
refuse b code message retryable = if b then fail code message retryable else pure tt

-- `s.nextIdentifierLocked(prefix)`
unfoldable pub next_identifier : Str → Call Str
next_identifier prefix s =
    let n = increment s.next_id in (Outcome.ok (identifier prefix n), record s { next_id = n })

-- What the random source yields for one read: the bytes, or `none` if the read fails.
abbrev pub Draw : Type 0
Draw = Option Str

-- `s.randomToken()`
unfoldable pub random_token : Draw → Option Str
random_token none = none
random_token (some raw) = some (base64_url raw)

-- A context by the number of `contextError` calls that still pass before its deadline; once done,
-- a context stays done.
abbrev pub Context : Type 0
Context = ℕ

-- `if err := contextError(ctx); err != nil { return …, s.serviceError(…) }`
abbrev pub check_context : Context → Bool → Call Context
check_context zero retryable = fail deadline (text "request deadline exceeded") retryable
check_context (suc rest) retryable = pure rest

abbrev pub check_available : Call (Unit {0})
check_available s =
    refuse (not s.available) unavailable (text "reference service is unavailable") true s

-- `if err := request.Validate(); err != nil { … }`
abbrev pub check_valid : Option ValidationError → Call (Unit {0})
check_valid none = pure tt
check_valid (some e) = fail invalid_argument (invalid e) false
