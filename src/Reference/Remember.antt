-- ===== src/Reference/Remember.antt =====
-- `Remember` of internal/reference/server.go.
pub mod Cases
pub mod Retry
use memory.Prelude.{
  ℕ, Bool, true, false, Option, none, some, List, [], ◌∷◌, ◌++◌, not, if◌then◌else◌,
}
use memory.Prelude.Map.{get, put}
use memory.Text.Bytes.{Str, Str-eq, str_eq, bytes}
use memory.Text.Base64.{base64_url}
use memory.Labels.{LabelSet}
use memory.Requests.{Time, SourceContext, RememberRequest, validate_remember}
use memory.Reference.Types.{
  Operation, ViewDefinition, Receipt, ProcessingState, IdempotencyEntry, Cursor, CallAuthorization,
  Audience,
}
use memory.Reference.State.{
  Server, EffectId, EffectId-eq, Call, Context, Draw, Message, text, unauthorized, internal,
  conflict, increment, hex, pure, fail, refuse, next_identifier, check_context, check_available,
  check_valid, ◌>>=◌, ◌>>◌,
}
use memory.Reference.Authorize.{Readings, authorize}

pub record RememberResponse : Type 0 where
  pub is_accepted : Bool
  pub receipt_id : Str
  pub consistency_token : Str
  pub deduplicated_retry : Bool
  pub processing_state : ProcessingState

unfoldable pub remember_response : Receipt → Bool → RememberResponse
remember_response stored deduplicated = record {
  is_accepted = true;
  receipt_id = stored.id;
  consistency_token = stored.consistency_token;
  deduplicated_retry = deduplicated;
  processing_state = stored.processing_state;
}

-- The value that `requestDigest` marshals: the labels are written only if there are any.
pub record Payload : Type 0 where
  pub text : Str
  pub source_context : SourceContext
  pub occurred_at : Option Time

pub data Normalized : Type 0 where
  plain : Payload → Normalized
  labelled : Payload → LabelSet → Normalized

unfoldable pub normalized : RememberRequest → LabelSet → Normalized
normalized r [] =
    plain (record { text = r.text; source_context = r.source_context; occurred_at = r.occurred_at })
normalized r (l ∷ ls) =
    labelled
      (record { text = r.text; source_context = r.source_context; occurred_at = r.occurred_at })
      (l ∷ ls)

-- `json.Marshal` of the normalized request, which may fail, and SHA-256.
pub record Digests : Type 0 where
  pub marshal : Normalized → Option Str
  pub sha256 : Str → Str

unfoldable pub request_digest : Digests → RememberRequest → LabelSet → Option Str
request_digest d r labels = elim (d.marshal (normalized r labels)) [
  | none ↦ none
  | some encoded ↦ some (hex (d.sha256 encoded))
]

-- `s.sequence++`
unfoldable pub next_sequence : Call ℕ
next_sequence s = let n = increment s.sequence in pure n (record s { sequence = n })

-- `randomConsistencyTokenLocked`
unfoldable pub consistency_token : Draw → Str → LabelSet → ℕ → Call Str
consistency_token none space_id labels sequence s =
    fail internal (text "failed to create consistency cursor") false s
consistency_token (some raw) space_id labels sequence s = pure (base64_url raw) (record s {
  tokens = put s.tokens (base64_url raw) (record {
    generation = s.generation;
    space_id = space_id;
    labels = labels;
    sequence = sequence;
  });
})

abbrev pub ids_of : Option (List Str) → List Str
ids_of none = []
ids_of (some ids) = ids

-- The three assignments that commit a receipt.
unfoldable pub commit_receipt : EffectId → Receipt → Call (Unit {0})
commit_receipt effect stored s = pure tt (record s {
  receipts = put s.receipts stored.id stored;
  receipts_by_space =
      put s.receipts_by_space stored.space_id
        (ids_of (get s.receipts_by_space stored.space_id) ++ stored.id ∷ []);
  idempotency =
      put s.idempotency effect
        (record { request_digest = stored.request_digest; receipt_id = stored.id });
})

abbrev pub new_receipt : Time → RememberRequest → Str → LabelSet → Str → ℕ → Str → Str → Receipt
new_receipt now request space_id labels digest sequence receipt_id token = record {
  id = receipt_id;
  space_id = space_id;
  text = request.text;
  source_context = request.source_context;
  occurred_at = request.occurred_at;
  received_at = now;
  idempotency_key = request.idempotency_key;
  request_digest = digest;
  commit_sequence = sequence;
  consistency_token = token;
  processing_state = ProcessingState.accepted;
  labels = labels;
}

-- From `s.sequence++` to the end: a new receipt.
unfoldable pub store_receipt :
    Time → Draw → RememberRequest → Str → LabelSet → Str → Call RememberResponse
unfolding next_sequence consistency_token commit_receipt
store_receipt now draw request space_id labels digest = do
  sequence ← next_sequence
  receipt_id ← next_identifier (bytes "receipt")
  token ← consistency_token draw space_id labels sequence
  let stored = new_receipt now request space_id labels digest sequence receipt_id token
  commit_receipt (space_id, request.idempotency_key) stored
  pure (remember_response stored false)

-- `s.receipts[id]`, which is the zero receipt where there is none.
zero_receipt : Receipt
zero_receipt = record {
  id = [];
  space_id = [];
  text = [];
  source_context = record {
    actor_ref = [];
    session_ref = [];
    workspace_ref = [];
    task_ref = [];
    tool_call_ref = [];
    source_type = [];
    extension_labels = [];
  };
  occurred_at = none;
  received_at = 0;
  idempotency_key = [];
  request_digest = [];
  commit_sequence = 0;
  consistency_token = [];
  processing_state = ProcessingState.other [];
  labels = [];
}

unfoldable pub receipt_of : Option Receipt → Receipt
unfolding zero_receipt
receipt_of none = zero_receipt
receipt_of (some r) = r

-- A retry of an effect that is stored.
unfoldable pub repeat_effect : IdempotencyEntry → Str → Call RememberResponse
repeat_effect previous digest s =
    (if str_eq previous.request_digest digest
        then pure (remember_response (receipt_of (get s.receipts previous.receipt_id)) true)
        else fail conflict (text "idempotency key conflicts with an existing effect") false)
      s

unfoldable pub remember_effect :
    Time → Draw → RememberRequest → Str → LabelSet → Str → Call RememberResponse
remember_effect now draw request space_id labels digest s =
    elim (get s.idempotency (space_id, request.idempotency_key)) [
      | some previous ↦ repeat_effect previous digest s
      | none ↦ store_receipt now draw request space_id labels digest s
    ]

abbrev pub digest_or_fail : Option Str → Call Str
digest_or_fail none = fail internal (text "failed to normalize request") false
digest_or_fail (some digest) = pure digest

-- `now` is the clock reading for `receivedAt`.
unfoldable pub remember :
    Digests
    → Context
    → Readings
    → Time
    → Draw
    → CallAuthorization
    → RememberRequest
    → Call RememberResponse
remember d ctx at now draw auth request = do
  _ ← check_context ctx false
  check_available
  check_valid (validate_remember request)
  (view, labels) ← authorize at auth Operation.remember
  digest ← digest_or_fail (request_digest d request labels)
  refuse (str_eq view.write_space_id []) unauthorized (text "View has no writable Space") false
  remember_effect now draw request view.write_space_id labels digest
