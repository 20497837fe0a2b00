-- ===== src/Tests/Requests.antt =====
-- Requests at the server of `Tests.Server`.
use memory.Prelude.{
  ◌≡◌, ◌≢◌, refl, sym, ◌∙◌, Bool, true, false, some-injective, none, some, [], contains,
}
use memory.Prelude.Int.{pos}
use memory.Prelude.Map
use memory.Prelude.Result.{ok}
use memory.Prelude.Sort.{sort}
use memory.Text.Bytes.{Str, Str-eq, bytes, str_eq, str_eq_iff}
use memory.Text.Base64.{base64_url}
use memory.Text.Decimal.{identifier}
use memory.Text.Utf8.{valid_from, decode_rune}
use memory.Text.Json.{string_size, escaped_from, escaped_size}
use memory.Labels.{canonical_label_set, check_labels, has_adjacent_duplicate}
use memory.Requests.{
  RememberRequest, RecallRequest, validate_remember, validate_source_context, check_scalars,
  check_extension_labels, check_occurred_at, source_context_size, scalars,
}
use memory.Facts.Validate.{no_context}
use memory.Reference.Types.{ProcessingState, Operation}
use memory.Reference.State.{Server, Outcome, random_token, hex, next_identifier}
use memory.Reference.Config.{
  create_realm, create_identity, check_class, create_space, read_spaces, write_space, create_view,
  check_operations, check_audiences, create_grant,
}
use memory.Reference.Issue.{create_issuer_authorization, issue_capability, check_granted}
use memory.Reference.Authorize.{authorization, authorize, check_delegation, check_view}
use memory.Reference.Recall.Returned.{Returned}
use memory.Reference.Recall.Disclosed.{Disclosed}
use memory.Reference.Recall.Status.{Reported, get_receipt_status-Reported}
use memory.Reference.Recall.Isolation.{recall-Disclosed}
use memory.Reference.Recall.{recall, get_receipt_status}
use memory.Reference.Remember.{
  Digests, Normalized, RememberResponse, remember_response, request_digest, normalized,
  next_sequence, consistency_token, commit_receipt, store_receipt, remember_effect, remember,
}
use memory.Reference.Remember.Retry.{Conflicts, remember-retry, remember-conflict}
use memory.Reference.Machine.{step, run}
use memory.Reference.Machine.Frames.{SameAuthority, remember-SameAuthority, Keeps}
use memory.Reference.Machine.Reads.{recall-SameStore, get_receipt_status-SameStore}
use memory.Tests.Server.{digests, to_lower, server, at, auth, view}

abbrev request : RememberRequest
request = record {
  text = bytes "tea";
  source_context = no_context;
  occurred_at = none;
  idempotency_key = bytes "k";
}

abbrev response : RememberResponse
response = record {
  is_accepted = true;
  receipt_id = bytes "receipt-00000001";
  consistency_token = base64_url (bytes "cur");
  deduplicated_retry = false;
  processing_state = ProcessingState.accepted;
}

abbrev stored : Server
stored = (remember digests 9 at 5 (some (bytes "cur")) auth request server).1

first :
    remember digests 9 at 5 (some (bytes "cur")) auth request server ≡ (Outcome.ok response, stored)
unfolding run step Map.get Map.put Map.find Map.empty create_realm create_identity check_class
    create_space read_spaces write_space create_view check_operations check_audiences create_grant
    create_issuer_authorization random_token issue_capability check_granted canonical_label_set
    check_labels has_adjacent_duplicate sort contains authorization check_delegation check_view
    base64_url str_eq authorize remember remember_effect store_receipt next_sequence next_identifier
    consistency_token commit_receipt remember_response request_digest normalized hex identifier
    validate_remember validate_source_context check_scalars check_extension_labels check_occurred_at
    source_context_size scalars valid_from decode_rune string_size escaped_from escaped_size
first = refl

allowed_still : authorization stored at auth Operation.remember ≡ ok (view, [])
unfolding run step Map.get Map.put Map.find Map.empty create_realm create_identity check_class
    create_space read_spaces write_space create_view check_operations check_audiences create_grant
    create_issuer_authorization random_token issue_capability check_granted canonical_label_set
    check_labels has_adjacent_duplicate sort contains authorization check_delegation check_view
    base64_url str_eq authorize remember remember_effect store_receipt next_sequence next_identifier
    consistency_token commit_receipt remember_response request_digest normalized hex identifier
    validate_remember validate_source_context check_scalars check_extension_labels check_occurred_at
    source_context_size scalars valid_from decode_rune string_size escaped_from escaped_size
allowed_still = refl

remember-retry_example :
    remember digests 1 at 7 none auth request stored
    ≡ (Outcome.ok (record response { deduplicated_retry = true }), stored)
remember-retry_example =
    remember-retry digests auth request 9 at 5 (some (bytes "cur")) server stored response first at
      (view, []) allowed_still 0 7 none

-- The digests of `Digests` that tell requests apart by their text.
abbrev by_text : Digests
by_text = record { marshal = λ n. some (text_of n); sha256 = λ s. s }
  where
    text_of : Normalized → Str
    text_of (Normalized.plain p) = p.text
    text_of (Normalized.labelled p ls) = p.text

abbrev other_request : RememberRequest
other_request = record {
  text = bytes "ale";
  source_context = no_context;
  occurred_at = none;
  idempotency_key = bytes "k";
}

abbrev stored_by_text : Server
stored_by_text = (remember by_text 9 at 5 (some (bytes "cur")) auth request server).1

first_by_text :
    remember by_text 9 at 5 (some (bytes "cur")) auth request server
    ≡ (Outcome.ok response, stored_by_text)
unfolding run step Map.get Map.put Map.find Map.empty create_realm create_identity check_class
    create_space read_spaces write_space create_view check_operations check_audiences create_grant
    create_issuer_authorization random_token issue_capability check_granted canonical_label_set
    check_labels has_adjacent_duplicate sort contains authorization check_delegation check_view
    base64_url str_eq authorize remember remember_effect store_receipt next_sequence next_identifier
    consistency_token commit_receipt remember_response request_digest normalized hex identifier
    validate_remember validate_source_context check_scalars check_extension_labels check_occurred_at
    source_context_size scalars valid_from decode_rune string_size escaped_from escaped_size
first_by_text = refl

allowed_by_text : authorization stored_by_text at auth Operation.remember ≡ ok (view, [])
unfolding run step Map.get Map.put Map.find Map.empty create_realm create_identity check_class
    create_space read_spaces write_space create_view check_operations check_audiences create_grant
    create_issuer_authorization random_token issue_capability check_granted canonical_label_set
    check_labels has_adjacent_duplicate sort contains authorization check_delegation check_view
    base64_url str_eq authorize remember remember_effect store_receipt next_sequence next_identifier
    consistency_token commit_receipt remember_response request_digest normalized hex identifier
    validate_remember validate_source_context check_scalars check_extension_labels check_occurred_at
    source_context_size scalars valid_from decode_rune string_size escaped_from escaped_size
allowed_by_text = refl

other_valid : validate_remember other_request ≡ none
unfolding run step Map.get Map.put Map.find Map.empty create_realm create_identity check_class
    create_space read_spaces write_space create_view check_operations check_audiences create_grant
    create_issuer_authorization random_token issue_capability check_granted canonical_label_set
    check_labels has_adjacent_duplicate sort contains authorization check_delegation check_view
    base64_url str_eq authorize remember remember_effect store_receipt next_sequence next_identifier
    consistency_token commit_receipt remember_response request_digest normalized hex identifier
    validate_remember validate_source_context check_scalars check_extension_labels check_occurred_at
    source_context_size scalars valid_from decode_rune string_size escaped_from escaped_size
other_valid = refl

digest_of_other : request_digest by_text other_request [] ≡ some (bytes "616c65")
unfolding request_digest normalized hex
digest_of_other = refl

digest_of_first : request_digest by_text request [] ≡ some (bytes "746561")
unfolding request_digest normalized hex
digest_of_first = refl

texts_differ : str_eq (bytes "746561") (bytes "616c65") ≡ false
unfolding str_eq
texts_differ = refl

clash : (b : Bool) → b ≡ true → b ≡ false → ⊥
clash b h k = cc (h, k)

digests_differ : request_digest by_text request [] ≢ some (bytes "616c65")
digests_differ e =
    clash _
      ((str_eq_iff (bytes "746561") (bytes "616c65")).1 (some-injective (sym digest_of_first ∙ e)))
      texts_differ

remember-conflict_example :
    Conflicts stored_by_text (remember by_text 1 at 7 none auth other_request stored_by_text)
unfolding run step Map.get Map.put Map.find Map.empty create_realm create_identity check_class
    create_space read_spaces write_space create_view check_operations check_audiences create_grant
    create_issuer_authorization random_token issue_capability check_granted canonical_label_set
    check_labels has_adjacent_duplicate sort contains authorization check_delegation check_view
    base64_url str_eq authorize remember remember_effect store_receipt next_sequence next_identifier
    consistency_token commit_receipt remember_response request_digest normalized hex identifier
    validate_remember validate_source_context check_scalars check_extension_labels check_occurred_at
    source_context_size scalars valid_from decode_rune string_size escaped_from escaped_size
remember-conflict_example =
    remember-conflict by_text auth request 9 at 5 (some (bytes "cur")) server stored_by_text
      response first_by_text at (view, []) allowed_by_text other_request (bytes "616c65") 0 7 none
      refl other_valid digest_of_other digests_differ

remember-SameAuthority_example : SameAuthority server stored
remember-SameAuthority_example =
    remember-SameAuthority digests 9 at 5 (some (bytes "cur")) auth request server

abbrev recall_request : RecallRequest
recall_request = record {
  query = bytes "tea";
  source_context = no_context;
  min_consistency_token = [];
  budget = record { max_fragments = pos 3; max_bytes = pos 100; deadline_ms = pos 10 };
}

recall-SameStore_example : Keeps (recall to_lower 9 at auth recall_request)
recall-SameStore_example = recall-SameStore to_lower 9 at auth recall_request

get_receipt_status-SameStore_example :
    Keeps (get_receipt_status 9 at auth (bytes "receipt-00000001"))
get_receipt_status-SameStore_example =
    get_receipt_status-SameStore 9 at auth (bytes "receipt-00000001")

recall-Disclosed_example :
    Returned
      (λ response _. Disclosed stored at auth recall_request response)
      (recall to_lower 9 at auth recall_request stored)
recall-Disclosed_example = recall-Disclosed to_lower 9 at auth recall_request stored

get_receipt_status-Reported_example :
    Returned
      (λ status _. Reported stored at auth (bytes "receipt-00000001") status)
      (get_receipt_status 9 at auth (bytes "receipt-00000001") stored)
get_receipt_status-Reported_example =
    get_receipt_status-Reported stored at auth (bytes "receipt-00000001") 9
