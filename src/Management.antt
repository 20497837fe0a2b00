-- ===== src/Management.antt =====
-- The owner's requests on receipts and their checks: api/memory/management/v1alpha1/types.go and
-- api/memory/management/v1alpha1/validate.go.
use memory.Prelude.{ℕ, ◌≤◌, ◌≡◌, ◌≢◌, ◌↔◌, Bool, true, not, ◌||◌, [], ltb, nat_eq, arith, length}
use memory.Prelude.Int.{ℤ, lt_bound, gt_bound}
use memory.Prelude.Result.{Result, ok, ◌>>◌, refuse}
use memory.Text.Bytes.{Str, str_eq, str_eq_iff}
use memory.Text.Utf8.{valid_string}

abbrev pub max_query_bytes : ℕ
max_query_bytes = 8192

abbrev pub max_replacement_text_bytes : ℕ
max_replacement_text_bytes = 65536

abbrev pub max_reason_bytes : ℕ
max_reason_bytes = 1024

abbrev pub max_idempotency_key_bytes : ℕ
max_idempotency_key_bytes = 128

pub record SearchReceiptsRequest : Type 0 where
  pub query : Str
  pub space_id : Str
  pub limit : ℤ
  pub include_corrected : Bool

pub record TraceReceiptRequest : Type 0 where
  pub receipt_id : Str

pub record CorrectReceiptRequest : Type 0 where
  pub receipt_id : Str
  pub replacement_text : Str
  pub reason : Str
  pub idempotency_key : Str

pub record DeleteReceiptRequest : Type 0 where
  pub receipt_id : Str
  pub reason : Str
  pub idempotency_key : Str

pub data RequestError : Type 0 where
  bad_query bad_limit receipt_required bad_replacement bad_reason bad_key : RequestError

-- `!utf8.ValidString(s) || len(s) == 0 || len(s) > n`
abbrev outside : Str → ℕ → Bool
outside s n = not (valid_string s) || nat_eq (length s) 0 || ltb n (length s)

unfoldable pub validate_management_mutation : Str → Str → Result RequestError (Unit {0})
validate_management_mutation reason key = do
  refuse (outside reason max_reason_bytes) bad_reason
  refuse (outside key max_idempotency_key_bytes) bad_key

unfoldable pub validate_search : SearchReceiptsRequest → Result RequestError (Unit {0})
validate_search r = do
  refuse (outside r.query max_query_bytes) bad_query
  refuse (lt_bound r.limit 1 || gt_bound r.limit 100) bad_limit

unfoldable pub validate_trace : TraceReceiptRequest → Result RequestError (Unit {0})
validate_trace r = refuse (str_eq r.receipt_id []) receipt_required

unfoldable pub validate_correct : CorrectReceiptRequest → Result RequestError (Unit {0})
validate_correct r = do
  refuse (str_eq r.receipt_id []) receipt_required
  refuse (outside r.replacement_text max_replacement_text_bytes) bad_replacement
  validate_management_mutation r.reason r.idempotency_key

unfoldable pub validate_delete : DeleteReceiptRequest → Result RequestError (Unit {0})
validate_delete r = do
  refuse (str_eq r.receipt_id []) receipt_required
  validate_management_mutation r.reason r.idempotency_key

-- A text that is valid UTF-8, not empty, and no longer than `n` bytes.
abbrev pub Within : Str → ℕ → Type 0
Within s n = (valid_string s ≡ true) × (1 ≤ length s) × (length s ≤ n)

-- A correction is accepted exactly when it names a receipt and its text, its reason and its
-- idempotency key are valid UTF-8, not empty, and at most 65536, 1024 and 128 bytes long.
pub validate_correct_iff :
    (r : CorrectReceiptRequest)
    → (validate_correct r ≡ ok tt) ↔ (
        (r.receipt_id ≢ [])
        × Within r.replacement_text max_replacement_text_bytes
        × Within r.reason max_reason_bytes
        × Within r.idempotency_key max_idempotency_key_bytes)
unfolding validate_correct validate_management_mutation
validate_correct_iff r = ground (arith, str_eq_iff r.receipt_id [])
