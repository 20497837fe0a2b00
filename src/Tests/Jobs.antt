-- ===== src/Tests/Jobs.antt =====
-- A leased Steward job whose Worker fails, and a correction of a receipt.
use mathlib.Core.List.{flatten}
use memory.Prelude.{◌≡◌, ◌≢◌, ◌≤◌, ◌↔◌, refl, true, none, some, [], ◌∷◌, arith}
use memory.Prelude.Int.{pos, int64}
use memory.Prelude.Result.{ok}
use memory.Text.Bytes.{Str, bytes, str_eq}
use memory.Text.Utf8.{valid_from, decode_rune, runes_from}
use memory.Text.Strings.{trim_space, segments_from, drop_space, is_space}
use memory.Management.{
  CorrectReceiptRequest, Within, max_replacement_text_bytes, max_reason_bytes,
  max_idempotency_key_bytes, validate_correct, validate_correct_iff,
}
use memory.Steward.Jobs.{
  Job, JobState, JobStore, FailRequest, steward_retry_base, hour, steward_retry_delay, find_job,
  update_job, update_processing, valid_failure_code, are_code_characters, is_code_character,
  retry_job, classify, fail_steward_job, report_steward_failure,
}
use memory.Steward.Jobs.Retry.{Released, backoff, steward_retry_delay-backoff}
use memory.Steward.Jobs.Release.{report_steward_failure-Released}
use memory.Steward.Jobs.Accepted.{report_steward_failure-accepts}

abbrev hash : Str → Str
hash s = s

abbrev job : Job
job = record {
  job_id = bytes "job";
  receipt_id = bytes "rec";
  space_id = bytes "sp";
  created_at = bytes "2026-01-01T00:00:00Z";
  state = JobState.leased;
  attempts = 2;
  available_at = 3;
  lease_expires_at = some 50;
  lease_digest = bytes "tok";
  terminal_error_code = [];
  updated_at = 3;
}

abbrev store : JobStore
store = record { jobs = job ∷ []; processing = []; read_set = []; barriers = []; is_mutable = true }

abbrev report : FailRequest
report = record {
  lease = record { job_id = bytes "job"; token = bytes "tok" };
  code = bytes "timeout";
  retryable = true;
}

abbrev retried_store : JobStore
retried_store = record {
  jobs =
      record {
        job_id = bytes "job";
        receipt_id = bytes "rec";
        space_id = bytes "sp";
        created_at = bytes "2026-01-01T00:00:00Z";
        state = JobState.pending;
        attempts = 2;
        available_at = 2000000010;
        lease_expires_at = none;
        lease_digest = [];
        terminal_error_code = [];
        updated_at = 10;
      }
      ∷ [];
  processing = [];
  read_set = [];
  barriers = [];
  is_mutable = true;
}

reported : report_steward_failure hash 10 report store ≡ ok retried_store
unfolding report_steward_failure fail_steward_job classify retry_job steward_retry_delay int64
    find_job update_job update_processing valid_failure_code are_code_characters is_code_character
    str_eq valid_from decode_rune runes_from trim_space segments_from drop_space is_space flatten
reported = refl

report_steward_failure-Released_example : Released hash 10 report store retried_store
report_steward_failure-Released_example =
    report_steward_failure-Released hash 10 report store retried_store reported

good_code : valid_failure_code (bytes "timeout") ≡ true
unfolding valid_failure_code are_code_characters is_code_character str_eq valid_from decode_rune
    runes_from trim_space segments_from drop_space is_space flatten
good_code = refl

found_job : find_job store.jobs (bytes "job") ≡ some job
unfolding find_job str_eq
found_job = refl

report_steward_failure-accepts_example :
    (t : JobStore) × (report_steward_failure hash 10 report store ≡ ok t)
report_steward_failure-accepts_example =
    report_steward_failure-accepts hash 10 report store job 50 refl (λ e. cc (e)) (λ e. cc (e))
      good_code found_job refl refl refl (omega arith)

steward_retry_delay-backoff_example :
    (steward_retry_delay 4 ≡ pos (backoff 3))
    × (steward_retry_base ≤ backoff 3)
    × (backoff 3 ≤ hour)
    × (backoff 3 ≤ backoff 4)
steward_retry_delay-backoff_example = steward_retry_delay-backoff 4

abbrev correction : CorrectReceiptRequest
correction = record {
  receipt_id = bytes "rec";
  replacement_text = bytes "tea";
  reason = bytes "typo";
  idempotency_key = bytes "k";
}

validate_correct_iff_example : (validate_correct correction ≡ ok tt) ↔ (
    (correction.receipt_id ≢ [])
    × Within correction.replacement_text max_replacement_text_bytes
    × Within correction.reason max_reason_bytes
    × Within correction.idempotency_key max_idempotency_key_bytes)
validate_correct_iff_example = validate_correct_iff correction
