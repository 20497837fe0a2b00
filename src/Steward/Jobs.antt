-- ===== src/Steward/Jobs.antt =====
-- How a Worker's failure releases a Steward job: `FailStewardJob`, `ReportStewardFailure` and
-- `stewardRetryDelay` of internal/appliance/steward_jobs.go, on the rows of the tables `steward_jobs`
-- and `receipt_processing`. A failed transaction leaves the rows as they were; that the database
-- itself fails is left out. A row has the columns that these functions read or write.
pub mod Retry
pub mod Release
pub mod Accepted
pub mod Request
pub mod Sweep
pub mod Claim
pub mod Waiting
pub mod Served
pub mod Progress
pub mod Liveness
pub mod Fit
pub mod Oldest
use memory.Prelude.{
  ℕ, ◌+◌, ◌-◌, ◌*◌, ◌%◌, ◌^◌, ◌≡◌, refl, Bool, true, false, not, ◌&&◌, ◌||◌, Option, none, some,
  List, [], ◌∷◌, map, ltb, leb, nat_eq, if◌then◌else◌, length,
}
use memory.Prelude.Int.{int64, ℤ, to_nat, lt_bound, gt_bound, pos}
use memory.Prelude.Result.{Result, ok, err, ◌>>=◌, ◌>>◌, refuse}
use memory.Text.Bytes.{Str, str_eq, bytes}
use memory.Text.Utf8.{valid_string, runes}
use memory.Text.Strings.{trim_space}
use memory.Requests.{Time}
use memory.Reference.Types.{ProcessingState}

pub data JobState : Type 0 where
  pending leased completed failed : JobState

pub record Job : Type 0 where
  pub job_id : Str
  pub receipt_id : Str
  pub space_id : Str
  pub created_at : Str
  pub state : JobState
  pub attempts : ℕ
  pub available_at : Time
  pub lease_expires_at : Option Time
  pub lease_digest : Str
  pub terminal_error_code : Str
  pub updated_at : Time

pub record Processing : Type 0 where
  pub receipt_id : Str
  pub state : ProcessingState
  pub attempts : ℕ
  pub last_attempt_at : Option Time
  pub terminal_error_code : Str

-- A row of `steward_read_set`.
pub record ReadSetRow : Type 0 where
  pub job_id : Str
  pub attempt : ℕ
  pub ordinal : ℕ
  pub record_id : Str
  pub revision : ℕ
  pub receipt_id : Str

-- The rows, the Spaces and receipts under a barrier of the kind `receipt_deleted`, and whether `requireMutableGeneration` lets the generation be written.
pub record JobStore : Type 0 where
  pub jobs : List Job
  pub processing : List Processing
  pub read_set : List ReadSetRow
  pub barriers : List (Str × Str)
  pub is_mutable : Bool

pub record StewardLease : Type 0 where
  pub job_id : Str
  pub token : Str

-- `StewardFailure`; the delay is a signed number of nanoseconds.
pub record StewardFailure : Type 0 where
  pub code : Str
  pub retry_after : ℤ
  pub terminal : Bool

pub record FailRequest : Type 0 where
  pub lease : StewardLease
  pub code : Str
  pub retryable : Bool

pub data JobError : Type 0 where
  immutable_generation invalid_failure bad_retry_delay lease_lost : JobError

abbrev pub max_steward_attempts : ℕ
max_steward_attempts = 5

-- One second and one hour, in nanoseconds.
abbrev pub steward_retry_base : ℕ
steward_retry_base = 1000000000

abbrev pub hour : ℕ
hour = 3600 * 1000000000

unfoldable pub is_code_character : ℕ → Bool
is_code_character c = not ((ltb c 97 || ltb 122 c) && (ltb c 48 || ltb 57 c) && not (nat_eq c 95))

unfoldable pub are_code_characters : List ℕ → Bool
are_code_characters [] = true
are_code_characters (c ∷ cs) = is_code_character c && are_code_characters cs

unfoldable pub valid_failure_code : Str → Bool
valid_failure_code code =
    valid_string code
    && not (nat_eq (length code) 0)
    && not (ltb 64 (length code))
    && str_eq (trim_space code) code
    && are_code_characters (runes code)

-- `SELECT … FROM steward_jobs WHERE job_id = ?`
unfoldable pub find_job : List Job → Str → Option Job
find_job [] id = none
find_job (j ∷ js) id = if str_eq j.job_id id then some j else find_job js id

-- `UPDATE steward_jobs SET … WHERE job_id = ?`
unfoldable pub update_job : (Job → Job) → Str → List Job → List Job
update_job f id [] = []
update_job f id (j ∷ js) = (if str_eq j.job_id id then f j else j) ∷ update_job f id js

-- `UPDATE receipt_processing SET … WHERE receipt_id = ?`
unfoldable pub update_processing :
    (Processing → Processing) → Str → List Processing → List Processing
update_processing f id [] = []
update_processing f id (p ∷ ps) =
    (if str_eq p.receipt_id id then f p else p) ∷ update_processing f id ps

-- `failStewardJobTx`
unfoldable pub fail_job_tx : Str → Str → Time → Str → JobStore → JobStore
fail_job_tx job_id receipt_id now code s = record s {
  jobs =
      update_job
        (λ j. record j {
          state = JobState.failed;
          lease_expires_at = none;
          lease_digest = [];
          terminal_error_code = code;
          updated_at = now;
        })
        job_id s.jobs;
  processing =
      update_processing
        (λ p. record p {
          state = ProcessingState.failed;
          last_attempt_at = some now;
          terminal_error_code = code;
        })
        receipt_id s.processing;
}

-- The rows of a job that waits for its retry.
unfoldable pub retry_job : Str → Str → Time → ℕ → JobStore → JobStore
retry_job job_id receipt_id now delay s = record s {
  jobs =
      update_job
        (λ j. record j {
          state = JobState.pending;
          available_at = now + delay;
          lease_expires_at = none;
          lease_digest = [];
          terminal_error_code = [];
          updated_at = now;
        })
        job_id s.jobs;
  processing =
      update_processing
        (λ p. record p { state = ProcessingState.accepted; terminal_error_code = [] }) receipt_id
        s.processing;
}

abbrev pub is_leased : JobState → Bool
is_leased JobState.leased = true
is_leased _ = false

-- `leaseExpiresAt.Valid` and `leaseExpiry.After(now)`
abbrev pub lease_live : Option Time → Time → Bool
lease_live none now = false
lease_live (some expiry) now = ltb now expiry

abbrev pub require_job : Option Job → Result JobError Job
require_job none = err lease_lost
require_job (some job) = ok job

-- `digest` is `digestString`, a hash of the token.
unfoldable pub fail_steward_job :
    (Str → Str) → Time → StewardLease → StewardFailure → JobStore → Result JobError JobStore
fail_steward_job digest now lease failure s = do
  refuse (not s.is_mutable) immutable_generation
  refuse (str_eq lease.job_id [] || str_eq lease.token [] || not (valid_failure_code failure.code))
      invalid_failure
  refuse (lt_bound failure.retry_after 0 || gt_bound failure.retry_after hour) bad_retry_delay
  job ← require_job (find_job s.jobs lease.job_id)
  refuse (not (is_leased job.state) || not (str_eq job.lease_digest (digest lease.token)))
      lease_lost
  refuse (not (lease_live job.lease_expires_at now)) lease_lost
  ok (
      if failure.terminal
      then fail_job_tx lease.job_id job.receipt_id now failure.code s
      else retry_job lease.job_id job.receipt_id now (to_nat failure.retry_after) s)

-- `stewardRetryDelay`, in 64-bit integers.
unfoldable pub steward_retry_delay : ℕ → ℤ
steward_retry_delay attempt =
    let shift = if ltb 11 (attempt - 1) then 11 else attempt - 1 in
    let delay = int64 (steward_retry_base * (2 ^ shift % 2 ^ 64)) in
    if gt_bound delay hour then pos hour else delay

-- The failure that a report of a job with so many attempts amounts to.
unfoldable pub classify : ℕ → FailRequest → StewardFailure
classify attempts request =
    let terminal = not request.retryable || leb max_steward_attempts attempts in
    record {
      code = request.code;
      retry_after = if terminal then pos 0 else steward_retry_delay attempts;
      terminal = terminal;
    }

unfoldable pub report_steward_failure :
    (Str → Str) → Time → FailRequest → JobStore → Result JobError JobStore
report_steward_failure digest now request s = do
  refuse (not s.is_mutable) immutable_generation
  refuse
      (str_eq request.lease.job_id []
        || str_eq request.lease.token []
        || not (valid_failure_code request.code))
      invalid_failure
  job ← require_job (find_job s.jobs request.lease.job_id)
  fail_steward_job digest now request.lease (classify job.attempts request) s
