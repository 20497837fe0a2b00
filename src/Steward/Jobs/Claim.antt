-- ===== src/Steward/Jobs/Claim.antt =====
-- How a Worker gets a job: `ClaimStewardJob` of internal/appliance/steward_jobs.go. The request that the lease carries
-- is read from tables that are not modelled: what `readStewardProfile` and `readStewardWorkRequest` read for a job is
-- an argument, and so is the length of an encoded request. `now k` is the clock in attempt `k`, and `now 0` before them.
use memory.Prelude.{
  ℕ, zero, suc, ◌+◌, ◌*◌, Bool, false, not, ◌&&◌, ◌||◌, Option, none, some, List, [], ◌∷◌, ◌++◌,
  ltb, leb, nat_eq, if◌then◌else◌, length,
}
use memory.Prelude.Int.{ℤ, to_nat, lt_bound, gt_bound}
use memory.Text.Bytes.{Str, str_eq, str_lt, bytes, Str-eq}
use memory.Requests.{Time}
use memory.Reference.Types.{ProcessingState}
use memory.Steward.Jobs.{
  JobState, Job, JobStore, max_steward_attempts, is_leased, fail_job_tx, update_processing,
}
use memory.Steward.Jobs.Request.{WorkRequest, WorkInput, StewardWork, fit_request, persist_read_set}
use memory.Steward.Jobs.Sweep.{is_pending, is_expired, is_barred, sweep}

-- One second and ten minutes, in nanoseconds.
abbrev pub min_steward_lease : ℕ
min_steward_lease = 1000000000

abbrev pub max_steward_lease : ℕ
max_steward_lease = 10 * (60 * 1000000000)

unfoldable pub is_claimable : List (Str × Str) → Time → Job → Bool
is_claimable barriers now job =
    is_pending job.state
    && leb job.available_at now
    && ltb job.attempts max_steward_attempts
    && not (is_barred barriers job.space_id job.receipt_id)

-- `ORDER BY created_at, job_id`, on texts.
unfoldable pub precedes : Job → Job → Bool
precedes a b =
    str_lt a.created_at b.created_at || str_eq a.created_at b.created_at && str_lt a.job_id b.job_id

abbrev pub first_of : Job → Option Job → Option Job
first_of job none = some job
first_of job (some other) = if precedes other job then some other else some job

-- `SELECT … ORDER BY created_at, job_id LIMIT 1`
unfoldable pub select_job : List (Str × Str) → Time → List Job → Option Job
select_job barriers now [] = none
select_job barriers now (j ∷ js) =
    let rest = select_job barriers now js in
    if is_claimable barriers now j then first_of j rest else rest

unfoldable pub lease_row : Time → ℕ → Str → Job → Job
lease_row now duration digest job = record job {
  state = JobState.leased;
  attempts = job.attempts + 1;
  lease_expires_at = some (now + duration);
  lease_digest = digest;
  updated_at = now;
}

abbrev pub is_target : Str → Time → Job → Bool
is_target id now job = str_eq job.job_id id && is_pending job.state && leb job.available_at now

-- `UPDATE steward_jobs SET state = 'leased', … WHERE job_id = ? AND state = 'pending' AND available_at <= ?`
unfoldable pub lease_job : Str → Time → ℕ → Str → List Job → List Job
lease_job id now duration digest [] = []
lease_job id now duration digest (j ∷ js) =
    (if is_target id now j then lease_row now duration digest j else j)
    ∷ lease_job id now duration digest js

-- `RowsAffected`
unfoldable pub count_targets : Str → Time → List Job → ℕ
count_targets id now [] = 0
count_targets id now (j ∷ js) = (if is_target id now j then 1 else 0) + count_targets id now js

-- What an attempt comes to: nothing to lease, a lease, another attempt, or a failure to read the request.
pub data Claimed : Type 0 where
  nothing : JobStore → Claimed
  claimed : StewardWork → JobStore → Claimed
  again : Claimed
  unread : Claimed

abbrev pub claim_fitted : Job → Str → Time → JobStore → Option WorkRequest → Claimed
claim_fitted job token now s none =
    nothing (fail_job_tx job.job_id job.receipt_id now (bytes "input_too_large") s)
claim_fitted job token now s (some request) =
    claimed
      (record { job_id = job.job_id; token = token; attempt = job.attempts + 1; request = request })
      (record s {
        read_set = s.read_set ++ persist_read_set job.job_id (job.attempts + 1) 0 request.records;
      })

abbrev pub claim_read : Job → Str → Time → JobStore → Option WorkInput → Claimed
claim_read job token now s none = unread
claim_read job token now s (some input) = claim_fitted job token now s (
    fit_request (length input.request.lexicon_candidates + length input.request.records + 1) input
      input.request)

-- The rows of a job that is being leased.
unfoldable pub start_lease : Job → Time → ℕ → Str → JobStore → JobStore
start_lease job now duration digest s = record s {
  jobs = lease_job job.job_id now duration digest s.jobs;
  processing =
      update_processing
        (λ p. record p {
          state = ProcessingState.processing;
          attempts = p.attempts + 1;
          last_attempt_at = some now;
          terminal_error_code = [];
        })
        job.receipt_id s.processing;
}

abbrev pub claim_selected :
    (Str → Str) → Time → ℕ → Str → (Job → Option WorkInput) → JobStore → Option Job → Claimed
claim_selected digest now duration token read s none = nothing s
claim_selected digest now duration token read s (some job) =
    if nat_eq (count_targets job.job_id now s.jobs) 1
    then claim_read job token now (start_lease job now duration (digest token) s) (read job)
    else again

-- `claimStewardJob`
unfoldable pub claim_attempt :
    (Str → Str) → Time → ℕ → Str → (Job → Option WorkInput) → JobStore → Claimed
claim_attempt digest now duration token read s =
    let swept = sweep now s in
    claim_selected digest now duration token read swept (select_job s.barriers now swept.jobs)

pub data ClaimError : Type 0 where
  immutable_generation bad_lease_duration no_token unreadable : ClaimError

-- What the caller gets, and the rows that it leaves.
pub data ClaimOutcome : Type 0 where
  refused : ClaimError → ClaimOutcome
  no_work : JobStore → ClaimOutcome
  work : StewardWork → JobStore → ClaimOutcome

-- The loop over the attempts, which leave the rows as they were when they are repeated.
unfoldable pub claim_attempts :
    ℕ → ℕ → (Str → Str) → (ℕ → Time) → ℕ → Str → (Job → Option WorkInput) → JobStore → ClaimOutcome
claim_attempts zero k digest now duration token read s = no_work s
claim_attempts (suc left) k digest now duration token read s =
    elim (claim_attempt digest (now k) duration token read s) [
      | nothing t ↦ no_work t
      | claimed w t ↦ work w t
      | unread ↦ refused unreadable
      | again ↦ claim_attempts left (k + 1) digest now duration token read s
    ]

-- Whether a job may be leased, or is leased with a lease that has expired.
unfoldable pub is_available : List (Str × Str) → Time → List Job → Bool
is_available barriers now [] = false
is_available barriers now (j ∷ js) =
    (is_pending j.state && leb j.available_at now
        || is_leased j.state && is_expired j.lease_expires_at now)
      && not (is_barred barriers j.space_id j.receipt_id)
    || is_available barriers now js

abbrev pub claim_with_token :
    (Str → Str) → (ℕ → Time) → ℕ → (Job → Option WorkInput) → JobStore → Option Str → ClaimOutcome
claim_with_token digest now duration read s none = refused no_token
claim_with_token digest now duration read s (some token) =
    claim_attempts 4 1 digest now duration token read s

-- `ClaimStewardJob`
unfoldable pub claim_steward_job :
    (Str → Str) → (ℕ → Time) → ℤ → Option Str → (Job → Option WorkInput) → JobStore → ClaimOutcome
claim_steward_job digest now duration token read s =
    if not s.is_mutable
    then refused immutable_generation
    else if lt_bound duration min_steward_lease || gt_bound duration max_steward_lease
    then refused bad_lease_duration
    else if is_available s.barriers (now 0) s.jobs
    then claim_with_token digest now (to_nat duration) read s token
    else no_work s
