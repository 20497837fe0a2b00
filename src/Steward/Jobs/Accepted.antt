-- ===== src/Steward/Jobs/Accepted.antt =====
-- A report of a failure under a live lease is accepted.
use memory.Prelude.{
  ℕ, ◌-◌, ◌≤◌, ◌<◌, ◌≡◌, ◌≢◌, refl, arith, Bool, true, false, not, ◌||◌, some, [], leb,
  if◌then◌else◌,
}
use memory.Prelude.Int.{to_nat, lt_bound, gt_bound, pos}
use memory.Prelude.Result.{ok, refuse}
use memory.Text.Bytes.{Str, str_eq, str_eq_iff}
use memory.Requests.{Time}
use memory.Steward.Jobs.{
  JobState, Job, JobStore, FailRequest, max_steward_attempts, hour, bad_retry_delay, find_job,
  is_leased, lease_live, valid_failure_code, fail_job_tx, retry_job, fail_steward_job, classify,
  report_steward_failure,
}
use memory.Steward.Jobs.Retry.{backoff, steward_retry_delay-backoff}

delay_lem :
    (attempts : ℕ) (request : FailRequest)
    → refuse
        (lt_bound (classify attempts request).retry_after 0
          || gt_bound (classify attempts request).retry_after hour)
        bad_retry_delay
      ≡ ok tt
unfolding classify
delay_lem attempts request =
    let d = steward_retry_delay-backoff attempts in
    rw (d.0) (go (not request.retryable || leb max_steward_attempts attempts) (d.2))
  where
    go :
        (b : Bool)
        → backoff (attempts - 1) ≤ hour
        → refuse
            (lt_bound (if b then pos 0 else pos (backoff (attempts - 1))) 0
              || gt_bound (if b then pos 0 else pos (backoff (attempts - 1))) hour)
            bad_retry_delay
          ≡ ok tt
    go true h = refl
    go false h = ground arith

lease_lem :
    (digest : Str → Str) (request : FailRequest) (job : Job) (now expiry : Time)
    → job.state ≡ JobState.leased
    → job.lease_digest ≡ digest request.lease.token
    → job.lease_expires_at ≡ some expiry
    → now < expiry
    → (not (is_leased job.state) || not (str_eq job.lease_digest (digest request.lease.token))
        ≡ false)
      × (not (lease_live job.lease_expires_at now) ≡ false)
lease_lem digest request job now expiry leased own lease live = (
  ground (arith, leased, (str_eq_iff job.lease_digest (digest request.lease.token)).1 own),
  ground (arith, lease),
)

-- While the generation may be written, a report with a job, a token and a valid code is accepted
-- if the job is leased under that token and the lease has not expired.
pub report_steward_failure-accepts :
    (digest : Str → Str) (now : Time) (request : FailRequest) (s : JobStore) (job : Job)
    (expiry : Time)
    → s.is_mutable ≡ true
    → request.lease.job_id ≢ []
    → request.lease.token ≢ []
    → valid_failure_code request.code ≡ true
    → find_job s.jobs request.lease.job_id ≡ some job
    → job.state ≡ JobState.leased
    → job.lease_digest ≡ digest request.lease.token
    → job.lease_expires_at ≡ some expiry
    → now < expiry
    → (t : JobStore) × (report_steward_failure digest now request s ≡ ok t)
unfolding report_steward_failure fail_steward_job classify
report_steward_failure-accepts digest now request s job expiry open_now has_id has_token code held
      leased own lease live =
    let l = lease_lem digest request job now expiry leased own lease live in
    let failure = classify job.attempts request in
    (
      if failure.terminal
          then fail_job_tx request.lease.job_id job.receipt_id now failure.code s
          else retry_job request.lease.job_id job.receipt_id now (to_nat failure.retry_after) s,
      rw (open_now, no_id, no_token, code, held, delay_lem job.attempts request, l.0, l.1) refl,
    )
  where
    no_id : str_eq request.lease.job_id [] ≡ false
    no_id = ground (arith, str_eq_iff request.lease.job_id [], has_id)

    no_token : str_eq request.lease.token [] ≡ false
    no_token = ground (arith, str_eq_iff request.lease.token [], has_token)
