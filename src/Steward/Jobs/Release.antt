-- ===== src/Steward/Jobs/Release.antt =====
-- What a report of a failure that is accepted does to the jobs.
use memory.Prelude.{
  ◌+◌, ◌-◌, ◌≤◌, ◌<◌, ◌≡◌, ◌≢◌, refl, sym, ap, ◌∙◌, subst, arith, true, false, not, ◌||◌, none,
  some, some-injective, [], ◌⊎◌, inl, inr, Bool-cases, leb,
}
use memory.Prelude.Int.{to_nat, lt_bound, gt_bound}
use memory.Prelude.Result.{ok, refuse, >>=-from-ok, refuse-eq-ok, ok-injective}
use memory.Text.Bytes.{Str, str_eq, str_eq_iff}
use memory.Requests.{Time}
use memory.Steward.Jobs.{
  JobState, Job, JobStore, FailRequest, max_steward_attempts, hour, immutable_generation,
  invalid_failure, bad_retry_delay, lease_lost, find_job, fail_job_tx, retry_job, is_leased,
  lease_live, require_job, valid_failure_code, fail_steward_job, steward_retry_delay, classify,
  report_steward_failure,
}
use memory.Steward.Jobs.Retry.{
  Released, backoff, steward_retry_delay-backoff, require_job-eq-ok, leased_lem, live_lem,
  find-fail, find-retry, find-update,
}

other_id : (a b : Str) → b ≢ a → str_eq a b ≡ false
other_id a b n = elim (Bool-cases (str_eq a b)) [
  | inl e ↦ absurd (n (sym ((str_eq_iff a b).0 e)))
  | inr e ↦ e
]

module _ (digest : Str → Str) (now : Time) (request : FailRequest) (s : JobStore) (job : Job)
    (held : find_job s.jobs request.lease.job_id ≡ some job)
    (was_leased : job.state ≡ JobState.leased)
    (own_lease : job.lease_digest ≡ digest request.lease.token)
    (live : (expiry : Time) × (job.lease_expires_at ≡ some expiry) × (now < expiry)) where
  ended-Released :
      (request.retryable ≡ false) ⊎ (max_steward_attempts ≤ job.attempts)
      → Released digest now request s
          (fail_job_tx request.lease.job_id job.receipt_id now request.code s)
  ended-Released why = record {
    job = job;
    held = held;
    was_leased = was_leased;
    own_lease = own_lease;
    expiry = live.0;
    lease = live.1;
    in_time = live.2;
    after = record job {
      state = JobState.failed;
      lease_expires_at = none;
      lease_digest = [];
      terminal_error_code = request.code;
      updated_at = now;
    };
    released = find-fail now 0 request.code request.lease.job_id job.receipt_id s job held;
    lease_gone = refl;
    token_gone = refl;
    same_attempts = refl;
    retried = λ again few. absurd (neither why again few);
    ended = λ _. (refl, refl);
    others =
        λ id n. unfold fail_job_tx in rw (find-update, other_id request.lease.job_id id n) refl;
  }
    where
      neither :
          (request.retryable ≡ false) ⊎ (max_steward_attempts ≤ job.attempts)
          → request.retryable ≡ true
          → job.attempts < max_steward_attempts
          → ⊥
      neither why again few = ground arith

  retried-Released :
      request.retryable ≡ true
      → job.attempts < max_steward_attempts
      → Released digest now request s
          (retry_job request.lease.job_id job.receipt_id now (backoff (job.attempts - 1)) s)
  retried-Released again few = record {
    job = job;
    held = held;
    was_leased = was_leased;
    own_lease = own_lease;
    expiry = live.0;
    lease = live.1;
    in_time = live.2;
    after = record job {
      state = JobState.pending;
      available_at = now + backoff (job.attempts - 1);
      lease_expires_at = none;
      lease_digest = [];
      terminal_error_code = [];
      updated_at = now;
    };
    released =
        find-retry now (backoff (job.attempts - 1)) [] request.lease.job_id job.receipt_id s job
          held;
    lease_gone = refl;
    token_gone = refl;
    same_attempts = refl;
    retried = λ _ _.
        let d = steward_retry_delay-backoff job.attempts in
        (refl, omega (arith, d.1), omega (arith, d.2));
    ended = λ why. absurd (neither why);
    others = λ id n. unfold retry_job in rw (find-update, other_id request.lease.job_id id n) refl;
  }
    where
      neither : (request.retryable ≡ false) ⊎ (max_steward_attempts ≤ job.attempts) → ⊥
      neither why = ground arith

-- A report of a failure that is accepted found a leased job with the lease of the report, which
-- had not expired. Afterwards the job has no lease and the same number of attempts: if the
-- failure may be retried and the job had fewer than five attempts, it is pending again and
-- available between one second and one hour later; otherwise it has failed with the reported
-- code. The other jobs are as they were.
pub report_steward_failure-Released :
    (digest : Str → Str) (now : Time) (request : FailRequest) (s t : JobStore)
    → report_steward_failure digest now request s ≡ ok t
    → Released digest now request s t
unfolding report_steward_failure fail_steward_job classify
report_steward_failure-Released digest now request s t h =
    >>=-from-ok (refuse (not s.is_mutable) immutable_generation) _ h λ _ _ h1.
      >>=-from-ok
        (refuse
          (str_eq request.lease.job_id []
            || str_eq request.lease.token []
            || not (valid_failure_code request.code))
          invalid_failure)
        _ h1
        λ _ _ h2.
          >>=-from-ok (require_job (find_job s.jobs request.lease.job_id)) _ h2 λ first found h3.
            let failure = classify first.attempts request in
            >>=-from-ok (refuse (not s.is_mutable) immutable_generation) _ h3 λ _ _ h4.
              >>=-from-ok
                (refuse
                  (str_eq request.lease.job_id []
                    || str_eq request.lease.token []
                    || not (valid_failure_code failure.code))
                  invalid_failure)
                _ h4
                λ _ _ h5.
                  >>=-from-ok
                    (refuse (lt_bound failure.retry_after 0 || gt_bound failure.retry_after hour)
                      bad_retry_delay)
                    _ h5
                    λ _ _ h6.
                      >>=-from-ok (require_job (find_job s.jobs request.lease.job_id)) _ h6
                        λ job again h7.
                          >>=-from-ok
                            (refuse
                              (not (is_leased job.state)
                                || not (str_eq job.lease_digest (digest request.lease.token)))
                              lease_lost)
                            _ h7
                            λ _ mine h8.
                              >>=-from-ok
                                (refuse (not (lease_live job.lease_expires_at now)) lease_lost) _ h8
                                λ _ live h9.
                                  let held =
                                    require_job-eq-ok (find_job s.jobs request.lease.job_id) job
                                      again in
                                  let same : first ≡ job = some-injective (
                                    sym (
                                      require_job-eq-ok (find_job s.jobs request.lease.job_id) first
                                        found)
                                    ∙ held) in
                                  let leased = leased_lem job.state (ground (arith, mine)) in
                                  let own : job.lease_digest ≡ digest request.lease.token =
                                    (str_eq_iff job.lease_digest (digest request.lease.token)).0
                                      (ground (arith, mine)) in
                                  let alive = live_lem job.lease_expires_at now (
                                    refuse-eq-ok (not (lease_live job.lease_expires_at now))
                                      lease_lost live) in
                                  let count : first.attempts ≡ job.attempts =
                                    ap (λ j. j.attempts) same in
                                  elim (Bool-cases (
                                    not request.retryable
                                    || leb max_steward_attempts first.attempts)) [
                                      | inl e ↦
                                          subst (Released digest now request s)
                                            (rw e at (ok-injective h9))
                                            (ended-Released digest now request s job held leased own
                                              alive (ground (arith, e, count)))
                                      | inr e ↦
                                          subst (Released digest now request s)
                                            (ap
                                                (λ d.
                                                  retry_job request.lease.job_id job.receipt_id now
                                                    (to_nat d) s)
                                                (sym (steward_retry_delay-backoff job.attempts).0)
                                              ∙ ap
                                                  (λ n.
                                                    retry_job request.lease.job_id job.receipt_id
                                                      now (to_nat (steward_retry_delay n)) s)
                                                  (sym count)
                                              ∙ (rw e at (ok-injective h9)))
                                            (retried-Released digest now request s job held leased
                                              own alive (ground (arith, e))
                                              (ground (arith, e, count)))
                                    ]
