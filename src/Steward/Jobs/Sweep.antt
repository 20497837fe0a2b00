-- ===== src/Steward/Jobs/Sweep.antt =====
-- The updates of the tables that `claimStewardJob` of internal/appliance/steward_jobs.go makes before it selects a job.
use memory.Prelude.{
  Bool, true, false, ◌&&◌, ◌||◌, Option, none, some, List, [], ◌∷◌, map, leb, nat_eq, if◌then◌else◌,
}
use memory.Text.Bytes.{Str, str_eq, bytes, Str-eq}
use memory.Requests.{Time}
use memory.Reference.Types.{ProcessingState}
use memory.Steward.Jobs.{JobState, Job, Processing, JobStore, max_steward_attempts, is_leased}

abbrev pub is_pending : JobState → Bool
is_pending JobState.pending = true
is_pending _ = false

abbrev pub is_failed : JobState → Bool
is_failed JobState.failed = true
is_failed _ = false

-- `lease_expires_at <= now`, which is not so for NULL.
abbrev pub is_expired : Option Time → Time → Bool
is_expired none now = false
is_expired (some expiry) now = leb expiry now

unfoldable pub is_barred : List (Str × Str) → Str → Str → Bool
is_barred [] space receipt = false
is_barred ((s, r) ∷ rest) space receipt =
    str_eq s space && str_eq r receipt || is_barred rest space receipt

abbrev pub fail_row : Str → Time → Job → Job
fail_row code now job = record job {
  state = JobState.failed;
  lease_expires_at = none;
  lease_digest = [];
  terminal_error_code = code;
  updated_at = now;
}

-- The three updates of `steward_jobs` before a job is selected.
unfoldable pub exhaust : Time → Job → Job
exhaust now job =
    if leb max_steward_attempts job.attempts
      && (is_leased job.state && is_expired job.lease_expires_at now
          || is_pending job.state && leb job.available_at now)
    then fail_row (bytes "attempts_exhausted") now job
    else job

unfoldable pub forget : List (Str × Str) → Time → Job → Job
forget barriers now job =
    if (is_pending job.state || is_leased job.state)
      && is_barred barriers job.space_id job.receipt_id
    then fail_row (bytes "receipt_forgotten") now job
    else job

unfoldable pub reclaim : Time → Job → Job
reclaim now job =
    if is_leased job.state && is_expired job.lease_expires_at now
    then record job {
      state = JobState.pending;
      lease_expires_at = none;
      lease_digest = [];
      terminal_error_code = [];
      available_at = now;
      updated_at = now;
    }
    else job

-- `SELECT receipt_id FROM steward_jobs WHERE state = 'failed' AND terminal_error_code = ? AND updated_at = ?`
unfoldable pub failed_now : Str → Time → List Job → Str → Bool
failed_now code now [] receipt = false
failed_now code now (j ∷ js) receipt =
    str_eq j.receipt_id receipt
      && is_failed j.state
      && str_eq j.terminal_error_code code
      && nat_eq j.updated_at now
    || failed_now code now js receipt

unfoldable pub fail_processing : Str → Time → List Job → Processing → Processing
fail_processing code now jobs p =
    if failed_now code now jobs p.receipt_id
    then record p {
      state = ProcessingState.failed;
      last_attempt_at = some now;
      terminal_error_code = code;
    }
    else p

-- `SELECT receipt_id FROM steward_jobs WHERE state = 'pending'`
unfoldable pub has_pending : List Job → Str → Bool
has_pending [] receipt = false
has_pending (j ∷ js) receipt =
    str_eq j.receipt_id receipt && is_pending j.state || has_pending js receipt

unfoldable pub requeue : List Job → Processing → Processing
requeue jobs p =
    if has_pending jobs p.receipt_id
    then record p { state = ProcessingState.accepted; terminal_error_code = [] }
    else p

-- A job after the three updates.
unfoldable pub sweep_job : List (Str × Str) → Time → Job → Job
sweep_job barriers now job = reclaim now (forget barriers now (exhaust now job))

unfoldable pub sweep : Time → JobStore → JobStore
sweep now s =
    let failing = map (λ j. forget s.barriers now (exhaust now j)) s.jobs in
    let jobs = map (sweep_job s.barriers now) s.jobs in
    record s {
      jobs = jobs;
      processing =
          map
            (λ p. requeue jobs (
              fail_processing (bytes "attempts_exhausted") now failing
                (fail_processing (bytes "receipt_forgotten") now failing p)))
            s.processing;
    }
