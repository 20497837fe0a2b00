-- ===== src/Tests/Claims.antt =====
-- Two Steward jobs that wait, one with the receipt of another Space forgotten, and the claims that serve them.
use memory.Prelude.{
  ℕ, ◌+◌, ◌*◌, ◌≡◌, refl, true, false, Option, none, some, List, [], ◌∷◌, arith, inl, contains,
  length,
}
use memory.Text.Bytes.{Str, Str-eq, str_eq, str_lt, bytes}
use memory.Steward.Jobs.{Job, JobState, JobStore, find_job, update_processing}
use memory.Steward.Jobs.Claim.{
  is_claimable, precedes, select_job, lease_row, lease_job, count_targets, start_lease, claimed,
  claim_attempt,
}
use memory.Steward.Jobs.Sweep.{is_barred, exhaust, forget, reclaim, sweep_job, sweep}
use memory.Steward.Jobs.Request.{WorkInput, WorkRequest, StewardWork, fit_request, persist_read_set}
use memory.Steward.Jobs.Waiting.{is_waiting, count_waiting}
use memory.Steward.Jobs.Served.{IsServed}
use memory.Steward.Jobs.Liveness.{claims, claims_serve}
use memory.Steward.Jobs.Oldest.{Leased, claim_attempt-Leased}
use memory.Steward.Jobs.Fit.{FitOutcome, fit_request-FitOutcome}

abbrev waiting_job : Str → Str → Job
waiting_job id created = record {
  job_id = id;
  receipt_id = id;
  space_id = bytes "sp";
  created_at = created;
  state = JobState.pending;
  attempts = 0;
  available_at = 3;
  lease_expires_at = none;
  lease_digest = [];
  terminal_error_code = [];
  updated_at = 3;
}

abbrev two_jobs : JobStore
two_jobs = record {
  jobs =
      waiting_job (bytes "a") (bytes "2026-01-01T00:00:00Z")
      ∷ waiting_job (bytes "b") (bytes "2026-01-01T00:00:00.5Z")
      ∷ [];
  processing = [];
  read_set = [];
  barriers = [];
  is_mutable = true;
}

abbrev hashed : Str → Str
hashed s = s

abbrev small_request : WorkRequest
small_request = record { lexicon_candidates = bytes "term" ∷ []; records = [] }

-- The request fits once its candidate is dropped.
abbrev candidate_bytes : List Str → ℕ
candidate_bytes cs = 10 + 50 * length cs

abbrev read_input : Job → Option WorkInput
read_input job = some (record {
  max_input_bytes = 40;
  request = small_request;
  encoded_size = λ r. candidate_bytes r.lexicon_candidates;
})

two_wait : count_waiting [] 10 two_jobs.jobs ≡ 2
unfolding count_waiting is_waiting sweep_job exhaust forget reclaim is_claimable is_barred
two_wait = refl

found_a :
    find_job two_jobs.jobs (bytes "a")
    ≡ some (waiting_job (bytes "a") (bytes "2026-01-01T00:00:00Z"))
unfolding find_job str_eq
found_a = refl

a_waits : is_waiting [] 10 (waiting_job (bytes "a") (bytes "2026-01-01T00:00:00Z")) ≡ true
unfolding is_waiting sweep_job exhaust forget reclaim is_claimable is_barred
a_waits = refl

new_ids : contains (bytes "b" ∷ []) (bytes "a") ≡ false
unfolding contains str_eq
new_ids = refl

no_ids : contains {A = Str} [] (bytes "b") ≡ false
unfolding contains
no_ids = refl

claims_serve_example :
    (j' : Job) × (find_job
        (claims hashed 10 1000000000 read_input (bytes "x" ∷ bytes "y" ∷ []) two_jobs).jobs
        (bytes "a")
      ≡ some j')
    × IsServed 10 j'
claims_serve_example =
    claims_serve hashed 10 1000000000 read_input (bytes "x" ∷ bytes "y" ∷ []) two_jobs (bytes "a")
      (waiting_job (bytes "a") (bytes "2026-01-01T00:00:00Z")) (λ job. (_, refl)) (omega arith)
      (omega arith) refl (new_ids, (no_ids, tt)) (omega (arith, two_wait)) found_a (inl a_waits)

abbrev leased_store : JobStore
leased_store = record two_jobs {
  jobs =
      waiting_job (bytes "a") (bytes "2026-01-01T00:00:00Z")
      ∷ record (waiting_job (bytes "b") (bytes "2026-01-01T00:00:00.5Z")) {
        state = JobState.leased;
        attempts = 1;
        lease_expires_at = some 1000000010;
        lease_digest = bytes "x";
        updated_at = 10;
      }
      ∷ [];
}

abbrev leased_work : StewardWork
leased_work = record {
  job_id = bytes "b";
  token = bytes "x";
  attempt = 1;
  request = record { lexicon_candidates = []; records = [] };
}

-- The later of the two is leased, since its text comes first.
claimed_b :
    claim_attempt hashed 10 1000000000 (bytes "x") read_input two_jobs
    ≡ claimed leased_work leased_store
unfolding claim_attempt sweep sweep_job exhaust forget reclaim is_barred select_job is_claimable
    precedes str_lt str_eq count_targets start_lease lease_job lease_row update_processing
    fit_request persist_read_set
claimed_b = refl

claim_attempt-Leased_example :
    Leased hashed 10 1000000000 (bytes "x") read_input two_jobs leased_store leased_work
claim_attempt-Leased_example =
    claim_attempt-Leased hashed 10 1000000000 (bytes "x") read_input two_jobs leased_store
      leased_work claimed_b

abbrev small_input : WorkInput
small_input = record {
  max_input_bytes = 40;
  request = small_request;
  encoded_size = λ r. candidate_bytes r.lexicon_candidates;
}

fit_request-FitOutcome_example :
    FitOutcome small_input small_request (fit_request 2 small_input small_request)
fit_request-FitOutcome_example = fit_request-FitOutcome 2 small_input small_request (omega arith)
