-- ===== src/Steward/Jobs/Retry.antt =====
-- What a report of a failure does to the jobs.
use mathlib.Core.Option
use native.Mathlib.Nat.{pow-le-pow_right}
use memory.Prelude.{
  ℕ, ◌+◌, ◌-◌, ◌*◌, ◌^◌, ◌≤◌, ◌<◌, zero, suc, ◌%◌, ◌≡◌, ◌≢◌, refl, sym, ap, ◌∙◌, arith, Bool, true,
  false, not, Option, none, some, ◌⊎◌, List, [], ◌∷◌, inl, inr, Bool-cases, ltb, if◌then◌else◌,
}
use memory.Prelude.Int.{pos, int64, gt_bound}
use memory.Prelude.Result.{ok}
use memory.Text.Bytes.{Str, str_eq, str_eq_iff}
use memory.Requests.{Time}
use memory.Steward.Jobs.{
  JobState, Job, JobStore, FailRequest, max_steward_attempts, steward_retry_base, hour, find_job,
  update_job, fail_job_tx, retry_job, is_leased, lease_live, require_job, steward_retry_delay,
}

-- The delay after an attempt and `n` more: one second, doubled at each, up to 2048 seconds.
abbrev pub backoff : ℕ → ℕ
backoff zero = steward_retry_base
backoff (suc n) =
    let doubled = 2 * backoff n in
    if ltb (2048 * steward_retry_base) doubled then 2048 * steward_retry_base else doubled

shift_of : ℕ → ℕ
shift_of n = if ltb 11 n then 11 else n

ltb_lem : (a b : ℕ) → a < b → ltb a b ≡ true
ltb_lem a b h = ground arith

ltb-false : (a b : ℕ) → b ≤ a → ltb a b ≡ false
ltb-false a b h = ground arith

pow_bound : (k : ℕ) → k ≤ 11 → 2 ^ k ≤ 2 ^ 11
pow_bound k h = pow-le-pow_right {n = 2} (omega arith) h

pow_pos : (k : ℕ) → 1 ≤ 2 ^ k
pow_pos k = pow-le-pow_right {n = 2} (omega arith) {i = 0} {j = k} (omega arith)

backoff_small : (n : ℕ) → n ≤ 11 → backoff n ≡ steward_retry_base * 2 ^ n
backoff_small zero h = refl
backoff_small (suc n) h =
    rw
      (
        backoff_small n (omega arith),
        ltb-false (2048 * steward_retry_base) (2 * (steward_retry_base * 2 ^ n))
            (omega (arith, pow_bound (suc n) h)),
      )
      (omega arith)

eleven : (n : ℕ) → 11 ≤ suc n → ltb 11 (suc n) ≡ false → suc n ≡ 11
eleven n h e = ground arith

backoff_large : (n : ℕ) → 11 ≤ n → backoff n ≡ steward_retry_base * 2 ^ 11
backoff_large zero h = absurd (omega arith)
backoff_large (suc n) h = elim (Bool-cases (ltb 11 (suc n))) [
  | inr e ↦
      backoff_small (suc n) (ground arith) ∙ ap (λ k. steward_retry_base * 2 ^ k) (eleven n h e)
  | inl e ↦ rw (backoff_large n (ground arith)) refl
]

backoff-shift_of : (n : ℕ) → backoff n ≡ steward_retry_base * 2 ^ shift_of n
unfolding shift_of
backoff-shift_of n = elim (Bool-cases (ltb 11 n)) [
  | inl e ↦ rw e (backoff_large n (ground (arith, e)))
  | inr e ↦ rw e (backoff_small n (ground (arith, e)))
]

shift_of_le : (n : ℕ) → shift_of n ≤ 11
unfolding shift_of
shift_of_le n = ground arith

int64_small : (n : ℕ) → n < 2 ^ 63 → int64 n ≡ pos n
unfolding int64
int64_small n h = rw (small, ltb_lem n (2 ^ 63) h) refl
  where
    small : n % 2 ^ 64 ≡ n
    small = omega (arith, h)

delay_small :
    (k : ℕ)
    → k ≤ 11
    → int64 (steward_retry_base * (2 ^ k % 2 ^ 64)) ≡ pos (steward_retry_base * 2 ^ k)
delay_small k h = rw small (int64_small (steward_retry_base * 2 ^ k) (omega (arith, pow_bound k h)))
  where
    small : 2 ^ k % 2 ^ 64 ≡ 2 ^ k
    small = omega (arith, pow_bound k h)

shift_of_mono : (i j : ℕ) → i ≤ j → shift_of i ≤ shift_of j
unfolding shift_of
shift_of_mono i j h = ground arith

backoff_le : (n : ℕ) → backoff n ≤ hour
backoff_le n = rw (backoff-shift_of n) (omega (arith, pow_bound (shift_of n) (shift_of_le n)))

capped : (d : ℕ) → d ≤ hour → (if gt_bound (pos d) hour then pos hour else pos d) ≡ pos d
capped d h = ground arith

retry_delay-shift_of :
    (n : ℕ)
    → steward_retry_delay n ≡ (
        if gt_bound (int64 (steward_retry_base * (2 ^ shift_of (n - 1) % 2 ^ 64))) hour
        then pos hour
        else int64 (steward_retry_base * (2 ^ shift_of (n - 1) % 2 ^ 64)))
unfolding steward_retry_delay shift_of
retry_delay-shift_of n = refl

-- The retry delay, computed in 64-bit integers, is one second after the first attempt or none,
-- doubles with each further attempt up to 2048 seconds, and stays there; it lies between one
-- second and one hour, and it does not fall as the attempts grow.
pub steward_retry_delay-backoff :
    (n : ℕ)
    → (steward_retry_delay n ≡ pos (backoff (n - 1)))
      × (steward_retry_base ≤ backoff (n - 1))
      × (backoff (n - 1) ≤ hour)
      × (backoff (n - 1) ≤ backoff n)
steward_retry_delay-backoff n = (
  rw
      (
        retry_delay-shift_of n,
        delay_small (shift_of (n - 1)) (shift_of_le (n - 1)),
        ← backoff-shift_of (n - 1),
      )
      (capped (backoff (n - 1)) (backoff_le (n - 1))),
  rw (backoff-shift_of (n - 1)) (omega (arith, pow_pos (shift_of (n - 1)))),
  backoff_le (n - 1),
  rw (backoff-shift_of (n - 1), backoff-shift_of n)
      (omega
        (arith, pow-le-pow_right {n = 2} (omega arith) (shift_of_mono (n - 1) n (omega arith)))),
)

pub find-update :
    (f : Job → Job) (id other : Str) (js : List Job)
    → ((j : Job) → (f j).job_id ≡ j.job_id)
    → find_job (update_job f id js) other
      ≡ (if str_eq id other then Option.map f (find_job js other) else find_job js other)
unfolding find_job update_job
find-update f id other [] keep = none_lem (str_eq id other)
  where
    none_lem : (b : Bool) → none ≡ (if b then Option.map f none else none)
    none_lem true = refl
    none_lem false = refl
find-update f id other (j ∷ js) keep =
    let rest = find-update f id other js keep in
    let kept : str_eq (f j).job_id other ≡ str_eq j.job_id other =
      ap (λ i. str_eq i other) (keep j) in
    elim (Bool-cases (str_eq j.job_id id)) [
      | inl here ↦ elim (Bool-cases (str_eq j.job_id other)) [
        | inl found ↦
            rw
              (
                here,
                hit found,
                kept ∙ found,
                same id other
                    (sym ((str_eq_iff j.job_id id).0 here) ∙ (str_eq_iff j.job_id other).0 found),
              )
              refl
        | inr missed ↦ rw (here, miss missed, kept ∙ missed) rest
      ]
      | inr there ↦ elim (Bool-cases (str_eq j.job_id other)) [
        | inl found ↦
            rw
              (
                there,
                hit found,
                found,
                differ id other (λ e.
                    clash _
                      ((str_eq_iff j.job_id id).1 ((str_eq_iff j.job_id other).0 found ∙ sym e))
                      there),
              )
              refl
        | inr missed ↦ rw (there, miss missed, missed) rest
      ]
    ]
  where
    hit : str_eq j.job_id other ≡ true → find_job (j ∷ js) other ≡ some j
    hit e = rw e refl

    miss : str_eq j.job_id other ≡ false → find_job (j ∷ js) other ≡ find_job js other
    miss e = rw e refl

    clash : (b : Bool) → b ≡ true → b ≡ false → ⊥
    clash b h k = cc (h, k)

    same : (a b : Str) → a ≡ b → str_eq a b ≡ true
    same a b e = (str_eq_iff a b).1 e

    differ : (a b : Str) → (a ≡ b → ⊥) → str_eq a b ≡ false
    differ a b n = ground (arith, str_eq_iff a b)

-- What became of the job of a report that is accepted, and of the others.
pub record Released (digest : Str → Str) (now : Time) (request : FailRequest) (s t : JobStore)
    : Type 0 where
  pub job : Job
  pub held : find_job s.jobs request.lease.job_id ≡ some job
  pub was_leased : job.state ≡ JobState.leased
  pub own_lease : job.lease_digest ≡ digest request.lease.token
  pub expiry : Time
  pub lease : job.lease_expires_at ≡ some expiry
  pub in_time : now < expiry
  pub after : Job
  pub released : find_job t.jobs request.lease.job_id ≡ some after
  pub lease_gone : after.lease_expires_at ≡ none
  pub token_gone : after.lease_digest ≡ []
  pub same_attempts : after.attempts ≡ job.attempts
  pub retried :
      request.retryable ≡ true
      → job.attempts < max_steward_attempts
      → (after.state ≡ JobState.pending)
        × (now + steward_retry_base ≤ after.available_at)
        × (after.available_at ≤ now + hour)
  pub ended :
      (request.retryable ≡ false) ⊎ (max_steward_attempts ≤ job.attempts)
      → (after.state ≡ JobState.failed) × (after.terminal_error_code ≡ request.code)
  pub others : (id : Str) → id ≢ request.lease.job_id → find_job t.jobs id ≡ find_job s.jobs id

pub require_job-eq-ok : (o : Option Job) (job : Job) → require_job o ≡ ok job → o ≡ some job
require_job-eq-ok none job h = absurd (cc)
require_job-eq-ok (some j) job h = ground arith

pub leased_lem : (state : JobState) → not (is_leased state) ≡ false → state ≡ JobState.leased
leased_lem state h = ground arith

pub live_lem :
    (o : Option Time) (now : Time)
    → not (lease_live o now) ≡ false
    → (expiry : Time) × (o ≡ some expiry) × (now < expiry)
live_lem none now h = absurd (cc (h))
live_lem (some expiry) now h = (expiry, refl, ground arith)

module _ (now delay : Time) (code job_id receipt_id : Str) (s : JobStore) (job : Job)
    (held : find_job s.jobs job_id ≡ some job) where
  same_id : str_eq job_id job_id ≡ true
  same_id = (str_eq_iff job_id job_id).1 refl

  pub find-fail :
      find_job (fail_job_tx job_id receipt_id now code s).jobs job_id
      ≡ some (record job {
        state = JobState.failed;
        lease_expires_at = none;
        lease_digest = [];
        terminal_error_code = code;
        updated_at = now;
      })
  unfolding fail_job_tx
  find-fail = rw (find-update, same_id, held) refl

  pub find-retry :
      find_job (retry_job job_id receipt_id now delay s).jobs job_id
      ≡ some (record job {
        state = JobState.pending;
        available_at = now + delay;
        lease_expires_at = none;
        lease_digest = [];
        terminal_error_code = [];
        updated_at = now;
      })
  unfolding retry_job
  find-retry = rw (find-update, same_id, held) refl
