-- ===== src/Steward/Jobs/Progress.antt =====
-- One call of `ClaimStewardJob`, by what it does to the jobs that wait or are served.
use memory.Prelude.{ℕ, ◌+◌, ◌<◌, ◌≡◌, refl, sym, ap, ◌∙◌, subst, some, List, map, arith, Distinct}
use memory.Text.Bytes.{Str, Str-eq}
use memory.Requests.{Time}
use memory.Steward.Jobs.{Job, JobStore, fail_job_tx, ReadSetRow, find_job}
use memory.Steward.Jobs.Claim.{select_job, lease_job, count_targets, start_lease}
use memory.Steward.Jobs.Sweep.{sweep_job, sweep}
use memory.Steward.Jobs.Waiting.{count_waiting, lease-count, fail-count, failed_gone}
use memory.Steward.Jobs.Served.{
  ids, select_target, unique_target, IsTracked, IsTracked-lease, IsTracked-fail, ids-sweep,
  ids-lease, ids-update,
}

-- What a claim does while a job waits: one job less waits, and the jobs that waited or were served still do or are.
pub record Progress (now : Time) (s t : JobStore) : Type 0 where
  pub fewer : count_waiting s.barriers now t.jobs + 1 ≡ count_waiting s.barriers now s.jobs
  pub same_ids : ids t.jobs ≡ ids s.jobs
  pub same_barriers : t.barriers ≡ s.barriers
  pub same_mode : t.is_mutable ≡ s.is_mutable
  pub tracked :
      (id : Str) (j : Job)
      → find_job s.jobs id ≡ some j
      → IsTracked s.barriers now j
      → (j' : Job) × (find_job t.jobs id ≡ some j') × IsTracked s.barriers now j'

module _ (now : Time) (duration : ℕ) (digest : Str) (s : JobStore) (k : Job)
    (positive : 0 < duration) (distinct : Distinct (ids s.jobs))
    (selected : select_job s.barriers now (map (sweep_job s.barriers now) s.jobs) ≡ some k) where
  abbrev leased_store : JobStore
  leased_store = start_lease k now duration digest (sweep now s)

  pub one_target : count_targets k.job_id now (map (sweep_job s.barriers now) s.jobs) ≡ 1
  one_target = omega (
    arith,
    select_target s.barriers now (map (sweep_job s.barriers now) s.jobs) k selected,
    unique_target s.barriers now k.job_id (map (sweep_job s.barriers now) s.jobs)
        (subst Distinct (sym (ids-sweep s.barriers now s.jobs)) distinct),
  )

  leased_fewer :
      count_waiting s.barriers now
          (lease_job k.job_id now duration digest (map (sweep_job s.barriers now) s.jobs))
        + 1
      ≡ count_waiting s.barriers now s.jobs
  leased_fewer =
      omega (arith, one_target, lease-count s.barriers now k.job_id duration digest s.jobs positive)

  pub leased-Progress :
      (rows : List ReadSetRow) → Progress now s (record leased_store { read_set = rows })
  unfolding start_lease sweep
  leased-Progress rows = record {
    fewer = leased_fewer;
    same_ids =
        ids-lease k.job_id now duration digest (map (sweep_job s.barriers now) s.jobs)
        ∙ ids-sweep s.barriers now s.jobs;
    same_barriers = refl;
    same_mode = refl;
    tracked = λ id j has t.
        IsTracked-lease s.barriers now k.job_id duration digest id s.jobs j positive has t;
  }

  pub failed-Progress :
      (code : Str) → Progress now s (fail_job_tx k.job_id k.receipt_id now code leased_store)
  unfolding start_lease sweep fail_job_tx
  failed-Progress code = record {
    fewer =
        ap (λ n. n + 1)
          (fail-count s.barriers now _ k.job_id duration digest s.jobs positive
            (λ j. failed_gone s.barriers now code now j))
        ∙ leased_fewer;
    same_ids =
        ids-update _ k.job_id
          (lease_job k.job_id now duration digest (map (sweep_job s.barriers now) s.jobs))
          (λ j. refl)
        ∙ ids-lease k.job_id now duration digest (map (sweep_job s.barriers now) s.jobs)
        ∙ ids-sweep s.barriers now s.jobs;
    same_barriers = refl;
    same_mode = refl;
    tracked = λ id j has t.
        let (j', has', t') =
          IsTracked-lease s.barriers now k.job_id duration digest id s.jobs j positive has t in
        IsTracked-fail s.barriers now _ k.job_id id
          (lease_job k.job_id now duration digest (map (sweep_job s.barriers now) s.jobs)) j'
          (λ y. (refl, refl)) has' t';
  }
