-- ===== src/Steward/Jobs/Oldest.antt =====
-- The order in which `claimStewardJob` serves the jobs that wait.
use memory.Prelude.{
  ℕ, ◌+◌, ◌≤◌, ◌≡◌, refl, subst, true, false, Option, none, some, List, [], ◌∷◌, inl, inr, map,
  nat_eq, arith, length, Bool-cases, Option-cases, All, All-map, some-injective,
}
use memory.Text.Bytes.{Str, Str-eq, str_eq_iff, str_lt_irrefl, str_lt_trans, str_lt_total}
use memory.Requests.{Time}
use memory.Steward.Jobs.{Job, JobStore, max_steward_attempts}
use memory.Steward.Jobs.Claim.{
  is_claimable, precedes, first_of, select_job, count_targets, start_lease, lease_job, claimed,
  claim_attempt, claim_fitted,
}
use memory.Steward.Jobs.Sweep.{sweep_job, sweep}
use memory.Steward.Jobs.Request.{WorkInput, WorkRequest, StewardWork, fit_request}
use memory.Steward.Jobs.Fit.{Fitted, FitOutcome, fit_request-FitOutcome}

-- By the texts of the times of creation, and then by the identifiers.
precedes_asym : (a b : Job) → precedes a b ≡ true → precedes b a ≡ false
unfolding precedes
precedes_asym a b h = ground (
  arith,
  h,
  str_lt_trans a.created_at b.created_at a.created_at,
  str_lt_irrefl a.created_at,
  str_lt_trans a.job_id b.job_id a.job_id,
  str_lt_irrefl a.job_id,
  str_eq_iff a.created_at b.created_at,
  str_eq_iff b.created_at a.created_at,
)

precedes_irrefl : (a : Job) → precedes a a ≡ false
precedes_irrefl a = elim (Bool-cases (precedes a a)) [ inl e ↦ precedes_asym a a e | inr e ↦ e ]

not_precedes_trans :
    (a b c : Job) → precedes a b ≡ false → precedes b c ≡ false → precedes a c ≡ false
unfolding precedes
not_precedes_trans a b c h k = ground (
  arith,
  h,
  k,
  str_lt_trans b.created_at a.created_at c.created_at,
  str_lt_trans a.created_at c.created_at b.created_at,
  str_lt_total a.created_at b.created_at,
  str_lt_total b.created_at c.created_at,
  str_lt_trans b.job_id a.job_id c.job_id,
  str_lt_total a.job_id b.job_id,
  str_lt_total b.job_id c.job_id,
  str_eq_iff a.created_at b.created_at,
  str_eq_iff b.created_at c.created_at,
  str_eq_iff a.created_at c.created_at,
  str_lt_irrefl a.created_at,
  str_lt_irrefl a.job_id,
)

module _ (barriers : List (Str × Str)) (now : Time) where
  abbrev NoneBefore : Job → List Job → Type 0
  NoneBefore k xs = All (λ i. is_claimable barriers now i ≡ true → precedes i k ≡ false) xs

  none_claimable :
      (xs : List Job)
      → select_job barriers now xs ≡ none
      → All (λ i. is_claimable barriers now i ≡ false) xs
  unfolding select_job
  none_claimable [] h = tt
  none_claimable (x ∷ xs) h = elim (Bool-cases (is_claimable barriers now x)) [
    | inr e ↦ (e, none_claimable xs (rw e at h))
    | inl e ↦ absurd (some_first x (select_job barriers now xs) (rw e at h))
  ]
    where
      some_first : (x : Job) (o : Option Job) → first_of x o ≡ none → ⊥
      some_first x none h = cc (h)
      some_first x (some y) h = elim (Bool-cases (precedes y x)) [
        | inl e ↦ cc (rw e at h)
        | inr e ↦ cc (rw e at h)
      ]

  select_first :
      (xs : List Job) (k : Job)
      → select_job barriers now xs ≡ some k
      → (is_claimable barriers now k ≡ true) × NoneBefore k xs
  unfolding select_job
  select_first [] k h = absurd (cc (h))
  select_first (x ∷ xs) k h = elim (Bool-cases (is_claimable barriers now x)) [
    | inr e ↦
        let (c, first) = select_first xs k (rw e at h) in (c, (λ d. absurd (cc (e, d)), first))
    | inl e ↦ elim (Option-cases (select_job barriers now xs)) [
      | inl alone ↦
          subst (λ y. (is_claimable barriers now y ≡ true) × NoneBefore y (x ∷ xs))
            (some-injective (rw alone at (rw e at h)))
            (
              e,
              (
                λ _. precedes_irrefl x,
                All-map (λ i f c. absurd (cc (c, f))) xs (none_claimable xs alone),
              ),
            )
      | inr (y, later) ↦ chosen y later (rw later at (rw e at h)) e (select_first xs y later)
    ]
  ]
    where
      chosen :
          (y : Job)
          → select_job barriers now xs ≡ some y
          → first_of x (some y) ≡ some k
          → is_claimable barriers now x ≡ true
          → (is_claimable barriers now y ≡ true) × NoneBefore y xs
          → (is_claimable barriers now k ≡ true) × NoneBefore k (x ∷ xs)
      chosen y later h e (c, first) = elim (Bool-cases (precedes y x)) [
        | inl b ↦
            subst (λ z. (is_claimable barriers now z ≡ true) × NoneBefore z (x ∷ xs))
              (some-injective (rw b at h)) (c, (λ _. precedes_asym y x b, first))
        | inr b ↦
            subst (λ z. (is_claimable barriers now z ≡ true) × NoneBefore z (x ∷ xs))
              (some-injective (rw b at h))
              (
                e,
                (
                  λ _. precedes_irrefl x,
                  All-map (λ i f d. not_precedes_trans i y x (f d) b) xs first,
                ),
              )
      ]

-- A lease: the job waited, and no other job that waits comes before it; its request has the size that its profile
-- allows; it counts one attempt more, at most five; and its row holds the lease.
pub record Leased (digest : Str → Str) (now : Time) (duration : ℕ) (token : Str)
    (read : Job → Option WorkInput) (s t : JobStore) (w : StewardWork) : Type 0 where
  pub job : Job
  pub same_job : w.job_id ≡ job.job_id
  pub claimable : is_claimable s.barriers now job ≡ true
  pub first :
      All
        (λ i. is_claimable s.barriers now i ≡ true → precedes i job ≡ false)
        (map (sweep_job s.barriers now) s.jobs)
  pub same_token : w.token ≡ token
  pub attempt : w.attempt ≡ job.attempts + 1
  pub within : w.attempt ≤ max_steward_attempts
  pub input : WorkInput
  pub was_read : read job ≡ some input
  pub fitted : Fitted input input.request w.request
  pub rows :
      t.jobs
      ≡ lease_job job.job_id now duration (digest token) (map (sweep_job s.barriers now) s.jobs)

claimed-injective :
    {a b : StewardWork} {x y : JobStore}
    → claimed a x ≡ claimed b y
    → ◌≡◌ {A = StewardWork × JobStore} (a, x) (b, y)
claimed-injective h = ground (arith, h)

module _ (digest : Str → Str) (now : Time) (duration : ℕ) (token : Str)
    (read : Job → Option WorkInput) (s t : JobStore) (w : StewardWork) where
  -- An attempt that leases a job leases one that may be claimed after the expired and forgotten
  -- jobs are swept, and that no other such job precedes in the order of the texts of `created_at`
  -- and then of identifiers. The lease has the token of the caller and one attempt more, at most
  -- five; its request is that which was read, with candidates and records cut from its end, in
  -- the size that the profile allows; and the rows of the jobs are the swept ones with the lease
  -- in that job.
  pub claim_attempt-Leased :
      claim_attempt digest now duration token read s ≡ claimed w t
      → Leased digest now duration token read s t w
  unfolding claim_attempt sweep start_lease
  claim_attempt-Leased h =
      elim (Option-cases (select_job s.barriers now (map (sweep_job s.barriers now) s.jobs))) [
        | inl missing ↦ absurd (cc (rw missing at h))
        | inr (k, selected) ↦
            let (can, first) =
              select_first s.barriers now (map (sweep_job s.barriers now) s.jobs) k selected in
            elim (Bool-cases
              (nat_eq (count_targets k.job_id now (map (sweep_job s.barriers now) s.jobs)) 1)) [
                | inr other ↦ absurd (cc (rw other at (rw selected at h)))
                | inl one ↦ elim (Option-cases (read k)) [
                  | inl unread_ ↦ absurd (cc (rw unread_ at (rw one at (rw selected at h))))
                  | inr (input, was_read) ↦
                      finish k can first input was_read (fit_request _ input input.request)
                        (fit_request-FitOutcome
                          (length input.request.lexicon_candidates
                            + length input.request.records
                            + 1)
                          input input.request (omega arith))
                        (rw was_read at (rw one at (rw selected at h)))
                ]
              ]
      ]
    where
      few : (k : Job) → is_claimable s.barriers now k ≡ true → k.attempts + 1 ≤ max_steward_attempts
      few k can = unfold is_claimable in ground (arith, can)

      finish :
          (k : Job)
          → is_claimable s.barriers now k ≡ true
          → All
              (λ i. is_claimable s.barriers now i ≡ true → precedes i k ≡ false)
              (map (sweep_job s.barriers now) s.jobs)
          → (input : WorkInput) → read k ≡ some input
          → (o : Option WorkRequest) → FitOutcome input input.request o
          → claim_fitted k token now (start_lease k now duration (digest token) (sweep now s)) o
            ≡ claimed w t
          → Leased digest now duration token read s t w
      finish k can first input was_read none outcome h = absurd (cc (h))
      finish k can first input was_read (some fit) outcome h =
          let same = claimed-injective h in
          subst (λ (p : StewardWork × JobStore). Leased digest now duration token read s p.1 p.0)
            same
            (record {
              job = k;
              same_job = refl;
              claimable = can;
              first = first;
              same_token = refl;
              attempt = refl;
              within = few k can;
              input = input;
              was_read = was_read;
              fitted = outcome;
              rows = refl;
            })
