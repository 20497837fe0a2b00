-- ===== src/Steward/Jobs/Served.antt =====
-- What the updates of a claim do to the jobs that wait or are served.
use memory.Prelude.{
  ℕ, ◌+◌, ◌≤◌, ◌<◌, ◌≡◌, refl, sym, ap, ◌∙◌, subst, Bool, true, false, Option, none, some, List, [],
  ◌∷◌, ◌⊎◌, inl, inr, map, if◌then◌else◌, arith, Bool-cases, contains, Distinct, some-injective,
}
use memory.Text.Bytes.{Str, str_eq, str_eq_iff, Str-eq}
use memory.Requests.{Time}
use memory.Steward.Jobs.{Job, is_leased, update_job, find_job, lease_live}
use memory.Steward.Jobs.Claim.{
  is_claimable, precedes, first_of, select_job, lease_row, is_target, lease_job, count_targets,
}
use memory.Steward.Jobs.Sweep.{is_failed, is_barred, exhaust, forget, reclaim, sweep_job}
use memory.Steward.Jobs.Waiting.{is_waiting, count_waiting, same_waiting, lease_row-id}

abbrev pub ids : List Job → List Str
ids js = map (λ j. j.job_id) js

sweep_job-id :
    (barriers : List (Str × Str)) (now : Time) (j : Job)
    → (sweep_job barriers now j).job_id ≡ j.job_id
unfolding sweep_job exhaust forget reclaim
sweep_job-id barriers now j = ground arith

first_of-cases :
    (j : Job) (o : Option Job) {k : Job} → first_of j o ≡ some k → (j ≡ k) ⊎ (o ≡ some k)
first_of-cases j none h = inl (some-injective h)
first_of-cases j (some other) h = elim (Bool-cases (precedes other j)) [
  | inl e ↦ inr (rw e at h)
  | inr e ↦ inl (some-injective (rw e at h))
]

-- The job is failed, or leased with a lease that has not expired.
abbrev pub IsServed : Time → Job → Type 0
IsServed now j =
    (is_failed j.state ≡ true)
    ⊎ ((is_leased j.state ≡ true) × (lease_live j.lease_expires_at now ≡ true))

module _ (barriers : List (Str × Str)) (now : Time) where
  claimable_target :
      (j : Job) → is_claimable barriers now j ≡ true → is_target j.job_id now j ≡ true
  unfolding is_claimable
  claimable_target j h = ground (arith, h, (str_eq_iff j.job_id j.job_id).1 refl)

  pub select_target :
      (xs : List Job) (k : Job)
      → select_job barriers now xs ≡ some k
      → 1 ≤ count_targets k.job_id now xs
  unfolding select_job count_targets
  select_target [] k h = absurd (cc (h))
  select_target (x ∷ xs) k h = elim (Bool-cases (is_claimable barriers now x)) [
    | inr e ↦ omega (arith, select_target xs k (rw e at h))
    | inl e ↦ elim (first_of-cases x (select_job barriers now xs) (rw e at h)) [
      | inl same ↦
          subst
            (λ y. 1 ≤ (if is_target y.job_id now x then 1 else 0) + count_targets y.job_id now xs)
            same (rw (claimable_target x e) (omega arith))
      | inr later ↦ omega (arith, select_target xs k later)
    ]
  ]

  pub select_none :
      (js : List Job)
      → select_job barriers now (map (sweep_job barriers now) js) ≡ none
      → count_waiting barriers now js ≡ 0
  unfolding select_job count_waiting is_waiting
  select_none [] h = refl
  select_none (j ∷ js) h =
      elim (Bool-cases (is_claimable barriers now (sweep_job barriers now j))) [
        | inr e ↦ rw e (ap (λ n. 0 + n) (select_none js (rw e at h)))
        | inl e ↦ absurd (
            some_first (sweep_job barriers now j)
              (select_job barriers now (map (sweep_job barriers now) js)) (rw e at h))
      ]
    where
      some_first : (x : Job) (o : Option Job) → first_of x o ≡ none → ⊥
      some_first x none h = cc (h)
      some_first x (some y) h = elim (Bool-cases (precedes y x)) [
        | inl e ↦ cc (rw e at h)
        | inr e ↦ cc (rw e at h)
      ]

  absent_target :
      (id : Str) (xs : List Job) → contains (ids xs) id ≡ false → count_targets id now xs ≡ 0
  unfolding contains count_targets
  absent_target id [] h = refl
  absent_target id (x ∷ xs) h = ground (arith, absent_target id xs, h)

  pub unique_target : (id : Str) (xs : List Job) → Distinct (ids xs) → count_targets id now xs ≤ 1
  unfolding count_targets
  unique_target id [] d = omega arith
  unique_target id (x ∷ xs) (d, e) = elim (Bool-cases (str_eq x.job_id id)) [
    | inl same ↦ omega (
      arith,
      one_le (is_target id now x),
      absent_target id xs (ap (contains (ids xs)) (sym ((str_eq_iff x.job_id id).0 same)) ∙ d),
    )
    | inr other ↦ rw other (omega (arith, unique_target id xs e))
  ]
    where
      one_le : (b : Bool) → (if b then 1 else 0) ≤ 1
      one_le b = ground arith

  abbrev pub IsTracked : Job → Type 0
  IsTracked j = (is_waiting barriers now j ≡ true) ⊎ IsServed now j

  IsServed-sweep : (j : Job) → IsServed now j → IsServed now (sweep_job barriers now j)
  unfolding sweep_job exhaust forget reclaim
  IsServed-sweep j (inl failed) = inl (ground (arith, failed))
  IsServed-sweep j (inr leased) = elim (Bool-cases (is_barred barriers j.space_id j.receipt_id)) [
    | inl b ↦ inl (ground (arith, leased, b))
    | inr b ↦ inr (ground (arith, leased, b), ground (arith, leased, b))
  ]

  IsTracked-sweep : (j : Job) → IsTracked j → IsTracked (sweep_job barriers now j)
  IsTracked-sweep j (inl w) = inl (same_waiting barriers now j ∙ w)
  IsTracked-sweep j (inr served) = inr (IsServed-sweep j served)

  IsServed-lease :
      (duration : ℕ) (digest : Str) (j : Job)
      → 0 < duration
      → IsServed now (lease_row now duration digest j)
  unfolding lease_row
  IsServed-lease duration digest j h = inr (refl, ground arith)

  -- The row of a job after the sweep and the lease is there, and still tracked.
  pub IsTracked-lease :
      (id : Str) (duration : ℕ) (digest : Str) (i : Str) (js : List Job) (j : Job)
      → 0 < duration
      → find_job js i ≡ some j
      → IsTracked j
      → (j' : Job) × (find_job
            (lease_job id now duration digest (map (sweep_job barriers now) js))
            i
          ≡ some j')
        × IsTracked j'
  unfolding find_job lease_job
  IsTracked-lease id duration digest i [] j d h t = absurd (cc (h))
  IsTracked-lease id duration digest i (x ∷ js) j d h t = elim (Bool-cases (str_eq x.job_id i)) [
    | inr other ↦
        rw (row_id x) (rw other (IsTracked-lease id duration digest i js j d (rw other at h) t))
    | inl same ↦
        rw (row_id x) (
          rw same
            (row x, refl, tracked x (subst IsTracked (sym (some-injective (rw same at h))) t)))
  ]
    where
      row : Job → Job
      row y =
          if is_target id now (sweep_job barriers now y)
          then lease_row now duration digest (sweep_job barriers now y)
          else sweep_job barriers now y

      row_id : (y : Job) → (row y).job_id ≡ y.job_id
      row_id y = elim (Bool-cases (is_target id now (sweep_job barriers now y))) [
        | inl e ↦ rw e (
            lease_row-id barriers now duration digest (sweep_job barriers now y)
            ∙ sweep_job-id barriers now y)
        | inr e ↦ rw e (sweep_job-id barriers now y)
      ]

      tracked : (y : Job) → IsTracked y → IsTracked (row y)
      tracked y t = elim (Bool-cases (is_target id now (sweep_job barriers now y))) [
        | inl e ↦ rw e (inr (IsServed-lease duration digest (sweep_job barriers now y) d))
        | inr e ↦ rw e (IsTracked-sweep y t)
      ]

  pub IsTracked-fail :
      (f : Job → Job) (id i : Str) (js : List Job) (j : Job)
      → ((y : Job) → ((f y).job_id ≡ y.job_id) × (is_failed (f y).state ≡ true))
      → find_job js i ≡ some j
      → IsTracked j
      → (j' : Job) × (find_job (update_job f id js) i ≡ some j') × IsTracked j'
  unfolding find_job update_job
  IsTracked-fail f id i [] j fails h t = absurd (cc (h))
  IsTracked-fail f id i (x ∷ js) j fails h t = elim (Bool-cases (str_eq x.job_id i)) [
    | inr other ↦ rw (row_id x) (rw other (IsTracked-fail f id i js j fails (rw other at h) t))
    | inl same ↦
        rw (row_id x) (
          rw same
            (row x, refl, tracked x (subst IsTracked (sym (some-injective (rw same at h))) t)))
  ]
    where
      row : Job → Job
      row y = if str_eq y.job_id id then f y else y

      row_id : (y : Job) → (row y).job_id ≡ y.job_id
      row_id y = elim (Bool-cases (str_eq y.job_id id)) [
        | inl e ↦ rw e ((fails y).0)
        | inr e ↦ rw e refl
      ]

      tracked : (y : Job) → IsTracked y → IsTracked (row y)
      tracked y t = elim (Bool-cases (str_eq y.job_id id)) [
        | inl e ↦ rw e (inr (inl ((fails y).1)))
        | inr e ↦ rw e t
      ]

pub ids-sweep :
    (barriers : List (Str × Str)) (now : Time) (js : List Job)
    → ids (map (sweep_job barriers now) js) ≡ ids js
ids-sweep barriers now [] = refl
ids-sweep barriers now (j ∷ js) =
    rw (sweep_job-id barriers now j) (ap (◌∷◌ j.job_id) (ids-sweep barriers now js))

pub ids-lease :
    (id : Str) (now : Time) (duration : ℕ) (digest : Str) (js : List Job)
    → ids (lease_job id now duration digest js) ≡ ids js
unfolding lease_job lease_row
ids-lease id now duration digest [] = refl
ids-lease id now duration digest (j ∷ js) = ground (arith, ids-lease id now duration digest js)

pub ids-update :
    (f : Job → Job) (id : Str) (js : List Job)
    → ((j : Job) → (f j).job_id ≡ j.job_id)
    → ids (update_job f id js) ≡ ids js
unfolding update_job
ids-update f id [] same = refl
ids-update f id (j ∷ js) same = ground (arith, same j, ids-update f id js same)
