-- ===== src/Steward/Jobs/Waiting.antt =====
-- The jobs that wait to be leased, and what one claim does to them.
use memory.Prelude.{
  ℕ, ◌+◌, ◌<◌, ◌≡◌, refl, sym, ap, ◌∙◌, Bool, true, false, List, [], ◌∷◌, inl, inr, map,
  if◌then◌else◌, arith, Bool-cases,
}
use memory.Text.Bytes.{Str, str_eq, str_eq_iff, Str-eq}
use memory.Requests.{Time}
use memory.Steward.Jobs.{Job, update_job}
use memory.Steward.Jobs.Claim.{is_claimable, lease_row, is_target, lease_job, count_targets}
use memory.Steward.Jobs.Sweep.{fail_row, exhaust, forget, reclaim, sweep_job}

module _ (barriers : List (Str × Str)) (now : Time) where
  -- The job may be leased once the rows are swept.
  unfoldable pub is_waiting : Job → Bool
  is_waiting job = is_claimable barriers now (sweep_job barriers now job)

  unfoldable pub count_waiting : List Job → ℕ
  count_waiting [] = 0
  count_waiting (j ∷ js) = (if is_waiting j then 1 else 0) + count_waiting js

  -- Sweeping a second time changes nothing.
  pub sweep_twice :
      (j : Job) → sweep_job barriers now (sweep_job barriers now j) ≡ sweep_job barriers now j
  unfolding sweep_job exhaust forget reclaim
  sweep_twice j = ground arith

  -- A swept job that is pending and available may be leased.
  pub target_waits :
      (id : Str) (j : Job)
      → is_target id now (sweep_job barriers now j) ≡ true
      → is_claimable barriers now (sweep_job barriers now j) ≡ true
  unfolding sweep_job exhaust forget reclaim is_claimable
  target_waits id j h = ground arith

  target_is_waiting :
      (id : Str) (j : Job)
      → is_target id now (sweep_job barriers now j) ≡ true
      → is_waiting j ≡ true
  unfolding is_waiting
  target_is_waiting id j h = target_waits id j h

  pub leased_gone :
      (duration : ℕ) (digest : Str) (j : Job)
      → 0 < duration
      → is_waiting (lease_row now duration digest j) ≡ false
  unfolding is_waiting sweep_job exhaust forget reclaim is_claimable lease_row
  leased_gone duration digest j h = ground arith

  pub failed_gone : (code : Str) (at : Time) (j : Job) → is_waiting (fail_row code at j) ≡ false
  unfolding is_waiting sweep_job exhaust forget reclaim is_claimable
  failed_gone code at j = ground arith

  pub same_waiting : (j : Job) → is_waiting (sweep_job barriers now j) ≡ is_waiting j
  unfolding is_waiting
  same_waiting j = ap (is_claimable barriers now) (sweep_twice j)

  -- A swept job that waits is pending and available.
  waits_target :
      (id : Str) (j : Job)
      → (sweep_job barriers now j).job_id ≡ id
      → is_waiting j ≡ true
      → is_target id now (sweep_job barriers now j) ≡ true
  unfolding is_waiting is_claimable
  waits_target id j e h = ground (arith, h, (str_eq_iff (sweep_job barriers now j).job_id id).1 e)

  pub sweep-count :
      (js : List Job) → count_waiting (map (sweep_job barriers now) js) ≡ count_waiting js
  unfolding count_waiting
  sweep-count [] = refl
  sweep-count (j ∷ js) = ground (arith, same_waiting j, sweep-count js)

  pub lease-count :
      (id : Str) (duration : ℕ) (digest : Str) (js : List Job)
      → 0 < duration
      → count_waiting (lease_job id now duration digest (map (sweep_job barriers now) js))
          + count_targets id now (map (sweep_job barriers now) js)
        ≡ count_waiting js
  unfolding count_waiting lease_job count_targets
  lease-count id duration digest [] h = refl
  lease-count id duration digest (j ∷ js) h =
      elim (Bool-cases (is_target id now (sweep_job barriers now j))) [
        | inl e ↦ rw e (
            rw (leased_gone duration digest (sweep_job barriers now j) h)
              (rw (target_is_waiting id j e) (omega (arith, lease-count id duration digest js h))))
        | inr e ↦ rw e (rw (same_waiting j) (omega (arith, lease-count id duration digest js h)))
      ]

  -- What becomes of a swept row that may be leased.
  abbrev leased_if : Str → ℕ → Str → Job → Job
  leased_if id duration digest j = if is_target id now j then lease_row now duration digest j else j

  own_gone :
      (id : Str) (duration : ℕ) (digest : Str) (j : Job)
      → 0 < duration
      → (sweep_job barriers now j).job_id ≡ id
      → is_waiting (leased_if id duration digest (sweep_job barriers now j)) ≡ false
  own_gone id duration digest j h e =
      elim (Bool-cases (is_target id now (sweep_job barriers now j))) [
        | inl t ↦ rw t (leased_gone duration digest (sweep_job barriers now j) h)
        | inr t ↦ rw t (elim (Bool-cases (is_waiting j)) [
          | inl w ↦ absurd (cc (t, waits_target id j e w))
          | inr w ↦ same_waiting j ∙ w
        ])
      ]

  pub lease_row-id :
      (duration : ℕ) (digest : Str) (j : Job) → (lease_row now duration digest j).job_id ≡ j.job_id
  unfolding lease_row
  lease_row-id duration digest j = refl

  leased_if-id :
      (id : Str) (duration : ℕ) (digest : Str) (j : Job)
      → (leased_if id duration digest j).job_id ≡ j.job_id
  leased_if-id id duration digest j = elim (Bool-cases (is_target id now j)) [
    | inl e ↦ rw e (lease_row-id duration digest j)
    | inr e ↦ rw e refl
  ]

  pub fail-count :
      (f : Job → Job) (id : Str) (duration : ℕ) (digest : Str) (js : List Job)
      → 0 < duration
      → ((j : Job) → is_waiting (f j) ≡ false)
      → count_waiting
          (update_job f id (lease_job id now duration digest (map (sweep_job barriers now) js)))
        ≡ count_waiting (lease_job id now duration digest (map (sweep_job barriers now) js))
  unfolding count_waiting lease_job update_job
  fail-count f id duration digest [] h gone = refl
  fail-count f id duration digest (j ∷ js) h gone =
      let y = leased_if id duration digest (sweep_job barriers now j) in
      elim (Bool-cases (str_eq y.job_id id)) [
        | inl e ↦ rw e (
            rw (gone y) (
              rw
                (own_gone id duration digest j h (
                  sym (leased_if-id id duration digest (sweep_job barriers now j))
                  ∙ (str_eq_iff y.job_id id).0 e))
                (ap (λ n. 0 + n) (fail-count f id duration digest js h gone))))
        | inr e ↦ rw e (
            ap (λ n. (if is_waiting y then 1 else 0) + n)
              (fail-count f id duration digest js h gone))
      ]
