-- ===== src/Steward/Jobs/Liveness.antt =====
-- `ClaimStewardJob`, called again and again by Workers.
use memory.Prelude.{
  ℕ, ◌+◌, ◌≤◌, ◌<◌, ◌≡◌, refl, sym, ap, ◌∙◌, subst, Bool, true, false, not, ◌&&◌, ◌||◌, Option,
  none, some, List, [], ◌∷◌, inl, inr, map, leb, if◌then◌else◌, arith, length, Bool-cases,
  Option-cases, Distinct, some-injective,
}
use memory.Prelude.Int.{pos, lt_bound, gt_bound}
use memory.Text.Bytes.{Str, Str-eq, str_eq, bytes}
use memory.Requests.{Time}
use memory.Steward.Jobs.{Job, JobStore, is_leased, find_job}
use memory.Steward.Jobs.Claim.{
  min_steward_lease, max_steward_lease, is_claimable, select_job, start_lease, Claimed, nothing,
  claimed, again, unread, unreadable, ClaimOutcome, refused, no_work, work, claim_attempt,
  claim_attempts, claim_fitted, is_available, claim_steward_job,
}
use memory.Steward.Jobs.Sweep.{
  is_pending, is_expired, is_barred, exhaust, forget, reclaim, sweep_job, sweep,
}
use memory.Steward.Jobs.Request.{WorkInput, WorkRequest, fit_request}
use memory.Steward.Jobs.Waiting.{is_waiting, count_waiting}
use memory.Steward.Jobs.Progress.{Progress, one_target, leased-Progress, failed-Progress}
use memory.Steward.Jobs.Served.{ids, IsServed, IsTracked, select_none}

-- The rows after a call that did not panic.
abbrev pub left_by : JobStore → ClaimOutcome → JobStore
left_by s (refused e) = s
left_by s (no_work t) = t
left_by s (work w t) = t

abbrev stored : JobStore → Claimed → JobStore
stored s (nothing t) = t
stored s (claimed w t) = t
stored s again = s
stored s unread = s

abbrev IsDone : Claimed → Type 0
IsDone (nothing t) = Unit
IsDone (claimed w t) = Unit
IsDone again = ⊥
IsDone unread = ⊥

module _ (digest : Str → Str) (now : Time) (duration : ℕ) (token : Str)
    (read : Job → Option WorkInput)
    (readable : (job : Job) → (input : WorkInput) × (read job ≡ some input))
    (positive : 0 < duration) (s : JobStore) (distinct : Distinct (ids s.jobs)) where
  fitted :
      (k : Job) (o : Option WorkRequest)
      → select_job s.barriers now (map (sweep_job s.barriers now) s.jobs) ≡ some k
      → Progress now s (
          stored s
            (claim_fitted k token now (start_lease k now duration (digest token) (sweep now s)) o))
        × IsDone
            (claim_fitted k token now (start_lease k now duration (digest token) (sweep now s)) o)
  fitted k none selected = (
    failed-Progress now duration (digest token) s k positive distinct selected
        (bytes "input_too_large"),
    tt,
  )
  fitted k (some request) selected =
      (leased-Progress now duration (digest token) s k positive distinct selected _, tt)

  attempt :
      0 < count_waiting s.barriers now s.jobs
      → Progress now s (stored s (claim_attempt digest now duration token read s))
        × IsDone (claim_attempt digest now duration token read s)
  unfolding claim_attempt sweep
  attempt waits =
      elim (Option-cases (select_job s.barriers now (map (sweep_job s.barriers now) s.jobs))) [
        | inl missing ↦ absurd (omega (arith, waits, select_none s.barriers now s.jobs missing))
        | inr (k, selected) ↦
            let (input, has) = readable k in
            rw selected (
              rw (one_target now duration (digest token) s k positive distinct selected) (
                rw has (
                  fitted k
                    (fit_request
                      (length input.request.lexicon_candidates + length input.request.records + 1)
                      input input.request)
                    selected)))
      ]

-- A job that waits makes work available.
available_job :
    (barriers : List (Str × Str)) (now : Time) (j : Job)
    → is_waiting barriers now j ≡ true
    → ((is_pending j.state && leb j.available_at now
          || is_leased j.state && is_expired j.lease_expires_at now)
        && not (is_barred barriers j.space_id j.receipt_id))
      ≡ true
unfolding is_waiting is_claimable sweep_job exhaust forget reclaim
available_job barriers now j h = ground (arith, h)

available :
    (barriers : List (Str × Str)) (now : Time) (js : List Job)
    → 0 < count_waiting barriers now js
    → is_available barriers now js ≡ true
unfolding count_waiting is_available
available barriers now [] h = absurd (omega arith)
available barriers now (j ∷ js) h = elim (Bool-cases (is_waiting barriers now j)) [
  | inl w ↦ rw (available_job barriers now j w) refl
  | inr w ↦ ground (arith, available barriers now js (omega (arith, rw w at h)))
]

then_branch {ℓ} : {A : Type ℓ} (b : Bool) (x y : A) → b ≡ true → (if b then x else y) ≡ x
then_branch b x y e = rw e refl

else_branch {ℓ} : {A : Type ℓ} (b : Bool) (x y : A) → b ≡ false → (if b then x else y) ≡ y
else_branch b x y e = rw e refl

claim-Progress :
    (digest : Str → Str) (now : Time) (duration : ℕ) (token : Str) (read : Job → Option WorkInput)
    (s : JobStore)
    → ((job : Job) → (input : WorkInput) × (read job ≡ some input))
    → min_steward_lease ≤ duration
    → duration ≤ max_steward_lease
    → s.is_mutable ≡ true
    → Distinct (ids s.jobs)
    → 0 < count_waiting s.barriers now s.jobs
    → Progress now s
        (left_by s (claim_steward_job digest (λ _. now) (pos duration) (some token) read s))
unfolding claim_steward_job claim_attempts
claim-Progress digest now duration token read s readable low high mutable distinct waits =
    subst (λ o. Progress now s (left_by s o)) (sym opened)
      (finish (claim_attempt digest now duration token read s)
        (attempt digest now duration token read readable (omega (arith, low)) s distinct waits))
  where
    in_range :
        (lt_bound (pos duration) min_steward_lease || gt_bound (pos duration) max_steward_lease)
        ≡ false
    in_range = ground (arith, low, high)

    opened :
        claim_steward_job digest (λ _. now) (pos duration) (some token) read s
        ≡ claim_attempts 4 1 digest (λ _. now) duration token read s
    opened =
        else_branch (not s.is_mutable) _ _ (ap not mutable)
        ∙ else_branch
            (lt_bound (pos duration) min_steward_lease || gt_bound (pos duration) max_steward_lease)
            _ _ in_range
        ∙ then_branch (is_available s.barriers now s.jobs) _ _
            (available s.barriers now s.jobs waits)

    finish :
        (r : Claimed)
        → Progress now s (stored s r) × IsDone r
        → Progress now s (
            left_by s (elim r [
              | nothing t ↦ no_work t
              | claimed w t ↦ work w t
              | unread ↦ refused unreadable
              | again ↦ claim_attempts 3 (1 + 1) digest (λ _. now) duration token read s
            ]))
    finish (nothing t) (p, d) = p
    finish (claimed w t) (p, d) = p
    finish again (p, d) = absurd d
    finish unread (p, d) = absurd d

-- Claims one after the other at one instant, each with its token.
unfoldable pub claims :
    (Str → Str) → Time → ℕ → (Job → Option WorkInput) → List Str → JobStore → JobStore
claims digest now duration read [] s = s
claims digest now duration read (token ∷ tokens) s =
    claims digest now duration read tokens
      (left_by s (claim_steward_job digest (λ _. now) (pos duration) (some token) read s))

none_waits :
    (barriers : List (Str × Str)) (now : Time) (js : List Job) (id : Str) (j : Job)
    → count_waiting barriers now js ≡ 0
    → find_job js id ≡ some j
    → is_waiting barriers now j ≡ false
unfolding count_waiting find_job
none_waits barriers now [] id j c h = absurd (cc (h))
none_waits barriers now (x ∷ js) id j c h = elim (Bool-cases (str_eq x.job_id id)) [
  | inl e ↦
      subst (λ y. is_waiting barriers now y ≡ false) (some-injective (rw e at h))
        (ground (arith, c))
  | inr e ↦ none_waits barriers now js id j (omega (arith, c)) (rw e at h)
]

-- In a generation that may be written, whose jobs have distinct identifiers and can all be read,
-- as many claims at one instant, with a lease duration from one second to ten minutes, as there
-- are jobs that wait serve each of them: a job that waits, or is served already, has afterwards
-- failed or is leased with a lease that has not expired.
pub claims_serve :
    (digest : Str → Str) (now : Time) (duration : ℕ) (read : Job → Option WorkInput)
    (tokens : List Str) (s : JobStore) (id : Str) (j : Job)
    → ((job : Job) → (input : WorkInput) × (read job ≡ some input))
    → min_steward_lease ≤ duration
    → duration ≤ max_steward_lease
    → s.is_mutable ≡ true
    → Distinct (ids s.jobs)
    → length tokens ≡ count_waiting s.barriers now s.jobs
    → find_job s.jobs id ≡ some j
    → IsTracked s.barriers now j
    → (j' : Job) × (find_job (claims digest now duration read tokens s).jobs id ≡ some j')
      × IsServed now j'
unfolding claims
claims_serve digest now duration read [] s id j readable low high mutable distinct enough has
      (inl w) =
    absurd (cc (w, none_waits s.barriers now s.jobs id j (sym enough) has))
claims_serve digest now duration read [] s id j readable low high mutable distinct enough has
      (inr served) =
    (j, has, served)
claims_serve digest now duration read (token ∷ tokens) s id j readable low high mutable distinct
      enough has t =
    let p =
      claim-Progress digest now duration token read s readable low high mutable distinct
        (omega (arith, enough)) in
    let (j', has', t') = p.tracked id j has t in
    claims_serve digest now duration read tokens _ id j' readable low high (p.same_mode ∙ mutable)
      (subst Distinct (sym p.same_ids) distinct)
      (rw (p.same_barriers) (omega (arith, enough, p.fewer))) has' (rw (p.same_barriers) t')
