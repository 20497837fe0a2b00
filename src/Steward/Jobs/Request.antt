-- ===== src/Steward/Jobs/Request.antt =====
-- The request that a lease carries: its cut to the size that the profile allows in `claimStewardJob` of
-- internal/appliance/steward_jobs.go, and the read set of internal/appliance/steward_context.go.
use memory.Prelude.{
  ℕ, zero, suc, ◌+◌, Option, none, some, List, [], ◌∷◌, ◌++◌, ltb, leb, if◌then◌else◌, length,
}
use memory.Text.Bytes.{Str, Str-eq}
use memory.Steward.Jobs.{ReadSetRow}

pub record RecordContext : Type 0 where
  pub record_id : Str
  pub revision : ℕ
  pub evidence_refs : List Str

-- The parts of a `WorkRequest` that are cut to size; the rest of it belongs to the length.
pub record WorkRequest : Type 0 where
  pub lexicon_candidates : List Str
  pub records : List RecordContext

-- What was read for a job, and the length of a request when it is encoded.
pub record WorkInput : Type 0 where
  pub max_input_bytes : ℕ
  pub request : WorkRequest
  pub encoded_size : WorkRequest → ℕ

pub record StewardWork : Type 0 where
  pub job_id : Str
  pub token : Str
  pub attempt : ℕ
  pub request : WorkRequest

-- `xs[:len(xs)-1]`
abbrev pub drop_last {ℓ} : {A : Type ℓ} → List A → List A
drop_last [] = []
drop_last (x ∷ []) = []
drop_last (x ∷ y ∷ xs) = x ∷ drop_last (y ∷ xs)

-- The loop that cuts the request, with one round for each element and one more; `none` if it is too large without any.
unfoldable pub fit_request : ℕ → WorkInput → WorkRequest → Option WorkRequest
fit_request zero input r = none
fit_request (suc rounds) input r =
    let fewer_candidates =
      fit_request rounds input (record r { lexicon_candidates = drop_last r.lexicon_candidates }) in
    let fewer_records = fit_request rounds input (record r { records = drop_last r.records }) in
    if leb (input.encoded_size r) input.max_input_bytes
    then some r
    else if ltb 0 (length r.lexicon_candidates)
    then fewer_candidates
    else if ltb 0 (length r.records)
    then fewer_records
    else none

unfoldable pub read_set_of : Str → ℕ → ℕ → Str → ℕ → List Str → List ReadSetRow
read_set_of job_id attempt ordinal record_id revision [] = []
read_set_of job_id attempt ordinal record_id revision (e ∷ es) =
    record {
      job_id = job_id;
      attempt = attempt;
      ordinal = ordinal;
      record_id = record_id;
      revision = revision;
      receipt_id = e;
    }
    ∷ read_set_of job_id attempt (ordinal + 1) record_id revision es

-- `persistStewardReadSet`
unfoldable pub persist_read_set : Str → ℕ → ℕ → List RecordContext → List ReadSetRow
persist_read_set job_id attempt ordinal [] = []
persist_read_set job_id attempt ordinal (r ∷ rs) =
    read_set_of job_id attempt ordinal r.record_id r.revision r.evidence_refs
    ++ persist_read_set job_id attempt (ordinal + length r.evidence_refs) rs
