-- ===== src/Steward/Jobs/Fit.antt =====
-- The loop of `claimStewardJob` that cuts a request to size.
use memory.Prelude.{
  ℕ, zero, suc, ◌+◌, ◌≤◌, ◌<◌, ◌≡◌, refl, sym, ap, ◌∙◌, subst, false, Option, none, some, List, [],
  ◌∷◌, ◌++◌, inl, inr, leb, ltb, ltb→lt, arith, length, Bool-cases,
}
use mathlib.Core.List.{append_assoc, append-nil}
use memory.Text.Bytes.{Str, Str-eq}
use memory.Steward.Jobs.Request.{WorkInput, WorkRequest, RecordContext, drop_last, fit_request}

-- The front of a list.
abbrev pub IsPrefix {ℓ} : {A : Type ℓ} → List A → List A → Type ℓ
IsPrefix {A = A} xs ys = (zs : List A) × (xs ++ zs ≡ ys)

drop_last-IsPrefix {ℓ} : {A : Type ℓ} (xs : List A) → IsPrefix (drop_last xs) xs
drop_last-IsPrefix [] = ([], refl)
drop_last-IsPrefix (x ∷ []) = (x ∷ [], refl)
drop_last-IsPrefix (x ∷ y ∷ xs) = let (zs, e) = drop_last-IsPrefix (y ∷ xs) in (zs, ap (◌∷◌ x) e)

IsPrefix-trans {ℓ} :
    {A : Type ℓ} (xs ys zs : List A) → IsPrefix xs ys → IsPrefix ys zs → IsPrefix xs zs
IsPrefix-trans xs ys zs (a, e) (b, f) = (a ++ b, sym (append_assoc xs a b) ∙ ap (λ t. t ++ b) e ∙ f)

IsPrefix-refl {ℓ} : {A : Type ℓ} (xs : List A) → IsPrefix xs xs
IsPrefix-refl xs = ([], append-nil xs)

length-drop_last {ℓ} :
    {A : Type ℓ} (xs : List A) → 0 < length xs → length (drop_last xs) + 1 ≡ length xs
length-drop_last [] h = absurd (omega arith)
length-drop_last (x ∷ []) h = omega arith
length-drop_last (x ∷ y ∷ xs) h = omega (arith, length-drop_last (y ∷ xs) (omega arith))

-- A request of the allowed size whose lists are fronts of those that were read.
pub record Fitted (input : WorkInput) (r fit : WorkRequest) : Type 0 where
  pub in_size : input.encoded_size fit ≤ input.max_input_bytes
  pub candidates : IsPrefix fit.lexicon_candidates r.lexicon_candidates
  pub records : IsPrefix fit.records r.records

-- A request is given up only if it is too large without any candidate or record.
abbrev pub FitOutcome : WorkInput → WorkRequest → Option WorkRequest → Type 0
FitOutcome input r (some fit) = Fitted input r fit
FitOutcome input r none =
    input.max_input_bytes < input.encoded_size (record { lexicon_candidates = []; records = [] })

widen :
    (input : WorkInput) (r shorter : WorkRequest) (o : Option WorkRequest)
    → IsPrefix shorter.lexicon_candidates r.lexicon_candidates
    → IsPrefix shorter.records r.records
    → FitOutcome input shorter o
    → FitOutcome input r o
widen input r shorter none a b h = h
widen input r shorter (some fit) a b h = record {
  in_size = h.in_size;
  candidates =
      IsPrefix-trans fit.lexicon_candidates shorter.lexicon_candidates r.lexicon_candidates
        h.candidates a;
  records = IsPrefix-trans fit.records shorter.records r.records h.records b;
}

nil_of_length {ℓ} : {A : Type ℓ} (xs : List A) → ltb 0 (length xs) ≡ false → xs ≡ []
nil_of_length [] h = refl
nil_of_length (x ∷ xs) h = absurd (ground (arith, h))

-- With more rounds than the request has candidates and records, the loop that cuts it either
-- leaves prefixes of both whose encoding is within the size, or gives up, and then the request is
-- too large without any candidate and any record.
pub fit_request-FitOutcome :
    (rounds : ℕ) (input : WorkInput) (r : WorkRequest)
    → length r.lexicon_candidates + length r.records < rounds
    → FitOutcome input r (fit_request rounds input r)
unfolding fit_request
fit_request-FitOutcome zero input r h = absurd (omega arith)
fit_request-FitOutcome (suc rounds) input r h =
    elim (Bool-cases (leb (input.encoded_size r) input.max_input_bytes)) [
      | inl fits ↦ rw fits (record {
        in_size = ground (arith, fits);
        candidates = IsPrefix-refl r.lexicon_candidates;
        records = IsPrefix-refl r.records;
      })
      | inr large ↦ rw large (elim (Bool-cases (ltb 0 (length r.lexicon_candidates))) [
        | inl more ↦ rw more (
            widen input r (record r { lexicon_candidates = drop_last r.lexicon_candidates }) _
              (drop_last-IsPrefix r.lexicon_candidates) (IsPrefix-refl r.records)
              (fit_request-FitOutcome rounds input
                (record r { lexicon_candidates = drop_last r.lexicon_candidates })
                (omega (
                  arith,
                  h,
                  length-drop_last r.lexicon_candidates
                      (ltb→lt 0 (length r.lexicon_candidates) more),
                ))))
        | inr bare ↦ rw bare (elim (Bool-cases (ltb 0 (length r.records))) [
          | inl more ↦ rw more (
              widen input r (record r { records = drop_last r.records }) _
                (IsPrefix-refl r.lexicon_candidates) (drop_last-IsPrefix r.records)
                (fit_request-FitOutcome rounds input (record r { records = drop_last r.records })
                  (omega
                    (arith, h, length-drop_last r.records (ltb→lt 0 (length r.records) more)))))
          | inr empty ↦ rw empty (
              too_large (r.lexicon_candidates) (r.records) (nil_of_length r.lexicon_candidates bare)
                (nil_of_length r.records empty) (ground (arith, large)))
        ])
      ])
    ]
  where
    too_large :
        (cs : List Str) (rs : List RecordContext)
        → cs ≡ []
        → rs ≡ []
        → input.max_input_bytes
          < input.encoded_size (record { lexicon_candidates = cs; records = rs })
        → input.max_input_bytes
          < input.encoded_size (record { lexicon_candidates = []; records = [] })
    too_large cs rs a b h =
        subst
          (λ y.
            input.max_input_bytes
            < input.encoded_size (record { lexicon_candidates = []; records = y }))
          b
          (subst
            (λ x.
              input.max_input_bytes
              < input.encoded_size (record { lexicon_candidates = x; records = rs }))
            a h)
