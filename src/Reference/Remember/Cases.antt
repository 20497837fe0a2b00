-- ===== src/Reference/Remember/Cases.antt =====
-- The ways in which `remember` ends, as one rule for proofs about it.
use memory.Prelude.{
  suc, ◌≡◌, ◌≢◌, refl, not, ◌++◌, ◌∷◌, true, false, Option, none, some, [], Bool-cases,
  Option-cases, inl, inr,
}
use memory.Prelude.Map.{get, put}
use memory.Text.Decimal.{identifier}
use memory.Text.Base64.{base64_url}
use memory.Prelude.Result.{Result}
use memory.Text.Bytes.{Str, Str-eq, str_eq, str_eq_iff, bytes}
use memory.Labels.{LabelSet}
use memory.Requests.{Time, RememberRequest, validate_remember}
use memory.Reference.Types.{Operation, ViewDefinition, Receipt, IdempotencyEntry, CallAuthorization}
use memory.Reference.State.{
  Server, EffectId-eq, Outcome, ServiceError, Context, Draw, unauthorized, conflict, text, refuse,
  check_context, check_available, check_valid, increment, fail, failed, next_identifier,
}
use memory.Reference.Gates.{
  pass, refuse_passes, authorize_passes, Gate, Gate-bind, refuse-Gate, check_context-Gate,
  check_available-Gate, check_valid-Gate, authorize-Gate,
}
use memory.Reference.Authorize.{Readings, authorization, authorize}
use memory.Reference.Remember.{
  RememberResponse, remember_response, receipt_of, Digests, request_digest, remember_effect,
  repeat_effect, store_receipt, remember, digest_or_fail, new_receipt, ids_of,
}

digest_or_fail-Gate :
    (o : Option Str) (s : Server) → Gate (digest_or_fail o) (λ digest. o ≡ some digest) s
unfolding fail
digest_or_fail-Gate none s = inr (_, refl)
digest_or_fail-Gate (some digest) s = inl (digest, refl, refl)

module _ {ℓ} (P : Outcome RememberResponse × Server → Type ℓ) (d : Digests) (at : Readings)
    (now : Time) (draw : Draw) (auth : CallAuthorization) (request : RememberRequest)
    (s : Server) where
  -- Either an error is reported and only the request number moves, or the effect is reached.
  pub remember_cases :
      (ctx : Context)
      → ((e : ServiceError) → P (Outcome.err e, failed s))
      → ((view : ViewDefinition) (labels : LabelSet) (digest : Str)
          → not s.available ≡ false
          → validate_remember request ≡ none
          → authorization s at auth Operation.remember ≡ Result.ok (view, labels)
          → request_digest d request labels ≡ some digest
          → str_eq view.write_space_id [] ≡ false
          → P (remember_effect now draw request view.write_space_id labels digest s))
      → P (remember d ctx at now draw auth request s)
  unfolding remember
  remember_cases ctx bad reached =
      Gate-bind P (check_context ctx false) _ _ s (check_context-Gate ctx false s) bad λ _ _.
        Gate-bind P check_available _ _ s (check_available-Gate s) bad λ _ up.
          Gate-bind P (check_valid (validate_remember request)) _ _ s
            (check_valid-Gate (validate_remember request) s) bad
            λ _ valid.
              Gate-bind P (authorize at auth Operation.remember) _ _ s
                (authorize-Gate at auth Operation.remember s) bad
                λ v granted.
                  Gate-bind P (digest_or_fail (request_digest d request v.1)) _ _ s
                    (digest_or_fail-Gate (request_digest d request v.1) s) bad
                    λ digest digested.
                      Gate-bind P
                        (refuse (str_eq v.0.write_space_id []) unauthorized
                          (text "View has no writable Space") false)
                        _ _ s (refuse-Gate (str_eq v.0.write_space_id []) _ _ _ s) bad
                        λ _ writable. reached v.0 v.1 digest up valid granted digested writable

  -- A call that passes every check reaches the effect.
  pub remember_reaches :
      (ctx : Context) (v : ViewDefinition × LabelSet) (digest : Str)
      → not s.available ≡ false
      → validate_remember request ≡ none
      → authorization s at auth Operation.remember ≡ Result.ok v
      → request_digest d request v.1 ≡ some digest
      → str_eq v.0.write_space_id [] ≡ false
      → P (remember_effect now draw request v.0.write_space_id v.1 digest s)
      → P (remember d (suc ctx) at now draw auth request s)
  unfolding remember
  remember_reaches ctx v digest up valid granted digested writable p =
      pass P check_available _ s tt (refuse_passes (not s.available) _ _ _ s up) (
        pass P (check_valid (validate_remember request)) _ s tt (rw valid) (
          pass P (authorize at auth Operation.remember) _ s v
            (authorize_passes at auth Operation.remember s v granted)
            (pass P (digest_or_fail (request_digest d request v.1)) _ s digest (rw digested) (
              pass P
                (refuse (str_eq v.0.write_space_id []) unauthorized
                  (text "View has no writable Space") false)
                _ s tt (refuse_passes _ _ _ _ s writable) p))))

-- The server after `s.sequence++` and a new receipt number.
abbrev pub numbered : Server → Server
numbered s = record s { sequence = increment s.sequence; next_id = increment s.next_id }

module _ (now : Time) (request : RememberRequest) (space_id : Str) (labels : LabelSet)
    (digest : Str) (raw : Str) (s : Server) where
  -- The receipt that the server stores next.
  abbrev pub next_receipt : Receipt
  next_receipt =
      new_receipt now request space_id labels digest (increment s.sequence)
        (identifier (bytes "receipt") (increment s.next_id)) (base64_url raw)

  -- The server with that receipt.
  abbrev pub committed : Server
  committed = record s {
    sequence = increment s.sequence;
    next_id = increment s.next_id;
    tokens = put s.tokens (base64_url raw) (record {
      generation = s.generation;
      space_id = space_id;
      labels = labels;
      sequence = increment s.sequence;
    });
    receipts = put s.receipts next_receipt.id next_receipt;
    receipts_by_space =
        put s.receipts_by_space space_id
          (ids_of (get s.receipts_by_space space_id) ++ next_receipt.id ∷ []);
    idempotency =
        put s.idempotency (space_id, request.idempotency_key)
          (record { request_digest = digest; receipt_id = next_receipt.id });
  }

module _ {ℓ} (P : Outcome RememberResponse × Server → Type ℓ) (now : Time) (draw : Draw)
    (request : RememberRequest) (space_id : Str) (labels : LabelSet) (digest : Str)
    (s : Server) where
  abbrev pub previous_effect : Option IdempotencyEntry
  previous_effect = get s.idempotency (space_id, request.idempotency_key)

  store_cases :
      (draw' : Draw)
      → ((e : ServiceError) → P (Outcome.err e, failed (numbered s)))
      → ((raw : Str)
          → P (
            Outcome.ok
                (remember_response (next_receipt now request space_id labels digest raw s) false),
            committed now request space_id labels digest raw s,
          ))
      → P (store_receipt now draw' request space_id labels digest s)
  unfolding store_receipt next_identifier fail
  store_cases none bad good = bad _
  store_cases (some raw) bad good = good raw

  -- An effect is a retry of a stored one, or it conflicts with it, or it stores a new receipt, or
  -- no cursor could be made.
  pub effect_cases :
      ((previous : IdempotencyEntry)
        → previous_effect ≡ some previous
        → previous.request_digest ≡ digest
        → P (
          Outcome.ok (remember_response (receipt_of (get s.receipts previous.receipt_id)) true),
          s,
        ))
      → ((previous : IdempotencyEntry) (e : ServiceError)
          → previous_effect ≡ some previous
          → previous.request_digest ≢ digest
          → e.code ≡ conflict
          → P (Outcome.err e, failed s))
      → (previous_effect ≡ none → (e : ServiceError) → P (Outcome.err e, failed (numbered s)))
      → (previous_effect ≡ none
          → (raw : Str)
          → P (
            Outcome.ok
                (remember_response (next_receipt now request space_id labels digest raw s) false),
            committed now request space_id labels digest raw s,
          ))
      → P (remember_effect now draw request space_id labels digest s)
  unfolding remember_effect repeat_effect fail
  effect_cases again differs uncommitted stored = elim (Option-cases previous_effect) [
    | inl e ↦ rw (e, remember_effect) (store_cases draw (uncommitted e) (stored e))
    | inr (p, e) ↦ elim (Bool-cases (str_eq p.request_digest digest)) [
      | inl same ↦ rw (e, remember_effect, same) (again p e ((str_eq_iff _ _).0 same))
      | inr other ↦
          rw (e, remember_effect, other)
            (differs p _ e (λ h. cc (other, (str_eq_iff _ _).1 h)) refl)
    ]
  ]
