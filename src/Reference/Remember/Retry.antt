-- ===== src/Reference/Remember/Retry.antt =====
-- Remember is idempotent in its key, and a key stands for one request.
use memory.Prelude.{
  suc, ◌≡◌, ◌≢◌, refl, sym, ap, subst, ◌∙◌, true, false, not, none, some, [], ==_refl,
}
use memory.Prelude.Map.{get, get-put}
use memory.Prelude.Result.{Result}
use memory.Text.Bytes.{Str, Str-eq, str_eq, str_eq_iff}
use memory.Labels.{LabelSet}
use memory.Requests.{Time, RememberRequest, validate_remember}
use memory.Reference.Types.{Operation, ViewDefinition, IdempotencyEntry, CallAuthorization}
use memory.Reference.State.{Server, EffectId, EffectId-eq, Outcome, Context, Draw, conflict, failed}
use memory.Reference.Authorize.{Readings, authorization}
use memory.Reference.Authorize.Decision.{authorization_unique}
use memory.Reference.Remember.{
  RememberResponse, remember_response, receipt_of, Digests, request_digest, remember_effect,
  repeat_effect, remember,
}
use memory.Reference.Remember.Cases.{remember_cases, remember_reaches, effect_cases, next_receipt}

-- A stored effect with the digest of the request is answered from the store.
repeat_lem :
    (now : Time) (draw : Draw) (request : RememberRequest) (space_id : Str) (labels : LabelSet)
    (digest : Str) (s : Server) (previous : IdempotencyEntry)
    → get s.idempotency (space_id, request.idempotency_key) ≡ some previous
    → previous.request_digest ≡ digest
    → remember_effect now draw request space_id labels digest s
      ≡ (Outcome.ok (remember_response (receipt_of (get s.receipts previous.receipt_id)) true), s)
unfolding remember_effect repeat_effect
repeat_lem now draw request space_id labels digest s previous e same =
    rw (e, remember_effect, (str_eq_iff previous.request_digest digest).1 same)

-- What a successful `remember` leaves behind: the effect of its key, with its digest and receipt.
pub record Recorded (d : Digests) (auth : CallAuthorization) (request : RememberRequest)
    (s t : Server) (r : RememberResponse) : Type 0 where
  pub up : not t.available ≡ false
  pub valid : validate_remember request ≡ none
  pub view : ViewDefinition
  pub labels : LabelSet
  pub first : Readings
  pub granted : authorization t first auth Operation.remember ≡ Result.ok (view, labels)
  pub writable : str_eq view.write_space_id [] ≡ false
  pub digest : Str
  pub digested : request_digest d request labels ≡ some digest
  pub entry : IdempotencyEntry
  pub stored : get t.idempotency (view.write_space_id, request.idempotency_key) ≡ some entry
  pub same : entry.request_digest ≡ digest
  pub answer :
      remember_response (receipt_of (get t.receipts entry.receipt_id)) true
      ≡ record r { deduplicated_retry = true }

abbrev OnSuccess : (Server → RememberResponse → Type 0) → Outcome RememberResponse × Server → Type 0
OnSuccess P (Outcome.ok r, t) = P t r
OnSuccess P (Outcome.err e, t) = Unit
OnSuccess P (Outcome.panic, t) = Unit

module _ (d : Digests) (auth : CallAuthorization) (request : RememberRequest) (ctx : Context)
    (at : Readings) (now : Time) (draw : Draw) (s : Server) where
  remember-Recorded :
      OnSuccess (Recorded d auth request s) (remember d ctx at now draw auth request s)
  remember-Recorded =
      remember_cases (OnSuccess (Recorded d auth request s)) d at now draw auth request s ctx
        (λ e. tt)
        λ view labels digest up valid granted digested writable.
          effect_cases (OnSuccess (Recorded d auth request s)) now draw request view.write_space_id
            labels digest s
            (λ previous e same. record {
              up = up;
              valid = valid;
              view = view;
              labels = labels;
              first = at;
              granted = granted;
              writable = writable;
              digest = digest;
              digested = digested;
              entry = previous;
              stored = e;
              same = same;
              answer = unfold remember_response in refl;
            })
            (λ p x e n c. tt) (λ e x. tt)
            (λ e raw. record {
              up = up;
              valid = valid;
              view = view;
              labels = labels;
              first = at;
              granted = unfold authorization in granted;
              writable = writable;
              digest = digest;
              digested = digested;
              entry = record {
                request_digest = digest;
                receipt_id = (next_receipt now request view.write_space_id labels digest raw s).id;
              };
              stored =
                  rw (
                    get-put,
                    ==_refl {A = EffectId} (view.write_space_id, request.idempotency_key),
                  );
              same = refl;
              answer =
                  rw
                    (
                      get-put,
                      ==_refl {A = Str}
                          (next_receipt now request view.write_space_id labels digest raw s).id,
                    )
                    (unfold remember_response receipt_of in refl);
            })

-- The call was refused with the code `conflict`, and left the server as it was but for the number
-- of its last service error.
abbrev pub Conflicts : Server → Outcome RememberResponse × Server → Type 0
Conflicts t (Outcome.ok r, t') = ⊥
Conflicts t (Outcome.err e, t') = (e.code ≡ conflict) × (t' ≡ failed t)
Conflicts t (Outcome.panic, t') = ⊥

conflict_lem :
    (now : Time) (draw : Draw) (request : RememberRequest) (space_id : Str) (labels : LabelSet)
    (digest : Str) (s : Server) (previous : IdempotencyEntry)
    → get s.idempotency (space_id, request.idempotency_key) ≡ some previous
    → previous.request_digest ≢ digest
    → Conflicts s (remember_effect now draw request space_id labels digest s)
conflict_lem now draw request space_id labels digest s previous e differs =
    effect_cases (Conflicts s) now draw request space_id labels digest s
      (λ p found same. absurd (differs (cc (e, found, same))))
      (λ p x found other code. (code, refl)) (λ missing x. absurd (cc (e, missing)))
      (λ missing raw. absurd (cc (e, missing)))

module _ (d : Digests) (auth : CallAuthorization) (request : RememberRequest) (ctx : Context)
    (at : Readings) (now : Time) (draw : Draw) (s t : Server) (r : RememberResponse)
    (first : remember d ctx at now draw auth request s ≡ (Outcome.ok r, t)) where
  recorded : Recorded d auth request s t r
  recorded =
      subst (OnSuccess (Recorded d auth request s)) first
        (remember-Recorded d auth request ctx at now draw s)

  module _ (at' : Readings) (v : ViewDefinition × LabelSet)
      (live : authorization t at' auth Operation.remember ≡ Result.ok v) where
    same_view : v ≡ (recorded.view, recorded.labels)
    same_view =
        authorization_unique t at' recorded.first auth Operation.remember Operation.remember v _
          live recorded.granted

    -- After a successful Remember, the same request under the same capability, while that is
    -- still live and the context has time left, is answered with the same response marked as a
    -- deduplicated retry, whatever the clock and the random source say, and changes nothing.
    pub remember-retry :
        (ctx' : Context) (now' : Time) (draw' : Draw)
        → remember d (suc ctx') at' now' draw' auth request t
          ≡ (Outcome.ok (record r { deduplicated_retry = true }), t)
    remember-retry ctx' now' draw' =
        remember_reaches (λ p. p ≡ (Outcome.ok (record r { deduplicated_retry = true }), t)) d at'
          now' draw' auth request t ctx' (recorded.view, recorded.labels) recorded.digest
          recorded.up recorded.valid (live ∙ ap Result.ok same_view) recorded.digested
          recorded.writable
          (repeat_lem now' draw' request recorded.view.write_space_id recorded.labels
              recorded.digest t recorded.entry recorded.stored recorded.same
            ∙ ap (λ a. (Outcome.ok a, t)) recorded.answer)

    -- After a successful Remember, a valid request under the same capability with the same
    -- idempotency key whose digest differs, while the capability is still live and the context
    -- has time left, is refused with the code `conflict`, and only the number of the last service
    -- error changes.
    pub remember-conflict :
        (other : RememberRequest) (digest' : Str) (ctx' : Context) (now' : Time) (draw' : Draw)
        → other.idempotency_key ≡ request.idempotency_key
        → validate_remember other ≡ none
        → request_digest d other v.1 ≡ some digest'
        → request_digest d request v.1 ≢ some digest'
        → Conflicts t (remember d (suc ctx') at' now' draw' auth other t)
    remember-conflict other digest' ctx' now' draw' key valid digested differs =
        remember_reaches (Conflicts t) d at' now' draw' auth other t ctx' v digest' recorded.up
          valid live digested (rw same_view recorded.writable)
          (conflict_lem now' draw' other v.0.write_space_id v.1 digest' t recorded.entry
            (rw (same_view, key) recorded.stored)
            (λ e. differs (rw same_view (recorded.digested ∙ ap some (sym recorded.same ∙ e)))))
