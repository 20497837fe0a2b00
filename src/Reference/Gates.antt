-- ===== src/Reference/Gates.antt =====
-- The checks at the head of each call: a gate returns a value and leaves the server alone, or it
-- reports an error and only the request number moves.
use memory.Prelude.{
  zero, suc, ◌≡◌, refl, sym, subst, Bool, true, false, not, Option, none, some, ◌⊎◌, inl, inr,
}
use memory.Prelude.Result.{Result}
use memory.Labels.{LabelSet}
use memory.Requests.{ValidationError}
use memory.Reference.Types.{Operation, ViewDefinition, CallAuthorization}
use memory.Reference.State.{
  Server, Call, Context, Outcome, ServiceError, ErrorCode, Message, failed, fail, refuse,
  after_call, check_context, check_available, check_valid, ◌>>=◌,
}
use memory.Reference.Authorize.{Readings, Decision, authorization, authorize, service_error}

abbrev pub Gate : {A : Type 0} → Call A → (A → Type 0) → Server → Type 0
Gate {A} m Q s =
    ((a : A) × (m s ≡ (Outcome.ok a, s)) × Q a)
    ⊎ ((e : ServiceError) × (m s ≡ (Outcome.err e, failed s)))

-- A call that begins with a gate.
pub Gate-bind {ℓ} :
    {A B : Type 0} (P : Outcome B × Server → Type ℓ) (m : Call A) (Q : A → Type 0) (f : A → Call B)
    (s : Server)
    → Gate m Q s
    → ((e : ServiceError) → P (Outcome.err e, failed s))
    → ((a : A) → Q a → P (f a s))
    → P ((m >>= f) s)
Gate-bind P m Q f s (inl (a, e, q)) bad good = subst (λ r. P (after_call r f)) (sym e) (good a q)
Gate-bind P m Q f s (inr (x, e)) bad good = subst (λ r. P (after_call r f)) (sym e) (bad x)

-- A call whose first check passes.
pub pass {ℓ} :
    {A B : Type 0} (P : Outcome B × Server → Type ℓ) (m : Call A) (f : A → Call B) (s : Server)
    (a : A)
    → m s ≡ (Outcome.ok a, s)
    → P (f a s)
    → P ((m >>= f) s)
pass P m f s a e p = subst (λ r. P (after_call r f)) (sym e) p

pub refuse_passes :
    (b : Bool) (code : ErrorCode) (message : Message) (retryable : Bool) (s : Server)
    → b ≡ false
    → refuse b code message retryable s ≡ (Outcome.ok tt, s)
refuse_passes b code message retryable s e = rw e

pub authorize_passes :
    (at : Readings) (auth : CallAuthorization) (operation : Operation) (s : Server)
    (v : ViewDefinition × LabelSet)
    → authorization s at auth operation ≡ Result.ok v
    → authorize at auth operation s ≡ (Outcome.ok v, s)
unfolding authorize
authorize_passes at auth operation s v e = rw e

pub refuse-Gate :
    (b : Bool) (code : ErrorCode) (message : Message) (retryable : Bool) (s : Server)
    → Gate (refuse b code message retryable) (λ _. b ≡ false) s
unfolding fail
refuse-Gate true code message retryable s = inr (_, refl)
refuse-Gate false code message retryable s = inl (tt, refl, refl)

pub check_context-Gate :
    (ctx : Context) (retryable : Bool) (s : Server)
    → Gate (check_context ctx retryable) (λ rest. ctx ≡ suc rest) s
unfolding fail
check_context-Gate zero retryable s = inr (_, refl)
check_context-Gate (suc ctx) retryable s = inl (ctx, refl, refl)

pub check_available-Gate : (s : Server) → Gate check_available (λ _. not s.available ≡ false) s
check_available-Gate s = refuse-Gate (not s.available) _ _ _ s

pub check_valid-Gate :
    (o : Option ValidationError) (s : Server) → Gate (check_valid o) (λ _. o ≡ none) s
unfolding fail
check_valid-Gate none s = inl (tt, refl, refl)
check_valid-Gate (some e) s = inr (_, refl)

service_error-Gate :
    {A : Type 0} (r : Decision A) (s : Server) → Gate (service_error r) (λ a. r ≡ Result.ok a) s
unfolding fail
service_error-Gate (Result.ok a) s = inl (a, refl, refl)
service_error-Gate (Result.err m) s = inr (_, refl)

pub authorize-Gate :
    (at : Readings) (auth : CallAuthorization) (operation : Operation) (s : Server)
    → Gate (authorize at auth operation) (λ v. authorization s at auth operation ≡ Result.ok v) s
unfolding authorize
authorize-Gate at auth operation s = service_error-Gate (authorization s at auth operation) s
