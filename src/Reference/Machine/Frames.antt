-- ===== src/Reference/Machine/Frames.antt =====
-- The calls of the data plane leave the administrative state alone.
use memory.Prelude.{zero, suc, ◌≡◌, refl, ◌∙◌, Bool, true, false, Option, none, some, not}
use memory.Text.Bytes.{Str-eq}
use memory.Requests.{Time, RememberRequest, ValidationError}
use memory.Reference.Types.{CallAuthorization, Operation}
use memory.Reference.State.{
  Server, Outcome, Call, Context, Draw, ErrorCode, Message, refuse, failed, fail, pure, after_call,
  check_context, check_available, check_valid, ◌>>=◌,
}
use memory.Prelude.Result.{Result}
use memory.Reference.Authorize.{Readings, Decision, authorize, authorization, service_error}
use memory.Reference.Remember.{Digests, RememberResponse, remember}
use memory.Reference.Remember.Cases.{remember_cases, effect_cases}

-- `t` differs from `s` at most in what Remember writes.
pub record SameAuthority (s t : Server) : Type 0 where
  pub spaces : t.spaces ≡ s.spaces
  pub views : t.views ≡ s.views
  pub grants : t.grants ≡ s.grants
  pub capabilities : t.capabilities ≡ s.capabilities

-- `t` differs from `s` at most in what Recall writes.
pub record SameStore (s t : Server) : Type 0 where
  pub authority : SameAuthority s t
  pub receipts : t.receipts ≡ s.receipts
  pub receipts_by_space : t.receipts_by_space ≡ s.receipts_by_space
  pub idempotency : t.idempotency ≡ s.idempotency
  pub tokens : t.tokens ≡ s.tokens
  pub next_id : t.next_id ≡ s.next_id
  pub sequence : t.sequence ≡ s.sequence
  pub generation : t.generation ≡ s.generation

pub SameAuthority-refl : (s : Server) → SameAuthority s s
SameAuthority-refl s = record { spaces = refl; views = refl; grants = refl; capabilities = refl }

pub SameStore-refl : (s : Server) → SameStore s s
SameStore-refl s = record {
  authority = SameAuthority-refl s;
  receipts = refl;
  receipts_by_space = refl;
  idempotency = refl;
  tokens = refl;
  next_id = refl;
  sequence = refl;
  generation = refl;
}

pub SameStore-trans : {s t u : Server} → SameStore s t → SameStore t u → SameStore s u
SameStore-trans a b = record {
  authority = record {
    spaces = b.authority.spaces ∙ a.authority.spaces;
    views = b.authority.views ∙ a.authority.views;
    grants = b.authority.grants ∙ a.authority.grants;
    capabilities = b.authority.capabilities ∙ a.authority.capabilities;
  };
  receipts = b.receipts ∙ a.receipts;
  receipts_by_space = b.receipts_by_space ∙ a.receipts_by_space;
  idempotency = b.idempotency ∙ a.idempotency;
  tokens = b.tokens ∙ a.tokens;
  next_id = b.next_id ∙ a.next_id;
  sequence = b.sequence ∙ a.sequence;
  generation = b.generation ∙ a.generation;
}

-- A Remember, whatever its outcome, leaves the Spaces, Views, grants and capabilities as they
-- were.
pub remember-SameAuthority :
    (d : Digests) (ctx : Context) (at : Readings) (now : Time) (draw : Draw)
    (auth : CallAuthorization) (request : RememberRequest) (s : Server)
    → SameAuthority s (remember d ctx at now draw auth request s).1
remember-SameAuthority d ctx at now draw auth request s =
    remember_cases P d at now draw auth request s ctx
      (λ e. record { spaces = refl; views = refl; grants = refl; capabilities = refl })
      λ view labels digest _ _ _ _ _.
        effect_cases P now draw request view.write_space_id labels digest s
          (λ _ _ _. SameAuthority-refl s)
          (λ _ _ _ _ _. record { spaces = refl; views = refl; grants = refl; capabilities = refl })
          (λ _ _. record { spaces = refl; views = refl; grants = refl; capabilities = refl })
          (λ _ _. record { spaces = refl; views = refl; grants = refl; capabilities = refl })
  where
    P : Outcome RememberResponse × Server → Type 0
    P r = SameAuthority s r.1

-- A call that keeps the store, whatever its outcome.
pub record Keeps {A : Type 0} (m : Call A) : Type 0 where
  pub at : (s : Server) → SameStore s (m s).1

pub Keeps-bind :
    {A B : Type 0} (m : Call A) (f : A → Call B)
    → Keeps m
    → ((a : A) → Keeps (f a))
    → Keeps (m >>= f)
Keeps-bind m f km kf = record { at = λ s. go (m s) (km.at s) }
  where
    go : {s : Server} (r : Outcome _ × Server) → SameStore s r.1 → SameStore s (after_call r f).1
    go (Outcome.ok a, t) h = SameStore-trans h ((kf a).at t)
    go (Outcome.err e, t) h = h
    go (Outcome.panic, t) h = h

SameStore-failed : (s : Server) → SameStore s (failed s)
SameStore-failed s = record {
  authority = record { spaces = refl; views = refl; grants = refl; capabilities = refl };
  receipts = refl;
  receipts_by_space = refl;
  idempotency = refl;
  tokens = refl;
  next_id = refl;
  sequence = refl;
  generation = refl;
}

pub Keeps-pure : {A : Type 0} (a : A) → Keeps (pure a)
Keeps-pure a = record { at = SameStore-refl }

pub Keeps-fail :
    {A : Type 0} (code : ErrorCode) (message : Message) (retryable : Bool)
    → Keeps (fail {A = A} code message retryable)
unfolding fail
Keeps-fail code message retryable = record { at = SameStore-failed }

pub Keeps-refuse :
    (b : Bool) (code : ErrorCode) (message : Message) (retryable : Bool)
    → Keeps (refuse b code message retryable)
Keeps-refuse true code message retryable = Keeps-fail code message retryable
Keeps-refuse false code message retryable = Keeps-pure tt

pub Keeps-check_context : (ctx : Context) (retryable : Bool) → Keeps (check_context ctx retryable)
Keeps-check_context zero retryable = Keeps-fail _ _ retryable
Keeps-check_context (suc ctx) retryable = Keeps-pure ctx

-- A call that chooses by the server it finds.
pub Keeps-get :
    {A : Type 0} (m : Server → Call A) → ((s : Server) → Keeps (m s)) → Keeps (λ s. m s s)
Keeps-get m k = record { at = λ s. (k s).at s }

pub Keeps-service_error : {A : Type 0} (r : Decision A) → Keeps (service_error r)
Keeps-service_error (Result.ok a) = Keeps-pure a
Keeps-service_error (Result.err m) = Keeps-fail _ _ _

pub Keeps-authorize :
    (at : Readings) (auth : CallAuthorization) (operation : Operation)
    → Keeps (authorize at auth operation)
unfolding authorize
Keeps-authorize at auth operation =
    Keeps-get (λ s. service_error (authorization s at auth operation)) (λ s. Keeps-service_error _)

pub Keeps-check_available : Keeps check_available
Keeps-check_available =
    Keeps-get (λ s. refuse (not s.available) _ _ _) (λ s. Keeps-refuse (not s.available) _ _ _)

pub Keeps-check_valid : (o : Option ValidationError) → Keeps (check_valid o)
Keeps-check_valid none = Keeps-pure tt
Keeps-check_valid (some e) = Keeps-fail _ _ _
