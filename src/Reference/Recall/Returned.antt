-- ===== src/Reference/Recall/Returned.antt =====
-- What holds of the value that a call returns, if it returns one, and of the server after it.
use memory.Prelude.{◌≡◌, refl, Bool, true, false, if◌then◌else◌}
use memory.Reference.State.{Server, Outcome, Call, after_call, ◌>>=◌}
use memory.Reference.Gates.{Gate, Gate-bind}
use memory.Reference.Machine.Frames.{SameStore, SameStore-trans, Keeps}

abbrev pub Returned : {A : Type 0} → (A → Server → Type 0) → Outcome A × Server → Type 0
Returned Q (Outcome.ok a, t) = Q a t
Returned Q (Outcome.err e, t) = Unit
Returned Q (Outcome.panic, t) = Unit

pub Returned-bind :
    {A B : Type 0} (m : Call A) (f : A → Call B) (s : Server) (R : A → Server → Type 0)
    (Q : B → Server → Type 0)
    → Returned R (m s)
    → ((a : A) (t : Server) → R a t → Returned Q (f a t))
    → Returned Q ((m >>= f) s)
Returned-bind m f s R Q h k = go (m s) h
  where
    go : (r : Outcome _ × Server) → Returned R r → Returned Q (after_call r f)
    go (Outcome.ok a, t) h = k a t h
    go (Outcome.err e, t) h = tt
    go (Outcome.panic, t) h = tt

pub Returned-if :
    {A : Type 0} (Q : A → Server → Type 0) (b : Bool) (m n : Call A) (s : Server)
    → (b ≡ true → Returned Q (m s))
    → (b ≡ false → Returned Q (n s))
    → Returned Q ((if b then m else n) s)
Returned-if Q true m n s first second = first refl
Returned-if Q false m n s first second = second refl

-- A call that begins with a gate.
pub Returned-Gate :
    {A B : Type 0} (Q : B → Server → Type 0) (m : Call A) (R : A → Type 0) (f : A → Call B)
    (s : Server)
    → Gate m R s
    → ((a : A) → R a → Returned Q (f a s))
    → Returned Q ((m >>= f) s)
Returned-Gate Q m R f s gate k = Gate-bind (Returned Q) m R f s gate (λ e. tt) k

pub Keeps-Returned :
    {A : Type 0} (m : Call A) (s t : Server)
    → Keeps m
    → SameStore s t
    → Returned (λ _ u. SameStore s u) (m t)
Keeps-Returned {A = A} m s t k same = go (m t) (k.at t)
  where
    go : (r : Outcome A × Server) → SameStore t r.1 → Returned (λ _ u. SameStore s u) r
    go (Outcome.ok a, u) h = SameStore-trans same h
    go (Outcome.err e, u) h = tt
    go (Outcome.panic, u) h = tt

pub Returned-map :
    {A : Type 0} (R Q : A → Server → Type 0) (r : Outcome A × Server)
    → ((a : A) (t : Server) → R a t → Q a t)
    → Returned R r
    → Returned Q r
Returned-map R Q (Outcome.ok a, t) f h = f a t h
Returned-map R Q (Outcome.err e, t) f h = tt
Returned-map R Q (Outcome.panic, t) f h = tt
