-- ===== src/Prelude/Result.antt =====
-- A value or an error, for functions that return `(T, error)` and change nothing when they fail.
use mathlib.Core.Path.{◌≡◌, refl}
use mathlib.Core.Bool.{Bool, true, false}
use native.Mathlib.Omega.{arith}

pub data Result (E A : Type 0) : Type 0 where
  ok : A → Result E A
  err : E → Result E A

infixl 5 ◌>>=◌ ◌>>◌
abbrev pub ◌>>=◌ : {E A B : Type 0} → Result E A → (A → Result E B) → Result E B
ok a >>= f = f a
err e >>= f = err e

abbrev pub ◌>>◌ : {E B : Type 0} → Result E (Unit {0}) → Result E B → Result E B
m >> k = m >>= λ _. k

-- `if b { return e }`
abbrev pub refuse : {E : Type 0} → Bool → E → Result E (Unit {0})
refuse true e = err e
refuse false e = ok tt

-- A chain that succeeds, taken apart step by step.
pub >>=-from-ok {ℓ} :
    {E A B : Type 0} {P : Type ℓ} (m : Result E A) (f : A → Result E B) {b : B}
    → (m >>= f) ≡ ok b
    → ((a : A) → m ≡ ok a → f a ≡ ok b → P)
    → P
>>=-from-ok (ok a) f h k = k a refl h
>>=-from-ok (err e) f h k = absurd (cc)

pub refuse-eq-ok : {E : Type 0} (b : Bool) (e : E) {u : Unit {0}} → refuse b e ≡ ok u → b ≡ false
refuse-eq-ok b e h = ground arith

pub ok-injective : {E A : Type 0} {a b : A} → ◌≡◌ {A = Result E A} (ok a) (ok b) → a ≡ b
ok-injective h = ground arith

-- What holds of the value of a result, if it has one.
abbrev pub Gives {ℓ} : {E A : Type 0} → (A → Type ℓ) → Result E A → Type ℓ
Gives Q r = (a : _) → r ≡ ok a → Q a

pub Gives-bind {ℓ} :
    {E A B : Type 0} (Q : B → Type ℓ) (m : Result E A) (f : A → Result E B)
    → ((a : A) → m ≡ ok a → Gives Q (f a))
    → Gives Q (m >>= f)
Gives-bind Q m f k b h = >>=-from-ok m f h λ a e h'. k a e b h'
