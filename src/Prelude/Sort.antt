-- ===== src/Prelude/Sort.antt =====
-- Go's `slices.Sort` and `sort.Slice`, for a comparison that is a strict total order: the result
-- is then one list, whatever the algorithm.
use mathlib.Core.List.{Perm, Permᴰ}
use mathlib.Core.List.Perm
use memory.Prelude.Tests.{if◌then◌else◌, Bool-cases}
use memory.Prelude.Lists.{All, All-map}
use mathlib.Core.Path.{◌≡◌, refl, ◌∙◌}
use mathlib.Core.Logic.{inl, inr, ∥∥₁_elim}
use mathlib.Core.Bool.{Bool, true, false}
use mathlib.Core.List.{List, [], ◌∷◌}
use native.Mathlib.Omega.{arith}

module _ {ℓ} {A : Type ℓ} (less : A → A → Bool) where
  unfoldable pub insert : A → List A → List A
  insert a [] = a ∷ []
  insert a (x ∷ xs) = let rest = insert a xs in if less x a then x ∷ rest else a ∷ x ∷ xs

  unfoldable pub sort : List A → List A
  unfolding insert
  sort [] = []
  sort (x ∷ xs) = insert x (sort xs)

  insert-perm : (a : A) (xs : List A) → Perm (insert a xs) (a ∷ xs)
  unfolding insert
  insert-perm a [] = Perm.refl (a ∷ [])
  insert-perm a (x ∷ xs) = elim (Bool-cases (less x a)) [
    | inl h ↦ rw h (Perm.trans (Perm.cons x (insert-perm a xs)) (Perm.swap a x xs))
    | inr h ↦ rw h (Perm.refl _)
  ]

  -- Sorting loses no element and makes none up.
  pub sort-perm : (xs : List A) → Perm (sort xs) xs
  unfolding sort
  sort-perm [] = Perm.refl []
  sort-perm (x ∷ xs) = Perm.trans (insert-perm x (sort xs)) (Perm.cons x (sort-perm xs))

-- A strict total order.
pub record StrictOrder {ℓ} {A : Type ℓ} (less : A → A → Bool) : Type ℓ where
  pub irrefl : (a : A) → less a a ≡ false
  pub trans : (a b c : A) → less a b ≡ true → less b c ≡ true → less a c ≡ true
  pub total : (a b : A) → less a b ≡ false → less b a ≡ false → a ≡ b

-- No element is less than one that stands left of it.
abbrev pub IsSorted {ℓ} : {A : Type ℓ} → (A → A → Bool) → List A → Type 0
IsSorted less [] = Unit {0}
IsSorted less (x ∷ xs) = All (λ y. less y x ≡ false) xs × IsSorted less xs

module _ {ℓ} {A : Type ℓ} (less : A → A → Bool) (o : StrictOrder less) where
  asym : (a b : A) → less a b ≡ true → less b a ≡ false
  asym a b h = elim (Bool-cases (less b a)) [
    | inl k ↦ absurd (cc (o.irrefl a, o.trans a b a h k))
    | inr k ↦ k
  ]

  All-insert : (P : A → Type 0) (a : A) (xs : List A) → P a → All P xs → All P (insert less a xs)
  unfolding insert
  All-insert P a [] pa h = (pa, tt)
  All-insert P a (x ∷ xs) pa h = elim (Bool-cases (less x a)) [
    | inl k ↦ rw k (h.0, All-insert P a xs pa h.1)
    | inr k ↦ rw k (pa, h)
  ]

  -- what is not below `x`, for an `x` not below `a`, is not below `a`
  not_less_trans : (a x y : A) → less x a ≡ false → less y x ≡ false → less y a ≡ false
  not_less_trans a x y h k = elim (Bool-cases (less y a)) [
    | inr n ↦ n
    | inl b ↦ elim (Bool-cases (less a x)) [
      | inl c ↦ absurd (cc (o.trans y a x b c))
      | inr c ↦ absurd (cc (o.total x a h c))
    ]
  ]

  insert-IsSorted : (a : A) (xs : List A) → IsSorted less xs → IsSorted less (insert less a xs)
  unfolding insert
  insert-IsSorted a [] h = (tt, tt)
  insert-IsSorted a (x ∷ xs) h = elim (Bool-cases (less x a)) [
    | inl k ↦ rw k (All-insert _ a xs (asym x a k) h.0, insert-IsSorted a xs h.1)
    | inr k ↦ rw k ((k, All-map (λ y b. not_less_trans a x y k b) xs h.0), h)
  ]

  pub sort-IsSorted : (xs : List A) → IsSorted less (sort less xs)
  unfolding sort
  sort-IsSorted [] = tt
  sort-IsSorted (x ∷ xs) = insert-IsSorted x (sort less xs) (sort-IsSorted xs)

  insert-insert :
      (a b : A) (xs : List A) → insert less a (insert less b xs) ≡ insert less b (insert less a xs)
  unfolding insert
  insert-insert a b [] = ground (arith, o.total a b, asym a b, asym b a)
  insert-insert a b (x ∷ xs) = ground (
    arith,
    o.total a b,
    asym a b,
    asym b a,
    o.trans x a b,
    o.trans x b a,
    not_less_trans a b x,
    not_less_trans b a x,
    insert-insert a b xs,
  )

  sort-Permᴰ : {xs ys : List A} → Permᴰ xs ys → sort less xs ≡ sort less ys
  unfolding sort
  sort-Permᴰ Permᴰ.nil = refl
  sort-Permᴰ (Permᴰ.cons e d) = cc (e, sort-Permᴰ d)
  sort-Permᴰ (Permᴰ.swap {a = a} {b = b} {l = l} e f) = insert-insert a b (sort less l) ∙ cc (e, f)
  sort-Permᴰ (Permᴰ.trans d f) = sort-Permᴰ d ∙ sort-Permᴰ f

  -- The result does not depend on the order of the input.
  pub sort-perm_eq : IsSet (List A) → (xs ys : List A) → Perm xs ys → sort less xs ≡ sort less ys
  sort-perm_eq set xs ys p = ∥∥₁_elim p (set _ _) sort-Permᴰ

  insert-least : (x : A) (xs : List A) → All (λ y. less y x ≡ false) xs → insert less x xs ≡ x ∷ xs
  unfolding insert
  insert-least x [] h = refl
  insert-least x (y ∷ ys) h = rw h.0

  -- A sorted list is left as it is.
  pub sort-id : (xs : List A) → IsSorted less xs → sort less xs ≡ xs
  unfolding sort
  sort-id [] h = refl
  sort-id (x ∷ xs) h = rw (sort-id xs h.1) (insert-least x xs h.0)
