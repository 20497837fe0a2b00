-- ===== src/Prelude/Unique.antt =====
-- Loops that refuse a repeated element by the elements they have seen.
use memory.Prelude.{
  ◌≡◌, sym, ap, ◌∙◌, arith, true, false, List, [], ◌∷◌, inl, inr, Eq, ◌==◌, ==_iff, ==_refl,
  Bool-cases, contains, Distinct,
}

module _ {ℓ} {A : Type ℓ} ⦃e : Eq A⦄ where
  -- What remains of a loop: its elements are distinct, and none was seen.
  abbrev pub Fresh : List A → List A → Type ℓ
  Fresh xs seen = Distinct xs × ((y : A) → contains xs y ≡ true → contains seen y ≡ false)

  pub Fresh-nil : (seen : List A) → Fresh [] seen
  unfolding contains
  Fresh-nil seen = (tt, λ y h. absurd (cc (h)))

  pub Fresh-cons :
      (x : A) (xs seen : List A)
      → contains seen x ≡ false
      → Fresh xs (x ∷ seen)
      → Fresh (x ∷ xs) seen
  unfolding contains
  Fresh-cons x xs seen new rest = ((here, rest.0), there)
    where
      here : contains xs x ≡ false
      here = elim (Bool-cases (contains xs x)) [
        | inl h ↦ absurd (ground (arith, rest.1 x h, ==_refl x))
        | inr h ↦ h
      ]

      there : (y : A) → contains (x ∷ xs) y ≡ true → contains seen y ≡ false
      there y h = elim (Bool-cases (x == y)) [
        | inl same ↦ ap (contains seen) (sym ((==_iff x y).0 same)) ∙ new
        | inr other ↦ ground (arith, rest.1 y, other, h)
      ]

  pub Fresh-tail : (x : A) (xs seen : List A) → Fresh xs (x ∷ seen) → Fresh xs seen
  unfolding contains
  Fresh-tail x xs seen rest = (rest.0, λ y h. ground (arith, rest.1 y h))
