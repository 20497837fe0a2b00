-- ===== src/Text/Decimal.antt =====
-- `fmt.Sprintf("%s-%08d", prefix, n)`, read back as its number.
use memory.Prelude.{
  ℕ, zero, suc, Bool, true, false, ◌||◌, nat_eq, ◌+◌, ◌-◌, ◌*◌, ◌/◌, ◌%◌, ◌<◌, ◌≡◌, refl, sym, ap,
  ◌∙◌, [], ◌∷◌, ◌++◌, arith, ltb, if◌then◌else◌, length, Bool-cases, inl, inr,
}
use memory.Text.Bytes.{Str, bytes}

-- The digits of `n` before those of `acc`.
digits : ℕ → ℕ → Str → Str
digits zero n acc = acc
digits (suc fuel) n acc =
    let more = digits fuel (n / 10) ((48 + n % 10) ∷ acc) in
    if ltb n 10 then (48 + n) ∷ acc else more

-- `%d`
unfoldable pub decimal : ℕ → Str
unfolding digits
decimal n = digits (n + 1) n []

zeros : ℕ → Str → Str
zeros zero s = s
zeros (suc k) s = 48 ∷ zeros k s

-- `%08d`
unfoldable pub padded : ℕ → Str
unfolding zeros
padded n = let d = decimal n in zeros (8 - length d) d

unfoldable pub identifier : Str → ℕ → Str
unfolding padded decimal
identifier prefix n = prefix ++ (45 ∷ padded n)

value_from : ℕ → Str → ℕ
value_from acc [] = acc
value_from acc (d ∷ ds) = value_from (acc * 10 + (d - 48)) ds

value-digits :
    (fuel n : ℕ) (acc : Str) → n < fuel → value_from 0 (digits fuel n acc) ≡ value_from n acc
unfolding digits value_from
value-digits zero n acc h = absurd (omega arith)
value-digits (suc fuel) n acc h = elim (Bool-cases (ltb n 10)) [
  | inl small ↦ rw small (ap (λ k. value_from k acc) (omega arith))
  | inr big ↦ rw big (
      value-digits fuel (n / 10) _ (ground arith)
      ∙ unfold value_from in ap (λ k. value_from k acc) (omega arith))
]

value-zeros : (k : ℕ) (s : Str) → value_from 0 (zeros k s) ≡ value_from 0 s
unfolding zeros value_from
value-zeros zero s = refl
value-zeros (suc k) s = value-zeros k s

value-padded : (n : ℕ) → value_from 0 (padded n) ≡ n
unfolding padded decimal
value-padded n =
    value-zeros _ (decimal n)
    ∙ unfold decimal in value-digits (n + 1) n [] (omega arith) ∙ unfold value_from in refl

has_dash : Str → Bool
has_dash [] = false
has_dash (c ∷ s) = nat_eq c 45 || has_dash s

-- What follows the last dash.
after_dash : Str → Str
after_dash [] = []
after_dash (c ∷ s) = let rest = after_dash s in if has_dash s then rest else s

digits-has_dash : (fuel n : ℕ) (acc : Str) → has_dash (digits fuel n acc) ≡ has_dash acc
unfolding digits has_dash
digits-has_dash zero n acc = refl
digits-has_dash (suc fuel) n acc = elim (Bool-cases (ltb n 10)) [
  | inl small ↦ rw small (ground arith)
  | inr big ↦
      rw big (digits-has_dash fuel (n / 10) ((48 + n % 10) ∷ acc) ∙ unfold has_dash in ground arith)
]

zeros-has_dash : (k : ℕ) (s : Str) → has_dash (zeros k s) ≡ has_dash s
unfolding zeros has_dash
zeros-has_dash zero s = refl
zeros-has_dash (suc k) s = zeros-has_dash k s

padded-has_dash : (n : ℕ) → has_dash (padded n) ≡ false
unfolding padded decimal
padded-has_dash n = zeros-has_dash _ (decimal n) ∙ no_dash
  where
    no_dash : has_dash (decimal n) ≡ false
    no_dash = digits-has_dash (n + 1) n [] ∙ unfold has_dash in refl

has_dash-append : (p s : Str) → has_dash (p ++ 45 ∷ s) ≡ true
unfolding has_dash
has_dash-append [] s = refl
has_dash-append (c ∷ p) s = ground (arith, has_dash-append p s)

after_dash-append : (p s : Str) → has_dash s ≡ false → after_dash (p ++ 45 ∷ s) ≡ s
unfolding after_dash
after_dash-append [] s h = rw h refl
after_dash-append (c ∷ p) s h = rw (has_dash-append p s) (after_dash-append p s h)

-- Two identifiers are equal only if their numbers are, whatever the prefixes.
pub identifier-injective : (p q : Str) (m n : ℕ) → identifier p m ≡ identifier q n → m ≡ n
unfolding identifier
identifier-injective p q m n e =
    sym (value-padded m)
    ∙ ap (value_from 0) (
        sym (after_dash-append p (padded m) (padded-has_dash m))
        ∙ ap after_dash e
        ∙ after_dash-append q (padded n) (padded-has_dash n))
    ∙ value-padded n

identifier_example : identifier (bytes "receipt") 42 ≡ bytes "receipt-00000042"
unfolding identifier
identifier_example = refl
