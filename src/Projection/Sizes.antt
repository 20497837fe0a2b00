-- ===== src/Projection/Sizes.antt =====
-- The projected size of a prefix of runes grows with the prefix.
use memory.Prelude.{
  ℕ, zero, suc, ◌+◌, ◌≤◌, ◌≡◌, refl, ap, true, List, [], ◌∷◌, ◌++◌, arith, length, take, ◌⊎◌, inl,
  inr,
}
use memory.Text.Bytes.{Str}
use memory.Text.Utf8.{is_scalar, encode, encode_rune}
use memory.Text.Utf8.Roundtrip.{width, encode_rune-Encoded, AreScalar}
use memory.Text.Json.{escaped_size, escaped_from, string_size, elements_size}
use memory.Projection.{projected_size}

escaped_from-skip : (t s : Str) → escaped_from (length t) (t ++ s) ≡ escaped_from 0 s
unfolding escaped_from
escaped_from-skip [] s = refl
escaped_from-skip (x ∷ t) s = escaped_from-skip t s

escaped-encode_rune :
    (r : ℕ) (s : Str)
    → is_scalar r ≡ true
    → escaped_from 0 (encode_rune r ++ s) ≡ escaped_size r (width r) + escaped_from 0 s
unfolding escaped_from
escaped-encode_rune r s h =
    let e = encode_rune-Encoded r h in
    rw (e.bytes_eq, e.decoded s, ← e.tail_length, escaped_from-skip e.tail s)

escaped-take-le :
    (m n : ℕ) (rs : List ℕ)
    → AreScalar rs
    → m ≤ n
    → escaped_from 0 (encode (take m rs)) ≤ escaped_from 0 (encode (take n rs))
unfolding encode
escaped-take-le zero n rs h le = unfold escaped_from in omega arith
escaped-take-le (suc m) zero rs h le = absurd (omega arith)
escaped-take-le (suc m) (suc n) [] h le = omega arith
escaped-take-le (suc m) (suc n) (r ∷ rs) h le =
    rw (escaped-encode_rune r (encode (take m rs)) h.0) (
      rw (escaped-encode_rune r (encode (take n rs)) h.0)
        (omega (arith, escaped-take-le m n rs h.1 (omega arith))))

elements_size-snoc-le :
    (xs : List Str) (s t : Str)
    → string_size s ≤ string_size t
    → elements_size (xs ++ s ∷ []) ≤ elements_size (xs ++ t ∷ [])
unfolding elements_size
elements_size-snoc-le [] s t h = h
elements_size-snoc-le (x ∷ []) s t h = omega arith
elements_size-snoc-le (x ∷ y ∷ xs) s t h = omega (arith, elements_size-snoc-le (y ∷ xs) s t h)

elements_size-le-snoc : (xs : List Str) (t : Str) → elements_size xs ≤ elements_size (xs ++ t ∷ [])
unfolding elements_size
elements_size-le-snoc [] t = omega arith
elements_size-le-snoc (x ∷ []) t = omega arith
elements_size-le-snoc (x ∷ y ∷ xs) t = omega (arith, elements_size-le-snoc (y ∷ xs) t)

-- A string that is written no longer makes no longer a projection.
projected_size-le :
    (existing : List Str) (s t : Str)
    → ((s ≡ []) ⊎ ((c : ℕ) × (u : Str) × (t ≡ c ∷ u)))
    → string_size s ≤ string_size t
    → projected_size existing s ≤ projected_size existing t
unfolding projected_size
projected_size-le existing [] [] e h = omega arith
projected_size-le existing [] (c ∷ t) e h = omega (arith, elements_size-le-snoc existing (c ∷ t))
projected_size-le existing (b ∷ s) [] (inl e) h = absurd (cc)
projected_size-le existing (b ∷ s) [] (inr (c, u, e)) h = absurd (cc)
projected_size-le existing (b ∷ s) (c ∷ t) e h =
    omega (arith, elements_size-snoc-le existing (b ∷ s) (c ∷ t) h)

encode-take-shape :
    (m n : ℕ) (rs : List ℕ)
    → AreScalar rs
    → m ≤ n
    → (encode (take m rs) ≡ []) ⊎ ((c : ℕ) × (u : Str) × (encode (take n rs) ≡ c ∷ u))
unfolding encode
encode-take-shape zero n rs h le = inl refl
encode-take-shape (suc m) zero rs h le = absurd (omega arith)
encode-take-shape (suc m) (suc n) [] h le = inl refl
encode-take-shape (suc m) (suc n) (r ∷ rs) h le =
    let e = encode_rune-Encoded r h.0 in
    inr (e.first, e.tail ++ encode (take n rs), ap (λ p. p ++ encode (take n rs)) e.bytes_eq)

-- Beside any fragments, the projected size of a prefix of a text's runes is at most that of a
-- longer prefix, where the runes are Unicode scalar values.
pub projected_size-take-le :
    (existing : List Str) (rs : List ℕ) (m n : ℕ)
    → AreScalar rs
    → m ≤ n
    → projected_size existing (encode (take m rs)) ≤ projected_size existing (encode (take n rs))
projected_size-take-le existing rs m n h le =
    projected_size-le existing _ _ (encode-take-shape m n rs h le)
      (unfold string_size in omega (arith, escaped-take-le m n rs h le))
