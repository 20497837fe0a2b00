-- ===== src/Projection/Fit.antt =====
-- The binary search keeps the longest prefix that fits.
use memory.Prelude.{
  ℕ, zero, suc, ◌+◌, ◌-◌, ◌/◌, ◌≤◌, ◌<◌, ◌≡◌, ◌≢◌, refl, ap, sym, ◌∙◌, true, false, List, [], ◌∷◌,
  ◌++◌, arith, length, take, ◌⊎◌, inl, inr, Bool-cases, leb, ltb,
}
use memory.Text.Bytes.{Str, str_eq, str_eq_iff}
use memory.Text.Utf8.{runes, encode}
use memory.Text.Utf8.Roundtrip.{AreScalar, runes-AreScalar, encode_rune-Encoded}
use memory.Projection.{projected_size, fit_loop, fit_projected_text}
use memory.Projection.Sizes.{projected_size-take-le}

-- `best` is the longest prefix of `rs` whose projection fits, or empty if none does.
pub record IsLongest (existing : List Str) (rs : List ℕ) (max_bytes : ℕ) (best : Str) : Type 0 where
  pub count : ℕ
  pub is_prefix : best ≡ encode (take count rs)
  pub count_le : count ≤ length rs
  pub fits : (best ≡ []) ⊎ (projected_size existing best ≤ max_bytes)
  pub beyond :
      (j : ℕ) → count < j → j ≤ length rs → max_bytes < projected_size existing (encode (take j rs))

module _ (existing : List Str) (rs : List ℕ) (max_bytes : ℕ) (scalar : AreScalar rs) where
  prefix_size : ℕ → ℕ
  prefix_size j = projected_size existing (encode (take j rs))

  Found : ℕ → Str → Type 0
  Found low best =
      ((low ≡ 0) × (best ≡ []))
      ⊎ ((k : ℕ) × (low ≡ suc k) × (best ≡ encode (take k rs)) × (prefix_size k ≤ max_bytes))

  finish :
      (low upper : ℕ) (best : Str)
      → upper ≤ low
      → low ≤ length rs + 1
      → Found low best
      → ((j : ℕ) → upper ≤ j → j ≤ length rs → max_bytes < prefix_size j)
      → IsLongest existing rs max_bytes best
  unfolding prefix_size Found encode
  finish low upper best done le (inl (z, e)) past = record {
    count = 0;
    is_prefix = e;
    count_le = omega arith;
    fits = inl e;
    beyond = λ j h k. past j (omega arith) k;
  }
  finish low upper best done le (inr (k, z, e, f)) past = record {
    count = k;
    is_prefix = e;
    count_le = omega arith;
    fits = inr (rw e f);
    beyond = λ j h l. past j (omega arith) l;
  }

  fit_loop-IsLongest :
      (fuel low upper : ℕ) (best : Str)
      → upper ≤ low + fuel
      → upper ≤ length rs + 1
      → low ≤ length rs + 1
      → Found low best
      → ((j : ℕ) → upper ≤ j → j ≤ length rs → max_bytes < prefix_size j)
      → IsLongest existing rs max_bytes (fit_loop fuel existing rs max_bytes low upper best)
  unfolding fit_loop
  fit_loop-IsLongest zero low upper best enough le le' found past =
      finish low upper best (omega arith) le' found past
  fit_loop-IsLongest (suc fuel) low upper best enough le le' found past =
      elim (Bool-cases (ltb low upper)) [
        | inr done ↦ rw done (finish low upper best (ground arith) le' found past)
        | inl more ↦ rw more (
            let m = low + (upper - 1 - low) / 2 in
            let below : m < upper = ground arith in
            elim (Bool-cases (leb (projected_size existing (encode (take m rs))) max_bytes)) [
              | inl ok ↦ rw ok (
                  fit_loop-IsLongest fuel (m + 1) upper (encode (take m rs)) (ground arith) le
                    (ground arith)
                    (unfold Found prefix_size in inr (m, omega arith, refl, ground arith)) past)
              | inr bad ↦ rw bad (
                  fit_loop-IsLongest fuel low m best (ground arith) (omega arith) le' found (
                    unfold prefix_size in
                    λ j h k.
                      let mono : projected_size existing (encode (take m rs))
                          ≤ projected_size existing (encode (take j rs)) =
                        projected_size-take-le existing rs m j scalar h in
                      ground arith))
            ])
      ]

encode-take-nil :
    (k : ℕ) (rs : List ℕ) → AreScalar rs → k ≤ length rs → encode (take k rs) ≡ [] → k ≡ 0
unfolding encode
encode-take-nil zero rs s le e = refl
encode-take-nil (suc k) [] s le e = absurd (omega arith)
encode-take-nil (suc k) (r ∷ rs) s le e =
    let c = encode_rune-Encoded r s.0 in
    absurd (cc (e, ap (λ p. p ++ encode (take k rs)) c.bytes_eq))

-- `fit_projected_text` has one of three outcomes. A text that fits is kept whole. Otherwise the
-- longest prefix of its runes that fits is kept and marked as cut, if it is not empty. Otherwise
-- nothing is kept, and then no prefix of one rune or more fits.
pub fit_projected_text-outcome :
    (existing : List Str) (value : Str) (max_bytes : ℕ)
    → ((fit_projected_text existing value max_bytes ≡ (value, false, true))
        × (projected_size existing value ≤ max_bytes))
      ⊎ ((best : Str) × (fit_projected_text existing value max_bytes ≡ (best, true, true))
          × (best ≢ [])
          × (max_bytes < projected_size existing value)
          × (projected_size existing best ≤ max_bytes)
          × IsLongest existing (runes value) max_bytes best)
      ⊎ ((fit_projected_text existing value max_bytes ≡ ([], true, false))
          × (max_bytes < projected_size existing value)
          × ((j : ℕ)
              → 0 < j
              → j ≤ length (runes value)
              → max_bytes < projected_size existing (encode (take j (runes value)))))
unfolding fit_projected_text
fit_projected_text-outcome existing value max_bytes =
    elim (Bool-cases (leb (projected_size existing value) max_bytes)) [
      | inl whole ↦ inl (rw whole, ground arith)
      | inr over ↦ inr (elim (Bool-cases (str_eq best [])) [
        | inl e ↦ inr (rw (over, e), ground arith, none_fits ((str_eq_iff best []).0 e) longest)
        | inr e ↦ inl (best, rw (over, e), filled e, ground arith, kept e longest.fits, longest)
      ])
    ]
  where
    best : Str
    best =
        fit_loop (length (runes value) + 1) existing (runes value) max_bytes 0
          (length (runes value) + 1) []

    longest : IsLongest existing (runes value) max_bytes best
    longest =
        fit_loop-IsLongest existing (runes value) max_bytes (runes-AreScalar 0 value) _ 0 _ []
          (omega arith) (omega arith) (omega arith) (unfold Found in inl (refl, refl))
          (λ j h k. absurd (omega arith))

    filled : str_eq best [] ≡ false → best ≢ []
    filled e h = cc (e, (str_eq_iff best []).1 h)

    kept :
        str_eq best [] ≡ false
        → ((best ≡ []) ⊎ (projected_size existing best ≤ max_bytes))
        → projected_size existing best ≤ max_bytes
    kept e (inl h) = absurd (cc (e, (str_eq_iff best []).1 h))
    kept e (inr h) = h

    none_fits :
        best ≡ []
        → IsLongest existing (runes value) max_bytes best
        → (j : ℕ) → 0 < j
        → j ≤ length (runes value)
        → max_bytes < projected_size existing (encode (take j (runes value)))
    none_fits e l j h k =
        let z =
          encode-take-nil l.count (runes value) (runes-AreScalar 0 value) l.count_le
            (sym l.is_prefix ∙ e) in
        l.beyond j (omega (arith, z)) k
