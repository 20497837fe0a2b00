-- ===== src/Projection.antt =====
-- The projection of recalled texts into a byte budget: `fitProjectedText` and
-- `projectedRecallSize`, which internal/reference/server.go and internal/appliance/dataplane.go
-- both hold. Fragments are their texts here.
pub mod Sizes
pub mod Fit
use memory.Prelude.{
  ℕ, zero, suc, ◌+◌, ◌-◌, ◌/◌, ◌≡◌, refl, Bool, true, false, List, [], ◌∷◌, ◌++◌, ltb, leb,
  if◌then◌else◌, length, take,
}
use memory.Text.Bytes.{Str, str_eq, bytes}
use memory.Text.Utf8.{runes, runes_from, decode_rune, encode, encode_rune}
use memory.Text.Json.{string_size, elements_size, escaped_size}

-- `append(fragments, next)`, unless `next` is empty.
abbrev pub with_next : List Str → Str → List Str
with_next existing [] = existing
with_next existing (c ∷ next) = existing ++ (c ∷ next) ∷ []

-- The length of `{"fragments":[…]}`.
unfoldable pub projected_size : List Str → Str → ℕ
projected_size existing next = 16 + elements_size (with_next existing next)

-- The binary search over the number of runes. `upper` is the source's `high + 1`, so that the
-- `high = -1` after a refused empty prefix needs no negative number.
unfoldable pub fit_loop : ℕ → List Str → List ℕ → ℕ → ℕ → ℕ → Str → Str
fit_loop zero existing rs max_bytes low upper best = best
fit_loop (suc fuel) existing rs max_bytes low upper best =
    let middle = low + (upper - 1 - low) / 2 in
    let candidate = encode (take middle rs) in
    let fits = leb (projected_size existing candidate) max_bytes in
    let rest =
      fit_loop fuel existing rs max_bytes (if fits then middle + 1 else low)
        (if fits then upper else middle) (if fits then candidate else best) in
    if ltb low upper then rest else best

-- The text that is kept, whether it was cut, and whether anything was kept.
unfoldable pub fit_projected_text : List Str → Str → ℕ → Str × Bool × Bool
fit_projected_text existing value max_bytes =
    if leb (projected_size existing value) max_bytes
    then (value, false, true)
    else let rs = runes value in
      let best = fit_loop (length rs + 1) existing rs max_bytes 0 (length rs + 1) [] in
      if str_eq best [] then ([], true, false) else (best, true, true)

fit_example : fit_projected_text (bytes "tea" ∷ []) (bytes "coffee") 27 ≡ (bytes "cof", true, true)
unfolding fit_projected_text fit_loop projected_size string_size elements_size escaped_size
    runes_from decode_rune encode encode_rune str_eq
fit_example = refl
