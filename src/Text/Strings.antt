-- ===== src/Text/Strings.antt =====
-- What the program uses of Go's `strings` and `unicode`.
use mathlib.Core.List.{reverse, flatten}
use memory.Prelude.{
  ℕ, zero, suc, ◌-◌, ◌≡◌, refl, Bool, true, false, not, ◌&&◌, ◌||◌, List, [], ◌∷◌, ◌++◌, map, leb,
  nat_eq, if◌then◌else◌, take,
}
use memory.Text.Bytes.{Str, str_eq, bytes}
use memory.Text.Utf8.{decode_rune}

-- `unicode.IsSpace`.
unfoldable pub is_space : ℕ → Bool
is_space r =
    (leb 9 r && leb r 13)
    || nat_eq r 0x20
    || nat_eq r 0x85
    || nat_eq r 0xa0
    || nat_eq r 0x1680
    || (leb 0x2000 r && leb r 0x200a)
    || nat_eq r 0x2028
    || nat_eq r 0x2029
    || nat_eq r 0x202f
    || nat_eq r 0x205f
    || nat_eq r 0x3000

-- `unicode.IsControl`.
unfoldable pub is_control : ℕ → Bool
is_control r = leb r 0x1f || (leb 0x7f r && leb r 0x9f)

-- The runes of a string, each with the bytes that it was read from.
unfoldable pub segments_from : ℕ → Str → List (ℕ × Str)
segments_from skip [] = []
segments_from (suc skip) (a ∷ rest) = segments_from skip rest
segments_from zero (a ∷ rest) =
    let (r, w) = decode_rune a rest in (r, a ∷ take (w - 1) rest) ∷ segments_from (w - 1) rest

unfoldable pub drop_space : List (ℕ × Str) → List (ℕ × Str)
drop_space [] = []
drop_space ((r, b) ∷ rest) =
    let dropped = drop_space rest in if is_space r then dropped else (r, b) ∷ rest

-- `strings.TrimSpace`.
unfoldable pub trim_space : Str → Str
unfolding segments_from drop_space decode_rune is_space
trim_space s =
    flatten (map (λ p. p.1) (reverse (drop_space (reverse (drop_space (segments_from 0 s))))))

-- `strings.ContainsAny`, over ASCII characters.
unfoldable pub contains_any : Str → Str → Bool
contains_any [] chars = false
contains_any (x ∷ xs) chars = has chars || contains_any xs chars
  where
    has : Str → Bool
    has [] = false
    has (c ∷ cs) = nat_eq c x || has cs

unfoldable pub has_prefix : Str → Str → Bool
has_prefix s [] = true
has_prefix [] (y ∷ ys) = false
has_prefix (x ∷ xs) (y ∷ ys) = nat_eq x y && has_prefix xs ys

-- `strings.Contains`.
unfoldable pub contains_str : Str → Str → Bool
unfolding has_prefix
contains_str [] sub = str_eq sub []
contains_str (x ∷ xs) sub = has_prefix (x ∷ xs) sub || contains_str xs sub

-- The loop of `strings.Fields`: the word that is being read, and the words read.
fields_loop : Str → List (ℕ × Str) → List Str
fields_loop [] [] = []
fields_loop (c ∷ word) [] = (c ∷ word) ∷ []
fields_loop word ((r, b) ∷ rest) =
    let next = fields_loop (if is_space r then [] else word ++ b) rest in
    if is_space r && not (str_eq word []) then word ∷ next else next

-- `strings.Fields`.
unfoldable pub fields : Str → List Str
unfolding fields_loop segments_from decode_rune is_space
fields s = fields_loop [] (segments_from 0 s)

trim_example : trim_space (bytes "  a b ") ≡ bytes "a b"
unfolding trim_space flatten
trim_example = refl

fields_example : fields (bytes "  tea or  coffee ") ≡ bytes "tea" ∷ bytes "or" ∷ bytes "coffee" ∷ []
unfolding fields str_eq
fields_example = refl

contains_example : contains_str (bytes "black tea") (bytes "tea") ≡ true
unfolding contains_str
contains_example = refl
