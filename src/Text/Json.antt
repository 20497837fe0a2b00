-- ===== src/Text/Json.antt =====
-- The length of what Go's `encoding/json` writes for strings and lists of strings.
use memory.Prelude.{
  ℕ, zero, suc, ◌+◌, ◌-◌, ◌≡◌, refl, ◌&&◌, ◌||◌, List, [], ◌∷◌, ltb, nat_eq, if◌then◌else◌,
}
use memory.Text.Bytes.{Str, bytes}
use memory.Text.Utf8.{decode_rune, rune_error}

-- The bytes written for one rune that was read with width `w`: `\"` and the like take two, `\u003c`
-- and the like six; U+2028, U+2029 and invalid bytes are escaped too.
unfoldable pub escaped_size : ℕ → ℕ → ℕ
escaped_size r w =
    if ltb r 0x80
    then (if nat_eq r 0x22
          || nat_eq r 0x5c
          || nat_eq r 8
          || nat_eq r 12
          || nat_eq r 10
          || nat_eq r 13
          || nat_eq r 9
        then 2
        else if ltb r 0x20 || nat_eq r 0x3c || nat_eq r 0x3e || nat_eq r 0x26
        then 6
        else 1)
    else if (nat_eq r rune_error && nat_eq w 1) || nat_eq r 0x2028 || nat_eq r 0x2029
    then 6
    else w

unfoldable pub escaped_from : ℕ → Str → ℕ
escaped_from skip [] = 0
escaped_from (suc skip) (a ∷ rest) = escaped_from skip rest
escaped_from zero (a ∷ rest) =
    escaped_size (decode_rune a rest).0 (decode_rune a rest).1
    + escaped_from ((decode_rune a rest).1 - 1) rest

-- `len(json.Marshal(s))` for a string.
unfoldable pub string_size : Str → ℕ
unfolding escaped_from
string_size s = escaped_from 0 s + 2

-- A list's elements with the commas between them.
unfoldable pub elements_size : List Str → ℕ
elements_size [] = 0
elements_size (s ∷ []) = string_size s
elements_size (s ∷ t ∷ rest) = string_size s + 1 + elements_size (t ∷ rest)

size_example : string_size (bytes "a<b") ≡ 10
unfolding string_size decode_rune escaped_size
size_example = refl
