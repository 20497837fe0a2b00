-- ===== src/Text/Utf8.antt =====
-- `unicode/utf8`: decoding as in `DecodeRuneInString`, `[]rune(s)`, `string(runes)`, `ValidString`.
pub mod Roundtrip
use memory.Prelude.{
  ℕ, zero, suc, ◌+◌, ◌-◌, ◌*◌, ◌/◌, ◌%◌, ◌≡◌, refl, Bool, true, not, ◌&&◌, ◌||◌, List, [], ◌∷◌,
  ◌++◌, ltb, leb, nat_eq, if◌then◌else◌,
}
use memory.Text.Bytes.{Str}

-- U+FFFD, which stands for a byte that starts no valid sequence.
abbrev pub rune_error : ℕ
rune_error = 0xfffd

abbrev within : ℕ → ℕ → ℕ → Bool
within lo hi b = leb lo b && leb b hi

-- A decoded rune and its width; an invalid byte is `rune_error` with width 1.
abbrev invalid : ℕ × ℕ
invalid = (rune_error, 1)

decode_two : ℕ → Str → ℕ × ℕ
decode_two a [] = invalid
decode_two a (b ∷ _) = if within 0x80 0xbf b then ((a - 0xc0) * 64 + (b - 0x80), 2) else invalid

-- The second byte after 0xe0 and 0xed keeps out overlong forms and surrogates.
decode_three : ℕ → Str → ℕ × ℕ
decode_three a [] = invalid
decode_three a (b ∷ []) = invalid
decode_three a (b ∷ c ∷ _) =
    if within (if nat_eq a 0xe0 then 0xa0 else 0x80) (if nat_eq a 0xed then 0x9f else 0xbf) b
      && within 0x80 0xbf c
    then ((a - 0xe0) * 4096 + (b - 0x80) * 64 + (c - 0x80), 3)
    else invalid

-- The second byte after 0xf0 and 0xf4 keeps out overlong forms and what lies above U+10FFFF.
decode_four : ℕ → Str → ℕ × ℕ
decode_four a [] = invalid
decode_four a (b ∷ []) = invalid
decode_four a (b ∷ c ∷ []) = invalid
decode_four a (b ∷ c ∷ d ∷ _) =
    if within (if nat_eq a 0xf0 then 0x90 else 0x80) (if nat_eq a 0xf4 then 0x8f else 0xbf) b
      && (within 0x80 0xbf c && within 0x80 0xbf d)
    then ((a - 0xf0) * 262144 + (b - 0x80) * 4096 + (c - 0x80) * 64 + (d - 0x80), 4)
    else invalid

-- The first rune of the string `a ∷ rest`.
unfoldable pub decode_rune : ℕ → Str → ℕ × ℕ
unfolding decode_two decode_three decode_four
decode_rune a rest =
    if ltb a 0x80
    then (a, 1)
    else if ltb a 0xc2
    then invalid
    else if ltb a 0xe0
    then decode_two a rest
    else if ltb a 0xf0
    then decode_three a rest
    else if ltb a 0xf5
    then decode_four a rest
    else invalid

-- `[]rune(s)`: `skip` bytes belong to the rune before.
unfoldable pub runes_from : ℕ → Str → List ℕ
runes_from skip [] = []
runes_from (suc skip) (a ∷ rest) = runes_from skip rest
runes_from zero (a ∷ rest) = (decode_rune a rest).0 ∷ runes_from ((decode_rune a rest).1 - 1) rest

abbrev pub runes : Str → List ℕ
runes = runes_from 0

-- `utf8.ValidString`.
unfoldable pub valid_from : ℕ → Str → Bool
valid_from skip [] = true
valid_from (suc skip) (a ∷ rest) = valid_from skip rest
valid_from zero (a ∷ rest) =
    let (r, w) = decode_rune a rest in
    not (nat_eq r rune_error && nat_eq w 1) && valid_from (w - 1) rest

abbrev pub valid_string : Str → Bool
valid_string = valid_from 0

-- A rune that UTF-8 encodes as itself.
abbrev pub is_scalar : ℕ → Bool
is_scalar r = ltb r 0xd800 || (ltb 0xdfff r && ltb r 0x110000)

unfoldable pub encode_scalar : ℕ → Str
encode_scalar r =
    if ltb r 0x80
    then r ∷ []
    else if ltb r 0x800
    then (0xc0 + r / 64) ∷ (0x80 + r % 64) ∷ []
    else if ltb r 0x10000
    then (0xe0 + r / 4096) ∷ (0x80 + r / 64 % 64) ∷ (0x80 + r % 64) ∷ []
    else (0xf0 + r / 262144) ∷ (0x80 + r / 4096 % 64) ∷ (0x80 + r / 64 % 64) ∷ (0x80 + r % 64) ∷ []

-- `string(rune)` writes U+FFFD for what is no scalar value.
unfoldable pub encode_rune : ℕ → Str
unfolding encode_scalar
encode_rune r = encode_scalar (if is_scalar r then r else rune_error)

unfoldable pub encode : List ℕ → Str
encode [] = []
encode (r ∷ rs) = encode_rune r ++ encode rs

-- The euro sign, an emoji, a lone continuation byte and a surrogate.
decode_examples :
    runes (0xe2 ∷ 0x82 ∷ 0xac ∷ 0xf0 ∷ 0x9f ∷ 0x98 ∷ 0x80 ∷ 0x82 ∷ 0xed ∷ 0xa0 ∷ 0x80 ∷ [])
    ≡ 0x20ac ∷ 0x1f600 ∷ rune_error ∷ rune_error ∷ rune_error ∷ rune_error ∷ []
unfolding runes_from decode_rune
decode_examples = refl

encode_examples :
    encode (0x20ac ∷ 0x1f600 ∷ []) ≡ 0xe2 ∷ 0x82 ∷ 0xac ∷ 0xf0 ∷ 0x9f ∷ 0x98 ∷ 0x80 ∷ []
unfolding encode encode_rune
encode_examples = refl
