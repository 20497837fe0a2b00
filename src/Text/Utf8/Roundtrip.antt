-- ===== src/Text/Utf8/Roundtrip.antt =====
-- Decoding what was encoded gives the runes back.
use memory.Prelude.{
  ℕ, zero, suc, ◌+◌, ◌-◌, ◌/◌, ◌%◌, ◌≤◌, ◌<◌, ◌≡◌, refl, true, List, [], ◌∷◌, ◌++◌, arith, ltb,
  if◌then◌else◌, All, Bool-cases, inl, inr, length,
}
use memory.Text.Bytes.{Str}
use memory.Text.Utf8.{decode_rune, runes_from, is_scalar, encode_rune, encode}

-- The width of a scalar value in UTF-8.
unfoldable pub width : ℕ → ℕ
width r = if ltb r 0x80 then 1 else if ltb r 0x800 then 2 else if ltb r 0x10000 then 3 else 4

decode_two-encode :
    (r : ℕ) (rest : Str)
    → 0x80 ≤ r
    → r < 0x800
    → decode_rune (0xc0 + r / 64) ((0x80 + r % 64) ∷ rest) ≡ (r, 2)
unfolding decode_rune
decode_two-encode r rest lo hi = ground arith

decode_three-encode :
    (r : ℕ) (rest : Str)
    → 0x800 ≤ r
    → r < 0x10000
    → is_scalar r ≡ true
    → decode_rune (0xe0 + r / 4096) ((0x80 + r / 64 % 64) ∷ (0x80 + r % 64) ∷ rest) ≡ (r, 3)
unfolding decode_rune
decode_three-encode r rest lo hi s = ground arith

decode_four-encode :
    (r : ℕ) (rest : Str)
    → 0x10000 ≤ r
    → r < 0x110000
    → decode_rune
        (0xf0 + r / 262144)
        ((0x80 + r / 4096 % 64) ∷ (0x80 + r / 64 % 64) ∷ (0x80 + r % 64) ∷ rest)
      ≡ (r, 4)
unfolding decode_rune
decode_four-encode r rest lo hi = ground arith

-- What a scalar value is encoded as: a first byte and a tail from which it is decoded again.
pub record Encoded (r : ℕ) : Type 0 where
  pub first : ℕ
  pub tail : Str
  pub bytes_eq : encode_rune r ≡ first ∷ tail
  pub decoded : (s : Str) → decode_rune first (tail ++ s) ≡ (r, width r)
  pub tail_length : length tail ≡ width r - 1

pub encode_rune-Encoded : (r : ℕ) → is_scalar r ≡ true → Encoded r
unfolding encode_rune width
encode_rune-Encoded r s = elim (Bool-cases (ltb r 0x80)) [
  | inl a ↦ record {
    first = r;
    tail = [];
    bytes_eq = rw (s, a);
    decoded = λ t. unfold decode_rune in rw a;
    tail_length = rw a;
  }
  | inr a ↦ elim (Bool-cases (ltb r 0x800)) [
    | inl b ↦ record {
      first = 0xc0 + r / 64;
      tail = (0x80 + r % 64) ∷ [];
      bytes_eq = rw (s, a, b);
      decoded = λ t. rw (a, b) (decode_two-encode r t (ground arith) (ground arith));
      tail_length = rw (a, b);
    }
    | inr b ↦ elim (Bool-cases (ltb r 0x10000)) [
      | inl c ↦ record {
        first = 0xe0 + r / 4096;
        tail = (0x80 + r / 64 % 64) ∷ (0x80 + r % 64) ∷ [];
        bytes_eq = rw (s, a, b, c);
        decoded = λ t. rw (a, b, c) (decode_three-encode r t (ground arith) (ground arith) s);
        tail_length = rw (a, b, c);
      }
      | inr c ↦ record {
        first = 0xf0 + r / 262144;
        tail = (0x80 + r / 4096 % 64) ∷ (0x80 + r / 64 % 64) ∷ (0x80 + r % 64) ∷ [];
        bytes_eq = rw (s, a, b, c);
        decoded = λ t. rw (a, b, c) (decode_four-encode r t (ground arith) (ground arith));
        tail_length = rw (a, b, c);
      }
    ]
  ]
]

runes_from-skip : (t s : Str) → runes_from (length t) (t ++ s) ≡ runes_from 0 s
unfolding runes_from
runes_from-skip [] s = refl
runes_from-skip (x ∷ t) s = runes_from-skip t s

-- The first rune of a string that begins with an encoded rune.
pub runes-encode_rune :
    (r : ℕ) (s : Str) → is_scalar r ≡ true → runes_from 0 (encode_rune r ++ s) ≡ r ∷ runes_from 0 s
unfolding runes_from
runes-encode_rune r s h =
    let e = encode_rune-Encoded r h in
    rw (e.bytes_eq, e.decoded s, ← e.tail_length, runes_from-skip e.tail s)

abbrev pub AreScalar : List ℕ → Type 0
AreScalar = All (λ r. is_scalar r ≡ true)

-- `[]rune(string(rs))` is `rs`.
pub runes-encode : (rs : List ℕ) → AreScalar rs → runes_from 0 (encode rs) ≡ rs
unfolding encode runes_from
runes-encode [] h = refl
runes-encode (r ∷ rs) h = rw (runes-encode_rune r (encode rs) h.0, runes-encode rs h.1)

decode_rune-scalar : (a : ℕ) (s : Str) → is_scalar (decode_rune a s).0 ≡ true
unfolding decode_rune
decode_rune-scalar a [] = ground arith
decode_rune-scalar a (b ∷ []) = ground arith
decode_rune-scalar a (b ∷ c ∷ []) = ground arith
decode_rune-scalar a (b ∷ c ∷ d ∷ s) = ground arith

-- Decoding yields scalar values only, whatever the bytes.
pub runes-AreScalar : (skip : ℕ) (s : Str) → AreScalar (runes_from skip s)
unfolding runes_from
runes-AreScalar skip [] = tt
runes-AreScalar (suc skip) (a ∷ s) = runes-AreScalar skip s
runes-AreScalar zero (a ∷ s) = (decode_rune-scalar a s, runes-AreScalar ((decode_rune a s).1 - 1) s)
