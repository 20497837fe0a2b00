-- ===== src/Text/Bytes.antt =====
-- A Go string as its bytes: `==` and the bytewise `<`.
use Prim.Native.Char.{code}
use Prim.Native.String.{String}
use memory.Prelude.{
  ℕ, ◌≡◌, refl, ◌↔◌, Bool, true, false, ◌&&◌, List, [], ◌∷◌, arith, ltb, nat_eq, Eq, if◌then◌else◌,
}

abbrev pub Str : Type 0
Str = List ℕ

-- The bytes of a text literal, which is ASCII.
abbrev pub bytes : String → Str
bytes String.[] = []
bytes (String.◌∷◌ c s) = code c ∷ bytes s

unfoldable pub str_eq : Str → Str → Bool
str_eq [] [] = true
str_eq [] (y ∷ ys) = false
str_eq (x ∷ xs) [] = false
str_eq (x ∷ xs) (y ∷ ys) = nat_eq x y && str_eq xs ys

pub str_eq_iff : (a b : Str) → (str_eq a b ≡ true) ↔ (a ≡ b)
unfolding str_eq
str_eq_iff [] [] = ground arith
str_eq_iff [] (y ∷ ys) = ground arith
str_eq_iff (x ∷ xs) [] = ground arith
str_eq_iff (x ∷ xs) (y ∷ ys) = ground (arith, str_eq_iff xs ys)

instance abbrev pub Str-eq : Eq Str
Str-eq = record { equals = str_eq; equals_iff = str_eq_iff }

-- Go's `a < b` on strings.
unfoldable pub str_lt : Str → Str → Bool
str_lt [] [] = false
str_lt [] (y ∷ ys) = true
str_lt (x ∷ xs) [] = false
str_lt (x ∷ xs) (y ∷ ys) =
    let rest = str_lt xs ys in if ltb x y then true else if ltb y x then false else rest

pub str_lt_irrefl : (a : Str) → str_lt a a ≡ false
unfolding str_lt
str_lt_irrefl [] = refl
str_lt_irrefl (x ∷ xs) = ground (arith, str_lt_irrefl xs)

pub str_lt_trans : (a b c : Str) → str_lt a b ≡ true → str_lt b c ≡ true → str_lt a c ≡ true
unfolding str_lt
str_lt_trans [] [] c h k = ground arith
str_lt_trans [] (y ∷ ys) [] h k = ground arith
str_lt_trans [] (y ∷ ys) (z ∷ zs) h k = refl
str_lt_trans (x ∷ xs) [] c h k = ground arith
str_lt_trans (x ∷ xs) (y ∷ ys) [] h k = ground arith
str_lt_trans (x ∷ xs) (y ∷ ys) (z ∷ zs) h k = ground (arith, str_lt_trans xs ys zs)

pub str_lt_total : (a b : Str) → str_lt a b ≡ false → str_lt b a ≡ false → a ≡ b
unfolding str_lt
str_lt_total [] [] h k = refl
str_lt_total [] (y ∷ ys) h k = ground arith
str_lt_total (x ∷ xs) [] h k = ground arith
str_lt_total (x ∷ xs) (y ∷ ys) h k = ground (arith, str_lt_total xs ys)
