-- ===== src/Text/Base64.antt =====
-- `base64.RawURLEncoding.EncodeToString`.
use memory.Prelude.{ℕ, ◌+◌, ◌-◌, ◌*◌, ◌/◌, ◌%◌, ◌≡◌, refl, [], ◌∷◌, ltb, nat_eq, if◌then◌else◌}
use memory.Text.Bytes.{Str, bytes}

-- The character for a value below 64.
unfoldable pub symbol : ℕ → ℕ
symbol v =
    if ltb v 26
    then b'A' + v
    else if ltb v 52
    then b'a' + (v - 26)
    else if ltb v 62
    then b'0' + (v - 52)
    else if nat_eq v 62
    then b'-'
    else b'_'

unfoldable pub base64_url : Str → Str
unfolding symbol
base64_url [] = []
base64_url (a ∷ []) = symbol (a / 4) ∷ symbol (a % 4 * 16) ∷ []
base64_url (a ∷ b ∷ []) = symbol (a / 4) ∷ symbol (a % 4 * 16 + b / 16) ∷ symbol (b % 16 * 4) ∷ []
base64_url (a ∷ b ∷ c ∷ rest) =
    symbol (a / 4)
    ∷ symbol (a % 4 * 16 + b / 16)
    ∷ symbol (b % 16 * 4 + c / 64)
    ∷ symbol (c % 64)
    ∷ base64_url rest

base64_example : base64_url (bytes "Mango") ≡ bytes "TWFuZ28"
unfolding base64_url
base64_example = refl
