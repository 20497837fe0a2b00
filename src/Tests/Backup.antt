-- ===== src/Tests/Backup.antt =====
-- Runs of the backup format with a cipher that adds one byte, the sum of what it is given.
use memory.Prelude.{
  ℕ, zero, suc, ◌+◌, ◌%◌, ◌≡◌, refl, Option, none, some, true, [], ◌∷◌, ◌++◌, arith, nat_eq,
  if◌then◌else◌, length,
}
use memory.Text.Bytes.{Str, str_eq, bytes}
use memory.Backup.{
  Aead, done, failed, capacity, trailing_bytes, magic, read_full, write_all, put_uint32, uint32,
  nonce_for, associated_data, write_chunk, write_end, encrypt_chunks, encrypt, valid_length,
  open_chunk, read_end, decrypt_chunks, decrypt, new_aead,
}
use memory.Backup.Stream.{IsAead, open_reader, endless}
use memory.Backup.Nonces.{SealedApart, encrypt-SealedApart}
use memory.Backup.Roundtrip.{decrypt-encrypt, decrypt-encrypt_capacity}
use memory.Backup.Truncated.{decrypt_longer}

abbrev sum_of : Str → ℕ
sum_of [] = 0
sum_of (c ∷ cs) = c + sum_of cs

abbrev tag : Str → Str → Str → ℕ
tag nonce plain extra = (sum_of nonce + (sum_of plain + sum_of extra)) % 256

abbrev unseal_sum : Str → Str → Str → Option Str
unseal_sum nonce [] extra = none
unseal_sum nonce (c ∷ plain) extra = if nat_eq c (tag nonce plain extra) then some plain else none

abbrev sum_cipher : Aead
sum_cipher = record {
  nonce_size = 12;
  overhead = 1;
  seal = λ nonce plain extra. tag nonce plain extra ∷ plain;
  unseal = unseal_sum;
}

nat_eq_refl : (n : ℕ) → nat_eq n n ≡ true
nat_eq_refl n = ground arith

sum_cipher-IsAead : IsAead sum_cipher
sum_cipher-IsAead = record {
  unseal_seal = λ nonce plain extra. rw (nat_eq_refl (tag nonce plain extra)) refl;
  length_seal = λ nonce plain extra. omega arith;
  prefix_left = omega arith;
  small_overhead = omega arith;
}

repeat : ℕ → ℕ → Str
repeat zero c = []
repeat (suc n) c = c ∷ repeat n c

length-repeat : (n c : ℕ) → length (repeat n c) ≡ n
unfolding repeat
length-repeat zero c = refl
length-repeat (suc n) c = omega (arith, length-repeat n c)

abbrev test_key : Str
test_key = bytes "0123456789abcdef0123456789abcdef"

abbrev test_gcm : Str → Option Aead
test_gcm key = some sum_cipher

abbrev test_prefix : Str
test_prefix = bytes "noncesis"

abbrev test_file : Str
test_file = magic ++ (test_prefix ++ (0 ∷ 0 ∷ 0 ∷ 4 ∷ 192 ∷ 1 ∷ 2 ∷ 3 ∷ 0 ∷ 0 ∷ 0 ∷ 0 ∷ []))

decrypt-encrypt_example :
    (file : Str) × (encrypt test_gcm
        (open_reader (1 ∷ 2 ∷ 3 ∷ []))
        (endless [])
        test_key
        (open_reader (test_prefix ++ 5 ∷ []))
      ≡ done (endless file))
    × (decrypt test_gcm (open_reader file) (endless []) test_key ≡ done (endless (1 ∷ 2 ∷ 3 ∷ [])))
decrypt-encrypt_example =
    decrypt-encrypt test_gcm sum_cipher sum_cipher-IsAead test_key refl refl test_prefix (5 ∷ [])
      (1 ∷ 2 ∷ 3 ∷ []) refl (omega arith)

long_length : length (repeat 4503599627370495 0) ≡ 4503599627370495
long_length = length-repeat 4503599627370495 0

decrypt-encrypt_capacity_example :
    (file : Str) × (encrypt test_gcm
        (open_reader (repeat 4503599627370495 0))
        (endless [])
        test_key
        (open_reader test_prefix)
      ≡ done (endless file))
    × (decrypt test_gcm (open_reader file) (endless []) test_key
        ≡ failed capacity (endless (repeat 4503599627370495 0)))
decrypt-encrypt_capacity_example =
    decrypt-encrypt_capacity test_gcm sum_cipher sum_cipher-IsAead test_key refl refl test_prefix []
      (repeat 4503599627370495 0) refl (omega (arith, long_length)) (omega (arith, long_length))

encrypt_abc :
    encrypt test_gcm (open_reader (1 ∷ 2 ∷ 3 ∷ [])) (endless []) test_key (open_reader test_prefix)
    ≡ done (endless test_file)
unfolding encrypt encrypt_chunks new_aead read_full write_all write_chunk write_end put_uint32
    nonce_for associated_data magic
encrypt_abc = refl

decrypt_abc :
    decrypt test_gcm (open_reader test_file) (endless []) test_key ≡ done (endless (1 ∷ 2 ∷ 3 ∷ []))
unfolding decrypt decrypt_chunks new_aead read_full write_all open_chunk read_end valid_length
    uint32 put_uint32 nonce_for associated_data magic str_eq
decrypt_abc = refl

decrypt_longer_example :
    decrypt test_gcm (open_reader (test_file ++ 9 ∷ 9 ∷ [])) (endless []) test_key
    ≡ failed trailing_bytes (endless (1 ∷ 2 ∷ 3 ∷ []))
decrypt_longer_example =
    decrypt_longer test_gcm test_key test_file (endless []) (endless (1 ∷ 2 ∷ 3 ∷ [])) 9 (9 ∷ [])
      decrypt_abc

encrypt-SealedApart_example :
    (file : Str) × (encrypt test_gcm
        (open_reader (1 ∷ 2 ∷ 3 ∷ []))
        (endless [])
        test_key
        (open_reader (test_prefix ++ 5 ∷ []))
      ≡ done (endless file))
    × SealedApart sum_cipher test_prefix (1 ∷ 2 ∷ 3 ∷ []) file
encrypt-SealedApart_example =
    encrypt-SealedApart test_gcm sum_cipher sum_cipher-IsAead test_key refl refl test_prefix
      (5 ∷ []) (1 ∷ 2 ∷ 3 ∷ []) refl (omega arith)
