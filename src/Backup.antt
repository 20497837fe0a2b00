-- ===== src/Backup.antt =====
-- The encrypted container of a backup: internal/backupfile/format.go. AES-GCM is a parameter: `aes.NewCipher` with
-- `cipher.NewGCM` is a function from a key to an `Aead`, or to none. A reader holds the bytes that it will give; one
-- that is broken fails with another error than the end of the file once they are read. A writer that has no room left fails.
-- The loops run on fuel, one more than the number of bytes of their input.
pub mod Stream
pub mod Encrypt
pub mod Decrypt
pub mod Roundtrip
pub mod Truncated
pub mod Nonces
use memory.Prelude.{
  ℕ, zero, suc, ◌+◌, ◌-◌, ◌*◌, ◌/◌, ◌%◌, ◌^◌, ◌≡◌, refl, Bool, true, false, ◌||◌, Option, none,
  some, List, [], ◌∷◌, ◌++◌, ltb, leb, nat_eq, if◌then◌else◌, length, take, drop,
}
use memory.Text.Bytes.{Str, str_eq, bytes}

abbrev pub key_size : ℕ
key_size = 32

abbrev pub chunk_size : ℕ
chunk_size = 2 ^ 20

-- `uint64(^uint32(0))`
abbrev pub max_sequence : ℕ
max_sequence = 2 ^ 32 - 1

unfoldable pub magic : Str
magic = bytes "CAELIS-MEMORY-BACKUP-V1" ++ (10 ∷ [])

pub record Reader : Type 0 where
  pub rest : Str
  pub broken : Bool

pub record Writer : Type 0 where
  pub written : Str
  pub room : Option ℕ

-- `cipher.AEAD`, for one key.
pub record Aead : Type 0 where
  pub nonce_size : ℕ
  pub overhead : ℕ
  pub seal : Str → Str → Str → Str
  pub unseal : Str → Str → Str → Option Str

pub data BackupError : Type 0 where
  bad_key no_cipher small_nonce no_random read_snapshot capacity write_failed bad_header bad_magic
        bad_nonce bad_length invalid_length trailing_bytes bad_chunk unauthentic out_of_fuel :
      BackupError

-- What an operation returned, and the output that it leaves.
pub data Outcome : Type 0 where
  done : Writer → Outcome
  failed : BackupError → Writer → Outcome

infixl 5 ◌>=>◌
abbrev pub ◌>=>◌ : Outcome → (Writer → Outcome) → Outcome
done w >=> f = f w
failed e w >=> f = failed e w

-- `io.ReadFull`: all the bytes, `io.EOF`, `io.ErrUnexpectedEOF` with what there was, or another error.
pub data ReadResult : Type 0 where
  full : Str → Reader → ReadResult
  eof : ReadResult
  short : Str → ReadResult
  read_failed : ReadResult

abbrev pub run_dry : Str → Bool → ReadResult
run_dry s true = read_failed
run_dry [] false = eof
run_dry (x ∷ s) false = short (x ∷ s)

unfoldable pub read_full : ℕ → Reader → ReadResult
read_full n r =
    if leb n (length r.rest)
    then full (take n r.rest) (record r { rest = drop n r.rest })
    else run_dry r.rest r.broken

-- `if _, err := io.ReadFull(...); err != nil { return }`, and what follows it.
abbrev pub on_full : ReadResult → (Str → Reader → Outcome) → Outcome → Outcome
on_full (full a rest) after error = after a rest
on_full _ after error = error

-- What a writer takes of some bytes before it fails.
abbrev pub write_within : Str → Str → ℕ → Outcome
write_within written value n =
    if leb (length value) n
    then done (record { written = written ++ value; room = some (n - length value) })
    else failed write_failed (record { written = written ++ take n value; room = some 0 })

abbrev pub write_room : Str → Str → Option ℕ → Outcome
write_room written value none = done (record { written = written ++ value; room = none })
write_room written value (some n) = write_within written value n

-- `writeAll`
unfoldable pub write_all : Writer → Str → Outcome
write_all w value = write_room w.written value w.room

-- `binary.BigEndian.PutUint32`
unfoldable pub put_uint32 : ℕ → Str
put_uint32 n = (n / 2 ^ 24 % 256) ∷ (n / 2 ^ 16 % 256) ∷ (n / 2 ^ 8 % 256) ∷ (n % 256) ∷ []

-- `binary.BigEndian.Uint32`, of four bytes.
unfoldable pub uint32 : Str → ℕ
uint32 (a ∷ b ∷ c ∷ d ∷ _) = a * 2 ^ 24 + b * 2 ^ 16 + c * 2 ^ 8 + d
uint32 _ = 0

-- `nonceFor`
unfoldable pub nonce_for : Str → ℕ → Str
nonce_for prefix sequence = prefix ++ put_uint32 sequence

-- `associatedData`
unfoldable pub associated_data : ℕ → Str
associated_data sequence = magic ++ put_uint32 sequence

-- `newAEAD`
unfoldable pub new_aead : (Str → Option Aead) → Str → Writer → (Aead → Outcome) → Outcome
new_aead gcm key w use_it =
    if nat_eq (length key) key_size
    then elim (gcm key) [ none ↦ failed no_cipher w | some aead ↦ use_it aead ]
    else failed bad_key w

-- The length and the bytes of one sealed chunk.
unfoldable pub write_chunk : Aead → Str → ℕ → Str → Writer → Outcome
write_chunk aead prefix sequence chunk w =
    let sealed = aead.seal (nonce_for prefix sequence) chunk (associated_data sequence) in
    write_all w (put_uint32 (length sealed % 2 ^ 32)) >=> λ w1. write_all w1 sealed

unfoldable pub write_end : Writer → Outcome
write_end w = write_all w (put_uint32 0)

-- The loop of `Encrypt`.
unfoldable pub encrypt_chunks : ℕ → Aead → Str → ℕ → Reader → Writer → Outcome
encrypt_chunks zero aead prefix sequence input w = failed out_of_fuel w
encrypt_chunks (suc fuel) aead prefix sequence input w =
    if ltb max_sequence sequence then failed capacity w else elim (read_full chunk_size input) [
      | eof ↦ write_end w
      | read_failed ↦ failed read_snapshot w
      | full chunk rest ↦ write_chunk aead prefix sequence chunk w >=> λ w1.
          encrypt_chunks fuel aead prefix (sequence + 1) rest w1
      | short chunk ↦ write_chunk aead prefix sequence chunk w >=> write_end
    ]

-- `Encrypt`
unfoldable pub encrypt : (Str → Option Aead) → Reader → Writer → Str → Reader → Outcome
encrypt gcm input output key random = new_aead gcm key output λ aead.
    if leb aead.nonce_size 4
    then failed small_nonce output
    else elim (read_full (aead.nonce_size - 4) random) [
      | full prefix _ ↦ write_all output magic >=> λ w1. write_all w1 prefix >=> λ w2.
          encrypt_chunks (length input.rest + 1) aead prefix 0 input w2
      | _ ↦ failed no_random output
    ]

-- `input.Read` of one byte after the last chunk.
unfoldable pub read_end : Reader → Writer → Outcome
read_end r w = elim (run_dry r.rest r.broken) [ eof ↦ done w | _ ↦ failed trailing_bytes w ]

-- A chunk length in the range that is read.
unfoldable pub valid_length : Aead → ℕ → Bool
valid_length aead size =
    if ltb size (aead.overhead % 2 ^ 32)
    then false
    else leb size ((chunk_size + aead.overhead) % 2 ^ 32)

-- `aead.Open` and the write of the plaintext.
unfoldable pub open_chunk : Aead → Str → ℕ → Str → Writer → Outcome
open_chunk aead prefix sequence sealed w =
    elim (aead.unseal (nonce_for prefix sequence) sealed (associated_data sequence)) [
      | none ↦ failed unauthentic w
      | some plain ↦ write_all w plain
    ]

-- The loop of `Decrypt`.
unfoldable pub decrypt_chunks : ℕ → Aead → Str → ℕ → Reader → Writer → Outcome
decrypt_chunks zero aead prefix sequence input w = failed out_of_fuel w
decrypt_chunks (suc fuel) aead prefix sequence input w =
    if ltb max_sequence sequence
    then failed capacity w
    else on_full (read_full 4 input)
        (λ four after.
          if nat_eq (uint32 four) 0
          then read_end after w
          else if valid_length aead (uint32 four)
          then on_full (read_full (uint32 four) after)
              (λ sealed rest. open_chunk aead prefix sequence sealed w >=> λ w1.
                decrypt_chunks fuel aead prefix (sequence + 1) rest w1)
              (failed bad_chunk w)
          else failed invalid_length w)
        (failed bad_length w)

-- `Decrypt`. The nonce of AES-GCM has 12 bytes; a size below 4, at which the code would panic, is not told apart from 4.
unfoldable pub decrypt : (Str → Option Aead) → Reader → Writer → Str → Outcome
decrypt gcm input output key = new_aead gcm key output λ aead.
    on_full (read_full (length magic) input)
      (λ header after.
        if str_eq header magic
        then on_full (read_full (aead.nonce_size - 4) after)
            (λ prefix rest. decrypt_chunks (length input.rest + 1) aead prefix 0 rest output)
            (failed bad_nonce output)
        else failed bad_magic output)
      (failed bad_header output)
