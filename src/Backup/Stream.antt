-- ===== src/Backup/Stream.antt =====
-- The chunk stream of a backup, described without its loops, and what the readers and writers do with parts of it.
use memory.Prelude.{
  ℕ, zero, suc, ◌+◌, ◌-◌, ◌^◌, ◌≤◌, ◌<◌, ◌≡◌, refl, sym, ap, ◌∙◌, Bool, true, false, none, some,
  List, [], ◌∷◌, ◌++◌, arith, ltb, leb, length, take, drop, length-append,
}
use mathlib.Core.List.{append_assoc}
use memory.Text.Bytes.{Str}
use memory.Backup.{
  Reader, Writer, Aead, full, eof, short, done, read_end, write_end, chunk_size, max_sequence,
  read_full, write_all, put_uint32, uint32, nonce_for, associated_data,
}

-- What the code relies on in AES-GCM: opening returns what was sealed under the same nonce and associated data, and
-- sealing adds the overhead; and the sizes leave room for the sequence number and for a length in 32 bits.
pub record IsAead (aead : Aead) : Type 0 where
  pub unseal_seal :
      (nonce plain data_ : Str) → aead.unseal nonce (aead.seal nonce plain data_) data_ ≡ some plain
  pub length_seal :
      (nonce plain data_ : Str)
      → length (aead.seal nonce plain data_) ≡ length plain + aead.overhead
  pub prefix_left : 4 < aead.nonce_size
  pub small_overhead : aead.overhead < 2 ^ 31

abbrev pub sealed_chunk : Aead → Str → ℕ → Str → Str
sealed_chunk aead prefix sequence chunk =
    aead.seal (nonce_for prefix sequence) chunk (associated_data sequence)

-- The chunks under consecutive sequence numbers, each after its length, and the terminator.
unfoldable pub stream : Aead → Str → ℕ → List Str → Str
stream aead prefix sequence [] = put_uint32 0
stream aead prefix sequence (chunk ∷ chunks) =
    put_uint32 (length (sealed_chunk aead prefix sequence chunk))
    ++ (sealed_chunk aead prefix sequence chunk ++ stream aead prefix (sequence + 1) chunks)

unfoldable pub concat : List Str → Str
concat [] = []
concat (s ∷ ss) = s ++ concat ss

-- A chunk that `Encrypt` may write.
abbrev pub IsChunk : Str → Type 0
IsChunk chunk = (0 < length chunk) × (length chunk ≤ chunk_size)

abbrev pub open_reader : Str → Reader
open_reader s = record { rest = s; broken = false }

abbrev pub endless : Str → Writer
endless s = record { written = s; room = none }

pub uint32-put_uint32 : (n : ℕ) → n < 2 ^ 32 → uint32 (put_uint32 n) ≡ n
unfolding uint32 put_uint32
uint32-put_uint32 n h = omega arith

pub length-put_uint32 : (n : ℕ) → length (put_uint32 n) ≡ 4
unfolding put_uint32
length-put_uint32 n = refl

pub put_uint32-injective : (m n : ℕ) → m < 2 ^ 32 → n < 2 ^ 32 → put_uint32 m ≡ put_uint32 n → m ≡ n
put_uint32-injective m n hm hn e =
    sym (uint32-put_uint32 m hm) ∙ ap uint32 e ∙ uint32-put_uint32 n hn

module _ {ℓ} {A : Type ℓ} where
  pub take-append : (a b : List A) → take (length a) (a ++ b) ≡ a
  take-append [] b = refl
  take-append (x ∷ a) b = ap (◌∷◌ x) (take-append a b)

  pub drop-append : (a b : List A) → drop (length a) (a ++ b) ≡ b
  drop-append [] b = refl
  drop-append (x ∷ a) b = drop-append a b

  pub take-drop : (n : ℕ) (xs : List A) → take n xs ++ drop n xs ≡ xs
  take-drop zero xs = refl
  take-drop (suc n) [] = refl
  take-drop (suc n) (x ∷ xs) = ap (◌∷◌ x) (take-drop n xs)

  pub length-take : (n : ℕ) (xs : List A) → n ≤ length xs → length (take n xs) ≡ n
  length-take zero xs h = refl
  length-take (suc n) [] h = absurd (omega arith)
  length-take (suc n) (x ∷ xs) h = omega (arith, length-take n xs (omega arith))

  pub length-drop : (n : ℕ) (xs : List A) → length (drop n xs) ≡ length xs - n
  length-drop zero xs = omega arith
  length-drop (suc n) [] = omega arith
  length-drop (suc n) (x ∷ xs) = omega (arith, length-drop n xs)

-- A part that a reader holds at its front is read whole.
pub read_full-append :
    (n : ℕ) (a b : Str) (broken : Bool)
    → length a ≡ n
    → read_full n (record { rest = a ++ b; broken = broken })
      ≡ full a (record { rest = b; broken = broken })
unfolding read_full
read_full-append n a b broken h =
    rw (← h) (rw (leb-append) (rw (take-append a b, drop-append a b) refl))
  where
    leb-append : leb (length a) (length (a ++ b)) ≡ true
    leb-append = ground (arith, length-append a b)

pub write_all-endless : (s value : Str) → write_all (endless s) value ≡ done (endless (s ++ value))
unfolding write_all
write_all-endless s value = refl

pub leb→le : (a b : ℕ) → leb a b ≡ true → a ≤ b
leb→le a b h = ground arith

pub leb→gt : (a b : ℕ) → leb a b ≡ false → b < a
leb→gt a b h = ground arith

pub regroup : (a b c d : Str) → ((a ++ b) ++ c) ++ d ≡ a ++ (b ++ (c ++ d))
regroup a b c d = simp append_assoc

pub end_read : read_full 4 (open_reader (put_uint32 0)) ≡ full (put_uint32 0) (open_reader [])
unfolding read_full put_uint32
end_read = refl

pub read_end_lem : (s : Str) → read_end (open_reader []) (endless s) ≡ done (endless s)
unfolding read_end
read_end_lem s = refl

pub write_end_lem : (s : Str) → write_end (endless s) ≡ done (endless (s ++ put_uint32 0))
unfolding write_end
write_end_lem s = write_all-endless s (put_uint32 0)

pub read_full_whole :
    (n : ℕ) (s : Str)
    → leb n (length s) ≡ true
    → read_full n (open_reader s) ≡ full (take n s) (open_reader (drop n s))
unfolding read_full
read_full_whole n s h = rw h refl

pub read_full_short :
    (n x : ℕ) (s : Str)
    → leb n (length (x ∷ s)) ≡ false
    → read_full n (open_reader (x ∷ s)) ≡ short (x ∷ s)
unfolding read_full
read_full_short n x s h = rw h refl

pub read_full_none : (n : ℕ) → leb n 0 ≡ false → read_full n (open_reader []) ≡ eof
unfolding read_full
read_full_none n h = rw h refl

pub in_capacity : (sequence : ℕ) → sequence ≤ max_sequence → ltb max_sequence sequence ≡ false
in_capacity sequence h = ground arith

module _ (aead : Aead) (laws : IsAead aead) (prefix : Str) where
  pub sealed_length :
      (sequence : ℕ) (chunk : Str)
      → IsChunk chunk
      → length (sealed_chunk aead prefix sequence chunk) < 2 ^ 32
  sealed_length sequence chunk size = omega (
    arith,
    laws.length_seal (nonce_for prefix sequence) chunk (associated_data sequence),
    laws.small_overhead,
  )

-- The nonces under one prefix differ where their sequence numbers do.
pub nonce_for-injective :
    (prefix : Str) (m n : ℕ)
    → m ≤ max_sequence
    → n ≤ max_sequence
    → nonce_for prefix m ≡ nonce_for prefix n
    → m ≡ n
unfolding nonce_for
nonce_for-injective prefix m n hm hn e = put_uint32-injective m n (omega arith) (omega arith) (
    sym (drop-append prefix (put_uint32 m))
    ∙ ap (drop (length prefix)) e
    ∙ drop-append prefix (put_uint32 n))
