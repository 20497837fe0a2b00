-- ===== src/Backup/Decrypt.antt =====
-- The loop of `Decrypt` on the chunks of a backup.
use memory.Prelude.{
  ℕ, zero, suc, ◌+◌, ◌*◌, ◌≤◌, ◌<◌, ◌≡◌, refl, sym, ap, ◌∙◌, true, false, List, [], ◌∷◌, ◌++◌,
  arith, ltb, nat_eq, length, length-append, All,
}
use mathlib.Core.List.{append_assoc, append-nil}
use memory.Text.Bytes.{Str}
use memory.Backup.{
  Aead, done, failed, capacity, chunk_size, max_sequence, put_uint32, nonce_for, associated_data,
  valid_length, open_chunk, decrypt_chunks,
}
use memory.Backup.Stream.{
  IsAead, end_read, read_end_lem, in_capacity, sealed_length, sealed_chunk, stream, concat, IsChunk,
  open_reader, endless, uint32-put_uint32, length-put_uint32, read_full-append, write_all-endless,
}

module _ (aead : Aead) (laws : IsAead aead) (prefix : Str) where
  open_chunk_lem :
      (sequence : ℕ) (chunk s : Str)
      → open_chunk aead prefix sequence (sealed_chunk aead prefix sequence chunk) (endless s)
        ≡ done (endless (s ++ chunk))
  unfolding open_chunk
  open_chunk_lem sequence chunk s =
      rw (laws.unseal_seal (nonce_for prefix sequence) chunk (associated_data sequence), open_chunk)
        (write_all-endless s chunk)

  sealed_valid :
      (sequence : ℕ) (chunk : Str)
      → IsChunk chunk
      → (nat_eq (length (sealed_chunk aead prefix sequence chunk)) 0 ≡ false)
        × (valid_length aead (length (sealed_chunk aead prefix sequence chunk)) ≡ true)
  unfolding valid_length
  sealed_valid sequence chunk size = ground (
    arith,
    laws.length_seal (nonce_for prefix sequence) chunk (associated_data sequence),
    laws.small_overhead,
  )

  past_capacity : (sequence : ℕ) → sequence ≡ max_sequence + 1 → ltb max_sequence sequence ≡ true
  past_capacity sequence h = ground (arith, h)

  -- One round of the loop of `Decrypt`.
  decrypt_step :
      (fuel sequence : ℕ) (chunk : Str) (chunks : List Str) (s : Str)
      → IsChunk chunk
      → sequence ≤ max_sequence
      → decrypt_chunks
          (suc fuel)
          aead
          prefix
          sequence
          (open_reader (stream aead prefix sequence (chunk ∷ chunks)))
          (endless s)
        ≡ decrypt_chunks fuel aead prefix
            (sequence + 1)
            (open_reader (stream aead prefix (sequence + 1) chunks))
            (endless (s ++ chunk))
  unfolding decrypt_chunks stream
  decrypt_step fuel sequence chunk chunks s size k =
      let sealed = sealed_chunk aead prefix sequence chunk in
      let rest = stream aead prefix (sequence + 1) chunks in
      rw (in_capacity sequence k) (
        rw
          (read_full-append 4 (put_uint32 (length sealed)) (sealed ++ rest) false
            (length-put_uint32 (length sealed)))
          (rw
            (uint32-put_uint32 (length sealed) (sealed_length aead laws prefix sequence chunk size))
            (rw ((sealed_valid sequence chunk size).0) (
              rw ((sealed_valid sequence chunk size).1) (
                rw (read_full-append (length sealed) sealed rest false refl)
                  (rw (open_chunk_lem sequence chunk s) refl))))))

  -- The loop of `Decrypt` on a stream whose terminator has a sequence number.
  pub decrypt_chunks-stream :
      (fuel sequence : ℕ) (chunks : List Str) (s : Str)
      → All IsChunk chunks
      → length chunks < fuel
      → sequence + length chunks ≤ max_sequence
      → decrypt_chunks fuel aead prefix sequence
          (open_reader (stream aead prefix sequence chunks))
          (endless s)
        ≡ done (endless (s ++ concat chunks))
  unfolding decrypt_chunks stream concat
  decrypt_chunks-stream zero sequence chunks s sizes h k = absurd (omega arith)
  decrypt_chunks-stream (suc fuel) sequence [] s sizes h k =
      rw (in_capacity sequence (omega arith)) (
        rw end_read (
          rw (uint32-put_uint32 0 (omega arith))
            (read_end_lem s ∙ ap (λ t. done (endless t)) (sym (append-nil s)))))
  decrypt_chunks-stream (suc fuel) sequence (chunk ∷ chunks) s (size, sizes) h k =
      decrypt_step fuel sequence chunk chunks s size (omega arith)
      ∙ decrypt_chunks-stream fuel (sequence + 1) chunks (s ++ chunk) sizes (omega arith)
          (omega arith)
      ∙ ap (λ t. done (endless t)) (append_assoc s chunk (concat chunks))

  pub stream-length :
      (sequence : ℕ) (chunks : List Str)
      → length chunks < length (stream aead prefix sequence chunks)
  unfolding stream put_uint32
  stream-length sequence [] = omega arith
  stream-length sequence (chunk ∷ chunks) = omega (
    arith,
    length-append (sealed_chunk aead prefix sequence chunk)
        (stream aead prefix (sequence + 1) chunks),
    stream-length (sequence + 1) chunks,
  )

  -- A stream of as many chunks as there are sequence numbers left is read to its end, and then refused.
  pub decrypt_chunks-capacity :
      (fuel sequence : ℕ) (chunks : List Str) (s : Str)
      → All IsChunk chunks
      → length chunks < fuel
      → sequence + length chunks ≡ max_sequence + 1
      → decrypt_chunks fuel aead prefix sequence
          (open_reader (stream aead prefix sequence chunks))
          (endless s)
        ≡ failed capacity (endless (s ++ concat chunks))
  unfolding decrypt_chunks concat
  decrypt_chunks-capacity zero sequence chunks s sizes h k = absurd (omega arith)
  decrypt_chunks-capacity (suc fuel) sequence [] s sizes h k =
      rw (past_capacity sequence (omega (arith, k)))
        (ap (λ t. failed capacity (endless t)) (sym (append-nil s)))
  decrypt_chunks-capacity (suc fuel) sequence (chunk ∷ chunks) s (size, sizes) h k =
      decrypt_step fuel sequence chunk chunks s size (omega (arith, k))
      ∙ decrypt_chunks-capacity fuel (sequence + 1) chunks (s ++ chunk) sizes (omega arith)
          (omega (arith, k))
      ∙ ap (λ t. failed capacity (endless t)) (append_assoc s chunk (concat chunks))

-- The chunks of a snapshot are at least as many as it takes.
pub length-concat :
    (chunks : List Str) → All IsChunk chunks → length (concat chunks) ≤ length chunks * chunk_size
unfolding concat
length-concat [] sizes = omega arith
length-concat (c ∷ cs) (size, sizes) =
    omega (arith, length-append c (concat cs), length-concat cs sizes)
