-- ===== src/Backup/Encrypt.antt =====
-- The loop of `Encrypt`, when the writer takes all it is given.
use memory.Prelude.{
  ℕ, zero, suc, ◌+◌, ◌-◌, ◌/◌, ◌%◌, ◌^◌, ◌≤◌, ◌<◌, ◌≡◌, refl, ap, ◌∙◌, true, false, List, [], ◌∷◌,
  ◌++◌, arith, leb, length, take, drop, All, Bool-cases, inl, inr,
}
use mathlib.Core.List.{append-nil}
use memory.Text.Bytes.{Str}
use memory.Backup.{
  Aead, done, chunk_size, max_sequence, write_all, put_uint32, write_chunk, encrypt_chunks,
}
use memory.Backup.Stream.{
  IsAead, leb→le, leb→gt, regroup, write_end_lem, read_full_whole, read_full_short, read_full_none,
  in_capacity, sealed_length, sealed_chunk, stream, concat, IsChunk, open_reader, endless,
  take-drop, length-take, length-drop,
}

module _ (aead : Aead) (laws : IsAead aead) (prefix : Str) where
  write_chunk_lem :
      (sequence : ℕ) (chunk s : Str)
      → IsChunk chunk
      → write_chunk aead prefix sequence chunk (endless s)
        ≡ done (
            endless (
              (s ++ put_uint32 (length (sealed_chunk aead prefix sequence chunk)))
              ++ sealed_chunk aead prefix sequence chunk))
  unfolding write_chunk write_all
  write_chunk_lem sequence chunk s size = rw small refl
    where
      small :
          length (sealed_chunk aead prefix sequence chunk) % 2 ^ 32
          ≡ length (sealed_chunk aead prefix sequence chunk)
      small = omega (arith, sealed_length aead laws prefix sequence chunk size)

  -- The chunks that the loop of `Encrypt` cuts a snapshot into, and what it has written at the end.
  abbrev pub Encrypted : ℕ → ℕ → Str → Str → Type 0
  Encrypted fuel sequence input s =
      (chunks : List Str) × (concat chunks ≡ input)
      × All IsChunk chunks
      × (length chunks ≤ (length input + (chunk_size - 1)) / chunk_size)
      × (encrypt_chunks fuel aead prefix sequence (open_reader input) (endless s)
          ≡ done (endless (s ++ stream aead prefix sequence chunks)))

  -- A full chunk, and then what the rest of the loop does.
  Encrypted-full :
      (fuel sequence : ℕ) (input s : Str)
      → leb chunk_size (length input) ≡ true
      → sequence ≤ max_sequence
      → Encrypted fuel (sequence + 1) (drop chunk_size input) (
          (s ++ put_uint32 (length (sealed_chunk aead prefix sequence (take chunk_size input))))
          ++ sealed_chunk aead prefix sequence (take chunk_size input))
      → Encrypted (suc fuel) sequence input s
  unfolding encrypt_chunks concat stream
  Encrypted-full fuel sequence input s big k (chunks, joined, sizes, count, run) = (
    take chunk_size input ∷ chunks,
    ap (take chunk_size input ++◌) joined ∙ take-drop chunk_size input,
    (size, sizes),
    omega (arith, leb→le chunk_size (length input) big, count, length-drop chunk_size input),
    rw (in_capacity sequence k) (
        rw (read_full_whole chunk_size input big) (
          rw (write_chunk_lem sequence (take chunk_size input) s size) (
            run
            ∙ ap (λ t. done (endless t))
                (regroup s
                  (put_uint32 (length (sealed_chunk aead prefix sequence (take chunk_size input))))
                  (sealed_chunk aead prefix sequence (take chunk_size input))
                  (stream aead prefix (sequence + 1) chunks))))),
  )
    where
      size : IsChunk (take chunk_size input)
      size = omega (arith, leb→le chunk_size (length input) big, length-take chunk_size input)

  -- The last chunk, or none.
  Encrypted-last :
      (fuel sequence : ℕ) (input s : Str)
      → leb chunk_size (length input) ≡ false
      → sequence ≤ max_sequence
      → Encrypted (suc fuel) sequence input s
  unfolding encrypt_chunks concat stream
  Encrypted-last fuel sequence [] s small k = (
    [],
    refl,
    tt,
    omega arith,
    rw (in_capacity sequence k) (rw (read_full_none chunk_size small) (write_end_lem s)),
  )
  Encrypted-last fuel sequence (x ∷ input) s small k = (
    (x ∷ input) ∷ [],
    append-nil (x ∷ input),
    ((omega arith, omega (arith, leb→gt chunk_size (length (x ∷ input)) small)), tt),
    omega arith,
    rw (in_capacity sequence k) (
        rw (read_full_short chunk_size x input small) (
          rw
            (write_chunk_lem sequence (x ∷ input) s
              (omega arith, omega (arith, leb→gt chunk_size (length (x ∷ input)) small)))
            (write_end_lem _
              ∙ ap (λ t. done (endless t))
                  (regroup s (put_uint32 (length (sealed_chunk aead prefix sequence (x ∷ input))))
                    (sealed_chunk aead prefix sequence (x ∷ input)) (put_uint32 0))))),
  )

  pub encrypt_chunks-Encrypted :
      (fuel sequence : ℕ) (input s : Str)
      → length input < fuel
      → sequence + length input / chunk_size ≤ max_sequence
      → Encrypted fuel sequence input s
  encrypt_chunks-Encrypted zero sequence input s h k = absurd (omega arith)
  encrypt_chunks-Encrypted (suc fuel) sequence input s h k =
      elim (Bool-cases (leb chunk_size (length input))) [
        | inl big ↦ Encrypted-full fuel sequence input s big (omega (arith, k)) (
            encrypt_chunks-Encrypted fuel (sequence + 1) (drop chunk_size input)
              ((s
                  ++ put_uint32
                      (length (sealed_chunk aead prefix sequence (take chunk_size input))))
                ++ sealed_chunk aead prefix sequence (take chunk_size input))
              (omega
                (arith, leb→le chunk_size (length input) big, h, k, length-drop chunk_size input))
              (omega
                (arith, leb→le chunk_size (length input) big, h, k, length-drop chunk_size input)))
        | inr small ↦ Encrypted-last fuel sequence input s small (omega (arith, k))
      ]
