-- ===== src/Backup/Roundtrip.antt =====
-- The chunk stream of `Encrypt`, with its terminator and its magic, read back by `Decrypt`.
use memory.Prelude.{
  ◌+◌, ◌-◌, ◌*◌, ◌/◌, ◌^◌, ◌≤◌, ◌<◌, ◌≡◌, refl, ap, ◌∙◌, false, Option, some, List, [], ◌++◌, arith,
  leb, length, length-append, All,
}
use mathlib.Core.List.{append_assoc}
use memory.Text.Bytes.{Str, str_eq_iff}
use memory.Backup.{
  Writer, Aead, Outcome, done, failed, capacity, chunk_size, max_sequence, key_size, magic,
  read_full, encrypt, decrypt_chunks, decrypt, new_aead,
}
use memory.Backup.Stream.{
  IsAead, stream, concat, IsChunk, open_reader, endless, read_full-append, write_all-endless,
}
use memory.Backup.Encrypt.{encrypt_chunks-Encrypted}
use memory.Backup.Decrypt.{
  stream-length, decrypt_chunks-stream, decrypt_chunks-capacity, length-concat,
}

-- What `Encrypt` writes for a snapshot: the magic, the prefix and a stream of its chunks.
pub record IsBackup (aead : Aead) (prefix snapshot file : Str) : Type 0 where
  pub chunks : List Str
  pub joined : concat chunks ≡ snapshot
  pub sizes : All IsChunk chunks
  pub count : length chunks ≤ (length snapshot + (chunk_size - 1)) / chunk_size
  pub layout : file ≡ magic ++ (prefix ++ stream aead prefix 0 chunks)

module _ (gcm : Str → Option Aead) (aead : Aead) (laws : IsAead aead) (key : Str)
    (cipher : gcm key ≡ some aead) (right_key : length key ≡ key_size) where
  new_aead_lem : (w : Writer) (use_it : Aead → Outcome) → new_aead gcm key w use_it ≡ use_it aead
  unfolding new_aead
  new_aead_lem w use_it = rw (cipher) (ground (arith, right_key))

  pub encrypt-IsBackup :
      (prefix random snapshot : Str)
      → length prefix ≡ aead.nonce_size - 4
      → length snapshot / chunk_size ≤ max_sequence
      → (file : Str) × (encrypt gcm
            (open_reader snapshot)
            (endless [])
            key
            (open_reader (prefix ++ random))
          ≡ done (endless file))
        × IsBackup aead prefix snapshot file
  unfolding encrypt
  encrypt-IsBackup prefix random snapshot size small =
      let (chunks, joined, sizes, count, run) =
        encrypt_chunks-Encrypted aead laws prefix (length snapshot + 1) 0 snapshot (magic ++ prefix)
          (omega arith) (omega (arith, small)) in
      (
        (magic ++ prefix) ++ stream aead prefix 0 chunks,
        rw (new_aead_lem (endless [])) (
            rw (large) (
              rw (read_full-append (aead.nonce_size - 4) prefix random false size)
                (rw (write_all-endless [] magic) (rw (write_all-endless magic prefix) run)))),
        record {
          chunks = chunks;
          joined = joined;
          sizes = sizes;
          count = count;
          layout = append_assoc magic prefix (stream aead prefix 0 chunks);
        },
      )
    where
      large : leb aead.nonce_size 4 ≡ false
      large = ground (arith, laws.prefix_left)

  enough :
      (prefix snapshot file : Str) (backup : IsBackup aead prefix snapshot file)
      → length backup.chunks < length file + 1
  enough prefix snapshot file backup = omega (
    arith,
    ap length backup.layout,
    length-append magic (prefix ++ stream aead prefix 0 backup.chunks),
    length-append prefix (stream aead prefix 0 backup.chunks),
    stream-length aead laws prefix 0 backup.chunks,
  )

  -- `Decrypt` of a backup ends as its loop does.
  decrypt-read :
      (prefix snapshot file : Str) {result : Outcome}
      → length prefix ≡ aead.nonce_size - 4
      → (backup : IsBackup aead prefix snapshot file)
      → decrypt_chunks
          (length file + 1)
          aead
          prefix
          0
          (open_reader (stream aead prefix 0 backup.chunks))
          (endless [])
        ≡ result
      → decrypt gcm (open_reader file) (endless []) key ≡ result
  unfolding decrypt
  decrypt-read prefix snapshot file size backup run = rw (new_aead_lem (endless [])) (
      rw (ap (λ t. read_full (length magic) (open_reader t)) backup.layout) (
        rw
          (read_full-append (length magic) magic (prefix ++ stream aead prefix 0 backup.chunks)
            false refl)
          (rw ((str_eq_iff magic magic).1 refl) (
            rw
              (read_full-append (aead.nonce_size - 4) prefix (stream aead prefix 0 backup.chunks)
                false size)
              run))))

  -- For a cipher as `IsAead` describes it and a key of 32 bytes, a random source with enough
  -- bytes for the prefix of the nonces, and a snapshot of at most (2^32 - 1) * 2^20 bytes,
  -- `Encrypt` succeeds, and `Decrypt` of the file that it writes returns without an error and has
  -- written the snapshot.
  pub decrypt-encrypt :
      (prefix random snapshot : Str)
      → length prefix ≡ aead.nonce_size - 4
      → length snapshot ≤ max_sequence * chunk_size
      → (file : Str) × (encrypt gcm
            (open_reader snapshot)
            (endless [])
            key
            (open_reader (prefix ++ random))
          ≡ done (endless file))
        × (decrypt gcm (open_reader file) (endless []) key ≡ done (endless snapshot))
  decrypt-encrypt prefix random snapshot size small =
      let (file, made, backup) =
        encrypt-IsBackup prefix random snapshot size (omega (arith, small)) in
      (
        file,
        made,
        decrypt-read prefix snapshot file size backup (
            decrypt_chunks-stream aead laws prefix (length file + 1) 0 backup.chunks [] backup.sizes
              (enough prefix snapshot file backup) (omega (arith, backup.count, small))
            ∙ ap (λ t. done (endless t)) backup.joined),
      )

  -- For a snapshot of more than (2^32 - 1) * 2^20 bytes and less than 2^32 * 2^20, under the same
  -- conditions, `Encrypt` succeeds, but `Decrypt` of the file that it writes fails for want of
  -- sequence numbers, after it has written the snapshot.
  pub decrypt-encrypt_capacity :
      (prefix random snapshot : Str)
      → length prefix ≡ aead.nonce_size - 4
      → max_sequence * chunk_size < length snapshot
      → length snapshot < 2 ^ 32 * chunk_size
      → (file : Str) × (encrypt gcm
            (open_reader snapshot)
            (endless [])
            key
            (open_reader (prefix ++ random))
          ≡ done (endless file))
        × (decrypt gcm (open_reader file) (endless []) key ≡ failed capacity (endless snapshot))
  unfolding decrypt
  decrypt-encrypt_capacity prefix random snapshot size big small =
      let (file, made, backup) =
        encrypt-IsBackup prefix random snapshot size (omega (arith, small)) in
      (
        file,
        made,
        decrypt-read prefix snapshot file size backup (
            decrypt_chunks-capacity aead laws prefix (length file + 1) 0 backup.chunks []
              backup.sizes (enough prefix snapshot file backup)
              (omega (
                arith,
                backup.count,
                small,
                big,
                ap length backup.joined,
                length-concat backup.chunks backup.sizes,
              ))
            ∙ ap (λ t. failed capacity (endless t)) backup.joined),
      )
