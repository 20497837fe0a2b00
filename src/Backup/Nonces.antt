-- ===== src/Backup/Nonces.antt =====
-- The calls of the cipher that `Encrypt` makes, with their nonces.
use memory.Prelude.{
  ℕ, ◌+◌, ◌-◌, ◌*◌, ◌^◌, ◌≤◌, ◌<◌, ◌≡◌, refl, sym, ap, ◌∙◌, false, Option, some, List, [], ◌∷◌,
  ◌++◌, arith, map, length, All, Distinct, contains, Bool-cases, inl, inr,
}
use memory.Text.Bytes.{Str, Str-eq, str_eq, str_eq_iff}
use memory.Backup.{
  Aead, key_size, chunk_size, max_sequence, magic, done, put_uint32, nonce_for, associated_data,
  encrypt,
}
use memory.Backup.Stream.{
  IsAead, stream, sealed_chunk, concat, IsChunk, open_reader, endless, nonce_for-injective,
}
use memory.Backup.Roundtrip.{encrypt-IsBackup}

-- One call of `Seal`.
pub record Sealing : Type 0 where
  pub nonce : Str
  pub plain : Str
  pub associated : Str

abbrev pub sealed : Aead → Sealing → Str
sealed aead x = aead.seal x.nonce x.plain x.associated

-- What the calls return, each after its length, and a length of zero at the end.
abbrev pub framed : Aead → List Sealing → Str
framed aead [] = put_uint32 0
framed aead (x ∷ xs) = put_uint32 (length (sealed aead x)) ++ (sealed aead x ++ framed aead xs)

-- The file is made of calls that seal the snapshot in chunks, no two of them under one nonce.
pub record SealedApart (aead : Aead) (prefix snapshot file : Str) : Type 0 where
  pub calls : List Sealing
  pub whole : concat (map (λ x. x.plain) calls) ≡ snapshot
  pub chunks : All (λ x. IsChunk x.plain) calls
  pub nonces : Distinct (map (λ x. x.nonce) calls)
  pub layout : file ≡ magic ++ (prefix ++ framed aead calls)

module _ (aead : Aead) (prefix : Str) where
  calls_from : ℕ → List Str → List Sealing
  calls_from k [] = []
  calls_from k (chunk ∷ rest) =
      record { nonce = nonce_for prefix k; plain = chunk; associated = associated_data k }
      ∷ calls_from (k + 1) rest

  framed-calls : (k : ℕ) (cs : List Str) → framed aead (calls_from k cs) ≡ stream aead prefix k cs
  unfolding stream calls_from
  framed-calls k [] = refl
  framed-calls k (c ∷ cs) =
      ap
        (λ rest.
          put_uint32 (length (sealed_chunk aead prefix k c))
          ++ (sealed_chunk aead prefix k c ++ rest))
        (framed-calls (k + 1) cs)

  plain-calls : (k : ℕ) (cs : List Str) → map (λ x. x.plain) (calls_from k cs) ≡ cs
  unfolding calls_from
  plain-calls k [] = refl
  plain-calls k (c ∷ cs) = ap (λ rest. c ∷ rest) (plain-calls (k + 1) cs)

  chunks-calls :
      (k : ℕ) (cs : List Str) → All IsChunk cs → All (λ x. IsChunk x.plain) (calls_from k cs)
  unfolding calls_from
  chunks-calls k [] h = tt
  chunks-calls k (c ∷ cs) h = (h.0, chunks-calls (k + 1) cs h.1)

  -- A nonce does not come again later.
  later_nonce :
      (j k : ℕ) (cs : List Str)
      → j < k
      → k + length cs ≤ max_sequence + 1
      → contains (map (λ x. x.nonce) (calls_from k cs)) (nonce_for prefix j) ≡ false
  unfolding calls_from contains
  later_nonce j k [] h le = refl
  later_nonce j k (c ∷ cs) h le =
      elim (Bool-cases (str_eq (nonce_for prefix k) (nonce_for prefix j))) [
        | inl e ↦
            let same : k ≡ j =
              nonce_for-injective prefix k j (omega (arith, le)) (omega (arith, le, h))
                ((str_eq_iff (nonce_for prefix k) (nonce_for prefix j)).0 e) in
            absurd (omega (arith, h, same))
        | inr e ↦ rw e (later_nonce j (k + 1) cs (omega (arith, h)) (omega (arith, le)))
      ]

  nonces-calls :
      (k : ℕ) (cs : List Str)
      → k + length cs ≤ max_sequence + 1
      → Distinct (map (λ x. x.nonce) (calls_from k cs))
  unfolding calls_from
  nonces-calls k [] le = tt
  nonces-calls k (c ∷ cs) le = (
    later_nonce k (k + 1) cs (omega arith) (omega (arith, le)),
    nonces-calls (k + 1) cs (omega (arith, le)),
  )

module _ (gcm : Str → Option Aead) (aead : Aead) (laws : IsAead aead) (key : Str)
    (cipher : gcm key ≡ some aead) (right_key : length key ≡ key_size) where
  -- For a cipher as `IsAead` describes it and a key of 32 bytes, a random source with enough
  -- bytes for the prefix of the nonces, and a snapshot of less than 2^32 * 2^20 bytes, `Encrypt`
  -- succeeds, and its file is the magic, the prefix, and the outputs of calls of the cipher, each
  -- after its length, with a length of zero at the end. The calls seal the snapshot in order, in
  -- chunks of one byte to 2^20 bytes, and no two of them use one nonce.
  pub encrypt-SealedApart :
      (prefix random snapshot : Str)
      → length prefix ≡ aead.nonce_size - 4
      → length snapshot < 2 ^ 32 * chunk_size
      → (file : Str) × (encrypt gcm
            (open_reader snapshot)
            (endless [])
            key
            (open_reader (prefix ++ random))
          ≡ done (endless file))
        × SealedApart aead prefix snapshot file
  encrypt-SealedApart prefix random snapshot size small =
      let (file, made, b) =
        encrypt-IsBackup gcm aead laws key cipher right_key prefix random snapshot size
          (omega (arith, small)) in
      (
        file,
        made,
        record {
          calls = calls_from aead prefix 0 b.chunks;
          whole = ap concat (plain-calls aead prefix 0 b.chunks) ∙ b.joined;
          chunks = chunks-calls aead prefix 0 b.chunks b.sizes;
          nonces = nonces-calls aead prefix 0 b.chunks (omega (arith, b.count, small));
          layout =
              b.layout
              ∙ ap (λ s. magic ++ (prefix ++ s)) (sym (framed-calls aead prefix 0 b.chunks));
        },
      )
