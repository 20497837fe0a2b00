-- ===== src/Backup/Truncated.antt =====
-- `Decrypt` on a file that another file begins with.
use memory.Prelude.{
  ℕ, zero, suc, ◌+◌, ◌-◌, ◌≤◌, ◌≡◌, refl, sym, ap, ◌∙◌, true, false, Option, [], ◌∷◌, ◌++◌, arith,
  ltb, leb, nat_eq, if◌then◌else◌, length, take, drop, length-append, Bool-cases, Option-cases, inl,
  inr,
}
use mathlib.Core.List.{append_assoc}
use memory.Text.Bytes.{Str, str_eq}
use memory.Backup.{
  Reader, Writer, Aead, Outcome, ReadResult, full, eof, short, read_failed, done, failed,
  trailing_bytes, bad_length, invalid_length, bad_chunk, bad_nonce, bad_header, max_sequence, magic,
  key_size, read_full, uint32, valid_length, open_chunk, read_end, decrypt_chunks, decrypt,
  new_aead, on_full, ◌>=>◌,
}
use memory.Backup.Stream.{
  open_reader, read_full-append, take-drop, length-take, leb→le, read_full_whole,
}

read_full_more :
    (n : ℕ) (s more : Str)
    → leb n (length s) ≡ true
    → read_full n (open_reader (s ++ more)) ≡ full (take n s) (open_reader (drop n s ++ more))
read_full_more n s more h =
    ap (λ t. read_full n (open_reader t))
      (ap (λ t. t ++ more) (sym (take-drop n s)) ∙ append_assoc (take n s) (drop n s) more)
    ∙ read_full-append n (take n s) (drop n s ++ more) false
        (length-take n s (leb→le n (length s) h))

-- A result that is not all of the bytes.
abbrev IsDry : ReadResult → Type 0
IsDry (full a b) = ⊥
IsDry _ = Unit

read_full-IsDry : (n : ℕ) (s : Str) → leb n (length s) ≡ false → IsDry (read_full n (open_reader s))
unfolding read_full
read_full-IsDry n [] h = rw h tt
read_full-IsDry n (x ∷ s) h = rw h tt

on_full_dry :
    (r : ReadResult) (f : Str → Reader → Outcome) (e : Outcome) → IsDry r → on_full r f e ≡ e
on_full_dry (full a b) f e h = absurd h
on_full_dry eof f e h = refl
on_full_dry (short a) f e h = refl
on_full_dry read_failed f e h = refl

-- A read before a success was whole, and so it is on the longer file.
read_full_grows {ℓ} :
    {P : Type ℓ} (n : ℕ) (s more : Str) (f : Str → Reader → Outcome) (e : Outcome) {w : Writer}
    → ((v : Writer) → e ≡ done v → ⊥)
    → on_full (read_full n (open_reader s)) f e ≡ done w
    → (f (take n s) (open_reader (drop n s)) ≡ done w
        → read_full n (open_reader (s ++ more)) ≡ full (take n s) (open_reader (drop n s ++ more))
        → P)
    → P
read_full_grows n s more f e {w} fails h k = elim (Bool-cases (leb n (length s))) [
  | inl whole ↦ k (rw (read_full_whole n s whole) at h) (read_full_more n s more whole)
  | inr dry ↦
      absurd (
        fails w (sym (on_full_dry (read_full n (open_reader s)) f e (read_full-IsDry n s dry)) ∙ h))
]

>=>-from-done {ℓ} :
    {P : Type ℓ} (m : Outcome) (f : Writer → Outcome) {w : Writer}
    → (m >=> f) ≡ done w
    → ((v : Writer) → m ≡ done v → f v ≡ done w → P)
    → P
>=>-from-done (done v) f h k = k v refl h
>=>-from-done (failed e v) f h k = absurd (cc (h))

module _ (aead : Aead) (prefix : Str) (x : ℕ) (more : Str) where
  read_end-longer :
      (s : Str) (v w : Writer)
      → read_end (open_reader s) v ≡ done w
      → read_end (open_reader (s ++ x ∷ more)) v ≡ failed trailing_bytes w
  unfolding read_end
  read_end-longer [] v w h = ground arith
  read_end-longer (y ∷ s) v w h = absurd (cc (h))

  -- One round after its four bytes.
  decrypt_chunk-longer :
      (fuel longer sequence : ℕ) (four after : Str) (v w : Writer)
      → ((s1 : Str) (v1 : Writer)
          → decrypt_chunks fuel aead prefix (sequence + 1) (open_reader s1) v1 ≡ done w
          → decrypt_chunks longer aead prefix (sequence + 1) (open_reader (s1 ++ x ∷ more)) v1
            ≡ failed trailing_bytes w)
      → (if nat_eq (uint32 four) 0
          then read_end (open_reader after) v
          else if valid_length aead (uint32 four)
          then on_full
              (read_full (uint32 four) (open_reader after))
              (λ sealed rest. open_chunk aead prefix sequence sealed v >=> λ w1.
                decrypt_chunks fuel aead prefix (sequence + 1) rest w1)
              (failed bad_chunk v)
          else failed invalid_length v)
        ≡ done w
      → (if nat_eq (uint32 four) 0
          then read_end (open_reader (after ++ x ∷ more)) v
          else if valid_length aead (uint32 four)
          then on_full
              (read_full (uint32 four) (open_reader (after ++ x ∷ more)))
              (λ sealed rest. open_chunk aead prefix sequence sealed v >=> λ w1.
                decrypt_chunks longer aead prefix (sequence + 1) rest w1)
              (failed bad_chunk v)
          else failed invalid_length v)
        ≡ failed trailing_bytes w
  decrypt_chunk-longer fuel longer sequence four after v w rec h =
      elim (Bool-cases (nat_eq (uint32 four) 0)) [
        | inl last ↦ rw last (read_end-longer after v w (rw last at h))
        | inr chunk ↦ elim (Bool-cases (valid_length aead (uint32 four))) [
          | inr bad ↦ absurd (cc (rw bad at (rw chunk at h)))
          | inl good ↦
              read_full_grows (uint32 four) after (x ∷ more) _ (failed bad_chunk v) (λ _ e. cc (e))
                (rw good at (rw chunk at h))
                λ h1 grown.
                  >=>-from-done (open_chunk aead prefix sequence (take (uint32 four) after) v) _ h1
                    λ v1 opened h2.
                      rw chunk
                        (rw good (rw grown (rw opened (rec (drop (uint32 four) after) v1 h2))))
        ]
      ]

  decrypt_chunks-longer :
      (fuel longer sequence : ℕ) (s : Str) (v w : Writer)
      → fuel ≤ longer
      → decrypt_chunks fuel aead prefix sequence (open_reader s) v ≡ done w
      → decrypt_chunks longer aead prefix sequence (open_reader (s ++ x ∷ more)) v
        ≡ failed trailing_bytes w
  unfolding decrypt_chunks
  decrypt_chunks-longer zero longer sequence s v w le h = absurd (cc (h))
  decrypt_chunks-longer (suc fuel) zero sequence s v w le h = absurd (omega arith)
  decrypt_chunks-longer (suc fuel) (suc longer) sequence s v w le h =
      elim (Bool-cases (ltb max_sequence sequence)) [
        | inl past ↦ absurd (cc (rw past at h))
        | inr within ↦
            read_full_grows 4 s (x ∷ more) _ (failed bad_length v) (λ _ e. cc (e)) (rw within at h)
              λ h1 grown. rw within (
                rw grown (
                  decrypt_chunk-longer fuel longer sequence (take 4 s) (drop 4 s) v w
                    (λ s1 v1.
                      decrypt_chunks-longer fuel longer (sequence + 1) s1 v1 w (omega (arith, le)))
                    h1))
      ]

module _ (gcm : Str → Option Aead) (key file : Str) (output w : Writer) (x : ℕ) (more : Str) where
  -- A file that `Decrypt` accepts, when it is read without an error, is refused for its trailing
  -- bytes when one byte or more is added at its end, whatever the cipher is.
  pub decrypt_longer :
      decrypt gcm (open_reader file) output key ≡ done w
      → decrypt gcm (open_reader (file ++ x ∷ more)) output key ≡ failed trailing_bytes w
  unfolding decrypt new_aead
  decrypt_longer h = elim (Bool-cases (nat_eq (length key) key_size)) [
    | inr wrong ↦ absurd (cc (rw wrong at h))
    | inl right ↦ elim (Option-cases (gcm key)) [
      | inl missing ↦ absurd (cc (rw missing at (rw right at h)))
      | inr (aead, cipher) ↦
          read_full_grows (length magic) file (x ∷ more) _ (failed bad_header output)
            (λ _ e. cc (e)) (rw cipher at (rw right at h))
            λ h1 grown. elim (Bool-cases (str_eq (take (length magic) file) magic)) [
              | inr other ↦ absurd (cc (rw other at h1))
              | inl same ↦
                  read_full_grows (aead.nonce_size - 4) (drop (length magic) file) (x ∷ more) _
                    (failed bad_nonce output) (λ _ e. cc (e)) (rw same at h1)
                    λ h2 grown2. rw right (
                      rw cipher (
                        rw grown (
                          rw same (
                            rw grown2 (
                              decrypt_chunks-longer aead _ x more (length file + 1)
                                (length (file ++ x ∷ more) + 1) 0 _ output w
                                (omega (arith, length-append file (x ∷ more))) h2)))))
            ]
    ]
  ]
