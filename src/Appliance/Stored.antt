-- ===== src/Appliance/Stored.antt =====
-- How the rows of the appliance hold the Spaces that a View reads and the labels of a capability, and what
-- `authorize` of internal/appliance/config.go reads back.
use mathlib.Core.List.{Perm, Permᴰ}
use mathlib.Core.Logic.{∥∥₁_elim}
use memory.Prelude.{
  ℕ, ◌+◌, ◌<◌, ◌≡◌, ◌≢◌, refl, sym, ap, ◌∙◌, subst, false, some, List, [], ◌∷◌, ◌++◌, inl, inr,
  arith, map, ltb, Bool-cases, All,
}
use memory.Prelude.Sort.{insert, sort}
use memory.Text.Bytes.{Str, str_eq, str_eq_iff}
use memory.Labels.{LabelSet, LabelResult, canonical_label_set}
use memory.Labels.Canonical.{LabelSet-set}
use memory.Appliance.{
  Codec, ViewReadSpace, Tables, of_view, earlier_ordinal, read_view_spaces, decode_stored_label_set,
}

-- The rows for the Spaces of a View, numbered in their order.
abbrev pub rows_from : Str → ℕ → List Str → List ViewReadSpace
rows_from view k [] = []
rows_from view k (space ∷ spaces) =
    record { view_id = view; space_id = space; ordinal = k } ∷ rows_from view (k + 1) spaces

-- The table holds these rows, and otherwise rows of other Views, in any order.
pub record HoldsSpaces (table : List ViewReadSpace) (view : Str) (spaces : List Str) : Type 0 where
  pub others : List ViewReadSpace
  pub foreign : All (λ r. r.view_id ≢ view) others
  pub rows : Perm (rows_from view 0 spaces ++ others) table

-- What the code relies on in `json.Marshal` and `json.Unmarshal`, of labels that are canonical.
pub record IsCodec (codec : Codec) : Type 0 where
  pub unmarshal-marshal :
      (labels : LabelSet)
      → canonical_label_set labels ≡ LabelResult.ok labels
      → codec.unmarshal (codec.marshal labels) ≡ some labels

-- The columns for the labels of a capability.
pub record HoldsLabels (codec : Codec) (encoded digest : Str) (labels : LabelSet) : Type 0 where
  pub is_canonical : canonical_label_set labels ≡ LabelResult.ok labels
  pub same_encoding : encoded ≡ codec.marshal labels
  pub same_digest : digest ≡ codec.digest_string (codec.marshal labels)

pub decode-HoldsLabels :
    (codec : Codec) (encoded digest : Str) (labels : LabelSet)
    → IsCodec codec
    → HoldsLabels codec encoded digest labels
    → decode_stored_label_set codec encoded digest ≡ some labels
unfolding decode_stored_label_set
decode-HoldsLabels codec encoded digest labels laws h =
    rw
      (
        h.same_encoding,
        h.same_digest,
        laws.unmarshal-marshal labels h.is_canonical,
        h.is_canonical,
        (str_eq_iff (codec.marshal labels) (codec.marshal labels)).1 refl,
        (str_eq_iff (codec.digest_string (codec.marshal labels))
              (codec.digest_string (codec.marshal labels))).1
            refl,
      )
      refl

Permᴰ-refl : (xs : List ViewReadSpace) → Permᴰ xs xs
Permᴰ-refl [] = Permᴰ.nil
Permᴰ-refl (x ∷ xs) = Permᴰ.cons refl (Permᴰ-refl xs)

-- No two rows have the same ordinal.
Apart : List ViewReadSpace → Type 0
Apart [] = Unit
Apart (r ∷ rs) = All (λ q. r.ordinal ≢ q.ordinal) rs × Apart rs

All-Permᴰ :
    (P : ViewReadSpace → Type 0) {xs ys : List ViewReadSpace} → Permᴰ xs ys → All P xs → All P ys
All-Permᴰ P Permᴰ.nil h = tt
All-Permᴰ P (Permᴰ.cons e d) h = (subst P e h.0, All-Permᴰ P d h.1)
All-Permᴰ P (Permᴰ.swap e f) h = (subst P f h.1.0, (subst P e h.0, h.1.1))
All-Permᴰ P (Permᴰ.trans d f) h = All-Permᴰ P f (All-Permᴰ P d h)

Apart-Permᴰ : {xs ys : List ViewReadSpace} → Permᴰ xs ys → Apart xs → Apart ys
unfolding Apart
Apart-Permᴰ Permᴰ.nil h = tt
Apart-Permᴰ (Permᴰ.cons {a = a} {l₂ = l₂} e d) h = (
  subst (λ x. All (λ q. x.ordinal ≢ q.ordinal) l₂) e (All-Permᴰ (λ q. a.ordinal ≢ q.ordinal) d h.0),
  Apart-Permᴰ d h.1,
)
Apart-Permᴰ (Permᴰ.swap {a = a} {b = b} {b' = b'} {l = l} e f) h =
    subst (λ x. Apart (x ∷ b' ∷ l)) f
      (subst (λ y. Apart (b ∷ y ∷ l)) e (((λ k. h.0.0 (sym k)), h.1.0), (h.0.1, h.1.1)))
Apart-Permᴰ (Permᴰ.trans d f) h = Apart-Permᴰ f (Apart-Permᴰ d h)

insert-insert :
    (a b : ViewReadSpace) (xs : List ViewReadSpace)
    → a.ordinal ≢ b.ordinal
    → insert earlier_ordinal a (insert earlier_ordinal b xs)
      ≡ insert earlier_ordinal b (insert earlier_ordinal a xs)
unfolding insert earlier_ordinal
insert-insert a b [] n = ground (arith, n)
insert-insert a b (x ∷ xs) n = ground (arith, n, insert-insert a b xs n)

sort-Permᴰ :
    {xs ys : List ViewReadSpace}
    → Permᴰ xs ys
    → Apart xs
    → sort earlier_ordinal xs ≡ sort earlier_ordinal ys
unfolding sort Apart
sort-Permᴰ Permᴰ.nil h = refl
sort-Permᴰ (Permᴰ.cons {a = a} {l₂ = l₂} e d) h =
    ap (insert earlier_ordinal a) (sort-Permᴰ d h.1)
    ∙ ap (λ x. insert earlier_ordinal x (sort earlier_ordinal l₂)) e
sort-Permᴰ (Permᴰ.swap {a = a} {b = b} {a' = a'} {l = l} e f) h =
    insert-insert a b (sort earlier_ordinal l) h.0.0
    ∙ ap (λ x. insert earlier_ordinal x (insert earlier_ordinal a (sort earlier_ordinal l))) f
    ∙ ap (λ y. insert earlier_ordinal a' (insert earlier_ordinal y (sort earlier_ordinal l))) e
sort-Permᴰ (Permᴰ.trans d f) h = sort-Permᴰ d h ∙ sort-Permᴰ f (Apart-Permᴰ d h)

module _ (view : Str) where
  of_view-swap :
      (a b : ViewReadSpace) (l : List ViewReadSpace)
      → Permᴰ (of_view view (a ∷ b ∷ l)) (of_view view (b ∷ a ∷ l))
  unfolding of_view
  of_view-swap a b l = elim (Bool-cases (str_eq a.view_id view)) [
    | inl p ↦ elim (Bool-cases (str_eq b.view_id view)) [
      | inl q ↦ rw (p, q) (Permᴰ.swap refl refl)
      | inr q ↦ rw (p, q) (Permᴰ-refl _)
    ]
    | inr p ↦ rw p (Permᴰ-refl _)
  ]

  of_view-Permᴰ :
      {xs ys : List ViewReadSpace} → Permᴰ xs ys → Permᴰ (of_view view xs) (of_view view ys)
  unfolding of_view
  of_view-Permᴰ Permᴰ.nil = Permᴰ.nil
  of_view-Permᴰ (Permᴰ.cons {a = a} {l₁ = l₁} {l₂ = l₂} e d) =
      subst (λ x. Permᴰ (of_view view (a ∷ l₁)) (of_view view (x ∷ l₂))) e
        (elim (Bool-cases (str_eq a.view_id view)) [
          | inl own ↦ rw own (Permᴰ.cons refl (of_view-Permᴰ d))
          | inr foreign ↦ rw foreign (of_view-Permᴰ d)
        ])
  of_view-Permᴰ (Permᴰ.swap {a = a} {b = b} {b' = b'} {l = l} e f) =
      subst (λ x. Permᴰ (of_view view (a ∷ b ∷ l)) (of_view view (x ∷ b' ∷ l))) f
        (subst (λ y. Permᴰ (of_view view (a ∷ b ∷ l)) (of_view view (b ∷ y ∷ l))) e
          (of_view-swap a b l))
  of_view-Permᴰ (Permᴰ.trans d f) = Permᴰ.trans (of_view-Permᴰ d) (of_view-Permᴰ f)

  of_view-foreign :
      (others : List ViewReadSpace) → All (λ r. r.view_id ≢ view) others → of_view view others ≡ []
  unfolding of_view
  of_view-foreign [] h = refl
  of_view-foreign (r ∷ rs) h = elim (Bool-cases (str_eq r.view_id view)) [
    | inl own ↦ absurd (h.0 ((str_eq_iff r.view_id view).0 own))
    | inr foreign ↦ rw foreign (of_view-foreign rs h.1)
  ]

  of_view-rows :
      (k : ℕ) (spaces : List Str) (others : List ViewReadSpace)
      → All (λ r. r.view_id ≢ view) others
      → of_view view (rows_from view k spaces ++ others) ≡ rows_from view k spaces
  unfolding of_view
  of_view-rows k [] others h = of_view-foreign others h
  of_view-rows k (space ∷ spaces) others h = rw ((str_eq_iff view view).1 refl) (
      ap (λ rest. record { view_id = view; space_id = space; ordinal = k } ∷ rest)
        (of_view-rows (k + 1) spaces others h))

  later_rows :
      (j k : ℕ) (spaces : List Str)
      → j < k
      → All (λ (q : ViewReadSpace). j ≢ q.ordinal) (rows_from view k spaces)
  later_rows j k [] h = tt
  later_rows j k (space ∷ spaces) h =
      ((λ e. omega (arith, h, e)), later_rows j (k + 1) spaces (omega (arith, h)))

  rows_from-Apart : (k : ℕ) (spaces : List Str) → Apart (rows_from view k spaces)
  unfolding Apart
  rows_from-Apart k [] = tt
  rows_from-Apart k (space ∷ spaces) =
      (later_rows k (k + 1) spaces (omega arith), rows_from-Apart (k + 1) spaces)

  sort-rows_from :
      (k : ℕ) (spaces : List Str)
      → sort earlier_ordinal (rows_from view k spaces) ≡ rows_from view k spaces
  unfolding sort insert earlier_ordinal
  sort-rows_from k [] = refl
  sort-rows_from k (space ∷ []) = refl
  sort-rows_from k (space ∷ next ∷ spaces) =
      rw (sort-rows_from (k + 1) (next ∷ spaces), not_earlier k) refl
    where
      not_earlier : (k : ℕ) → ltb (k + 1) k ≡ false
      not_earlier k = ground arith

  spaces-rows_from :
      (k : ℕ) (spaces : List Str) → map (λ r. r.space_id) (rows_from view k spaces) ≡ spaces
  spaces-rows_from k [] = refl
  spaces-rows_from k (space ∷ spaces) = ap (λ rest. space ∷ rest) (spaces-rows_from (k + 1) spaces)

  -- The Spaces are read back in their order.
  pub read-HoldsSpaces :
      (t : Tables) (spaces : List Str)
      → HoldsSpaces t.view_read_spaces view spaces
      → read_view_spaces t view ≡ spaces
  unfolding read_view_spaces
  read-HoldsSpaces t spaces h = ∥∥₁_elim h.rows (LabelSet-set _ _) λ d.
      let own : of_view view (rows_from view 0 spaces ++ h.others) ≡ rows_from view 0 spaces =
        of_view-rows 0 spaces h.others h.foreign in
      ap (map (λ r. r.space_id)) (
        sym (sort-Permᴰ (of_view-Permᴰ d) (subst Apart (sym own) (rows_from-Apart 0 spaces)))
        ∙ ap (sort earlier_ordinal) own
        ∙ sort-rows_from 0 spaces)
      ∙ spaces-rows_from 0 spaces
