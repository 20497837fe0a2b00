-- ===== src/Labels.antt =====
-- `CanonicalLabelSet` of api/memory/v1alpha1/labels.go. Labels are opaque strings.
pub mod Canonical
use memory.Prelude.{
  ℕ, ◌≡◌, ◌↔◌, arith, Bool, true, false, not, ◌&&◌, ◌||◌, Option, none, some, List, [], ◌∷◌, ltb,
  if◌then◌else◌, length,
}
use memory.Prelude.Sort.{sort}
use memory.Text.Bytes.{Str, str_eq, str_eq_iff, str_lt}
use memory.Text.Utf8.{valid_string, runes}
use memory.Text.Strings.{trim_space, is_control}

abbrev pub max_labels_per_set : ℕ
max_labels_per_set = 16

abbrev pub max_label_bytes : ℕ
max_label_bytes = 128

abbrev pub LabelSet : Type 0
LabelSet = List Str

pub data LabelError : Type 0 where
  too_many_labels malformed_label control_character duplicate_labels : LabelError

pub data LabelResult : Type 0 where
  ok : LabelSet → LabelResult
  err : LabelError → LabelResult

unfoldable pub well_formed : Str → Bool
well_formed value =
    valid_string value
    && not (str_eq value [])
    && not (ltb max_label_bytes (length value))
    && str_eq (trim_space value) value

unfoldable pub has_control : List ℕ → Bool
has_control [] = false
has_control (r ∷ rs) = is_control r || has_control rs

-- The first loop: the error of the first label that is refused.
unfoldable pub check_labels : List Str → Option LabelError
check_labels [] = none
check_labels (value ∷ rest) =
    let more = check_labels rest in
    if well_formed value
    then (if has_control (runes value) then some control_character else more)
    else some malformed_label

-- The second loop, over the sorted labels.
unfoldable pub has_adjacent_duplicate : LabelSet → Bool
has_adjacent_duplicate [] = false
has_adjacent_duplicate (x ∷ []) = false
has_adjacent_duplicate (x ∷ y ∷ rest) = str_eq y x || has_adjacent_duplicate (y ∷ rest)

unfoldable pub canonical_label_set : LabelSet → LabelResult
canonical_label_set labels =
    if ltb max_labels_per_set (length labels)
    then err too_many_labels
    else elim (check_labels labels) [
      | some e ↦ err e
      | none ↦
          let canonical = sort str_lt labels in
          if has_adjacent_duplicate canonical then err duplicate_labels else ok canonical
    ]

-- `slices.Equal`
unfoldable pub labels_eq : LabelSet → LabelSet → Bool
labels_eq [] [] = true
labels_eq [] (y ∷ ys) = false
labels_eq (x ∷ xs) [] = false
labels_eq (x ∷ xs) (y ∷ ys) = str_eq x y && labels_eq xs ys

pub labels_eq_iff : (a b : LabelSet) → (labels_eq a b ≡ true) ↔ (a ≡ b)
unfolding labels_eq
labels_eq_iff [] [] = ground arith
labels_eq_iff [] (y ∷ ys) = ground arith
labels_eq_iff (x ∷ xs) [] = ground arith
labels_eq_iff (x ∷ xs) (y ∷ ys) = ground (arith, str_eq_iff x y, labels_eq_iff xs ys)
