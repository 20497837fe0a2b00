-- ===== src/Labels/Canonical.antt =====
-- What `canonical_label_set` accepts, and that its result identifies the set of labels.
use mathlib.Core.List.{
  Perm, Permᴰ, Mem, Nodup, Nodup-cons, mem-cons, not-mem-nil, mem-cons_self, mem-cons_of_mem,
  Nodup-nil,
}
use mathlib.Core.List.Perm
use mathlib.Core.Logic.{∥∥₁_elim}
use mathlib.Core.Logic.Or
use native.Mathlib.Nat.{ℕ_set}
use native.Mathlib.Decide.{ℕ_discrete}
use memory.Prelude.{
  suc, ◌≤◌, ◌≡◌, refl, sym, ap, ◌∙◌, inl, inr, Bool, true, false, not, ◌&&◌, ◌||◌, none, [], ◌∷◌,
  arith, length, Bool-cases, All, subst,
}
use memory.Prelude.Sort.{
  sort, sort-perm, sort-perm_eq, sort-IsSorted, sort-id, StrictOrder, IsSorted,
}
use memory.Text.Bytes.{Str, str_eq, str_eq_iff, str_lt, str_lt_irrefl, str_lt_trans, str_lt_total}
use memory.Text.Utf8.{runes}
use memory.Labels.{
  LabelSet, LabelResult, max_labels_per_set, well_formed, has_control, check_labels,
  has_adjacent_duplicate, canonical_label_set,
}

pub str_lt-StrictOrder : StrictOrder str_lt
str_lt-StrictOrder = record { irrefl = str_lt_irrefl; trans = str_lt_trans; total = str_lt_total }

Str-discrete : Discrete Str
Str-discrete = hlevel ℕ_discrete

pub Str-set : IsSet Str
Str-set = hlevel

pub LabelSet-set : IsSet LabelSet
LabelSet-set = hlevel

-- A label that the first loop lets through.
abbrev pub is_label : Str → Bool
is_label value = well_formed value && not (has_control (runes value))

abbrev pub AreLabels : LabelSet → Type 0
AreLabels labels = (x : Str) → Mem x labels → is_label x ≡ true

true_prop : (b : Bool) → IsProp (b ≡ true)
true_prop b = hlevel

AreLabels-cons : (x : Str) (xs : LabelSet) → is_label x ≡ true → AreLabels xs → AreLabels (x ∷ xs)
AreLabels-cons x xs h k y m = Or.elim (true_prop _) (mem-cons.0 m) (λ e. rw e h) (λ n. k y n)

false_prop : (b : Bool) → IsProp (b ≡ false)
false_prop b = hlevel

check_labels-none : (xs : LabelSet) → AreLabels xs → check_labels xs ≡ none
unfolding check_labels
check_labels-none [] h = refl
check_labels-none (x ∷ xs) h =
    ground (arith, h x mem-cons_self, check_labels-none xs (λ y m. h y (mem-cons_of_mem x m)))

check_labels-AreLabels : (xs : LabelSet) → check_labels xs ≡ none → AreLabels xs
unfolding check_labels
check_labels-AreLabels [] h = λ y m. absurd (not-mem-nil m)
check_labels-AreLabels (x ∷ xs) h =
    AreLabels-cons x xs (ground arith) (check_labels-AreLabels xs (ground arith))

length-Permᴰ : {xs ys : LabelSet} → Permᴰ xs ys → length xs ≡ length ys
length-Permᴰ Permᴰ.nil = refl
length-Permᴰ (Permᴰ.cons e d) = ap suc (length-Permᴰ d)
length-Permᴰ (Permᴰ.swap e f) = refl
length-Permᴰ (Permᴰ.trans d f) = length-Permᴰ d ∙ length-Permᴰ f

length-perm : {xs ys : LabelSet} → Perm xs ys → length xs ≡ length ys
length-perm p = ∥∥₁_elim p (ℕ_set _ _) length-Permᴰ

not_less_mem :
    (x y : Str) (xs : LabelSet) → All (λ z. str_lt z y ≡ false) xs → Mem x xs → str_lt x y ≡ false
not_less_mem x y [] h m = absurd (not-mem-nil m)
not_less_mem x y (z ∷ zs) h m =
    Or.elim (false_prop _) (mem-cons.0 m) (λ e. rw e h.0) (λ n. not_less_mem x y zs h.1 n)

-- In a sorted list, equal labels stand side by side.
adjacent-head :
    (x : Str) (xs : LabelSet)
    → IsSorted str_lt (x ∷ xs)
    → has_adjacent_duplicate (x ∷ xs) ≡ false
    → ¬ Mem x xs
unfolding has_adjacent_duplicate
adjacent-head x [] s h m = not-mem-nil m
adjacent-head x (y ∷ ys) s h m =
    Or.elim (λ a b. absurd a) (mem-cons.0 m) (λ e. apart (sym e))
      (λ n. apart (str_lt_total y x s.0.0 (not_less_mem x y ys s.1.0 n)))
  where
    apart : y ≡ x → ⊥
    apart e = cc ((str_eq_iff y x).1 e, unequal (str_eq y x) h)
      where
        unequal : (b : Bool) → b || has_adjacent_duplicate (y ∷ ys) ≡ false → b ≡ false
        unequal b k = ground arith

Nodup-of_adjacent :
    (xs : LabelSet) → IsSorted str_lt xs → has_adjacent_duplicate xs ≡ false → Nodup xs
unfolding has_adjacent_duplicate
Nodup-of_adjacent [] s h = Nodup-nil
Nodup-of_adjacent (x ∷ []) s h = Nodup-cons.1 (not-mem-nil, Nodup-nil)
Nodup-of_adjacent (x ∷ y ∷ ys) s h =
    Nodup-cons.1 (adjacent-head x (y ∷ ys) s h, Nodup-of_adjacent (y ∷ ys) s.1 (ground arith))

adjacent_of_Nodup : (xs : LabelSet) → Nodup xs → has_adjacent_duplicate xs ≡ false
unfolding has_adjacent_duplicate
adjacent_of_Nodup [] n = refl
adjacent_of_Nodup (x ∷ []) n = refl
adjacent_of_Nodup (x ∷ y ∷ ys) n = elim (Bool-cases (str_eq y x)) [
  | inl e ↦
      absurd ((Nodup-cons.0 n).0 (subst (λ z. Mem z (y ∷ ys)) ((str_eq_iff y x).0 e) mem-cons_self))
  | inr e ↦ rw e (adjacent_of_Nodup (y ∷ ys) (Nodup-cons.0 n).1)
]

-- The result of `canonical_label_set` is its labels in strictly ascending order: the same labels,
-- at most 16, without duplicates, each of them well-formed and free of control characters.
pub canonical_label_set-ok :
    (labels ls : LabelSet)
    → canonical_label_set labels ≡ LabelResult.ok ls
    → Perm ls labels
      × IsSorted str_lt ls
      × Nodup ls
      × AreLabels ls
      × (length ls ≤ max_labels_per_set)
unfolding canonical_label_set
canonical_label_set-ok labels ls h =
    let e : (ls ≡ sort str_lt labels)
        × (check_labels labels ≡ none)
        × (has_adjacent_duplicate (sort str_lt labels) ≡ false)
        × (length labels ≤ max_labels_per_set) =
      ground arith in
    let p = sort-perm str_lt labels in
    let s = sort-IsSorted str_lt str_lt-StrictOrder labels in
    rw e.0 (
      p,
      s,
      Nodup-of_adjacent _ s e.2,
      λ x m. check_labels-AreLabels labels e.1 x ((Perm.mem_iff p).0 m),
      omega (arith, length-perm p, e.3),
    )

-- Every list of at most 16 distinct labels, each well-formed and free of control characters, is
-- accepted, and the result is that list sorted.
pub canonical_label_set-accepts :
    (labels : LabelSet)
    → length labels ≤ max_labels_per_set
    → AreLabels labels
    → Nodup labels
    → canonical_label_set labels ≡ LabelResult.ok (sort str_lt labels)
unfolding canonical_label_set
canonical_label_set-accepts labels h k n = ground (
  arith,
  check_labels-none labels k,
  adjacent_of_Nodup _ (Perm.nodup (Perm.symm (sort-perm str_lt labels)) n),
)

-- A set of labels has one canonical form: if a list of labels is accepted, every reordering of it
-- is accepted with the same result.
pub canonical_label_set-perm :
    (labels others ls : LabelSet)
    → Perm labels others
    → canonical_label_set labels ≡ LabelResult.ok ls
    → canonical_label_set others ≡ LabelResult.ok ls
canonical_label_set-perm labels others ls p h =
    canonical_label_set-accepts others (omega (arith, length-perm p, length-perm r, c.4))
      (λ x m. c.3 x ((Perm.mem_iff q).1 m)) (Perm.nodup q c.2)
    ∙ ap LabelResult.ok (sorted ∙ sort_ls)
  where
    c :
        Perm ls labels
        × IsSorted str_lt ls
        × Nodup ls
        × AreLabels ls
        × (length ls ≤ max_labels_per_set)
    c = canonical_label_set-ok labels ls h

    r : Perm ls labels
    r = c.0

    q : Perm ls others
    q = Perm.trans r p

    sorted : sort str_lt others ≡ sort str_lt ls
    sorted = sort-perm_eq str_lt str_lt-StrictOrder LabelSet-set others ls (Perm.symm q)

    sort_ls : sort str_lt ls ≡ ls
    sort_ls = sort-id str_lt str_lt-StrictOrder ls c.1
