-- ===== src/Appliance/Merge/Kept.antt =====
-- What `mergeRecallCandidates` keeps of each candidate.
use memory.Prelude.{
  ◌≡◌, refl, sym, ◌∙◌, subst, true, false, not, ◌&&◌, ◌||◌, List, [], ◌∷◌, ◌++◌, ◌⊎◌, inl, inr,
  arith, map, if◌then◌else◌, contains, Bool-cases, All, All-map,
}
use memory.Prelude.Sort.{insert, sort}
use memory.Text.Bytes.{Str, Str-eq, str_eq, str_eq_iff, str_lt}
use memory.Reference.Types.{SpaceClass, is_private}
use memory.Appliance.Merge.{
  RecallCandidate, append_new, append_unique, is_shared, join_into, fresh, sort_refs,
  normalized_recall_text, is_target, place, merge_loop, merge_recall_candidates,
}

pub contains-append :
    (xs ys : List Str) (e : Str) → contains (xs ++ ys) e ≡ contains xs e || contains ys e
unfolding contains
contains-append [] ys e = refl
contains-append (x ∷ xs) ys e = ground (arith, contains-append xs ys e)

append_new-left :
    (xs : List Str) (v e : Str) → contains xs e ≡ true → contains (append_new xs v) e ≡ true
append_new-left xs v e h = ground (arith, h, contains-append xs (v ∷ []) e)

append_unique-left :
    (vs xs : List Str) (e : Str) → contains xs e ≡ true → contains (append_unique xs vs) e ≡ true
unfolding append_unique
append_unique-left [] xs e h = h
append_unique-left (v ∷ vs) xs e h =
    append_unique-left vs (append_new xs v) e (append_new-left xs v e h)

append_new-right :
    (xs : List Str) (v : Str) → str_eq v [] ≡ false → contains (append_new xs v) v ≡ true
unfolding contains
append_new-right xs v n = ground (arith, n, contains-append xs (v ∷ []) v, (str_eq_iff v v).1 refl)

append_unique-right :
    (vs xs : List Str) (e : Str)
    → str_eq e [] ≡ false
    → contains vs e ≡ true
    → contains (append_unique xs vs) e ≡ true
unfolding append_unique contains
append_unique-right [] xs e n h = absurd (cc (h))
append_unique-right (v ∷ vs) xs e n h = elim (Bool-cases (str_eq v e)) [
  | inl same ↦ append_unique-left vs (append_new xs v) e (
      subst (λ x. contains (append_new xs v) x ≡ true) ((str_eq_iff v e).0 same)
        (append_new-right xs v
          (subst (λ x. str_eq x [] ≡ false) (sym ((str_eq_iff v e).0 same)) n)))
  | inr other ↦ append_unique-right vs (append_new xs v) e n (rw other at h)
]

contains-insert :
    (a : Str) (xs : List Str) (e : Str) → contains (insert str_lt a xs) e ≡ contains (a ∷ xs) e
unfolding contains insert
contains-insert a [] e = refl
contains-insert a (x ∷ xs) e = ground (arith, contains-insert a xs e)

pub contains-sort : (xs : List Str) (e : Str) → contains (sort str_lt xs) e ≡ contains xs e
unfolding contains sort
contains-sort [] e = refl
contains-sort (x ∷ xs) e = ground (arith, contains-insert x (sort str_lt xs) e, contains-sort xs e)

-- An entry says what a candidate says, names all that it rests on, is not shared if it is private, and is no record
-- of the semantic index if it is none.
pub record Covers (to_lower : Str → Str) (c m : RecallCandidate) : Type 0 where
  pub same_text : normalized_recall_text to_lower m.text ≡ normalized_recall_text to_lower c.text
  pub evidence :
      (e : Str)
      → str_eq e [] ≡ false
      → contains c.evidence_refs e ≡ true
      → contains m.evidence_refs e ≡ true
  pub records :
      (e : Str)
      → str_eq e [] ≡ false
      → contains c.record_refs e ≡ true
      → contains m.record_refs e ≡ true
  pub stays_private : is_private c.class ≡ true → is_shared m.class ≡ false
  pub stays_plain : c.semantic ≡ false → m.semantic ≡ false

private_not_shared : (class : SpaceClass) → is_private class ≡ true → is_shared class ≡ false
private_not_shared SpaceClass.private h = refl
private_not_shared SpaceClass.shared h = absurd (cc (h))
private_not_shared (SpaceClass.other name) h = refl

abbrev joined_class : SpaceClass → SpaceClass → SpaceClass
joined_class current class =
    if is_shared current && is_private class then SpaceClass.private else current

private_joined :
    (current class : SpaceClass)
    → is_private class ≡ true
    → is_shared (joined_class current class) ≡ false
private_joined SpaceClass.private class k = refl
private_joined SpaceClass.shared class k = rw k refl
private_joined (SpaceClass.other name) class k = refl

shared_kept :
    (current class : SpaceClass)
    → is_shared current ≡ false
    → is_shared (joined_class current class) ≡ false
shared_kept current class k = rw k k

module _ (to_lower : Str → Str) where
  fresh-Covers : (c : RecallCandidate) → Covers to_lower c (fresh c)
  unfolding fresh
  fresh-Covers c = record {
    same_text = refl;
    evidence = λ e n h. append_unique-right c.evidence_refs [] e n h;
    records = λ e n h. append_unique-right c.record_refs [] e n h;
    stays_private = private_not_shared c.class;
    stays_plain = λ h. h;
  }

  -- An entry that a candidate is merged into says the same.
  target_text :
      (c m : RecallCandidate)
      → is_target to_lower c m ≡ true
      → normalized_recall_text to_lower m.text ≡ normalized_recall_text to_lower c.text
  unfolding is_target
  target_text c m h =
      (str_eq_iff (normalized_recall_text to_lower m.text)
          (normalized_recall_text to_lower c.text)).0
        (ground (arith, h))

  joined_text :
      (c m : RecallCandidate)
      → is_target to_lower c m ≡ true
      → normalized_recall_text to_lower (join_into c m).text
        ≡ normalized_recall_text to_lower c.text
  unfolding join_into
  joined_text c m h = elim (Bool-cases (m.semantic && not c.semantic)) [
    | inl e ↦ rw e refl
    | inr e ↦ rw e (target_text c m h)
  ]

  -- The candidate that is merged into an entry.
  join_into-Covers :
      (c m : RecallCandidate) → is_target to_lower c m ≡ true → Covers to_lower c (join_into c m)
  unfolding join_into
  join_into-Covers c m h = record {
    same_text = joined_text c m h;
    evidence = λ e n k. append_unique-right c.evidence_refs m.evidence_refs e n k;
    records = λ e n k. append_unique-right c.record_refs m.record_refs e n k;
    stays_private = λ k. private_joined m.class c.class k;
    stays_plain = λ k. ground (arith, k);
  }

  -- What an entry covered already.
  kept-Covers :
      (d c m : RecallCandidate)
      → is_target to_lower c m ≡ true
      → Covers to_lower d m
      → Covers to_lower d (join_into c m)
  unfolding join_into
  kept-Covers d c m h v = record {
    same_text = joined_text c m h ∙ sym (target_text c m h) ∙ v.same_text;
    evidence = λ e n k. append_unique-left c.evidence_refs m.evidence_refs e (v.evidence e n k);
    records = λ e n k. append_unique-left c.record_refs m.record_refs e (v.records e n k);
    stays_private = λ k. shared_kept m.class c.class (v.stays_private k);
    stays_plain = λ k. ground (arith, v.stays_plain k);
  }

  sort_refs-Covers : (c m : RecallCandidate) → Covers to_lower c m → Covers to_lower c (sort_refs m)
  unfolding sort_refs
  sort_refs-Covers c m v = record {
    same_text = v.same_text;
    evidence = λ e n k. contains-sort m.evidence_refs e ∙ v.evidence e n k;
    records = λ e n k. contains-sort m.record_refs e ∙ v.records e n k;
    stays_private = v.stays_private;
    stays_plain = v.stays_plain;
  }

  -- Some entry covers the candidate.
  abbrev pub IsCovered : List RecallCandidate → RecallCandidate → Type 0
  IsCovered [] c = ⊥
  IsCovered (m ∷ ms) c = Covers to_lower c m ⊎ IsCovered ms c

  place-IsCovered :
      (c : RecallCandidate) (ms : List RecallCandidate) → IsCovered (place to_lower c ms) c
  unfolding place
  place-IsCovered c [] = inl (fresh-Covers c)
  place-IsCovered c (m ∷ ms) = elim (Bool-cases (is_target to_lower c m)) [
    | inl e ↦ rw e (inl (join_into-Covers c m e))
    | inr e ↦ rw e (inr (place-IsCovered c ms))
  ]

  place-kept :
      (c d : RecallCandidate) (ms : List RecallCandidate)
      → IsCovered ms d
      → IsCovered (place to_lower c ms) d
  unfolding place
  place-kept c d [] h = absurd h
  place-kept c d (m ∷ ms) (inl v) = elim (Bool-cases (is_target to_lower c m)) [
    | inl e ↦ rw e (inl (kept-Covers d c m e v))
    | inr e ↦ rw e (inl v)
  ]
  place-kept c d (m ∷ ms) (inr h) = elim (Bool-cases (is_target to_lower c m)) [
    | inl e ↦ rw e (inr h)
    | inr e ↦ rw e (inr (place-kept c d ms h))
  ]

  merge_loop-kept :
      (cs : List RecallCandidate) (d : RecallCandidate) (ms : List RecallCandidate)
      → IsCovered ms d
      → IsCovered (merge_loop to_lower cs ms) d
  unfolding merge_loop
  merge_loop-kept [] d ms h = h
  merge_loop-kept (c ∷ cs) d ms h = merge_loop-kept cs d (place to_lower c ms) (place-kept c d ms h)

  merge_loop-IsCovered :
      (cs ms : List RecallCandidate) → All (IsCovered (merge_loop to_lower cs ms)) cs
  unfolding merge_loop
  merge_loop-IsCovered [] ms = tt
  merge_loop-IsCovered (c ∷ cs) ms = (
    merge_loop-kept cs c (place to_lower c ms) (place-IsCovered c ms),
    merge_loop-IsCovered cs (place to_lower c ms),
  )

  sort_refs-IsCovered :
      (ms : List RecallCandidate) (c : RecallCandidate)
      → IsCovered ms c
      → IsCovered (map sort_refs ms) c
  sort_refs-IsCovered [] c h = h
  sort_refs-IsCovered (m ∷ ms) c (inl v) = inl (sort_refs-Covers c m v)
  sort_refs-IsCovered (m ∷ ms) c (inr h) = inr (sort_refs-IsCovered ms c h)

  -- After the candidates of a Recall are merged, every candidate is covered by some entry: the
  -- entry has the same normalized text and names every receipt and every record, with an
  -- identifier that is not empty, that the candidate names; it is not shared if the candidate is
  -- private, and it is not semantic if the candidate is not.
  pub merge_recall_candidates-IsCovered :
      (cs : List RecallCandidate) → All (IsCovered (merge_recall_candidates to_lower cs)) cs
  unfolding merge_recall_candidates
  merge_recall_candidates-IsCovered cs =
      All-map (sort_refs-IsCovered (merge_loop to_lower cs [])) cs (merge_loop-IsCovered cs [])
