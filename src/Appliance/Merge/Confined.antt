-- ===== src/Appliance/Merge/Confined.antt =====
-- The receipts that an entry of `mergeRecallCandidates` names, by those of the candidates.
use memory.Prelude.{
  ◌≡◌, refl, sym, ◌∙◌, subst, true, List, [], ◌∷◌, inl, inr, arith, map, contains, Bool-cases, All,
}
use memory.Text.Bytes.{Str, Str-eq, str_eq_iff}
use memory.Appliance.Merge.{
  RecallCandidate, append_new, append_unique, join_into, fresh, sort_refs, is_target, place,
  merge_loop, merge_recall_candidates,
}
use memory.Appliance.Merge.Kept.{contains-append, contains-sort}

module _ (P : Str → Type 0) where
  -- Every element of a list satisfies the predicate.
  abbrev pub AreIn : List Str → Type 0
  AreIn xs = (e : Str) → contains xs e ≡ true → P e

  -- Every receipt that the candidate rests on does.
  abbrev pub IsIn : RecallCandidate → Type 0
  IsIn c = AreIn c.evidence_refs

  append_new-AreIn : (xs : List Str) (v : Str) → AreIn xs → P v → AreIn (append_new xs v)
  unfolding contains
  append_new-AreIn xs v h p e k = elim (Bool-cases (contains xs e)) [
    | inl old ↦ h e old
    | inr new ↦
        subst P ((str_eq_iff v e).0 (ground (arith, k, new, contains-append xs (v ∷ []) e))) p
  ]

  append_unique-AreIn : (vs xs : List Str) → AreIn xs → AreIn vs → AreIn (append_unique xs vs)
  unfolding append_unique contains
  append_unique-AreIn [] xs h p = h
  append_unique-AreIn (v ∷ vs) xs h p =
      append_unique-AreIn vs (append_new xs v)
        (append_new-AreIn xs v h (p v (ground (arith, (str_eq_iff v v).1 refl))))
        (λ e k. p e (ground (arith, k)))

  place-IsIn :
      (to_lower : Str → Str) (c : RecallCandidate) (ms : List RecallCandidate)
      → IsIn c
      → All IsIn ms
      → All IsIn (place to_lower c ms)
  unfolding place fresh join_into contains
  place-IsIn to_lower c [] h hs =
      (append_unique-AreIn c.evidence_refs [] (λ e k. absurd (cc (k))) h, tt)
  place-IsIn to_lower c (m ∷ ms) h hs = elim (Bool-cases (is_target to_lower c m)) [
    | inl e ↦ rw e (append_unique-AreIn c.evidence_refs m.evidence_refs hs.0 h, hs.1)
    | inr e ↦ rw e (hs.0, place-IsIn to_lower c ms h hs.1)
  ]

  merge_loop-IsIn :
      (to_lower : Str → Str) (cs ms : List RecallCandidate)
      → All IsIn cs
      → All IsIn ms
      → All IsIn (merge_loop to_lower cs ms)
  unfolding merge_loop
  merge_loop-IsIn to_lower [] ms h hs = hs
  merge_loop-IsIn to_lower (c ∷ cs) ms h hs =
      merge_loop-IsIn to_lower cs (place to_lower c ms) h.1 (place-IsIn to_lower c ms h.0 hs)

  sort_refs-IsIn : (ms : List RecallCandidate) → All IsIn ms → All IsIn (map sort_refs ms)
  unfolding sort_refs
  sort_refs-IsIn [] h = tt
  sort_refs-IsIn (m ∷ ms) h =
      ((λ e k. h.0 e (sym (contains-sort m.evidence_refs e) ∙ k)), sort_refs-IsIn ms h.1)

  -- Whatever holds of every receipt that some candidate of a Recall names as its evidence holds
  -- of every receipt that an entry names after merging.
  pub merge_recall_candidates-IsIn :
      (to_lower : Str → Str) (cs : List RecallCandidate)
      → All IsIn cs
      → All IsIn (merge_recall_candidates to_lower cs)
  unfolding merge_recall_candidates
  merge_recall_candidates-IsIn to_lower cs h =
      sort_refs-IsIn (merge_loop to_lower cs []) (merge_loop-IsIn to_lower cs [] h tt)
