-- ===== src/Appliance/Merge.antt =====
-- The candidates of a Recall of the appliance that say the same are merged: `mergeRecallCandidates` of
-- internal/appliance/semantic_recall.go. `to_lower` is `strings.ToLower`. The rank of a candidate, a floating-point
-- number, is left out; merging does not read it.
pub mod Kept
pub mod Confined
use memory.Prelude.{
  ℕ, ◌+◌, ◌≡◌, ◌≢◌, refl, sym, ap, ◌∙◌, Bool, true, false, not, ◌&&◌, ◌||◌, List, [], ◌∷◌, ◌++◌,
  ◌⊎◌, inl, inr, arith, map, if◌then◌else◌, contains, Bool-cases, All, All-map, ◌==◌,
}
use memory.Prelude.Sort.{insert, sort}
use memory.Text.Bytes.{Str, Str-eq, str_eq, str_eq_iff, str_lt, bytes}
use memory.Text.Strings.{fields}
use memory.Requests.{Time}
use memory.Reference.Types.{SpaceClass, is_private}

-- `recallCandidate`
pub record RecallCandidate : Type 0 where
  pub fragment_id : Str
  pub text : Str
  pub evidence_refs : List Str
  pub record_refs : List Str
  pub record_revision : ℕ
  pub class : SpaceClass
  pub commit_sequence : ℕ
  pub observed_at : Time
  pub semantic : Bool

-- One round of `appendUniqueReceipts`.
abbrev pub append_new : List Str → Str → List Str
append_new existing value =
    if not (str_eq value []) && not (contains existing value)
    then existing ++ value ∷ []
    else existing

-- `appendUniqueReceipts` and `appendUniqueStrings`
unfoldable pub append_unique : List Str → List Str → List Str
append_unique existing [] = existing
append_unique existing (v ∷ vs) = append_unique (append_new existing v) vs

-- `strings.Join(words, " ")`
unfoldable pub join_words : List Str → Str
join_words [] = []
join_words (word ∷ []) = word
join_words (word ∷ next ∷ words) = word ++ bytes " " ++ join_words (next ∷ words)

-- `recallCandidatesShareEvidence`, of the lists of evidence.
unfoldable pub share_evidence : List Str → List Str → Bool
share_evidence [] second = false
share_evidence (id ∷ first) second = contains second id || share_evidence first second

abbrev pub is_shared : SpaceClass → Bool
is_shared SpaceClass.shared = true
is_shared _ = false

-- What `current` becomes when `candidate` is merged into it.
unfoldable pub join_into : RecallCandidate → RecallCandidate → RecallCandidate
join_into candidate current =
    let is_plain = current.semantic && not candidate.semantic in
    record current {
      evidence_refs = append_unique current.evidence_refs candidate.evidence_refs;
      record_refs = append_unique current.record_refs candidate.record_refs;
      class =
          if is_shared current.class && is_private candidate.class
          then SpaceClass.private
          else current.class;
      fragment_id = if is_plain then candidate.fragment_id else current.fragment_id;
      text = if is_plain then candidate.text else current.text;
      semantic = if is_plain then false else current.semantic;
    }

-- A candidate that begins an entry of its own.
unfoldable pub fresh : RecallCandidate → RecallCandidate
fresh candidate = record candidate {
  evidence_refs = append_unique [] candidate.evidence_refs;
  record_refs = append_unique [] candidate.record_refs;
}

unfoldable pub sort_refs : RecallCandidate → RecallCandidate
sort_refs candidate = record candidate {
  evidence_refs = sort str_lt candidate.evidence_refs;
  record_refs = sort str_lt candidate.record_refs;
}

module _ (to_lower : Str → Str) where
  -- `normalizedRecallText`
  unfoldable pub normalized_recall_text : Str → Str
  normalized_recall_text value = to_lower (join_words (fields value))

  -- Whether a candidate is merged into an entry.
  unfoldable pub is_target : RecallCandidate → RecallCandidate → Bool
  is_target candidate entry =
      str_eq (normalized_recall_text entry.text) (normalized_recall_text candidate.text)
      && (candidate.semantic && entry.semantic
          || (if candidate.semantic then not entry.semantic else entry.semantic)
            && share_evidence candidate.evidence_refs entry.evidence_refs)

  -- One round of the loop: into the first entry that suits, or at the end.
  unfoldable pub place : RecallCandidate → List RecallCandidate → List RecallCandidate
  place candidate [] = fresh candidate ∷ []
  place candidate (entry ∷ merged) =
      let rest = place candidate merged in
      if is_target candidate entry then join_into candidate entry ∷ merged else entry ∷ rest

  unfoldable pub merge_loop : List RecallCandidate → List RecallCandidate → List RecallCandidate
  merge_loop [] merged = merged
  merge_loop (candidate ∷ candidates) merged = merge_loop candidates (place candidate merged)

  -- `mergeRecallCandidates`
  unfoldable pub merge_recall_candidates : List RecallCandidate → List RecallCandidate
  merge_recall_candidates candidates = map sort_refs (merge_loop candidates [])
