-- ===== src/Tests/Merge.antt =====
-- A record of the semantic index and the receipt that it rests on, merged into one entry.
use memory.Prelude.{◌≡◌, refl, true, false, [], ◌∷◌, All, contains, arith}
use memory.Prelude.Sort.{sort}
use memory.Text.Bytes.{Str, Str-eq, str_eq, str_lt, bytes}
use memory.Text.Strings.{fields}
use memory.Reference.Types.{SpaceClass}
use memory.Appliance.Merge.{
  RecallCandidate, append_unique, share_evidence, join_words, join_into, fresh, sort_refs,
  normalized_recall_text, is_target, place, merge_loop, merge_recall_candidates,
}
use memory.Appliance.Merge.Kept.{IsCovered, merge_recall_candidates-IsCovered}
use memory.Appliance.Merge.Confined.{IsIn, merge_recall_candidates-IsIn}

abbrev same_case : Str → Str
same_case s = s

abbrev semantic_record : RecallCandidate
semantic_record = record {
  fragment_id = bytes "r1";
  text = bytes "tea  pot";
  evidence_refs = bytes "e2" ∷ bytes "e1" ∷ [];
  record_refs = bytes "r1" ∷ [];
  record_revision = 1;
  class = SpaceClass.shared;
  commit_sequence = 2;
  observed_at = 7;
  semantic = true;
}

abbrev its_receipt : RecallCandidate
its_receipt = record {
  fragment_id = bytes "e1";
  text = bytes "tea pot";
  evidence_refs = bytes "e1" ∷ [];
  record_refs = [];
  record_revision = 0;
  class = SpaceClass.private;
  commit_sequence = 1;
  observed_at = 6;
  semantic = false;
}

merged_pair :
    merge_recall_candidates same_case (semantic_record ∷ its_receipt ∷ [])
    ≡ record semantic_record {
      fragment_id = bytes "e1";
      text = bytes "tea pot";
      evidence_refs = bytes "e1" ∷ bytes "e2" ∷ [];
      class = SpaceClass.private;
      semantic = false;
    }
      ∷ []
unfolding merge_recall_candidates merge_loop place is_target join_into fresh sort_refs append_unique
    share_evidence normalized_recall_text join_words fields contains sort str_lt str_eq
merged_pair = refl

merge_recall_candidates-IsCovered_example :
    All
      (IsCovered same_case (merge_recall_candidates same_case (semantic_record ∷ its_receipt ∷ [])))
      (semantic_record ∷ its_receipt ∷ [])
merge_recall_candidates-IsCovered_example =
    merge_recall_candidates-IsCovered same_case (semantic_record ∷ its_receipt ∷ [])

-- The receipts of a scope.
abbrev Scope : Str → Type 0
Scope e = contains (bytes "e1" ∷ bytes "e2" ∷ bytes "e3" ∷ []) e ≡ true

pair-IsIn : All (IsIn Scope) (semantic_record ∷ its_receipt ∷ [])
unfolding contains
pair-IsIn = (λ e k. ground (arith, k), (λ e k. ground (arith, k), tt))

merge_recall_candidates-IsIn_example :
    All (IsIn Scope) (merge_recall_candidates same_case (semantic_record ∷ its_receipt ∷ []))
merge_recall_candidates-IsIn_example =
    merge_recall_candidates-IsIn Scope same_case (semantic_record ∷ its_receipt ∷ []) pair-IsIn
