-- ===== src/Reference/Recall/Disclosed.antt =====
-- What Recall discloses: fragments of receipts in one partition of the Spaces of the View.
use memory.Prelude.{
  ℕ, ◌≤◌, ◌≡◌, refl, sym, ap, subst, false, arith, not, ◌&&◌, ◌||◌, Bool, true, List, [], ◌∷◌, ◌++◌,
  All, length, length-append, inl, inr, Bool-cases, if◌then◌else◌, nat_eq,
}
use memory.Prelude.Int.{to_nat}
use memory.Prelude.Result.{Result}
use memory.Prelude.Sort.{insert, sort}
use memory.Text.Bytes.{Str, Str-eq}
use memory.Labels.{LabelSet}
use memory.Projection.{fit_projected_text, projected_size}
use memory.Projection.Fit.{fit_projected_text-outcome}
use mathlib.Core.List.{append-nil, append_assoc}
use memory.Requests.{RecallRequest}
use memory.Reference.Types.{Operation, ViewDefinition, CallAuthorization}
use memory.Reference.State.{Server, Context, check_context, pure}
use memory.Reference.Authorize.{Readings, authorization}
use memory.Reference.Recall.{
  Candidate, Fragment, RecallResponse, lexical_score, score_sources, texts, fragment_of, is_last,
  project,
}
use memory.Reference.Gates.{check_context-Gate}
use memory.Reference.Recall.Returned.{Returned, Returned-bind, Returned-Gate, Returned-if}
use memory.Reference.Recall.Sources.{Readable}

All-insert :
    {A : Type 0} (P : A → Type 0) (less : A → A → Bool) (a : A) (xs : List A)
    → P a
    → All P xs
    → All P (insert less a xs)
unfolding insert
All-insert P less a [] p h = (p, tt)
All-insert P less a (x ∷ xs) p h = elim (Bool-cases (less x a)) [
  | inl e ↦ rw e (h.0, All-insert P less a xs p h.1)
  | inr e ↦ rw e (p, h)
]

pub All-sort :
    {A : Type 0} (P : A → Type 0) (less : A → A → Bool) (xs : List A)
    → All P xs
    → All P (sort less xs)
unfolding sort
All-sort P less [] h = tt
All-sort P less (x ∷ xs) h = All-insert P less x (sort less xs) h.0 (All-sort P less xs h.1)

-- The fragment is what the budget leaves, after the texts before it, of the text of a candidate that comes from these Spaces.
pub record Excerpt (s : Server) (labels : LabelSet) (spaces : List Str) (max_bytes : ℕ)
    (before : List Str) (f : Fragment) : Type 0 where
  pub candidate : Candidate
  pub source : Readable s labels spaces candidate
  pub evidence : f.evidence_refs ≡ candidate.receipt.id ∷ []
  pub same_class : f.class ≡ candidate.class
  pub cut : Bool
  pub excerpt : fit_projected_text before candidate.receipt.text max_bytes ≡ (f.text, cut, true)
  pub in_size : projected_size before f.text ≤ max_bytes

-- Each fragment after some texts is one beside those texts and the fragments before it.
abbrev pub AreExcerpts : Server → LabelSet → List Str → ℕ → List Str → List Fragment → Type 0
AreExcerpts s labels spaces max_bytes before [] = Unit
AreExcerpts s labels spaces max_bytes before (f ∷ fs) =
    Excerpt s labels spaces max_bytes before f
    × AreExcerpts s labels spaces max_bytes (before ++ f.text ∷ []) fs

-- What is kept fits.
fit_projected_text-le :
    (existing : List Str) (value : Str) (max_bytes : ℕ)
    → (fit_projected_text existing value max_bytes).2 ≡ true
    → projected_size existing (fit_projected_text existing value max_bytes).0 ≤ max_bytes
fit_projected_text-le existing value max_bytes h =
    elim (fit_projected_text-outcome existing value max_bytes) [
      | inl (e, le) ↦ rw e le
      | inr (inl (best, e, _, _, le, _)) ↦ rw e le
      | inr (inr (e, _, _)) ↦ absurd (cc (h, ap (λ r. r.2) e))
    ]

kept_lem : (b : Bool) → not b ≡ false → b ≡ true
kept_lem b h = ground arith

-- What a Recall that returns has disclosed.
pub record Disclosed (s : Server) (at : Readings) (auth : CallAuthorization)
    (request : RecallRequest) (response : RecallResponse) : Type 0 where
  pub view : ViewDefinition
  pub labels : LabelSet
  pub granted : authorization s at auth Operation.recall ≡ Result.ok (view, labels)
  pub excerpts :
      AreExcerpts s labels view.read_space_ids
        (to_nat request.budget.max_bytes)
        []
        response.fragments
  pub count : length response.fragments ≤ to_nat request.budget.max_fragments

module _ (s : Server) (labels : LabelSet) (spaces : List Str) where
  pub score_sources-Readable :
      (to_lower : Str → Str) (ctx : Context) (terms : List Str) (cs : List Candidate) (t : Server)
      → All (Readable s labels spaces) cs
      → Returned (λ r _. All (Readable s labels spaces) r.1) (score_sources to_lower ctx terms cs t)
  unfolding score_sources
  score_sources-Readable to_lower ctx terms [] t h = tt
  score_sources-Readable to_lower ctx terms (c ∷ cs) t h =
      Returned-Gate Q (check_context ctx true) _ _ t (check_context-Gate ctx true t) λ ctx' _.
        Returned-bind (score_sources to_lower ctx' terms cs) _ t Q Q
          (score_sources-Readable to_lower ctx' terms cs t h.1)
          λ r u k. keep (lexical_score to_lower c.receipt.text terms) r.1 k
    where
      Q : Context × List Candidate → Server → Type 0
      Q r u = All (Readable s labels spaces) r.1

      scored : (n : ℕ) → Readable s labels spaces (record c { score = n })
      scored n = record {
        space_id = h.0.space_id;
        readable = h.0.readable;
        source = record {
          id = h.0.source.id;
          listed = h.0.source.listed;
          receipt = h.0.source.receipt;
          exact = h.0.source.exact;
          same_class = h.0.source.same_class;
        };
      }

      keep :
          (n : ℕ) (rest : List Candidate)
          → All (Readable s labels spaces) rest
          → All
              (Readable s labels spaces)
              (if nat_eq n 0 then rest else record c { score = n } ∷ rest)
      keep n rest k = elim (Bool-cases (nat_eq n 0)) [ inl e ↦ rw e k | inr e ↦ rw e (scored n, k) ]

  AreExcerpts-append :
      (max_bytes : ℕ) (before : List Str) (fs : List Fragment) (f : Fragment)
      → AreExcerpts s labels spaces max_bytes before fs
      → Excerpt s labels spaces max_bytes (before ++ texts fs) f
      → AreExcerpts s labels spaces max_bytes before (fs ++ f ∷ [])
  AreExcerpts-append max_bytes before [] f hs h =
      (subst (λ b. Excerpt s labels spaces max_bytes b f) (append-nil before) h, tt)
  AreExcerpts-append max_bytes before (g ∷ fs) f hs h = (
    hs.0,
    AreExcerpts-append max_bytes (before ++ g.text ∷ []) fs f hs.1 (
        subst (λ b. Excerpt s labels spaces max_bytes b f)
          (sym (append_assoc before (g.text ∷ []) (texts fs))) h),
  )

  module _ (max_fragments max_bytes : ℕ) where
    unfoldable pub Within : List Fragment × Bool → Server → Type 0
    Within r u = AreExcerpts s labels spaces max_bytes [] r.0 × (length r.0 ≤ max_fragments)

    pub project-Within :
        (ctx : Context) (cs : List Candidate) (fragments : List Fragment) (truncated : Bool)
        (t : Server)
        → All (Readable s labels spaces) cs
        → AreExcerpts s labels spaces max_bytes [] fragments
        → length fragments ≤ max_fragments
        → Returned Within (project ctx max_fragments max_bytes cs fragments truncated t)
    unfolding project Within
    project-Within ctx [] fragments truncated t h es n = (es, n)
    project-Within ctx (c ∷ cs) fragments truncated t h es n =
        let fit = fit_projected_text (texts fragments) c.receipt.text max_bytes in
        let fragments' = fragments ++ fragment_of c fit.0 ∷ [] in
        let truncated' =
          truncated || fit.1 || (not (is_last cs) && nat_eq (length fragments') max_fragments) in
        Returned-Gate Within (check_context ctx true) _ _ t (check_context-Gate ctx true t)
          λ ctx' _.
            Returned-if Within (nat_eq (length fragments) max_fragments) (pure (fragments, true)) _
              t (λ _. (es, n))
              λ room.
                let n' : length fragments' ≤ max_fragments =
                  ground (arith, room, n, length-append fragments (fragment_of c fit.0 ∷ [])) in
                Returned-if Within (not fit.2) (pure (fragments, true)) _ t (λ _. (es, n))
                  λ kept.
                    let next : Excerpt s labels spaces max_bytes (texts fragments)
                        (fragment_of c fit.0) =
                      record {
                        candidate = c;
                        source = h.0;
                        evidence = refl;
                        same_class = refl;
                        cut = fit.1;
                        excerpt = ap (λ fits. (fit.0, fit.1, fits)) (kept_lem fit.2 kept);
                        in_size =
                            fit_projected_text-le (texts fragments) c.receipt.text max_bytes
                              (kept_lem fit.2 kept);
                      } in
                    let es' =
                      AreExcerpts-append max_bytes [] fragments (fragment_of c fit.0) es next in
                    Returned-if Within fit.1 (pure (fragments', truncated'))
                      (project ctx' max_fragments max_bytes cs fragments' truncated') t
                      (λ _. (es', n'))
                      (λ _. project-Within ctx' cs fragments' truncated' t h.1 es' n')
