-- ===== src/Facts/Timeline/Denied.antt =====
-- The end of the first loop of `factTimeline`, at a revision that denies.
use memory.Prelude.{
  ℕ, zero, suc, ◌+◌, ◌≤◌, ◌<◌, ◌≡◌, refl, sym, ap, ◌∙◌, ◌-◌, Bool, true, false, some, ltb,
  if◌then◌else◌, List, [], ◌∷◌, ◌++◌, arith, map, length, All, contains,
}
use memory.Text.Bytes.{Str, Str-eq}
use memory.Facts.{Transition}
use memory.Facts.Store.{Adoption, HistoricalState, Fact, FactStore}
use memory.Facts.Timeline.{
  update_at, mark, update_first, mark_denied, replace_last, all_denied, resolve, fact_at,
  resolve_history, history_rows, fact_timeline,
}
use memory.Facts.Timeline.Adjacent.{map_fact, map_fact-some}

fact_at-update_first :
    (f : Fact → Fact) (n j : ℕ) (hs : List Fact)
    → j < n
    → fact_at j (update_first f n hs) ≡ map_fact f (fact_at j hs)
unfolding fact_at update_first
fact_at-update_first f zero j hs h = absurd (omega arith)
fact_at-update_first f (suc n) zero [] h = refl
fact_at-update_first f (suc n) (suc j) [] h = refl
fact_at-update_first f (suc n) zero (x ∷ hs) h = refl
fact_at-update_first f (suc n) (suc j) (x ∷ hs) h = fact_at-update_first f n j hs (omega arith)

-- What a history shows of a revision as it is stored.
abbrev pub shown : Fact → ℕ × Str
shown f = (f.revision, f.text)

-- The same revisions, each up to the place as denied.
pub record AreDenied (i : ℕ) (rows hs : List Fact) : Type 0 where
  pub same : map shown hs ≡ map shown rows
  pub denied :
      (j : ℕ) (f : Fact)
      → j ≤ i
      → fact_at j hs ≡ some f
      → (f.metadata.adoption ≡ Adoption.denied) × (f.historical_state ≡ HistoricalState.denied)

shown-update_at :
    (f : Fact → Fact) (i : ℕ) (hs : List Fact)
    → ((h : Fact) → shown (f h) ≡ shown h)
    → map shown (update_at f i hs) ≡ map shown hs
unfolding update_at
shown-update_at f zero [] same = refl
shown-update_at f (suc i) [] same = refl
shown-update_at f zero (h ∷ hs) same = ap (λ x. x ∷ map shown hs) (same h)
shown-update_at f (suc i) (h ∷ hs) same = ap (λ xs. shown h ∷ xs) (shown-update_at f i hs same)

shown-update_first :
    (f : Fact → Fact) (n : ℕ) (hs : List Fact)
    → ((h : Fact) → shown (f h) ≡ shown h)
    → map shown (update_first f n hs) ≡ map shown hs
unfolding update_first
shown-update_first f zero hs same = refl
shown-update_first f (suc n) [] same = refl
shown-update_first f (suc n) (h ∷ hs) same =
    ap (λ xs. shown (f h) ∷ xs) (shown-update_first f n hs same)
    ∙ ap (λ x. x ∷ map shown hs) (same h)

denied_first : (i : ℕ) (hs : List Fact) → AreDenied i hs (update_first mark_denied (i + 1) hs)
unfolding mark_denied
denied_first i hs = record {
  same = shown-update_first mark_denied (i + 1) hs (λ h. refl);
  denied = λ j f le e.
      map_fact-some mark_denied (fact_at j hs)
        (sym (fact_at-update_first mark_denied (i + 1) j hs (omega (arith, le))) ∙ e)
        λ h _ made.
          (ap (λ x. x.metadata.adoption) (sym made), ap (λ x. x.historical_state) (sym made));
}

abbrev pub IsEdit : Transition → Type 0
IsEdit Transition.deny = ⊥
IsEdit _ = Unit

-- The first loop ends at the denial.
abbrev Ends : List Transition → List Transition → ℕ → List Fact → List ℕ → List Fact → ℕ → Type 0
Ends ts after i hs es rows last =
    (out : List Fact) × (resolve (ts ++ Transition.deny ∷ after) i hs es ≡ all_denied out)
    × AreDenied last rows out

further :
    (ts after : List Transition) (i : ℕ) (rows hs : List Fact) (es : List ℕ)
    → map shown hs ≡ map shown rows
    → Ends ts after (i + 1) hs es hs (length ts + (i + 1))
    → Ends ts after (i + 1) hs es rows (suc (length ts) + i)
further ts after i rows hs es same (out, made, d) = (
  out,
  made,
  record { same = d.same ∙ same; denied = λ j f le. d.denied j f (omega (arith, le)) },
)

corrected-shown :
    (b : Bool) (i : ℕ) (hs : List Fact)
    → map shown (if b then update_at (mark HistoricalState.corrected) i hs else hs) ≡ map shown hs
unfolding mark
corrected-shown true i hs = shown-update_at (mark HistoricalState.corrected) i hs (λ h. refl)
corrected-shown false i hs = refl

pub resolve_denied :
    (ts after : List Transition) (i : ℕ) (hs : List Fact) (es : List ℕ)
    → All IsEdit ts
    → Ends ts after i hs es hs (length ts + i)
unfolding resolve
resolve_denied [] after i hs es h =
    let d = denied_first i hs in
    (
      update_first mark_denied (i + 1) hs,
      refl,
      record { same = d.same; denied = λ j f le. d.denied j f (omega (arith, le)) },
    )
resolve_denied (Transition.correct ∷ ts) after i hs es (_, h) =
    further ts after i hs _ (replace_last es i) (corrected-shown (ltb 0 i) (i - 1) hs)
      (resolve_denied ts after (i + 1) _ _ h)
resolve_denied (Transition.confirm ∷ ts) after i hs es (_, h) =
    further ts after i hs hs (replace_last es i) refl (resolve_denied ts after (i + 1) _ _ h)
resolve_denied (Transition.deny ∷ ts) after i hs es (h, _) = absurd h
resolve_denied (Transition.establish ∷ ts) after i hs es (_, h) =
    further ts after i hs hs (es ++ i ∷ []) refl (resolve_denied ts after (i + 1) _ _ h)
resolve_denied (Transition.change ∷ ts) after i hs es (_, h) =
    further ts after i hs hs (es ++ i ∷ []) refl (resolve_denied ts after (i + 1) _ _ h)
resolve_denied (Transition.exception ∷ ts) after i hs es (_, h) =
    further ts after i hs hs (es ++ i ∷ []) refl (resolve_denied ts after (i + 1) _ _ h)
resolve_denied (Transition.other _ ∷ ts) after i hs es (_, h) =
    further ts after i hs hs (es ++ i ∷ []) refl (resolve_denied ts after (i + 1) _ _ h)

module _ (s : FactStore) (id : Str) (known : contains s.forgotten id ≡ false) where
  -- Where the first loop over the revisions of a record that is not forgotten ends at one that
  -- denies, the history gives the stored revisions with their texts, in their order, and every
  -- revision up to that one as denied, with the adoption and the state `denied`.
  pub fact_timeline-AreDenied :
      (edits after : List Transition)
      → map (λ f. f.metadata.transition) (history_rows id s.revisions)
        ≡ edits ++ Transition.deny ∷ after
      → All IsEdit edits
      → AreDenied (length edits) (history_rows id s.revisions) (fact_timeline s id)
  unfolding fact_timeline resolve_history
  fact_timeline-AreDenied edits after e h =
      let (out, made, d) = resolve_denied edits after 0 (history_rows id s.revisions) [] h in
      rw known (
        rw e
          (rw made (record { same = d.same; denied = λ j f le. d.denied j f (omega (arith, le)) })))
