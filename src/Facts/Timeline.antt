-- ===== src/Facts/Timeline.antt =====
-- The history of a record: `factTimeline` of internal/appliance/facts_read.go.
pub mod Denied
pub mod Adjacent
use memory.Prelude.{
  ℕ, zero, suc, ◌+◌, ◌-◌, ◌≡◌, refl, Bool, true, false, not, ◌&&◌, ◌||◌, Option, none, some, List,
  [], ◌∷◌, ◌++◌, map, ltb, leb, nat_eq, if◌then◌else◌, length, contains,
}
use memory.Prelude.Sort.{sort}
use memory.Text.Bytes.{Str, str_eq, Str-eq}
use memory.Requests.{Time}
use memory.Facts.{Transition, Condition}
use memory.Facts.Store.{
  Adoption, HistoricalState, Metadata, Fact, SemanticRevision, FactStore, before, is_present,
}

-- A row with metadata, as it is scanned.
abbrev pub history_row : SemanticRevision → Option Metadata → List Fact → List Fact
history_row r none rest = rest
history_row r (some m) rest =
    record {
      record_id = r.record_id;
      revision = r.revision;
      space_id = r.space_id;
      text = r.text;
      metadata = m;
      evidence = [];
      historical_state = HistoricalState.unmarked;
    }
    ∷ rest

unfoldable pub scan_rows : Str → List SemanticRevision → List Fact
scan_rows id [] = []
scan_rows id (r ∷ rs) =
    let rest = scan_rows id rs in if str_eq r.record_id id then history_row r r.fact rest else rest

unfoldable pub earlier : Fact → Fact → Bool
earlier a b = ltb a.revision b.revision

-- `… WHERE record_id = ? AND fact_json != '' ORDER BY revision`
unfoldable pub history_rows : Str → List SemanticRevision → List Fact
history_rows id rows = sort earlier (scan_rows id rows)

-- `history[i].HistoricalState = …` and the like.
unfoldable pub update_at : (Fact → Fact) → ℕ → List Fact → List Fact
update_at f i [] = []
update_at f zero (h ∷ hs) = f h ∷ hs
update_at f (suc i) (h ∷ hs) = h ∷ update_at f i hs

unfoldable pub mark : HistoricalState → Fact → Fact
mark state h = record h { historical_state = state }

unfoldable pub mark_denied : Fact → Fact
mark_denied h = record h {
  metadata = record h.metadata { adoption = Adoption.denied };
  historical_state = HistoricalState.denied;
}

-- The first `n` facts.
unfoldable pub update_first : (Fact → Fact) → ℕ → List Fact → List Fact
update_first f zero hs = hs
update_first f (suc n) [] = []
update_first f (suc n) (h ∷ hs) = f h ∷ update_first f n hs

abbrev pub replace_last : List ℕ → ℕ → List ℕ
replace_last [] i = i ∷ []
replace_last (e ∷ []) i = i ∷ []
replace_last (e ∷ d ∷ es) i = e ∷ replace_last (d ∷ es) i

-- What the first loop leaves: all denied, or the facts and the places of the effective ones.
pub data Resolved : Type 0 where
  all_denied : List Fact → Resolved
  effective : List Fact → List ℕ → Resolved

-- The first loop of `factTimeline`, from place `i`, for the transitions that are left.
unfoldable pub resolve : List Transition → ℕ → List Fact → List ℕ → Resolved
resolve [] i history places = effective history places
resolve (Transition.correct ∷ ts) i history places =
    resolve ts (i + 1)
      (if ltb 0 i then update_at (mark HistoricalState.corrected) (i - 1) history else history)
      (replace_last places i)
resolve (Transition.confirm ∷ ts) i history places =
    resolve ts (i + 1) history (replace_last places i)
resolve (Transition.deny ∷ ts) i history places =
    all_denied (update_first mark_denied (i + 1) history)
resolve (Transition.establish ∷ ts) i history places = resolve ts (i + 1) history (places ++ i ∷ [])
resolve (Transition.change ∷ ts) i history places = resolve ts (i + 1) history (places ++ i ∷ [])
resolve (Transition.exception ∷ ts) i history places = resolve ts (i + 1) history (places ++ i ∷ [])
resolve (Transition.other _ ∷ ts) i history places = resolve ts (i + 1) history (places ++ i ∷ [])

unfoldable pub fact_at : ℕ → List Fact → Option Fact
fact_at i [] = none
fact_at zero (h ∷ hs) = some h
fact_at (suc i) (h ∷ hs) = fact_at i hs

-- Where the following interval begins.
abbrev pub onset : Option Fact → Option Time
onset none = none
onset (some f) = f.metadata.valid_from

abbrev pub closed_at : Option Time → Option Time → Option Time
closed_at none until = until
closed_at (some t) none = some t
closed_at (some t) (some u) = if ltb t u then some t else some u

-- `prev.Metadata.ValidUntil` and `prev.HistoricalState` before an interval with that onset.
unfoldable pub close_interval : Option Time → Fact → Fact
close_interval next prev = record prev {
  metadata = record prev.metadata { valid_until = closed_at next prev.metadata.valid_until };
  historical_state = HistoricalState.changed;
}

-- The second loop of `factTimeline`.
unfoldable pub close_intervals : List ℕ → List Fact → List Fact
close_intervals [] history = history
close_intervals (p ∷ []) history = history
close_intervals (p ∷ n ∷ places) history =
    close_intervals (n ∷ places) (update_at (close_interval (onset (fact_at n history))) p history)

abbrev pub closed : Resolved → List Fact
closed (all_denied history) = history
closed (effective history places) = close_intervals places history

unfoldable pub resolve_history : List Fact → Resolved
resolve_history history = resolve (map (λ f. f.metadata.transition) history) 0 history []

unfoldable pub fact_timeline : FactStore → Str → List Fact
fact_timeline s id =
    if contains s.forgotten id then [] else closed (resolve_history (history_rows id s.revisions))
