-- ===== src/Facts/Timeline/Adjacent.antt =====
-- The second loop of `factTimeline`, which closes each interval at the next.
use memory.Prelude.{
  ℕ, ◌≤◌, ◌<◌, ◌≡◌, refl, Option, none, some, List, [], ◌∷◌, arith, some-injective,
}
use memory.Text.Bytes.{Str-eq}
use memory.Requests.{Time}
use memory.Facts.Store.{HistoricalState, Fact}
use memory.Facts.Timeline.{Resolved, all_denied, effective, fact_at}

abbrev pub map_fact : (Fact → Fact) → Option Fact → Option Fact
map_fact f none = none
map_fact f (some h) = some (f h)

-- Places in ascending order below a bound.
abbrev Ascending : List ℕ → ℕ → Type 0
Ascending [] i = Unit
Ascending (e ∷ []) i = e < i
Ascending (e ∷ d ∷ es) i = (e < d) × Ascending (d ∷ es) i

Ascending-head : (e : ℕ) (es : List ℕ) (i : ℕ) → Ascending (e ∷ es) i → e < i
Ascending-head e [] i h = h
Ascending-head e (d ∷ es) i h = omega (arith, Ascending-head d es i h.1)

abbrev AreAscending : Resolved → Type 0
AreAscending (all_denied hs) = Unit
AreAscending (effective hs es) = (n : ℕ) × Ascending es n

-- What the place of a fact says of the fact before it: that one was changed, and ends when this one begins or before.
pub record Closed (f g : Fact) : Type 0 where
  pub marked : f.historical_state ≡ HistoricalState.changed
  pub ends :
      (t : Time)
      → g.metadata.valid_from ≡ some t
      → (u : Time) × (f.metadata.valid_until ≡ some u) × (u ≤ t)

abbrev pub AreClosed : List ℕ → List Fact → Type 0
AreClosed [] hs = Unit
AreClosed (p ∷ []) hs = Unit
AreClosed (p ∷ n ∷ places) hs =
    ((f g : Fact) → fact_at p hs ≡ some f → fact_at n hs ≡ some g → Closed f g)
    × AreClosed (n ∷ places) hs

pub map_fact-some {ℓ} :
    {P : Type ℓ} (f : Fact → Fact) (o : Option Fact) {g : Fact}
    → map_fact f o ≡ some g
    → ((h : Fact) → o ≡ some h → f h ≡ g → P)
    → P
map_fact-some f none e k = absurd (cc (e))
map_fact-some f (some h) e k = k h refl (some-injective e)
