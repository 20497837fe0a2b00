-- ===== src/Prelude/Map.antt =====
-- Go's `map`, as far as the program uses it: lookup and assignment. Proofs use `map_laws` and do not
-- unfold the operations; the program ranges over none of the maps that are modelled so.
use mathlib.Core.Path.{◌≡◌, refl}
use mathlib.Core.Option.{Option, none, some}
use mathlib.Core.List.{List, [], ◌∷◌}
use memory.Prelude.Tests.{Eq, ◌==◌, if◌then◌else◌}

pub record Map {ℓ κ} (K : Type ℓ) (V : Type κ) : Type (ℓ ⊔ κ) where
  entries : List (K × V)

module _ {ℓ κ} {K : Type ℓ} {V : Type κ} where
  -- `make(map[K]V)`
  unfoldable pub empty : Map K V
  empty = record { entries = [] }

module _ {ℓ κ} {K : Type ℓ} {V : Type κ} ⦃e : Eq K⦄ where
  unfoldable pub find : K → List (K × V) → Option V
  find k [] = none
  find k ((j, v) ∷ rest) = if j == k then some v else find k rest

  -- `v, ok := m[k]`
  unfoldable pub get : Map K V → K → Option V
  get m k = find k m.entries

  -- `m[k] = v`
  unfoldable pub put : Map K V → K → V → Map K V
  put m k v = record { entries = (k, v) ∷ m.entries }

  pub get-put :
      (m : Map K V) (k j : K) (v : V) → get (put m k v) j ≡ (if k == j then some v else get m j)
  unfolding get put find
  get-put m k j v = refl

  pub get-empty : (k : K) → get (empty {V = V}) k ≡ none
  unfolding get empty find
  get-empty k = refl

pub ruleset map_laws = (get-put, get-empty)
