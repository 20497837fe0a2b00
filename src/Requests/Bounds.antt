-- ===== src/Requests/Bounds.antt =====
-- What the requests that pass validation satisfy.
use memory.Prelude.{ℕ, ◌≤◌, ◌≡◌, ◌↔◌, none, arith}
use memory.Prelude.Int.{ℤ, pos}
use memory.Requests.{validate_budget, min_recall_projection_bytes}

-- A Recall budget is accepted exactly when its number of fragments lies in 1..64, its number of
-- bytes between the length of an empty projection and 65536, and its deadline in 1..30000.
pub validate_budget_iff :
    (f b d : ℤ)
    → (validate_budget (record { max_fragments = f; max_bytes = b; deadline_ms = d }) ≡ none) ↔ (
        ((k : ℕ) × (f ≡ pos k) × (1 ≤ k) × (k ≤ 64))
        × ((k : ℕ) × (b ≡ pos k) × (min_recall_projection_bytes ≤ k) × (k ≤ 65536))
        × ((k : ℕ) × (d ≡ pos k) × (1 ≤ k) × (k ≤ 30000)))
unfolding validate_budget
validate_budget_iff f b d = ground arith
