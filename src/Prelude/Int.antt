-- ===== src/Prelude/Int.antt =====
-- Go's signed `int` and `time.Duration`, where the program tests their sign.
use Prim.Native.Nat.{ℕ, ◌-◌, ◌%◌, ◌^◌}
use mathlib.Core.Bool.{Bool, true, false}
use memory.Prelude.Tests.{ltb, if◌then◌else◌}

-- `negsuc n` is -(n + 1).
pub data ℤ : Type 0 where
  pos : ℕ → ℤ
  negsuc : ℕ → ℤ

-- `z < n` and `z > n`, for a bound `n` that is not negative.
abbrev pub lt_bound : ℤ → ℕ → Bool
lt_bound (pos k) n = ltb k n
lt_bound (negsuc k) n = true

abbrev pub gt_bound : ℤ → ℕ → Bool
gt_bound (pos k) n = ltb n k
gt_bound (negsuc k) n = false

abbrev pub to_nat : ℤ → ℕ
to_nat (pos k) = k
to_nat (negsuc k) = 0

-- The int64 that an operation with the exact result `n` leaves.
unfoldable pub int64 : ℕ → ℤ
int64 n =
    let word = n % 2 ^ 64 in if ltb word (2 ^ 63) then pos word else negsuc (2 ^ 64 - 1 - word)
