-- ===== src/Common/Int.antt =====
-- C's `int`, as a signed integer over the native numbers.
use Prim.Native.Nat.{ℕ, ◌≤◌}
use mathlib.Core.Bool.{Bool, true, false}
use mathlib.Core.Path.{◌≡◌}
use native.Mathlib.Omega.{arith}
use libag.Common.Tests.{leb}

-- `negsuc n` is -(n + 1).
pub data ℤ : Type 0 where
  pos : ℕ → ℤ
  negsuc : ℕ → ℤ

-- The value of an `int` that is not negative.
abbrev pub pos_part : ℤ → ℕ
pos_part (pos n) = n
pos_part (negsuc n) = 0

-- `!(i < 0 || i > hi)`
abbrev pub within : ℤ → ℕ → Bool
within (pos n) hi = leb n hi
within (negsuc n) hi = false

pub within-le : (i : ℤ) (hi : ℕ) → within i hi ≡ true → pos_part i ≤ hi
within-le (pos n) hi h = ground arith
within-le (negsuc n) hi h = ground arith
