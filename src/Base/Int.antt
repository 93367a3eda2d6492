-- ===== src/Base/Int.antt =====
-- The C type `int` as an integer; `negsuc n` is -(n + 1).
use Prim.Native.Nat.{ℕ}
use mathlib.Core.Bool.{Bool, false}
use udprelayd.Base.Tests.{◌==◌}

pub data ℤ : Type 0 where
  pos : ℕ → ℤ
  negsuc : ℕ → ℤ

-- The test of a counter that is never negative against an `int`.
abbrev pub is_pos : ℕ → ℤ → Bool
is_pos n (pos m) = n == m
is_pos n (negsuc m) = false

-- The number of rounds of `for(i = 0; i < z; i++)`.
abbrev pub rounds : ℤ → ℕ
rounds (pos n) = n
rounds (negsuc n) = 0
