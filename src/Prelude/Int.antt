-- ===== src/Prelude/Int.antt =====
-- C's `int` results: a number, or `negsuc n`, which is -(n + 1).
use Prim.Native.Nat.{ℕ, zero, suc}
use mathlib.Core.Bool.{Bool, true, false}
use ece.Prelude.Tests.{ltb}

pub data ℤ : Type 0 where
  pos : ℕ → ℤ
  negsuc : ℕ → ℤ

-- -1, by which the functions report an error
abbrev pub failure : ℤ
failure = negsuc 0

abbrev pub is_negative : ℤ → Bool
is_negative (pos n) = false
is_negative (negsuc n) = true

-- `n < k` for a number `k`
abbrev pub is_below : ℤ → ℕ → Bool
is_below (pos n) k = ltb n k
is_below (negsuc n) k = true

-- `n == -1`
abbrev pub is_failure : ℤ → Bool
is_failure (pos n) = false
is_failure (negsuc zero) = true
is_failure (negsuc (suc n)) = false
