-- ===== src/Base/Int.antt =====
-- Signed integers over the native numbers, and their two's complement.
use Prim.Native.Nat.{ℕ, ◌+◌, ◌-◌, ◌*◌, ◌%◌, ◌≤◌, ◌<◌}
use mathlib.Core.Path.{◌≡◌}
use native.Mathlib.Omega.{arith}
use native.Mathlib.Nat.{mod-eq_of_lt}
use mysql_asio.Base.Tests.{ltb, if◌then◌else◌}

-- `negsuc n` is -(n + 1).
pub data ℤ : Type 0 where
  pos : ℕ → ℤ
  negsuc : ℕ → ℤ

-- The bit pattern of an integer in two's complement, `m` being the number of patterns.
unfoldable pub to_pattern : ℕ → ℤ → ℕ
to_pattern m (pos k) = k % m
to_pattern m (negsuc k) = m - 1 - k % m

-- The integer that a pattern below `m` stands for.
unfoldable pub from_pattern : ℕ → ℕ → ℤ
from_pattern m w = if ltb (2 * w) m then pos w else negsuc (m - w - 1)

-- The range of the signed type: from -(m / 2) to m / 2 - 1, for an even `m`.
abbrev pub IsInRange : ℕ → ℤ → Type 0
IsInRange m (pos k) = 2 * k + 2 ≤ m
IsInRange m (negsuc k) = 2 * k + 2 ≤ m

pub to_pattern-lt : (m : ℕ) (z : ℤ) → IsInRange m z → to_pattern m z < m
unfolding to_pattern
to_pattern-lt m (pos k) h = omega (arith, mod-eq_of_lt {n = k} {m = m} (omega arith))
to_pattern-lt m (negsuc k) h = omega arith

pub from_pattern-to_pattern : (m : ℕ) (z : ℤ) → IsInRange m z → from_pattern m (to_pattern m z) ≡ z
unfolding to_pattern from_pattern
from_pattern-to_pattern m (pos k) h = ground (arith, mod-eq_of_lt {n = k} {m = m} (omega arith))
from_pattern-to_pattern m (negsuc k) h = ground (arith, mod-eq_of_lt {n = k} {m = m} (omega arith))
