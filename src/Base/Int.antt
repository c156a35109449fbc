-- ===== src/Base/Int.antt =====
-- Signed integers, and the reading of a machine word as one.
use Prim.Native.Nat.{ℕ, suc, ◌+◌, ◌-◌, ◌<◌, ◌%◌}
use mathlib.Core.Path.{◌≡◌}
use mathlib.Core.Logic.{inl, inr}
use native.Mathlib.Omega.{arith}
use native.Mathlib.Nat.{mod-eq_of_lt}
use pg_x.Base.Tests.{ltb, if◌then◌else◌, Bool-cases}

-- `negsuc n` is -(n + 1).
pub data ℤ : Type 0 where
  pos : ℕ → ℤ
  negsuc : ℕ → ℤ

-- `x as i32` (`i64`) of an unsigned word of width `w`: two's complement.
unfoldable pub to_signed : ℕ → ℕ → ℤ
to_signed m x = if ltb (x + x) m then pos x else negsuc (m - x - 1)

-- `x as u32` (`u64`) of a signed word: the inverse.
unfoldable pub to_unsigned : ℕ → ℤ → ℕ
to_unsigned m (pos n) = n % m
to_unsigned m (negsuc n) = m - 1 - n % m

-- The range of a signed word with `m` patterns.
abbrev pub InRange : ℕ → ℤ → Type 0
InRange m (pos n) = n + n < m
InRange m (negsuc n) = n + n + 1 < m

pub to_unsigned-lt : (m : ℕ) (z : ℤ) → to_unsigned (suc m) z < suc m
unfolding to_unsigned
to_unsigned-lt m (pos n) = omega arith
to_unsigned-lt m (negsuc n) = omega arith

-- A signed word survives its bit pattern.
pub to_signed-to_unsigned : (m : ℕ) (z : ℤ) → InRange m z → to_signed m (to_unsigned m z) ≡ z
unfolding to_signed to_unsigned
to_signed-to_unsigned m (pos n) h = rw (mod-eq_of_lt {n = n} {m = m} (omega arith)) (ground arith)
to_signed-to_unsigned m (negsuc n) h =
    rw (mod-eq_of_lt {n = n} {m = m} (omega arith)) (ground arith)

-- A word survives its reading as a signed number.
pub to_unsigned-to_signed : (m x : ℕ) → x < m → to_unsigned m (to_signed m x) ≡ x
unfolding to_signed to_unsigned
to_unsigned-to_signed m x h = elim (Bool-cases (ltb (x + x) m)) [
  | inl e ↦ rw e (mod-eq_of_lt {n = x} {m = m} h)
  | inr e ↦ rw e (let k = mod-eq_of_lt {n = m - x - 1} {m = m} (omega arith) in omega arith)
]
