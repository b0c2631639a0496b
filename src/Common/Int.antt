-- ===== src/Common/Int.antt =====
-- Integers over the native numbers, with what the programs do with them.
use Prim.Native.Nat.{ℕ, suc, ◌+◌, ◌-◌, ◌*◌, ◌/◌, ◌≤◌}
use native.Mathlib.Omega.{arith}
use zmq_test.Common.Tests.{leb, if◌then◌else◌}

-- `negsuc n` is -(n + 1).
pub data ℤ : Type 0 where
  pos : ℕ → ℤ
  negsuc : ℕ → ℤ

abbrev pub pos_part : ℤ → ℕ
pos_part (pos n) = n
pos_part (negsuc n) = 0

abbrev pub neg_part : ℤ → ℕ
neg_part (pos n) = 0
neg_part (negsuc n) = suc n

-- The difference of two numbers.
abbrev pub diff : ℕ → ℕ → ℤ
diff a b = if leb b a then pos (a - b) else negsuc (b - a - 1)

infixl 65 ◌+ℤ◌
pub ◌+ℤ◌ : ℤ → ℤ → ℤ
a +ℤ b = diff (pos_part a + pos_part b) (neg_part a + neg_part b)

-- The quotient by a number, rounded towards 0.
pub quot : ℤ → ℕ → ℤ
quot (pos a) n = pos (a / n)
quot (negsuc a) n = diff 0 (suc a / n)

-- z lies between -a and b.
abbrev pub Between : ℕ → ℤ → ℕ → Type 0
Between a z b = (neg_part z ≤ a) × (pos_part z ≤ b)

pub diff-Between : (n a b : ℕ) → n ≤ a + b → Between a (diff n a) b
diff-Between n a b h = ground arith

pub +ℤ-Between :
    (a b c d : ℕ) (x y : ℤ) → Between a x b → Between c y d → Between (a + c) (x +ℤ y) (b + d)
unfolding ◌+ℤ◌
+ℤ-Between a b c d x y h k = ground arith

pub quot-Between : (a b : ℕ) (z : ℤ) → Between (a * 100) z (b * 100) → Between a (quot z 100) b
unfolding quot
quot-Between a b (pos x) h = (omega arith, omega (arith, h.1))
quot-Between a b (negsuc x) h = let le : suc x / 100 ≤ a = omega (arith, h.0) in ground (arith, le)
