-- ===== src/Common/Clocks.antt =====
-- A clock is the sequence of the readings that the program makes of it.
use Prim.Native.Nat.{ℕ, zero, suc, ◌≤◌}
use mathlib.Core.Path.{◌≡◌, ap}
use native.Mathlib.Omega.{arith}
use native.Mathlib.Decide.{dec_lt}

abbrev pub Monotone : (ℕ → ℕ) → Type 0
Monotone clock = (i : ℕ) → clock i ≤ clock (suc i)

pub Monotone-le : (clock : ℕ → ℕ) → Monotone clock → (i j : ℕ) → i ≤ j → clock i ≤ clock j
Monotone-le clock mono i zero h = let e : i ≡ 0 = omega arith in omega (arith, ap clock e)
Monotone-le clock mono i (suc j) h = elim (dec_lt j i) [
  | yes p ↦ let e : i ≡ suc j = omega arith in omega (arith, ap clock e)
  | no p ↦ omega (arith, Monotone-le clock mono i j (omega arith), mono j)
]
