-- ===== src/Base/Numbers.antt =====
-- The numbers that the programs print and read: sprintf with "%d", and `atoi`, which are not in the
-- repository.
pub mod Decimal
use zmq_test.Common.{ℕ, ◌^◌, ◌≤◌, ◌<◌, ◌≡◌, List, length}
use zmq_test.Base.Strings.{IsText}

-- The laws are for what an `int` holds.
pub record Decimals : Type 0 where
  pub print : ℕ → List ℕ
  pub atoi : List ℕ → ℕ
  pub atoi-print : (n : ℕ) → n < 2 ^ 31 → atoi (print n) ≡ n
  pub print-text : (n : ℕ) → n < 2 ^ 31 → IsText (print n)
  pub length-print : (n : ℕ) → n < 2 ^ 31 → length (print n) ≤ 10
