-- ===== src/Base/Identity/Width.antt =====
-- How long the identities are, and whether they fit where they are printed to.
use Prim.Native.Nat.{max}
use zmq_test.Common.{
  ℕ, zero, suc, ◌+◌, ◌-◌, ◌/◌, ◌%◌, ◌^◌, ◌≤◌, ◌<◌, ◌≡◌, refl, ap, ◌∙◌, inl, inr, [], ◌∷◌, length,
  replicate, length-append, length-replicate, ltb, Bool-cases, All, All-append, arith, true, false,
}
use zmq_test.Base.Random.{randof}
use zmq_test.Base.Random.Range.{randof-le, randof-last}
use zmq_test.Base.Identity.{
  hex, hex4, hex_digit, identity, drawn_identity, set_id_size, client_task_size,
}
use native.Mathlib.Nat.{pow-succ'}

length-hex-le : (fuel k n : ℕ) → n < 16 ^ suc k → length (hex fuel n) ≤ suc k
unfolding hex
length-hex-le zero k n h = omega arith
length-hex-le (suc fuel) zero n h = ground arith
length-hex-le (suc fuel) (suc k) n h = elim (Bool-cases (ltb n 16)) [
  | inl one ↦ rw one (omega arith)
  | inr more ↦ rw more (
      omega (
        arith,
        length-append (hex fuel (n / 16)) (hex_digit (n % 16) ∷ []),
        length-hex-le fuel k (n / 16) (omega (arith, pow-succ' 16 (suc k))),
      ))
]

length-hex4 : (n : ℕ) → length (hex4 n) ≡ max 4 (length (hex 8 n))
unfolding hex4
length-hex4 n =
    length-append (replicate (4 - length (hex 8 n)) b'0') (hex 8 n)
    ∙ omega (arith, length-replicate {A = ℕ} (4 - length (hex 8 n)) b'0')

length-identity : (a b : ℕ) → length (identity a b) ≡ length (hex4 a) + 1 + length (hex4 b)
unfolding identity
length-identity a b = length-append (hex4 a) (b'-' ∷ hex4 b) ∙ omega arith

-- Two numbers of four hexadecimal digits and the dash, with the byte 0 behind them, take up the ten
-- bytes of the array in `_client_task` exactly.
pub identity-fits :
    (a b : ℕ) → a < 0x10000 → b < 0x10000 → length (identity a b) + 1 ≡ client_task_size
identity-fits a b h k = omega (
  arith,
  length-identity a b,
  length-hex4 a,
  length-hex4 b,
  length-hex-le 8 3 a h,
  length-hex-le 8 3 b k,
)

-- The identity of `s_set_id` with its byte 0 fits its array of sixteen bytes, whatever values
-- below 2^31 `random()` gives.
pub drawn_identity-fits :
    (r s : ℕ) → r < 2 ^ 31 → s < 2 ^ 31 → length (drawn_identity r s) + 1 ≤ set_id_size
unfolding drawn_identity
drawn_identity-fits r s h k = omega (
  arith,
  length-identity (randof 0x10000 r) (randof 0x10000 s),
  length-hex4 (randof 0x10000 r),
  length-hex4 (randof 0x10000 s),
  length-hex-le 8 4 (randof 0x10000 r) (omega (arith, randof-le 0x10000 r)),
  length-hex-le 8 4 (randof 0x10000 s) (omega (arith, randof-le 0x10000 s)),
)

hex4-five : length (hex4 0x10000) ≡ 5
unfolding hex4 hex
hex4-five = refl

-- If one of the last 64 values of `random()` is drawn first, the identity with its byte 0 is longer
-- than the array in `_client_task`.
pub drawn_identity-overflows :
    (r s : ℕ) → 2 ^ 31 - 64 ≤ r → r < 2 ^ 31 → client_task_size < length (drawn_identity r s) + 1
unfolding drawn_identity
drawn_identity-overflows r s h k = omega (
  arith,
  ap (λ n. length (hex4 n)) (randof-last 0x10000 r (omega arith) h k),
  hex4-five,
  length-identity (randof 0x10000 r) (randof 0x10000 s),
  length-hex4 (randof 0x10000 s),
)

-- A digit of a number in base 16, or the dash between two numbers.
abbrev pub IsHex : ℕ → Type 0
IsHex c = (b'-' ≤ c) × (c ≤ b'F')

hex-IsHex : (fuel n : ℕ) → All IsHex (hex fuel n)
unfolding hex
hex-IsHex zero n = tt
hex-IsHex (suc fuel) n = elim (Bool-cases (ltb n 16)) [
  | inl one ↦ rw one (digit (n % 16) (omega arith), tt)
  | inr more ↦ rw more (
      All-append IsHex (hex fuel (n / 16)) (hex_digit (n % 16) ∷ []) (hex-IsHex fuel (n / 16))
        (digit (n % 16) (omega arith), tt))
]
  where
    digit : (d : ℕ) → d < 16 → IsHex (hex_digit d)
    digit d h = ground arith

zeros-IsHex : (n : ℕ) → All IsHex (replicate n b'0')
zeros-IsHex zero = tt
zeros-IsHex (suc n) = ((omega arith, omega arith), zeros-IsHex n)

hex4-IsHex : (n : ℕ) → All IsHex (hex4 n)
unfolding hex4
hex4-IsHex n =
    All-append IsHex (replicate (4 - length (hex 8 n)) b'0') (hex 8 n) (zeros-IsHex _)
      (hex-IsHex 8 n)

-- An identity is made of such characters.
pub identity-IsHex : (a b : ℕ) → All IsHex (identity a b)
unfolding identity
identity-IsHex a b =
    All-append IsHex (hex4 a) (b'-' ∷ hex4 b) (hex4-IsHex a)
      ((omega arith, omega arith), hex4-IsHex b)

length-hex-fuel : (fuel n : ℕ) → length (hex fuel n) ≤ fuel
unfolding hex
length-hex-fuel zero n = omega arith
length-hex-fuel (suc fuel) n = elim (Bool-cases (ltb n 16)) [
  | inl one ↦ rw one (omega arith)
  | inr more ↦ rw more (
      omega (
        arith,
        length-append (hex fuel (n / 16)) (hex_digit (n % 16) ∷ []),
        length-hex-fuel fuel (n / 16),
      ))
]

pub length-identity-lt : (a b : ℕ) → length (identity a b) < 18
length-identity-lt a b = omega (
  arith,
  length-identity a b,
  length-hex4 a,
  length-hex4 b,
  length-hex-fuel 8 a,
  length-hex-fuel 8 b,
)

-- The digits of a byte.
pub hex-digit : (n : ℕ) → n < 16 → hex 8 n ≡ hex_digit (n % 16) ∷ []
unfolding hex
hex-digit n h = let one : ltb n 16 ≡ true = ground arith in rw one refl

pub hex-byte :
    (n : ℕ) → 16 ≤ n → n < 256 → hex 8 n ≡ hex_digit (n / 16 % 16) ∷ hex_digit (n % 16) ∷ []
unfolding hex
hex-byte n h k =
    let more : ltb n 16 ≡ false = ground arith in
    let last : ltb (n / 16) 16 ≡ true = ground arith in rw (more, last) refl
