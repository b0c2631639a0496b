-- ===== src/Base/Random/Floats.antt =====
-- Laws of the rounding.
use native.Mathlib.Nat.{
  two-pow-succ, one-le-pow, div-add-mod', mul-le-mul_right, lt_of_mul-lt-mul_right, mul-mod_left,
}
use native.Mathlib.Numerals.{add-one}
use Prim.Native.Nat.add
use zmq_test.Common.{
  ℕ, zero, suc, ◌+◌, ◌*◌, ◌/◌, ◌%◌, ◌^◌, ◌≤◌, ◌<◌, ◌≡◌, ap, ◌∙◌, inl, inr, true, ltb, ◌==◌,
  Bool-cases, arith,
}
use zmq_test.Base.Random.{dropped_bits, round_to}

pub pow_add : (a b : ℕ) → 2 ^ (a + b) ≡ 2 ^ a * 2 ^ b
pow_add zero b = omega (arith, ap (λ n. 2 ^ n) (add.zero b))
pow_add (suc a) b = omega (
  arith,
  ap (λ n. 2 ^ n) (add.suc a b),
  two-pow-succ (a + b),
  two-pow-succ a,
  ap (λ n. n * 2 ^ b) (two-pow-succ a),
  pow_add a b,
)

-- A number below 2^(24 + k) loses at most k bits.
pub dropped_bits-le : (fuel k x : ℕ) → x < 2 ^ 24 * 2 ^ k → dropped_bits fuel x ≤ k
unfolding dropped_bits
dropped_bits-le zero k x h = omega arith
dropped_bits-le (suc fuel) zero x h = ground arith
dropped_bits-le (suc fuel) (suc k) x h =
    ground (arith, dropped_bits-le fuel k (x / 2), two-pow-succ k)

pub dropped_bits-step :
    (fuel x : ℕ) → 2 ^ 24 ≤ x → dropped_bits (suc fuel) x ≡ suc (dropped_bits fuel (x / 2))
unfolding dropped_bits
dropped_bits-step fuel x h = ground arith

pub dropped_bits-small : (fuel x : ℕ) → x < 2 ^ 24 → dropped_bits (suc fuel) x ≡ 0
unfolding dropped_bits
dropped_bits-small fuel x h = ground arith

up-le : (u x m : ℕ) → 0 < x % u → x ≤ m * u → (x / u + 1) * u ≤ m * u
up-le u x m h k = rw (add-one (x / u)) (
    mul-le-mul_right u
      (lt_of_mul-lt-mul_right u {m = x / u} {n = m} (omega (arith, div-add-mod' x u))))

-- A number between 2^(23 + k) and 2^(24 + k) loses k bits.
pub dropped_bits-eq :
    (fuel k x : ℕ) → 2 ^ 23 * 2 ^ k ≤ x → x < 2 ^ 24 * 2 ^ k → k < fuel → dropped_bits fuel x ≡ k
dropped_bits-eq zero k x h l f = absurd (omega arith)
dropped_bits-eq (suc fuel) zero x h l f = dropped_bits-small fuel x (omega arith)
dropped_bits-eq (suc fuel) (suc k) x h l f =
    let deeper : dropped_bits fuel (x / 2) ≡ k =
      dropped_bits-eq fuel k (x / 2) (omega (arith, two-pow-succ k)) (omega (arith, two-pow-succ k))
        (omega arith) in
    dropped_bits-step fuel x (omega (arith, two-pow-succ k, one-le-pow k 2 (omega arith)))
    ∙ ap suc deeper

-- Rounding does not pass a multiple of the unit.
pub round_to-le : (u x m : ℕ) → 1 ≤ u → x ≤ m * u → round_to u x ≤ m * u
unfolding round_to
round_to-le u x m h k = elim (Bool-cases (ltb (2 * (x % u)) u)) [
  | inl low ↦ rw low (omega (arith, div-add-mod' x u))
  | inr high ↦ rw high (elim (Bool-cases (ltb u (2 * (x % u)))) [
    | inl more ↦ rw more (up-le u x m (ground arith) k)
    | inr tie ↦ rw tie (elim (Bool-cases (x / u % 2 == 0)) [
      | inl even ↦ rw even (omega (arith, div-add-mod' x u))
      | inr odd ↦ rw odd (up-le u x m (ground arith) k)
    ])
  ])
]

-- A multiple of the unit is kept.
pub round_to-exact : (u m : ℕ) → 1 ≤ u → round_to u (m * u) ≡ m * u
unfolding round_to
round_to-exact u m h =
    let e : m * u % u ≡ 0 = mul-mod_left m u in
    let low : ltb (2 * (m * u % u)) u ≡ true = ground arith in
    rw low (omega (arith, div-add-mod' (m * u) u))
