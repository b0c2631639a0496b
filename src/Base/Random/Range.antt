-- ===== src/Base/Random/Range.antt =====
-- The range of `randof`: it never exceeds its argument, and the largest draws reach it.
use native.Mathlib.Nat.{one-le-pow, mul-le-mul_left, mul_assoc}
use zmq_test.Common.{ℕ, ◌+◌, ◌-◌, ◌*◌, ◌^◌, ◌≤◌, ◌<◌, ◌≡◌, sym, ap, ◌∙◌, arith, subst}
use zmq_test.Base.Random.{dropped_bits, round_to, to_float, randof}
use zmq_test.Base.Random.Floats.{
  pow_add, dropped_bits-le, dropped_bits-eq, dropped_bits-small, round_to-le, round_to-exact,
}

-- What 24 bits hold is kept.
to_float-small : (n : ℕ) → n < 2 ^ 24 → to_float n ≡ n
unfolding to_float
to_float-small n h =
    let e : n * 1 ≡ n = omega arith in
    rw (dropped_bits-small 63 n h)
      (subst (λ x. round_to 1 x ≡ x) e (round_to-exact 1 n (omega arith)))

-- So is such a number times 2^31.
shifted : (n k : ℕ) → n < 2 ^ 24 → k ≤ 31 → n * 2 ^ 31 ≡ n * 2 ^ (31 - k) * 2 ^ k
shifted n k h l =
    let e : 31 - k + k ≡ 31 = omega arith in
    ap (λ p. n * p) (ap (λ i. 2 ^ i) (sym e) ∙ pow_add (31 - k) k)
    ∙ sym (mul_assoc n (2 ^ (31 - k)) (2 ^ k))

to_float-shifted : (n : ℕ) → n < 2 ^ 24 → to_float (n * 2 ^ 31) ≡ n * 2 ^ 31
unfolding to_float
to_float-shifted n h =
    let few : dropped_bits 64 (n * 2 ^ 31) ≤ 31 =
      dropped_bits-le 64 31 (n * 2 ^ 31) (omega arith) in
    let e = shifted n (dropped_bits 64 (n * 2 ^ 31)) h few in
    ap (round_to _) e ∙ round_to-exact _ _ (one-le-pow _ 2 (omega arith)) ∙ sym e

to_float-shifted-le : (n x : ℕ) → n < 2 ^ 24 → x ≤ n * 2 ^ 31 → to_float x ≤ n * 2 ^ 31
unfolding to_float
to_float-shifted-le n x h l =
    let few : dropped_bits 64 x ≤ 31 = dropped_bits-le 64 31 x (omega arith) in
    rw (shifted n (dropped_bits 64 x) h few) (
      round_to-le (2 ^ dropped_bits 64 x) x (n * 2 ^ (31 - dropped_bits 64 x))
        (one-le-pow _ 2 (omega arith)) (rw (← shifted n (dropped_bits 64 x) h few) l))

round_to-last : (r : ℕ) → 2 ^ 31 - 64 ≤ r → r < 2 ^ 31 → round_to 128 r ≡ 2 ^ 31
unfolding round_to
round_to-last r h l = ground arith

-- The last 64 draws round up to 2^31.
to_float-last : (r : ℕ) → 2 ^ 31 - 64 ≤ r → r < 2 ^ 31 → to_float r ≡ 2 ^ 31
unfolding to_float
to_float-last r h l =
    let bits : dropped_bits 64 r ≡ 7 =
      dropped_bits-eq 64 7 r (omega arith) (omega arith) (omega arith) in
    rw bits (round_to-last r h l)

-- `randof(num)` is at most `num`, for `num` below 2^24 and a value of `random()` below 2^31.
pub randof-le : (num random : ℕ) → num < 2 ^ 24 → random < 2 ^ 31 → randof num random ≤ num
unfolding randof
randof-le num random h l =
    let a : to_float random ≤ 2 ^ 31 = omega (arith, to_float-shifted-le 1 random (omega arith)) in
    let b : to_float (num * to_float random) ≤ num * 2 ^ 31 =
      to_float-shifted-le num _ h (omega (arith, mul-le-mul_left num a)) in
    rw (to_float-small num h) (omega (arith, b))

-- `randof(num)` is `num` itself for each of the last 64 values of `random()` below 2^31, if
-- `num` is below 2^24.
pub randof-last :
    (num random : ℕ)
    → num < 2 ^ 24
    → 2 ^ 31 - 64 ≤ random
    → random < 2 ^ 31
    → randof num random ≡ num
unfolding randof
randof-last num random h k l =
    rw (to_float-small num h, to_float-last random k l, to_float-shifted num h) (omega arith)
