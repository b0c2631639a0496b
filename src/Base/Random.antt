-- ===== src/Base/Random.antt =====
-- The macro `randof` of src/base.h: (int)((float)(_num_)*random()/(RAND_MAX+1.0)), with RAND_MAX
-- 2^31 - 1. Both factors and the product are of type float, which keeps 24 bits and rounds to the
-- nearest, a tie to the even one; the quotient, of type double, is exact, and the cast rounds down.
-- The model is over numbers that are not negative, which is how the programs call it.
pub mod Floats
pub mod Range
use zmq_test.Common.{ℕ, zero, suc, ◌+◌, ◌*◌, ◌/◌, ◌%◌, ◌^◌, ltb, ◌==◌, if◌then◌else◌}

-- How many bits a float drops of a number.
unfoldable pub dropped_bits : ℕ → ℕ → ℕ
dropped_bits zero x = 0
dropped_bits (suc fuel) x =
    let rest = suc (dropped_bits fuel (x / 2)) in if ltb x (2 ^ 24) then 0 else rest

-- A number rounded to a multiple of `unit`.
unfoldable pub round_to : ℕ → ℕ → ℕ
round_to unit x =
    let down = x / unit * unit in
    let up = (x / unit + 1) * unit in
    if ltb (2 * (x % unit)) unit
    then down
    else if ltb unit (2 * (x % unit))
    then up
    else if x / unit % 2 == 0
    then down
    else up

-- The conversion of a number below 2^88 to float.
unfoldable pub to_float : ℕ → ℕ
to_float x = round_to (2 ^ dropped_bits 64 x) x

-- `randof`, with what `random()` gives.
unfoldable pub randof : ℕ → ℕ → ℕ
randof num random = to_float (to_float num * to_float random) / 2 ^ 31
