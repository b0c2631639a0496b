-- ===== src/Base/Identity.antt =====
-- The identity that `s_set_id` of src/base.c and `_client_task` of src/async/cs.c print with
-- sprintf(…, "%04X-%04X", randof(0x10000), randof(0x10000)).
pub mod Width
use zmq_test.Common.{
  ℕ, zero, suc, ◌+◌, ◌-◌, ◌/◌, ◌%◌, List, [], ◌∷◌, ◌++◌, length, replicate, ltb, if◌then◌else◌,
}
use zmq_test.Base.Random.{randof}

abbrev pub hex_digit : ℕ → ℕ
hex_digit d = if ltb d 10 then b'0' + d else b'A' + (d - 10)

-- The digits of a number, the first one not 0 unless it is alone.
unfoldable pub hex : ℕ → ℕ → List ℕ
hex zero n = []
hex (suc fuel) n =
    let front = hex fuel (n / 16) in (if ltb n 16 then [] else front) ++ hex_digit (n % 16) ∷ []

-- `%04X` of an `int` that is not negative, which has eight digits at most.
pub hex4 : ℕ → List ℕ
hex4 n = replicate (4 - length (hex 8 n)) b'0' ++ hex 8 n

pub identity : ℕ → ℕ → List ℕ
identity a b = hex4 a ++ b'-' ∷ hex4 b

-- The identity that two calls of `random()` lead to.
pub drawn_identity : ℕ → ℕ → List ℕ
drawn_identity r s = identity (randof 0x10000 r) (randof 0x10000 s)

-- The sizes of the arrays that it is printed to.
abbrev pub set_id_size : ℕ
set_id_size = 16

abbrev pub client_task_size : ℕ
client_task_size = 10
