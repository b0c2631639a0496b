-- ===== src/Base/Transport.antt =====
-- `s_recv`, `s_send`, `s_sendmore` and `s_sendlists` of src/base.c. A string is the memory that its
-- pointer points to; what `zmq_send` and `zmq_recv` return is an argument, `none` for -1. A call
-- of `zmq_send` is a value, as ZMQ_SNDMORE joins it to the next one. Error texts are left out.
pub mod Delivery
use zmq_test.Common.{
  ℕ, zero, suc, ◌+◌, ◌-◌, ◌%◌, ◌^◌, Option, none, some, Bool, true, false, List, [], ◌∷◌, ◌++◌,
  take, length, set, ltb, ◌==◌, if◌then◌else◌,
}
use zmq_test.Czmq.{Frame, Msg}
use zmq_test.Base.Strings.{c_string}

-- Bytes written over an array from its start on; what passes its end is lost.
abbrev pub overlay : List ℕ → List ℕ → List ℕ
overlay [] str = str
overlay (c ∷ bytes) [] = []
overlay (c ∷ bytes) (d ∷ str) = c ∷ overlay bytes str

-- `len-1`, an unsigned number of 32 bits
abbrev pub room : ℕ → ℕ
room len = (len + (2 ^ 32 - 1)) % 2 ^ 32

-- The array after `s_recv(socket, str, len)`: `zmq_recv` writes what fits and gives the length of
-- the frame.
unfoldable pub s_recv : List ℕ → ℕ → Option Frame → List ℕ
s_recv str len none = str
s_recv str len (some frame) =
    let size = length frame in
    set (overlay (take (room len) frame) str) (if ltb (room len) size then room len else size) 0

pub record Call : Type 0 where
  pub bytes : Frame
  pub more : Bool

-- `len?len:strlen(str)` bytes from `str`
abbrev pub payload : List ℕ → ℕ → Frame
payload str len = if len == 0 then c_string str else take len str

-- The call that `s_send` makes, and what it stores behind `size` if that is not NULL.
unfoldable pub s_send : List ℕ → ℕ → Bool → Option ℕ → Call × Option (Option ℕ)
s_send str len size s =
    (record { bytes = payload str len; more = false }, if size then some s else none)

unfoldable pub s_sendmore : List ℕ → ℕ → Bool → Option ℕ → Call × Option (Option ℕ)
s_sendmore str len size s =
    (record { bytes = payload str len; more = true }, if size then some s else none)

-- The calls of `s_sendlists` for `count` pairs of a string and a length. With none of them
-- `count-1` wraps, and the loop reads arguments that were not given.
pub s_sendlists : List (List ℕ × ℕ) → Option (List Call)
s_sendlists [] = none
s_sendlists ((bytes, len) ∷ []) = some (record { bytes = payload bytes len; more = false } ∷ [])
s_sendlists ((bytes, len) ∷ next ∷ rest) = elim (s_sendlists (next ∷ rest)) [
  | none ↦ none
  | some calls ↦ some (record { bytes = payload bytes len; more = true } ∷ calls)
]
