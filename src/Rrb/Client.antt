-- ===== src/Rrb/Client.antt =====
-- src/rrb/client.c. `string` is the array of 256 bytes, `printed` what is printed of the replies.
pub mod Rounds
use zmq_test.Common.{
  ℕ, ◌+◌, Option, none, some, Bool, true, false, List, [], ◌∷◌, ◌++◌, ltb, if◌then◌else◌,
}
use zmq_test.Czmq.{Frame}
use zmq_test.Base.Strings.{c_string}
use zmq_test.Base.Transport.{Call, s_send, s_recv}

pub record Client : Type 0 where
  pub name : Frame
  pub request_nbr : ℕ
  pub waiting : Bool
  pub string : List ℕ
  pub printed : List (List ℕ)

abbrev pub requests : ℕ
requests = 10

-- The texts of the programs, with the byte 0 behind them.
abbrev pub hello : List ℕ
hello = b'H' ∷ b'e' ∷ b'l' ∷ b'l' ∷ b'o' ∷ 0 ∷ []

-- The test of the loop, and `s_send` in its body; `none` where the loop has ended.
unfoldable pub ask : Client → Option (Client × Call)
ask c =
    if ltb c.request_nbr requests
    then some (record c { waiting = true }, (s_send hello 0 false none).0)
    else none

-- What follows `s_send` in the body, up to the next test.
pub hear : Client → Option Frame → Client
hear c frame =
    let string = s_recv c.string 256 frame in
    record c {
      request_nbr = c.request_nbr + 1;
      waiting = false;
      string = string;
      printed = c.printed ++ c_string string ∷ [];
    }

-- A client with this name and whatever its array holds.
unfoldable pub start : Frame → List ℕ → Client
start name string = record {
  name = name;
  request_nbr = 0;
  waiting = false;
  string = string;
  printed = [];
}
