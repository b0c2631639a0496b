-- ===== src/Rrb/Worker.antt =====
-- src/rrb/worker.c. What is printed of the request and the pause of a second come before the reply.
use zmq_test.Common.{ℕ, Option, none, false, List, [], ◌∷◌}
use zmq_test.Czmq.{Frame}
use zmq_test.Base.Strings.{c_string}
use zmq_test.Base.Transport.{Call, s_send, s_recv}

pub data Effect : Type 0 where
  printed : List ℕ → Effect
  slept : ℕ → Effect
  sent : Call → Effect

abbrev pub world : List ℕ
world = b'W' ∷ b'o' ∷ b'r' ∷ b'l' ∷ b'd' ∷ b'!' ∷ 0 ∷ []

-- The body of the loop, from the array before it to the array after it and what it does.
unfoldable pub serve : List ℕ → Option Frame → List ℕ × List Effect
serve string frame =
    let string = s_recv string 256 frame in
    (string, printed (c_string string) ∷ slept 1 ∷ sent (s_send world 0 false none).0 ∷ [])
