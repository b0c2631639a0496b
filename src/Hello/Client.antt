-- ===== src/Hello/Client.antt =====
-- src/helloworld/client.c.
use zmq_test.Common.{ℕ, zero, suc, ◌+◌, List, [], ◌∷◌}
use zmq_test.Czmq.{Frame}

pub data Effect : Type 0 where
  sending : ℕ → Effect
  sent : Frame → Effect
  received : ℕ → Effect

abbrev pub hello : Frame
hello = b'H' ∷ b'e' ∷ b'l' ∷ b'l' ∷ b'o' ∷ []

-- The loop with `left` rounds to go. Whatever `zmq_recv` gives goes into a buffer that nothing reads.
unfoldable pub loop : ℕ → ℕ → List Effect
loop zero request_nbr = []
loop (suc left) request_nbr =
    sending request_nbr ∷ sent hello ∷ received request_nbr ∷ loop left (request_nbr + 1)

unfoldable pub main : List Effect
unfolding loop
main = loop 10 0
