-- ===== src/Mt/Server.antt =====
-- src/mt/server.c: the threads that it makes, and the body of their loop. Between them and the clients
-- stands `zmq_proxy`, which is not in the repository.
use zmq_test.Common.{ℕ, zero, suc, ◌+◌, Option, none, false, List, [], ◌∷◌}
use zmq_test.Czmq.{Frame}
use zmq_test.Base.Strings.{c_string}
use zmq_test.Base.Transport.{Call, s_send, s_recv}

-- `struct ctx` without the context.
pub record Ctx : Type 0 where
  pub id : ℕ

pub data Effect : Type 0 where
  printed : ℕ → List ℕ → Effect
  slept : ℕ → Effect
  sent : Call → Effect

abbrev pub world : List ℕ
world = b'W' ∷ b'o' ∷ b'r' ∷ b'l' ∷ b'd' ∷ 0 ∷ []

-- The body of the loop of `worker_routine`, from the array before it to the array after it.
pub worker_routine : Ctx → List ℕ → Option Frame → List ℕ × List Effect
worker_routine c string frame =
    let string = s_recv string 256 frame in
    (string, printed c.id (c_string string) ∷ slept 1 ∷ sent (s_send world 0 false none).0 ∷ [])

-- The loop of `main` with `left` threads to make: each gets a struct of its own.
pub create : ℕ → ℕ → List Ctx
create zero thread_nbr = []
create (suc left) thread_nbr = record { id = thread_nbr } ∷ create left (thread_nbr + 1)

pub main : List Ctx
unfolding create
main = create 5 0
