-- ===== src/Mdp/Examples.antt =====
-- src/MDP/client.c and src/MDP/worker.c, which use the two libraries for the service "echo". What the
-- environment does in the i-th round of the n-th call of `mdcli_send` is `env n i`.
pub mod Echo
mod Tests
use zmq_test.Common.{ℕ, zero, suc, ◌+◌, Option, none, some, Bool, List, [], ◌∷◌}
use zmq_test.Czmq.{Frame, Msg, Zmsg}
use zmq_test.Mdp.Client
use zmq_test.Mdp.Client.{Session, Round, Result, returned, gave_up}
use zmq_test.Mdp.Worker

-- "tcp://localhost:5555"
abbrev pub broker : List ℕ
broker =
    b't' ∷ b'c' ∷ b'p' ∷ b':' ∷ b'/' ∷ b'/' ∷ b'l' ∷ b'o' ∷ b'c' ∷ b'a' ∷ b'l' ∷ b'h' ∷ b'o' ∷ b's'
    ∷ b't' ∷ b':' ∷ b'5' ∷ b'5' ∷ b'5' ∷ b'5' ∷ []

-- "echo"
abbrev pub service : List ℕ
service = b'e' ∷ b'c' ∷ b'h' ∷ b'o' ∷ []

-- "Hello world"
abbrev pub hello_world : Frame
hello_world = b'H' ∷ b'e' ∷ b'l' ∷ b'l' ∷ b'o' ∷ b' ' ∷ b'w' ∷ b'o' ∷ b'r' ∷ b'l' ∷ b'd' ∷ []

-- The end of `main` of client.c, with `count`, or a failed assertion.
pub data Ended : Type 0 where
  processed : ℕ → Session → Ended
  aborted : Ended

-- What follows the call of `mdcli_send`; `rest` is the loop after a reply.
pub on_result : ℕ → (Session → Ended) → Result → Ended
on_result count rest (returned session reply) = rest session
on_result count rest (gave_up session) = processed count session
on_result count rest Client.aborted = aborted

module _ (C : Zmsg) (env : ℕ → ℕ → Round) where
  -- The loop, with the rounds that are left.
  pub client_loop : ℕ → ℕ → Session → Ended
  unfolding on_result
  client_loop zero count session = processed count session
  client_loop (suc left) count session =
      on_result count (λ next. client_loop left (count + 1) next)
        (Client.send C (env count) session service (C.push [] hello_world))

  -- `main` of client.c
  pub client_main : Bool → Ended
  client_main verbose = client_loop 100000 0 (Client.new broker verbose)

module _ (C : Zmsg) (clock : ℕ → ℕ) where
  -- `main` of worker.c: the first call of `mdwrk_recv` does not give it a request.
  pub worker_main : Bool → List Worker.Poll → Worker.Outcome
  worker_main verbose polls =
      Worker.recv C clock (Worker.new C clock broker service verbose) none polls
