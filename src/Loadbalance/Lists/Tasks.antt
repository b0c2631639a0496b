-- ===== src/Loadbalance/Lists/Tasks.antt =====
-- The clients and workers of src/loadbalance/lbbroker2.c.
use zmq_test.Common.{ℕ, false, ◌≡◌, refl, Option, none, some, List, [], ◌∷◌, ◌++◌, All}
use zmq_test.Czmq.{Frame, Msg}
use zmq_test.Base.Strings.{c_string}
use zmq_test.Loadbalance.Array.Tasks.{routed}
use zmq_test.Loadbalance.Lists.{
  is_ready, arrived, worker_ready, worker_reply, Effect, to_frontend, to_backend,
}
use zmq_test.Loadbalance.Lists.Service.{Service, heard, given, IsWorkerMsg}

-- `client_task`: what it sends, and what it prints of the reply.
abbrev pub hello : Frame
hello = b'H' ∷ b'E' ∷ b'L' ∷ b'L' ∷ b'O' ∷ []

pub client_task : Option Frame → Msg × List (List ℕ)
client_task none = (hello ∷ [], [])
client_task (some reply) = (hello ∷ [], c_string reply ∷ [])

-- The loop of `worker_task`, up to a NULL.
pub worker_loop : List (Option Msg) → List Msg
worker_loop [] = []
worker_loop (none ∷ msgs) = []
worker_loop (some msg ∷ msgs) = worker_reply msg ∷ worker_loop msgs

pub worker_task : List (Option Msg) → List Msg
unfolding worker_loop
worker_task msgs = (worker_ready ∷ []) ∷ worker_loop msgs

abbrev pub ok : Frame
ok = b'O' ∷ b'K' ∷ []

-- The request of a client goes to the first free worker, whose answer is the text OK for that client.
-- When the broker hears it, the worker is the last of the free ones, the client is sent OK, and
-- prints it.
pub hello_answered :
    (client worker : Frame) (free : List Frame) (out : List Effect)
    → is_ready client ≡ false
    → let asked : Service =
        given (worker ∷ free, out) (arrived (routed client (client_task none).0)) in
      let reply : Msg = worker_reply (client ∷ [] ∷ hello ∷ []) in
      (asked ≡ (free, out ++ to_backend (worker ∷ [] ∷ client ∷ [] ∷ hello ∷ []) ∷ []))
      × (heard asked (arrived (routed worker reply))
          ≡ (free ++ worker ∷ [], asked.1 ++ to_frontend (client ∷ [] ∷ ok ∷ []) ∷ []))
      × ((client_task (some ok)).1 ≡ ok ∷ [])
unfolding client_task worker_reply
hello_answered client worker free out e = (refl, rw e refl, refl)

abbrev pub HasFrame : Option Msg → Type 0
HasFrame none = Unit
HasFrame (some []) = ⊥
HasFrame (some (f ∷ m)) = Unit

worker_loop-IsWorkerMsg :
    (worker : Frame) (msgs : List (Option Msg))
    → All HasFrame msgs
    → All (λ m. IsWorkerMsg (arrived (routed worker m))) (worker_loop msgs)
unfolding worker_loop worker_reply
worker_loop-IsWorkerMsg worker [] h = tt
worker_loop-IsWorkerMsg worker (none ∷ msgs) h = tt
worker_loop-IsWorkerMsg worker (some [] ∷ msgs) h = absurd h.0
worker_loop-IsWorkerMsg worker (some (f ∷ []) ∷ msgs) h =
    (tt, worker_loop-IsWorkerMsg worker msgs h.1)
worker_loop-IsWorkerMsg worker (some (f ∷ g ∷ m) ∷ msgs) h =
    (tt, worker_loop-IsWorkerMsg worker msgs h.1)

-- What a worker sends is what the broker relies on, as long as no message that it gets is without a
-- frame.
pub worker_task-IsWorkerMsg :
    (worker : Frame) (msgs : List (Option Msg))
    → All HasFrame msgs
    → All (λ m. IsWorkerMsg (arrived (routed worker m))) (worker_task msgs)
unfolding worker_task
worker_task-IsWorkerMsg worker msgs h = (tt, worker_loop-IsWorkerMsg worker msgs h)
