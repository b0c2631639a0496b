-- ===== src/Cloud/Flow/Tasks.antt =====
-- The clients and the workers of src/cloud/lcflow.c, up to a NULL.
use zmq_test.Common.{ℕ, ◌≡◌, refl, Option, none, some, List, [], ◌∷◌, ◌++◌}
use zmq_test.Czmq.{Frame, Msg}
use zmq_test.Base.Strings.{c_string}
use zmq_test.Cloud.Flow.{worker_ready}

pub data Effect : Type 0 where
  sent : Msg → Effect
  printed : List ℕ → Effect
  slept : ℕ → Effect

abbrev pub hello : Frame
hello = b'H' ∷ b'E' ∷ b'L' ∷ b'L' ∷ b'O' ∷ []

abbrev pub ok : Frame
ok = b'O' ∷ b'K' ∷ []

-- `_client_task`, with what its receives give.
pub client_task : List (Option Frame) → List Effect
client_task [] = sent (hello ∷ []) ∷ []
client_task (none ∷ replies) = sent (hello ∷ []) ∷ []
client_task (some reply ∷ replies) =
    sent (hello ∷ []) ∷ printed (c_string reply) ∷ slept 1 ∷ client_task replies

-- What a worker makes of a message, its last frame and the message with OK in place of that; `none` if
-- there is no frame, which aborts.
pub answer : Msg → Option (Frame × Msg)
answer [] = none
answer (f ∷ []) = some (f, ok ∷ [])
answer (f ∷ g ∷ m) = elim (answer (g ∷ m)) [ none ↦ none | some (last, m') ↦ some (last, f ∷ m') ]

pub handled : Option (Frame × Msg) → Option (List Effect) → Option (List Effect)
handled (some (last, m)) (some effects) = some (printed last ∷ sent m ∷ effects)
handled _ _ = none

-- The loop of `_worker_task`; `none` if it aborts.
pub worker_loop : List (Option Msg) → Option (List Effect)
unfolding answer handled
worker_loop [] = some []
worker_loop (none ∷ msgs) = some []
worker_loop (some m ∷ msgs) = handled (answer m) (worker_loop msgs)

abbrev pub reported : Option (List Effect) → Option (List Effect)
reported none = none
reported (some effects) = some (sent (worker_ready ∷ []) ∷ effects)

pub worker_task : List (Option Msg) → Option (List Effect)
unfolding worker_loop
worker_task msgs = reported (worker_loop msgs)

-- A message of at least one frame is answered with as many frames, all but the last the same.
pub answer-last : (m : Msg) (f : Frame) → answer (m ++ f ∷ []) ≡ some (f, m ++ ok ∷ [])
unfolding answer
answer-last [] f = refl
answer-last (g ∷ []) f = refl
answer-last (g ∷ h ∷ m) f = rw (answer-last (h ∷ m) f) refl
