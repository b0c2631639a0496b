-- ===== src/Loadbalance/Requests.antt =====
-- src/loadbalance/rtreq.c: workers that ask a broker for work until it tells them to stop.
pub mod Ending
use zmq_test.Common.{
  ℕ, zero, suc, ◌+◌, Bool, true, false, List, [], ◌∷◌, ◌++◌, ltb, ◌==◌, if◌then◌else◌, streq,
}
use zmq_test.Czmq.{Frame, Msg}
use zmq_test.Base.Random.{randof}
use zmq_test.Base.Strings.{received}

abbrev pub nbr_workers : ℕ
nbr_workers = 3

abbrev pub ok : Frame
ok = b'o' ∷ b'k' ∷ []

abbrev pub exit : Frame
exit = b'e' ∷ b'x' ∷ b'i' ∷ b't' ∷ []

-- What a worker is told, and what its draw of a random number gives if it goes on.
pub record Reply : Type 0 where
  pub frame : Frame
  pub random : ℕ

pub data Task : Type 0 where
  asking : ℕ → List ℕ → Task
  completed : ℕ → List ℕ → Task

-- The loop of `worker_task` with `total` and the pauses so far, from the first request on. A
-- request has been sent whenever the worker is `asking`.
pub worker_task : ℕ → List ℕ → List Reply → Task
worker_task total pauses [] = asking total pauses
worker_task total pauses (r ∷ rs) =
    let again = worker_task (total + 1) (pauses ++ (randof 500 r.random + 1) ∷ []) rs in
    if streq (received 256 r.frame) exit then completed total pauses else again

-- A request, of which the broker reads three frames, and what `s_clock` then stores.
pub record Request : Type 0 where
  pub identity : Frame
  pub now : ℕ

pub record Broker : Type 0 where
  pub workers_exited : ℕ
  pub trace : List Msg

pub data Outcome : Type 0 where
  running : Broker → Outcome
  finished : Broker → Outcome

-- The answer of the broker, behind the identity and an empty frame.
pub answer : ℕ → Request → Frame
answer end_time r = if ltb r.now end_time then ok else exit

-- One turn of the loop of `main`.
pub turn : ℕ → Broker → Request → Outcome
unfolding answer
turn end_time b r =
    let trace = b.trace ++ (received 256 r.identity ∷ [] ∷ answer end_time r ∷ []) ∷ [] in
    if ltb r.now end_time
    then running (record b { trace = trace })
    else if b.workers_exited + 1 == nbr_workers
    then finished (record { workers_exited = b.workers_exited + 1; trace = trace })
    else running (record { workers_exited = b.workers_exited + 1; trace = trace })

pub run : ℕ → Broker → List Request → Outcome
unfolding turn
run end_time b [] = running b
run end_time b (r ∷ rs) = elim (turn end_time b r) [
  | running next ↦ run end_time next rs
  | finished last ↦ finished last
]

-- The state before the first turn.
pub start : Broker
start = record { workers_exited = 0; trace = [] }

-- `end_time`, from the reading of `s_clock` before the loop
pub end_of : ℕ → ℕ
end_of now = now + 500
