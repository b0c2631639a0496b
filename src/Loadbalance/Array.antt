-- ===== src/Loadbalance/Array.antt =====
-- src/loadbalance/lbbroker.c, the broker over plain sockets. The free workers stand in an array of
-- ten pointers to their names; `none` is NULL. A message is the list of its frames, which the
-- program receives one by one into arrays of 256 bytes.
pub mod Slots
pub mod Tasks
pub mod Handling
pub mod Explicit
pub mod System
pub mod Replies
use zmq_test.Common.{
  ℕ, zero, suc, ◌+◌, ◌-◌, Option, none, some, Bool, true, false, List, [], ◌∷◌, ◌++◌, ltb, ◌==◌,
  if◌then◌else◌, set, head?, replicate, get_elem?,
}
use zmq_test.Czmq.{Frame, Msg}
use zmq_test.Base.Strings.{received}

abbrev pub nbr_clients : ℕ
nbr_clients = 10

abbrev pub nbr_workers : ℕ
nbr_workers = 3

abbrev pub Name : Type 0
Name = List ℕ

pub data Effect : Type 0 where
  to_frontend : Msg → Effect
  to_backend : Msg → Effect

pub record Broker : Type 0 where
  pub available_workers : ℕ
  pub worker_queue : List (Option Name)
  pub client_nbr : ℕ
  pub trace : List Effect

-- `finished` is a `break`, `aborted` a failed assertion or a use of NULL, and `blocked` a wait for
-- a frame that the message does not have. `unread` is where frames of a message stay in the socket,
-- which the program would take for the start of the next one; it is not followed further.
pub data Outcome : Type 0 where
  running : Broker → Outcome
  finished : Broker → Outcome
  aborted : Outcome
  blocked : Outcome
  unread : Broker → Outcome

-- `DEQUEUE`: memmove of all entries but the first, one place down.
pub dequeue : List (Option Name) → List (Option Name)
dequeue [] = []
dequeue (x ∷ []) = x ∷ []
dequeue (x ∷ y ∷ r) = y ∷ dequeue (y ∷ r)

-- `_recv_empty`: the array of two bytes starts with the byte 0.
abbrev pub is_empty : Frame → Bool
is_empty [] = true
is_empty (c ∷ f) = c == 0

-- `client_id[0]!='w'`
abbrev pub starts_with_w : List ℕ → Bool
starts_with_w [] = false
starts_with_w (c ∷ s) = c == b'w'

-- `worker_queue[available_workers++]=id`, where `id` is taken to be the whole name: its byte 0, which
-- `strcpy` writes behind the allocated block, is not modelled apart from it.
pub enqueue : Broker → Name → Broker
enqueue b id = record b {
  available_workers = b.available_workers + 1;
  worker_queue = set b.worker_queue b.available_workers (some id);
}

-- `if (--client_nbr==0) break;` behind the reply.
pub reply : Broker → Msg → Outcome
reply b m =
    let b' = record b { client_nbr = b.client_nbr - 1; trace = b.trace ++ to_frontend m ∷ [] } in
    if b.client_nbr - 1 == 0 then finished b' else running b'

-- The frames behind those that are received.
abbrev pub leaving : Msg → Outcome → Outcome
leaving [] o = o
leaving (f ∷ m) (running b) = unread b
leaving (f ∷ m) (finished b) = finished b
leaving (f ∷ m) aborted = aborted
leaving (f ∷ m) blocked = blocked
leaving (f ∷ m) (unread b) = unread b

-- What follows the third frame of a worker's message: it is received unless that frame starts with w.
pub answer : Broker → List ℕ → Msg → Outcome
unfolding reply
answer b client_id (empty ∷ msg ∷ rest) =
    if starts_with_w client_id
    then unread b
    else if is_empty empty
    then leaving rest (reply b (client_id ∷ [] ∷ received 256 msg ∷ []))
    else aborted
answer b client_id (empty ∷ []) =
    if starts_with_w client_id then unread b else if is_empty empty then blocked else aborted
answer b client_id [] = if starts_with_w client_id then running b else blocked

-- `if (items[0].revents & ZMQ_POLLIN)`
pub on_backend : Broker → Msg → Outcome
unfolding enqueue answer
on_backend b (worker_id ∷ empty ∷ client_id ∷ rest) =
    if ltb b.available_workers nbr_workers
    then if is_empty empty
      then answer (enqueue b (received 256 worker_id)) (received 256 client_id) rest
      else aborted
    else aborted
on_backend b _ = blocked

-- `worker_queue[0]` is given out, and the array moves down.
pub dispatch : Broker → Option (Option Name) → List ℕ → List ℕ → Outcome
unfolding dequeue
dispatch b (some (some id)) client_id msg = running (record b {
  available_workers = b.available_workers - 1;
  worker_queue = dequeue b.worker_queue;
  trace = b.trace ++ to_backend (id ∷ [] ∷ client_id ∷ [] ∷ msg ∷ []) ∷ [];
})
dispatch b (some none) client_id msg = aborted
dispatch b none client_id msg = aborted

-- `if (items[1].revents & ZMQ_POLLIN)`
pub on_frontend : Broker → Msg → Outcome
unfolding dispatch
on_frontend b (client_id ∷ empty ∷ msg ∷ rest) =
    if is_empty empty
    then leaving rest
        (dispatch b (head? b.worker_queue) (received 256 client_id) (received 256 msg))
    else aborted
on_frontend b _ = blocked

-- What a poll gives for a socket.
pub data Input : Type 0 where
  quiet : Input
  arrived : Msg → Input

pub record Poll : Type 0 where
  pub failed : Bool
  pub backend : Input
  pub frontend : Input

abbrev pub on : (Broker → Msg → Outcome) → Broker → Input → Outcome
on handle b quiet = running b
on handle b (arrived m) = handle b m

infixl 5 ◌>>=◌
abbrev pub ◌>>=◌ : Outcome → (Broker → Outcome) → Outcome
running b >>= f = f b
finished b >>= f = finished b
aborted >>= f = aborted
blocked >>= f = blocked
unread b >>= f = unread b

-- `available_workers?2:1` sockets are polled.
pub polled : Broker → Input → Input
polled b i = if b.available_workers == 0 then quiet else i

-- One turn of the loop of `main`.
pub turn : Broker → Poll → Outcome
unfolding on_backend on_frontend polled
turn b p =
    if p.failed
    then finished b
    else (on on_backend b p.backend >>= λ b'. on on_frontend b' (polled b p.frontend))

-- The state before the first turn.
unfoldable pub start : Broker
start = record {
  available_workers = 0;
  worker_queue = replicate 10 none;
  client_nbr = nbr_clients;
  trace = [];
}
