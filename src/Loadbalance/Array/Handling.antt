-- ===== src/Loadbalance/Array/Handling.antt =====
-- What the broker of src/loadbalance/lbbroker.c makes of one message of a worker or a client.
use zmq_test.Common.{
  ◌-◌, ◌≤◌, ◌<◌, ◌≡◌, ap, inl, inr, true, false, List, [], ◌∷◌, ◌++◌, head?, length, length-append,
  arith, ltb, ◌==◌, Bool-cases,
}
use zmq_test.Czmq.{Frame, Msg}
use zmq_test.Base.Strings.{received}
use zmq_test.Loadbalance.Array.{
  nbr_workers, Name, Broker, Outcome, running, finished, aborted, blocked, unread, starts_with_w,
  enqueue, reply, on_backend, on_frontend, Input, quiet, arrived, Poll, ◌>>=◌,
}
use zmq_test.Loadbalance.Array.Slots.{slots, set-slots, dequeue-slots}

-- What `_worker_task` sends, as the backend receives it: a first message that starts with w, and
-- replies, with the name of the client, which does not start with w.
pub data WorkerMsg : Msg → Type 0 where
  ready : (id c : Frame) → starts_with_w (received 256 c) ≡ true → WorkerMsg (id ∷ [] ∷ c ∷ [])
  done :
      (id c m : Frame)
      → starts_with_w (received 256 c) ≡ false
      → WorkerMsg (id ∷ [] ∷ c ∷ [] ∷ m ∷ [])

-- What `_client_task` sends, as the frontend receives it.
pub data ClientMsg : Msg → Type 0 where
  asks : (c m : Frame) → ClientMsg (c ∷ [] ∷ m ∷ [])

abbrev pub Offers : (Msg → Type 0) → Input → Type 0
Offers P quiet = Unit
Offers P (arrived m) = P m

abbrev pub IsLegal : Poll → Type 0
IsLegal p = Offers WorkerMsg p.backend × Offers ClientMsg p.frontend

-- The broker keeps these free workers, oldest first, and still waits for replies.
pub record Holds (b : Broker) (ids : List Name) : Type 0 where
  pub queue : b.worker_queue ≡ slots 10 ids
  pub count : b.available_workers ≡ length ids
  pub few : length ids ≤ 3
  pub open_requests : 1 ≤ b.client_nbr

-- The loop goes on with a state of this kind, or ends.
abbrev pub Well : (Broker → Type 0) → Outcome → Type 0
Well P (running b) = P b
Well P (finished b) = Unit
Well P aborted = ⊥
Well P blocked = ⊥
Well P (unread b) = ⊥

pub Well-mono :
    (P Q : Broker → Type 0) → ((b : Broker) → P b → Q b) → (o : Outcome) → Well P o → Well Q o
Well-mono P Q f (running b) h = f b h
Well-mono P Q f (finished b) h = tt
Well-mono P Q f aborted h = h
Well-mono P Q f blocked h = h
Well-mono P Q f (unread b) h = h

pub Well-bind :
    (P Q : Broker → Type 0) (o : Outcome) (f : Broker → Outcome)
    → Well P o
    → ((b : Broker) → P b → Well Q (f b))
    → Well Q (o >>= f)
Well-bind P Q (running b) f h k = k b h
Well-bind P Q (finished b) f h k = tt
Well-bind P Q aborted f h k = h
Well-bind P Q blocked f h k = h
Well-bind P Q (unread b) f h k = h

abbrev pub sender : Msg → Name
sender [] = []
sender (id ∷ m) = received 256 id

enqueue-Holds :
    (b : Broker) (ids : List Name) (id : Name)
    → Holds b ids
    → length ids < 3
    → Holds (enqueue b id) (ids ++ id ∷ [])
unfolding enqueue
enqueue-Holds b ids id v h = record {
  queue = rw (v.queue, v.count) (set-slots 10 ids id (omega arith));
  count = omega (arith, v.count, length-append ids (id ∷ []));
  few = omega (arith, length-append ids (id ∷ []));
  open_requests = v.open_requests;
}

reply-Holds :
    (b : Broker) (ids : List Name) (m : Msg) → Holds b ids → Well (λ c. Holds c ids) (reply b m)
unfolding reply
reply-Holds b ids m v = elim (Bool-cases (b.client_nbr - 1 == 0)) [
  | inl last ↦ rw last tt
  | inr more ↦
      rw more
        (record { queue = v.queue; count = v.count; few = v.few; open_requests = ground arith })
]

-- A message of a worker adds it to the free ones.
pub on_backend-Holds :
    (b : Broker) (ids : List Name) {m : Msg}
    → WorkerMsg m
    → Holds b ids
    → length ids < 3
    → Well (λ c. Holds c (ids ++ sender m ∷ [])) (on_backend b m)
unfolding on_backend
on_backend-Holds b ids (ready id c w) v h =
    let room : ltb b.available_workers nbr_workers ≡ true = ground (arith, v.count) in
    rw (room, w) (enqueue-Holds b ids (received 256 id) v h)
on_backend-Holds b ids (done id c m w) v h =
    let room : ltb b.available_workers nbr_workers ≡ true = ground (arith, v.count) in
    let held = enqueue-Holds b ids (received 256 id) v h in
    rw (room, w) (reply-Holds _ (ids ++ received 256 id ∷ []) _ held)

-- A request takes the first free worker.
pub on_frontend-Holds :
    (b : Broker) (id : Name) (ids : List Name) {m : Msg}
    → ClientMsg m
    → Holds b (id ∷ ids)
    → Well (λ c. Holds c ids) (on_frontend b m)
unfolding on_frontend
on_frontend-Holds b id ids (asks c m) v = rw (ap head? v.queue) (record {
  queue = rw v.queue (dequeue-slots 10 id ids (omega (arith, v.few)));
  count = omega (arith, v.count);
  few = omega (arith, v.few);
  open_requests = v.open_requests;
})
