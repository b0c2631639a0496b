-- ===== src/Loadbalance/Array/Explicit.antt =====
-- The state of the broker of src/loadbalance/lbbroker.c after one message of a plain kind.
use zmq_test.Common.{
  ◌+◌, ◌-◌, ◌≤◌, ◌<◌, ◌≡◌, refl, ap, true, false, some, List, [], ◌∷◌, ◌++◌, head?, length,
  length-append, arith, set, ltb, ◌==◌, if◌then◌else◌,
}
use zmq_test.Czmq.{Frame, Msg}
use zmq_test.Base.Strings.{received}
use zmq_test.Loadbalance.Array.{
  Input, quiet, Poll, on, ◌>>=◌, polled, turn, nbr_workers, Name, Broker, running, finished,
  starts_with_w, on_backend, on_frontend, dequeue, to_frontend, to_backend,
}
use zmq_test.Loadbalance.Array.Slots.{set-slots, dequeue-slots}
use zmq_test.Loadbalance.Array.Handling.{Holds}

abbrev pub after_ready : Broker → Name → Broker
after_ready b id = record b {
  available_workers = b.available_workers + 1;
  worker_queue = set b.worker_queue b.available_workers (some id);
}

abbrev pub after_done : Broker → Name → Msg → Broker
after_done b id m = record (after_ready b id) {
  client_nbr = b.client_nbr - 1;
  trace = b.trace ++ to_frontend m ∷ [];
}

abbrev pub after_asks : Broker → Name → Msg → Broker
after_asks b id m = record b {
  available_workers = b.available_workers - 1;
  worker_queue = dequeue b.worker_queue;
  trace = b.trace ++ to_backend (id ∷ [] ∷ m) ∷ [];
}

module _ (b : Broker) (ids : List Name) (v : Holds b ids) where
  pub after_ready-Holds : (id : Name) → length ids < 3 → Holds (after_ready b id) (ids ++ id ∷ [])
  after_ready-Holds id h = record {
    queue = rw (v.queue, v.count) (set-slots 10 ids id (omega arith));
    count = omega (arith, v.count, length-append ids (id ∷ []));
    few = omega (arith, length-append ids (id ∷ []));
    open_requests = v.open_requests;
  }

  pub after_done-Holds :
      (id : Name) (m : Msg)
      → length ids < 3
      → (b.client_nbr - 1 == 0) ≡ false
      → Holds (after_done b id m) (ids ++ id ∷ [])
  after_done-Holds id m h more = record {
    queue = (after_ready-Holds id h).queue;
    count = (after_ready-Holds id h).count;
    few = (after_ready-Holds id h).few;
    open_requests = ground arith;
  }

  pub on_backend-ready :
      (id c : Frame)
      → length ids < 3
      → received 256 id ≡ id
      → starts_with_w (received 256 c) ≡ true
      → on_backend b (id ∷ [] ∷ c ∷ []) ≡ running (after_ready b id)
  unfolding on_backend
  on_backend-ready id c h e w =
      let room : ltb b.available_workers nbr_workers ≡ true = ground (arith, v.count) in
      rw (room, w, e) refl

  pub on_backend-done :
      (id c m : Frame)
      → length ids < 3
      → received 256 id ≡ id
      → received 256 c ≡ c
      → received 256 m ≡ m
      → starts_with_w c ≡ false
      → on_backend b (id ∷ [] ∷ c ∷ [] ∷ m ∷ []) ≡ (
          if b.client_nbr - 1 == 0
          then finished (after_done b id (c ∷ [] ∷ m ∷ []))
          else running (after_done b id (c ∷ [] ∷ m ∷ [])))
  unfolding on_backend
  on_backend-done id c m h e f g w =
      let room : ltb b.available_workers nbr_workers ≡ true = ground (arith, v.count) in
      rw (room, f, w, e, g) refl

module _ (b : Broker) (id : Name) (ids : List Name) (v : Holds b (id ∷ ids)) where
  pub after_asks-Holds : (m : Msg) → Holds (after_asks b id m) ids
  after_asks-Holds m = record {
    queue = rw v.queue (dequeue-slots 10 id ids (omega (arith, v.few)));
    count = omega (arith, v.count);
    few = omega (arith, v.few);
    open_requests = v.open_requests;
  }

  pub on_frontend-asks :
      (c m : Frame)
      → received 256 c ≡ c
      → received 256 m ≡ m
      → on_frontend b (c ∷ [] ∷ m ∷ []) ≡ running (after_asks b id (c ∷ [] ∷ m ∷ []))
  unfolding on_frontend
  on_frontend-asks c m e f = rw (ap head? v.queue, e, f) refl

-- The parts of a turn.
pub turn-eq :
    (b : Broker) (p : Poll)
    → turn b p ≡ (
        if p.failed
        then finished b
        else (on on_backend b p.backend >>= λ b'. on on_frontend b' (polled b p.frontend)))
unfolding turn
turn-eq b p = refl

pub polled-nobody : (b : Broker) (i : Input) → b.available_workers ≡ 0 → polled b i ≡ quiet
unfolding polled
polled-nobody b i e = rw e refl

pub polled-somebody : (b : Broker) (i : Input) → 1 ≤ b.available_workers → polled b i ≡ i
unfolding polled
polled-somebody b i h = let more : (b.available_workers == 0) ≡ false = ground arith in rw more refl
