-- ===== src/Loadbalance/Whole.antt =====
-- src/loadbalance/lbbroker.c with all its threads: the broker, the clients and the workers. Messages
-- to one socket may come in any order.
pub mod Weights
pub mod Moves
pub mod Invariant
pub mod Liveness
pub mod Answers
mod Tests
use zmq_test.Common.{
  ℕ, suc, ◌+◌, ◌≤◌, ◌≡◌, ◌≢◌, ◌⊎◌, Option, none, some, Bool, true, false, List, [], ◌∷◌, ◌++◌, map,
  length, drop,
}
use zmq_test.Czmq.{Frame, Msg}
use zmq_test.Base.Strings.{received}
use zmq_test.Loadbalance.Array
use zmq_test.Loadbalance.Array.Tasks.{hello, said_ok}
use zmq_test.Loadbalance.Lists
use zmq_test.Loadbalance.Equivalence.{Said, ready, done, array_poll, sent}

-- `unsent` are the clients that have not asked yet, `front` the requests that wait at the frontend,
-- each with the client's name, `unready` the workers that have not spoken yet, `back` what waits at
-- the backend, and `jobs` what waits at a worker, behind its name. Once the loop of the broker has
-- ended, `over` is true.
pub record System : Type 0 where
  pub unsent : List Frame
  pub front : List (Frame × Frame)
  pub unready : List Frame
  pub back : List Said
  pub jobs : List (Frame × Msg)
  pub broker : Array.Broker
  pub over : Bool

-- What is left of waiting messages when a poll takes one of them, or none.
pub data Takes {ℓ} {A : Type ℓ} : Option A → List A → List A → Type ℓ where
  nothing : (xs : List A) → Takes none xs xs
  one : (xs : List A) (x : A) (ys : List A) → Takes (some x) (xs ++ x ∷ ys) (xs ++ ys)

-- What a poll shows: something, and a request only if the frontend is polled.
pub record Polled (s : System) (w : Option Said) (q : Option (Frame × Frame)) (back : List Said)
    (front : List (Frame × Frame)) : Type 0 where
  pub running : s.over ≡ false
  pub from_back : Takes w s.back back
  pub from_front : Takes q s.front front
  pub some_event : (w ≢ none) ⊎ (q ≢ none)
  pub both_sockets : (q ≡ none) ⊎ (1 ≤ s.broker.available_workers)

abbrev pub poll : Option Said → Option (Frame × Frame) → Array.Poll
poll w q = array_poll (record { interrupted = false; worker = w; client = q })

-- What goes to the workers.
abbrev pub jobs_of : List Lists.Effect → List (Frame × Msg)
jobs_of [] = []
jobs_of (Lists.to_backend (id ∷ e ∷ m) ∷ es) = (id, m) ∷ jobs_of es
jobs_of (Lists.to_backend m ∷ es) = jobs_of es
jobs_of (Lists.to_frontend m ∷ es) = jobs_of es

abbrev pub news : Array.Broker → Array.Broker → List Lists.Effect
news b b' = drop (length (map sent b.trace)) (map sent b'.trace)

-- A client asks, a worker says that it is ready, a worker answers what it was given, the broker goes
-- through its loop once, or ends it.
pub data Step (s : System) : System → Type 0 where
  ask :
      (xs : List Frame) (c : Frame) (ys : List Frame)
      → s.unsent ≡ xs ++ c ∷ ys
      → Step s (record s { unsent = xs ++ ys; front = s.front ++ (c, hello c) ∷ [] })
  report :
      (xs : List Frame) (id : Frame) (ys : List Frame)
      → s.unready ≡ xs ++ id ∷ ys
      → Step s (record s { unready = xs ++ ys; back = s.back ++ ready id ∷ [] })
  answer :
      (xs : List (Frame × Msg)) (id c m : Frame) (ys : List (Frame × Msg))
      → s.jobs ≡ xs ++ (id, c ∷ [] ∷ m ∷ []) ∷ ys
      → Step s (record s {
        jobs = xs ++ ys;
        back = s.back ++ done id (received 256 c) (said_ok id) ∷ [];
      })
  turn :
      (w : Option Said) (q : Option (Frame × Frame)) (back : List Said)
      (front : List (Frame × Frame)) (b : Array.Broker)
      → Polled s w q back front
      → Array.turn s.broker (poll w q) ≡ Array.running b
      → Step s (record s {
        front = front;
        back = back;
        jobs = s.jobs ++ jobs_of (news s.broker b);
        broker = b;
      })
  last :
      (w : Option Said) (q : Option (Frame × Frame)) (back : List Said)
      (front : List (Frame × Frame)) (b : Array.Broker)
      → Polled s w q back front
      → Array.turn s.broker (poll w q) ≡ Array.finished b
      → Step s (record s { back = back; broker = b; over = true })

-- All threads have their names and start.
abbrev pub start : List Frame → List Frame → System
start clients workers = record {
  unsent = clients;
  front = [];
  unready = workers;
  back = [];
  jobs = [];
  broker = Array.start;
  over = false;
}
