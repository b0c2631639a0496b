-- ===== src/Rrb/Whole.antt =====
-- src/rrb with all its programs: the clients, the broker, and workers, as many as one likes. The
-- REQ socket of a client puts an empty frame in front of what it sends and the ROUTER socket the
-- name of the client; a REP socket keeps both for the reply. A worker takes any request that waits.
pub mod Relay
pub mod Invariant
pub mod Liveness
pub mod Rounds
use zmq_test.Common.{
  ℕ, ◌≡◌, ◌≢◌, ◌⊎◌, Option, none, some, Bool, true, false, List, [], ◌∷◌, ◌++◌, map,
}
use zmq_test.Czmq.{Frame, Msg}
use zmq_test.Base.Transport.{Call}
use zmq_test.Rrb.Broker.{Broker, Poll}
use zmq_test.Rrb.Broker as Broker
use zmq_test.Rrb.Broker.Passing.{Traffic, broker_of}
use zmq_test.Rrb.Client.{Client}
use zmq_test.Rrb.Client as Client
use zmq_test.Rrb.Worker.{Effect, printed, slept, sent}
use zmq_test.Rrb.Worker as Worker

-- `traffic` holds the messages that wait at the broker's sockets, and those that it passed on and
-- no one has taken.
pub record System : Type 0 where
  pub clients : List Client
  pub traffic : Traffic

-- The messages of the calls of a worker, behind the envelope of the request.
abbrev pub replies : Frame → List Effect → List (Frame × Msg)
replies name [] = []
replies name (sent call ∷ es) = (name, [] ∷ call.bytes ∷ []) ∷ replies name es
replies name (_ ∷ es) = replies name es

-- A client asks, the broker goes through its loop once, a worker serves a request, whatever its
-- array holds, a client takes a reply.
pub data Step (s : System) : System → Type 0 where
  ask :
      (xs : List Client) (c d : Client) (ys : List Client) (call : Call)
      → s.clients ≡ xs ++ c ∷ ys
      → c.waiting ≡ false
      → Client.ask c ≡ some (d, call)
      → Step s (record {
        clients = xs ++ d ∷ ys;
        traffic = record s.traffic {
          requests = s.traffic.requests ++ (c.name, [] ∷ call.bytes ∷ []) ∷ [];
        };
      })
  turn :
      (p : Poll) (t : Traffic)
      → (p.frontend ≡ true) ⊎ (p.backend ≡ true)
      → Broker.turn (broker_of s.traffic) p ≡ some (broker_of t)
      → Step s (record s { traffic = t })
  serve :
      (xs : List (Frame × Msg)) (name body : Frame) (ys : List (Frame × Msg)) (string : List ℕ)
      → s.traffic.requested ≡ xs ++ (name, [] ∷ body ∷ []) ∷ ys
      → Step s (record s {
        traffic = record s.traffic {
          requested = xs ++ ys;
          replies = s.traffic.replies ++ replies name (Worker.serve string (some body)).1;
        };
      })
  hear :
      (xs : List Client) (c : Client) (ys : List Client) (ms : List (Frame × Msg)) (body : Frame)
      (ns : List (Frame × Msg))
      → s.clients ≡ xs ++ c ∷ ys
      → c.waiting ≡ true
      → s.traffic.replied ≡ ms ++ (c.name, [] ∷ body ∷ []) ∷ ns
      → Step s (record {
        clients = xs ++ Client.hear c (some body) ∷ ys;
        traffic = record s.traffic { replied = ms ++ ns };
      })

-- Clients with these names and arrays, and no message yet.
abbrev pub start : List (Frame × List ℕ) → System
start clients = record {
  clients = map (λ c. Client.start c.0 c.1) clients;
  traffic = record { requests = []; replies = []; requested = []; replied = [] };
}
