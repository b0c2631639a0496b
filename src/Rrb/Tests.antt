-- ===== src/Rrb/Tests.antt =====
-- The broker of src/rrb with two requests and a reply, and its programs with two clients of which the
-- second one asks.
use zmq_test.Common.{
  ℕ, ◌*◌, ◌≤◌, ◌≡◌, ◌⊎◌, refl, inl, true, false, List, [], ◌∷◌, map, replicate, All, arith,
}
use zmq_test.Common.Steps.{here, next}
use zmq_test.Czmq.{Frame}
use zmq_test.Base.Transport.{s_send}
use zmq_test.Rrb.Client as Client
use zmq_test.Rrb.Whole.{System, Step, ask, turn, start}
use zmq_test.Rrb.Whole.Relay.{turn_request}
use zmq_test.Rrb.Whole.Liveness.{IsDone}
use zmq_test.Rrb.Whole.Rounds.{Steps-rounds}
use zmq_test.Rrb.Broker.{Poll, run}
use zmq_test.Rrb.Broker.Passing.{Traffic, broker_of, brokers, pass, run-pass}

abbrev traffic : Traffic
traffic = record {
  requests = (65 ∷ [], [] ∷ (1 ∷ []) ∷ []) ∷ (66 ∷ [], [] ∷ (2 ∷ []) ∷ []) ∷ [];
  replies = (65 ∷ [], [] ∷ (3 ∷ []) ∷ []) ∷ [];
  requested = [];
  replied = [];
}

abbrev polls : List Poll
polls =
    record { frontend = true; backend = false } ∷ record { frontend = true; backend = true } ∷ []

run-pass_example : run (broker_of traffic) polls ≡ brokers (pass traffic polls)
run-pass_example = run-pass traffic polls

abbrev clients : List (Frame × List ℕ)
clients = (65 ∷ [], replicate 256 0) ∷ (66 ∷ [], replicate 256 7) ∷ []

abbrev asked : System
asked = record (start clients) {
  clients =
      Client.start (65 ∷ []) (replicate 256 0)
      ∷ record (Client.start (66 ∷ []) (replicate 256 7)) { waiting = true }
      ∷ [];
  traffic = record (start clients).traffic {
    requests = (66 ∷ [], [] ∷ (72 ∷ 101 ∷ 108 ∷ 108 ∷ 111 ∷ []) ∷ []) ∷ [];
  };
}

asks : Step (start clients) asked
unfolding Client.ask Client.start s_send
asks =
    ask (Client.start (65 ∷ []) (replicate 256 0) ∷ []) (Client.start (66 ∷ []) (replicate 256 7)) _
      [] (record { bytes = 72 ∷ 101 ∷ 108 ∷ 108 ∷ 111 ∷ []; more = false }) refl refl refl

abbrev passed : System
passed = record asked {
  traffic = record asked.traffic { requests = []; requested = asked.traffic.requests };
}

passes : Step asked passed
passes =
    turn (record { frontend = true; backend = false }) passed.traffic (inl refl)
      (turn_request asked.traffic (66 ∷ [], [] ∷ (72 ∷ 101 ∷ 108 ∷ 108 ∷ 111 ∷ []) ∷ []) [] refl)

Steps-rounds_example :
    (2 ≤ 50 * 2)
    × (map (λ c. c.name) passed.clients ≡ (65 ∷ []) ∷ (66 ∷ []) ∷ [])
    × (((t : System) × Step passed t) ⊎ All IsDone passed.clients)
Steps-rounds_example =
    Steps-rounds clients (omega arith, (omega arith, tt)) (next (next here asks) passes)
