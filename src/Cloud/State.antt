-- ===== src/Cloud/State.antt =====
-- src/cloud/stateflow.c: brokers that tell each other how many workers are free.
pub mod Reports
use zmq_test.Common.{ℕ, List, [], ◌∷◌, ◌++◌}
use zmq_test.Czmq.{Frame, Msg}
use zmq_test.Base.Strings.{c_string}
use zmq_test.Base.Random.{randof}
use zmq_test.Base.Numbers.{Decimals}

-- A poll fails, shows something to read, or times out; then `random()` gives a number.
pub data Event : Type 0 where
  failed : Event
  arrived : Event
  silent : ℕ → Event

-- The frames that `statefe` has to receive, what was sent to `statebe`, and the names and numbers that
-- were printed.
pub record Broker : Type 0 where
  pub statefe : List Frame
  pub statebe : List Msg
  pub printed : List (List ℕ × List ℕ)

-- The loop goes on, has ended, or waits in `zstr_recv`.
pub data Outcome : Type 0 where
  running : Broker → Outcome
  ended : Broker → Outcome
  waiting : Outcome

infixl 5 ◌>>=◌
abbrev pub ◌>>=◌ : Outcome → (Broker → Outcome) → Outcome
running b >>= f = f b
ended b >>= f = ended b
waiting >>= f = waiting

-- `if (items[0].revents & ZMQ_POLLIN)`: two strings are received and printed.
pub receive : Broker → List Frame → Outcome
receive b (peer_name ∷ available ∷ frames) = running (record b {
  statefe = frames;
  printed = b.printed ++ (c_string peer_name, c_string available) ∷ [];
})
receive b _ = waiting

module _ (D : Decimals) (self : List ℕ) where
  -- The own name and a number from `randof(10)` are sent. The name is the format of `zstr_sendm` and
  -- is taken to have no `%`.
  pub send : Broker → ℕ → Broker
  send b random = record b {
    statebe = b.statebe ++ (c_string self ∷ D.print (randof 10 random) ∷ []) ∷ [];
  }

  -- A turn of the loop, and the loop.
  pub turn : Broker → Event → Outcome
  unfolding receive send
  turn b failed = ended b
  turn b arrived = receive b b.statefe
  turn b (silent random) = running (send b random)

  pub run : Broker → List Event → Outcome
  unfolding turn
  run b [] = running b
  run b (e ∷ es) = turn b e >>= λ c. run c es

abbrev pub start : List Frame → Broker
start frames = record { statefe = frames; statebe = []; printed = [] }
