-- ===== src/Async/Tests.antt =====
-- src/async/cs.c at concrete inputs.
use zmq_test.Common.{
  ℕ, ◌+◌, ◌≤◌, ◌≡◌, refl, Option, none, some, [], ◌∷◌, ◌++◌, replicate, ◌==◌, ◌||◌, if◌then◌else◌,
  arith,
}
use zmq_test.Czmq.{Msg}
use zmq_test.Czmq.Instances.{lists_zmsg}
use zmq_test.Base.Random.{dropped_bits, round_to, to_float, randof}
use zmq_test.Base.Numbers.Decimal.{decimals}
use zmq_test.Async.Client.{request, cycle, start}
use zmq_test.Async.Client.Printing.{arrivals}
use zmq_test.Async.Conversation.{serve-replies, conversation}

-- Half of what `random()` can give.
abbrev draw : ℕ → ℕ
draw i = 1_073_741_824

two : randof 5 1_073_741_824 ≡ 2
unfolding randof to_float round_to dropped_bits
two = refl

-- Two answers come.
abbrev env : ℕ → Option Msg
env centitick =
    if (centitick == 3) || (centitick == 70) then some (request decimals 1 ∷ []) else none

env-arrivals : arrivals env 100 0 ≡ replicate 2 (request decimals 1 ∷ [])
env-arrivals = refl

conversation_example :
    (randof 5 (draw 0) ≤ 5)
    × (cycle lists_zmsg decimals env start
        ≡ some (record {
          request_nbr = 0 + 1;
          printed = [] ++ replicate (randof 5 (draw 0)) (request decimals 1);
          sent = [] ++ (request decimals (0 + 1) ∷ []) ∷ [];
        }))
conversation_example =
    conversation lists_zmsg decimals draw 0 1 (65 ∷ []) start env (λ i. omega arith)
      (rw (serve-replies lists_zmsg draw 0 (65 ∷ []) (request decimals 1) (λ i. omega arith), two)
        env-arrivals)
