-- ===== src/Mdp/Examples/Tests.antt =====
-- src/MDP/client.c with two calls that are answered and one that is not.
use zmq_test.Common.{ℕ, zero, suc, ◌<◌, ◌≡◌, refl, some, false, [], ◌∷◌, ◌++◌, arith}
use zmq_test.Czmq.Instances.{lists_zmsg}
use zmq_test.Mdp.Client
use zmq_test.Mdp.Client.{Round}
use zmq_test.Mdp.Client.Sends.{silent, answered, after, request}
use zmq_test.Mdp.Examples.{broker, service, processed, client_main}
use zmq_test.Mdp.Examples.Echo.{attempt, attempts, Answers, client_main-stops}

abbrev reply_round : Round
reply_round = answered (some (request service ((7 ∷ []) ∷ [])))

-- The first call is answered in its second round, the second one at once.
abbrev env : ℕ → ℕ → Round
env zero zero = silent
env zero (suc i) = reply_round
env (suc zero) i = reply_round
env (suc (suc n)) i = silent

env-Answers : Answers env 0 (1 ∷ 0 ∷ [])
env-Answers = (
  omega arith,
  first_round,
  (7 ∷ [], [], refl),
  (omega arith, (λ j h. absurd (omega (arith, h))), (7 ∷ [], [], refl), tt),
)
  where
    first_round : (j : ℕ) → j < 1 → env 0 j ≡ silent
    first_round zero h = refl
    first_round (suc j) h = absurd (omega (arith, h))

client_main-stops_example :
    client_main lists_zmsg env false
    ≡ processed 2 (after (Client.new broker false) (attempts (1 ∷ 0 ∷ []) ++ attempt 2))
client_main-stops_example =
    client_main-stops lists_zmsg env false (1 ∷ 0 ∷ []) (omega arith) env-Answers (λ j h. refl)
