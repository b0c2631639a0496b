-- ===== src/Hello/Tests.antt =====
-- The server of src/helloworld with three requests and a signal while it sleeps after the second.
use zmq_test.Common.{ℕ, ◌≡◌, refl, some, false, List, [], ◌∷◌, length}
use zmq_test.Base.Signals.{Process}
use zmq_test.Hello.Client.{main, loop}
use zmq_test.Hello.Server.{Round}

abbrev process : Process
process = record { interrupted = false; handled = λ n. false }

abbrev request : List ℕ → Round
request in_sleep = record { in_recv = []; frame = some (72 ∷ 105 ∷ []); in_sleep = in_sleep }

abbrev rounds : List Round
rounds = request [] ∷ request (15 ∷ []) ∷ request [] ∷ []

-- Ten rounds of three effects.
length-main : length main ≡ 30
unfolding main loop
length-main = refl
