-- ===== src/Ppq/Worker/Requests.antt =====
-- What the worker does with a request.
use zmq_test.Common.{ℕ, ◌+◌, ◌≡◌, ◌≢◌, refl, [], ◌∷◌, ◌++◌, false, arith, length}
use zmq_test.Czmq.{Msg, Zmsg}
use zmq_test.Ppq.Defs.{interval_init}
use zmq_test.Ppq.Queue.{running}
use zmq_test.Ppq.Worker.{Turn, Peer, sent, slept, on_request, on_message}

module _ (C : Zmsg) (clock : ℕ → ℕ) where
  -- A worker that is not made to fail sends a request of three frames back as it is, then waits a
  -- second; its pause is reset, and its liveness stays as it was.
  pub echo :
      (t : Turn) (m : Msg) (s : Peer)
      → length m ≡ 3
      → t.crash_draw ≢ 0
      → t.overload_draw ≢ 0
      → t.interrupted ≡ false
      → (s' : Peer) × (on_message clock C t m s ≡ running s')
        × (s'.trace ≡ s.trace ++ sent m ∷ slept 1000 ∷ [])
        × (s'.liveness ≡ s.liveness)
        × (s'.interval ≡ 1000)
  unfolding on_message on_request
  echo t m s three h k e = (
    record s {
      cycles = s.cycles + 1;
      interval = interval_init;
      trace = s.trace ++ sent m ∷ slept 1000 ∷ [];
    },
    ground (arith, C.size_lem m),
    refl,
    refl,
    refl,
  )
