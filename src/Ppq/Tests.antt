-- ===== src/Ppq/Tests.antt =====
-- The queue and the worker of src/ppq at concrete inputs.
use zmq_test.Common.{
  ℕ, ◌*◌, ◌≡◌, refl, List, [], ◌∷◌, ◌++◌, arith, false, Monotone, ℕ_discrete, replicate,
}
use zmq_test.Czmq.{Zlist}
use zmq_test.Czmq.Instances.{lists_zmsg, lists_zlist}
use zmq_test.Ppq.Defs.{Worker}
use zmq_test.Ppq.Queue.{
  Poll, Broker, arrived, quiet, running, to_frontend, to_backend, run, step, start, worker_purge,
  worker_new, on_backend, on_frontend,
}
use zmq_test.Ppq.Queue.Registry.{drop_id}
use zmq_test.Ppq.Queue.Purge.{Purged, worker_purge-Purged}
use zmq_test.Ppq.Queue.Invariant.{Safe, Inv, run-Safe}
use zmq_test.Ppq.Queue.Service.{serve_all, opening}
use zmq_test.Ppq.Queue.Refinement.{Serves}
use zmq_test.Ppq.Queue.Refinement.Runs.{run-Serves}
use zmq_test.Ppq.Queue.Alive.{AliveSince, step-AliveSince}
use zmq_test.Ppq.Worker.{Turn, Peer, sent, slept, on_message}
use zmq_test.Ppq.Worker as Peers
use zmq_test.Ppq.Worker.Backoff as Backoff
use zmq_test.Ppq.RoundTrip.{request, request_round_trip}

Worker-discrete : Discrete Worker
Worker-discrete = hlevel ℕ_discrete

abbrev workers : Zlist Worker
workers = lists_zlist Worker-discrete

-- Every reading of the clock is 400 milliseconds after the one before.
abbrev ticking : ℕ → ℕ
ticking i = i * 400

ticking-Monotone : Monotone ticking
ticking-Monotone i = omega arith

abbrev first_worker : Worker
first_worker = record { identity = 65 ∷ []; id_string = 65 ∷ []; expiry = 500 }

abbrev second_worker : Worker
second_worker = record { identity = 66 ∷ []; id_string = 66 ∷ []; expiry = 3000 }

abbrev free : List Worker
free = first_worker ∷ second_worker ∷ []

abbrev broker : Broker (List Worker × List Worker)
broker = record { workers = (free, []); heartbeat_at = 1000; reads = 2; trace = [] }

abbrev turn_of_both : Poll
turn_of_both = record {
  failed = false;
  backend = arrived ((66 ∷ []) ∷ (1 ∷ []) ∷ []);
  frontend = arrived (request 67 [] (7 ∷ []));
}

abbrev poll_of_worker : Poll
poll_of_worker = record {
  failed = false;
  backend = arrived ((65 ∷ []) ∷ (1 ∷ []) ∷ []);
  frontend = quiet;
}

abbrev polls : List Poll
polls = poll_of_worker ∷ turn_of_both ∷ []

run-Safe_example :
    Safe (Inv workers ticking) (run workers ticking lists_zmsg (start workers ticking) polls)
run-Safe_example =
    run-Safe workers ticking lists_zmsg ticking-Monotone polls ((λ e. cc), ((λ e. cc), tt))

run-Serves_example :
    Serves workers ticking lists_zmsg
      (run workers ticking lists_zmsg (start workers ticking) polls)
      (serve_all ticking (opening ticking) polls)
run-Serves_example = run-Serves workers ticking lists_zmsg polls ((λ e. cc), ((λ e. cc), tt))

broker-Inv : Inv workers ticking broker
broker-Inv = record {
  distinct = (((λ e. ground arith), tt), (tt, tt));
  sorted = omega arith;
  bounded = omega arith;
}

step-AliveSince_example :
    Safe
      (AliveSince workers ticking lists_zmsg ticking-Monotone broker)
      (step workers ticking lists_zmsg broker turn_of_both)
step-AliveSince_example =
    step-AliveSince workers ticking lists_zmsg ticking-Monotone broker turn_of_both (λ e. cc)
      broker-Inv

worker_purge-Purged_example :
    let b = worker_purge workers ticking broker in Purged ticking 2 free b.workers.0 b.reads
worker_purge-Purged_example = worker_purge-Purged workers ticking broker (omega arith)

abbrev silent_turn : Turn
silent_turn = record {
  failed = false;
  input = quiet;
  crash_draw = 1;
  overload_draw = 1;
  interrupted = false;
}

abbrev turns : List Turn
turns = replicate 6 silent_turn

abbrev peer : Peer
peer = record {
  liveness = 2;
  interval = 4000;
  heartbeat_at = 9000;
  cycles = 5;
  reads = 4;
  trace = [];
}

request_round_trip_example :
    (b₁ b₂ : Broker (List Worker × List Worker)) × (s : Peer) × (on_frontend workers ticking
        lists_zmsg
        (arrived (request 67 [] (7 ∷ [])))
        broker
      ≡ running b₁)
    × (b₁.trace ≡ to_backend ((65 ∷ []) ∷ request 67 [] (7 ∷ [])) ∷ [])
    × (on_message ticking lists_zmsg silent_turn (request 67 [] (7 ∷ [])) peer ≡ running s)
    × (s.trace ≡ sent (request 67 [] (7 ∷ [])) ∷ slept 1000 ∷ [])
    × (on_backend workers ticking lists_zmsg (arrived ((65 ∷ []) ∷ request 67 [] (7 ∷ []))) b₁
        ≡ running b₂)
    × (b₂.trace ≡ b₁.trace ++ to_frontend (request 67 [] (7 ∷ [])) ∷ [])
    × (b₂.workers.0
        ≡ drop_id (65 ∷ []) (second_worker ∷ [])
          ++ worker_new lists_zmsg (65 ∷ []) (ticking b₁.reads) ∷ [])
request_round_trip_example =
    request_round_trip lists_zmsg ticking workers 67 [] (7 ∷ []) broker first_worker
      (second_worker ∷ []) silent_turn peer refl (λ e. cc) (λ e. cc) refl
