-- ===== src/Loadbalance/Tests.antt =====
-- The brokers of src/loadbalance at concrete inputs.
use zmq_test.Common.{ℕ_discrete, ℕ, map, some, none, ◌<◌, refl, List, [], ◌∷◌, false, arith}
use zmq_test.Czmq.{Frame, Zlist}
use zmq_test.Czmq.Instances.{lists_zlist, lists_zmsg}
use zmq_test.Loadbalance.Lists
use zmq_test.Loadbalance.Requests
use zmq_test.Loadbalance.Requests.{Request, worker_task}
use zmq_test.Loadbalance.Requests.Ending.{Ends, late, run-Ends}
use zmq_test.Loadbalance.Lists.Service.{Agrees, run-Agrees, serve_all}
use zmq_test.Loadbalance.Equivalence
use zmq_test.Loadbalance.Equivalence.{Happening, run_array, lists_poll, IsName}
use zmq_test.Loadbalance.Equivalence.Runs.{Matches, run-Matches}
use zmq_test.Loadbalance.Array
use zmq_test.Loadbalance.Array.{
  Broker, Poll, arrived, quiet, running, finished, on_backend, on_frontend, to_frontend, to_backend,
}
use zmq_test.Loadbalance.Array.Slots.{slots}
use zmq_test.Loadbalance.Array.Handling.{Holds, ready, asks}
use zmq_test.Loadbalance.Array.System.{Ended, start_system, run, run-Well}

-- A worker named A reports ready with "w", then a client named C asks.
abbrev polls : List Poll
polls =
    record {
      failed = false;
      backend = arrived ((65 ∷ []) ∷ [] ∷ (b'w' ∷ []) ∷ []);
      frontend = quiet;
    }
    ∷ record {
      failed = false;
      backend = quiet;
      frontend = arrived ((67 ∷ []) ∷ [] ∷ (9 ∷ []) ∷ []);
    }
    ∷ []

run-Well_example : Ended (run start_system polls)
run-Well_example =
    run-Well polls ((ready (65 ∷ []) (b'w' ∷ []) refl, tt), ((tt, asks (67 ∷ []) (9 ∷ [])), tt))

abbrev broker : Broker
broker = record {
  available_workers = 1;
  worker_queue = slots 10 ((65 ∷ []) ∷ []);
  client_nbr = 4;
  trace = [];
}

broker-Holds : Holds broker ((65 ∷ []) ∷ [])
broker-Holds = record { queue = refl; count = refl; few = omega arith; open_requests = omega arith }

Frame-discrete : Discrete Frame
Frame-discrete = hlevel ℕ_discrete

abbrev frames : Zlist Frame
frames = lists_zlist Frame-discrete

-- A worker named A is ready, and a client's request comes before and after that.
abbrev list_polls : List Lists.Poll
list_polls =
    record {
      failed = false;
      backend = Lists.arrived ((65 ∷ []) ∷ [] ∷ (1 ∷ []) ∷ []);
      frontend = Lists.arrived ((9 ∷ []) ∷ []);
    }
    ∷ record {
      failed = false;
      backend = Lists.quiet;
      frontend = Lists.arrived ((67 ∷ []) ∷ [] ∷ (9 ∷ []) ∷ []);
    }
    ∷ []

run-Agrees_example :
    Agrees lists_zmsg frames
      (Lists.run lists_zmsg frames (Lists.start lists_zmsg frames) list_polls)
      (serve_all ([], []) list_polls)
run-Agrees_example = run-Agrees lists_zmsg frames list_polls (tt, (tt, tt))

-- A worker named A is ready, a client named C asks, the worker replies.
abbrev happenings : List Happening
happenings =
    record { interrupted = false; worker = some (Equivalence.ready (65 ∷ [])); client = none }
    ∷ record { interrupted = false; worker = none; client = some (67 ∷ [], 9 ∷ []) }
    ∷ record {
      interrupted = false;
      worker = some (Equivalence.done (65 ∷ []) (67 ∷ []) (7 ∷ []));
      client = none;
    }
    ∷ []

text : (c : ℕ) → 0 < c → IsName (c ∷ [])
text c h = (omega arith, (omega arith, tt))

run-Matches_example :
    Matches lists_zmsg frames
      (run_array Array.start happenings)
      (Lists.run lists_zmsg frames (Lists.start lists_zmsg frames) (map lists_poll happenings))
run-Matches_example =
    run-Matches lists_zmsg frames happenings
      (
        (text 65 (omega arith), tt),
        (
          (tt, ((text 67 (omega arith), refl, refl), text 9 (omega arith))),
          (
            (
              (text 65 (omega arith), (text 67 (omega arith), refl, refl), text 7 (omega arith)),
              tt,
            ),
            tt,
          ),
        ),
      )
      (omega arith, (tt, (omega arith, tt)))

abbrev soon : Request
soon = record { identity = 65 ∷ []; now = 900 }

abbrev past : Request
past = record { identity = 66 ∷ []; now = 1000 }

run-Ends_example :
    Ends
      (late 1000 (soon ∷ past ∷ past ∷ past ∷ []))
      (Requests.run 1000 Requests.start (soon ∷ past ∷ past ∷ past ∷ []))
run-Ends_example = run-Ends 1000 (soon ∷ past ∷ past ∷ past ∷ [])
