-- ===== src/Cloud/Tests.antt =====
-- The programs of src/cloud at concrete inputs.
use zmq_test.Cloud.Flow.{
  to_cloudbe, to_cloudfe, to_localfe, to_localbe, log, turn, names_peer, running,
}
use zmq_test.Cloud.Flow.Tasks.{ok, answer}
use zmq_test.Cloud.Flow.Exchange.{
  local_request, cloud_request, local_reply, cloud_reply, cloud_exchange,
}
use zmq_test.Cloud.Sockets.{stateflow, lcflow, full, Kind, router, pub_, sub, pull, push, req}
use zmq_test.Cloud.Sockets.Meeting.{
  Patterns, Network, IsConnected, all_sound, unless_rep, unless_sub, network-IsMet_all,
}
use zmq_test.Common.{
  ℕ, map, take, ◌≤◌, ◌<◌, ltb, if◌then◌else◌, ◌-◌, ◌^◌, ◌≡◌, refl, inl, inr, Bool, some, List, [],
  ◌∷◌, ◌++◌, false, true, arith, ℕ_discrete,
}
use zmq_test.Czmq.{Frame, Zlist}
use zmq_test.Czmq.Instances.{lists_zmsg, lists_zlist}
use zmq_test.Base.Random.{dropped_bits, round_to, to_float, randof}
use zmq_test.Base.Numbers.Decimal.{decimals}
use zmq_test.Cloud.State
use zmq_test.Cloud.State.Reports
use zmq_test.Cloud.State.Reports.{report, reports_heard}
use zmq_test.Cloud.Full
use zmq_test.Cloud.Full.Bursts.{ids, total, client_task-lost}
use zmq_test.Cloud.Flow.{Round, Turn, Broker, arrived, quiet, aborted, serve, run, start}
use zmq_test.Cloud.Flow.Traffic.{Well}
use zmq_test.Cloud.Flow.Capacity.{Inv, run-Counted}
use zmq_test.Cloud.Flow.Routing.{serve_aborts}

Frame-discrete : Discrete Frame
Frame-discrete = hlevel ℕ_discrete

abbrev frames : Zlist Frame
frames = lists_zlist Frame-discrete

abbrev two_peers : List (List ℕ)
two_peers = (66 ∷ []) ∷ (67 ∷ []) ∷ []

abbrev local_round : Round
local_round = record { cloudfe = quiet; localfe = arrived ((9 ∷ []) ∷ []); draw = 3; peer_draw = 1 }

abbrev turns : List Turn
turns =
    record {
      failed = false;
      localbe = arrived ((65 ∷ []) ∷ (1 ∷ []) ∷ []);
      cloudbe = quiet;
      rounds = local_round ∷ [];
    }
    ∷ []

run-Counted_example :
    Well
      (Inv lists_zmsg frames two_peers 1)
      (run lists_zmsg frames two_peers (start lists_zmsg frames two_peers) turns)
run-Counted_example =
    run-Counted lists_zmsg frames two_peers turns
      (((65 ∷ [], 1 ∷ [], [], refl), tt, ((tt, tt, inr (inr (omega arith))), tt)), tt)

abbrev broker : Broker (List Frame × List Frame)
broker = record { capacity = 1; workers = ((65 ∷ []) ∷ [], []); trace = [] }

abbrev bad_round : Round
bad_round = record local_round { draw = 0; peer_draw = randof 2 (2 ^ 31 - 1) }

serve_aborts_example :
    serve lists_zmsg frames two_peers bad_round true ((9 ∷ []) ∷ []) broker ≡ aborted
serve_aborts_example =
    serve_aborts lists_zmsg frames two_peers bad_round ((9 ∷ []) ∷ []) broker (2 ^ 31 - 1)
      (omega arith) (omega arith) (omega arith) (omega arith) refl refl

-- A client of full.c whose third task is lost.
abbrev one_burst : List ℕ
one_burst = 1_073_741_824 ∷ []

abbrev tasks : ℕ → List ℕ
tasks i = b'0' ∷ b'1' ∷ []

abbrev events : ℕ → Full.Event
events i = if ltb i 2 then Full.readable (some (tasks i)) else Full.expired

one_burst-total : 2 < total one_burst
unfolding randof to_float round_to dropped_bits
one_burst-total = omega arith

events-Returned : (j : ℕ) → 0 ≤ j → j < 2 → events j ≡ Full.readable (some (tasks j))
events-Returned j l h = let early : ltb j 2 ≡ true = ground arith in rw early refl

client_task-lost_example :
    Full.client_task tasks events one_burst 0 Full.start
    ≡ Full.ended
        (record { sent = ids tasks 0 3; monitored = ids tasks 0 2 ++ Full.lost (tasks 2) ∷ [] })
client_task-lost_example =
    client_task-lost tasks events one_burst 2 one_burst-total events-Returned refl

-- Two numbers are told, and one is heard.
reports_heard_example :
    (a : State.Broker) × (State.run decimals
        (66 ∷ [])
        (State.start [])
        (map State.silent (7 ∷ 8 ∷ []))
      ≡ State.running a)
    × ((c : State.Broker) × (State.run decimals
            (65 ∷ [])
            (State.start (Reports.frames a.statebe))
            (State.silent 3 ∷ State.arrived ∷ [])
          ≡ State.running c)
        × (c.printed ≡ take 1 (map (report decimals (66 ∷ [])) (7 ∷ 8 ∷ []))))
reports_heard_example =
    reports_heard decimals (66 ∷ []) (omega arith, tt) (65 ∷ []) (7 ∷ 8 ∷ [])
      (State.silent 3 ∷ State.arrived ∷ []) (omega arith, (omega arith, tt)) (tt, (tt, tt))
      (omega arith)

talks : Kind → Kind → Bool
talks router router = true
talks req router = true
talks sub pub_ = true
talks push pull = true
talks _ _ = false

patterns : Patterns
unfolding talks
patterns = record {
  talks = talks;
  router-router = refl;
  req-router = refl;
  rep-router = refl;
  sub-pub = refl;
  sub-sub = refl;
  push-pull = refl;
}

-- Two brokers, each the peer of the other.
abbrev network : Network
network = (65 ∷ [], (66 ∷ []) ∷ []) ∷ (66 ∷ [], (65 ∷ []) ∷ []) ∷ []

network-IsMet_all_example :
    IsConnected patterns stateflow all_sound network
    × IsConnected patterns lcflow unless_rep network
    × IsConnected patterns full unless_sub network
network-IsMet_all_example =
    network-IsMet_all patterns network ((inr (inl refl), tt), ((inl refl, tt), tt))

-- Broker 97 gives the request of its client 67 to broker 98, whose worker is 87.
abbrev asking : Broker (List Frame × List Frame)
asking = record { capacity = 1; workers = ([], []); trace = [] }

abbrev helping : Broker (List Frame × List Frame)
helping = record { capacity = 1; workers = ((87 ∷ []) ∷ [], []); trace = [] }

cloud_exchange_example :
    let Z = frames in
    let C = lists_zmsg in
    let request : List Frame = (67 ∷ []) ∷ [] ∷ (1 ∷ []) ∷ [] in
    let reply : List Frame = (67 ∷ []) ∷ [] ∷ ok ∷ [] in
    let a₁ = log asking (to_cloudbe ((98 ∷ []) ∷ request)) in
    (b₁ : Broker (List Frame × List Frame)) × (b₂ : Broker (List Frame × List Frame)) × (turn C Z
        ((98 ∷ []) ∷ [])
        asking
        (local_request request 0)
      ≡ running a₁)
    × (turn C Z ((97 ∷ []) ∷ []) helping (cloud_request ((97 ∷ []) ∷ request)) ≡ running b₁)
    × (b₁.trace ≡ to_localbe ((87 ∷ []) ∷ [] ∷ (97 ∷ []) ∷ request) ∷ [])
    × (answer ((97 ∷ []) ∷ request) ≡ some (1 ∷ [], (97 ∷ []) ∷ reply))
    × (turn C Z ((97 ∷ []) ∷ []) b₁ (local_reply ((87 ∷ []) ∷ [] ∷ (97 ∷ []) ∷ reply)) ≡ running b₂)
    × (b₂.trace ≡ b₁.trace ++ to_cloudfe ((97 ∷ []) ∷ reply) ∷ [])
    × (b₂.workers.0 ≡ (87 ∷ []) ∷ [])
    × (turn C Z ((98 ∷ []) ∷ []) a₁ (cloud_reply ((98 ∷ []) ∷ reply))
        ≡ running (log a₁ (to_localfe reply)))
unfolding names_peer
cloud_exchange_example =
    cloud_exchange lists_zmsg frames (97 ∷ []) (98 ∷ []) ((98 ∷ []) ∷ []) ((97 ∷ []) ∷ []) asking
      helping 0 67 [] ([] ∷ []) (1 ∷ []) (87 ∷ []) [] (omega arith) (omega arith) refl refl refl
      refl refl
