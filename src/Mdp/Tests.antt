-- ===== src/Mdp/Tests.antt =====
-- The Majordomo client at concrete inputs.
use zmq_test.Common.{
  ◌*◌, ℕ, ◌<◌, ◌≡◌, refl, arith, some, [], ◌∷◌, ◌++◌, true, false, ltb, if◌then◌else◌,
}
use zmq_test.Czmq.{Frame, Msg}
use zmq_test.Mdp.Worker
use zmq_test.Mdp.Worker.{aborted, new, recv, set_heartbeat, set_reconnect}
use zmq_test.Mdp.Worker.Replying.{heartbeat, reconnect, reply_aborts, use_all}
use zmq_test.Czmq.Instances.{lists_zmsg}
use zmq_test.Mdp.Client.{Session, sent, Round, returned, gave_up, send}
use zmq_test.Mdp.Client.Replies.{Answer, send-returned}
use zmq_test.Mdp.Client.Sends.{after, answered, request, silent, tries, send-answered, send-silent}

abbrev session : Session
session = record {
  broker = 66 ∷ [];
  client = true;
  verbose = false;
  timeout = 2500;
  retries = 3;
  trace = [];
}

abbrev body : Msg
body = (1 ∷ []) ∷ []

abbrev service : Frame
service = b'e' ∷ []

abbrev third_round : ℕ → Round
third_round i = if ltb i 2 then silent else answered (some (request service ((7 ∷ []) ∷ [])))

send-silent_example :
    send lists_zmsg (λ i. silent) session service body
    ≡ gave_up (
        after session
          (tries (66 ∷ []) (request service body) 2 ++ sent (request service body) ∷ []))
send-silent_example =
    send-silent lists_zmsg (λ i. silent) session service body 2 refl refl (λ j h. refl)

third_round-silent : (j : ℕ) → j < 2 → third_round j ≡ silent
third_round-silent j h = let early : ltb j 2 ≡ true = ground arith in rw early refl

send-answered_example :
    send lists_zmsg third_round session service body
    ≡ returned
        (after session
          (tries (66 ∷ []) (request service body) 2 ++ sent (request service body) ∷ []))
        ((7 ∷ []) ∷ [])
send-answered_example =
    send-answered lists_zmsg third_round session service body 2 0 (7 ∷ []) [] refl (omega arith)
      third_round-silent refl

send-returned_example : Answer lists_zmsg third_round 0 3 (some (request service ((7 ∷ []) ∷ [])))
send-returned_example =
    send-returned lists_zmsg third_round session
      (after session (tries (66 ∷ []) (request service body) 2 ++ sent (request service body) ∷ []))
      service body ((7 ∷ []) ∷ []) send-answered_example

abbrev clock : ℕ → ℕ
clock n = 100 * n

-- A new worker with other intervals.
abbrev worker : Worker.Session
worker = set_reconnect (set_heartbeat (new lists_zmsg clock (66 ∷ []) service false) 1000) 500

worker-use_all :
    use_all lists_zmsg clock
      (new lists_zmsg clock (66 ∷ []) service false)
      (heartbeat 1000 ∷ reconnect 500 ∷ [])
    ≡ some worker
unfolding use_all
worker-use_all = refl

reply_aborts_example : recv lists_zmsg clock worker (some body) [] ≡ aborted
reply_aborts_example =
    reply_aborts lists_zmsg clock (66 ∷ []) service false (heartbeat 1000 ∷ reconnect 500 ∷ [])
      worker body [] worker-use_all
