-- ===== src/Base/Tests.antt =====
-- The shared code at concrete inputs.
use zmq_test.Common.{List, [], ◌∷◌, some, map, drop, ℕ, ◌+◌, ◌-◌, ◌^◌, ◌<◌, ◌≡◌, length, arith}
use zmq_test.Base.Random.{randof}
use zmq_test.Base.Random.Range.{randof-last}
use zmq_test.Base.Strings.{IsText, c_string, received}
use zmq_test.Base.Transport.{Call, s_recv, s_sendlists}
use zmq_test.Base.Transport.Delivery.{ended, joined, s_recv_lem, s_sendlists_round_trip}
use zmq_test.Base.Identity.{drawn_identity, client_task_size}
use zmq_test.Base.Identity.Width.{drawn_identity-overflows}

randof-last_example : randof 5 (2 ^ 31 - 1) ≡ 5
randof-last_example = randof-last 5 (2 ^ 31 - 1) (omega arith) (omega arith) (omega arith)

drawn_identity-overflows_example : client_task_size < length (drawn_identity (2 ^ 31 - 1) 7) + 1
drawn_identity-overflows_example =
    drawn_identity-overflows (2 ^ 31 - 1) 7 (omega arith) (omega arith)

abbrev array : List ℕ
array = 1 ∷ 2 ∷ 3 ∷ 4 ∷ 5 ∷ []

s_recv_lem_example :
    (c_string (s_recv array 4 (some (65 ∷ 66 ∷ 67 ∷ 68 ∷ [])))
      ≡ received 4 (65 ∷ 66 ∷ 67 ∷ 68 ∷ []))
    × (drop 4 (s_recv array 4 (some (65 ∷ 66 ∷ 67 ∷ 68 ∷ []))) ≡ 5 ∷ [])
s_recv_lem_example =
    s_recv_lem array (65 ∷ 66 ∷ 67 ∷ 68 ∷ []) 4 (omega arith) (omega arith) (omega arith)

s_sendlists_round_trip_example :
    (calls : List Call) × (s_sendlists (map ended ((65 ∷ []) ∷ (66 ∷ []) ∷ [])) ≡ some calls)
    × (joined [] calls ≡ ((65 ∷ []) ∷ (66 ∷ []) ∷ []) ∷ [])
    × ((t str : List ℕ)
        → IsText t
        → length t < length str
        → length str < 2 ^ 32
        → c_string (s_recv str (length str) (some t)) ≡ t)
s_sendlists_round_trip_example =
    s_sendlists_round_trip (65 ∷ []) ((66 ∷ []) ∷ [])
      (((λ e. omega (arith, e)), tt), (((λ e. omega (arith, e)), tt), tt))
