-- ===== src/Loadbalance/Array/System.antt =====
-- The broker of src/loadbalance/lbbroker.c with its three workers. A worker's REQ socket speaks and
-- listens in turn: it says one thing, and nothing more until it is given a request. So what the
-- backend offers is held back while no worker has anything to say.
use zmq_test.Common.{
  ℕ, ◌+◌, ◌-◌, ◌≤◌, ◌≡◌, ◌⊎◌, refl, inl, inr, List, [], ◌∷◌, ◌++◌, length, length-append, arith,
  ◌==◌, if◌then◌else◌, Bool-cases, All,
}
use zmq_test.Loadbalance.Array.{
  nbr_workers, Name, Broker, Outcome, running, finished, aborted, blocked, unread, on_backend,
  on_frontend, Input, quiet, arrived, Poll, on, polled, turn, start,
}
use zmq_test.Loadbalance.Array.Handling.{
  WorkerMsg, ClientMsg, Offers, IsLegal, Holds, Well, Well-mono, Well-bind, sender,
  on_backend-Holds, on_frontend-Holds,
}

-- How many messages an input brings.
abbrev pub spoken : Input → ℕ
spoken quiet = 0
spoken (arrived m) = 1

-- The broker, and how many workers have something to say.
pub record System : Type 0 where
  pub broker : Broker
  pub pending : ℕ

-- What the poll gives, the backend held back while all workers listen.
abbrev pub offered : System → Poll → Poll
offered s p = record p { backend = if s.pending == 0 then quiet else p.backend }

-- After a turn, without the workers that spoke and with those that were given a request.
abbrev pub left_pending : System → Poll → ℕ
left_pending s p = s.pending - spoken (offered s p).backend + spoken (polled s.broker p.frontend)

-- The loop, with how many workers have something to say at the end.
pub run : System → List Poll → Outcome × ℕ
run s [] = (running s.broker, s.pending)
run s (p ∷ ps) = elim (turn s.broker (offered s p)) [
  | running b ↦ run (record { broker = b; pending = left_pending s p }) ps
  | finished b ↦ (finished b, left_pending s p)
  | aborted ↦ (aborted, left_pending s p)
  | blocked ↦ (blocked, left_pending s p)
  | unread b ↦ (unread b, left_pending s p)
]

-- Three workers that have not spoken yet.
abbrev pub start_system : System
start_system = record { broker = start; pending = nbr_workers }

-- Every worker is free, or has something to say or to do.
abbrev pub Accounted : ℕ → Broker → Type 0
Accounted pending b = (ids : List Name) × Holds b ids × (length ids + pending ≡ 3)

polled-cases :
    (b : Broker) (i : Input) → (polled b i ≡ quiet) ⊎ ((polled b i ≡ i) × (1 ≤ b.available_workers))
unfolding polled
polled-cases b i = elim (Bool-cases (b.available_workers == 0)) [
  | inl e ↦ inl (rw e)
  | inr e ↦ inr (rw e, ground arith)
]

serve-Accounted :
    (c : Broker) (i : Input) (ids : List Name)
    → Offers ClientMsg i
    → Holds c ids
    → 1 ≤ length ids
    → Well
        (λ d. (left : List Name) × Holds d left × (length left + spoken i ≡ length ids))
        (on on_frontend c i)
serve-Accounted c quiet ids w v h = (ids, v, omega arith)
serve-Accounted c (arrived m) [] w v h = absurd (omega arith)
serve-Accounted c (arrived m) (id ∷ ids) w v h =
    Well-mono _ _ (λ d k. (ids, k, omega arith)) (on_frontend c m) (on_frontend-Holds c id ids w v)

-- The frontend after the backend, which has made no worker busy.
frontend-Accounted :
    (b c : Broker) (i : Input) (n : ℕ) (ids : List Name)
    → Offers ClientMsg i
    → Holds c ids
    → b.available_workers ≤ length ids
    → length ids + n ≡ 3
    → Well (Accounted (n + spoken (polled b i))) (on on_frontend c (polled b i))
frontend-Accounted b c i n ids w v h e = elim (polled-cases b i) [
  | inl q ↦ rw q (ids, v, omega arith)
  | inr (q, some_free) ↦ rw q (
      Well-mono _ _ (λ d k. (k.0, k.1, omega (arith, k.2))) (on on_frontend c i)
        (serve-Accounted c i ids w v (omega arith)))
]

backend-Accounted :
    (b : Broker) (i : Input) (n : ℕ) (ids : List Name)
    → Offers WorkerMsg i
    → Holds b ids
    → spoken i ≤ n
    → length ids + n ≡ 3
    → Well
        (λ c.
          (more : List Name) × Holds c more
          × (length ids ≤ length more)
          × (length more + (n - spoken i) ≡ 3))
        (on on_backend b i)
backend-Accounted b quiet n ids w v h e = (ids, v, omega arith, omega arith)
backend-Accounted b (arrived m) n ids w v h e =
    Well-mono _ _
      (λ c k. (
        ids ++ sender m ∷ [],
        k,
        omega (arith, length-append ids (sender m ∷ [])),
        omega (arith, length-append ids (sender m ∷ [])),
      ))
      (on_backend b m) (on_backend-Holds b ids w v (omega arith))

offered-spoken : (n : ℕ) (i : Input) → spoken (if n == 0 then quiet else i) ≤ n
offered-spoken n i = elim (Bool-cases (n == 0)) [
  | inl e ↦ rw e (omega arith)
  | inr e ↦ rw e (spoken-le n i (ground arith))
]
  where
    spoken-le : (n : ℕ) (i : Input) → 1 ≤ n → spoken i ≤ n
    spoken-le n quiet h = omega arith
    spoken-le n (arrived m) h = h

offered-Offers :
    (n : ℕ) (i : Input) → Offers WorkerMsg i → Offers WorkerMsg (if n == 0 then quiet else i)
offered-Offers n i w = elim (Bool-cases (n == 0)) [ inl e ↦ rw e tt | inr e ↦ rw e w ]

turn-Accounted :
    (s : System) (p : Poll)
    → IsLegal p
    → Accounted s.pending s.broker
    → Well (Accounted (left_pending s p)) (turn s.broker (offered s p))
unfolding turn
turn-Accounted s p w v = elim (Bool-cases p.failed) [
  | inl e ↦ rw e tt
  | inr e ↦ rw e (
      Well-bind _ _ (on on_backend s.broker (offered s p).backend) _
        (backend-Accounted s.broker (offered s p).backend s.pending v.0
          (offered-Offers s.pending p.backend w.0) v.1 (offered-spoken s.pending p.backend) v.2)
        (λ c k.
          frontend-Accounted s.broker c p.frontend (s.pending - spoken (offered s p).backend) k.0
            w.1 k.1 (omega (arith, v.1.count, k.2)) k.3))
]

-- The end of a run.
abbrev pub Ended : Outcome × ℕ → Type 0
Ended (o, pending) = Well (Accounted pending) o

run-Accounted :
    (s : System) (ps : List Poll) → All IsLegal ps → Accounted s.pending s.broker → Ended (run s ps)
unfolding run
run-Accounted s [] w v = v
run-Accounted s (p ∷ ps) w v =
    go (turn s.broker (offered s p)) (turn-Accounted s p w.0 v)
      (λ b k. run-Accounted (record { broker = b; pending = left_pending s p }) ps w.1 k)
  where
    go :
        (o : Outcome)
        → Well (Accounted (left_pending s p)) o
        → ((b : Broker)
            → Accounted (left_pending s p) b
            → Ended (run (record { broker = b; pending = left_pending s p }) ps))
        → Ended (elim o [
          | running b ↦ run (record { broker = b; pending = left_pending s p }) ps
          | finished b ↦ (finished b, left_pending s p)
          | aborted ↦ (aborted, left_pending s p)
          | blocked ↦ (blocked, left_pending s p)
          | unread b ↦ (unread b, left_pending s p)
        ])
    go (running b) h again = again b h
    go (finished b) h again = h
    go aborted h again = h
    go blocked h again = h
    go (unread b) h again = h

-- With three workers that speak and listen in turn, and messages as the workers and clients send
-- them, no client's name starting with w, no assertion of the broker fails, none of its messages
-- lacks a frame or has one left unread, and no NULL is used, whatever the polls give. As long as the
-- loop goes on the array holds the names of the free workers in order and NULL behind them,
-- `available_workers` is their number, and together with the workers that have something to say,
-- those that have not spoken yet or were given a request since, they make up three.
pub run-Well : (ps : List Poll) → All IsLegal ps → Ended (run start_system ps)
unfolding start
run-Well ps w = run-Accounted start_system ps w (
  [],
  record { queue = refl; count = refl; few = omega arith; open_requests = omega arith },
  refl,
)
