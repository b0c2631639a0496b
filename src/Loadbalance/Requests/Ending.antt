-- ===== src/Loadbalance/Requests/Ending.antt =====
-- When the broker and the workers of src/loadbalance/rtreq.c stop.
use zmq_test.Common.{
  ℕ, suc, ◌+◌, ◌≤◌, ◌<◌, ◌≡◌, refl, ◌∙◌, inl, inr, Bool, true, false, List, [], ◌∷◌, ◌++◌, ltb,
  ◌==◌, if◌then◌else◌, arith, Bool-cases, All, length, length-append, All-append, ◌^◌,
}
use zmq_test.Base.Random.{randof}
use zmq_test.Base.Random.Range.{randof-le}
use zmq_test.Loadbalance.Requests.{
  nbr_workers, ok, exit, Reply, Task, asking, completed, worker_task, Request, Broker, Outcome,
  running, finished, answer, turn, run, start,
}

-- How many of the requests come at the end time or later.
abbrev pub late : ℕ → List Request → ℕ
late end_time [] = 0
late end_time (r ∷ rs) = if ltb r.now end_time then late end_time rs else suc (late end_time rs)

-- The loop goes on while fewer than three workers were told to exit, and ends with the third.
abbrev pub Ends : ℕ → Outcome → Type 0
Ends n (running b) = (n < 3) × (b.workers_exited ≡ n)
Ends n (finished b) = (3 ≤ n) × (b.workers_exited ≡ 3)

Ends-later : (n : ℕ) (o : Outcome) {m : ℕ} → m ≡ n → Ends m o → Ends n o
Ends-later n (running b) e h = (omega arith, h.1 ∙ e)
Ends-later n (finished b) e h = (omega arith, h.1)

-- A turn, by when the request comes and how many workers were told to exit.
abbrev Turned : ℕ → Broker → Request → Outcome → Type 0
Turned end_time b r (running c) =
    (c.workers_exited < 3) × (c.workers_exited ≡ b.workers_exited + late end_time (r ∷ []))
Turned end_time b r (finished c) =
    (c.workers_exited ≡ 3) × (3 ≡ b.workers_exited + late end_time (r ∷ []))

turn-Turned :
    (end_time : ℕ) (b : Broker) (r : Request)
    → b.workers_exited < 3
    → Turned end_time b r (turn end_time b r)
unfolding turn
turn-Turned end_time b r h = elim (Bool-cases (ltb r.now end_time)) [
  | inl early ↦
      let one : late end_time (r ∷ []) ≡ 0 = rw early refl in rw early (h, omega (arith, one))
  | inr past ↦
      let one : late end_time (r ∷ []) ≡ 1 = rw past refl in
      rw past (elim (Bool-cases (b.workers_exited + 1 == nbr_workers)) [
        | inl last ↦ rw last (ground arith, ground (arith, one))
        | inr more ↦ rw more (ground arith, omega (arith, one))
      ])
]

late-cons :
    (end_time : ℕ) (r : Request) (rs : List Request)
    → late end_time (r ∷ rs) ≡ late end_time (r ∷ []) + late end_time rs
late-cons end_time r rs = elim (Bool-cases (ltb r.now end_time)) [
  | inl early ↦ rw early (omega arith)
  | inr past ↦ rw past (omega arith)
]

run-late :
    (end_time : ℕ) (b : Broker) (rs : List Request)
    → b.workers_exited < 3
    → Ends (b.workers_exited + late end_time rs) (run end_time b rs)
unfolding run
run-late end_time b [] h = (omega arith, omega arith)
run-late end_time b (r ∷ rs) h =
    go (λ c. run-late end_time c rs) (turn end_time b r) (turn-Turned end_time b r h)
  where
    go :
        ((c : Broker)
          → c.workers_exited < 3
          → Ends (c.workers_exited + late end_time rs) (run end_time c rs))
        → (o : Outcome) → Turned end_time b r o
        → Ends
            (b.workers_exited + late end_time (r ∷ rs))
            (elim o [ running next ↦ run end_time next rs | finished last ↦ finished last ])
    go again (running c) k =
        Ends-later _ _ (omega (arith, k.1, late-cons end_time r rs)) (again c k.0)
    go again (finished c) k = (omega (arith, k.1, late-cons end_time r rs), k.0)

-- The broker goes on while fewer than three of its requests came at the end time or later, and
-- ends with the third of them.
pub run-Ends : (end_time : ℕ) (rs : List Request) → Ends (late end_time rs) (run end_time start rs)
unfolding start
run-Ends end_time rs =
    Ends-later _ _ (omega arith)
      (run-late end_time (record { workers_exited = 0; trace = [] }) rs (omega arith))

-- The replies of the broker to a worker's requests, with the worker's draws.
abbrev pub replies : ℕ → List (Request × ℕ) → List Reply
replies end_time [] = []
replies end_time ((r, random) ∷ rs) =
    record { frame = answer end_time r; random = random } ∷ replies end_time rs

-- How many requests come before the first that is late.
abbrev pub early : ℕ → List (Request × ℕ) → ℕ
early end_time [] = 0
early end_time ((r, random) ∷ rs) = if ltb r.now end_time then suc (early end_time rs) else 0

abbrev pub IsPause : ℕ → Type 0
IsPause n = (1 ≤ n) × (n ≤ 501)

-- The worker has done n tasks, pauses behind each, and has stopped if it was told to.
abbrev pub Works : ℕ → Bool → Task → Type 0
Works n stopped (asking total pauses) =
    (stopped ≡ false) × (total ≡ n) × (length pauses ≡ n) × All IsPause pauses
Works n stopped (completed total pauses) =
    (stopped ≡ true) × (total ≡ n) × (length pauses ≡ n) × All IsPause pauses

-- Is any of the requests late?
abbrev pub some_late : ℕ → List (Request × ℕ) → Bool
some_late end_time [] = false
some_late end_time ((r, random) ∷ rs) = if ltb r.now end_time then some_late end_time rs else true

Works-eq : (n : ℕ) (b : Bool) (t : Task) {m : ℕ} → m ≡ n → Works m b t → Works n b t
Works-eq n b (asking total pauses) e h = (h.0, h.1 ∙ e, h.2 ∙ e, h.3)
Works-eq n b (completed total pauses) e h = (h.0, h.1 ∙ e, h.2 ∙ e, h.3)

answer-early : (end_time : ℕ) (r : Request) → ltb r.now end_time ≡ true → answer end_time r ≡ ok
unfolding answer
answer-early end_time r e = rw e refl

answer-late : (end_time : ℕ) (r : Request) → ltb r.now end_time ≡ false → answer end_time r ≡ exit
unfolding answer
answer-late end_time r e = rw e refl

worker_task-from :
    (end_time : ℕ) (rs : List (Request × ℕ)) (total : ℕ) (pauses : List ℕ)
    → All (λ q. q.1 < 2 ^ 31) rs
    → length pauses ≡ total
    → All IsPause pauses
    → Works
        (total + early end_time rs)
        (some_late end_time rs)
        (worker_task total pauses (replies end_time rs))
unfolding worker_task
worker_task-from end_time [] total pauses d n h = (refl, omega arith, omega arith, h)
worker_task-from end_time ((r, random) ∷ rs) total pauses d n h =
    elim (Bool-cases (ltb r.now end_time)) [
      | inr past ↦ rw (past, answer-late end_time r past) (refl, omega arith, omega arith, h)
      | inl soon ↦
          let pause = randof 500 random + 1 in
          let again =
            worker_task-from end_time rs (total + 1) (pauses ++ pause ∷ []) d.1
              (omega (arith, length-append pauses (pause ∷ [])))
              (All-append IsPause pauses (pause ∷ []) h
                ((omega arith, omega (arith, randof-le 500 random (omega arith) d.0)), tt)) in
          rw (soon, answer-early end_time r soon) (Works-eq _ _ _ (omega arith) again)
    ]

-- A worker that gets the broker's answers, with values of `random()` below 2^31, does one task
-- for each of its requests before the first at the end time or later, with a pause of 1 to 501
-- milliseconds behind each, and stops if there is such a request.
pub worker_task-Works :
    (end_time : ℕ) (rs : List (Request × ℕ))
    → All (λ q. q.1 < 2 ^ 31) rs
    → Works (early end_time rs) (some_late end_time rs) (worker_task 0 [] (replies end_time rs))
worker_task-Works end_time rs d =
    Works-eq _ _ _ (omega arith) (worker_task-from end_time rs 0 [] d refl tt)
