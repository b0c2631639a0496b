-- ===== src/Loadbalance/Lists/Service.antt =====
-- What the broker of src/loadbalance/lbbroker2.c does, told with a queue of names.
use zmq_test.Common.{
  suc, ◌≡◌, ◌≢◌, refl, ap, ◌∙◌, inl, inr, false, List, [], ◌∷◌, ◌++◌, tail, All, length, arith,
  ◌==◌, if◌then◌else◌, Bool-cases,
}
use mathlib.Core.Path.{ap₂}
use zmq_test.Czmq.{Frame, Msg, Zmsg, Zlist, pop-cursor}
use zmq_test.Loadbalance.Lists.{
  is_ready, Effect, to_frontend, to_backend, Broker, Input, quiet, closed, arrived, Poll, Outcome,
  running, stopped, aborted, ◌>>=◌, on_backend, on_frontend, polled, turn, run, start,
}

-- The names of the free workers, oldest first, and what was sent.
abbrev pub Service : Type 0
Service = List Frame × List Effect

-- A worker that speaks becomes the last of the free ones; what it says goes to the clients, unless
-- it is that it is ready.
abbrev pub heard : Service → Input → Service
heard (free, out) (arrived (id ∷ empty ∷ f ∷ m)) =
    (free ++ id ∷ [], if is_ready f then out else out ++ to_frontend (f ∷ m) ∷ [])
heard s _ = s

-- A request goes to the first free worker.
abbrev pub given : Service → Input → Service
given (id ∷ free, out) (arrived m) = (free, out ++ to_backend (id ∷ [] ∷ m) ∷ [])
given s _ = s

-- Requests wait while no worker is free when the turn begins.
abbrev pub given_in_turn : List Frame → Service → Input → Service
given_in_turn [] s i = s
given_in_turn (id ∷ free) s i = given s i

abbrev pub serve : Service → Poll → Outcome Service
serve s p = if p.failed then stopped s else elim p.backend [
  | closed ↦ stopped s
  | quiet ↦ running (given_in_turn s.0 s p.frontend)
  | arrived m ↦ running (given_in_turn s.0 (heard s (arrived m)) p.frontend)
]

abbrev pub serve_all : Service → List Poll → Outcome Service
serve_all s [] = running s
serve_all s (p ∷ ps) = serve s p >>= λ t. serve_all t ps

-- What a REQ socket behind the backend sends: its name, an empty frame and at least one more.
abbrev pub IsWorkerMsg : Input → Type 0
IsWorkerMsg (arrived (id ∷ [] ∷ f ∷ m)) = Unit
IsWorkerMsg (arrived _) = ⊥
IsWorkerMsg quiet = Unit
IsWorkerMsg closed = Unit

module _ (C : Zmsg) (Z : Zlist Frame) where
  open Z use {Carrier, items}

  abbrev pub Views : Broker Carrier → Service → Type 0
  Views b s = (items b.workers ≡ s.0) × (b.trace ≡ s.1)

  -- The same end, with the same state.
  abbrev pub Agrees : Outcome (Broker Carrier) → Outcome Service → Type 0
  Agrees (running b) (running s) = Views b s
  Agrees (stopped b) (stopped s) = Views b s
  Agrees _ _ = ⊥

  Agrees-bind :
      (o : Outcome (Broker Carrier)) (q : Outcome Service)
      (f : Broker Carrier → Outcome (Broker Carrier)) (g : Service → Outcome Service)
      → Agrees o q
      → ((b : Broker Carrier) (s : Service) → Views b s → Agrees (f b) (g s))
      → Agrees (o >>= f) (q >>= g)
  Agrees-bind (running b) (running s) f g h k = k b s h
  Agrees-bind (running b) (stopped s) f g h k = absurd h
  Agrees-bind (running b) aborted f g h k = absurd h
  Agrees-bind (stopped b) (running s) f g h k = absurd h
  Agrees-bind (stopped b) (stopped s) f g h k = h
  Agrees-bind (stopped b) aborted f g h k = absurd h
  Agrees-bind aborted q f g h k = absurd h

  Agrees-then :
      (o : Outcome (Broker Carrier)) (s : Service) (f : Broker Carrier → Outcome (Broker Carrier))
      (q : Outcome Service)
      → Agrees o (running s)
      → ((b : Broker Carrier) → Views b s → Agrees (f b) q)
      → Agrees (o >>= f) q
  Agrees-then (running b) s f q h k = k b h
  Agrees-then (stopped b) s f q h k = absurd h
  Agrees-then aborted s f q h k = absurd h

  on_backend-heard :
      (b : Broker Carrier) (s : Service) (id f : Frame) (m : Msg)
      → Views b s
      → Agrees
          (on_backend C Z b (arrived (id ∷ [] ∷ f ∷ m)))
          (running (heard s (arrived (id ∷ [] ∷ f ∷ m))))
  unfolding on_backend
  on_backend-heard b s id f m v = elim (Bool-cases (is_ready f)) [
    | inl r ↦
        rw (C.unwrap-empty id (f ∷ m), C.first-cons f m, r)
          (Z.items-append b.workers id ∙ ap (λ l. l ++ id ∷ []) v.0, v.1)
    | inr r ↦
        rw (C.unwrap-empty id (f ∷ m), C.first-cons f m, r)
          (
            Z.items-append b.workers id ∙ ap (λ l. l ++ id ∷ []) v.0,
            ap (λ l. l ++ to_frontend (f ∷ m) ∷ []) v.1,
          )
  ]

  -- With a free worker.
  on_frontend-given :
      (b : Broker Carrier) (s : Service) (id : Frame) (free : List Frame) (i : Input)
      → Views b s
      → s.0 ≡ id ∷ free
      → Agrees (on_frontend C Z b i) (running (given s i))
  unfolding on_frontend
  on_frontend-given b (id' ∷ free', out) id free quiet v e = v
  on_frontend-given b (id' ∷ free', out) id free closed v e = v
  on_frontend-given b ([], out) id free i v e = cc
  on_frontend-given b (id' ∷ free', out) id free (arrived m) v e = rw (pop-cursor Z v.0) (
    Z.items-pop b.workers ∙ ap tail v.0,
    ap₂ (λ t w. t ++ to_backend w ∷ []) v.1 (C.wrap_lem m id'),
  )

  -- The frontend in the state after the backend, polled by the state before it.
  on_frontend-in_turn :
      (b c : Broker Carrier) (free : List Frame) (s : Service) (i : Input)
      → items b.workers ≡ free
      → Views c s
      → (free ≢ [] → (id : Frame) × (r : List Frame) × (s.0 ≡ id ∷ r))
      → Agrees (on_frontend C Z c (polled C Z b i)) (running (given_in_turn free s i))
  unfolding polled on_frontend
  on_frontend-in_turn b c [] s i e v k = rw (Z.size_lem b.workers, e) v
  on_frontend-in_turn b c (id ∷ free) s i e v k =
      let more : (suc (length free) == 0) ≡ false = ground arith in
      let (id', r, q) = k (λ n. cc) in
      rw (Z.size_lem b.workers, e, more) (on_frontend-given c s id' r i v q)

  heard-keeps :
      (s : Service) (id e f : Frame) (m : Msg)
      → (id' : Frame) × (r : List Frame) × ((heard s (arrived (id ∷ e ∷ f ∷ m))).0 ≡ id' ∷ r)
  heard-keeps ([], out) id e f m = (id, [], refl)
  heard-keeps (x ∷ free, out) id e f m = (x, free ++ id ∷ [], refl)

  has_first : (xs : List Frame) → xs ≢ [] → (id : Frame) × (r : List Frame) × (xs ≡ id ∷ r)
  has_first [] h = absurd (h refl)
  has_first (x ∷ xs) h = (x, xs, refl)

  turn-Agrees :
      (b : Broker Carrier) (s : Service) (p : Poll)
      → IsWorkerMsg p.backend
      → Views b s
      → Agrees (turn C Z b p) (serve s p)
  unfolding turn on_backend
  turn-Agrees b s p w v = elim (Bool-cases p.failed) [
    | inl e ↦ rw e v
    | inr e ↦ rw e (backend p.backend w)
  ]
    where
      backend :
          (i : Input)
          → IsWorkerMsg i
          → Agrees
              (on_backend C Z b i >>= λ c. on_frontend C Z c (polled C Z b p.frontend))
              (elim i [
                | closed ↦ stopped s
                | quiet ↦ running (given_in_turn s.0 s p.frontend)
                | arrived m ↦ running (given_in_turn s.0 (heard s (arrived m)) p.frontend)
              ])
      backend quiet h = on_frontend-in_turn b b s.0 s p.frontend v.0 v (has_first s.0)
      backend closed h = v
      backend (arrived []) h = absurd h
      backend (arrived (id ∷ [])) h = absurd h
      backend (arrived (id ∷ [] ∷ [])) h = absurd h
      backend (arrived (id ∷ (c ∷ e) ∷ m)) h = absurd h
      backend (arrived (id ∷ [] ∷ f ∷ m)) h =
          Agrees-then (on_backend C Z b (arrived (id ∷ [] ∷ f ∷ m)))
            (heard s (arrived (id ∷ [] ∷ f ∷ m))) (λ c. on_frontend C Z c (polled C Z b p.frontend))
            (running (given_in_turn s.0 (heard s (arrived (id ∷ [] ∷ f ∷ m))) p.frontend))
            (on_backend-heard b s id f m v)
            (λ c u.
              on_frontend-in_turn b c s.0 (heard s (arrived (id ∷ [] ∷ f ∷ m))) p.frontend v.0 u
                (λ n. heard-keeps s id [] f m))

  run-serves :
      (b : Broker Carrier) (s : Service) (ps : List Poll)
      → All (λ p. IsWorkerMsg p.backend) ps
      → Views b s
      → Agrees (run C Z b ps) (serve_all s ps)
  unfolding run
  run-serves b s [] w v = v
  run-serves b s (p ∷ ps) w v =
      Agrees-bind (turn C Z b p) (serve s p) (λ c. run C Z c ps) (λ t. serve_all t ps)
        (turn-Agrees b s p w.0 v) (λ c t u. run-serves c t ps w.1 u)

  -- Whatever the polls bring, as long as each message from behind is the name of a worker, an empty
  -- frame and at least one more frame, the broker uses no NULL and does what a queue of names
  -- does: a worker that speaks goes to the end, what it says is passed on unless it is READY, and
  -- a request goes to the first, if some worker was free when the turn began. It stops when the
  -- queue does, and its list and what it sent are those of the queue.
  pub run-Agrees :
      (ps : List Poll)
      → All (λ p. IsWorkerMsg p.backend) ps
      → Agrees (run C Z (start C Z) ps) (serve_all ([], []) ps)
  unfolding start
  run-Agrees ps w = run-serves (start C Z) ([], []) ps w (Z.items-empty, refl)
