-- ===== src/Ppq/Queue/Routing.antt =====
-- Where a turn of the broker sends messages, and which workers it leaves in the list.
use zmq_test.Common.{
  ℕ, suc, ◌+◌, ◌≡◌, refl, ap, inl, inr, some, List, [], ◌∷◌, ◌++◌, Bool-cases, leb, ◌==◌,
  if◌then◌else◌, length,
}
use zmq_test.Czmq.{Frame, Msg, Zmsg, Zlist}
use zmq_test.Ppq.Defs.{Worker}
use zmq_test.Ppq.Queue.{
  arrived, Broker, Effect, to_frontend, to_backend, running, worker_ready, worker_new, check_signal,
  on_backend, on_frontend, heartbeats,
}
use zmq_test.Ppq.Queue.Registry.{
  drop_id, items-worker_ready, worker_next-cons, beats, heartbeat_scan-beats,
}

module _ (Z : Zlist Worker) (clock : ℕ → ℕ) (C : Zmsg) where
  open Z use {Carrier, items}

  -- What a worker's message makes the broker say: an answer is passed on, a signal is checked.
  abbrev pub answer : Msg → List Effect
  answer m = if length m == 1 then check_signal C m (C.first m) else to_frontend m ∷ []

  -- A message of a worker, without its envelope, goes to the clients unless it has one frame, and
  -- the worker becomes the last of the free ones, whether it was free before or not.
  pub on_backend_lem :
      (b : Broker Carrier) (m r : Msg) (identity : Frame)
      → C.unwrap m ≡ (some identity, r)
      → (c : Broker Carrier) × (on_backend Z clock C (arrived m) b ≡ running c)
        × (items c.workers
            ≡ drop_id (C.strhex identity) (items b.workers)
              ++ worker_new C identity (clock b.reads) ∷ [])
        × (c.trace ≡ b.trace ++ answer r)
        × (c.heartbeat_at ≡ b.heartbeat_at)
        × (c.reads ≡ suc b.reads)
  unfolding on_backend
  on_backend_lem b m r identity e = (
    record {
      workers = worker_ready Z (worker_new C identity (clock b.reads)) b.workers;
      heartbeat_at = b.heartbeat_at;
      reads = suc b.reads;
      trace =
          b.trace ++ (if C.size r == 1 then check_signal C r (C.first r) else to_frontend r ∷ []);
    },
    rw e refl,
    items-worker_ready Z (worker_new C identity (clock b.reads)) b.workers,
    rw (C.size_lem r),
    refl,
    refl,
  )

  -- A request goes to the worker that has been free longest, which is then free no more.
  pub on_frontend_lem :
      (b : Broker Carrier) (m : Msg) (w : Worker) (ws : List Worker)
      → items b.workers ≡ w ∷ ws
      → (c : Broker Carrier) × (on_frontend Z clock C (arrived m) b ≡ running c)
        × (items c.workers ≡ ws)
        × (c.trace ≡ b.trace ++ to_backend (w.identity ∷ m) ∷ [])
        × (c.heartbeat_at ≡ b.heartbeat_at)
        × (c.reads ≡ b.reads)
  unfolding on_frontend
  on_frontend_lem b m w ws e =
      let (l, next, left) = worker_next-cons Z b.workers w ws e in
      (
        record b { workers = l; trace = b.trace ++ to_backend (C.push m w.identity) ∷ [] },
        rw next refl,
        left,
        rw (C.push_lem m w.identity),
        refl,
        refl,
      )

  -- Once the time has come, every free worker is sent a heartbeat, in the order of the list, and
  -- the next time is set; before that nothing is sent. The free workers stay the same.
  heartbeats_lem :
      (b : Broker Carrier)
      → let c = heartbeats Z clock b in
        let due = leb b.heartbeat_at (clock b.reads) in
        (items c.workers ≡ items b.workers)
        × (c.trace ≡ (if due then b.trace ++ beats (items b.workers) else b.trace))
        × (c.heartbeat_at ≡ (if due then clock (suc b.reads) + 1000 else b.heartbeat_at))
  unfolding heartbeats
  heartbeats_lem b =
      let (sent, same) = heartbeat_scan-beats Z b.workers in
      elim (Bool-cases (leb b.heartbeat_at (clock b.reads))) [
        | inl due ↦ rw due (same, ap (λ es. b.trace ++ es) sent, refl)
        | inr early ↦ rw early (refl, refl, refl)
      ]
