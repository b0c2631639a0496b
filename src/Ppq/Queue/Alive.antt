-- ===== src/Ppq/Queue/Alive.antt =====
-- What a whole turn leaves: workers that were alive at a reading of the clock within that turn.
use zmq_test.Common.{
  ℕ, ◌-◌, ◌≤◌, ◌<◌, ◌≢◌, inl, inr, [], All, Bool-cases, leb, Monotone, arith, List-cases,
}
use zmq_test.Czmq.{Zmsg, Zlist, unwrap-some}
use zmq_test.Ppq.Defs.{Worker}
use zmq_test.Ppq.Queue.{
  Input, quiet, closed, arrived, Poll, Broker, on_backend, on_frontend, polled, heartbeats,
  worker_purge, step,
}
use zmq_test.Ppq.Queue.Registry.{worker_next-cons}
use zmq_test.Ppq.Queue.Purge.{Purged-alive, worker_purge-Purged}
use zmq_test.Ppq.Queue.Invariant.{
  IsRouted, Safe, Safe-both, Safe-bind, Inv, on_backend-Inv, on_frontend-Inv, heartbeats-Inv,
  polled-ne-nil,
}

module _ (Z : Zlist Worker) (clock : ℕ → ℕ) where
  open Z use {Carrier, items}

  heartbeats-reads : (b : Broker Carrier) → b.reads < (heartbeats Z clock b).reads
  unfolding heartbeats
  heartbeats-reads b = elim (Bool-cases (leb b.heartbeat_at (clock b.reads))) [
    | inl due ↦ rw due (omega arith)
    | inr early ↦ rw early (omega arith)
  ]

  module _ (C : Zmsg) (mono : Monotone clock) where
    on_backend-reads :
        (i : Input) (b : Broker Carrier)
        → IsRouted i
        → Safe (λ c. b.reads ≤ c.reads) (on_backend Z clock C i b)
    unfolding on_backend
    on_backend-reads quiet b r = omega arith
    on_backend-reads closed b r = tt
    on_backend-reads (arrived m) b r =
        let (identity, rest, e) = unwrap-some C m r in rw e (omega arith)

    on_frontend-reads :
        (i : Input) (b : Broker Carrier)
        → (i ≢ quiet → items b.workers ≢ [])
        → Safe (λ c. b.reads ≤ c.reads) (on_frontend Z clock C i b)
    unfolding on_frontend
    on_frontend-reads quiet b h = omega arith
    on_frontend-reads closed b h = tt
    on_frontend-reads (arrived m) b h = elim (List-cases (items b.workers)) [
      | inl e ↦ absurd (h (λ q. cc) e)
      | inr (w, ws, e) ↦
          let (l, next, left) = worker_next-cons Z b.workers w ws e in rw next (omega arith)
    ]

    -- The clock was read between the two states, and every worker of the list was alive at the last
    -- of the readings.
    abbrev pub AliveSince : Broker Carrier → Broker Carrier → Type 0
    AliveSince b c =
        (b.reads < c.reads) × All (λ w. clock (c.reads - 1) < w.expiry) (items c.workers)

    purge-AliveSince :
        (b d : Broker Carrier)
        → b.reads ≤ d.reads
        → Inv Z clock d
        → AliveSince b (worker_purge Z clock (heartbeats Z clock d))
    purge-AliveSince b d h v =
        let p = Purged-alive _ _ _ _ _ (
          worker_purge-Purged Z clock (heartbeats Z clock d)
            (heartbeats-Inv Z clock C mono d v).sorted) in
        (omega (arith, heartbeats-reads d, p.0, h), p.1)

    -- A turn that starts from a good state, with a clock that does not run backwards and a
    -- worker message that has a frame, does not abort. If the loop goes on, the turn has read
    -- the clock, and every worker in the list that it leaves was alive at the last of its
    -- readings.
    pub step-AliveSince :
        (b : Broker Carrier) (p : Poll)
        → IsRouted p.backend
        → Inv Z clock b
        → Safe (AliveSince b) (step Z clock C b p)
    unfolding step
    step-AliveSince b p r v = elim (Bool-cases p.failed) [
      | inl e ↦ rw e tt
      | inr e ↦ rw e (
          Safe-bind _ (AliveSince b) (on_backend Z clock C p.backend b) _
            (Safe-both _ _ (on_backend Z clock C p.backend b)
              (on_backend-Inv Z clock C mono p.backend b r v) (on_backend-reads p.backend b r))
            (λ c h.
              let full = λ (q : polled Z b p.frontend ≢ quiet).
                h.0.1 (polled-ne-nil Z clock b p.frontend q) in
              Safe-bind _ (AliveSince b) (on_frontend Z clock C (polled Z b p.frontend) c) _
                (Safe-both _ _ (on_frontend Z clock C (polled Z b p.frontend) c)
                  (on_frontend-Inv Z clock C mono (polled Z b p.frontend) c full h.0.0)
                  (on_frontend-reads (polled Z b p.frontend) c full))
                (λ d k. purge-AliveSince b d (omega (arith, h.1, k.1)) k.0)))
    ]
