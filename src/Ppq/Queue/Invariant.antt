-- ===== src/Ppq/Queue/Invariant.antt =====
-- What holds of the broker between two turns of its loop, and why its assertion never fails.
use zmq_test.Common.{
  ℕ, suc, ◌+◌, ◌≤◌, ◌≡◌, ◌≢◌, refl, inl, inr, some, List, [], ◌∷◌, ◌++◌, All, All-append,
  All-append_right, All-mono, append-ne-nil, Monotone, Monotone-le, List-cases, Bool-cases, leb,
  arith,
}
use zmq_test.Czmq.{Frame, Msg, Zmsg, Zlist, unwrap-some}
use zmq_test.Ppq.Defs.{Worker}
use zmq_test.Ppq.Queue.{
  Input, quiet, closed, arrived, Poll, Broker, Outcome, running, stopped, aborted, ◌>>=◌,
  worker_new, admit, on_backend, on_frontend, heartbeats, worker_purge, step, run, start, polled,
  worker_ready,
}
use zmq_test.Ppq.Queue.Registry.{
  drop_id, items-worker_ready, worker_next-cons, heartbeat_scan-beats,
}
use zmq_test.Ppq.Queue.Purge.{Sorted, Purged-alive, worker_purge-Purged}
use zmq_test.Ppq.Queue.Order.{
  Distinct, drop_id-All, drop_id-Sorted, drop_id-Distinct, drop_id-Unnamed, Distinct-snoc,
  Sorted-snoc, Distinct-append_right, Sorted-append_right,
}

-- A ROUTER socket puts the sender's identity in front, so a message of it has a frame.
abbrev pub IsRouted : Input → Type 0
IsRouted (arrived m) = m ≢ []
IsRouted _ = Unit

-- The program does not abort, and where the loop goes on the state meets `P`.
abbrev pub Safe : {S : Type 0} → (S → Type 0) → Outcome S → Type 0
Safe P (running s) = P s
Safe P (stopped s) = Unit
Safe P aborted = ⊥

pub Safe-mono :
    {S : Type 0} (P Q : S → Type 0) → ((s : S) → P s → Q s) → (o : Outcome S) → Safe P o → Safe Q o
Safe-mono P Q f (running s) h = f s h
Safe-mono P Q f (stopped s) h = tt
Safe-mono P Q f aborted h = h

pub Safe-both :
    {S : Type 0} (P Q : S → Type 0) (o : Outcome S) → Safe P o → Safe Q o → Safe (λ s. P s × Q s) o
Safe-both P Q (running s) h k = (h, k)
Safe-both P Q (stopped s) h k = tt
Safe-both P Q aborted h k = h

pub Safe-bind :
    {S : Type 0} (P Q : S → Type 0) (o : Outcome S) (f : S → Outcome S)
    → Safe P o
    → ((s : S) → P s → Safe Q (f s))
    → Safe Q (o >>= f)
Safe-bind P Q (running s) f h k = k s h
Safe-bind P Q (stopped s) f h k = tt
Safe-bind P Q aborted f h k = h

module _ (Z : Zlist Worker) (clock : ℕ → ℕ) where
  open Z use {Carrier, items, size, size_lem}

  pub record Inv (b : Broker Carrier) : Type 0 where
    pub distinct : Distinct (items b.workers)
    pub sorted : Sorted (items b.workers)
    pub bounded : All (λ w. w.expiry ≤ clock b.reads + 3000) (items b.workers)

  -- The times of a list stay bounded when the clock goes on.
  Bounded-later :
      (mono : Monotone clock) (i j : ℕ) (ws : List Worker)
      → i ≤ j
      → All (λ w. w.expiry ≤ clock i + 3000) ws
      → All (λ w. w.expiry ≤ clock j + 3000) ws
  Bounded-later mono i j ws h b =
      All-mono _ (λ w. w.expiry ≤ clock j + 3000)
        (λ w k. omega (arith, Monotone-le clock mono i j h)) ws b

  -- The phases that leave the list as it is keep the invariant.
  same-Inv :
      (mono : Monotone clock) (b c : Broker Carrier)
      → items c.workers ≡ items b.workers
      → b.reads ≤ c.reads
      → Inv b
      → Inv c
  same-Inv mono b c e h v = record {
    distinct = rw e v.distinct;
    sorted = rw e v.sorted;
    bounded = rw e (Bounded-later mono b.reads c.reads (items b.workers) h v.bounded);
  }

  tail-Inv :
      (mono : Monotone clock) (b c : Broker Carrier) (gone : List Worker)
      → items b.workers ≡ gone ++ items c.workers
      → b.reads ≤ c.reads
      → Inv b
      → Inv c
  tail-Inv mono b c gone e h v = record {
    distinct = Distinct-append_right gone _ (rw e at (v.distinct));
    sorted = Sorted-append_right gone _ (rw e at (v.sorted));
    bounded =
        Bounded-later mono b.reads c.reads _ h (All-append_right _ gone _ (rw e at (v.bounded)));
  }

  pub polled-ne-nil : (b : Broker Carrier) (i : Input) → polled Z b i ≢ quiet → items b.workers ≢ []
  unfolding polled
  polled-ne-nil b i h e = h (rw (size_lem b.workers, e))

  module _ (C : Zmsg) (mono : Monotone clock) where
    admit-Inv :
        (b : Broker Carrier) (identity : Frame) (m : Msg)
        → Inv b
        → Safe (λ c. Inv c × (items c.workers ≢ [])) (admit Z clock C b (some identity, m))
    unfolding admit worker_new
    admit-Inv b identity m v =
        let w = worker_new C identity (clock b.reads) in
        let left = drop_id w.id_string (items b.workers) in
        let e : items (worker_ready Z w b.workers) ≡ left ++ w ∷ [] =
          items-worker_ready Z w b.workers in
        let old : All (λ v. v.expiry ≤ clock b.reads + 3000) left =
          drop_id-All _ w.id_string _ v.bounded in
        (
          record {
            distinct = rw e (
                Distinct-snoc left w (drop_id-Distinct _ _ v.distinct)
                  (drop_id-Unnamed _ _ v.distinct));
            sorted = rw e (Sorted-snoc left w (drop_id-Sorted _ _ v.sorted) old);
            bounded = rw e (
                Bounded-later mono b.reads (suc b.reads) _ (omega arith)
                  (All-append _ left (w ∷ []) old (omega arith, tt)));
          },
          rw e (append-ne-nil left w),
        )

    pub on_backend-Inv :
        (i : Input) (b : Broker Carrier)
        → IsRouted i
        → Inv b
        → Safe
            (λ c. Inv c × (items b.workers ≢ [] → items c.workers ≢ []))
            (on_backend Z clock C i b)
    unfolding on_backend
    on_backend-Inv quiet b r v = (v, λ h. h)
    on_backend-Inv closed b r v = tt
    on_backend-Inv (arrived m) b r v =
        let (identity, rest, e) = unwrap-some C m r in
        rw e (
          Safe-mono (λ c. Inv c × (items c.workers ≢ []))
            (λ c. Inv c × (items b.workers ≢ [] → items c.workers ≢ [])) (λ c h. (h.0, λ _. h.1))
            (admit Z clock C b (some identity, rest)) (admit-Inv b identity rest v))

    pub on_frontend-Inv :
        (i : Input) (b : Broker Carrier)
        → (i ≢ quiet → items b.workers ≢ [])
        → Inv b
        → Safe Inv (on_frontend Z clock C i b)
    unfolding on_frontend
    on_frontend-Inv quiet b h v = v
    on_frontend-Inv closed b h v = tt
    on_frontend-Inv (arrived m) b h v = elim (List-cases (items b.workers)) [
      | inl e ↦ absurd (h (λ q. cc) e)
      | inr (w, ws, e) ↦
          let (l, next, left) = worker_next-cons Z b.workers w ws e in
          rw next (tail-Inv mono b _ (w ∷ []) (rw left e) (omega arith) v)
    ]

    pub heartbeats-Inv : (b : Broker Carrier) → Inv b → Inv (heartbeats Z clock b)
    unfolding heartbeats
    heartbeats-Inv b v = elim (Bool-cases (leb b.heartbeat_at (clock b.reads))) [
      | inl due ↦ rw due (same-Inv mono b _ (heartbeat_scan-beats Z b.workers).1 (omega arith) v)
      | inr early ↦ rw early (same-Inv mono b _ refl (omega arith) v)
    ]

    purge-Inv : (b : Broker Carrier) → Inv b → Inv (worker_purge Z clock b)
    purge-Inv b v =
        let p = worker_purge-Purged Z clock b v.sorted in
        tail-Inv mono b _ p.gone p.split (Purged-alive _ _ _ _ _ p).0 v

    -- One turn from a state that meets the invariant does not abort, whatever the poll gives, and
    -- ends in such a state if the loop goes on.
    pub step-Inv :
        (b : Broker Carrier) (p : Poll) → IsRouted p.backend → Inv b → Safe Inv (step Z clock C b p)
    unfolding step
    step-Inv b p r v = elim (Bool-cases p.failed) [
      | inl e ↦ rw e tt
      | inr e ↦ rw e (
          Safe-bind _ Inv (on_backend Z clock C p.backend b) _ (on_backend-Inv p.backend b r v)
            (λ c h.
              Safe-bind Inv Inv (on_frontend Z clock C (polled Z b p.frontend) c) _
                (on_frontend-Inv (polled Z b p.frontend) c (λ q. h.1 (polled-ne-nil b p.frontend q))
                  h.0)
                (λ d k. purge-Inv _ (heartbeats-Inv d k))))
    ]

    run-Inv :
        (b : Broker Carrier) (ps : List Poll)
        → All (λ p. IsRouted p.backend) ps
        → Inv b
        → Safe Inv (run Z clock C b ps)
    unfolding run
    run-Inv b [] r v = v
    run-Inv b (p ∷ ps) r v =
        Safe-bind Inv Inv (step Z clock C b p) _ (step-Inv b p r.0 v) (λ c h. run-Inv c ps r.1 h)

    -- Whatever the polls give, the broker never aborts: `_worker_next` always finds a worker. After
    -- every turn no two free workers have one name, they stand in the order of their expiry, and no
    -- expiry lies more than three seconds ahead.
    pub run-Safe :
        (ps : List Poll)
        → All (λ p. IsRouted p.backend) ps
        → Safe Inv (run Z clock C (start Z clock) ps)
    unfolding start
    run-Safe ps r = run-Inv _ ps r (record {
      distinct = rw Z.items-empty tt;
      sorted = rw Z.items-empty tt;
      bounded = rw Z.items-empty tt;
    })
