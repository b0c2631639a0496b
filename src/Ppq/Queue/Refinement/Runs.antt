-- ===== src/Ppq/Queue/Refinement/Runs.antt =====
-- The broker of src/ppq/queue.c does what `Service` says, over whole runs.
use zmq_test.Common.{
  ℕ, suc, ◌+◌, ◌≡◌, ◌≢◌, refl, ap, ◌∙◌, inl, inr, false, List, [], ◌∷◌, All, length, ◌==◌,
  Bool-cases, List-cases, append-ne-nil, arith,
}
use zmq_test.Czmq.{Zmsg, Zlist}
use zmq_test.Ppq.Defs.{Worker}
use zmq_test.Ppq.Queue.{
  Input, quiet, closed, arrived, Poll, Broker, Outcome, running, ◌>>=◌, polled, on_backend,
  on_frontend, step, run, start,
}
use zmq_test.Ppq.Queue.Invariant.{IsRouted}
use zmq_test.Ppq.Queue.Service.{
  Entry, Service, forget, asked, beaten, purged, told, serve, serve_all, opening,
}
use zmq_test.Ppq.Queue.Refinement.{
  Views, Serves, Serves-bind, length-list, on_backend-told, on_frontend-given, heartbeats-beaten,
  worker_purge-purged,
}

module _ (Z : Zlist Worker) (clock : ℕ → ℕ) (C : Zmsg) where
  open Z use {Carrier, items, size, size_lem}

  -- The frontend in the state after the backend, polled by the state before it.
  on_frontend-asked :
      (i : Input) (b c : Broker Carrier) (s t : Service)
      → Views Z clock C b s
      → Views Z clock C c t
      → (s.workers ≢ [] → t.workers ≢ [])
      → Serves Z clock C (on_frontend Z clock C (polled Z b i) c) (asked s.workers t i)
  unfolding polled on_frontend
  on_frontend-asked i b c s t v u k = scan s.workers i (length-list Z clock C b s v) k
    where
      scan :
          (free : List Entry) (i : Input)
          → length free ≡ size b.workers
          → (free ≢ [] → t.workers ≢ [])
          → Serves Z clock C (on_frontend Z clock C (polled Z b i) c) (asked free t i)
      scan [] i h k = rw (← h) u
      scan (e ∷ free) i h k =
          let more : (suc (length free) == 0) ≡ false = ground arith in
          rw (← h, more) (given_now i (k (λ n. cc)))
        where
          given_now :
              (i : Input)
              → t.workers ≢ []
              → Serves Z clock C (on_frontend Z clock C i c) (asked (e ∷ free) t i)
          given_now quiet n = u
          given_now closed n = u
          given_now (arrived m) n = elim (List-cases t.workers) [
            | inl none_left ↦ absurd (n none_left)
            | inr (e', free', q) ↦ on_frontend-given Z clock C m c t e' free' q u
          ]

  left : Outcome Service → List Entry
  left (running t) = t.workers
  left _ = []

  told-keeps :
      (i : Input) (s t : Service) → told clock s i ≡ running t → s.workers ≢ [] → t.workers ≢ []
  unfolding left
  told-keeps quiet s t e h = λ n. h (ap left e ∙ n)
  told-keeps closed s t e h = cc
  told-keeps (arrived []) s t e h = cc
  told-keeps (arrived (id ∷ m)) s t e h =
      λ n. append-ne-nil (forget id s.workers) (id, clock s.reads + 3000) (ap left e ∙ n)

  step-Serves :
      (b : Broker Carrier) (s : Service) (p : Poll)
      → IsRouted p.backend
      → Views Z clock C b s
      → Serves Z clock C (step Z clock C b p) (serve clock s p)
  unfolding step
  step-Serves b s p r v = elim (Bool-cases p.failed) [
    | inl e ↦ rw e v
    | inr e ↦ rw e (
        Serves-bind Z clock C (on_backend Z clock C p.backend b) (told clock s p.backend) _
          (λ t. asked s.workers t p.frontend >>= λ u. running (purged clock (beaten clock u)))
          (on_backend-told Z clock C p.backend b s r v)
          (λ c t q u.
            Serves-bind Z clock C (on_frontend Z clock C (polled Z b p.frontend) c)
              (asked s.workers t p.frontend) _ (λ u. running (purged clock (beaten clock u)))
              (on_frontend-asked p.frontend b c s t v u (told-keeps p.backend s t q))
              (λ d x _ w. worker_purge-purged Z clock C _ _ (heartbeats-beaten Z clock C d x w))))
  ]

  runs-Serves :
      (b : Broker Carrier) (s : Service) (ps : List Poll)
      → All (λ p. IsRouted p.backend) ps
      → Views Z clock C b s
      → Serves Z clock C (run Z clock C b ps) (serve_all clock s ps)
  unfolding run
  runs-Serves b s [] r v = v
  runs-Serves b s (p ∷ ps) r v =
      Serves-bind Z clock C (step Z clock C b p) (serve clock s p) (λ c. run Z clock C c ps)
        (λ t. serve_all clock t ps) (step-Serves b s p r.0 v) (λ c t _ u. runs-Serves c t ps r.1 u)

  -- Whatever messages with at least one frame the polls bring and whatever the clock shows, the
  -- broker does what a list of names and times does: a worker that speaks loses its entry and
  -- gets one at the end, for three seconds; what it says behind its name is passed on, unless it
  -- is one frame; a request goes to the first entry, if there was one when the turn began; when
  -- the time has come every name is sent a heartbeat; the front of the list goes as far as it has
  -- expired. It stops when that list does, never aborts, and its workers, what it sent, its
  -- looks at the clock and the time of the next heartbeats are the same.
  pub run-Serves :
      (ps : List Poll)
      → All (λ p. IsRouted p.backend) ps
      → Serves Z clock C (run Z clock C (start Z clock) ps) (serve_all clock (opening clock) ps)
  unfolding start
  run-Serves ps r =
      runs-Serves (start Z clock) (opening clock) ps r
        (record { list = Z.items-empty; time = refl; looks = refl; said = refl })
