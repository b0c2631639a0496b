-- ===== src/Ppq/RoundTrip.antt =====
-- The queue and the worker together: a request comes back to the client that sent it. Between them
-- the sockets work as documented: the queue's ROUTER takes the worker's identity off what it sends,
-- and puts it in front of what it receives from there.
use zmq_test.Common.{ℕ, ◌≡◌, ◌≢◌, refl, ap, ◌∙◌, List, [], ◌∷◌, ◌++◌, false}
use zmq_test.Czmq.{Frame, Msg, Zmsg, Zlist}
use zmq_test.Ppq.Defs.{Worker}
use zmq_test.Ppq.Queue.{
  Broker, to_frontend, to_backend, arrived, running, on_backend, on_frontend, worker_new,
}
use zmq_test.Ppq.Queue.Registry.{drop_id}
use zmq_test.Ppq.Queue.Routing.{on_backend_lem, on_frontend_lem}
use zmq_test.Ppq.Worker.Requests.{echo}
use zmq_test.Ppq.Worker.{Turn, Peer, sent, slept, on_message}

-- The request of a REQ client as the queue's frontend receives it.
abbrev pub request : ℕ → Frame → Frame → Msg
request c id body = (c ∷ id) ∷ [] ∷ body ∷ []

module _ (C : Zmsg) (clock : ℕ → ℕ) (Z : Zlist Worker) where
  open Z use {Carrier, items}

  -- A request goes to the worker that has been free longest. If that worker is not made to fail,
  -- it sends the request back, the queue passes it on to the client as the client's frames were,
  -- and the worker is the last of the free ones.
  pub request_round_trip :
      (c : ℕ) (id body : Frame) (b : Broker Carrier) (w : Worker) (ws : List Worker) (t : Turn)
      (s : Peer)
      → items b.workers ≡ w ∷ ws
      → t.crash_draw ≢ 0
      → t.overload_draw ≢ 0
      → t.interrupted ≡ false
      → (b₁ b₂ : Broker Carrier) × (s' : Peer) × (on_frontend Z clock C
            (arrived (request c id body))
            b
          ≡ running b₁)
        × (b₁.trace ≡ b.trace ++ to_backend (w.identity ∷ request c id body) ∷ [])
        × (on_message clock C t (request c id body) s ≡ running s')
        × (s'.trace ≡ s.trace ++ sent (request c id body) ∷ slept 1000 ∷ [])
        × (on_backend Z clock C (arrived (w.identity ∷ request c id body)) b₁ ≡ running b₂)
        × (b₂.trace ≡ b₁.trace ++ to_frontend (request c id body) ∷ [])
        × (items b₂.workers
            ≡ drop_id (C.strhex w.identity) ws ++ worker_new C w.identity (clock b₁.reads) ∷ [])
  request_round_trip c id body b w ws t s e h k q =
      let (b₁, sent_out, left, trace, _, _) =
        on_frontend_lem Z clock C b (request c id body) w ws e in
      let (s', served, log, _, _) = echo C clock t (request c id body) s refl h k q in
      let (b₂, back, free, reply, _, _) =
        on_backend_lem Z clock C b₁ (w.identity ∷ request c id body) (request c id body) w.identity
          (C.unwrap-frame w.identity c id ([] ∷ body ∷ [])) in
      (
        b₁,
        b₂,
        s',
        sent_out,
        trace,
        served,
        log,
        back,
        reply,
        free
            ∙ ap
                (λ vs.
                  drop_id (C.strhex w.identity) vs ++ worker_new C w.identity (clock b₁.reads) ∷ [])
                left,
      )
