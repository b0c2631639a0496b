-- ===== src/Cloud/Flow/Exchange.antt =====
-- Two brokers of src/cloud/lcflow.c, where the one gives a request of its clients to the other.
use zmq_test.Common.{
  ℕ, ◌+◌, ◌-◌, ◌≤◌, ◌≡◌, refl, ap, ◌∙◌, some, true, false, ◌&&◌, List, [], ◌∷◌, ◌++◌, tail, length,
  get_elem?, arith, ltb, ◌==◌,
}
use zmq_test.Czmq.{Frame, Msg, Zmsg, Zlist, pop-cursor}
use zmq_test.Cloud.Flow.{
  quiet, arrived, Turn, Broker, running, log, to_cloudfe, to_cloudbe, to_localfe, to_localbe,
  names_peer, is_ready, taken, on_backends, from_worker, from_cloud, route, serve, to_peer,
  to_worker, drain, turn,
}
use zmq_test.Cloud.Flow.Tasks.{ok, answer, answer-last}

-- A turn with one message for the frontends, and one with a message from behind.
abbrev pub local_request : Msg → ℕ → Turn
local_request m peer_draw = record {
  failed = false;
  localbe = quiet;
  cloudbe = quiet;
  rounds = record { cloudfe = quiet; localfe = arrived m; draw = 0; peer_draw = peer_draw } ∷ [];
}

abbrev pub cloud_request : Msg → Turn
cloud_request m = record {
  failed = false;
  localbe = quiet;
  cloudbe = quiet;
  rounds = record { cloudfe = arrived m; localfe = quiet; draw = 0; peer_draw = 0 } ∷ [];
}

abbrev pub local_reply : Msg → Turn
local_reply m = record { failed = false; localbe = arrived m; cloudbe = quiet; rounds = [] }

abbrev pub cloud_reply : Msg → Turn
cloud_reply m = record { failed = false; localbe = quiet; cloudbe = arrived m; rounds = [] }

drawn :
    (peers : List (List ℕ)) (i : ℕ) (peer : List ℕ)
    → get_elem? peers i ≡ some peer
    → 1 ≤ length peers
drawn [] i peer e = cc
drawn (p ∷ peers) i peer e = omega arith

module _ (C : Zmsg) (Z : Zlist Frame) where
  open Z use {Carrier, items}

  -- With room for work and the draw for the cloud, a local request goes to the peer that is drawn.
  pub turn-local_request :
      (peers : List (List ℕ)) (b : Broker Carrier) (m : Msg) (i : ℕ) (peer : List ℕ)
      → 1 ≤ b.capacity
      → 1 ≤ length peers
      → get_elem? peers i ≡ some peer
      → turn C Z peers b (local_request m i) ≡ running (log b (to_cloudbe (peer ∷ m)))
  unfolding turn on_backends route drain taken serve to_peer
  turn-local_request peers b m i peer room some_peer e =
      let open_ : (b.capacity == 0) ≡ false = ground arith in
      let away : (ltb 2 (length peers + 2) && true) ≡ true = ground arith in
      rw (open_, away, e, C.push_lem m peer) refl

  -- A request from the cloud goes to the worker that has been free longest.
  pub turn-cloud_request :
      (peers : List (List ℕ)) (b : Broker Carrier) (m : Msg) (w : Frame) (ws : List Frame)
      → 1 ≤ b.capacity
      → items b.workers ≡ w ∷ ws
      → (d : Broker Carrier) × (turn C Z peers b (cloud_request m) ≡ running d)
        × (items d.workers ≡ ws)
        × (d.trace ≡ b.trace ++ to_localbe (w ∷ [] ∷ m) ∷ [])
  unfolding turn on_backends route drain taken serve to_worker
  turn-cloud_request peers b m w ws room e =
      let open_ : (b.capacity == 0) ≡ false = ground arith in
      (
        record {
          capacity = b.capacity - 1;
          workers = (Z.pop b.workers).1;
          trace = b.trace ++ to_localbe (C.wrap m w) ∷ [];
        },
        rw (open_, pop-cursor Z e) refl,
        Z.items-pop b.workers ∙ ap tail e,
        ap (λ r. b.trace ++ to_localbe r ∷ []) (C.wrap_lem m w),
      )

  on_backends-answer :
      (peers : List (List ℕ)) (b : Broker Carrier) (w f : Frame) (m : Msg)
      → is_ready f ≡ false
      → on_backends C Z peers b (arrived (w ∷ [] ∷ f ∷ m)) quiet
        ≡ running
            (record b { workers = Z.append b.workers w; capacity = b.capacity + 1 }, some (f ∷ m))
  unfolding on_backends from_worker
  on_backends-answer peers b w f m r =
      rw (C.unwrap-empty w (f ∷ m), C.first-cons f m, r, from_worker) refl

  route-named :
      (peers : List (List ℕ)) (b : Broker Carrier) (f : Frame) (m : Msg)
      → names_peer peers f ≡ true
      → route C Z peers (b, some (f ∷ m)) ≡ running (log b (to_cloudfe (f ∷ m)))
  unfolding route
  route-named peers b f m e = rw (C.first-cons f m, e, route) refl

  -- The answer of a worker goes to the cloud if a peer has the name that it starts with, and the
  -- worker is free again.
  pub turn-local_reply :
      (peers : List (List ℕ)) (b : Broker Carrier) (w peer : Frame) (m : Msg)
      → is_ready peer ≡ false
      → names_peer peers peer ≡ true
      → (d : Broker Carrier) × (turn C Z peers b (local_reply (w ∷ [] ∷ peer ∷ m)) ≡ running d)
        × (items d.workers ≡ items b.workers ++ w ∷ [])
        × (d.capacity ≡ b.capacity + 1)
        × (d.trace ≡ b.trace ++ to_cloudfe (peer ∷ m) ∷ [])
  unfolding turn drain
  turn-local_reply peers b w peer m r e = (
    record {
      capacity = b.capacity + 1;
      workers = Z.append b.workers w;
      trace = b.trace ++ to_cloudfe (peer ∷ m) ∷ [];
    },
    rw
        (
          on_backends-answer peers b w peer m r,
          route-named peers (record b { workers = Z.append b.workers w; capacity = b.capacity + 1 })
              peer m e,
        )
        refl,
    Z.items-append b.workers w,
    refl,
    refl,
  )

  -- An answer from the cloud goes to the local clients if no peer has the name behind the peer's.
  pub turn-cloud_reply :
      (peers : List (List ℕ)) (b : Broker Carrier) (peer : Frame) (x : ℕ) (client : Frame) (m : Msg)
      → names_peer peers (x ∷ client) ≡ false
      → turn C Z peers b (cloud_reply (peer ∷ (x ∷ client) ∷ m))
        ≡ running (log b (to_localfe ((x ∷ client) ∷ m)))
  unfolding turn on_backends from_cloud route drain
  turn-cloud_reply peers b peer x client m e =
      rw (C.unwrap-frame peer x client m, C.first-cons (x ∷ client) m, e, route) refl

  -- A broker of src/cloud/lcflow.c with a capacity that is not 0, whose own name does not start with
  -- the byte 1, draws a peer for a request of a client and gives it the request. The peer has this
  -- broker for a peer, a capacity that is not 0 and a free worker. The worker that has been free
  -- longest there gets the request behind the name of the broker that it comes from. Its answer,
  -- which has OK for the last frame, makes it free again, goes back to that broker, and from there to
  -- the client, if the client's name is not empty and no peer of the broker has it.
  pub cloud_exchange :
      (self peer : Frame) (peers peers' : List (List ℕ)) (a : Broker Carrier) (b : Broker Carrier)
      (i x : ℕ) (name : Frame) (front : Msg) (text : Frame) (w : Frame) (ws : List Frame)
      → 1 ≤ a.capacity
      → 1 ≤ b.capacity
      → items b.workers ≡ w ∷ ws
      → get_elem? peers i ≡ some peer
      → names_peer peers' self ≡ true
      → names_peer peers (x ∷ name) ≡ false
      → is_ready self ≡ false
      → let request : Msg = (x ∷ name) ∷ front ++ text ∷ [] in
        let reply : Msg = (x ∷ name) ∷ front ++ ok ∷ [] in
        (b₁ : Broker Carrier) × (b₂ : Broker Carrier) × (turn C Z peers a (local_request request i)
          ≡ running (log a (to_cloudbe (peer ∷ request))))
        × (turn C Z peers' b (cloud_request (self ∷ request)) ≡ running b₁)
        × (b₁.trace ≡ b.trace ++ to_localbe (w ∷ [] ∷ self ∷ request) ∷ [])
        × (answer (self ∷ request) ≡ some (text, self ∷ reply))
        × (turn C Z peers' b₁ (local_reply (w ∷ [] ∷ self ∷ reply)) ≡ running b₂)
        × (b₂.trace ≡ b₁.trace ++ to_cloudfe (self ∷ reply) ∷ [])
        × (items b₂.workers ≡ ws ++ w ∷ [])
        × (turn C Z peers (log a (to_cloudbe (peer ∷ request))) (cloud_reply (peer ∷ reply))
            ≡ running (log (log a (to_cloudbe (peer ∷ request))) (to_localfe reply)))
  cloud_exchange self peer peers peers' a b i x name front text w ws room room' free e named other
        r =
      let request : Msg = (x ∷ name) ∷ front ++ text ∷ [] in
      let (b₁, served, left, given) =
        turn-cloud_request peers' b (self ∷ request) w ws room' free in
      let (b₂, heard, back, _, passed) =
        turn-local_reply peers' b₁ w self ((x ∷ name) ∷ front ++ ok ∷ []) r named in
      (
        b₁,
        b₂,
        turn-local_request peers a request i peer room (drawn peers i peer e) e,
        served,
        given,
        answer-last (self ∷ (x ∷ name) ∷ front) text,
        heard,
        passed,
        back ∙ ap (λ l. l ++ w ∷ []) left,
        turn-cloud_reply peers (log a (to_cloudbe (peer ∷ request))) peer x name (front ++ ok ∷ [])
            other,
      )
