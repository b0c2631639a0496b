-- ===== src/Mdp/Client/Replies.antt =====
-- What `mdcli_send` accepts as a reply.
use zmq_test.Common.{
  ℕ, zero, suc, ◌+◌, ◌≤◌, ◌<◌, ◌≡◌, refl, ap, ◌∙◌, inl, inr, ◌⊎◌, Option, none, some, Bool, true,
  false, List, [], ◌∷◌, ◌++◌, ltb, ◌==◌, if◌then◌else◌, streq, streq_self, streq→eq, Bool-cases,
  length, arith, ◌&&◌,
}
use zmq_test.Czmq.{Frame, Msg, Zmsg}
use zmq_test.Mdp.Client.{
  mdpc_client, Session, connect_to_broker, Poll, failed, expired, readable, Round, returned, sent,
  gave_up, aborted, check_service, check_header, receive, send_loop, send, new,
}

pub Poll-cases : (p : Poll) → (p ≡ failed) ⊎ ((p ≡ expired) ⊎ ((r : Option Msg) × (p ≡ readable r)))
Poll-cases failed = inl refl
Poll-cases expired = inr (inl refl)
Poll-cases (readable r) = inr (inr (r, refl))

module _ (C : Zmsg) where
  pub receive-valid :
      (self : Session) (service f : Frame) (m : Msg)
      → receive C self service (some (mdpc_client ∷ service ∷ f ∷ m)) ≡ returned self (f ∷ m)
  unfolding receive check_header check_service
  receive-valid self service f m =
      let big : ltb (suc (suc (suc (length m)))) 3 ≡ false = ground arith in
      rw
        (
          C.size_lem (mdpc_client ∷ service ∷ f ∷ m),
          C.pop-cons mdpc_client (service ∷ f ∷ m),
          C.pop-cons service (f ∷ m),
          streq_self service,
          big,
        )
        refl

  pub receive-short :
      (self : Session) (service : List ℕ) (m : Msg)
      → length m < 3
      → receive C self service (some m) ≡ aborted
  unfolding receive
  receive-short self service m h =
      let small : ltb (length m) 3 ≡ true = ground arith in rw (C.size_lem m, small) refl

  -- A long enough reply, by its first two frames.
  pub receive-long :
      (self : Session) (service g h f : Frame) (m : Msg)
      → receive C self service (some (g ∷ h ∷ f ∷ m))
        ≡ (if streq g mdpc_client && streq h service then returned self (f ∷ m) else aborted)
  unfolding receive check_header check_service
  receive-long self service g h f m =
      let big : ltb (suc (suc (suc (length m)))) 3 ≡ false = ground arith in
      elim (Bool-cases (streq g mdpc_client)) [
        | inl p ↦
            rw (C.size_lem (g ∷ h ∷ f ∷ m), C.pop-cons g (h ∷ f ∷ m), C.pop-cons h (f ∷ m), p, big)
              refl
        | inr p ↦ rw (C.size_lem (g ∷ h ∷ f ∷ m), C.pop-cons g (h ∷ f ∷ m), p, big) refl
      ]

  -- A reply that is accepted has the header, the service and a body, which is what is returned.
  pub receive-returned :
      (self self' : Session) (service : List ℕ) (reply : Option Msg) (m : Msg)
      → receive C self service reply ≡ returned self' m
      → reply ≡ some (mdpc_client ∷ service ∷ m)
  unfolding receive
  receive-returned self self' service none m e = cc
  receive-returned self self' service (some []) m e =
      cc (receive-short self service [] (omega arith))
  receive-returned self self' service (some (g ∷ [])) m e =
      cc (receive-short self service (g ∷ []) (omega arith))
  receive-returned self self' service (some (g ∷ h ∷ [])) m e =
      cc (receive-short self service (g ∷ h ∷ []) (omega arith))
  receive-returned self self' service (some (g ∷ h ∷ f ∷ n)) m e =
      let l = receive-long self service g h f n in
      elim (Bool-cases (streq g mdpc_client)) [
        | inr p ↦ cc (rw p at l)
        | inl p ↦ elim (Bool-cases (streq h service)) [
          | inr q ↦ cc (rw (p, q) at l)
          | inl q ↦ cc (rw (p, q) at l, streq→eq g mdpc_client p, streq→eq h service q)
        ]
      ]

  module _ (env : ℕ → Round) where
    -- The poll of a round, not interrupted, from round i on and before round n.
    abbrev pub Answer : ℕ → ℕ → Option Msg → Type 0
    Answer i n reply =
        (j : ℕ) × (i ≤ j)
        × (j < n)
        × ((env j).interrupted ≡ false)
        × ((env j).poll ≡ readable reply)

    Answer-later : (i n : ℕ) (reply : Option Msg) → Answer (suc i) n reply → Answer i n reply
    Answer-later i n reply (j, h, b, p, q) = (j, omega arith, b, p, q)

    -- A round that is not interrupted.
    send_loop-round :
        (left i : ℕ) (self : Session) (service : List ℕ) (request : Msg)
        → (env i).interrupted ≡ false
        → send_loop C env (suc left) i self service request ≡ (elim (env i).poll [
          | failed ↦ gave_up (record self { trace = self.trace ++ sent request ∷ [] })
          | expired ↦
              if left == 0
              then gave_up (record self { trace = self.trace ++ sent request ∷ [] })
              else send_loop C env left
                  (suc i)
                  (connect_to_broker (record self { trace = self.trace ++ sent request ∷ [] }))
                  service
                  request
          | readable reply ↦
              receive C (record self { trace = self.trace ++ sent request ∷ [] }) service reply
        ])
    unfolding send_loop
    send_loop-round left i self service request h = rw h refl

    send_loop-interrupted :
        (left i : ℕ) (self : Session) (service : List ℕ) (request : Msg)
        → (env i).interrupted ≡ true
        → send_loop C env (suc left) i self service request ≡ gave_up self
    unfolding send_loop
    send_loop-interrupted left i self service request h = rw h refl

    send_loop-zero :
        (i : ℕ) (self : Session) (service : List ℕ) (request : Msg)
        → send_loop C env 0 i self service request ≡ gave_up self
    unfolding send_loop
    send_loop-zero i self service request = refl

    send_loop-returned :
        (left i : ℕ) (self self' : Session) (service : List ℕ) (request m : Msg)
        → send_loop C env left i self service request ≡ returned self' m
        → Answer i (i + left) (some (mdpc_client ∷ service ∷ m))
    send_loop-returned zero i self self' service request m e =
        cc (send_loop-zero i self service request)
    send_loop-returned (suc left) i self self' service request m e =
        let next = connect_to_broker (record self { trace = self.trace ++ sent request ∷ [] }) in
        let again = send_loop-returned left (suc i) next self' service request m in
        let round = send_loop-round left i self service request in
        elim (Bool-cases (env i).interrupted) [
          | inl h ↦ cc (send_loop-interrupted left i self service request h)
          | inr h ↦ elim (Poll-cases (env i).poll) [
            | inl p ↦ cc (rw p at round h)
            | inr (inl p) ↦ elim (Bool-cases (left == 0)) [
              | inl z ↦ cc (rw (p, z) at round h)
              | inr z ↦
                  let (j, a, b, q, r) = again (cc (rw (p, z) at round h)) in
                  (j, omega arith, omega arith, q, r)
            ]
            | inr (inr (reply, p)) ↦
                let back =
                  receive-returned (record self { trace = self.trace ++ sent request ∷ [] }) self'
                    service reply m (cc (rw p at round h)) in
                (i, omega arith, omega arith, h, p ∙ ap readable back)
          ]
        ]

    -- If a call returns a message, then in one of its rounds, of which there are as many as the
    -- retries at most, it read a reply that is the client header, the service and that message.
    pub send-returned :
        (self self' : Session) (service : List ℕ) (body m : Msg)
        → send C env self service body ≡ returned self' m
        → Answer 0 self.retries (some (mdpc_client ∷ service ∷ m))
    unfolding send
    send-returned self self' service body m e =
        let (j, a, b, q, r) =
          send_loop-returned self.retries 0 self self' service
            (C.push (C.push body service) mdpc_client) m e in
        (j, a, omega arith, q, r)

-- A new session has a socket and three tries.
pub new_session :
    (broker : List ℕ) (verbose : Bool)
    → ((new broker verbose).client ≡ true)
      × ((new broker verbose).retries ≡ 3)
      × ((new broker verbose).broker ≡ broker)
unfolding new connect_to_broker
new_session broker verbose = (refl, refl, refl)
