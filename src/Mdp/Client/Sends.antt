-- ===== src/Mdp/Client/Sends.antt =====
-- How often `mdcli_send` sends a request.
use zmq_test.Common.{
  ℕ, zero, suc, ◌+◌, ◌<◌, ◌≡◌, refl, sym, ap, ◌∙◌, subst, Option, some, true, false, List, [], ◌∷◌,
  ◌++◌, append_assoc, append-nil, ◌==◌, if◌then◌else◌, arith,
}
use zmq_test.Czmq.{Frame, Msg, Zmsg}
use zmq_test.Mdp.Client.Replies.{receive-valid}
use zmq_test.Mdp.Client.{
  mdpc_client, Effect, closed, connected, sent, Session, connect_to_broker, expired, readable,
  Round, returned, gave_up, receive, send_loop, send,
}

-- n times a request and a new connection after it.
abbrev pub tries : List ℕ → Msg → ℕ → List Effect
tries broker m zero = []
tries broker m (suc n) = sent m ∷ closed ∷ connected broker ∷ tries broker m n

abbrev pub silent : Round
silent = record { interrupted = false; poll = expired }

abbrev pub answered : Option Msg → Round
answered reply = record { interrupted = false; poll = readable reply }

-- A session with a socket, with some things done after its own.
abbrev pub after : Session → List Effect → Session
after self trace = record self { client = true; trace = self.trace ++ trace }

pub after-nil : (self : Session) → self.client ≡ true → self ≡ after self []
after-nil self c i = record {
  broker = self.broker;
  client = c i;
  verbose = self.verbose;
  timeout = self.timeout;
  retries = self.retries;
  trace = sym (append-nil self.trace) i;
}

pub after-after :
    (self : Session) (t u : List Effect) → after (after self t) u ≡ after self (t ++ u)
after-after self t u =
    ap (λ x. record self { client = true; trace = x }) (append_assoc self.trace t u)

connect-after :
    (self : Session) (m : Msg)
    → self.client ≡ true
    → connect_to_broker (record self { trace = self.trace ++ sent m ∷ [] })
      ≡ after self (tries self.broker m 1)
unfolding connect_to_broker
connect-after self m c = rw c (
    ap (λ x. record self { client = true; trace = x })
      (append_assoc self.trace (sent m ∷ []) (closed ∷ connected self.broker ∷ [])))

module _ (C : Zmsg) (env : ℕ → Round) (service : List ℕ) (m : Msg) where
  -- A silent round.
  expired_round :
      (left i : ℕ) (self : Session)
      → env i ≡ silent
      → send_loop C env (suc left) i self service m ≡ (
          if left == 0
          then gave_up (record self { trace = self.trace ++ sent m ∷ [] })
          else send_loop C env left
              (suc i)
              (connect_to_broker (record self { trace = self.trace ++ sent m ∷ [] }))
              service
              m)
  unfolding send_loop
  expired_round left i self q = rw q refl

  last_round :
      (i : ℕ) (self : Session)
      → env i ≡ silent
      → send_loop C env 1 i self service m
        ≡ gave_up (record self { trace = self.trace ++ sent m ∷ [] })
  last_round i self q = expired_round 0 i self q

  -- One that is not the last.
  silent_round :
      (left i : ℕ) (self : Session)
      → self.client ≡ true
      → env i ≡ silent
      → send_loop C env (suc (suc left)) i self service m
        ≡ send_loop C env (suc left) (suc i) (after self (tries self.broker m 1)) service m
  silent_round left i self c q =
      let more : (suc left == 0) ≡ false = ground arith in
      expired_round (suc left) i self q ∙ rw (more, connect-after self m c) refl

  -- One with something to read.
  answered_round :
      (left i : ℕ) (self : Session) (reply : Option Msg)
      → env i ≡ answered reply
      → send_loop C env (suc left) i self service m
        ≡ receive C (record self { trace = self.trace ++ sent m ∷ [] }) service reply
  unfolding send_loop
  answered_round left i self reply q = rw q refl

  send_loop-eq :
      {l l' i i' : ℕ} {s s' : Session}
      → l ≡ l'
      → i ≡ i'
      → s ≡ s'
      → send_loop C env l i s service m ≡ send_loop C env l' i' s' service m
  send_loop-eq p q r j = send_loop C env (p j) (q j) (r j) service m

  -- The loop after k silent rounds.
  send_loop-silent :
      (k left i : ℕ) (self : Session)
      → self.client ≡ true
      → ((j : ℕ) → j < k → env (i + j) ≡ silent)
      → send_loop C env (k + suc left) i self service m
        ≡ send_loop C env (suc left) (i + k) (after self (tries self.broker m k)) service m
  send_loop-silent zero left i self c q =
      send_loop-eq (omega arith) (omega arith) (after-nil self c)
  send_loop-silent (suc k) left i self c q =
      let one = tries self.broker m 1 in
      let s' = after self one in
      let first : env i ≡ silent = subst (λ n. env n ≡ silent) (omega arith) (q 0 (omega arith)) in
      let later : (j : ℕ) → j < k → env (suc i + j) ≡ silent =
        λ j h. subst (λ n. env n ≡ silent) (omega arith) (q (suc j) (omega arith)) in
      send_loop-eq (omega arith) refl refl
      ∙ silent_round (k + left) i self c first
      ∙ send_loop-eq (omega arith) refl refl
      ∙ send_loop-silent k left (suc i) s' refl later
      ∙ send_loop-eq refl (omega arith) (after-after self one (tries self.broker m k))

-- The message that goes out.
abbrev pub request : List ℕ → Msg → Msg
request service body = mdpc_client ∷ service ∷ body

module _ (C : Zmsg) (env : ℕ → Round) where
  -- The loop of a call that finds k silent rounds.
  send-loop :
      (self : Session) (service : List ℕ) (body : Msg) (k left : ℕ)
      → self.client ≡ true
      → self.retries ≡ k + suc left
      → ((j : ℕ) → j < k → env j ≡ silent)
      → send C env self service body
        ≡ send_loop C env
            (suc left)
            k
            (after self (tries self.broker (request service body) k))
            service
            (request service body)
  unfolding send
  send-loop self service body k left c r q =
      let m =
        C.push_lem (C.push body service) mdpc_client
        ∙ ap (λ x. mdpc_client ∷ x) (C.push_lem body service) in
      let there : (j : ℕ) → j < k → env (0 + j) ≡ silent =
        λ j h. subst (λ n. env n ≡ silent) (omega arith) (q j h) in
      ap (λ x. send_loop C env self.retries 0 self service x) m
      ∙ send_loop-eq C env service (request service body) r refl refl
      ∙ send_loop-silent C env service (request service body) k left 0 self c there
      ∙ ap
          (λ n.
            send_loop C env (suc left) n (after self (tries self.broker (request service body) k))
              service (request service body))
          (omega arith)

  sent_last :
      (self : Session) (m : Msg) (k : ℕ)
      → (record (after self (tries self.broker m k)) {
        trace = (self.trace ++ tries self.broker m k) ++ sent m ∷ [];
      })
        ≡ after self (tries self.broker m k ++ sent m ∷ [])
  sent_last self m k = after-after self (tries self.broker m k) (sent m ∷ [])

  -- If no round of the loop brings anything, a connected session with k + 1 retries sends the
  -- request k + 1 times, each on a new connection but the first, and gives up.
  pub send-silent :
      (self : Session) (service : List ℕ) (body : Msg) (k : ℕ)
      → self.client ≡ true
      → self.retries ≡ suc k
      → ((j : ℕ) → j < suc k → env j ≡ silent)
      → send C env self service body
        ≡ gave_up (
            after self
              (tries self.broker (request service body) k ++ sent (request service body) ∷ []))
  send-silent self service body k c r q =
      let m = request service body in
      send-loop self service body k 0 c (omega (arith, r)) (λ j h. q j (omega arith))
      ∙ last_round C env service m k (after self (tries self.broker m k)) (q k (omega arith))
      ∙ ap gave_up (sent_last self m k)

  -- If k rounds, fewer than the retries, bring nothing and the next one brings a reply of the
  -- service with a body, a connected session sends the request k + 1 times, each on a new
  -- connection but the first, and returns the body.
  pub send-answered :
      (self : Session) (service : List ℕ) (body : Msg) (k left : ℕ) (f : Frame) (reply : Msg)
      → self.client ≡ true
      → self.retries ≡ k + suc left
      → ((j : ℕ) → j < k → env j ≡ silent)
      → env k ≡ answered (some (request service (f ∷ reply)))
      → send C env self service body
        ≡ returned
            (after self
              (tries self.broker (request service body) k ++ sent (request service body) ∷ []))
            (f ∷ reply)
  send-answered self service body k left f reply c r q e =
      let m = request service body in
      send-loop self service body k left c r q
      ∙ answered_round C env service m left k (after self (tries self.broker m k))
          (some (request service (f ∷ reply))) e
      ∙ ap (λ s. receive C s service (some (request service (f ∷ reply)))) (sent_last self m k)
      ∙ receive-valid C (after self (tries self.broker m k ++ sent m ∷ [])) service f reply
