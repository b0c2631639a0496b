-- ===== src/Mdp/Examples/Echo.antt =====
-- How far src/MDP/client.c gets.
use zmq_test.Common.{
  ℕ, suc, ◌+◌, ◌≤◌, ◌<◌, ◌≡◌, ◌⊎◌, refl, ap, ◌∙◌, subst, some, Bool, true, List, [], ◌∷◌, ◌++◌,
  length, ◌-◌, arith,
}
use zmq_test.Czmq.{Frame, Msg, Zmsg}
use zmq_test.Mdp.Client
use zmq_test.Mdp.Client.{Session, Effect, sent, Round, returned, gave_up}
use zmq_test.Mdp.Client.Sends.{
  tries, silent, answered, after, after-nil, after-after, request, send-silent, send-answered,
}
use zmq_test.Mdp.Worker
use zmq_test.Mdp.Worker.Replying.{first_recv}
use zmq_test.Mdp.Client.Replies.{new_session}
use zmq_test.Mdp.Examples.{
  broker, service, hello_world, processed, on_result, client_loop, client_main, worker_main,
}

abbrev pub call : Msg
call = request service (hello_world ∷ [])

-- What a call sends that is answered in its k-th round, or never.
abbrev pub attempt : ℕ → List Effect
attempt k = tries broker call k ++ sent call ∷ []

-- What the calls send, each answered in round k, two at most.
abbrev pub attempts : List ℕ → List Effect
attempts [] = []
attempts (k ∷ ks) = attempt k ++ attempts ks

-- From call n on, the calls are answered in these rounds.
abbrev pub Answers : (ℕ → ℕ → Round) → ℕ → List ℕ → Type 0
Answers env n [] = Unit
Answers env n (k ∷ ks) =
    (k ≤ 2)
    × ((j : ℕ) → j < k → env n j ≡ silent)
    × ((f : Frame) × (m : Msg) × (env n k ≡ answered (some (request service (f ∷ m)))))
    × Answers env (n + 1) ks

module _ (C : Zmsg) (env : ℕ → ℕ → Round) where
  send-hello :
      (n : ℕ) (self : Session)
      → Client.send C (env n) self service (C.push [] hello_world)
        ≡ Client.send C (env n) self service (hello_world ∷ [])
  send-hello n self = ap (Client.send C (env n) self service) (C.push_lem [] hello_world)

  answered_call :
      (left n k : ℕ) (self : Session) (f : Frame) (m : Msg)
      → self.client ≡ true
      → self.retries ≡ 3
      → self.broker ≡ broker
      → k ≤ 2
      → ((j : ℕ) → j < k → env n j ≡ silent)
      → env n k ≡ answered (some (request service (f ∷ m)))
      → client_loop C env (suc left) n self
        ≡ client_loop C env left (n + 1) (after self (attempt k))
  unfolding client_loop on_result
  answered_call left n k self f m c r b h q e =
      rw
        (
          send-hello n self,
          send-answered C (env n) self service (hello_world ∷ []) k (2 - k) f m c
              (omega (arith, h, r)) q e,
          b,
        )
        refl

  answered_calls :
      (ks : List ℕ) (left n l : ℕ) (self : Session)
      → l ≡ n + length ks
      → self.client ≡ true
      → self.retries ≡ 3
      → self.broker ≡ broker
      → Answers env n ks
      → client_loop C env (length ks + left) n self
        ≡ client_loop C env left l (after self (attempts ks))
  answered_calls [] left n l self q c r b a =
      let none_more : 0 + left ≡ left = omega arith in
      let here : n ≡ l = omega (arith, q) in
      ap (λ x. client_loop C env x n self) none_more
      ∙ ap (λ x. client_loop C env left x self) here
      ∙ ap (client_loop C env left l) (after-nil self c)
  answered_calls (k ∷ ks) left n l self q c r b (h, s, (f, m, e), a) =
      let one_more : suc (length ks) + left ≡ suc (length ks + left) = omega arith in
      ap (λ x. client_loop C env x n self) one_more
      ∙ answered_call (length ks + left) n k self f m c r b h s e
      ∙ answered_calls ks left (n + 1) l (after self (attempt k)) (omega (arith, q)) refl r b a
      ∙ ap (client_loop C env left l) (after-after self (attempt k) (attempts ks))

  silent_call :
      (left n : ℕ) (self : Session)
      → self.client ≡ true
      → self.retries ≡ 3
      → self.broker ≡ broker
      → ((j : ℕ) → j < 3 → env n j ≡ silent)
      → client_loop C env (suc left) n self ≡ processed n (after self (attempt 2))
  unfolding client_loop on_result
  silent_call left n self c r b q =
      rw (send-hello n self, send-silent C (env n) self service (hello_world ∷ []) 2 c r q, b) refl

  loop-stops :
      (ks : List ℕ) (left : ℕ) (self : Session)
      → self.client ≡ true
      → self.retries ≡ 3
      → self.broker ≡ broker
      → Answers env 0 ks
      → ((j : ℕ) → j < 3 → env (length ks) j ≡ silent)
      → client_loop C env (length ks + suc left) 0 self
        ≡ processed (length ks) (after self (attempts ks ++ attempt 2))
  loop-stops ks left self c r b a q =
      let l : length ks ≡ 0 + length ks = omega arith in
      answered_calls ks (suc left) 0 (length ks) self l c r b a
      ∙ silent_call left (length ks) (after self (attempts ks)) refl r b q
      ∙ ap (processed (length ks)) (after-after self (attempts ks) (attempt 2))

  -- If the first calls are answered, each in one of its three rounds after silent ones, and the call
  -- behind them stays silent, `main` of client.c has processed as many calls as were answered: it sent
  -- the request once more in each call than there were silent rounds in it, each time but the first on
  -- a new connection, three times in the last call, and ended. No assertion failed.
  pub client_main-stops :
      (verbose : Bool) (ks : List ℕ)
      → length ks < 100000
      → Answers env 0 ks
      → ((j : ℕ) → j < 3 → env (length ks) j ≡ silent)
      → client_main C env verbose
        ≡ processed (length ks) (after (Client.new broker verbose) (attempts ks ++ attempt 2))
  unfolding client_main
  client_main-stops verbose ks h a q =
      let session = Client.new broker verbose in
      let (c, r, b) = new_session broker verbose in
      let whole : length ks + suc (99999 - length ks) ≡ 100000 = omega (arith, h) in
      subst
        (λ x.
          client_loop C env x 0 session
          ≡ processed (length ks) (after session (attempts ks ++ attempt 2)))
        whole (loop-stops ks (99999 - length ks) session c r b a q)

module _ (C : Zmsg) (clock : ℕ → ℕ) where
  -- The worker never gets past its first call, in which it sends nothing.
  pub worker_main-idle :
      (verbose : Bool) (polls : List Worker.Poll)
      → (worker_main C clock verbose polls
          ≡ Worker.waiting
              (record (Worker.new C clock broker service verbose) { expect_reply = true }))
        ⊎ (worker_main C clock verbose polls
            ≡ Worker.no_result
                (record (Worker.new C clock broker service verbose) { expect_reply = true }))
  unfolding worker_main
  worker_main-idle verbose polls = first_recv C clock broker service verbose polls
