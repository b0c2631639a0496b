-- ===== src/Lpp/Client/Retries.antt =====
-- How often the client tries.
use zmq_test.Common.{
  ℕ, zero, suc, ◌+◌, ◌-◌, ◌≤◌, ◌≡◌, ◌⊎◌, refl, sym, ap, ◌∙◌, inl, inr, none, some, Bool, true,
  false, ◌||◌, List, [], ◌∷◌, ◌++◌, append_assoc, append-nil, All, arith, ◌==◌, Bool-cases, ◌^◌,
  ◌<◌, length, subst,
}
use zmq_test.Base.Numbers.{Decimals}
use zmq_test.Lpp.Client.{
  request_retries, Effect, closed, connected, sent, Phase, waiting, finished, Client, Poll, failed,
  expired, readable, Round, next_request, on_reply, on_silence, round, run, start,
}

-- n more tries of a request.
abbrev pub tries : List ℕ → ℕ → List Effect
tries request zero = []
tries request (suc n) = closed ∷ connected ∷ sent request ∷ tries request n

module _ (D : Decimals) where
  -- The client has tries left when it waits, never more than three, and sent what it waits for last.
  pub record IsPatient (s : Client) : Type 0 where
    pub few : s.retries_left ≤ request_retries
    pub some_left : s.phase ≡ waiting → 1 ≤ s.retries_left
    pub last_sent :
        s.phase ≡ waiting
        → (before : List Effect) × (s.trace ≡ before ++ sent (D.print s.sequence) ∷ [])

  next_request-IsPatient :
      (s : Client) (b : Bool) → s.retries_left ≤ request_retries → IsPatient (next_request D b s)
  unfolding next_request
  next_request-IsPatient s b h = elim (Bool-cases (s.retries_left == 0 || b)) [
    | inl e ↦ rw e (record { few = h; some_left = λ p. cc; last_sent = λ p. cc })
    | inr e ↦
        rw e (record { few = h; some_left = λ p. ground arith; last_sent = λ p. (s.trace, refl) })
  ]

  on_silence-IsPatient :
      (s : Client) (b : Bool) → s.phase ≡ waiting → IsPatient s → IsPatient (on_silence D s b)
  unfolding on_silence
  on_silence-IsPatient s b w v = elim (Bool-cases (s.retries_left - 1 == 0)) [
    | inl e ↦ rw e (next_request-IsPatient (record s { retries_left = 0 }) b (omega arith))
    | inr e ↦ rw e (record {
      few = omega (arith, v.few);
      some_left = λ p. ground arith;
      last_sent = λ p. (
        s.trace ++ closed ∷ connected ∷ [],
        sym (append_assoc s.trace (closed ∷ connected ∷ []) _),
      );
    })
  ]

  on_reply-IsPatient :
      (s : Client) (b : Bool) (reply : List ℕ) → IsPatient s → IsPatient (on_reply D s b reply)
  unfolding on_reply
  on_reply-IsPatient s b reply v = elim (Bool-cases (D.atoi reply == s.sequence)) [
    | inl e ↦
        rw e (next_request-IsPatient (record s { retries_left = request_retries }) b (omega arith))
    | inr e ↦ rw e v
  ]

  round-IsPatient :
      (s : Client) (r : Round) → s.phase ≡ waiting → IsPatient s → IsPatient (round D s r)
  unfolding round
  round-IsPatient s r w v = go r.poll
    where
      go :
          (p : Poll)
          → IsPatient (elim p [
            | failed ↦ next_request D r.interrupted s
            | expired ↦ on_silence D s r.interrupted
            | readable none ↦ next_request D r.interrupted s
            | readable (some reply) ↦ on_reply D s r.interrupted reply
          ])
      go failed = next_request-IsPatient s r.interrupted v.few
      go expired = on_silence-IsPatient s r.interrupted w v
      go (readable none) = next_request-IsPatient s r.interrupted v.few
      go (readable (some reply)) = on_reply-IsPatient s r.interrupted reply v

  pub Phase-cases : (p : Phase) → (p ≡ waiting) ⊎ (p ≡ finished)
  Phase-cases waiting = inl refl
  Phase-cases finished = inr refl

  -- A waiting client takes up a round.
  pub run-waiting :
      (s : Client) (r : Round) (rs : List Round)
      → s.phase ≡ waiting
      → run D s (r ∷ rs) ≡ run D (round D s r) rs
  unfolding run
  run-waiting s r rs w = rw w refl

  pub run-finished : (s : Client) (rs : List Round) → s.phase ≡ finished → run D s rs ≡ s
  unfolding run
  run-finished s [] w = refl
  run-finished s (r ∷ rs) w = rw w refl

  run-keeps : (s : Client) (rs : List Round) → IsPatient s → IsPatient (run D s rs)
  unfolding run
  run-keeps s [] v = v
  run-keeps s (r ∷ rs) v = elim (Phase-cases s.phase) [
    | inl w ↦
        subst IsPatient (sym (run-waiting s r rs w))
          (run-keeps (round D s r) rs (round-IsPatient s r w v))
    | inr w ↦ subst IsPatient (sym (run-finished s (r ∷ rs) w)) v
  ]

  -- Whatever happens, the client of the program never has more than three tries left; while it
  -- waits it has at least one, so counting down does not pass 0, and what it sent last is the
  -- number of the request that it waits for.
  pub run-IsPatient :
      (interrupted : Bool) (rs : List Round) → IsPatient (run D (start D interrupted) rs)
  unfolding start
  run-IsPatient interrupted rs = run-keeps _ rs (
      next_request-IsPatient
        (record {
          phase = waiting;
          sequence = 0;
          retries_left = request_retries;
          trace = connected ∷ [];
        })
        interrupted (omega arith))

  -- The client that has given up after some things more.
  abbrev pub given_up : Client → List Effect → Client
  given_up s es = record s { phase = finished; retries_left = 0; trace = s.trace ++ es }

  round-last :
      (s : Client) (r : Round)
      → r.poll ≡ expired
      → s.retries_left ≡ 1
      → round D s r ≡ record s { phase = finished; retries_left = 0 }
  unfolding round
  round-last s r e q = rw (e, q) refl

  round-again :
      (s : Client) (r : Round) (k : ℕ)
      → r.poll ≡ expired
      → s.retries_left ≡ suc (suc k)
      → round D s r
        ≡ record s { retries_left = suc k; trace = s.trace ++ tries (D.print s.sequence) 1 }
  unfolding round
  round-again s r k e q =
      let more : (suc (suc k) - 1 == 0) ≡ false = ground arith in
      let fewer : suc (suc k) - 1 ≡ suc k = omega arith in
      rw (e, q, more)
        (ap (λ n. record s { retries_left = n; trace = s.trace ++ tries (D.print s.sequence) 1 })
          fewer)

  -- A waiting client with k + 1 tries left that hears nothing in k + 1 rounds, and in no more,
  -- sends its request k times more, each on a new connection, and then finishes.
  pub run-expired :
      (k : ℕ) (s : Client) (rs : List Round)
      → All (λ r. r.poll ≡ expired) rs
      → length rs ≡ suc k
      → s.phase ≡ waiting
      → s.retries_left ≡ suc k
      → run D s rs ≡ given_up s (tries (D.print s.sequence) k)
  run-expired k s [] e n w q = absurd (omega arith)
  run-expired zero s (r ∷ x ∷ rs) e n w q = absurd (omega arith)
  run-expired zero s (r ∷ []) e n w q =
      run-waiting s r [] w
      ∙ ap (λ t. run D t []) (round-last s r e.0 q)
      ∙ run-finished _ [] refl
      ∙ ap (λ t. record s { phase = finished; retries_left = 0; trace = t })
          (sym (append-nil s.trace))
  run-expired (suc k) s (r ∷ rs) e n w q =
      let again = tries (D.print s.sequence) 1 in
      run-waiting s r rs w
      ∙ ap (λ t. run D t rs) (round-again s r k e.0 q)
      ∙ run-expired k (record s { retries_left = suc k; trace = s.trace ++ again }) rs e.1
          (omega arith) w refl
      ∙ ap (λ t. record s { phase = finished; retries_left = 0; trace = t })
          (append_assoc s.trace again (tries (D.print s.sequence) k))

  -- The right number, without an interrupt.
  pub round-reply :
      (c : Client)
      → c.phase ≡ waiting
      → c.sequence < 2 ^ 31
      → round D c (record { poll = readable (some (D.print c.sequence)); interrupted = false })
        ≡ record c {
          retries_left = 3;
          sequence = c.sequence + 1;
          trace = c.trace ++ sent (D.print (c.sequence + 1)) ∷ [];
        }
  unfolding round
  round-reply c w small =
      let same : (D.atoi (D.print c.sequence) == c.sequence) ≡ true =
        rw (D.atoi-print c.sequence small) (ground arith) in
      rw same (
        ap
          (λ p. record c {
            phase = p;
            retries_left = 3;
            sequence = c.sequence + 1;
            trace = c.trace ++ sent (D.print (c.sequence + 1)) ∷ [];
          })
          (sym w))
