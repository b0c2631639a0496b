-- ===== src/Cloud/Full/Bursts.antt =====
-- The client task of src/cloud/full.c when its tasks come back, up to one.
use zmq_test.Common.{
  ℕ, zero, suc, ◌+◌, ◌-◌, ◌≤◌, ◌<◌, ◌≡◌, refl, sym, ap, ◌∙◌, some, List, [], ◌∷◌, ◌++◌,
  append_assoc, append-nil, arith, streq_self, inl, inr, ltb, Bool-cases,
}
use mathlib.Core.Path.{ap₂}
use zmq_test.Base.Random.{randof}
use zmq_test.Cloud.Full.{
  Event, expired, readable, Client, running, ended, lost, start, on_event, burst_loop, client_task,
}

-- How many tasks the bursts have.
abbrev pub total : List ℕ → ℕ
total [] = 0
total (random ∷ randoms) = randof 15 random + total randoms

module _ (tasks : ℕ → List ℕ) where
  -- n tasks from the i-th on.
  abbrev pub ids : ℕ → ℕ → List (List ℕ)
  ids i zero = []
  ids i (suc n) = tasks i ∷ ids (i + 1) n

  -- The broker got these, the monitor those.
  abbrev pub after : Client → List (List ℕ) → List (List ℕ) → Client
  after self xs ys = record { sent = self.sent ++ xs; monitored = self.monitored ++ ys }

  after-nil : (self : Client) → self ≡ after self [] []
  after-nil self k = record {
    sent = sym (append-nil self.sent) k;
    monitored = sym (append-nil self.monitored) k;
  }

  after-after :
      (self : Client) (xs ys xs' ys' : List (List ℕ))
      → after (after self xs ys) xs' ys' ≡ after self (xs ++ xs') (ys ++ ys')
  after-after self xs ys xs' ys' k = record {
    sent = append_assoc self.sent xs xs' k;
    monitored = append_assoc self.monitored ys ys' k;
  }

  ids-append : (i n m j : ℕ) → j ≡ i + n → ids i n ++ ids j m ≡ ids i (n + m)
  ids-append i zero m j e =
      let here : j ≡ i = omega (arith, e) in
      let none_before : m ≡ 0 + m = omega arith in ap (λ k. ids k m) here ∙ ap (ids i) none_before
  ids-append i (suc n) m j e =
      let one_more : suc (n + m) ≡ suc n + m = omega arith in
      ap (◌∷◌ (tasks i)) (ids-append (i + 1) n m j (omega (arith, e))) ∙ ap (ids i) one_more

  module _ (env : ℕ → Event) where
    -- From the i-th on, and before the l-th, each task comes back.
    abbrev pub Returned : ℕ → ℕ → Type 0
    Returned i l = (j : ℕ) → i ≤ j → j < l → env j ≡ readable (some (tasks j))

    returned_task :
        (n i : ℕ) (self : Client)
        → env i ≡ readable (some (tasks i))
        → burst_loop tasks env (suc n) i self
          ≡ burst_loop tasks env n (i + 1) (after self (tasks i ∷ []) (tasks i ∷ []))
    unfolding burst_loop on_event
    returned_task n i self e = rw (e, streq_self (tasks i)) refl

    burst_loop-Returned :
        (n i l : ℕ) (self : Client)
        → l ≡ i + n
        → Returned i l
        → burst_loop tasks env n i self ≡ running l (after self (ids i n) (ids i n))
    unfolding burst_loop
    burst_loop-Returned zero i l self q h =
        ap (λ k. running k self) (omega (arith, q)) ∙ ap (running l) (after-nil self)
    burst_loop-Returned (suc n) i l self q h =
        returned_task n i self (h i (omega arith) (omega (arith, q)))
        ∙ burst_loop-Returned n (i + 1) l _ (omega (arith, q)) (λ j a b. h j (omega (arith, a)) b)
        ∙ ap (running l)
            (after-after self (tasks i ∷ []) (tasks i ∷ []) (ids (i + 1) n) (ids (i + 1) n))

    burst_loop-lost :
        (n i k l : ℕ) (self : Client)
        → l ≡ i + k
        → k < n
        → Returned i l
        → env l ≡ expired
        → burst_loop tasks env n i self
          ≡ ended (after self (ids i (suc k)) (ids i k ++ lost (tasks l) ∷ []))
    unfolding burst_loop on_event
    burst_loop-lost zero i k l self q b h e = absurd (omega (arith, b))
    burst_loop-lost (suc n) i zero l self q b h e =
        let here : i ≡ l = omega (arith, q) in rw (here, e) refl
    burst_loop-lost (suc n) i (suc k) l self q b h e =
        returned_task n i self (h i (omega arith) (omega (arith, q)))
        ∙ burst_loop-lost n (i + 1) k l _ (omega (arith, q)) (omega (arith, b))
            (λ j x y. h j (omega (arith, x)) y) e
        ∙ ap ended (after-after self (tasks i ∷ []) (tasks i ∷ []) _ _)

    client_task-Returned :
        (randoms : List ℕ) (i l : ℕ) (self : Client)
        → l ≡ i + total randoms
        → Returned i l
        → client_task tasks env randoms i self
          ≡ running l (after self (ids i (total randoms)) (ids i (total randoms)))
    unfolding client_task
    client_task-Returned [] i l self q h =
        let here : i ≡ l = omega (arith, q) in
        ap (λ k. running k self) here ∙ ap (running l) (after-nil self)
    client_task-Returned (random ∷ randoms) i l self q h =
        let n = randof 15 random in
        let xs = ids i n in
        rw (burst_loop-Returned n i (i + n) self refl (λ j a b. h j a (omega (arith, b, q)))) (
          client_task-Returned randoms (i + n) l (after self xs xs) (omega (arith, q))
            (λ j a b. h j (omega (arith, a)) b)
          ∙ ap (running l) (after-after self xs xs _ _)
          ∙ ap (λ zs. running l (after self zs zs)) (ids-append i n (total randoms) (i + n) refl))

    lost_from :
        (randoms : List ℕ) (i k l : ℕ) (self : Client)
        → l ≡ i + k
        → k < total randoms
        → Returned i l
        → env l ≡ expired
        → client_task tasks env randoms i self
          ≡ ended (after self (ids i (suc k)) (ids i k ++ lost (tasks l) ∷ []))
    unfolding client_task
    lost_from [] i k l self q b h e = absurd (omega (arith, b))
    lost_from (random ∷ randoms) i k l self q b h e = elim (Bool-cases (ltb k (randof 15 random))) [
      | inl now ↦
          rw (burst_loop-lost (randof 15 random) i k l self q (ground (arith, now)) h e) refl
      | inr later ↦
          let n = randof 15 random in
          let m = k - n in
          let xs = ids i n in
          let sum : n + m ≡ k = ground (arith, later) in
          let more : n + suc m ≡ suc k = omega (arith, sum) in
          rw (burst_loop-Returned n i (i + n) self refl (λ j x y. h j x (omega (arith, y, q, sum))))
            (lost_from randoms (i + n) m l (after self xs xs) (omega (arith, q, sum))
                (omega (arith, b, sum)) (λ j x y. h j (omega (arith, x)) y) e
              ∙ ap ended (after-after self xs xs _ _)
              ∙ ap₂ (λ us vs. ended (after self us vs))
                  (ids-append i n (suc m) (i + n) refl ∙ ap (ids i) more)
                  (sym (append_assoc xs (ids (i + n) m) (lost (tasks l) ∷ []))
                    ∙ ap (λ bs. bs ++ lost (tasks l) ∷ [])
                        (ids-append i n m (i + n) refl ∙ ap (ids i) sum)))
    ]

  -- However many bursts there are, if the l-th task is within them, each task before it comes back as
  -- it was sent, and the poll behind it times out, the client task has sent each task up to that one,
  -- once and in order, has told the monitor each one that came back, in order, and last that this one
  -- was lost, and has ended; no assertion failed.
  pub client_task-lost :
      (env : ℕ → Event) (randoms : List ℕ) (l : ℕ)
      → l < total randoms
      → Returned env 0 l
      → env l ≡ expired
      → client_task tasks env randoms 0 start
        ≡ ended (record { sent = ids 0 (suc l); monitored = ids 0 l ++ lost (tasks l) ∷ [] })
  client_task-lost env randoms l h r e = lost_from env randoms 0 l l start (omega arith) h r e
