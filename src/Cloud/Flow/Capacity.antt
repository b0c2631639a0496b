-- ===== src/Cloud/Flow/Capacity.antt =====
-- The counter `capacity` and the list of free workers of src/cloud/lcflow.c go together.
use zmq_test.Common.{
  ℕ, ◌+◌, ◌<◌, ◌≡◌, ◌≢◌, refl, ap, ◌∙◌, ◌⊎◌, true, inl, inr, Option, none, some, Bool, ◌&&◌, List,
  [], ◌∷◌, tail, length, length-append, All, arith, ltb, ◌==◌, subst, Bool-cases, List-cases,
}
use native.Mathlib.Nat.{add_assoc, zero-add}
use zmq_test.Czmq.{Frame, Msg, Zmsg, Zlist, pop-cursor}
use zmq_test.Cloud.Flow.{
  Input, quiet, closed, arrived, Round, Turn, to_cloudfe, to_cloudbe, to_localfe, to_localbe,
  Broker, is_ready, names_peer, from_worker, from_cloud, on_backends, route, to_worker, serve,
  drain, turn, run, start,
}
use zmq_test.Cloud.Flow.Traffic.{
  dispatched, dispatched-append, get_elem?-some, Well, Well-bind, IsBackend, IsFrontend, HasFrame,
  HasFrame-if, messages, local_messages, taken-cases,
}

module _ (C : Zmsg) (Z : Zlist Frame) (peers : List (List ℕ)) where
  open Z use {Carrier, items}

  -- The peer that is drawn exists, where one is drawn: there are peers, and the first draw is 0.
  abbrev pub IsDraw : Round → Type 0
  IsDraw r = (length peers ≡ 0) ⊎ (r.draw ≢ 0) ⊎ (r.peer_draw < length peers)

  -- A round of the inner loop in which no receive fails.
  abbrev pub IsRound : Round → Type 0
  IsRound r = IsFrontend r.cloudfe × IsFrontend r.localfe × IsDraw r

  abbrev pub IsTurn : Turn → Type 0
  IsTurn t = IsBackend C t.localbe × IsBackend C t.cloudbe × All IsRound t.rounds

  -- After n messages of local workers.
  pub record Inv (n : ℕ) (b : Broker Carrier) : Type 0 where
    pub counted : b.capacity ≡ length (items b.workers)
    pub balanced : dispatched b.trace + b.capacity ≡ n

  to_worker-Inv :
      (n : ℕ) (b : Broker Carrier) (m : Msg)
      → Inv n b
      → b.capacity ≢ 0
      → Well (Inv n) (to_worker C Z peers b m (Z.pop b.workers))
  unfolding to_worker
  to_worker-Inv n b m v h = elim (List-cases (items b.workers)) [
    | inl e ↦ absurd (h (v.counted ∙ ap length e))
    | inr (f, fs, e) ↦ rw (pop-cursor Z e) (record {
      counted =
          omega (arith, v.counted, ap length e, ap length (Z.items-pop b.workers ∙ ap tail e));
      balanced = omega (
        arith,
        v.counted,
        v.balanced,
        ap length e,
        dispatched-append b.trace (to_localbe (C.wrap m f) ∷ []),
      );
    })
  ]

  drawn_peer :
      (r : Round) (reroutable : Bool)
      → IsDraw r
      → (reroutable && ltb 2 (length peers + 2) && r.draw == 0) ≡ true
      → r.peer_draw < length peers
  drawn_peer r reroutable (inl e) away = ground arith
  drawn_peer r reroutable (inr (inl h)) away = ground arith
  drawn_peer r reroutable (inr (inr h)) away = h

  serve-Inv :
      (n : ℕ) (r : Round) (reroutable : Bool) (m : Msg) (b : Broker Carrier)
      → IsDraw r
      → Inv n b
      → b.capacity ≢ 0
      → Well (Inv n) (serve C Z peers r reroutable m b)
  unfolding serve
  serve-Inv n r reroutable m b d v h =
      elim (Bool-cases (reroutable && ltb 2 (length peers + 2) && r.draw == 0)) [
        | inl away ↦
            let (peer, e) = get_elem?-some peers r.peer_draw (drawn_peer r reroutable d away) in
            rw (away, e)
              (record {
                counted = v.counted;
                balanced = omega (
                  arith,
                  v.balanced,
                  dispatched-append b.trace (to_cloudbe (C.push m peer) ∷ []),
                );
              })
        | inr here ↦ rw here (to_worker-Inv n b m v h)
      ]

  drain-Inv :
      (n : ℕ) (b : Broker Carrier) (rs : List Round)
      → All IsRound rs
      → Inv n b
      → Well (Inv n) (drain C Z peers b rs)
  unfolding drain
  drain-Inv n b [] w v = v
  drain-Inv n b (r ∷ rs) w v = elim (Bool-cases (b.capacity == 0)) [
    | inl e ↦ rw e v
    | inr e ↦ elim (taken-cases r.cloudfe r.localfe w.0.0 w.0.1) [
      | inl none_left ↦ rw (e, none_left) v
      | inr (reroutable, m, got) ↦
          rw (e, got)
            (Well-bind (Inv n) (Inv n) (serve C Z peers r reroutable m b) _
              (serve-Inv n r reroutable m b w.0.2 v (ground arith)) (λ c k. drain-Inv n c rs w.1 k))
    ]
  ]

  on_backends-Inv :
      (n : ℕ) (b : Broker Carrier) (i j : Input)
      → IsBackend C i
      → IsBackend C j
      → Inv n b
      → Well (λ bm. Inv (n + messages i) bm.0 × HasFrame bm.1) (on_backends C Z peers b i j)
  unfolding on_backends from_worker from_cloud
  on_backends-Inv n b (arrived m) j (id, f, r, e) w v =
      rw (e, C.first-cons f r, from_worker)
        (
          record {
            counted = omega (
              arith,
              v.counted,
              ap length (Z.items-append b.workers id),
              length-append (items b.workers) (id ∷ []),
            );
            balanced = omega (arith, v.balanced);
          },
          HasFrame-if (is_ready f) f r,
        )
  on_backends-Inv n b closed j w x v = tt
  on_backends-Inv n b quiet (arrived m) x (id, f, r, e) v =
      rw e (record { counted = v.counted; balanced = omega (arith, v.balanced) }, tt)
  on_backends-Inv n b quiet closed x w v = tt
  on_backends-Inv n b quiet quiet x w v =
      (record { counted = v.counted; balanced = omega (arith, v.balanced) }, tt)

  route-Inv :
      (n : ℕ) (b : Broker Carrier) (o : Option Msg)
      → HasFrame o
      → Inv n b
      → Well (Inv n) (route C Z peers (b, o))
  unfolding route
  route-Inv n b none h v = v
  route-Inv n b (some []) h v = absurd h
  route-Inv n b (some (f ∷ r)) h v = elim (Bool-cases (names_peer peers f)) [
    | inl e ↦
        rw (C.first-cons f r, e, route)
          (record {
            counted = v.counted;
            balanced =
                omega (arith, v.balanced, dispatched-append b.trace (to_cloudfe (f ∷ r) ∷ []));
          })
    | inr e ↦
        rw (C.first-cons f r, e, route)
          (record {
            counted = v.counted;
            balanced =
                omega (arith, v.balanced, dispatched-append b.trace (to_localfe (f ∷ r) ∷ []));
          })
  ]

  turn-Inv :
      (n : ℕ) (b : Broker Carrier) (t : Turn)
      → IsTurn t
      → Inv n b
      → Well (Inv (n + messages t.localbe)) (turn C Z peers b t)
  unfolding turn
  turn-Inv n b t w v = elim (Bool-cases t.failed) [
    | inl e ↦ rw e tt
    | inr e ↦ rw e (
        Well-bind _ _ (on_backends C Z peers b t.localbe t.cloudbe) _
          (on_backends-Inv n b t.localbe t.cloudbe w.0 w.1 v)
          (λ bm h.
            Well-bind _ _ (route C Z peers bm) _ (route-Inv _ bm.0 bm.1 h.1 h.0)
              (λ c k. drain-Inv _ c t.rounds w.2 k)))
  ]

  run-Inv :
      (n : ℕ) (b : Broker Carrier) (ts : List Turn)
      → All IsTurn ts
      → Inv n b
      → Well (Inv (n + local_messages ts)) (run C Z peers b ts)
  unfolding run
  run-Inv n b [] w v = record { counted = v.counted; balanced = omega (arith, v.balanced) }
  run-Inv n b (t ∷ ts) w v =
      Well-bind (Inv (n + messages t.localbe)) (Inv (n + (messages t.localbe + local_messages ts)))
        (turn C Z peers b t) _ (turn-Inv n b t w.0 v)
        (λ c k.
          rw (← add_assoc n (messages t.localbe) (local_messages ts))
            (run-Inv (n + messages t.localbe) c ts w.1 k))

  -- If every message from behind has an envelope and a frame, no receive of the inner loop fails
  -- and every peer that is drawn exists (with no peers none is drawn), the program uses no NULL. As long as it goes on,
  -- `capacity` is the length of the list of free workers, and together with the number of requests
  -- that have gone to local workers it makes up the number of messages that local workers sent.
  pub run-Counted :
      (ts : List Turn)
      → All IsTurn ts
      → Well (Inv (local_messages ts)) (run C Z peers (start C Z peers) ts)
  unfolding start
  run-Counted ts w =
      subst (λ n. Well (Inv n) (run C Z peers (start C Z peers) ts)) (zero-add (local_messages ts))
        (run-Inv 0 _ ts w
          (record { counted = omega (arith, ap length Z.items-empty); balanced = refl }))
