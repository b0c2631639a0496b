-- ===== src/Cloud/Flow/Routing.antt =====
-- Where src/cloud/lcflow.c sends a message, and when the choice of a peer goes wrong.
use zmq_test.Common.{
  ℕ, ◌+◌, ◌-◌, ◌≤◌, ◌<◌, ◌^◌, ◌≡◌, ◌≢◌, ◌⊎◌, refl, sym, ap, ◌∙◌, inl, inr, none, some, true, false,
  ◌&&◌, List, [], ◌∷◌, ◌++◌, length, get_elem?, All, arith, ltb, ◌==◌, Bool-cases, streq, streq→eq,
  streq→ne,
}
use zmq_test.Czmq.{Frame, Msg, Zmsg, Zlist}
use zmq_test.Base.Random.{randof}
use zmq_test.Base.Random.Range.{randof-last}
use zmq_test.Cloud.Flow.{
  Round, Broker, running, aborted, log, to_cloudfe, to_localfe, names_peer, route, serve,
}

pub names_peer_lem :
    (peers : List (List ℕ)) (f : Frame)
    → ((xs ys : List (List ℕ)) × (peers ≡ xs ++ f ∷ ys) × (names_peer peers f ≡ true))
      ⊎ (All (λ p. p ≢ f) peers × (names_peer peers f ≡ false))
unfolding names_peer
names_peer_lem [] f = inr (tt, refl)
names_peer_lem (p ∷ peers) f = elim (Bool-cases (streq f p)) [
  | inl e ↦ inl ([], peers, ap (λ q. q ∷ peers) (sym (streq→eq f p e)), rw e)
  | inr e ↦ elim (names_peer_lem peers f) [
    | inl (xs, ys, q, t) ↦ inl (p ∷ xs, ys, ap (◌∷◌ p) q, rw e t)
    | inr (none_of, t) ↦ inr (((λ q. streq→ne f p e (sym q)), none_of), rw e t)
  ]
]

get_elem?-past {ℓ} : {A : Type ℓ} (xs : List A) → get_elem? xs (length xs) ≡ none
get_elem?-past [] = refl
get_elem?-past (x ∷ xs) = get_elem?-past xs

module _ (C : Zmsg) (Z : Zlist Frame) (peers : List (List ℕ)) where
  open Z use {Carrier}

  -- A message goes out to the cloud if its first frame is the name of a peer, and to the local
  -- clients if it is the name of none; in both cases all of its frames go, and nothing else is
  -- sent.
  pub route_lem :
      (b : Broker Carrier) (f : Frame) (r : Msg)
      → ((xs ys : List (List ℕ)) × (peers ≡ xs ++ f ∷ ys)
          × (route C Z peers (b, some (f ∷ r)) ≡ running (log b (to_cloudfe (f ∷ r)))))
        ⊎ (All (λ p. p ≢ f) peers
            × (route C Z peers (b, some (f ∷ r)) ≡ running (log b (to_localfe (f ∷ r)))))
  unfolding route
  route_lem b f r = elim (names_peer_lem peers f) [
    | inl (xs, ys, e, t) ↦ inl (xs, ys, e, rw (C.first-cons f r, t, route) refl)
    | inr (none_of, t) ↦ inr (none_of, rw (C.first-cons f r, t, route) refl)
  ]

  -- With one peer or more, fewer than 2^24, a local request that is to go to a peer, since its
  -- draw is 0, makes the program use NULL if the peer is drawn by `randof(argc-2)` from one of
  -- the last 64 values of `random()` below 2^31: it then reads argv[argc].
  pub serve_aborts :
      (r : Round) (m : Msg) (b : Broker Carrier) (random : ℕ)
      → 1 ≤ length peers
      → length peers < 2 ^ 24
      → 2 ^ 31 - 64 ≤ random
      → random < 2 ^ 31
      → r.draw ≡ 0
      → r.peer_draw ≡ randof (length peers) random
      → serve C Z peers r true m b ≡ aborted
  unfolding serve
  serve_aborts r m b random h small l u e d =
      let past : r.peer_draw ≡ length peers = d ∙ randof-last (length peers) random small l u in
      let away : (ltb 2 (length peers + 2) && r.draw == 0) ≡ true = ground arith in
      rw (away, past, get_elem?-past peers)
