-- ===== src/Loadbalance/Array/Replies.antt =====
-- What src/loadbalance/lbbroker.c passes on. Clients are told from workers that report ready by the
-- first letter of a frame, which an identity of `s_set_id` never mistakes.
use zmq_test.Common.{
  ℕ, ◌+◌, ◌-◌, ◌<◌, ◌≡◌, refl, ap, true, false, List, [], ◌∷◌, ◌++◌, some, head?, length, All,
  All-mono, set, arith, ltb, ◌==◌, if◌then◌else◌,
}
use zmq_test.Czmq.{Frame}
use zmq_test.Base.Strings.{received, received-text, IsText}
use zmq_test.Base.Identity.{identity}
use zmq_test.Base.Identity.Width.{identity-IsHex, IsHex, length-identity-lt}
use zmq_test.Loadbalance.Array.{
  nbr_workers, Name, Broker, running, finished, starts_with_w, on_backend, on_frontend, to_frontend,
  to_backend, dequeue,
}
use zmq_test.Loadbalance.Array.Slots.{slots, set-slots, dequeue-slots}
use zmq_test.Loadbalance.Array.Handling.{Holds}

IsHex-IsText : (s : List ℕ) → All IsHex s → IsText s
IsHex-IsText s h = All-mono IsHex _ (λ c k e. omega (arith, k.0)) s h

identity-received : (x y : ℕ) → received 256 (identity x y) ≡ identity x y
identity-received x y =
    received-text 256 (identity x y) (omega (arith, length-identity-lt x y))
      (IsHex-IsText (identity x y) (identity-IsHex x y))

hex-not-w : (s : List ℕ) → All IsHex s → starts_with_w s ≡ false
hex-not-w [] h = refl
hex-not-w (c ∷ s) h = ground arith

identity-not-w : (x y : ℕ) → starts_with_w (identity x y) ≡ false
identity-not-w x y = hex-not-w (identity x y) (identity-IsHex x y)

-- When the broker keeps fewer than three free workers, a reply of text shorter than 256 bytes to
-- a client with an identity as `s_set_id` prints it is passed on whole and taken off the replies
-- to wait for; the last one ends the program. The worker becomes the last of the free ones.
pub reply_passed_on :
    (b : Broker) (ids : List Name) (id m : Frame) (x y : ℕ)
    → Holds b ids
    → length ids < 3
    → length m < 256
    → IsText m
    → (c : Broker) × (on_backend b (id ∷ [] ∷ identity x y ∷ [] ∷ m ∷ [])
        ≡ (if b.client_nbr - 1 == 0 then finished c else running c))
      × (c.trace ≡ b.trace ++ to_frontend (identity x y ∷ [] ∷ m ∷ []) ∷ [])
      × (c.client_nbr ≡ b.client_nbr - 1)
      × (c.worker_queue ≡ slots 10 (ids ++ received 256 id ∷ []))
unfolding on_backend
reply_passed_on b ids id m x y v few fits text =
    let room : ltb b.available_workers nbr_workers ≡ true = ground (arith, v.count) in
    (
      record {
        available_workers = b.available_workers + 1;
        worker_queue = set b.worker_queue b.available_workers (some (received 256 id));
        client_nbr = b.client_nbr - 1;
        trace = b.trace ++ to_frontend (identity x y ∷ [] ∷ m ∷ []) ∷ [];
      },
      rw (room, identity-received x y, identity-not-w x y, received-text 256 m fits text),
      refl,
      refl,
      rw (v.queue, v.count) (set-slots 10 ids (received 256 id) (omega arith)),
    )

-- If the broker keeps a free worker, a request goes to the one that has been free longest, with
-- the client's name in the envelope for the way back, and that worker is taken off the array.
pub request_to_oldest :
    (b : Broker) (id : Name) (ids : List Name) (c m : Frame)
    → Holds b (id ∷ ids)
    → (d : Broker) × (on_frontend b (c ∷ [] ∷ m ∷ []) ≡ running d)
      × (d.trace ≡ b.trace ++ to_backend (id ∷ [] ∷ received 256 c ∷ [] ∷ received 256 m ∷ []) ∷ [])
      × (d.worker_queue ≡ slots 10 ids)
      × (d.available_workers ≡ length ids)
unfolding on_frontend
request_to_oldest b id ids c m v = (
  record {
    available_workers = b.available_workers - 1;
    worker_queue = dequeue b.worker_queue;
    client_nbr = b.client_nbr;
    trace = b.trace ++ to_backend (id ∷ [] ∷ received 256 c ∷ [] ∷ received 256 m ∷ []) ∷ [];
  },
  rw (ap head? v.queue) refl,
  refl,
  rw v.queue (dequeue-slots 10 id ids (omega (arith, v.few))),
  omega (arith, v.count),
)
