-- ===== src/Ppq/Queue/Entries.antt =====
-- The entries of `Service` and the `worker_t` of src/ppq/queue.c.
use zmq_test.Common.{
  suc, ◌≡◌, refl, ap, inl, inr, List, map, [], ◌∷◌, ◌++◌, length, streq, streq→eq, streq→ne,
  streq_self, Bool-cases,
}
use zmq_test.Czmq.{Frame, Zmsg}
use zmq_test.Ppq.Defs.{Worker, ppp_heartbeat}
use zmq_test.Ppq.Queue.{to_backend}
use zmq_test.Ppq.Queue.Registry.{drop_id, beats}
use zmq_test.Ppq.Queue.Service.{Entry, forget}

module _ (C : Zmsg) where
  -- The `worker_t` of an entry.
  abbrev pub worker : Entry → Worker
  worker (id, t) = record { identity = id; id_string = C.strhex id; expiry = t }

  streq-strhex : (f g : Frame) → streq (C.strhex f) (C.strhex g) ≡ streq f g
  streq-strhex f g = elim (Bool-cases (streq f g)) [
    | inl same ↦ rw (same, streq→eq f g same) (streq_self (C.strhex g))
    | inr other ↦ elim (Bool-cases (streq (C.strhex f) (C.strhex g))) [
      | inl e ↦ absurd (streq→ne f g other (C.strhex_inj f g (streq→eq _ _ e)))
      | inr e ↦ rw (e, other) refl
    ]
  ]

  pub drop_id-forget :
      (id : Frame) (free : List Entry)
      → drop_id (C.strhex id) (map worker free) ≡ map worker (forget id free)
  unfolding drop_id
  drop_id-forget id [] = refl
  drop_id-forget id (e ∷ free) = elim (Bool-cases (streq id e.0)) [
    | inl hit ↦ rw (streq-strhex id e.0, hit) refl
    | inr miss ↦ rw (streq-strhex id e.0, miss) (ap (◌∷◌ (worker e)) (drop_id-forget id free))
  ]

  pub map-snoc :
      (free : List Entry) (e : Entry)
      → map worker (free ++ e ∷ []) ≡ map worker free ++ worker e ∷ []
  map-snoc [] e = refl
  map-snoc (x ∷ free) e = ap (◌∷◌ (worker x)) (map-snoc free e)

  pub beats-worker :
      (free : List Entry)
      → beats (map worker free) ≡ map (λ e. to_backend (e.0 ∷ ppp_heartbeat ∷ [])) free
  beats-worker [] = refl
  beats-worker (e ∷ free) = ap (◌∷◌ (to_backend (e.0 ∷ ppp_heartbeat ∷ []))) (beats-worker free)

  pub length-map : (free : List Entry) → length (map worker free) ≡ length free
  length-map [] = refl
  length-map (e ∷ free) = ap suc (length-map free)
