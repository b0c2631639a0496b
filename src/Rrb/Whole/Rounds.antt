-- ===== src/Rrb/Whole/Rounds.antt =====
-- The programs of src/rrb from their start.
use zmq_test.Common.{ℕ, ◌+◌, ◌*◌, ◌≤◌, ◌≡◌, ◌⊎◌, refl, ap, List, [], ◌∷◌, map, length, All, arith}
use zmq_test.Common.Steps.{Steps, Steps-induction}
use zmq_test.Common.Weigh.{weigh}
use zmq_test.Czmq.{Frame}
use zmq_test.Rrb.Client as Client
use zmq_test.Rrb.Client.Rounds.{IsClient}
use zmq_test.Rrb.Whole.{System, Step, start}
use zmq_test.Rrb.Whole.Invariant.{of_client, Inv, Step-Inv}
use zmq_test.Rrb.Whole.Liveness.{IsDone, left, measure, Step-shrinks, goes_on}

module _ (clients : List (Frame × List ℕ)) (arrays : All (λ c. 256 ≤ length c.1) clients) where
  names : List Frame
  names = map (λ c. c.0) clients

  started-IsClient :
      (cs : List (Frame × List ℕ))
      → All (λ c. 256 ≤ length c.1) cs
      → All IsClient (map (λ c. Client.start c.0 c.1) cs)
  unfolding Client.start
  started-IsClient [] h = tt
  started-IsClient (c ∷ cs) h = ((omega arith, refl, h.0), started-IsClient cs h.1)

  started-names :
      (cs : List (Frame × List ℕ))
      → map (λ c. c.name) (map (λ c. Client.start c.0 c.1) cs) ≡ map (λ c. c.0) cs
  unfolding Client.start
  started-names [] = refl
  started-names (c ∷ cs) = ap (◌∷◌ c.0) (started-names cs)

  started-idle :
      (weight : Frame → ℕ) (cs : List (Frame × List ℕ))
      → 0 ≡ weigh (of_client weight) (map (λ c. Client.start c.0 c.1) cs)
  unfolding Client.start
  started-idle weight [] = refl
  started-idle weight (c ∷ cs) = omega (arith, started-idle weight cs)

  started-left :
      (cs : List (Frame × List ℕ))
      → weigh left (map (λ c. Client.start c.0 c.1) cs) ≡ 50 * length cs
  unfolding Client.start
  started-left [] = refl
  started-left (c ∷ cs) = omega (arith, started-left cs)

  start-Inv : Inv names (start clients)
  unfolding names
  start-Inv = record {
    clients = started-IsClient clients arrays;
    names = started-names clients;
    requests = tt;
    requested = tt;
    replies = tt;
    replied = tt;
    accounts = λ weight. started-idle weight clients;
  }

  Steps-Inv :
      {n : ℕ} {s : System}
      → Steps Step (start clients) n s
      → Inv names s × (n + measure s ≤ measure (start clients))
  Steps-Inv =
      Steps-induction Step (λ n t. Inv names t × (n + measure t ≤ measure (start clients)))
        (start-Inv, omega arith)
        (λ n t u k (v, h). (Step-Inv names t u k v, omega (arith, h, Step-shrinks names t u v k)))

  -- Clients of src/rrb with arrays of 256 bytes at least, its broker and its workers: however the
  -- steps of the programs, the messages to a client or a worker and the polls of the broker are
  -- ordered, there are at most 50 steps for each client, and as long as some client has not ended
  -- some program can take one. So every run can be led to an end, and in the end each client has had
  -- ten replies and printed World! for each.
  pub Steps-rounds :
      {n : ℕ} {s : System}
      → Steps Step (start clients) n s
      → (n ≤ 50 * length clients)
        × (map (λ c. c.name) s.clients ≡ map (λ c. c.0) clients)
        × (((t : System) × Step s t) ⊎ All IsDone s.clients)
  unfolding names
  Steps-rounds {n} {s} r =
      let (v, h) = Steps-Inv r in
      (omega (arith, h, started-left clients), v.names, goes_on names s v)
