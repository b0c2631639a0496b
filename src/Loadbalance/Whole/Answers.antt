-- ===== src/Loadbalance/Whole/Answers.antt =====
-- lbbroker.c from its start to its end.
use zmq_test.Common.{
  ℕ, ◌≤◌, ◌≡◌, ◌⊎◌, refl, sym, ◌∙◌, inl, inr, true, false, List, [], ◌∷◌, map, length, All, arith,
}
use zmq_test.Czmq.{Frame}
use zmq_test.Loadbalance.Array
use zmq_test.Loadbalance.Array.{nbr_clients, nbr_workers}
use zmq_test.Loadbalance.Equivalence.{sent}
use zmq_test.Loadbalance.Equivalence.Runs.{start-Sim}
use zmq_test.Loadbalance.Whole.{System, Step, start}
use zmq_test.Common.Steps.{Steps}
use zmq_test.Common.Bag.{of_list, of_list-eq, once, once-le}
use zmq_test.Common.Weigh.{weigh}
use zmq_test.Loadbalance.Whole.Moves.{IsShort, IsClientName, of_reply, addressee}
use zmq_test.Loadbalance.Whole.Invariant.{Inv}
use zmq_test.Loadbalance.Whole.Liveness.{goes_on_or_over, Steps-Inv}

-- Whom the replies went to.
abbrev pub answered : List Array.Effect → List Frame
answered [] = []
answered (Array.to_frontend m ∷ es) = addressee m ∷ answered es
answered (Array.to_backend m ∷ es) = answered es

weigh-answered :
    (f : Frame → ℕ) (es : List Array.Effect)
    → weigh (of_reply f) (map sent es) ≡ weigh f (answered es)
weigh-answered f [] = refl
weigh-answered f (Array.to_frontend m ∷ es) = omega (arith, weigh-answered f es)
weigh-answered f (Array.to_backend m ∷ es) = omega (arith, weigh-answered f es)

module _ (clients workers : List Frame) (l : length clients ≡ nbr_clients)
    (k : length workers ≡ nbr_workers) (hc : All IsClientName clients)
    (hw : All IsShort workers) where
  start-Inv : Inv clients (start clients workers)
  unfolding Array.start
  start-Inv = inl (
    refl,
    record {
      free = [];
      view = start-Sim;
      workers = omega (arith, k);
      requests = λ weight. omega arith;
      free_names = tt;
      unsent_names = hc;
      front_names = tt;
      unready_names = hw;
      back_names = tt;
      job_names = tt;
    },
  )

  -- lbbroker.c with ten clients and three workers, whose names are texts of less than 16 bytes and the
  -- clients' neither start with w nor start with the byte 1. However the threads' steps and the
  -- messages to a socket are ordered, there are at most 47 steps, and while the loop of the broker
  -- runs some thread or the broker can take one, so no run comes to a halt before the loop ends. When
  -- it has ended, the names that the broker has sent replies to are the clients, in some order, each as
  -- often as it is among them.
  pub Steps-answers :
      {n : ℕ} {s : System}
      → Steps Step (start clients workers) n s
      → (n ≤ 47)
        × (((s.over ≡ false) × ((t : System) × Step s t))
            ⊎ ((s.over ≡ true) × (of_list (answered s.broker.trace) ≡ of_list clients)))
  Steps-answers {n} {s} r =
      let (v, h) = Steps-Inv clients l start-Inv r in
      (
        omega (arith, h, l, k),
        elim (goes_on_or_over clients l s v) [
          | inl go ↦ inl go
          | inr (o, e) ↦ inr (
            o,
            of_list-eq (answered s.broker.trace) clients
                (λ c. sym (weigh-answered (once c) s.broker.trace) ∙ e (once c) (once-le c)),
          )
        ],
      )
