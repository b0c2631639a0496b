-- ===== src/Loadbalance/Equivalence/Runs.antt =====
-- lbbroker.c and lbbroker2.c on the same polls.
use zmq_test.Common.{
  ◌≡◌, ◌⊎◌, refl, sym, ap, ◌∙◌, inl, inr, some, none, Option, List, [], ◌∷◌, ◌++◌, map, All,
  append_assoc, arith, Bool-cases,
}
use zmq_test.Czmq.{Zmsg, Zlist, Frame}
use zmq_test.Loadbalance.Array
use zmq_test.Loadbalance.Array.{◌>>=◌}
use zmq_test.Loadbalance.Array.Slots.{slots}
use zmq_test.Loadbalance.Lists
use zmq_test.Loadbalance.Lists.{is_ready}
use zmq_test.Loadbalance.Lists.Service.{
  Service, heard, given_in_turn, serve, serve_all, IsWorkerMsg, Agrees, run-Agrees,
}
use zmq_test.Loadbalance.Equivalence.{
  Said, ready, done, Happening, array_poll, lists_said, lists_asked, lists_poll, run_array, sent,
  IsPlain, HasRoom, Thereafter,
}
use zmq_test.Loadbalance.Equivalence.Turn.{
  Sim, EndsIn, Follows, Grows, Grows-trans, Grows-refl, given-Grows, serve-eq, turn-Follows,
}

heard-Grows : (s : Service) (w : _) → Grows s.1 (heard s (lists_said w)).1
heard-Grows s none = Grows-refl s.1
heard-Grows s (some (ready id)) = Grows-refl s.1
heard-Grows s (some (done id c m)) = elim (Bool-cases (is_ready c)) [
  | inl e ↦ rw e (Grows-refl s.1)
  | inr e ↦ rw e (Lists.to_frontend (c ∷ [] ∷ m ∷ []) ∷ [], refl)
]

-- lbbroker.c has ended after ten replies: what lbbroker2.c does then only comes after.
serve_all-EndsIn :
    (a : Array.Broker) (s : Service) (hs : List Happening)
    → EndsIn a s.1
    → Follows (Array.finished a) (serve_all s (map lists_poll hs))
serve_all-EndsIn a s [] e = e
serve_all-EndsIn a s (h ∷ hs) (n, (more, e)) = rw (serve-eq s h) (elim (Bool-cases h.interrupted) [
  | inl i ↦ rw i (inl (n, (more, e)))
  | inr i ↦
      let t = heard s (lists_said h.worker) in
      let (more', e') =
        Grows-trans s.1 t.1 _ (heard-Grows s h.worker) (given-Grows s.0 t (lists_asked h.client)) in
      rw i (
        serve_all-EndsIn a (given_in_turn s.0 t (lists_asked h.client)) hs (
          n,
          (more ++ more', e' ∙ ap (λ l. l ++ more') e ∙ append_assoc (map sent a.trace) more more'),
        ))
])

-- What both do after a turn.
then-Follows :
    (hs : List Happening) (o : Array.Outcome) (q : Lists.Outcome Service)
    → Follows o q
    → Thereafter (λ t. HasRoom t hs) q
    → ((b : Array.Broker) (t : Service)
        → Sim b t
        → HasRoom t hs
        → Follows (run_array b hs) (serve_all t (map lists_poll hs)))
    → Follows (o >>= λ b. run_array b hs) (Lists.◌>>=◌ q (λ t. serve_all t (map lists_poll hs)))
then-Follows hs (Array.running b) (Lists.running t) f r k = k b t f r
then-Follows hs (Array.running b) (Lists.stopped t) f r k = absurd f
then-Follows hs (Array.running b) Lists.aborted f r k = absurd f
then-Follows hs (Array.finished b) (Lists.running t) f r k = serve_all-EndsIn b t hs f
then-Follows hs (Array.finished b) (Lists.stopped t) f r k = f
then-Follows hs (Array.finished b) Lists.aborted f r k = absurd f
then-Follows hs Array.aborted q f r k = absurd f
then-Follows hs Array.blocked q f r k = absurd f
then-Follows hs (Array.unread b) q f r k = absurd f

run-Follows :
    (a : Array.Broker) (s : Service) (hs : List Happening)
    → Sim a s
    → All IsPlain hs
    → HasRoom s hs
    → Follows (run_array a hs) (serve_all s (map lists_poll hs))
unfolding run_array
run-Follows a s [] v p r = v
run-Follows a s (h ∷ hs) v p r =
    then-Follows hs (Array.turn a (array_poll h)) (serve s (lists_poll h))
      (turn-Follows a s h v p.0 r.0) r.1 (λ b t u k. run-Follows b t hs u p.1 k)

pub start-Sim : Sim Array.start ([], [])
unfolding Array.start
start-Sim = (
  record { queue = refl; count = refl; few = omega arith; open_requests = omega arith },
  refl,
  refl,
)

said-IsWorkerMsg : (w : Option Said) → IsWorkerMsg (lists_said w)
said-IsWorkerMsg none = tt
said-IsWorkerMsg (some (ready id)) = tt
said-IsWorkerMsg (some (done id c m)) = tt

worker_msgs : (hs : List Happening) → All (λ p. IsWorkerMsg p.backend) (map lists_poll hs)
worker_msgs [] = tt
worker_msgs (h ∷ hs) = (said-IsWorkerMsg h.worker, worker_msgs hs)

module _ (C : Zmsg) (Z : Zlist Frame) where
  open Z use {Carrier, items}

  -- The ends of the two programs that go together: while lbbroker.c runs, the other runs with the
  -- same workers in its list as the array has names, and has sent the same; once it has ended after
  -- ten replies, the other has sent that and maybe more; at an interrupt both have sent the same.
  abbrev pub Matches : Array.Outcome → Lists.Outcome (Lists.Broker Carrier) → Type 0
  Matches (Array.running a) (Lists.running b) =
      (map sent a.trace ≡ b.trace) × (a.worker_queue ≡ slots 10 (items b.workers))
  Matches (Array.finished a) (Lists.running b) = EndsIn a b.trace
  Matches (Array.finished a) (Lists.stopped b) = EndsIn a b.trace ⊎ (b.trace ≡ map sent a.trace)
  Matches _ _ = ⊥

  Follows-Matches :
      (o : Array.Outcome) (q : Lists.Outcome Service) (r : Lists.Outcome (Lists.Broker Carrier))
      → Follows o q
      → Agrees C Z r q
      → Matches o r
  Follows-Matches (Array.running a) (Lists.running s) (Lists.running b) f v =
      (f.1 ∙ sym v.1, rw v.0 f.0.queue)
  Follows-Matches (Array.running a) (Lists.stopped s) r f v = absurd f
  Follows-Matches (Array.running a) Lists.aborted r f v = absurd f
  Follows-Matches (Array.finished a) (Lists.running s) (Lists.running b) f v = rw v.1 f
  Follows-Matches (Array.finished a) (Lists.stopped s) (Lists.stopped b) f v = rw v.1 f
  Follows-Matches (Array.finished a) Lists.aborted r f v = absurd f
  Follows-Matches Array.aborted q r f v = absurd f
  Follows-Matches Array.blocked q r f v = absurd f
  Follows-Matches (Array.unread a) q r f v = absurd f
  Follows-Matches o (Lists.running s) (Lists.stopped b) f v = absurd v
  Follows-Matches o (Lists.running s) Lists.aborted f v = absurd v
  Follows-Matches o (Lists.stopped s) (Lists.running b) f v = absurd v
  Follows-Matches o (Lists.stopped s) Lists.aborted f v = absurd v

  -- On the same polls, where workers and clients send their strings of text that fit the arrays of
  -- lbbroker.c, no client's name starts with w or with the byte 1, and a worker speaks only while
  -- fewer than three wait, the two brokers do the same. (What lbbroker.c writes behind the block that
  -- it allocates for a name is not modelled: its copy of a name is taken to be whole.) No assertion of
  -- lbbroker.c fails, it waits for no frame that does not come and leaves none unread, and neither
  -- broker uses a NULL. As long as lbbroker.c runs, lbbroker2.c runs too, has sent the same to the
  -- same peers in the same order, and has the workers in its list that the array holds. lbbroker.c
  -- ends after ten replies, or at an interrupt; then the other has sent the same first.
  pub run-Matches :
      (hs : List Happening)
      → All IsPlain hs
      → HasRoom ([], []) hs
      → Matches (run_array Array.start hs) (Lists.run C Z (Lists.start C Z) (map lists_poll hs))
  run-Matches hs p r =
      Follows-Matches _ _ _ (run-Follows Array.start ([], []) hs start-Sim p r)
        (run-Agrees C Z (map lists_poll hs) (worker_msgs hs))
