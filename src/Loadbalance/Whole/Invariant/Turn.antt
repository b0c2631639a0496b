-- ===== src/Loadbalance/Whole/Invariant/Turn.antt =====
-- A turn of the broker among its threads.
use zmq_test.Common.{
  ℕ, ◌+◌, ◌≤◌, ◌≡◌, ◌⊎◌, refl, ap, ◌∙◌, subst, inl, inr, Option, none, some, false, List, [], ◌∷◌,
  ◌++◌, map, length, length-append, drop, All, All-append, arith,
}
use zmq_test.Czmq.{Frame, Msg}
use zmq_test.Loadbalance.Array
use zmq_test.Loadbalance.Array.{nbr_clients}
use zmq_test.Loadbalance.Lists
use zmq_test.Loadbalance.Lists.Service.{Service}
use zmq_test.Loadbalance.Equivalence.{Said, ready, done, Happening, sent, Room}
use zmq_test.Loadbalance.Equivalence.Turn.{replies, Sim, EndsIn, Follows, serve-eq, turn-Follows}
use zmq_test.Loadbalance.Whole.{System, Polled, poll, jobs_of, news}
use zmq_test.Loadbalance.Whole.Weights.{
  weigh, weigh-append, weigh-le, weigh-length, weigh-Takes, length-Takes, All-Takes, Maybe,
  weight_of, drop-append,
}
use zmq_test.Loadbalance.Whole.Moves.{
  IsTold, IsRequest, IsJob, of_said, of_request, of_job, of_reply, addressee, told-IsSaid,
  request-IsAsked, served, Moved, served-Moved,
}
use zmq_test.Loadbalance.Whole.Invariant.{Running, Replied}

room : (free : List Frame) (w : Option Said) → length free + weight_of (λ x. 1) w ≤ 3 → Room free w
room free none h = tt
room free (some w) h = omega arith

pub weigh-replies : (es : List Array.Effect) → weigh (of_reply (λ c. 1)) (map sent es) ≡ replies es
weigh-replies [] = refl
weigh-replies (Array.to_frontend m ∷ es) = omega (arith, weigh-replies es)
weigh-replies (Array.to_backend m ∷ es) = omega (arith, weigh-replies es)

module _ (weight : Frame → ℕ) (h : (c : Frame) → weight c ≤ 1) where
  job_le : (j : Frame × Msg) → of_job weight j ≤ of_job (λ c. 1) j
  job_le (id, []) = omega arith
  job_le (id, c ∷ m) = h c

  said_le : (t : Said) → of_said weight t ≤ of_said (λ c. 1) t
  said_le (ready id) = omega arith
  said_le (done id c m) = h c

  reply_le : (e : Lists.Effect) → of_reply weight e ≤ of_reply (λ c. 1) e
  reply_le (Lists.to_frontend m) = h (addressee m)
  reply_le (Lists.to_backend m) = omega arith

module _ (clients : List Frame) (s : System) (w : Option Said) (q : Option (Frame × Frame))
    (back : List Said) (front : List (Frame × Frame)) (p : Polled s w q back front)
    (v : Running clients s) where
  abbrev queue : Service
  queue = (v.free, map sent s.broker.trace)

  abbrev backs : Maybe IsTold w × All IsTold back
  backs = All-Takes IsTold w s.back back p.from_back v.back_names

  abbrev fronts : Maybe IsRequest q × All IsRequest front
  fronts = All-Takes IsRequest q s.front front p.from_front v.front_names

  pub turn-served : Follows (Array.turn s.broker (poll w q)) (Lists.running (served queue w q))
  turn-served =
      let h : Happening = record { interrupted = false; worker = w; client = q } in
      subst (Follows (Array.turn s.broker (poll w q))) (serve-eq queue h) (
        turn-Follows s.broker queue h v.view (told-IsSaid w backs.0, request-IsAsked q fronts.0)
          (room v.free w (omega (arith, v.workers, length-Takes w s.back back p.from_back))))

  has_free : (q ≡ none) ⊎ (1 ≤ length v.free)
  has_free = elim p.both_sockets [ inl e ↦ inl e | inr h ↦ inr (omega (arith, h, v.view.0.count)) ]

  moved : Moved queue (served queue w q) w q
  moved = served-Moved queue w q backs.0 fronts.0 v.free_names has_free

  -- The accounts behind the turn, with what the queue has sent.
  accounts :
      (weight : Frame → ℕ)
      → weigh weight s.unsent
          + weigh (of_request weight) front
          + weigh (of_job weight) (s.jobs ++ jobs_of moved.moves)
          + weigh (of_said weight) back
          + weigh (of_reply weight) (served queue w q).1
        ≡ weigh weight clients
  accounts weight = omega (
    arith,
    v.requests weight,
    weigh-Takes (of_request weight) q s.front front p.from_front,
    weigh-Takes (of_said weight) w s.back back p.from_back,
    weigh-append (of_job weight) s.jobs (jobs_of moved.moves),
    ap (weigh (of_reply weight)) moved.grows,
    weigh-append (of_reply weight) (map sent s.broker.trace) moved.moves,
    moved.replied weight,
    moved.requested weight,
  )

  turn-Sim :
      (b : Array.Broker)
      → Array.turn s.broker (poll w q) ≡ Array.running b
      → Sim b (served queue w q)
  turn-Sim b e = subst (λ o. Follows o (Lists.running (served queue w q))) e turn-served

  turn-news :
      (b : Array.Broker)
      → Array.turn s.broker (poll w q) ≡ Array.running b
      → news s.broker b ≡ moved.moves
  turn-news b e =
      ap (drop (length (map sent s.broker.trace))) ((turn-Sim b e).1 ∙ moved.grows)
      ∙ drop-append (map sent s.broker.trace) moved.moves

  -- A worker gets a job for each request.
  pub turn-jobs :
      (b : Array.Broker)
      → Array.turn s.broker (poll w q) ≡ Array.running b
      → length (jobs_of (news s.broker b)) ≡ weight_of (λ x. 1) q
  turn-jobs b e = ap (λ es. length (jobs_of es)) (turn-news b e) ∙ moved.jobs

  pub turn-Running :
      (b : Array.Broker)
      → Array.turn s.broker (poll w q) ≡ Array.running b
      → Running clients (record s {
        front = front;
        back = back;
        jobs = s.jobs ++ jobs_of (news s.broker b);
        broker = b;
      })
  turn-Running b e =
      let sim = turn-Sim b e in
      rw (turn-news b e) (record {
        free = (served queue w q).0;
        view = (sim.0, refl, sim.2);
        workers = omega (
          arith,
          v.workers,
          moved.workers,
          length-Takes w s.back back p.from_back,
          length-append s.jobs (jobs_of moved.moves),
        );
        requests = λ weight. omega (arith, accounts weight, ap (weigh (of_reply weight)) sim.1);
        free_names = moved.free_names;
        unsent_names = v.unsent_names;
        front_names = fronts.1;
        unready_names = v.unready_names;
        back_names = backs.1;
        job_names = All-append IsJob s.jobs (jobs_of moved.moves) v.job_names moved.job_names;
      })

  -- Ten replies are all there can be.
  pub last-Replied :
      (b : Array.Broker)
      → length clients ≡ nbr_clients
      → Array.turn s.broker (poll w q) ≡ Array.finished b
      → Replied clients b
  last-Replied b l e weight h =
      let (ten, (more, out)) : EndsIn b (served queue w q).1 =
        subst (λ o. Follows o (Lists.running (served queue w q))) e turn-served in
      let each = accounts (λ c. 1) in
      let split = λ (f : Frame → ℕ).
        ap (weigh (of_reply f)) out ∙ weigh-append (of_reply f) (map sent b.trace) more in
      let jobs = s.jobs ++ jobs_of moved.moves in
      omega (
        arith,
        accounts weight,
        each,
        l,
        ten,
        weigh-length clients,
        weigh-replies b.trace,
        split weight,
        split (λ c. 1),
        weigh-le weight (λ c. 1) h s.unsent,
        weigh-le (of_request weight) (of_request (λ c. 1)) (λ r. h r.0) front,
        weigh-le (of_job weight) (of_job (λ c. 1)) (job_le weight h) jobs,
        weigh-le (of_said weight) (of_said (λ c. 1)) (said_le weight h) back,
        weigh-le (of_reply weight) (of_reply (λ c. 1)) (reply_le weight h) more,
      )
