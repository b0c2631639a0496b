-- ===== src/Loadbalance/Whole/Liveness.antt =====
-- Every client gets its reply.
use zmq_test.Common.{
  ℕ, ◌+◌, ◌*◌, ◌≤◌, ◌<◌, ◌≡◌, ◌≢◌, ◌⊎◌, refl, ap, subst, inl, inr, Option, none, some, Bool, true,
  false, List, [], ◌∷◌, map, length, length-append, All, arith,
}
use zmq_test.Czmq.{Frame, Msg}
use zmq_test.Loadbalance.Array
use zmq_test.Loadbalance.Array.{nbr_clients, nbr_workers}
use zmq_test.Loadbalance.Lists
use zmq_test.Loadbalance.Equivalence
use zmq_test.Loadbalance.Equivalence.{Said, sent}
use zmq_test.Loadbalance.Array.Tasks.{hello, said_ok}
use zmq_test.Base.Strings.{received}
use zmq_test.Loadbalance.Equivalence.Turn.{Follows}
use zmq_test.Loadbalance.Whole.{
  System, nothing, one, Polled, poll, Step, ask, report, answer, turn, last, jobs_of, news,
}
use zmq_test.Common.Steps.{Steps, Steps-induction}
use zmq_test.Loadbalance.Whole.Weights.{weigh, weigh-length, weight_of, length-Takes}
use zmq_test.Loadbalance.Whole.Moves.{IsJob, of_said, of_job, of_request, served}
use zmq_test.Loadbalance.Whole.Invariant.{
  Running, Replied, Inv, ask-Running, report-Running, answer-Running,
}
use zmq_test.Loadbalance.Whole.Invariant.Turn.{
  turn-Running, last-Replied, turn-served, turn-jobs, weigh-replies,
}

module _ (clients : List Frame) (l : length clients ≡ nbr_clients) where
  Step-Inv : (s t : System) → Step s t → Inv clients s → Inv clients t
  Step-Inv s t (ask xs c ys e) (inl (o, v)) = inl (o, ask-Running clients s v xs c ys e)
  Step-Inv s t (report xs id ys e) (inl (o, v)) = inl (o, report-Running clients s v xs id ys e)
  Step-Inv s t (answer xs id c m ys e) (inl (o, v)) =
      inl (o, answer-Running clients s v xs id c m ys e)
  Step-Inv s t (turn w q back front b p e) (inl (o, v)) =
      inl (o, turn-Running clients s w q back front p v b e)
  Step-Inv s t (last w q back front b p e) (inl (o, v)) =
      inr (refl, last-Replied clients s w q back front p v b l e)
  Step-Inv s t (ask xs c ys e) (inr (o, v)) = inr (o, v)
  Step-Inv s t (report xs id ys e) (inr (o, v)) = inr (o, v)
  Step-Inv s t (answer xs id c m ys e) (inr (o, v)) = inr (o, v)
  Step-Inv s t (turn w q back front b p e) (inr (o, v)) = let r = p.running in cc
  Step-Inv s t (last w q back front b p e) (inr (o, v)) = let r = p.running in cc

  -- A worker that has a job answers it.
  answer_step :
      (s : System) (j : Frame × Msg) (js : List (Frame × Msg))
      → s.jobs ≡ j ∷ js
      → IsJob j
      → (t : System) × Step s t
  answer_step s (id, c ∷ [] ∷ m ∷ []) js e h = (_, answer [] id c m js e)
  answer_step s (id, []) js e h = absurd h
  answer_step s (id, c ∷ []) js e h = absurd h
  answer_step s (id, c ∷ (x ∷ y) ∷ m) js e h = absurd h
  answer_step s (id, c ∷ [] ∷ []) js e h = absurd h
  answer_step s (id, c ∷ [] ∷ m ∷ n ∷ r) js e h = absurd h

  -- While the loop of the broker runs, someone can do something.
  polled_goes_on :
      (s : System) (w : Option Said) (q : Option (Frame × Frame)) (back : List Said)
      (front : List (Frame × Frame))
      → Running clients s
      → Polled s w q back front
      → (t : System) × Step s t
  polled_goes_on s w q back front v p =
      go (Array.turn s.broker (poll w q)) refl (turn-served clients s w q back front p v)
    where
      go :
          (o : Array.Outcome)
          → Array.turn s.broker (poll w q) ≡ o
          → Follows o (Lists.running (served (v.free, map sent s.broker.trace) w q))
          → (t : System) × Step s t
      go (Array.running b) e f = (_, turn w q back front b p e)
      go (Array.finished b) e f = (_, last w q back front b p e)
      go Array.aborted e f = absurd f
      go Array.blocked e f = absurd f
      go (Array.unread b) e f = absurd f

  goes_on : (s : System) → s.over ≡ false → Running clients s → (t : System) × Step s t
  goes_on s o v = go s.unsent s.unready s.jobs s.back s.front refl refl refl refl refl
    where
      go :
          (unsent unready : List Frame) (jobs : List (Frame × Msg)) (back : List Said)
          (front : List (Frame × Frame))
          → s.unsent ≡ unsent
          → s.unready ≡ unready
          → s.jobs ≡ jobs
          → s.back ≡ back
          → s.front ≡ front
          → (t : System) × Step s t
      go (c ∷ cs) ws js bs fs e1 e2 e3 e4 e5 = (_, ask [] c cs e1)
      go [] (w ∷ ws) js bs fs e1 e2 e3 e4 e5 = (_, report [] w ws e2)
      go [] [] (j ∷ js) bs fs e1 e2 e3 e4 e5 =
          answer_step s j js e3 (subst (All IsJob) e3 v.job_names).0
      go [] [] [] (b ∷ bs) fs e1 e2 e3 e4 e5 = polled_goes_on s (some b) none bs s.front v (record {
        running = o;
        from_back = rw e4 (one [] b bs);
        from_front = nothing s.front;
        some_event = inl (λ e. cc);
        both_sockets = inl refl;
      })
      go [] [] [] [] (f ∷ fs) e1 e2 e3 e4 e5 = polled_goes_on s none (some f) s.back fs v (record {
        running = o;
        from_back = nothing s.back;
        from_front = rw e5 (one [] f fs);
        some_event = inr (λ e. cc);
        both_sockets =
            inr
              (omega (arith, v.workers, v.view.0.count, ap length e2, ap length e3, ap length e4));
      })
      go [] [] [] [] [] e1 e2 e3 e4 e5 = absurd (
          omega (
            arith,
            l,
            v.requests (λ c. 1),
            weigh-length clients,
            weigh-replies s.broker.trace,
            v.view.2,
            v.view.0.open_requests,
            ap (weigh (λ c. 1)) e1,
            ap (weigh (of_job (λ c. 1))) e3,
            ap (weigh (of_said (λ c. 1))) e4,
            ap (weigh (of_request (λ c. 1))) e5,
          ))

  pub goes_on_or_over :
      (s : System)
      → Inv clients s
      → ((s.over ≡ false) × ((t : System) × Step s t))
        ⊎ ((s.over ≡ true) × Replied clients s.broker)
  goes_on_or_over s (inl (o, v)) = inl (o, goes_on s o v)
  goes_on_or_over s (inr (o, v)) = inr (o, v)

  -- How many steps are left at most.
  abbrev pub ahead : Bool → ℕ
  ahead false = 1
  ahead true = 0

  abbrev pub measure : System → ℕ
  measure s =
      4 * length s.unsent
      + 3 * length s.front
      + 2 * length s.jobs
      + length s.back
      + 2 * length s.unready
      + ahead s.over

  some_event-le :
      (w : Option Said) (q : Option (Frame × Frame))
      → (w ≢ none) ⊎ (q ≢ none)
      → 1 ≤ weight_of (λ x. 1) w + weight_of (λ x. 1) q
  some_event-le none none (inl h) = absurd (h refl)
  some_event-le none none (inr h) = absurd (h refl)
  some_event-le none (some q) h = omega arith
  some_event-le (some w) none h = omega arith
  some_event-le (some w) (some q) h = omega arith

  Step-shrinks : (s t : System) → Step s t → Inv clients s → measure t < measure s
  Step-shrinks s t (ask xs c ys e) v = omega (
    arith,
    ap length e,
    length-append xs (c ∷ ys),
    length-append xs ys,
    length-append s.front ((c, hello c) ∷ []),
  )
  Step-shrinks s t (report xs id ys e) v = omega (
    arith,
    ap length e,
    length-append xs (id ∷ ys),
    length-append xs ys,
    length-append s.back (Equivalence.ready id ∷ []),
  )
  Step-shrinks s t (answer xs id c m ys e) v = omega (
    arith,
    ap length e,
    length-append xs ((id, c ∷ [] ∷ m ∷ []) ∷ ys),
    length-append xs ys,
    length-append s.back (Equivalence.done id (received 256 c) (said_ok id) ∷ []),
  )
  Step-shrinks s t (turn w q back front b p e) (inr (o, v)) = let r = p.running in cc
  Step-shrinks s t (turn w q back front b p e) (inl (o, v)) = omega (
    arith,
    length-Takes w s.back back p.from_back,
    length-Takes q s.front front p.from_front,
    length-append s.jobs (jobs_of (news s.broker b)),
    turn-jobs clients s w q back front p v b e,
    some_event-le w q p.some_event,
  )
  Step-shrinks s t (last w q back front b p e) v =
      omega (arith, length-Takes w s.back back p.from_back, ap ahead p.running)

  pub Steps-Inv :
      {s t : System} {n : ℕ}
      → Inv clients s
      → Steps Step s n t
      → Inv clients t × (n + measure t ≤ measure s)
  Steps-Inv {s = s} v =
      Steps-induction Step (λ n t. Inv clients t × (n + measure t ≤ measure s)) (v, omega arith)
        (λ m t u k (i, h). (Step-Inv t u k i, omega (arith, h, Step-shrinks t u k i)))
