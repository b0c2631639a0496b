-- ===== src/Loadbalance/Whole/Invariant.antt =====
-- What holds of the threads of lbbroker.c while they run: each worker is in one place, and so is each
-- request.
pub mod Turn
use zmq_test.Common.{
  ℕ, suc, ◌+◌, ◌*◌, ◌≤◌, ◌<◌, ◌≡◌, ◌⊎◌, refl, sym, ap, ◌∙◌, subst, inl, inr, Option, none, some,
  Bool, true, false, List, [], ◌∷◌, ◌++◌, map, length, length-append, All, All-append,
  All-append_left, All-append_right, arith,
}
use zmq_test.Czmq.{Frame, Msg}
use zmq_test.Base.Strings.{IsText, received, received-text}
use zmq_test.Loadbalance.Array
use zmq_test.Loadbalance.Array.Tasks.{hello, said_ok, hello-fits, said_ok-fits}
use zmq_test.Loadbalance.Equivalence.{Said, ready, done, IsName, sent}
use zmq_test.Loadbalance.Equivalence.Turn.{Sim}
use zmq_test.Loadbalance.Whole.{System, Step, ask, report, answer, turn, last}
use zmq_test.Loadbalance.Whole.Weights.{weigh, weigh-append}
use zmq_test.Loadbalance.Whole.Moves.{
  IsShort, IsClientName, IsTold, IsRequest, IsJob, of_said, of_request, of_job, of_reply,
  short-IsName,
}

-- Each request is in one place, or answered.
abbrev pub Accounts : List Frame → System → Type 0
Accounts clients s =
    (weight : Frame → ℕ)
    → weigh weight s.unsent
        + weigh (of_request weight) s.front
        + weigh (of_job weight) s.jobs
        + weigh (of_said weight) s.back
        + weigh (of_reply weight) (map sent s.broker.trace)
      ≡ weigh weight clients

pub record Running (clients : List Frame) (s : System) : Type 0 where
  pub free : List Frame
  pub view : Sim s.broker (free, map sent s.broker.trace)
  pub workers : length free + length s.unready + length s.back + length s.jobs ≡ 3
  pub requests : Accounts clients s
  pub free_names : All IsShort free
  pub unsent_names : All IsClientName s.unsent
  pub front_names : All IsRequest s.front
  pub unready_names : All IsShort s.unready
  pub back_names : All IsTold s.back
  pub job_names : All IsJob s.jobs

-- The clients have their replies, each one.
abbrev pub Replied : List Frame → Array.Broker → Type 0
Replied clients b =
    (weight : Frame → ℕ)
    → ((c : Frame) → weight c ≤ 1)
    → weigh (of_reply weight) (map sent b.trace) ≡ weigh weight clients

abbrev pub Inv : List Frame → System → Type 0
Inv clients s =
    ((s.over ≡ false) × Running clients s) ⊎ ((s.over ≡ true) × Replied clients s.broker)

module _ (clients : List Frame) (s : System) (v : Running clients s) where
  pub ask-Running :
      (xs : List Frame) (c : Frame) (ys : List Frame)
      → s.unsent ≡ xs ++ c ∷ ys
      → Running clients (record s { unsent = xs ++ ys; front = s.front ++ (c, hello c) ∷ [] })
  ask-Running xs c ys e =
      let names : All IsClientName (xs ++ c ∷ ys) = subst (All IsClientName) e v.unsent_names in
      let behind = All-append_right IsClientName xs (c ∷ ys) names in
      record {
        free = v.free;
        view = v.view;
        workers = v.workers;
        requests = λ weight. omega (
          arith,
          v.requests weight,
          ap (weigh weight) e,
          weigh-append weight xs (c ∷ ys),
          weigh-append weight xs ys,
          weigh-append (of_request weight) s.front ((c, hello c) ∷ []),
        );
        free_names = v.free_names;
        unsent_names =
            All-append IsClientName xs ys (All-append_left IsClientName xs (c ∷ ys) names) behind.1;
        front_names =
            All-append IsRequest s.front ((c, hello c) ∷ []) v.front_names
              ((behind.0, hello-fits c behind.0.0.1 behind.0.0.0), tt);
        unready_names = v.unready_names;
        back_names = v.back_names;
        job_names = v.job_names;
      }

  pub report-Running :
      (xs : List Frame) (id : Frame) (ys : List Frame)
      → s.unready ≡ xs ++ id ∷ ys
      → Running clients (record s { unready = xs ++ ys; back = s.back ++ ready id ∷ [] })
  report-Running xs id ys e =
      let names : All IsShort (xs ++ id ∷ ys) = subst (All IsShort) e v.unready_names in
      let behind = All-append_right IsShort xs (id ∷ ys) names in
      record {
        free = v.free;
        view = v.view;
        workers = omega (
          arith,
          v.workers,
          ap length e,
          length-append xs (id ∷ ys),
          length-append xs ys,
          length-append s.back (ready id ∷ []),
        );
        requests = λ weight.
            omega (arith, v.requests weight, weigh-append (of_said weight) s.back (ready id ∷ []));
        free_names = v.free_names;
        unsent_names = v.unsent_names;
        front_names = v.front_names;
        unready_names =
            All-append IsShort xs ys (All-append_left IsShort xs (id ∷ ys) names) behind.1;
        back_names = All-append IsTold s.back (ready id ∷ []) v.back_names (behind.0, tt);
        job_names = v.job_names;
      }

  pub answer-Running :
      (xs : List (Frame × Msg)) (id c m : Frame) (ys : List (Frame × Msg))
      → s.jobs ≡ xs ++ (id, c ∷ [] ∷ m ∷ []) ∷ ys
      → Running clients (record s {
        jobs = xs ++ ys;
        back = s.back ++ done id (received 256 c) (said_ok id) ∷ [];
      })
  answer-Running xs id c m ys e =
      let job : Frame × Msg = (id, c ∷ [] ∷ m ∷ []) in
      let names : All IsJob (xs ++ job ∷ ys) = subst (All IsJob) e v.job_names in
      let behind = All-append_right IsJob xs (job ∷ ys) names in
      let whole = short-IsName c behind.0.1.0 in
      let reply = done id c (said_ok id) in
      rw (received-text 256 c whole.0 whole.1) (record {
        free = v.free;
        view = v.view;
        workers = omega (
          arith,
          v.workers,
          ap length e,
          length-append xs (job ∷ ys),
          length-append xs ys,
          length-append s.back (reply ∷ []),
        );
        requests = λ weight. omega (
          arith,
          v.requests weight,
          ap (weigh (of_job weight)) e,
          weigh-append (of_job weight) xs (job ∷ ys),
          weigh-append (of_job weight) xs ys,
          weigh-append (of_said weight) s.back (reply ∷ []),
        );
        free_names = v.free_names;
        unsent_names = v.unsent_names;
        front_names = v.front_names;
        unready_names = v.unready_names;
        back_names =
            All-append IsTold s.back (reply ∷ []) v.back_names
              ((behind.0.0, behind.0.1, said_ok-fits id behind.0.0.1 behind.0.0.0), tt);
        job_names = All-append IsJob xs ys (All-append_left IsJob xs (job ∷ ys) names) behind.1;
      })
