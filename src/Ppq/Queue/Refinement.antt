-- ===== src/Ppq/Queue/Refinement.antt =====
-- The phases of a turn of src/ppq/queue.c do what `Service` says.
pub mod Runs
use zmq_test.Common.{
  ℕ, zero, suc, ◌+◌, ◌<◌, ◌≡◌, ◌≢◌, refl, sym, ap, ◌∙◌, inl, inr, false, List, map, [], ◌∷◌, ◌++◌,
  head?, All, length, ltb, leb, ◌==◌, some, Bool-cases, List-cases, append-ne-nil, arith,
}
use zmq_test.Czmq.{Frame, Msg, Zmsg, Zlist, first-cursor}
use zmq_test.Ppq.Defs.{Worker, ppp_ready, ppp_heartbeat}
use zmq_test.Ppq.Queue.{
  Input, quiet, closed, arrived, Poll, to_backend, Broker, Outcome, running, stopped, aborted,
  ◌>>=◌, same_first_byte, check_signal, worker_new, polled, purge_scan, worker_purge, heartbeats,
  on_backend, on_frontend, step, run, start,
}
use zmq_test.Ppq.Queue.Registry.{beats, heartbeat_scan-beats}
use zmq_test.Ppq.Queue.Routing.{answer, on_backend_lem, on_frontend_lem}
use zmq_test.Ppq.Queue.Invariant.{IsRouted}
use zmq_test.Ppq.Queue.Service.{
  Entry, Service, forget, spoken, body, expire, given, asked, beaten, purged, told, serve,
  serve_all, opening,
}
use zmq_test.Ppq.Queue.Entries.{worker, drop_id-forget, map-snoc, beats-worker, length-map}

module _ (Z : Zlist Worker) (clock : ℕ → ℕ) (C : Zmsg) where
  open Z use {Carrier, items, first, remove, items-first, items-remove, size, size_lem}

  -- The list holds the `worker_t` of each entry, and the rest of the state is the same.
  pub record Views (b : Broker Carrier) (s : Service) : Type 0 where
    pub list : items b.workers ≡ map (worker C) s.workers
    pub time : b.heartbeat_at ≡ s.heartbeat_at
    pub looks : b.reads ≡ s.reads
    pub said : b.trace ≡ s.trace

  pub length-list :
      (b : Broker Carrier) (s : Service) → Views b s → length s.workers ≡ size b.workers
  length-list b s v = sym (size_lem b.workers ∙ ap length v.list ∙ length-map C s.workers)

  answer-spoken : (m : Msg) → answer Z clock C m ≡ spoken m
  unfolding check_signal
  answer-spoken [] = refl
  answer-spoken (f ∷ []) = rw (C.first-cons f []) (elim (Bool-cases (same_first_byte f ppp_ready)) [
    | inl r ↦ rw r refl
    | inr r ↦ elim (Bool-cases (same_first_byte f ppp_heartbeat)) [
      | inl h ↦ rw (r, h) refl
      | inr h ↦ rw (r, h) refl
    ]
  ])
  answer-spoken (f ∷ g ∷ m) =
      let more : (suc (suc (length m)) == 1) ≡ false = ground arith in rw more refl

  purge_scan-expire :
      (fuel reads : ℕ) (free : List Entry) (l : Carrier)
      → items l ≡ map (worker C) free
      → length free < fuel
      → let (l', reads') = purge_scan Z clock fuel reads (head? (map (worker C) free), l) in
        let (free', looks) = expire clock reads free in
        (items l' ≡ map (worker C) free') × (reads' ≡ looks)
  unfolding purge_scan
  purge_scan-expire zero reads free l e h = absurd (omega arith)
  purge_scan-expire (suc fuel) reads [] l e h = (e, refl)
  purge_scan-expire (suc fuel) reads (w ∷ free) l e h = elim (Bool-cases (ltb (clock reads) w.1)) [
    | inl alive ↦ rw alive (e, refl)
    | inr over ↦
        let left : items (remove l (worker C w)) ≡ map (worker C) free =
          items-remove l (worker C w) [] (map (worker C) free) e tt in
        let f = first (remove l (worker C w)) in
        let p = purge_scan-expire fuel (suc reads) free f.1 (items-first _ ∙ left) (omega arith) in
        rw (over, first-cursor Z left) p
  ]

  -- The same end, with the same state.
  abbrev pub Serves : Outcome (Broker Carrier) → Outcome Service → Type 0
  Serves (running b) (running s) = Views b s
  Serves (stopped b) (stopped s) = Views b s
  Serves _ _ = ⊥

  pub Serves-bind :
      (o : Outcome (Broker Carrier)) (q : Outcome Service)
      (f : Broker Carrier → Outcome (Broker Carrier)) (g : Service → Outcome Service)
      → Serves o q
      → ((b : Broker Carrier) (s : Service) → q ≡ running s → Views b s → Serves (f b) (g s))
      → Serves (o >>= f) (q >>= g)
  Serves-bind (running b) (running s) f g h k = k b s refl h
  Serves-bind (running b) (stopped s) f g h k = absurd h
  Serves-bind (running b) aborted f g h k = absurd h
  Serves-bind (stopped b) (running s) f g h k = absurd h
  Serves-bind (stopped b) (stopped s) f g h k = h
  Serves-bind (stopped b) aborted f g h k = absurd h
  Serves-bind aborted q f g h k = absurd h

  unwrap-body : (id : Frame) (m : Msg) → C.unwrap (id ∷ m) ≡ (some id, body m)
  unwrap-body id [] = C.unwrap-one id
  unwrap-body id ([] ∷ m) = C.unwrap-empty id m
  unwrap-body id ((c ∷ g) ∷ m) = C.unwrap-frame id c g m

  pub on_backend-told :
      (i : Input) (b : Broker Carrier) (s : Service)
      → IsRouted i
      → Views b s
      → Serves (on_backend Z clock C i b) (told clock s i)
  unfolding on_backend worker_new
  on_backend-told quiet b s r v = v
  on_backend-told closed b s r v = v
  on_backend-told (arrived []) b s r v = absurd (r refl)
  on_backend-told (arrived (id ∷ m)) b s r v =
      let (c, e, list, out, time, looks) =
        on_backend_lem Z clock C b (id ∷ m) (body m) id (unwrap-body id m) in
      rw e (record {
        list =
            list
            ∙ rw (v.list, v.looks)
                (ap (λ ws. ws ++ worker_new C id (clock s.reads) ∷ [])
                    (drop_id-forget C id s.workers)
                  ∙ sym (map-snoc C (forget id s.workers) (id, clock s.reads + 3000)));
        time = time ∙ v.time;
        looks = looks ∙ ap suc v.looks;
        said = out ∙ rw v.said (ap (λ es. s.trace ++ es) (answer-spoken (body m)));
      })

  pub on_frontend-given :
      (m : Msg) (b : Broker Carrier) (s : Service) (e : Entry) (free : List Entry)
      → s.workers ≡ e ∷ free
      → Views b s
      → Serves (on_frontend Z clock C (arrived m) b) (running (given s.workers s m))
  on_frontend-given m b s e free q v =
      let (c, r, list, out, time, looks) =
        on_frontend_lem Z clock C b m (worker C e) (map (worker C) free)
          (v.list ∙ ap (map (worker C)) q) in
      rw r (
        rw q (record {
          list = list;
          time = time ∙ v.time;
          looks = looks ∙ v.looks;
          said = out ∙ ap (λ es. es ++ to_backend (e.0 ∷ m) ∷ []) v.said;
        }))

  pub heartbeats-beaten :
      (b : Broker Carrier) (s : Service) → Views b s → Views (heartbeats Z clock b) (beaten clock s)
  unfolding heartbeats
  heartbeats-beaten b s v =
      let (sent, same) = heartbeat_scan-beats Z b.workers in
      let beat = sent ∙ ap beats v.list ∙ beats-worker C s.workers in
      elim (Bool-cases (leb s.heartbeat_at (clock s.reads))) [
        | inl due ↦
            rw (v.time, v.looks, due)
              (record {
                list = same ∙ v.list;
                time = refl;
                looks = refl;
                said = rw (v.said, beat) refl;
              })
        | inr early ↦
            rw (v.time, v.looks, early)
              (record { list = v.list; time = refl; looks = refl; said = v.said })
      ]

  pub worker_purge-purged :
      (b : Broker Carrier) (s : Service)
      → Views b s
      → Views (worker_purge Z clock b) (purged clock s)
  unfolding worker_purge
  worker_purge-purged b s v =
      let p =
        purge_scan-expire (suc (size b.workers)) s.reads s.workers (first b.workers).1
          (items-first b.workers ∙ v.list) (omega (arith, length-list b s v)) in
      rw (first-cursor Z v.list, v.looks)
        (record { list = p.0; time = v.time; looks = p.1; said = v.said })
