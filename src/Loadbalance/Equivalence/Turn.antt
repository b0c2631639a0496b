-- ===== src/Loadbalance/Equivalence/Turn.antt =====
-- Both brokers do the same in a turn, and in a run.
use zmq_test.Common.{
  ℕ, suc, ◌+◌, ◌-◌, ◌≡◌, ◌⊎◌, refl, sym, ap, ◌∙◌, inl, inr, Option, none, some, List, [], ◌∷◌, ◌++◌,
  map, append_assoc, append-nil, arith, ◌==◌, if◌then◌else◌, Bool-cases,
}
use mathlib.Core.List.{map-append}
use zmq_test.Czmq.{Frame}
use zmq_test.Base.Strings.{received, received-text}
use zmq_test.Loadbalance.Array
use zmq_test.Loadbalance.Array.{on, ◌>>=◌, on_backend, on_frontend, polled, starts_with_w}
use zmq_test.Loadbalance.Array.Handling.{Holds}
use zmq_test.Loadbalance.Array.Explicit.{
  after_ready-Holds, after_done-Holds, on_backend-ready, on_backend-done, after_asks-Holds,
  on_frontend-asks, turn-eq, polled-nobody, polled-somebody,
}
use zmq_test.Loadbalance.Array.Tasks.{said_ready, said_ready-starts}
use zmq_test.Loadbalance.Lists
use zmq_test.Loadbalance.Lists.Service.{Service, heard, given, given_in_turn, serve}
use zmq_test.Loadbalance.Equivalence.{
  Said, ready, done, Happening, array_said, lists_said, array_asked, lists_asked, array_poll,
  lists_poll, sent, IsName, IsSaid, IsAsked, IsPlain, Room,
}

-- How many replies went out.
abbrev pub replies : List Array.Effect → ℕ
replies [] = 0
replies (Array.to_frontend m ∷ es) = suc (replies es)
replies (Array.to_backend m ∷ es) = replies es

replies-append : (es fs : List Array.Effect) → replies (es ++ fs) ≡ replies es + replies fs
replies-append [] fs = omega arith
replies-append (Array.to_frontend m ∷ es) fs = omega (arith, replies-append es fs)
replies-append (Array.to_backend m ∷ es) fs = replies-append es fs

-- The array holds the queue's names, the same was sent, and the replies are counted down from ten.
abbrev pub Sim : Array.Broker → Service → Type 0
Sim a s = Holds a s.0 × (map sent a.trace ≡ s.1) × (a.client_nbr + replies a.trace ≡ 10)

-- lbbroker.c has sent ten replies and ended, and what it sent was sent by then.
abbrev pub EndsIn : Array.Broker → List Lists.Effect → Type 0
EndsIn a out =
    (replies a.trace ≡ 10) × ((more : List Lists.Effect) × (out ≡ map sent a.trace ++ more))

abbrev pub Follows : Array.Outcome → Lists.Outcome Service → Type 0
Follows (Array.running a) (Lists.running s) = Sim a s
Follows (Array.finished a) (Lists.running s) = EndsIn a s.1
Follows (Array.finished a) (Lists.stopped s) = EndsIn a s.1 ⊎ (s.1 ≡ map sent a.trace)
Follows _ _ = ⊥

-- The same after the backend.
abbrev Heard : Array.Outcome → Service → Type 0
Heard (Array.running a) s = Sim a s
Heard (Array.finished a) s = (replies a.trace ≡ 10) × (map sent a.trace ≡ s.1)
Heard _ _ = ⊥

name-received : (s : Frame) → IsName s → received 256 s ≡ s
name-received s h = received-text 256 s h.0 h.1

on_backend-Heard :
    (a : Array.Broker) (s : Service) (w : Option Said)
    → Sim a s
    → IsSaid w
    → Room s.0 w
    → Heard (on on_backend a (array_said w)) (heard s (lists_said w))
on_backend-Heard a s none v h r = v
on_backend-Heard a (free, out) (some (ready id)) v h r =
    rw
      (on_backend-ready a free v.0 id (said_ready id) r (name-received id h) (said_ready-starts id))
      (after_ready-Holds a free v.0 id r, v.1, v.2)
on_backend-Heard a (free, out) (some (done id c m)) v (hi, hc, hm) r =
    let e =
      on_backend-done a free v.0 id c m r (name-received id hi) (name-received c hc.0)
        (name-received m hm) hc.1 in
    let sent_too : map sent (a.trace ++ Array.to_frontend (c ∷ [] ∷ m ∷ []) ∷ [])
        ≡ out ++ Lists.to_frontend (c ∷ [] ∷ m ∷ []) ∷ [] =
      map-append sent a.trace _ ∙ ap (λ t. t ++ Lists.to_frontend (c ∷ [] ∷ m ∷ []) ∷ []) v.1 in
    let n = replies-append a.trace (Array.to_frontend (c ∷ [] ∷ m ∷ []) ∷ []) in
    let open_too = v.0.open_requests in
    elim (Bool-cases (a.client_nbr - 1 == 0)) [
      | inl last ↦ rw (e, last, hc.2) (ground (arith, n), sent_too)
      | inr more ↦
          rw (e, more, hc.2)
            (
              after_done-Holds a free v.0 id (c ∷ [] ∷ m ∷ []) r more,
              sent_too,
              omega (arith, n, v.2),
            )
    ]

on_frontend-Sim :
    (a : Array.Broker) (s : Service) (id : Frame) (free : List Frame) (q : Option (Frame × Frame))
    → s.0 ≡ id ∷ free
    → Sim a s
    → IsAsked q
    → Follows (on on_frontend a (array_asked q)) (Lists.running (given s (lists_asked q)))
on_frontend-Sim a ([], out) id free q e v h = cc
on_frontend-Sim a (x ∷ xs, out) id free none e v h = v
on_frontend-Sim a (x ∷ xs, out) id free (some (c, m)) e v (hc, hm) =
    rw (on_frontend-asks a x xs v.0 c m (name-received c hc.0) (name-received m hm)) (
      after_asks-Holds a x xs v.0 (c ∷ [] ∷ m ∷ []),
      map-append sent a.trace _
          ∙ ap (λ t. t ++ Lists.to_backend (x ∷ [] ∷ c ∷ [] ∷ m ∷ []) ∷ []) v.1,
      omega (arith, v.2, replies-append a.trace (Array.to_backend (x ∷ [] ∷ c ∷ [] ∷ m ∷ []) ∷ [])),
    )

-- What a queue has sent stays.
abbrev pub Grows : List Lists.Effect → List Lists.Effect → Type 0
Grows out out' = (more : List Lists.Effect) × (out' ≡ out ++ more)

pub Grows-trans : (a b c : List Lists.Effect) → Grows a b → Grows b c → Grows a c
Grows-trans a b c (m, p) (n, q) = (m ++ n, q ∙ ap (λ t. t ++ n) p ∙ append_assoc a m n)

pub Grows-refl : (a : List Lists.Effect) → Grows a a
Grows-refl a = ([], sym (append-nil a))

pub given-Grows :
    (free : List Frame) (t : Service) (j : Lists.Input) → Grows t.1 (given_in_turn free t j).1
given-Grows [] t j = Grows-refl t.1
given-Grows (id ∷ free) ([], out) j = Grows-refl out
given-Grows (id ∷ free) (x ∷ xs, out) Lists.quiet = Grows-refl out
given-Grows (id ∷ free) (x ∷ xs, out) Lists.closed = Grows-refl out
given-Grows (id ∷ free) (x ∷ xs, out) (Lists.arrived m) = (Lists.to_backend (x ∷ [] ∷ m) ∷ [], refl)

heard-keeps :
    (s : Service) (w : Option Said) (id : Frame) (free : List Frame)
    → s.0 ≡ id ∷ free
    → (id' : Frame) × (r : List Frame) × ((heard s (lists_said w)).0 ≡ id' ∷ r)
heard-keeps s none id free e = (id, free, e)
heard-keeps ([], out) (some (ready i)) id free e = (i, [], refl)
heard-keeps (x ∷ xs, out) (some (ready i)) id free e = (x, xs ++ i ∷ [], refl)
heard-keeps ([], out) (some (done i c m)) id free e = (i, [], refl)
heard-keeps (x ∷ xs, out) (some (done i c m)) id free e = (x, xs ++ i ∷ [], refl)

-- A turn of the queue with a happening.
pub serve-eq :
    (s : Service) (h : Happening)
    → serve s (lists_poll h) ≡ (
        if h.interrupted
        then Lists.stopped s
        else Lists.running
            (given_in_turn s.0 (heard s (lists_said h.worker)) (lists_asked h.client)))
serve-eq s h = go h.worker
  where
    go :
        (w : Option Said)
        → serve s (record {
          failed = h.interrupted;
          backend = lists_said w;
          frontend = lists_asked h.client;
        })
          ≡ (if h.interrupted
              then Lists.stopped s
              else Lists.running
                  (given_in_turn s.0 (heard s (lists_said w)) (lists_asked h.client)))
    go none = refl
    go (some (ready id)) = refl
    go (some (done id c m)) = refl

frontend-Follows :
    (a : Array.Broker) (free : List Frame) (o : Array.Outcome) (t : Service)
    (q : Option (Frame × Frame))
    → Holds a free
    → Heard o t
    → ((id : Frame) (r : List Frame)
        → free ≡ id ∷ r
        → (id' : Frame) × (r' : List Frame) × (t.0 ≡ id' ∷ r'))
    → IsAsked q
    → Follows
        (o >>= λ b. on on_frontend b (polled a (array_asked q)))
        (Lists.running (given_in_turn free t (lists_asked q)))
frontend-Follows a [] (Array.running b) t q v h k hq =
    rw (polled-nobody a (array_asked q) (omega (arith, v.count))) h
frontend-Follows a (id ∷ r) (Array.running b) t q v h k hq =
    let (id', r', e) = k id r refl in
    rw (polled-somebody a (array_asked q) (omega (arith, v.count)))
      (on_frontend-Sim b t id' r' q e h hq)
frontend-Follows a free (Array.finished b) t q v h k hq =
    let (more, e) = given-Grows free t (lists_asked q) in
    (h.0, (more, e ∙ ap (λ x. x ++ more) (sym h.1)))
frontend-Follows a free Array.aborted t q v h k hq = absurd h
frontend-Follows a free Array.blocked t q v h k hq = absurd h
frontend-Follows a free (Array.unread b) t q v h k hq = absurd h

pub turn-Follows :
    (a : Array.Broker) (s : Service) (h : Happening)
    → Sim a s
    → IsPlain h
    → Room s.0 h.worker
    → Follows (Array.turn a (array_poll h)) (serve s (lists_poll h))
turn-Follows a s h v p r =
    rw (turn-eq a (array_poll h), serve-eq s h)
      (elim (Bool-cases h.interrupted) [
        | inl e ↦ rw e (inr (sym v.1))
        | inr e ↦ rw e (
            frontend-Follows a s.0 (on on_backend a (array_said h.worker))
              (heard s (lists_said h.worker)) h.client v.0 (on_backend-Heard a s h.worker v p.0 r)
              (heard-keeps s h.worker) p.1)
      ])
