-- ===== src/Rrb/Whole/Relay.antt =====
-- What a turn of the broker does to the messages: it takes the first one of a socket to the other.
use zmq_test.Common.{
  ℕ, ◌≡◌, refl, sym, ap, ◌∙◌, subst, Option, none, some, Bool, true, false, List, [], ◌∷◌, ◌++◌,
  length, append-nil, if◌then◌else◌,
}
use zmq_test.Czmq.{Frame, Msg}
use zmq_test.Base.Transport.{Call}
use zmq_test.Rrb.Broker.{Broker, Poll, turn}
use zmq_test.Rrb.Broker.Passing.{
  parts, stream, Traffic, broker_of, brokers, pass_request, pass_reply, ◌then◌, turn-pass,
}

-- The messages of parts.
in_front : Call → List (Frame × Msg) → List (Frame × Msg)
in_front part [] = (part.bytes, []) ∷ []
in_front part ((f, m) ∷ ms) =
    if part.more then (part.bytes, f ∷ m) ∷ ms else (part.bytes, []) ∷ (f, m) ∷ ms

messages : List Call → List (Frame × Msg)
unfolding in_front
messages [] = []
messages (part ∷ parts) = in_front part (messages parts)

in_front-last :
    (f : Frame) (ms : List (Frame × Msg))
    → in_front (record { bytes = f; more = false }) ms ≡ (f, []) ∷ ms
unfolding in_front
in_front-last f [] = refl
in_front-last f ((g, m) ∷ ms) = refl

messages-parts :
    (f : Frame) (m : Msg) (rest : List Call) → messages (parts f m ++ rest) ≡ (f, m) ∷ messages rest
unfolding messages
messages-parts f [] rest = in_front-last f (messages rest)
messages-parts f (g ∷ m) rest = rw (messages-parts g m rest) refl

messages-stream : (ms : List (Frame × Msg)) → messages (stream ms) ≡ ms
unfolding messages
messages-stream [] = refl
messages-stream ((f, m) ∷ ms) =
    messages-parts f m (stream ms) ∙ ap (◌∷◌ (f, m)) (messages-stream ms)

-- The broker's state determines the messages.
traffic_of : Broker → Traffic
traffic_of b = record {
  requests = messages b.frontend;
  replies = messages b.backend;
  requested = messages b.to_backend;
  replied = messages b.to_frontend;
}

traffic_of-broker_of : (t : Traffic) → traffic_of (broker_of t) ≡ t
unfolding traffic_of
traffic_of-broker_of t =
    rw
      (
        messages-stream t.requests,
        messages-stream t.replies,
        messages-stream t.requested,
        messages-stream t.replied,
      )
      refl

traffics : Option Broker → Option Traffic
traffics none = none
traffics (some b) = some (traffic_of b)

traffics-brokers : (o : Option Traffic) → traffics (brokers o) ≡ o
unfolding traffics
traffics-brokers none = refl
traffics-brokers (some t) = ap some (traffic_of-broker_of t)

turn-Traffic :
    (s t : Traffic) (p : Poll)
    → turn (broker_of s) p ≡ some (broker_of t)
    → (pass_request p.frontend s then pass_reply p.backend) ≡ some t
unfolding traffics
turn-Traffic s t p e =
    sym (traffics-brokers (pass_request p.frontend s then pass_reply p.backend))
    ∙ ap traffics (sym (turn-pass s p) ∙ e)
    ∙ ap some (traffic_of-broker_of t)

abbrev pub count : Bool → ℕ
count true = 1
count false = 0

-- What went from one list to the end of another, one message or none.
pub record Hop (xs ys xs' ys' : List (Frame × Msg)) (n : ℕ) : Type 0 where
  pub moved : List (Frame × Msg)
  pub from : xs ≡ moved ++ xs'
  pub to : ys' ≡ ys ++ moved
  pub one : length moved ≡ n

stay : (xs ys : List (Frame × Msg)) → Hop xs ys xs ys 0
stay xs ys = record { moved = []; from = refl; to = sym (append-nil ys); one = refl }

hop : (x : Frame × Msg) (xs ys : List (Frame × Msg)) → Hop (x ∷ xs) ys xs (ys ++ x ∷ []) 1
hop x xs ys = record { moved = x ∷ []; from = refl; to = refl; one = refl }

-- A turn takes a request and a reply on, where the poll reports them.
pub record Turned (s t : Traffic) (p : Poll) : Type 0 where
  pub request : Hop s.requests s.requested t.requests t.requested (count p.frontend)
  pub reply : Hop s.replies s.replied t.replies t.replied (count p.backend)

Turned-Some : Traffic → Poll → Option Traffic → Type 0
Turned-Some s p none = Unit
Turned-Some s p (some t) = Turned s t p

pass-Turned :
    (s : Traffic) (p : Poll) → Turned-Some s p (pass_request p.frontend s then pass_reply p.backend)
unfolding Turned-Some
pass-Turned s p = go s.requests s.replies p.frontend p.backend
  where
    go :
        (qs rs : List (Frame × Msg)) (e f : Bool)
        → let s' = record s { requests = qs; replies = rs } in
          let p' : Poll = record { frontend = e; backend = f } in
          Turned-Some s' p' (pass_request e s' then pass_reply f)
    go qs rs false false = record { request = stay qs s.requested; reply = stay rs s.replied }
    go [] rs true f = tt
    go (q ∷ qs) rs true false = record { request = hop q qs s.requested; reply = stay rs s.replied }
    go qs [] false true = tt
    go (q ∷ qs) [] true true = tt
    go qs (r ∷ rs) false true = record { request = stay qs s.requested; reply = hop r rs s.replied }
    go (q ∷ qs) (r ∷ rs) true true = record {
      request = hop q qs s.requested;
      reply = hop r rs s.replied;
    }

pub turn-Turned :
    (s t : Traffic) (p : Poll) → turn (broker_of s) p ≡ some (broker_of t) → Turned s t p
unfolding Turned-Some
turn-Turned s t p e = subst (Turned-Some s p) (turn-Traffic s t p e) (pass-Turned s p)

-- With one socket reported that has a message, the broker goes on.
pub turn_request :
    (t : Traffic) (q : Frame × Msg) (qs : List (Frame × Msg))
    → t.requests ≡ q ∷ qs
    → turn (broker_of t) (record { frontend = true; backend = false })
      ≡ some (broker_of (record t { requests = qs; requested = t.requested ++ q ∷ [] }))
turn_request t q qs e =
    turn-pass t (record { frontend = true; backend = false })
    ∙ ap (λ o. brokers (o then pass_reply false)) ahead
  where
    ahead :
        pass_request true t ≡ some (record t { requests = qs; requested = t.requested ++ q ∷ [] })
    ahead = rw e refl

pub turn_reply :
    (t : Traffic) (r : Frame × Msg) (rs : List (Frame × Msg))
    → t.replies ≡ r ∷ rs
    → turn (broker_of t) (record { frontend = false; backend = true })
      ≡ some (broker_of (record t { replies = rs; replied = t.replied ++ r ∷ [] }))
turn_reply t r rs e = turn-pass t (record { frontend = false; backend = true }) ∙ ap brokers ahead
  where
    ahead : pass_reply true t ≡ some (record t { replies = rs; replied = t.replied ++ r ∷ [] })
    ahead = rw e refl
