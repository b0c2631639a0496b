-- ===== src/Rrb/Broker/Passing.antt =====
-- The broker of src/rrb passes whole messages on.
use zmq_test.Common.{
  ◌≡◌, refl, sym, ap, ◌∙◌, Option, none, some, Bool, true, false, List, [], ◌∷◌, ◌++◌, append_assoc,
  append-nil, if◌then◌else◌,
}
use zmq_test.Czmq.{Frame, Msg}
use zmq_test.Base.Transport.{Call}
use zmq_test.Rrb.Broker.{
  Broker, Poll, recv_multipart_msg, on_frontend, on_backend, turn, run, ◌>>=◌,
}

-- The parts of a message with a first frame.
abbrev pub parts : Frame → Msg → List Call
parts f [] = record { bytes = f; more = false } ∷ []
parts f (g ∷ m) = record { bytes = f; more = true } ∷ parts g m

abbrev pub stream : List (Frame × Msg) → List Call
stream [] = []
stream ((f, m) ∷ ms) = parts f m ++ stream ms

stream-append : (ms ns : List (Frame × Msg)) → stream (ms ++ ns) ≡ stream ms ++ stream ns
stream-append [] ns = refl
stream-append ((f, m) ∷ ms) ns =
    ap (λ s. parts f m ++ s) (stream-append ms ns)
    ∙ sym (append_assoc (parts f m) (stream ms) (stream ns))

recv_multipart_msg-parts :
    (f : Frame) (m : Msg) (rest : List Call)
    → recv_multipart_msg (parts f m ++ rest) ≡ some (parts f m, rest)
unfolding recv_multipart_msg
recv_multipart_msg-parts f [] rest = refl
recv_multipart_msg-parts f (g ∷ m) rest = rw (recv_multipart_msg-parts g m rest) refl

-- The requests and replies that wait, and those that were passed on.
pub record Traffic : Type 0 where
  pub requests : List (Frame × Msg)
  pub replies : List (Frame × Msg)
  pub requested : List (Frame × Msg)
  pub replied : List (Frame × Msg)

abbrev pub broker_of : Traffic → Broker
broker_of t = record {
  frontend = stream t.requests;
  backend = stream t.replies;
  to_frontend = stream t.replied;
  to_backend = stream t.requested;
}

abbrev pub pass_request : Bool → Traffic → Option Traffic
pass_request false t = some t
pass_request true t = elim t.requests [
  | [] ↦ none
  | r ∷ rs ↦ some (record t { requests = rs; requested = t.requested ++ r ∷ [] })
]

abbrev pub pass_reply : Bool → Traffic → Option Traffic
pass_reply false t = some t
pass_reply true t = elim t.replies [
  | [] ↦ none
  | r ∷ rs ↦ some (record t { replies = rs; replied = t.replied ++ r ∷ [] })
]

infixl 5 ◌then◌
abbrev pub ◌then◌ : Option Traffic → (Traffic → Option Traffic) → Option Traffic
none then f = none
some t then f = f t

-- Whole messages are passed on.
abbrev pub pass : Traffic → List Poll → Option Traffic
pass t [] = some t
pass t (p ∷ ps) = pass_request p.frontend t then pass_reply p.backend then λ u. pass u ps

abbrev pub brokers : Option Traffic → Option Broker
brokers none = none
brokers (some t) = some (broker_of t)

stream-last :
    (ms : List (Frame × Msg)) (f : Frame) (m : Msg)
    → stream (ms ++ (f, m) ∷ []) ≡ stream ms ++ parts f m
stream-last ms f m =
    stream-append ms ((f, m) ∷ []) ∙ ap (λ s. stream ms ++ s) (append-nil (parts f m))

on_frontend-pass :
    (e : Bool) (t : Traffic) → on_frontend e (broker_of t) ≡ brokers (pass_request e t)
unfolding on_frontend
on_frontend-pass false t = refl
on_frontend-pass true t = go t.requests
  where
    go :
        (rs : List (Frame × Msg))
        → on_frontend true (broker_of (record t { requests = rs }))
          ≡ brokers (pass_request true (record t { requests = rs }))
    go [] = refl
    go ((f, m) ∷ rs) =
        rw (recv_multipart_msg-parts f m (stream rs), stream-last t.requested f m) refl

on_backend-pass : (e : Bool) (t : Traffic) → on_backend e (broker_of t) ≡ brokers (pass_reply e t)
unfolding on_backend
on_backend-pass false t = refl
on_backend-pass true t = go t.replies
  where
    go :
        (rs : List (Frame × Msg))
        → on_backend true (broker_of (record t { replies = rs }))
          ≡ brokers (pass_reply true (record t { replies = rs }))
    go [] = refl
    go ((f, m) ∷ rs) = rw (recv_multipart_msg-parts f m (stream rs), stream-last t.replied f m) refl

-- What agrees step by step agrees.
bind-brokers :
    (o : Option Traffic) (f : Traffic → Option Traffic) (g : Broker → Option Broker)
    → ((t : Traffic) → g (broker_of t) ≡ brokers (f t))
    → (brokers o >>= g) ≡ brokers (o then f)
bind-brokers none f g h = refl
bind-brokers (some t) f g h = h t

pub turn-pass :
    (t : Traffic) (p : Poll)
    → turn (broker_of t) p ≡ brokers (pass_request p.frontend t then pass_reply p.backend)
unfolding turn
turn-pass t p =
    ap (λ o. o >>= on_backend p.backend) (on_frontend-pass p.frontend t)
    ∙ bind-brokers (pass_request p.frontend t) (pass_reply p.backend) (on_backend p.backend)
        (on_backend-pass p.backend)

-- Whatever messages of at least one frame the two sockets have to receive, and in whatever order the
-- polls report them, the loop passes whole messages on, as a relay does that has a list of requests
-- and a list of replies: each goes to the other socket with all its parts, in the order in which they
-- came, and is never mixed with another. It waits for a part only if a poll reports a message where
-- there is none.
pub run-pass : (t : Traffic) (ps : List Poll) → run (broker_of t) ps ≡ brokers (pass t ps)
unfolding run
run-pass t [] = refl
run-pass t (p ∷ ps) =
    ap (λ o. o >>= λ c. run c ps) (turn-pass t p)
    ∙ bind-brokers (pass_request p.frontend t then pass_reply p.backend) (λ u. pass u ps)
        (λ c. run c ps) (λ u. run-pass u ps)
