-- ===== src/Hello/Server/Stopping.antt =====
-- The server of src/helloworld stops after a signal.
use zmq_test.Common.{ℕ, ◌+◌, ◌≡◌, Bool, true, false, ◌||◌, List, [], ◌∷◌, All, if◌then◌else◌}
use zmq_test.Base.Signals.{any_signal}
use zmq_test.Hello.Server.{Round, Effect, sent, Server, Outcome, running, stopped, killed}

-- How often the server answers.
abbrev pub answers : List Effect → ℕ
answers [] = 0
answers (sent f ∷ es) = 1 + answers es
answers (_ ∷ es) = answers es

-- The rounds before the one in which a signal comes to a waiting server, and the one in which a
-- signal comes while it sleeps.
abbrev pub served : List Round → ℕ
served [] = 0
served (r ∷ rs) =
    if any_signal r.in_recv then 0 else if any_signal r.in_sleep then 1 else 1 + served rs

abbrev pub signalled_in : List Round → Bool
signalled_in [] = false
signalled_in (r ∷ rs) = any_signal r.in_recv || (any_signal r.in_sleep || signalled_in rs)

-- It was not killed and has given this many answers; it runs only if `S_INTERRUPTED` has this value.
abbrev pub Obeys : ℕ → Bool → Outcome → Type 0
Obeys n b (running s) = (answers s.trace ≡ n) × (s.process.interrupted ≡ b)
Obeys n b (stopped s) = (answers s.trace ≡ n) × (b ≡ true)
Obeys n b (killed s) = ⊥

module _ (handled : ℕ → Bool) where
  Handles : Round → Type 0
  Handles r = All (λ n. handled n ≡ true) r.in_recv × All (λ n. handled n ≡ true) r.in_sleep

  state : Bool → List ℕ → List Effect → Server
  state interrupted buffer trace = record {
    process = record { interrupted = interrupted; handled = handled };
    buffer = buffer;
    trace = trace;
  }
