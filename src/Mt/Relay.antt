-- ===== src/Mt/Relay.antt =====
-- src/mt/relay.c: three threads that signal each other over PAIR sockets. A thread is the list of the
-- calls that it has still to make; any thread may make its next call at any time. The text of a
-- signal, READY, is not kept, since nothing reads it.
pub mod Signalling
use zmq_test.Common.{
  ℕ, ◌≡◌, Option, none, some, Bool, true, false, ◌||◌, List, [], ◌∷◌, ◌++◌, ◌==◌, if◌then◌else◌,
}

-- The two functions that threads run, and the number in a socket's address.
pub data Routine : Type 0 where
  step1 : Routine
  step2 : Routine

pub data Line : Type 0 where
  step1_ready : Line
  step2_ready : Line
  test_successful : Line

pub data Call : Type 0 where
  bind : ℕ → Call
  connect : ℕ → Call
  pthread_create : Routine → Call
  debug_log : Line → Call
  s_send : ℕ → Call
  s_recv : ℕ → Call
  close : Call

-- The functions of the source.
abbrev pub routine : Routine → List Call
routine step1 = connect 2 ∷ debug_log step1_ready ∷ s_send 2 ∷ close ∷ []
routine step2 =
    bind 2
    ∷ pthread_create step1
    ∷ s_recv 2
    ∷ close
    ∷ connect 3
    ∷ debug_log step2_ready
    ∷ s_send 3
    ∷ close
    ∷ []

abbrev pub main : List Call
main = bind 3 ∷ pthread_create step2 ∷ s_recv 3 ∷ close ∷ debug_log test_successful ∷ []

-- What the threads share: the addresses that are bound, those that were connected to before they
-- were, the signals on the way, and what was printed.
pub record System : Type 0 where
  pub in_main : List Call
  pub in_step2 : List Call
  pub in_step1 : List Call
  pub bound : List ℕ
  pub refused : List ℕ
  pub signals : List ℕ
  pub printed : List Line

abbrev pub member : ℕ → List ℕ → Bool
member n [] = false
member n (m ∷ ms) = (n == m) || member n ms

abbrev pub without : ℕ → List ℕ → List ℕ
without n [] = []
without n (m ∷ ms) = if n == m then ms else m ∷ without n ms

-- A call; `none` where it waits.
unfoldable pub perform : Call → System → Option System
perform (bind n) s = some (record s { bound = s.bound ++ n ∷ [] })
perform (connect n) s =
    some (if member n s.bound then s else record s { refused = s.refused ++ n ∷ [] })
perform (pthread_create step1) s = some (record s { in_step1 = routine step1 })
perform (pthread_create step2) s = some (record s { in_step2 = routine step2 })
perform (debug_log line) s = some (record s { printed = s.printed ++ line ∷ [] })
perform (s_send n) s = some (record s { signals = s.signals ++ n ∷ [] })
perform (s_recv n) s =
    if member n s.signals then some (record s { signals = without n s.signals }) else none
perform close s = some s

pub data Thread : Type 0 where
  of_main : Thread
  of_step2 : Thread
  of_step1 : Thread

abbrev calls : Thread → System → List Call
calls of_main s = s.in_main
calls of_step2 s = s.in_step2
calls of_step1 s = s.in_step1

abbrev left : Thread → List Call → System → System
left of_main cs s = record s { in_main = cs }
left of_step2 cs s = record s { in_step2 = cs }
left of_step1 cs s = record s { in_step1 = cs }

unfoldable pub next_call : Thread → System → List Call → Option System
unfolding perform
next_call t s [] = none
next_call t s (c ∷ cs) = perform c (left t cs s)

-- The next call of a thread.
unfoldable pub step : Thread → System → Option System
unfolding next_call
step t s = next_call t s (calls t s)

abbrev pub Step : System → System → Type 0
Step s s' = (t : Thread) × (step t s ≡ some s')

abbrev pub start : System
start = record {
  in_main = main;
  in_step2 = [];
  in_step1 = [];
  bound = [];
  refused = [];
  signals = [];
  printed = [];
}
