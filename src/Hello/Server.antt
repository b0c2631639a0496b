-- ===== src/Hello/Server.antt =====
-- src/helloworld/server.c. A round of its loop is what comes while it waits in `zmq_recv`, and the
-- signals that come while it sleeps.
pub mod Stopping
use zmq_test.Common.{
  ℕ, Option, none, some, Bool, true, false, List, [], ◌∷◌, ◌++◌, take, if◌then◌else◌,
}
use zmq_test.Czmq.{Frame}
use zmq_test.Base.Strings.{c_string}
use zmq_test.Base.Transport.{overlay}
use zmq_test.Base.Signals.{Process, signals, s_catch_signals}

pub record Round : Type 0 where
  pub in_recv : List ℕ
  -- `none` if `zmq_recv` fails, and leaves the buffer as it is.
  pub frame : Option Frame
  pub in_sleep : List ℕ

pub data Effect : Type 0 where
  killing : Effect
  printed : List ℕ → Effect
  slept : ℕ → Effect
  sent : Frame → Effect

pub record Server : Type 0 where
  pub process : Process
  pub buffer : List ℕ
  pub trace : List Effect

-- `killed` where a signal has its default action.
pub data Outcome : Type 0 where
  running : Server → Outcome
  stopped : Server → Outcome
  killed : Server → Outcome

infixl 5 ◌>>=◌
abbrev pub ◌>>=◌ : Outcome → (Server → Outcome) → Outcome
running s >>= f = f s
stopped s >>= f = stopped s
killed s >>= f = killed s

abbrev pub world : Frame
world = b'W' ∷ b'o' ∷ b'r' ∷ b'l' ∷ b'd' ∷ []

-- The signals of a wait.
abbrev pub waited : Server → Option Process → Outcome
waited s none = killed s
waited s (some p) = running (record s { process = p })

abbrev pub filled : Option Frame → List ℕ → List ℕ
filled none buffer = buffer
filled (some frame) buffer = overlay (take 10 frame) buffer

-- The body from the second test of `S_INTERRUPTED` on.
pub answer : Round → Server → Outcome
answer r s =
    if s.process.interrupted
    then stopped (record s { trace = s.trace ++ killing ∷ [] })
    else (waited (record s { trace = s.trace ++ printed (c_string s.buffer) ∷ slept 1 ∷ [] })
          (signals r.in_sleep s.process)
        >>= λ t. running (record t { trace = t.trace ++ sent world ∷ [] }))

-- The test of the loop, and its body.
pub turn : Server → Round → Outcome
unfolding answer
turn s r =
    if s.process.interrupted
    then stopped s
    else (waited (record s { buffer = filled r.frame s.buffer }) (signals r.in_recv s.process)
        >>= answer r)

pub run : Server → List Round → Outcome
unfolding turn
run s [] = running s
run s (r ∷ rs) = turn s r >>= λ t. run t rs

module _ (sigint sigterm : ℕ) where
  -- Before the loop: the handlers are there, and the buffer holds anything.
  unfoldable pub start : Process → List ℕ → Server
  start p buffer = record {
    process = s_catch_signals sigint sigterm p;
    buffer = buffer;
    trace = [];
  }
