-- ===== src/Erl/Server2.antt =====
-- src/erl/server2.c: the loop of `main`. A round of it is what comes while it waits, what `fork`
-- gives, and the signals that come while it sleeps.
pub mod Interrupted
use zmq_test.Common.{
  ℕ, ◌≡◌, Option, none, some, Bool, true, false, List, [], ◌∷◌, ◌++◌, ◌==◌, if◌then◌else◌,
}
use zmq_test.Czmq.{Frame}
use zmq_test.Base.Transport.{s_recv}
use zmq_test.Base.Signals.{Process, signals, s_catch_signals}

-- In the child `fork` gives 0; a failure takes the branch of the parent.
pub data Fork : Type 0 where
  child : Fork
  parent : Fork
  fork_failed : Fork

pub record Round : Type 0 where
  pub in_recv : List ℕ
  pub frame : Option Frame
  pub fork : Fork
  pub in_sleep : List ℕ

-- `fork_gave` is the call of `fork`, with what it gives.
pub data Effect : Type 0 where
  fork_gave : Fork → Effect
  waited : Effect
  receive_integer : Effect
  receive_float : Effect
  killing : Effect
  slept : ℕ → Effect

-- `type` keeps its value where `ei_get_type` fails.
pub record Server : Type 0 where
  pub process : Process
  pub buffer : List ℕ
  pub type : ℕ
  pub trace : List Effect

-- `child_ended` is the child's return, ten seconds after its start.
pub data Outcome : Type 0 where
  running : Server → Outcome
  stopped : Server → Outcome
  killed : Server → Outcome
  child_ended : Server → Outcome

infixl 5 ◌>>=◌
abbrev pub ◌>>=◌ : Outcome → (Server → Outcome) → Outcome
running s >>= f = f s
stopped s >>= f = stopped s
killed s >>= f = killed s
child_ended s >>= f = child_ended s

abbrev pub signalled : Server → Option Process → Outcome
signalled s none = killed s
signalled s (some p) = running (record s { process = p })

abbrev pub told : Server → Effect → Server
told s e = record s { trace = s.trace ++ e ∷ [] }

abbrev pub typed : ℕ → Option (ℕ × ℕ) → ℕ
typed type none = type
typed type (some (type', size)) = type'

-- Behind the call of `fork`.
abbrev pub branch : Server → Fork → Outcome
branch s child = child_ended (told s (slept 10))
branch s parent = running (told (told s waited) receive_integer)
branch s fork_failed = running (told (told s waited) receive_integer)

abbrev pub forked : Server → Fork → Outcome
forked s fork = branch (told s (fork_gave fork)) fork

-- The test of `S_INTERRUPTED`, and the pause.
pub pause : List ℕ → Server → Outcome
pause in_sleep s =
    if s.process.interrupted
    then stopped (told s killing)
    else signalled (told s (slept 1)) (signals in_sleep s.process)

-- What the library of Erlang finds at an index of a buffer, and its codes for two types.
module _ (ei_get_type : List ℕ → ℕ → Option (ℕ × ℕ)) (small_integer_ext float_ext : ℕ) where
  -- `s_recv` and `ei_get_type`
  unfoldable pub receive : Server → Option Frame → Server
  receive s frame =
      let buffer = s_recv s.buffer 256 frame in
      record s { buffer = buffer; type = typed s.type (ei_get_type buffer 1) }

  -- The tests of the type.
  pub handle : Fork → Server → Outcome
  handle fork s =
      if s.type == small_integer_ext
      then forked s fork
      else running (if s.type == float_ext then told s receive_float else s)

  pub turn : Server → Round → Outcome
  unfolding receive handle pause
  turn s r = signalled s (signals r.in_recv s.process) >>= λ s₁.
      handle r.fork (receive s₁ r.frame) >>= pause r.in_sleep

  pub run : Server → List Round → Outcome
  unfolding turn
  run s [] = running s
  run s (r ∷ rs) = turn s r >>= λ t. run t rs
