-- ===== src/Ppq/Worker.antt =====
-- src/ppq/worker.c. What the environment does in one turn of the main loop is a `Turn`; sockets,
-- sleeps and sends show in the `trace`. A `zclock_time()` reads the next entry of `clock`, and `cycles` is
-- taken to have no bound.
pub mod Backoff
pub mod Silence
pub mod Requests
use zmq_test.Common.{
  ℕ, zero, suc, ◌+◌, ◌-◌, ◌*◌, ◌%◌, ◌^◌, Option, none, some, Bool, true, false, ◌&&◌, not, List, [],
  ◌∷◌, ◌++◌, ltb, ◌==◌, if◌then◌else◌,
}
use zmq_test.Czmq.{Frame, Msg, Zmsg}
use zmq_test.Ppq.Defs.{
  heartbeat_interval, heartbeat_liveness, interval_init, interval_max, ppp_ready, ppp_heartbeat,
}
use zmq_test.Ppq.Queue.{
  Input, quiet, closed, arrived, Outcome, running, stopped, ◌>>=◌, same_first_byte,
}

-- The draws are what the two `randof(5)` give, `interrupted` what `zctx_interrupted` holds after the
-- sleep of the turn.
pub record Turn : Type 0 where
  pub failed : Bool
  pub input : Input
  pub crash_draw : ℕ
  pub overload_draw : ℕ
  pub interrupted : Bool

-- `connected` is a new socket, `slept` a pause in milliseconds.
pub data Effect : Type 0 where
  connected : Effect
  sent : Msg → Effect
  slept : ℕ → Effect
  invalid_message : Msg → Effect

pub record Peer : Type 0 where
  pub liveness : ℕ
  pub interval : ℕ
  pub heartbeat_at : ℕ
  pub cycles : ℕ
  pub reads : ℕ
  pub trace : List Effect

abbrev pub log : Peer → List Effect → Peer
log s es = record s { trace = s.trace ++ es }

-- `_worker_socket`
abbrev pub worker_socket : List Effect
worker_socket = connected ∷ sent (ppp_ready ∷ []) ∷ []

-- `--liveness` on a `size_t`
abbrev pub count_down : ℕ → ℕ
count_down n = (n + 2 ^ 64 - 1) % 2 ^ 64

-- `if (zctx_interrupted) break;`
abbrev pub unless_interrupted : Bool → Peer → Outcome Peer
unless_interrupted true s = stopped s
unless_interrupted false s = running (record s { interval = interval_init })

-- A message with three frames is a request, which the worker sends back.
pub on_request : Turn → Msg → Peer → Outcome Peer
on_request t m s =
    if ltb 3 s.cycles && t.crash_draw == 0
    then stopped s
    else if ltb 3 s.cycles && t.overload_draw == 0
    then unless_interrupted t.interrupted (log s (slept 3000 ∷ []))
    else unless_interrupted t.interrupted (log s (sent m ∷ slept 1000 ∷ []))

-- A message with one frame is a heartbeat, or invalid.
pub on_signal : Msg → Option Frame → Peer → Peer
on_signal m none s = log s (invalid_message m ∷ [])
on_signal m (some frame) s =
    if same_first_byte frame ppp_heartbeat
    then record s { liveness = heartbeat_liveness }
    else log s (invalid_message m ∷ [])

-- `else if (--liveness==0)` and its body
pub on_silence : Peer → Peer
on_silence s =
    if count_down s.liveness == 0
    then record s {
      liveness = heartbeat_liveness;
      interval = if ltb s.interval interval_max then s.interval * 2 else s.interval;
      trace = s.trace ++ slept s.interval ∷ worker_socket;
    }
    else record s { liveness = count_down s.liveness }

module _ (clock : ℕ → ℕ) where
  -- The worker's own heartbeat, at the end of a turn.
  pub heartbeat : Peer → Peer
  heartbeat s =
      if ltb s.heartbeat_at (clock s.reads)
      then record s {
        heartbeat_at = clock (suc s.reads) + heartbeat_interval;
        reads = suc (suc s.reads);
        trace = s.trace ++ sent (ppp_heartbeat ∷ []) ∷ [];
      }
      else record s { reads = suc s.reads }

  module _ (C : Zmsg) where
    pub on_message : Turn → Msg → Peer → Outcome Peer
    unfolding on_request on_signal
    on_message t m s =
        if C.size m == 3
        then on_request t m (record s { cycles = s.cycles + 1 })
        else if C.size m == 1
        then running (record (on_signal m (C.first m) s) { interval = interval_init })
        else running (record (log s (invalid_message m ∷ [])) { interval = interval_init })

    pub on_input : Turn → Input → Peer → Outcome Peer
    unfolding on_message on_silence
    on_input t quiet s = running (on_silence s)
    on_input t closed s = stopped s
    on_input t (arrived m) s = on_message t m s

    -- One turn of the loop of `main`.
    pub turn : Peer → Turn → Outcome Peer
    unfolding on_input heartbeat
    turn s t =
        if t.failed then stopped s else (on_input t t.input s >>= λ s'. running (heartbeat s'))

    pub run : Peer → List Turn → Outcome Peer
    unfolding turn
    run s [] = running s
    run s (t ∷ ts) = turn s t >>= λ s'. run s' ts

  -- The state before the first turn.
  pub start : Peer
  start = record {
    liveness = heartbeat_liveness;
    interval = interval_init;
    heartbeat_at = clock 0 + heartbeat_interval;
    cycles = 0;
    reads = 1;
    trace = worker_socket;
  }
