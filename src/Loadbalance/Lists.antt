-- ===== src/Loadbalance/Lists.antt =====
-- src/loadbalance/lbbroker2.c, the broker with CZMQ's messages and lists.
pub mod Service
pub mod Tasks
use zmq_test.Common.{
  ℕ, zero, suc, ◌+◌, ◌-◌, Option, none, some, Bool, true, false, List, [], ◌∷◌, ◌++◌, ◌==◌,
  if◌then◌else◌,
}
use zmq_test.Czmq.{Frame, Msg, Zmsg, Zlist}

-- `WORKER_READY`
abbrev pub worker_ready : Frame
worker_ready = 1 ∷ []

-- `memcmp(zframe_data(frame), WORKER_READY, 1)==0`; what stands behind an empty frame is taken not to
-- be the byte 1.
abbrev pub is_ready : Frame → Bool
is_ready [] = false
is_ready (c ∷ f) = c == 1

-- What `worker_task` makes of a message: its last frame is "OK".
pub worker_reply : Msg → Msg
worker_reply [] = []
worker_reply (f ∷ []) = (b'O' ∷ b'K' ∷ []) ∷ []
worker_reply (f ∷ g ∷ m) = f ∷ worker_reply (g ∷ m)

pub data Effect : Type 0 where
  to_frontend : Msg → Effect
  to_backend : Msg → Effect

pub record Broker (L : Type 0) : Type 0 where
  pub workers : L
  pub trace : List Effect

-- What a poll and the receive behind it give for a socket: nothing, NULL, or a message.
pub data Input : Type 0 where
  quiet : Input
  closed : Input
  arrived : Msg → Input

pub record Poll : Type 0 where
  pub failed : Bool
  pub backend : Input
  pub frontend : Input

-- `stopped` is a `break`, `aborted` a use of NULL.
pub data Outcome (S : Type 0) : Type 0 where
  running : S → Outcome S
  stopped : S → Outcome S
  aborted : Outcome S

infixl 5 ◌>>=◌
abbrev pub ◌>>=◌ : {S : Type 0} → Outcome S → (S → Outcome S) → Outcome S
running s >>= f = f s
stopped s >>= f = stopped s
aborted >>= f = aborted

module _ (C : Zmsg) (Z : Zlist Frame) where
  open Z use {Carrier, append, pop, size}

  -- A message without READY goes to its client.
  pub forward : Broker Carrier → Msg → Option Frame → Outcome (Broker Carrier)
  forward b m none = aborted
  forward b m (some frame) =
      running (if is_ready frame then b else (record b { trace = b.trace ++ to_frontend m ∷ [] }))

  pub admit : Broker Carrier → Option Frame × Msg → Outcome (Broker Carrier)
  unfolding forward
  admit b (none, m) = aborted
  admit b (some identity, m) =
      forward (record b { workers = append b.workers identity }) m (C.first m)

  pub on_backend : Broker Carrier → Input → Outcome (Broker Carrier)
  unfolding admit
  on_backend b quiet = running b
  on_backend b closed = stopped b
  on_backend b (arrived m) = admit b (C.unwrap m)

  pub dispatch : Broker Carrier → Msg → Option Frame × Carrier → Outcome (Broker Carrier)
  dispatch b m (none, l) = aborted
  dispatch b m (some worker, l) =
      running (record b { workers = l; trace = b.trace ++ to_backend (C.wrap m worker) ∷ [] })

  pub on_frontend : Broker Carrier → Input → Outcome (Broker Carrier)
  unfolding dispatch
  on_frontend b quiet = running b
  on_frontend b closed = running b
  on_frontend b (arrived m) = dispatch b m (pop b.workers)

  -- `zlist_size (workers)? 2: 1` sockets are polled.
  pub polled : Broker Carrier → Input → Input
  polled b i = if size b.workers == 0 then quiet else i

  -- One turn of the loop of `main`.
  pub turn : Broker Carrier → Poll → Outcome (Broker Carrier)
  unfolding on_backend on_frontend polled
  turn b p =
      if p.failed
      then stopped b
      else (on_backend b p.backend >>= λ b'. on_frontend b' (polled b p.frontend))

  pub run : Broker Carrier → List Poll → Outcome (Broker Carrier)
  unfolding turn
  run b [] = running b
  run b (p ∷ ps) = turn b p >>= λ b'. run b' ps

  -- The state before the first turn.
  pub start : Broker Carrier
  start = record { workers = Z.empty; trace = [] }
