-- ===== src/Ppq/Queue.antt =====
-- src/ppq/queue.c. A `zclock_time()` reads the next entry of `clock`; `reads` counts them. What the
-- environment does in one turn of the main loop is a `Poll`, what the broker does is its `trace`.
-- The loops over the list of workers take its length as fuel.
pub mod Registry
pub mod Purge
pub mod Order
pub mod Invariant
pub mod Routing
pub mod Alive
pub mod Service
mod Entries
pub mod Refinement
use zmq_test.Common.{
  ℕ, zero, suc, ◌+◌, ◌*◌, Option, none, some, Bool, false, ◌&&◌, not, List, [], ◌∷◌, ◌++◌, ltb, leb,
  ◌==◌, if◌then◌else◌, streq,
}
use zmq_test.Czmq.{Frame, Msg, Zmsg, Zlist}
use zmq_test.Ppq.Defs.{Worker, heartbeat_interval, heartbeat_liveness, ppp_ready, ppp_heartbeat}

-- What a poll and the receive behind it give for one socket: nothing, NULL, or a message.
pub data Input : Type 0 where
  quiet : Input
  closed : Input
  arrived : Msg → Input

pub record Poll : Type 0 where
  pub failed : Bool
  pub backend : Input
  pub frontend : Input

pub data Effect : Type 0 where
  to_frontend : Msg → Effect
  to_backend : Msg → Effect
  invalid_message : Msg → Effect

pub record Broker (L : Type 0) : Type 0 where
  pub workers : L
  pub heartbeat_at : ℕ
  pub reads : ℕ
  pub trace : List Effect

-- `break` out of the main loop is `stopped`, a failed assertion is `aborted`.
pub data Outcome (S : Type 0) : Type 0 where
  running : S → Outcome S
  stopped : S → Outcome S
  aborted : Outcome S

infixl 5 ◌>>=◌
abbrev pub ◌>>=◌ : {S : Type 0} → Outcome S → (S → Outcome S) → Outcome S
running s >>= f = f s
stopped s >>= f = stopped s
aborted >>= f = aborted

-- `memcmp(zframe_data(frame), s, 1)` is 0: the first bytes agree. What stands behind an empty
-- frame is taken to be neither.
abbrev pub same_first_byte : Frame → Frame → Bool
same_first_byte (c ∷ _) (d ∷ _) = c == d
same_first_byte _ _ = false

module _ (C : Zmsg) where
  -- `_worker_new`, with the time that it reads.
  pub worker_new : Frame → ℕ → Worker
  worker_new identity now = record {
    identity = identity;
    id_string = C.strhex identity;
    expiry = now + heartbeat_interval * heartbeat_liveness;
  }

  -- The log of a message with one frame that is neither READY nor HEARTBEAT.
  pub check_signal : Msg → Option Frame → List Effect
  check_signal m none = []
  check_signal m (some frame) =
      if not (same_first_byte frame ppp_ready) && not (same_first_byte frame ppp_heartbeat)
      then invalid_message m ∷ []
      else []

module _ (Z : Zlist Worker) where
  open Z use {Carrier, items, size, first, next, append, pop, remove}

  -- The loop of `_worker_ready`, at the worker that the cursor gives.
  pub ready_scan : ℕ → Worker → Option Worker × Carrier → Carrier
  ready_scan zero self (worker, l) = l
  ready_scan (suc fuel) self (none, l) = l
  ready_scan (suc fuel) self (some worker, l) =
      let rest = ready_scan fuel self (next l) in
      if streq self.id_string worker.id_string then remove l worker else rest

  -- `_worker_ready`
  pub worker_ready : Worker → Carrier → Carrier
  unfolding ready_scan
  worker_ready self l = append (ready_scan (suc (size l)) self (first l)) self

  popped : Option Worker × Carrier → Option (Frame × Carrier)
  popped (none, l) = none
  popped (some worker, l) = some (worker.identity, l)

  -- `_worker_next`; `none` where its assertion fails.
  pub worker_next : Carrier → Option (Frame × Carrier)
  unfolding popped
  worker_next l = popped (pop l)

  -- The loop that sends a heartbeat to each worker, identity frame and signal frame.
  pub heartbeat_scan : ℕ → Option Worker × Carrier → List Effect × Carrier
  heartbeat_scan zero (worker, l) = ([], l)
  heartbeat_scan (suc fuel) (none, l) = ([], l)
  heartbeat_scan (suc fuel) (some worker, l) =
      let (sent, l') = heartbeat_scan fuel (next l) in
      (to_backend (worker.identity ∷ ppp_heartbeat ∷ []) ∷ sent, l')

  -- `zmq_poll` on `zlist_size(workers)?2:1` sockets: the second one is the frontend.
  pub polled : Broker Carrier → Input → Input
  polled b i = if size b.workers == 0 then quiet else i

  module _ (clock : ℕ → ℕ) where
    -- The loop of `_worker_purge`: each test reads the clock.
    pub purge_scan : ℕ → ℕ → Option Worker × Carrier → Carrier × ℕ
    purge_scan zero reads (worker, l) = (l, reads)
    purge_scan (suc fuel) reads (none, l) = (l, reads)
    purge_scan (suc fuel) reads (some worker, l) =
        let rest = purge_scan fuel (suc reads) (first (remove l worker)) in
        if ltb (clock reads) worker.expiry then (l, suc reads) else rest

    -- `_worker_purge`
    pub worker_purge : Broker Carrier → Broker Carrier
    unfolding purge_scan
    worker_purge b =
        let (l, reads) = purge_scan (suc (size b.workers)) b.reads (first b.workers) in
        record b { workers = l; reads = reads }

    -- `if (zclock_time()>=heartbeat_at)` and its body
    pub heartbeats : Broker Carrier → Broker Carrier
    unfolding heartbeat_scan
    heartbeats b =
        let (sent, l) = heartbeat_scan (suc (size b.workers)) (first b.workers) in
        if leb b.heartbeat_at (clock b.reads)
        then record {
          workers = l;
          heartbeat_at = clock (suc b.reads) + heartbeat_interval;
          reads = suc (suc b.reads);
          trace = b.trace ++ sent;
        }
        else record b { reads = suc b.reads }

    module _ (C : Zmsg) where
      -- A message of a worker, its envelope taken off. A message without frames aborts in
      -- `zframe_strhex`.
      pub admit : Broker Carrier → Option Frame × Msg → Outcome (Broker Carrier)
      unfolding worker_new check_signal
      admit b (none, m) = aborted
      admit b (some identity, m) = running (record b {
        workers = worker_ready (worker_new C identity (clock b.reads)) b.workers;
        reads = suc b.reads;
        trace =
            b.trace ++ (if C.size m == 1 then check_signal C m (C.first m) else to_frontend m ∷ []);
      })

      -- `if (items[0].revents & ZMQ_POLLIN)`
      pub on_backend : Input → Broker Carrier → Outcome (Broker Carrier)
      unfolding admit
      on_backend quiet b = running b
      on_backend closed b = stopped b
      on_backend (arrived m) b = admit b (C.unwrap m)

      dispatch : Broker Carrier → Msg → Option (Frame × Carrier) → Outcome (Broker Carrier)
      dispatch b m none = aborted
      dispatch b m (some (identity, l)) =
          running (record b { workers = l; trace = b.trace ++ to_backend (C.push m identity) ∷ [] })

      -- `if (items[1].revents & ZMQ_POLLIN)`
      pub on_frontend : Input → Broker Carrier → Outcome (Broker Carrier)
      unfolding dispatch
      on_frontend quiet b = running b
      on_frontend closed b = stopped b
      on_frontend (arrived m) b = dispatch b m (worker_next b.workers)

      -- One turn of the loop of `main`.
      pub step : Broker Carrier → Poll → Outcome (Broker Carrier)
      unfolding on_backend on_frontend
      step b p =
          if p.failed
          then stopped b
          else (on_backend p.backend b >>= λ b₁.
              on_frontend (polled b p.frontend) b₁ >>= λ b₂. running (worker_purge (heartbeats b₂)))

      pub run : Broker Carrier → List Poll → Outcome (Broker Carrier)
      unfolding step
      run b [] = running b
      run b (p ∷ ps) = step b p >>= λ b'. run b' ps

    -- The state before the first turn.
    pub start : Broker Carrier
    start = record {
      workers = Z.empty;
      heartbeat_at = clock 0 + heartbeat_interval;
      reads = 1;
      trace = [];
    }
