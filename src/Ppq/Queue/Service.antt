-- ===== src/Ppq/Queue/Service.antt =====
-- What the broker of src/ppq/queue.c does, told with a list of names and the times at which they
-- expire: no cursor, no name in hexadecimal, no envelope.
use zmq_test.Common.{ℕ, suc, ◌+◌, ◌||◌, List, map, [], ◌∷◌, ◌++◌, ltb, leb, if◌then◌else◌, streq}
use zmq_test.Czmq.{Frame, Msg}
use zmq_test.Ppq.Defs.{ppp_ready, ppp_heartbeat}
use zmq_test.Ppq.Queue.{
  Input, quiet, closed, arrived, Poll, Effect, to_frontend, to_backend, invalid_message, Broker,
  Outcome, running, stopped, ◌>>=◌, same_first_byte,
}

-- A free worker: its name, and when it expires.
abbrev pub Entry : Type 0
Entry = Frame × ℕ

abbrev pub Service : Type 0
Service = Broker (List Entry)

-- The list without the first entry of a name.
abbrev pub forget : Frame → List Entry → List Entry
forget id [] = []
forget id (e ∷ free) = if streq id e.0 then free else e ∷ forget id free

-- A message of one frame has to be a signal; any other is an answer for a client.
abbrev pub spoken : Msg → List Effect
spoken (signal ∷ []) =
    if same_first_byte signal ppp_ready || same_first_byte signal ppp_heartbeat
    then []
    else invalid_message (signal ∷ []) ∷ []
spoken m = to_frontend m ∷ []

-- What stands behind the name of the worker, an empty frame left out.
abbrev pub body : Msg → Msg
body ([] ∷ m) = m
body m = m

-- The front of the list goes, entry by entry, until one has not expired at the time it is looked at.
abbrev pub expire : (ℕ → ℕ) → ℕ → List Entry → List Entry × ℕ
expire clock reads [] = ([], reads)
expire clock reads (e ∷ free) =
    if ltb (clock reads) e.1 then (e ∷ free, suc reads) else expire clock (suc reads) free

-- A request goes to the first free worker.
abbrev pub given : List Entry → Service → Msg → Service
given [] s m = s
given (e ∷ free) s m = record s { workers = free; trace = s.trace ++ to_backend (e.0 ∷ m) ∷ [] }

-- Requests wait where no worker was free when the turn began.
abbrev pub asked : List Entry → Service → Input → Outcome Service
asked [] s i = running s
asked (e ∷ free) s quiet = running s
asked (e ∷ free) s closed = stopped s
asked (e ∷ free) s (arrived m) = running (given s.workers s m)

module _ (clock : ℕ → ℕ) where
  -- A worker that speaks is the last of the free ones, for three seconds.
  abbrev pub heard : Service → Frame → Msg → Service
  heard s id m = record {
    workers = forget id s.workers ++ (id, clock s.reads + 3000) ∷ [];
    heartbeat_at = s.heartbeat_at;
    reads = suc s.reads;
    trace = s.trace ++ spoken (body m);
  }

  abbrev pub beaten : Service → Service
  beaten s =
      if leb s.heartbeat_at (clock s.reads)
      then record {
        workers = s.workers;
        heartbeat_at = clock (suc s.reads) + 1000;
        reads = suc (suc s.reads);
        trace = s.trace ++ map (λ e. to_backend (e.0 ∷ ppp_heartbeat ∷ [])) s.workers;
      }
      else record s { reads = suc s.reads }

  abbrev pub purged : Service → Service
  purged s =
      let (free, reads) = expire clock s.reads s.workers in
      record s { workers = free; reads = reads }

  abbrev pub told : Service → Input → Outcome Service
  told s quiet = running s
  told s (arrived (id ∷ m)) = running (heard s id m)
  told s _ = stopped s

  abbrev pub serve : Service → Poll → Outcome Service
  serve s p =
      if p.failed
      then stopped s
      else (told s p.backend >>= λ s₁.
          asked s.workers s₁ p.frontend >>= λ s₂. running (purged (beaten s₂)))

  abbrev pub serve_all : Service → List Poll → Outcome Service
  serve_all s [] = running s
  serve_all s (p ∷ ps) = serve s p >>= λ t. serve_all t ps

  abbrev pub opening : Service
  opening = record { workers = []; heartbeat_at = clock 0 + 1000; reads = 1; trace = [] }
