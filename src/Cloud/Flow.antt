-- ===== src/Cloud/Flow.antt =====
-- src/cloud/lcflow.c, `main`: a broker that shares work with its peers. `peers` are the arguments
-- from argv[2] on. What the environment does in one turn of the outer loop is a `Turn`, in one
-- round of the inner loop a `Round`; a round brings what the two `randof` of the code give.
pub mod Traffic
pub mod Capacity
pub mod Routing
pub mod Tasks
pub mod Exchange
use zmq_test.Common.{
  ℕ, zero, suc, ◌+◌, ◌-◌, Option, none, some, Bool, true, false, ◌&&◌, not, List, [], ◌∷◌, ◌++◌,
  ltb, ◌==◌, if◌then◌else◌, length, get_elem?, streq,
}
use zmq_test.Czmq.{Frame, Msg, Zmsg, Zlist}

-- What a poll and the receive behind it give for one socket: nothing, NULL, or a message.
pub data Input : Type 0 where
  quiet : Input
  closed : Input
  arrived : Msg → Input

pub record Round : Type 0 where
  pub cloudfe : Input
  pub localfe : Input
  pub draw : ℕ
  pub peer_draw : ℕ

pub record Turn : Type 0 where
  pub failed : Bool
  pub localbe : Input
  pub cloudbe : Input
  pub rounds : List Round

pub data Effect : Type 0 where
  to_cloudfe : Msg → Effect
  to_cloudbe : Msg → Effect
  to_localfe : Msg → Effect
  to_localbe : Msg → Effect

pub record Broker (L : Type 0) : Type 0 where
  pub capacity : ℕ
  pub workers : L
  pub trace : List Effect

-- `stopped` is a `break` out of the outer loop, `aborted` a use of NULL.
pub data Outcome (S : Type 0) : Type 0 where
  running : S → Outcome S
  stopped : Outcome S
  aborted : Outcome S

infixl 5 ◌>>=◌
abbrev pub ◌>>=◌ : {S T : Type 0} → Outcome S → (S → Outcome T) → Outcome T
running s >>= f = f s
stopped >>= f = stopped
aborted >>= f = aborted

abbrev pub worker_ready : Frame
worker_ready = 1 ∷ []

-- `memcmp(zframe_data(frame), WORKER_READY, 1)==0`; what stands behind an empty frame is taken not to
-- be the byte 1.
abbrev pub is_ready : Frame → Bool
is_ready [] = false
is_ready (c ∷ f) = c == 1

abbrev pub log : {L : Type 0} → Broker L → Effect → Broker L
log b e = record b { trace = b.trace ++ e ∷ [] }

-- The loop over the peers: does one of them have the name that stands in this frame?
unfoldable pub names_peer : List (List ℕ) → Frame → Bool
names_peer [] frame = false
names_peer (peer ∷ peers) frame = if streq frame peer then true else names_peer peers frame

-- What one round of the inner loop receives, and whether it may go to a peer: requests from the
-- cloud come first, and stay here.
pub data Taken : Type 0 where
  nothing : Taken
  null : Taken
  message : Bool → Msg → Taken

pub taken : Input → Input → Taken
taken (arrived m) localfe = message false m
taken closed localfe = null
taken quiet (arrived m) = message true m
taken quiet closed = null
taken quiet quiet = nothing

module _ (C : Zmsg) (Z : Zlist Frame) (peers : List (List ℕ)) where
  open Z use {Carrier, append, pop}

  -- What a worker sends, its envelope taken off: NULL if it was READY.
  pub from_worker : Broker Carrier → Option Frame × Msg → Outcome (Broker Carrier × Option Msg)
  from_worker b (none, m) = aborted
  from_worker b (some id, m) =
      let b' = record b { workers = append b.workers id; capacity = b.capacity + 1 } in
      elim (C.first m) [
        | none ↦ aborted
        | some frame ↦ running (b', if is_ready frame then none else some m)
      ]

  pub from_cloud : Broker Carrier → Option Frame × Msg → Outcome (Broker Carrier × Option Msg)
  from_cloud b (none, m) = aborted
  from_cloud b (some id, m) = running (b, some m)

  -- `if (backends[0].revents & POLL_IN) … else if (backends[1].revents & ZMQ_POLLIN) …`
  pub on_backends : Broker Carrier → Input → Input → Outcome (Broker Carrier × Option Msg)
  unfolding from_worker from_cloud
  on_backends b (arrived m) cloudbe = from_worker b (C.unwrap m)
  on_backends b closed cloudbe = stopped
  on_backends b quiet (arrived m) = from_cloud b (C.unwrap m)
  on_backends b quiet closed = stopped
  on_backends b quiet quiet = running (b, none)

  -- The message goes to the peer that it names, and to the local clients if it names none. With no
  -- peers the loop does not look at the message.
  pub route : Broker Carrier × Option Msg → Outcome (Broker Carrier)
  unfolding names_peer
  route (b, none) = running b
  route (b, some m) = elim (C.first m) [
    | none ↦ if length peers == 0 then running (log b (to_localfe m)) else aborted
    | some frame ↦
        running (if names_peer peers frame then log b (to_cloudfe m) else log b (to_localfe m))
  ]

  -- `zmsg_pushmem(msg, argv[peer], strlen(argv[peer]))` for argv[randof(argc-2)+2]; behind the last
  -- argument stands NULL.
  pub to_peer : Broker Carrier → Msg → Option (List ℕ) → Outcome (Broker Carrier)
  to_peer b m none = aborted
  to_peer b m (some peer) = running (log b (to_cloudbe (C.push m peer)))

  pub to_worker : Broker Carrier → Msg → Option Frame × Carrier → Outcome (Broker Carrier)
  to_worker b m (none, l) = aborted
  to_worker b m (some frame, l) = running (record b {
    capacity = b.capacity - 1;
    workers = l;
    trace = b.trace ++ to_localbe (C.wrap m frame) ∷ [];
  })

  pub serve : Round → Bool → Msg → Broker Carrier → Outcome (Broker Carrier)
  unfolding to_peer to_worker
  serve r reroutable m b =
      if reroutable && ltb 2 (length peers + 2) && r.draw == 0
      then to_peer b m (get_elem? peers r.peer_draw)
      else to_worker b m (pop b.workers)

  -- The inner loop, `while (capacity)`, over the rounds. A message that is NULL is not asked about.
  pub drain : Broker Carrier → List Round → Outcome (Broker Carrier)
  unfolding serve taken
  drain b [] = running b
  drain b (r ∷ rs) =
      let next : Outcome (Broker Carrier) = elim (taken r.cloudfe r.localfe) [
        | nothing ↦ running b
        | null ↦ aborted
        | message reroutable m ↦ serve r reroutable m b >>= λ b'. drain b' rs
      ] in
      if b.capacity == 0 then running b else next

  -- One turn of the outer loop.
  pub turn : Broker Carrier → Turn → Outcome (Broker Carrier)
  unfolding on_backends route drain
  turn b t =
      if t.failed
      then stopped
      else (on_backends b t.localbe t.cloudbe >>= λ bm. route bm >>= λ b'. drain b' t.rounds)

  pub run : Broker Carrier → List Turn → Outcome (Broker Carrier)
  unfolding turn
  run b [] = running b
  run b (t ∷ ts) = turn b t >>= λ b'. run b' ts

  -- The state before the first turn.
  pub start : Broker Carrier
  start = record { capacity = 0; workers = Z.empty; trace = [] }
