-- ===== src/Loadbalance/Equivalence.antt =====
-- The two brokers of src/loadbalance side by side: lbbroker.c and lbbroker2.c, which says of itself
-- that it has the identical functionality. The same workers and clients speak to both.
pub mod Turn
pub mod Runs
use zmq_test.Common.{
  ℕ, ◌<◌, ◌≡◌, Option, none, some, Bool, true, false, List, [], ◌∷◌, ◌++◌, map, length, All,
}
use zmq_test.Czmq.{Frame, Msg}
use zmq_test.Base.Strings.{IsText}
use zmq_test.Loadbalance.Array
use zmq_test.Loadbalance.Array.{starts_with_w, ◌>>=◌}
use zmq_test.Loadbalance.Array.Tasks.{routed, said_ready}
use zmq_test.Loadbalance.Lists
use zmq_test.Loadbalance.Lists.{worker_ready, is_ready}
use zmq_test.Loadbalance.Lists.Service.{Service, serve}

-- What a worker says: that it is ready, or its name, the client's name and the reply.
pub data Said : Type 0 where
  ready : Frame → Said
  done : Frame → Frame → Frame → Said

-- What a poll brings: an interrupt, what a worker says, and a client's name with its request.
pub record Happening : Type 0 where
  pub interrupted : Bool
  pub worker : Option Said
  pub client : Option (Frame × Frame)

-- The workers of lbbroker.c say "w[…]:ready", those of lbbroker2.c send the byte 1.
abbrev pub array_said : Option Said → Array.Input
array_said none = Array.quiet
array_said (some (ready id)) = Array.arrived (routed id (said_ready id ∷ []))
array_said (some (done id c m)) = Array.arrived (routed id (c ∷ [] ∷ m ∷ []))

abbrev pub lists_said : Option Said → Lists.Input
lists_said none = Lists.quiet
lists_said (some (ready id)) = Lists.arrived (routed id (worker_ready ∷ []))
lists_said (some (done id c m)) = Lists.arrived (routed id (c ∷ [] ∷ m ∷ []))

abbrev pub array_asked : Option (Frame × Frame) → Array.Input
array_asked none = Array.quiet
array_asked (some (c, m)) = Array.arrived (routed c (m ∷ []))

abbrev pub lists_asked : Option (Frame × Frame) → Lists.Input
lists_asked none = Lists.quiet
lists_asked (some (c, m)) = Lists.arrived (routed c (m ∷ []))

abbrev pub array_poll : Happening → Array.Poll
array_poll h = record {
  failed = h.interrupted;
  backend = array_said h.worker;
  frontend = array_asked h.client;
}

abbrev pub lists_poll : Happening → Lists.Poll
lists_poll h = record {
  failed = h.interrupted;
  backend = lists_said h.worker;
  frontend = lists_asked h.client;
}

-- The loop of lbbroker.c on these polls.
unfoldable pub run_array : Array.Broker → List Happening → Array.Outcome
run_array a [] = Array.running a
run_array a (h ∷ hs) = Array.turn a (array_poll h) >>= λ b. run_array b hs

-- The effects of the one in the words of the other.
abbrev pub sent : Array.Effect → Lists.Effect
sent (Array.to_frontend m) = Lists.to_frontend m
sent (Array.to_backend m) = Lists.to_backend m

-- Strings that fit the arrays of lbbroker.c, and names that neither program takes for a worker's
-- first message.
abbrev pub IsName : Frame → Type 0
IsName s = (length s < 256) × IsText s

abbrev pub IsClient : Frame → Type 0
IsClient c = IsName c × (starts_with_w c ≡ false) × (is_ready c ≡ false)

abbrev pub IsSaid : Option Said → Type 0
IsSaid none = Unit
IsSaid (some (ready id)) = IsName id
IsSaid (some (done id c m)) = IsName id × IsClient c × IsName m

abbrev pub IsAsked : Option (Frame × Frame) → Type 0
IsAsked none = Unit
IsAsked (some (c, m)) = IsClient c × IsName m

abbrev pub IsPlain : Happening → Type 0
IsPlain h = IsSaid h.worker × IsAsked h.client

-- A worker speaks only while fewer than three are free.
abbrev pub Room : List Frame → Option Said → Type 0
Room free none = Unit
Room free (some w) = length free < 3

-- While the loop runs.
abbrev pub Thereafter : (Service → Type 0) → Lists.Outcome Service → Type 0
Thereafter P (Lists.running t) = P t
Thereafter P (Lists.stopped t) = Unit
Thereafter P Lists.aborted = Unit

-- So it is in every turn, until the loop ends.
abbrev pub HasRoom : Service → List Happening → Type 0
HasRoom s [] = Unit
HasRoom s (h ∷ hs) = Room s.0 h.worker × Thereafter (λ t. HasRoom t hs) (serve s (lists_poll h))
