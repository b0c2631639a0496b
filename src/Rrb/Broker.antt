-- ===== src/Rrb/Broker.antt =====
-- src/rrb/broker.c. What a socket has to receive is a list of parts, each with the flag that says
-- whether another part of its message follows.
pub mod Passing
use zmq_test.Common.{Option, none, some, Bool, true, false, List, [], ◌∷◌, ◌++◌, if◌then◌else◌}
use zmq_test.Base.Transport.{Call}

-- A part is sent, before the ones that follow it.
abbrev pub behind : Call → Option (List Call × List Call) → Option (List Call × List Call)
behind part none = none
behind part (some (sent, left)) = some (part ∷ sent, left)

-- `recv_multipart_msg`: what is sent, and what is left to receive; `none` if it waits for a part.
pub recv_multipart_msg : List Call → Option (List Call × List Call)
recv_multipart_msg [] = none
recv_multipart_msg (part ∷ parts) =
    let rest = recv_multipart_msg parts in
    if part.more then behind part rest else some (part ∷ [], parts)

-- What the sockets have to receive, and what was sent to them.
pub record Broker : Type 0 where
  pub frontend : List Call
  pub backend : List Call
  pub to_frontend : List Call
  pub to_backend : List Call

-- A poll says which sockets have something to read.
pub record Poll : Type 0 where
  pub frontend : Bool
  pub backend : Bool

abbrev pub passed_back : Broker → Option (List Call × List Call) → Option Broker
passed_back b none = none
passed_back b (some (sent, left)) =
    some (record b { frontend = left; to_backend = b.to_backend ++ sent })

abbrev pub passed_front : Broker → Option (List Call × List Call) → Option Broker
passed_front b none = none
passed_front b (some (sent, left)) =
    some (record b { backend = left; to_frontend = b.to_frontend ++ sent })

-- `if (items[0].revents & ZMQ_POLLIN)` and `if (items[1].revents & ZMQ_POLLIN)`
pub on_frontend : Bool → Broker → Option Broker
unfolding recv_multipart_msg
on_frontend false b = some b
on_frontend true b = passed_back b (recv_multipart_msg b.frontend)

pub on_backend : Bool → Broker → Option Broker
unfolding recv_multipart_msg
on_backend false b = some b
on_backend true b = passed_front b (recv_multipart_msg b.backend)

infixl 5 ◌>>=◌
abbrev pub ◌>>=◌ : Option Broker → (Broker → Option Broker) → Option Broker
none >>= f = none
some b >>= f = f b

-- A turn of the loop, and the loop on these polls.
pub turn : Broker → Poll → Option Broker
unfolding on_frontend on_backend
turn b p = on_frontend p.frontend b >>= on_backend p.backend

pub run : Broker → List Poll → Option Broker
unfolding turn
run b [] = some b
run b (p ∷ ps) = turn b p >>= λ c. run c ps
