-- ===== src/Async/Client.antt =====
-- src/async/cs.c, `_client_task`. What a poll of a cycle brings is `env centitick`.
pub mod Printing
use zmq_test.Common.{ℕ, zero, suc, ◌+◌, Option, none, some, List, [], ◌∷◌, ◌++◌}
use zmq_test.Czmq.{Frame, Msg, Zmsg}
use zmq_test.Base.Numbers.{Decimals}

-- The number of requests, the frames that were printed, and the messages that were sent.
pub record Client : Type 0 where
  pub request_nbr : ℕ
  pub printed : List Frame
  pub sent : List Msg

-- "request #%d"
pub request : Decimals → ℕ → Frame
request D n = (b'r' ∷ b'e' ∷ b'q' ∷ b'u' ∷ b'e' ∷ b's' ∷ b't' ∷ b' ' ∷ b'#' ∷ []) ++ D.print n

-- `zframe_print`, which does not take NULL.
pub print : Client → Option Frame → Option Client
print self none = none
print self (some frame) = some (record self { printed = self.printed ++ frame ∷ [] })

infixl 5 ◌>>=◌
abbrev pub ◌>>=◌ : Option Client → (Client → Option Client) → Option Client
none >>= f = none
some self >>= f = f self

module _ (C : Zmsg) where
  -- One poll: of a message the last frame is printed.
  pub tick : Client → Option Msg → Option Client
  unfolding print
  tick self none = some self
  tick self (some msg) = print self (C.last msg)

  -- The loop over the polls, with those that are left.
  pub ticks : (ℕ → Option Msg) → ℕ → ℕ → Client → Option Client
  unfolding tick
  ticks env zero centitick self = some self
  ticks env (suc left) centitick self =
      tick self (env centitick) >>= λ next. ticks env left (centitick + 1) next

  -- A cycle: a hundred polls, and a request.
  pub cycle : Decimals → (ℕ → Option Msg) → Client → Option Client
  unfolding ticks request
  cycle D env self = ticks env 100 0 self >>= λ after. some (record after {
    request_nbr = after.request_nbr + 1;
    sent = after.sent ++ (request D (after.request_nbr + 1) ∷ []) ∷ [];
  })

abbrev pub start : Client
start = record { request_nbr = 0; printed = []; sent = [] }
