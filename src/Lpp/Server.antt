-- ===== src/Lpp/Server.antt =====
-- src/lpp/server.c, `main`: a server that fails from time to time. What its two `randof(3)` would
-- give in a cycle are arguments; the second is asked only if the first does not end the program.
pub mod Echo
use zmq_test.Common.{ℕ, ◌+◌, Bool, true, false, ◌&&◌, List, [], ◌∷◌, ◌++◌, ltb, ◌==◌, if◌then◌else◌}
use zmq_test.Czmq.{Frame}
use zmq_test.Base.Strings.{received}

-- `slept n` is a pause of n seconds.
pub data Effect : Type 0 where
  slept : ℕ → Effect
  sent : List ℕ → Effect

pub record Server : Type 0 where
  pub cycles : ℕ
  pub trace : List Effect

pub data Outcome : Type 0 where
  running : Server → Outcome
  crashed : Server → Outcome

-- The end of a cycle: a second's work, and the request back.
pub echo : Server → List ℕ → Server
echo s request = record s { trace = s.trace ++ slept 1 ∷ sent request ∷ [] }

-- One cycle, with the frame that `s_recv` receives.
pub cycle : Server → Frame → ℕ → ℕ → Outcome
unfolding echo
cycle s frame crash overload =
    let s' = record s { cycles = s.cycles + 1 } in
    let busy = record s' { trace = s.trace ++ slept 2 ∷ [] } in
    let request = received 32 frame in
    if ltb 3 (s.cycles + 1) && crash == 0
    then crashed s'
    else running
        (if ltb 3 (s.cycles + 1) && overload == 0 then echo busy request else echo s' request)
