-- ===== src/Async/Server.antt =====
-- src/async/cs.c, `_server_worker`. `draw i` is what the i-th call of `random()` gives.
pub mod Replies
use zmq_test.Common.{ℕ, zero, suc, ◌+◌, Option, none, some, List, [], ◌∷◌}
use zmq_test.Czmq.{Frame, Msg, Zmsg}
use zmq_test.Base.Random.{randof}

-- A pause in milliseconds, and a message that is sent.
pub data Effect : Type 0 where
  slept : ℕ → Effect
  sent : Msg → Effect

-- What was done, with the number of the next draw, or a failed assertion.
pub data Outcome : Type 0 where
  answered : List Effect → ℕ → Outcome
  aborted : Outcome

module _ (draw : ℕ → ℕ) where
  -- The loop over the replies, with those that are left: a pause, the identity, and the content.
  pub reply_loop : ℕ → ℕ → Frame → Frame → List Effect × ℕ
  reply_loop zero i identity content = ([], i)
  reply_loop (suc left) i identity content =
      let (es, j) = reply_loop left (i + 1) identity content in
      (slept (randof 1000 (draw i) + 1) ∷ sent (identity ∷ content ∷ []) ∷ es, j)

  -- `assert(content)`, and the replies.
  pub reply : ℕ → Option Frame → Option Frame → Outcome
  unfolding reply_loop
  reply i (some identity) (some content) =
      let (es, j) = reply_loop (randof 5 (draw i)) (i + 1) identity content in answered es j
  reply i none (some content) = aborted
  reply i identity none = aborted

  module _ (C : Zmsg) where
    -- What is done with a message.
    pub serve : ℕ → Msg → Outcome
    unfolding reply
    serve i msg = let (identity, rest) = C.pop msg in reply i identity (C.pop rest).0
