-- ===== src/Async/Server/Replies.antt =====
-- How often and when a server thread of src/async/cs.c answers.
use zmq_test.Common.{
  ℕ, zero, suc, ◌+◌, ◌*◌, ◌^◌, ◌≤◌, ◌<◌, ◌≡◌, refl, ap, List, [], ◌∷◌, replicate, arith,
}
use zmq_test.Czmq.{Frame, Msg, Zmsg}
use zmq_test.Base.Random.{randof}
use zmq_test.Base.Random.Range.{randof-le}
use zmq_test.Async.Server.{Effect, slept, sent, answered, reply_loop, reply, serve}

abbrev pub messages : List Effect → List Msg
messages [] = []
messages (slept n ∷ es) = messages es
messages (sent m ∷ es) = m ∷ messages es

abbrev pub pauses : List Effect → ℕ
pauses [] = 0
pauses (slept n ∷ es) = n + pauses es
pauses (sent m ∷ es) = pauses es

module _ (draw : ℕ → ℕ) (fair : (i : ℕ) → draw i < 2 ^ 31) where
  pub reply_loop-messages :
      (left i : ℕ) (identity content : Frame)
      → messages (reply_loop draw left i identity content).0
        ≡ replicate left (identity ∷ content ∷ [])
  unfolding reply_loop
  reply_loop-messages zero i identity content = refl
  reply_loop-messages (suc left) i identity content =
      ap (◌∷◌ (identity ∷ content ∷ [])) (reply_loop-messages left (i + 1) identity content)

  pub reply_loop-pauses :
      (left i : ℕ) (identity content : Frame)
      → (left ≤ pauses (reply_loop draw left i identity content).0)
        × (pauses (reply_loop draw left i identity content).0 ≤ left * 1001)
  unfolding reply_loop
  reply_loop-pauses zero i identity content = (omega arith, omega arith)
  reply_loop-pauses (suc left) i identity content =
      let (p, q) = reply_loop-pauses left (i + 1) identity content in
      let h = randof-le 1000 (draw i) (omega arith) (fair i) in
      (omega (arith, p), omega (arith, q, h))

  -- A server thread answers a message of an identity and a content with at most five messages, each
  -- again that identity and that content, and its pauses before them are of at most 1001 milliseconds
  -- each, and of one at least.
  pub serve-messages :
      (C : Zmsg) (i : ℕ) (identity content : Frame) (rest : Msg)
      → (es : List Effect) × (j : ℕ) × (serve draw C i (identity ∷ content ∷ rest) ≡ answered es j)
        × (messages es ≡ replicate (randof 5 (draw i)) (identity ∷ content ∷ []))
        × (randof 5 (draw i) ≤ 5)
        × (randof 5 (draw i) ≤ pauses es)
        × (pauses es ≤ randof 5 (draw i) * 1001)
  unfolding serve reply
  serve-messages C i identity content rest =
      let n = randof 5 (draw i) in
      (
        (reply_loop draw n (i + 1) identity content).0,
        (reply_loop draw n (i + 1) identity content).1,
        rw (C.pop-cons identity (content ∷ rest), C.pop-cons content rest) refl,
        reply_loop-messages n (i + 1) identity content,
        randof-le 5 (draw i) (omega arith) (fair i),
        (reply_loop-pauses n (i + 1) identity content).0,
        (reply_loop-pauses n (i + 1) identity content).1,
      )
