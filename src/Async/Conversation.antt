-- ===== src/Async/Conversation.antt =====
-- A request of a client of src/async/cs.c, and what comes back.
use zmq_test.Common.{
  ℕ, zero, suc, ◌+◌, ◌^◌, ◌≤◌, ◌<◌, ◌≡◌, refl, ap, ◌∙◌, Option, some, List, [], ◌∷◌, ◌++◌, map,
  replicate, arith,
}
use zmq_test.Czmq.{Frame, Msg, Zmsg}
use zmq_test.Base.Random.{randof}
use zmq_test.Base.Random.Range.{randof-le}
use zmq_test.Base.Numbers.{Decimals}
use zmq_test.Async.Server.{answered, Outcome, serve}
use zmq_test.Async.Server.Replies.{messages, serve-messages}
use zmq_test.Async.Client.{Client, request, cycle}
use zmq_test.Async.Client.Printing.{arrivals, cycle-replicate}

-- A ROUTER socket puts the name of a client in front of what it sends, and takes it off what is for
-- that client.
abbrev pub named : Frame → Msg → Msg
named identity m = identity ∷ m

abbrev pub unnamed : Msg → Msg
unnamed [] = []
unnamed (identity ∷ m) = m

map-replicate : (k : ℕ) (m : Msg) → map unnamed (replicate k m) ≡ replicate k (unnamed m)
map-replicate zero m = refl
map-replicate (suc k) m = ap (◌∷◌ (unnamed m)) (map-replicate k m)

abbrev pub replies_of : Outcome → List Msg
replies_of (answered es j) = map unnamed (messages es)
replies_of _ = []

pub serve-replies :
    (C : Zmsg) (draw : ℕ → ℕ) (i : ℕ) (name content : Frame)
    → ((j : ℕ) → draw j < 2 ^ 31)
    → replies_of (serve draw C i (named name (content ∷ [])))
      ≡ replicate (randof 5 (draw i)) (content ∷ [])
serve-replies C draw i name content fair =
    let (es, j, s, m, r, p, q) = serve-messages draw fair C i name content [] in
    ap replies_of s ∙ ap (map unnamed) m ∙ map-replicate (randof 5 (draw i)) _

-- The request n of a client, which goes to a server thread with the client's name, is answered at
-- most five times, as often as the thread's first draw says. If a cycle of the client gets these
-- answers, at whichever of its polls, and nothing else, it prints the text of the request as often,
-- and sends the request that follows the last one.
pub conversation :
    (C : Zmsg) (D : Decimals) (draw : ℕ → ℕ) (i n : ℕ) (name : Frame) (self : Client)
    (env : ℕ → Option Msg)
    → ((j : ℕ) → draw j < 2 ^ 31)
    → arrivals env 100 0 ≡ replies_of (serve draw C i (named name (request D n ∷ [])))
    → (randof 5 (draw i) ≤ 5)
      × (cycle C D env self
          ≡ some (record {
            request_nbr = self.request_nbr + 1;
            printed = self.printed ++ replicate (randof 5 (draw i)) (request D n);
            sent = self.sent ++ (request D (self.request_nbr + 1) ∷ []) ∷ [];
          }))
conversation C D draw i n name self env fair e = (
  randof-le 5 (draw i) (omega arith) (fair i),
  cycle-replicate C D env self (randof 5 (draw i)) (request D n)
      (e ∙ serve-replies C draw i name (request D n) fair),
)
