-- ===== src/Lpp/Client.antt =====
-- src/lpp/client.c, `main`, for fewer than 10^9 requests: the number of a later one does not fit the
-- array `request` of ten bytes. A round is one poll of the inner loop, and what `zctx_interrupted`
-- says if the outer loop is reached after it.
pub mod Retries
use zmq_test.Common.{
  ℕ, zero, suc, ◌+◌, ◌-◌, Option, none, some, Bool, true, false, ◌||◌, List, [], ◌∷◌, ◌++◌, ◌==◌,
  if◌then◌else◌,
}
use zmq_test.Base.Numbers.{Decimals}

abbrev pub request_timeout : ℕ
request_timeout = 2500

abbrev pub request_retries : ℕ
request_retries = 3

-- `connected` is a new REQ socket to the server, `closed` the end of the old one, and `sent` a call of
-- `zstr_send`, also where the socket still waits for a reply and refuses it.
pub data Effect : Type 0 where
  closed : Effect
  connected : Effect
  sent : List ℕ → Effect

-- In the inner loop, or after the loops.
pub data Phase : Type 0 where
  waiting : Phase
  finished : Phase

pub record Client : Type 0 where
  pub phase : Phase
  pub sequence : ℕ
  pub retries_left : ℕ
  pub trace : List Effect

-- A poll of `request_timeout` milliseconds; the receive behind it gives a text or NULL.
pub data Poll : Type 0 where
  failed : Poll
  expired : Poll
  readable : Option (List ℕ) → Poll

pub record Round : Type 0 where
  pub poll : Poll
  pub interrupted : Bool

module _ (D : Decimals) where
  -- The head of the outer loop, and a new request if it goes on.
  pub next_request : Bool → Client → Client
  next_request interrupted s =
      if s.retries_left == 0 || interrupted then record s { phase = finished } else (record s {
        phase = waiting;
        sequence = s.sequence + 1;
        trace = s.trace ++ sent (D.print (s.sequence + 1)) ∷ [];
      })

  -- A reply is for the request, or malformed.
  pub on_reply : Client → Bool → List ℕ → Client
  unfolding next_request
  on_reply s interrupted reply =
      if D.atoi reply == s.sequence
      then next_request interrupted (record s { retries_left = request_retries })
      else s

  -- No answer: the last try was in vain, or there is another one on a new connection.
  pub on_silence : Client → Bool → Client
  unfolding next_request
  on_silence s interrupted =
      if s.retries_left - 1 == 0
      then next_request interrupted (record s { retries_left = 0 })
      else (record s {
        retries_left = s.retries_left - 1;
        trace = s.trace ++ closed ∷ connected ∷ sent (D.print s.sequence) ∷ [];
      })

  -- One round of the inner loop.
  pub round : Client → Round → Client
  unfolding on_reply on_silence
  round s r = elim r.poll [
    | failed ↦ next_request r.interrupted s
    | expired ↦ on_silence s r.interrupted
    | readable none ↦ next_request r.interrupted s
    | readable (some reply) ↦ on_reply s r.interrupted reply
  ]

  pub run : Client → List Round → Client
  unfolding round
  run s [] = s
  run s (r ∷ rs) = elim s.phase [ waiting ↦ run (round s r) rs | finished ↦ s ]

  -- The client in front of the first poll.
  pub start : Bool → Client
  unfolding next_request
  start interrupted = next_request interrupted (record {
    phase = waiting;
    sequence = 0;
    retries_left = request_retries;
    trace = connected ∷ [];
  })
