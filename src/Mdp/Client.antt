-- ===== src/Mdp/Client.antt =====
-- api/MDP/mdcliapi.c, with the record of mdcliapi.h. The context is left out. What the environment
-- does in the i-th round of the loop of `mdcli_send` is `env i`.
pub mod Sends
pub mod Replies
use zmq_test.Common.{
  ℕ, zero, suc, ◌+◌, Option, none, some, Bool, true, false, List, [], ◌∷◌, ◌++◌, ltb, ◌==◌,
  if◌then◌else◌, streq,
}
use zmq_test.Czmq.{Frame, Msg, Zmsg}

-- `MDPC_CLIENT`, the text MDPC01
abbrev pub mdpc_client : Frame
mdpc_client = b'M' ∷ b'D' ∷ b'P' ∷ b'C' ∷ b'0' ∷ b'1' ∷ []

-- `connected` is a new REQ socket to an endpoint, `closed` the end of the old one.
pub data Effect : Type 0 where
  closed : Effect
  connected : List ℕ → Effect
  sent : Msg → Effect

-- `mdcli_t`; `client` says whether there is a socket.
pub record Session : Type 0 where
  pub broker : List ℕ
  pub client : Bool
  pub verbose : Bool
  pub timeout : ℕ
  pub retries : ℕ
  pub trace : List Effect

-- `_mdcli_connect_to_broker`
pub connect_to_broker : Session → Session
connect_to_broker self = record self {
  client = true;
  trace =
      self.trace
      ++ (if self.client then closed ∷ connected self.broker ∷ [] else connected self.broker ∷ []);
}

-- `mdcli_new`
pub new : List ℕ → Bool → Session
unfolding connect_to_broker
new broker verbose = connect_to_broker (record {
  broker = broker;
  client = false;
  verbose = verbose;
  timeout = 2500;
  retries = 3;
  trace = [];
})

-- `mdcli_set_timeout` and `mdcli_set_retries`
pub set_timeout : Session → ℕ → Session
set_timeout self timeout = record self { timeout = timeout }

pub set_retries : Session → ℕ → Session
set_retries self retries = record self { retries = retries }

-- A poll of one round: it fails, it times out, or the receive behind it gives a message or NULL.
pub data Poll : Type 0 where
  failed : Poll
  expired : Poll
  readable : Option Msg → Poll

-- `interrupted` is `zctx_interrupted` at the head of the loop.
pub record Round : Type 0 where
  pub interrupted : Bool
  pub poll : Poll

-- `aborted` is a failed assertion.
pub data Result : Type 0 where
  returned : Session → Msg → Result
  gave_up : Session → Result
  aborted : Result

module _ (C : Zmsg) where
  -- The last test of a reply, and the reply without its two frames.
  pub check_service : Session → List ℕ → Option Frame × Msg → Result
  check_service self service (none, m) = aborted
  check_service self service (some f, m) = if streq f service then returned self m else aborted

  pub check_header : Session → List ℕ → Option Frame × Msg → Result
  unfolding check_service
  check_header self service (none, m) = aborted
  check_header self service (some f, m) =
      if streq f mdpc_client then check_service self service (C.pop m) else aborted

  -- What is done with a reply.
  pub receive : Session → List ℕ → Option Msg → Result
  unfolding check_header
  receive self service none = aborted
  receive self service (some m) =
      if ltb (C.size m) 3 then aborted else check_header self service (C.pop m)

  module _ (env : ℕ → Round) where
    -- The loop of `mdcli_send`, with `retries_left` and the number of rounds made.
    pub send_loop : ℕ → ℕ → Session → List ℕ → Msg → Result
    unfolding receive connect_to_broker
    send_loop zero i self service request = gave_up self
    send_loop (suc retries_left) i self service request =
        let self' = record self { trace = self.trace ++ sent request ∷ [] } in
        let again = send_loop retries_left (suc i) (connect_to_broker self') service request in
        let result : Result = elim (env i).poll [
          | failed ↦ gave_up self'
          | expired ↦ if retries_left == 0 then gave_up self' else again
          | readable reply ↦ receive self' service reply
        ] in
        if (env i).interrupted then gave_up self else result

    -- `mdcli_send`
    pub send : Session → List ℕ → Msg → Result
    unfolding send_loop
    send self service request =
        send_loop self.retries 0 self service (C.push (C.push request service) mdpc_client)
