-- ===== src/Mdp/Worker.antt =====
-- api/MDP/mdwrkapi.c, with the record of mdwrkapi.h. The context is left out; `clock n` is the n-th
-- reading of `zclock_time`, and a list of polls is what the loop of `mdwrk_recv` meets.
pub mod Replying
use zmq_test.Common.{
  ℕ, zero, suc, ◌+◌, Option, none, some, Bool, true, false, List, [], ◌∷◌, ◌++◌, if◌then◌else◌,
}
use zmq_test.Czmq.{Frame, Msg, Zmsg}

-- `MDPW_WORKER`, the text MDPW01
abbrev pub mdpw_worker : Frame
mdpw_worker = b'M' ∷ b'D' ∷ b'P' ∷ b'W' ∷ b'0' ∷ b'1' ∷ []

abbrev pub mdpw_ready : Frame
mdpw_ready = 1 ∷ []

abbrev pub mdpw_reply : Frame
mdpw_reply = 3 ∷ []

abbrev pub heartbeat_liveness : ℕ
heartbeat_liveness = 3

-- `connected` is a new DEALER socket to an endpoint, `closed` the end of the old one.
pub data Effect : Type 0 where
  closed : Effect
  connected : List ℕ → Effect
  sent : Msg → Effect

-- `mdwrk_t`; `worker` says whether there is a socket, `reads` how often the clock was read.
pub record Session : Type 0 where
  pub broker : List ℕ
  pub service : List ℕ
  pub worker : Bool
  pub verbose : Bool
  pub heartbeat_at : ℕ
  pub liveness : ℕ
  pub heartbeat : ℕ
  pub reconnect : ℕ
  pub expect_reply : Bool
  pub reply_to : Option Frame
  pub reads : ℕ
  pub trace : List Effect

pub set_heartbeat : Session → ℕ → Session
set_heartbeat self heartbeat = record self { heartbeat = heartbeat }

pub set_reconnect : Session → ℕ → Session
set_reconnect self reconnect = record self { reconnect = reconnect }

-- A poll fails, times out, or has a message to receive.
pub data Poll : Type 0 where
  failed : Poll
  expired : Poll
  readable : Option Msg → Poll

-- `waiting` is a call that still loops, `no_result` one that ran off the end of the function,
-- which has no `return` there, and `aborted` a failed assertion.
pub data Outcome : Type 0 where
  waiting : Session → Outcome
  no_result : Session → Outcome
  aborted : Outcome

module _ (C : Zmsg) (clock : ℕ → ℕ) where
  -- `_mdwrk_send_to_broken`
  pub send_to_broken : Session → Frame → Option Frame → Option Msg → Session
  send_to_broken self command option msg =
      let body : Msg = elim msg [ none ↦ [] | some m ↦ m ] in
      let with_option : Msg = elim option [ none ↦ body | some o ↦ C.push body o ] in
      record self {
        trace =
            self.trace ++ sent (C.push (C.push (C.push with_option command) mdpw_worker) []) ∷ [];
      }

  -- `_mdwrk_connect_to_broken`
  pub connect_to_broken : Session → Session
  unfolding send_to_broken
  connect_to_broken self =
      let fresh = record self {
        worker = true;
        trace =
            self.trace
            ++ (if self.worker
                then closed ∷ connected self.broker ∷ []
                else connected self.broker ∷ []);
      } in
      record (send_to_broken fresh mdpw_ready (some self.service) none) {
        liveness = heartbeat_liveness;
        heartbeat_at = clock self.reads + self.heartbeat;
        reads = self.reads + 1;
      }

  -- `mdwrk_new`
  pub new : List ℕ → List ℕ → Bool → Session
  unfolding connect_to_broken
  new broker service verbose = connect_to_broken (record {
    broker = broker;
    service = service;
    worker = false;
    verbose = verbose;
    heartbeat_at = 0;
    liveness = 0;
    heartbeat = 2500;
    reconnect = 2500;
    expect_reply = false;
    reply_to = none;
    reads = 0;
    trace = [];
  })

  -- The loop of `mdwrk_recv`, which does nothing with a message.
  pub recv_loop : Session → List Poll → Outcome
  recv_loop self [] = waiting self
  recv_loop self (failed ∷ polls) = no_result self
  recv_loop self (expired ∷ polls) = recv_loop self polls
  recv_loop self (readable msg ∷ polls) = recv_loop self polls

  -- The reply goes out to the address in `reply_to`.
  pub send_reply : Session → Msg → Option Frame → Option Session
  unfolding send_to_broken
  send_reply self reply none = none
  send_reply self reply (some address) =
      some (send_to_broken self mdpw_reply none (some (C.wrap reply address)))

  -- `mdwrk_recv`
  pub recv : Session → Option Msg → List Poll → Outcome
  unfolding send_reply recv_loop
  recv self none polls =
      if self.expect_reply then aborted else recv_loop (record self { expect_reply = true }) polls
  recv self (some reply) polls = elim (send_reply self reply self.reply_to) [
    | none ↦ aborted
    | some next ↦ recv_loop (record next { expect_reply = true }) polls
  ]
