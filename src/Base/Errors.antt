-- ===== src/Base/Errors.antt =====
-- `parser_errno` of src/base.h, which tells the errors of ZeroMQ. Their numbers are parameters.
use zmq_test.Common.{ℕ, ◌==◌, if◌then◌else◌}

pub record Errors : Type 0 where
  pub eagain : ℕ
  pub enotsup : ℕ
  pub efsm : ℕ
  pub eterm : ℕ
  pub enotsock : ℕ
  pub eintr : ℕ

pub data Told : Type 0 where
  again : Told
  not_supported : Told
  wrong_state : Told
  terminated : Told
  not_socket : Told
  interrupted : Told
  unknown : Told

-- The cases of the switch; each stands for the name of the error, which is printed.
pub parser_errno : Errors → ℕ → Told
parser_errno e err =
    if err == e.eagain
    then again
    else if err == e.enotsup
    then not_supported
    else if err == e.efsm
    then wrong_state
    else if err == e.eterm
    then terminated
    else if err == e.enotsock
    then not_socket
    else if err == e.eintr
    then interrupted
    else unknown
