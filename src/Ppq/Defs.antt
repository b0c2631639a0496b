-- ===== src/Ppq/Defs.antt =====
-- src/ppq/ppq.h: the constants and `worker_t`.
use zmq_test.Common.{ℕ, List, [], ◌∷◌}
use zmq_test.Czmq.{Frame}

abbrev pub heartbeat_liveness : ℕ
heartbeat_liveness = 3

abbrev pub heartbeat_interval : ℕ
heartbeat_interval = 1000

abbrev pub interval_init : ℕ
interval_init = 1000

abbrev pub interval_max : ℕ
interval_max = 32000

abbrev pub ppp_ready : Frame
ppp_ready = 1 ∷ []

abbrev pub ppp_heartbeat : Frame
ppp_heartbeat = 2 ∷ []

-- `worker_t`; times are in milliseconds.
pub record Worker : Type 0 where
  pub identity : Frame
  pub id_string : List ℕ
  pub expiry : ℕ
