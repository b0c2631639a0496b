-- ===== src/Ppq/Worker/Backoff.antt =====
-- How the worker survives silence: its liveness, and the pauses before it connects again.
use zmq_test.Common.{ℕ, ◌≤◌, ◌≡◌, ◌⊎◌}
use zmq_test.Ppq.Queue.{Outcome, running, stopped, aborted}
use zmq_test.Ppq.Worker.{Peer}

-- A pause is one second, doubled at most five times.
abbrev pub IsPause : ℕ → Type 0
IsPause n = (n ≡ 1000) ⊎ ((n ≡ 2000) ⊎ ((n ≡ 4000) ⊎ ((n ≡ 8000) ⊎ ((n ≡ 16000) ⊎ (n ≡ 32000)))))

-- Between two turns the worker has one to three silent turns left.
pub record Inv (s : Peer) : Type 0 where
  pub alive : 1 ≤ s.liveness
  pub patient : s.liveness ≤ 3
  pub pause : IsPause s.interval

abbrev pub Keeps : (Peer → Type 0) → Outcome Peer → Type 0
Keeps P (running s) = P s
Keeps P (stopped s) = P s
Keeps P aborted = ⊥
