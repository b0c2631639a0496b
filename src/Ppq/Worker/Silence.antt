-- ===== src/Ppq/Worker/Silence.antt =====
-- A worker that hears nothing: every third turn it pauses, longer each time, and connects again.
use Prim.Native.Nat.{min}
use zmq_test.Common.{ℕ, suc, ◌*◌, ◌^◌, ◌≡◌, List, [], ◌∷◌, ltb, false, if◌then◌else◌}
use zmq_test.Ppq.Defs.{interval_max}
use zmq_test.Ppq.Queue.{quiet}
use zmq_test.Ppq.Worker.{Turn, Peer, Effect, connected, sent, slept, invalid_message}

abbrev pub IsSilent : Turn → Type 0
IsSilent t = (t.failed ≡ false) × (t.input ≡ quiet)

-- How often the worker has made a socket.
abbrev pub connects : List Effect → ℕ
connects [] = 0
connects (connected ∷ es) = suc (connects es)
connects (sent m ∷ es) = connects es
connects (slept n ∷ es) = connects es
connects (invalid_message m ∷ es) = connects es

-- What the countdown depends on.
abbrev Shows : Peer → ℕ → ℕ → ℕ → Type 0
Shows s alive pause sockets =
    (s.liveness ≡ alive) × (s.interval ≡ pause) × (connects s.trace ≡ sockets)

abbrev pause : ℕ → ℕ
pause n = min (1000 * 2 ^ n) 32000

abbrev longer : ℕ → ℕ
longer n = if ltb n interval_max then n * 2 else n
