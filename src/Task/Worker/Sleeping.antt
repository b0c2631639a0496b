-- ===== src/Task/Worker/Sleeping.antt =====
-- How long a worker sleeps for a task.
use zmq_test.Common.{ℕ, ◌+◌, ◌*◌, ◌/◌, ◌≡◌, refl, List, [], ◌∷◌, ◌++◌, length, arith}
use zmq_test.Czmq.{Frame}
use zmq_test.Base.Numbers.{Decimals}
use zmq_test.Base.Time.{Timespec, s_sleep_lem}
use zmq_test.Task.Ventilator.Tasks.{IsTask, received-IsTask}
use zmq_test.Task.Worker.{Effect, slept, sent, effects_of, outputs, turn}

-- The milliseconds that workers have slept.
abbrev pub msecs : Timespec → ℕ
msecs t = t.tv_sec * 1000 + t.tv_nsec / 1000000

abbrev pub slept_msecs : List Effect → ℕ
slept_msecs [] = 0
slept_msecs (slept t ∷ es) = msecs t + slept_msecs es
slept_msecs (sent f ∷ es) = slept_msecs es

pub slept_msecs-append :
    (es fs : List Effect) → slept_msecs (es ++ fs) ≡ slept_msecs es + slept_msecs fs
slept_msecs-append [] fs = omega arith
slept_msecs-append (slept t ∷ es) fs = omega (arith, slept_msecs-append es fs)
slept_msecs-append (sent f ∷ es) fs = slept_msecs-append es fs

module _ (D : Decimals) where
  -- A worker sends one frame for a task, and sleeps as long as the task asks for.
  pub effects_of-IsTask :
      (f : Frame)
      → IsTask D f
      → (length (outputs (effects_of D f)) ≡ 1) × (slept_msecs (effects_of D f) ≡ D.atoi f)
  unfolding turn
  effects_of-IsTask f t = rw (received-IsTask D f t) (refl, omega (arith, s_sleep_lem (D.atoi f)))
