-- ===== src/Task/Ventilator.antt =====
-- src/task/ventilator.c, `main`: a start signal for the sink and a hundred tasks for the workers.
-- `draw i` is what `random()` gives for the i-th task.
pub mod Tasks
use zmq_test.Common.{ℕ, zero, suc, ◌+◌, List, [], ◌∷◌, ◌++◌}
use zmq_test.Czmq.{Frame}
use zmq_test.Base.Strings.{c_string}
use zmq_test.Base.Numbers.{Decimals}
use zmq_test.Base.Random.{randof}

pub record Output : Type 0 where
  pub tasks : List Frame
  pub total_msec : ℕ

abbrev pub nbr_tasks : ℕ
nbr_tasks = 100

-- The text that the sink gets first.
abbrev pub signal : Frame
signal = b'0' ∷ []

module _ (D : Decimals) (draw : ℕ → ℕ) where
  pub workload : ℕ → ℕ
  workload task_nbr = randof 100 (draw task_nbr) + 1

  -- The loop over the tasks, with the rounds that are left.
  pub ventilate : ℕ → ℕ → Output → Output
  unfolding workload
  ventilate zero task_nbr o = o
  ventilate (suc left) task_nbr o = ventilate left (task_nbr + 1) (record {
    tasks = o.tasks ++ c_string (D.print (workload task_nbr)) ∷ [];
    total_msec = o.total_msec + workload task_nbr;
  })

  -- `main`, behind the signal
  pub ventilator : Output
  ventilator = ventilate nbr_tasks 0 (record { tasks = []; total_msec = 0 })
