-- ===== src/Task/Pipeline/Progress.antt =====
-- The pipeline gets through all tasks, in whatever order its messages move.
use zmq_test.Common.{ℕ, ◌+◌, ◌*◌, ◌≡◌, List, [], ◌∷◌, length, All}
use zmq_test.Czmq.{Frame}
use zmq_test.Base.Numbers.{Decimals}
use zmq_test.Task.Ventilator.Tasks.{IsTask, cost}
use zmq_test.Task.Sink.Counting.{seen, InRange, Tells}
use zmq_test.Task.Worker.Sleeping.{slept_msecs}
use zmq_test.Task.Pipeline.{System}
use zmq_test.Common.Steps.{Steps}

-- How many moves the messages still have to make.
abbrev measure : System → ℕ
measure s = 3 * length s.unsent + 2 * length s.waiting + length s.results

module _ (D : Decimals) where
  abbrev texts : List (ℕ × Frame) → List Frame
  texts [] = []
  texts ((i, f) ∷ xs) = f ∷ texts xs

  record Inv (total : ℕ) (s : System) : Type 0 where
    all_here : length s.unsent + length s.waiting + length s.results + seen s.sink ≡ 101
    in_range : InRange s.sink
    told : Tells s.sink s.controls
    unsent_tasks : All (IsTask D) s.unsent
    waiting_tasks : All (IsTask D) (texts s.waiting)
    paid : cost D s.unsent + cost D (texts s.waiting) + slept_msecs s.log ≡ total
